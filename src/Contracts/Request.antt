-- ===== src/Contracts/Request.antt =====
-- contracts.py: `TrainingJobRequest`, its validation, and its serializations.
pub mod Laws
pub mod Again
use Prim.Native.String.{◌++◌}
use scooling_lab.Base.{
  ℕ, String, Bool, true, false, ◌&&◌, ◌||◌, List, [], ◌∷◌, Option, none, some, any, str_eq, prefix,
  codes, if◌then◌else◌, not, ◌==◌,
}
use scooling_lab.Errors.{Result, ok, err, api, validation_error, ◌>>=◌, ◌>>◌, raise_if}
use scooling_lab.Json.{
  Value, Items, null, str, obj, Fields, end, field, get_or_null, get_or, keys_within, member,
  sorted_fields,
}
use scooling_lab.Platform.{Platform}
use scooling_lab.Retention.{RetentionPolicy, to_public_dict, retention_policy_from_mapping}
use scooling_lab.Contracts.Identifiers.{
  search_re, literal, Class, require_safe_identifier, require_requester,
  require_training_dataset_id, is_own_data_dataset_id,
}
use scooling_lab.Contracts.Parameters.{validate_training_parameters}

abbrev pub wave_a_model_id : String
wave_a_model_id = "fixture-tiny-llm"

abbrev pub gpu_product_model_id : String
gpu_product_model_id = "scooling-lab-gpu-personal-v1"

abbrev pub allowed_request_keys : List String
allowed_request_keys =
    "idempotencyKey" ∷ "datasetId" ∷ "modelId" ∷ "requestedBy" ∷ "retentionPolicy"
    ∷ "trainingParameters" ∷ []

abbrev pub forbidden_key_terms : List String
forbidden_key_terms =
    "url" ∷ "uri" ∷ "path" ∷ "file" ∷ "shell" ∷ "command" ∷ "callback" ∷ "webhook" ∷ "worker" ∷ []

-- `class TrainingJobRequest`; the parameters are the dict's items
pub record TrainingJobRequest : Type 0 where
  pub idempotency_key : String
  pub dataset_id : String
  pub model_id : String
  pub requested_by : String
  pub retention_policy : RetentionPolicy
  pub training_parameters : Fields

-- `term in text`
abbrev literals : List ℕ → List Class
literals [] = []
literals (k ∷ ks) = literal k ∷ literals ks

unfoldable pub contains_term : List ℕ → String → Bool
unfolding search_re
contains_term text term = search_re (literals (codes term) ∷ []) text

unfoldable pub is_forbidden_key : List ℕ → Bool
unfolding contains_term
is_forbidden_key lowered = any (contains_term lowered) forbidden_key_terms

-- The recursion goes into mappings, and not into lists.
unfoldable mutual
  pub reject_forbidden_value : ⦃p : Platform⦄ → Value → Result (Unit {0})
  reject_forbidden_value (obj fs) = reject_forbidden_keys fs
  reject_forbidden_value _ = ok tt

  pub reject_forbidden_keys : ⦃p : Platform⦄ → Fields → Result (Unit {0})
  reject_forbidden_keys end = ok tt
  reject_forbidden_keys ⦃p⦄ (field k v fs) =
      raise_if (is_forbidden_key (codes (p.lower k))) (api validation_error 400)
      >> (reject_forbidden_value v >> reject_forbidden_keys fs)

module _ ⦃p : Platform⦄ where
  -- The parameters of the GPU shape, which wants own data, and of the other shape.
  unfoldable pub parameters_for : String → String → Value → Result Fields
  parameters_for dataset_id model_id given =
      let is_own = is_own_data_dataset_id dataset_id in
      if str_eq model_id gpu_product_model_id
      then raise_if (not is_own) (api validation_error 400)
        >> validate_training_parameters given false "gpu"
      else validate_training_parameters given is_own "wave_a"

  unfoldable pub from_mapping : Fields → Result TrainingJobRequest
  from_mapping payload = do
    reject_forbidden_keys payload
    raise_if (not (keys_within allowed_request_keys payload)) (api validation_error 400)
    idempotency_key ← require_safe_identifier (get_or_null "idempotencyKey" payload)
    dataset_id ← require_training_dataset_id (get_or_null "datasetId" payload)
    model_id ← require_safe_identifier (get_or_null "modelId" payload)
    requested_by ← require_requester (get_or_null "requestedBy" payload)
    retention_policy ← retention_policy_from_mapping (get_or_null "retentionPolicy" payload)
    raise_if (not (str_eq model_id wave_a_model_id || str_eq model_id gpu_product_model_id))
        (api validation_error 400)
    training_parameters ←
        parameters_for dataset_id model_id (get_or "trainingParameters" (obj end) payload)
    ok (record {
      idempotency_key = idempotency_key;
      dataset_id = dataset_id;
      model_id = model_id;
      requested_by = requested_by;
      retention_policy = retention_policy;
      training_parameters = training_parameters;
    })

  -- `fingerprint`: `json.dumps` sorts the keys, the parameters' too
  unfoldable pub fingerprint : TrainingJobRequest → String
  fingerprint r = p.json_dumps (
      obj (
        field "datasetId" (str r.dataset_id) (
          field "idempotencyKey" (str r.idempotency_key) (
            field "modelId" (str r.model_id) (
              field "requestedBy" (str r.requested_by) (
                field "retentionPolicy" (to_public_dict r.retention_policy)
                  (field "trainingParameters" (obj (sorted_fields r.training_parameters)) end)))))))

  unfoldable pub stable_job_id : TrainingJobRequest → String
  unfolding fingerprint
  stable_job_id r = "job_" ++ prefix 24 (p.sha256_hex (fingerprint r))

-- `TrainingJobRequest.to_public_dict`
unfoldable pub request_to_public_dict : TrainingJobRequest → Value
request_to_public_dict r = obj (
    field "datasetId" (str r.dataset_id) (
      field "modelId" (str r.model_id) (
        field "requestedBy" (str r.requested_by) (
          field "retentionPolicy" (to_public_dict r.retention_policy)
            (field "trainingParameters" (obj (sorted_fields r.training_parameters)) end)))))

-- the `"request"` entry of `TrainingJobRecord.to_persisted_dict`
unfoldable pub request_to_persisted : TrainingJobRequest → Fields
request_to_persisted r = field "idempotencyKey" (str r.idempotency_key) (
    field "datasetId" (str r.dataset_id) (
      field "modelId" (str r.model_id) (
        field "requestedBy" (str r.requested_by) (
          field "retentionPolicy" (to_public_dict r.retention_policy)
            (field "trainingParameters" (obj r.training_parameters) end)))))
