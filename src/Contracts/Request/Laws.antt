-- ===== src/Contracts/Request/Laws.antt =====
-- contracts.py: what an accepted request is, and that its persisted form is accepted as itself.
use scooling_lab.Base.{
  String, true, false, ◌||◌, str_eq, not, ◌≡◌, subst, inl, inr, Bool-cases, true_of_not,
}
use scooling_lab.Errors.{ok, err, api, validation_error, >>=-eq-ok, raise_if-ok, ok-injective}
use scooling_lab.Json.{Value, obj, Fields, end, get_or_null, get_or, keys_within}
use scooling_lab.Platform.{Platform}
use scooling_lab.Retention.{retention_policy_from_mapping}
use scooling_lab.Retention.Laws.{IsBounded, retention_policy_from_mapping-IsBounded}
use scooling_lab.Contracts.Identifiers.{
  safe_identifier_re, requester_re, is_allowed_training_dataset_id, require_safe_identifier,
  require_requester, require_training_dataset_id, is_own_data_dataset_id,
}
use scooling_lab.Contracts.Identifiers.Laws.{
  require_safe_identifier-ok, require_requester-ok, require_training_dataset_id-ok,
}
use scooling_lab.Contracts.Parameters.Accepted.{IsAccepted, validate_training_parameters-IsAccepted}
use scooling_lab.Contracts.Request.{
  TrainingJobRequest, parameters_for, from_mapping, reject_forbidden_keys, wave_a_model_id,
  gpu_product_model_id, allowed_request_keys,
}

-- The parameters that a shape takes: a GPU job is for own data and not a dry run; any other job on
-- own data is a dry run.
pub data FitsShape (dataset_id model_id : String) (fs : Fields) : Type 0 where
  gpu_shape :
      str_eq model_id gpu_product_model_id ≡ true
      → is_own_data_dataset_id dataset_id ≡ true
      → IsAccepted "gpu" false fs
      → FitsShape dataset_id model_id fs
  wave_a_shape :
      str_eq model_id gpu_product_model_id ≡ false
      → IsAccepted "wave_a" (is_own_data_dataset_id dataset_id) fs
      → FitsShape dataset_id model_id fs

pub record IsValid (r : TrainingJobRequest) : Type 0 where
  pub safe_key : safe_identifier_re r.idempotency_key ≡ true
  pub known_dataset : is_allowed_training_dataset_id r.dataset_id ≡ true
  pub safe_model : safe_identifier_re r.model_id ≡ true
  pub safe_requester : requester_re r.requested_by ≡ true
  pub bounded : IsBounded r.retention_policy
  pub known_model :
      (str_eq r.model_id wave_a_model_id || str_eq r.model_id gpu_product_model_id) ≡ true
  pub shaped : FitsShape r.dataset_id r.model_id r.training_parameters

module _ ⦃p : Platform⦄ where
  parameters_for-FitsShape :
      (dataset_id model_id : String) (v : Value) {fs : Fields}
      → parameters_for dataset_id model_id v ≡ ok fs
      → FitsShape dataset_id model_id fs
  unfolding parameters_for
  parameters_for-FitsShape d m v h = elim (Bool-cases (str_eq m gpu_product_model_id)) [
    | inl g ↦ elim (Bool-cases (is_own_data_dataset_id d)) [
      | inl own ↦
          gpu_shape g own (validate_training_parameters-IsAccepted v false "gpu" (rw (g, own) at h))
      | inr other ↦ let bad : err (api validation_error 400) ≡ ok _ = rw (g, other) at h in cc
    ]
    | inr g ↦
        wave_a_shape g (
          validate_training_parameters-IsAccepted v (is_own_data_dataset_id d) "wave_a" (rw g at h))
  ]

  -- An accepted request has identifiers of the required forms, a retention policy within
  -- bounds, a known model, and the parameters of its shape.
  pub from_mapping-IsValid :
      (payload : Fields) {r : TrainingJobRequest} → from_mapping payload ≡ ok r → IsValid r
  unfolding from_mapping
  from_mapping-IsValid payload h =
      let (_, _, h1) = >>=-eq-ok (reject_forbidden_keys payload) _ h in
      let (_, h2) = raise_if-ok (not (keys_within allowed_request_keys payload)) _ _ h1 in
      let (key, e1, h3) =
        >>=-eq-ok (require_safe_identifier (get_or_null "idempotencyKey" payload)) _ h2 in
      let (dataset, e2, h4) =
        >>=-eq-ok (require_training_dataset_id (get_or_null "datasetId" payload)) _ h3 in
      let (model, e3, h5) =
        >>=-eq-ok (require_safe_identifier (get_or_null "modelId" payload)) _ h4 in
      let (requester, e4, h6) =
        >>=-eq-ok (require_requester (get_or_null "requestedBy" payload)) _ h5 in
      let (policy, e5, h7) =
        >>=-eq-ok (retention_policy_from_mapping (get_or_null "retentionPolicy" payload)) _ h6 in
      let (k, h8) =
        raise_if-ok (not (str_eq model wave_a_model_id || str_eq model gpu_product_model_id)) _ _
          h7 in
      let (params, e6, h9) =
        >>=-eq-ok (parameters_for dataset model (get_or "trainingParameters" (obj end) payload)) _
          h8 in
      subst IsValid (ok-injective h9) (record {
        safe_key = (require_safe_identifier-ok _ e1).1;
        known_dataset = (require_training_dataset_id-ok _ e2).1;
        safe_model = (require_safe_identifier-ok _ e3).1;
        safe_requester = (require_requester-ok _ e4).1;
        bounded = retention_policy_from_mapping-IsBounded _ e5;
        known_model = true_of_not _ k;
        shaped = parameters_for-FitsShape dataset model _ e6;
      })
