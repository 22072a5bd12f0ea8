-- ===== src/Contracts/Request/Again.antt =====
-- contracts.py: the persisted form of an accepted request is accepted as the same request.
use scooling_lab.Base.{String, Bool, true, false, Option, pos, codes, all, ltb, map, ◌≡◌, refl}
use scooling_lab.Errors.{ok}
use scooling_lab.Json.{Value, str, int, float, bool, obj, Fields, end, field, get, keys_within}
use scooling_lab.Platform.{Platform, IsLowercasing, lower_code}
use scooling_lab.Retention.{RetentionPolicy, class_value, to_public_dict}
use scooling_lab.Retention.Laws.{retention_policy_from_mapping-to_public_dict}
use scooling_lab.Contracts.Identifiers.{is_own_data_dataset_id}
use scooling_lab.Contracts.Identifiers.Laws.{
  require_safe_identifier_lem, require_requester_lem, require_training_dataset_id_lem,
}
use scooling_lab.Contracts.Parameters.{with_entry}
use scooling_lab.Contracts.Parameters.Accepted.{
  IsAccepted, accepted, EpochsField, with_epochs, RateField, with_rate, DryRunField, gpu_run,
  dry_run, without,
}
use scooling_lab.Contracts.Parameters.Again.{validate_training_parameters_again}
use scooling_lab.Contracts.Request.{
  TrainingJobRequest, parameters_for, from_mapping, request_to_persisted, reject_forbidden_keys,
  reject_forbidden_value, is_forbidden_key,
}
use scooling_lab.Contracts.Request.Laws.{FitsShape, gpu_shape, wave_a_shape, IsValid}

module _ ⦃p : Platform⦄ where
  key_allowed :
      (k : String)
      → IsLowercasing p
      → all (λ c. ltb c 128) (codes k) ≡ true
      → is_forbidden_key (map lower_code (codes k)) ≡ false
      → is_forbidden_key (codes (p.lower k)) ≡ false
  key_allowed k l a h = rw (l.lower_ascii k a) h

  reject_forbidden_keys-field :
      (k : String) (v : Value) (fs : Fields)
      → is_forbidden_key (codes (p.lower k)) ≡ false
      → reject_forbidden_value v ≡ ok tt
      → reject_forbidden_keys fs ≡ ok tt
      → reject_forbidden_keys (field k v fs) ≡ ok tt
  unfolding reject_forbidden_keys
  reject_forbidden_keys-field k v fs a b c = rw (a, b, c)

  epochs_allowed :
      {o : Option Value} (fs : Fields)
      → IsLowercasing p
      → EpochsField o
      → reject_forbidden_keys fs ≡ ok tt
      → reject_forbidden_keys (with_entry "epochs" o fs) ≡ ok tt
  unfolding reject_forbidden_keys is_forbidden_key
  epochs_allowed fs l without h = h
  epochs_allowed fs l (with_epochs n a b) h =
      reject_forbidden_keys-field "epochs" (int (pos n)) fs (key_allowed "epochs" l refl refl) refl
        h

  rate_allowed :
      {o : Option Value} (fs : Fields)
      → IsLowercasing p
      → RateField o
      → reject_forbidden_keys fs ≡ ok tt
      → reject_forbidden_keys (with_entry "learningRate" o fs) ≡ ok tt
  unfolding reject_forbidden_keys is_forbidden_key
  rate_allowed fs l without h = h
  rate_allowed fs l (with_rate x a) h =
      reject_forbidden_keys-field "learningRate" (float x) fs
        (key_allowed "learningRate" l refl refl) refl h

  dry_run_allowed :
      (mode : String) (required : Bool) {o : Option Value}
      → IsLowercasing p
      → DryRunField mode required o
      → reject_forbidden_keys (with_entry "dryRun" o end) ≡ ok tt
  unfolding reject_forbidden_keys is_forbidden_key
  dry_run_allowed mode required l (gpu_run g) =
      reject_forbidden_keys-field "dryRun" (bool false) end (key_allowed "dryRun" l refl refl) refl
        refl
  dry_run_allowed mode required l (dry_run g) =
      reject_forbidden_keys-field "dryRun" (bool true) end (key_allowed "dryRun" l refl refl) refl
        refl
  dry_run_allowed mode required l (without g r) = refl

  parameters_allowed :
      (mode : String) (required : Bool) {fs : Fields}
      → IsLowercasing p
      → IsAccepted mode required fs
      → reject_forbidden_keys fs ≡ ok tt
  parameters_allowed mode required l (accepted he hr hd) =
      epochs_allowed _ l he (rate_allowed _ l hr (dry_run_allowed mode required l hd))

  shape_allowed :
      (d m : String) {fs : Fields}
      → IsLowercasing p
      → FitsShape d m fs
      → reject_forbidden_keys fs ≡ ok tt
  shape_allowed d m l (gpu_shape g own a) = parameters_allowed "gpu" false l a
  shape_allowed d m l (wave_a_shape g a) =
      parameters_allowed "wave_a" (is_own_data_dataset_id d) l a

  policy_allowed :
      (r : RetentionPolicy) → IsLowercasing p → reject_forbidden_value (to_public_dict r) ≡ ok tt
  unfolding reject_forbidden_keys is_forbidden_key to_public_dict
  policy_allowed r l =
      reject_forbidden_keys-field "policyClass" (str (class_value r.policy_class))
        (field "ttlSeconds" (int (pos r.ttl_seconds)) end) (key_allowed "policyClass" l refl refl)
        refl
        (reject_forbidden_keys-field "ttlSeconds" (int (pos r.ttl_seconds)) end
          (key_allowed "ttlSeconds" l refl refl) refl refl)

  persisted_allowed :
      (r : TrainingJobRequest)
      → IsLowercasing p
      → IsValid r
      → reject_forbidden_keys (request_to_persisted r) ≡ ok tt
  unfolding reject_forbidden_keys is_forbidden_key request_to_persisted
  persisted_allowed r l v =
      let f6 = field "trainingParameters" (obj r.training_parameters) end in
      let f5 = field "retentionPolicy" (to_public_dict r.retention_policy) f6 in
      let f4 = field "requestedBy" (str r.requested_by) f5 in
      let f3 = field "modelId" (str r.model_id) f4 in
      let f2 = field "datasetId" (str r.dataset_id) f3 in
      let a6 =
        reject_forbidden_keys-field "trainingParameters" (obj r.training_parameters) end
          (key_allowed "trainingParameters" l refl refl)
          (shape_allowed r.dataset_id r.model_id l v.shaped) refl in
      let a5 =
        reject_forbidden_keys-field "retentionPolicy" (to_public_dict r.retention_policy) f6
          (key_allowed "retentionPolicy" l refl refl) (policy_allowed r.retention_policy l) a6 in
      let a4 =
        reject_forbidden_keys-field "requestedBy" (str r.requested_by) f5
          (key_allowed "requestedBy" l refl refl) refl a5 in
      let a3 =
        reject_forbidden_keys-field "modelId" (str r.model_id) f4
          (key_allowed "modelId" l refl refl) refl a4 in
      let a2 =
        reject_forbidden_keys-field "datasetId" (str r.dataset_id) f3
          (key_allowed "datasetId" l refl refl) refl a3 in
      reject_forbidden_keys-field "idempotencyKey" (str r.idempotency_key) f2
        (key_allowed "idempotencyKey" l refl refl) refl a2

  parameters_for_again :
      (d m : String) {fs : Fields} → FitsShape d m fs → parameters_for d m (obj fs) ≡ ok fs
  unfolding parameters_for
  parameters_for_again d m (gpu_shape g own a) =
      rw (g, own) (validate_training_parameters_again false "gpu" refl a)
  parameters_for_again d m (wave_a_shape g a) =
      rw g (validate_training_parameters_again (is_own_data_dataset_id d) "wave_a" refl a)

  -- A valid request, written to the store's file and validated again, is the same request,
  -- where the platform lowercases ASCII text as documented.
  pub from_mapping-request_to_persisted :
      (r : TrainingJobRequest)
      → IsLowercasing p
      → IsValid r
      → from_mapping (request_to_persisted r) ≡ ok r
  unfolding from_mapping request_to_persisted get keys_within
  from_mapping-request_to_persisted r l v = rw (persisted_allowed r l v) (
      rw (require_safe_identifier_lem r.idempotency_key) (
        rw v.safe_key (
          rw (require_training_dataset_id_lem r.dataset_id) (
            rw v.known_dataset (
              rw (require_safe_identifier_lem r.model_id) (
                rw v.safe_model (
                  rw (require_requester_lem r.requested_by) (
                    rw v.safe_requester (
                      rw (retention_policy_from_mapping-to_public_dict r.retention_policy v.bounded)
                        (rw v.known_model
                          (rw (parameters_for_again r.dataset_id r.model_id v.shaped))))))))))))
