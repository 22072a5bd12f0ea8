-- ===== src/Provenance/Refusals.antt =====
-- provenance.py: the validation refuses a record with an `ApiError` and with nothing else.
use scooling_lab.Base.{String, Bool, refl, not, ◌&&◌, str_eq, Option-cases, Bool-cases, inl, inr}
use Prim.Native.String.{◌++◌}
use scooling_lab.Base.{ends_with, remove_suffix}
use scooling_lab.Errors.{◌>>◌, raise_if, Result, err, api, is_api_error, validation_error}
use scooling_lab.Json.{null, bool, int, float, str, arr, obj, Fields, end, field, get, keys_within}
use scooling_lab.Platform.{Platform}
use scooling_lab.Raises.{
  RaisesOnly, bind-RaisesOnly, raise_if-RaisesOnly, ok-RaisesOnly, err-RaisesOnly,
}
use scooling_lab.Provenance.{
  ProvenanceRecord, to_dict, provenance_keys, provenance_schema_version, has_keys, hash_re,
  check_texts, check_timestamp, unsafe_free_text_re, validate_provenance_mapping,
  validate_provenance_record,
}
use scooling_lab.Retention.{parse_utc_timestamp}
use scooling_lab.Contracts.Identifiers.{job_id_re, safe_identifier_re}

abbrev Refuses : {A : Type 0} → Result A → Type 0
Refuses = RaisesOnly is_api_error

invalid : Refuses {A = Unit {0}} (err (api validation_error 400))
invalid = err-RaisesOnly {A = Unit {0}} is_api_error (api validation_error 400) refl

-- a check that refuses, before the rest
then :
    (b : Bool) (rest : Result (Unit {0}))
    → Refuses rest
    → Refuses (raise_if b (api validation_error 400) >> rest)
then b rest = raise_if-RaisesOnly is_api_error b (api validation_error 400) (λ _. rest) refl

module _ ⦃p : Platform⦄ where
  check_texts-Refuses : (fs : Fields) → Refuses (check_texts fs)
  unfolding check_texts
  check_texts-Refuses end = ok-RaisesOnly is_api_error tt
  check_texts-Refuses (field k (str s) fs) =
      then (not (str_eq k "createdAt") && unsafe_free_text_re s) (check_texts fs)
        (check_texts-Refuses fs)
  check_texts-Refuses (field k null fs) = invalid
  check_texts-Refuses (field k (bool b) fs) = invalid
  check_texts-Refuses (field k (int n) fs) = invalid
  check_texts-Refuses (field k (float x) fs) = invalid
  check_texts-Refuses (field k (arr xs) fs) = invalid
  check_texts-Refuses (field k (obj xs) fs) = invalid

  check_timestamp-Refuses : (s : String) → Refuses (check_timestamp s)
  unfolding check_timestamp parse_utc_timestamp
  check_timestamp-Refuses s = elim (Bool-cases (ends_with s "Z")) [
    | inr h ↦ rw (h, check_timestamp) invalid
    | inl h ↦ elim (Option-cases (p.fromisoformat (remove_suffix s "Z" ++ "+00:00"))) [
      | inl f ↦ rw (h, f, check_timestamp) invalid
      | inr (t, f) ↦ rw (h, f, check_timestamp) (ok-RaisesOnly is_api_error tt)
    ]
  ]

  -- The validation of a provenance record raises nothing but an ApiError.
  pub validate_provenance_record-RaisesOnly :
      (r : ProvenanceRecord) → RaisesOnly is_api_error (validate_provenance_record r)
  unfolding validate_provenance_record validate_provenance_mapping to_dict get
  validate_provenance_record-RaisesOnly r =
      then (not (keys_within provenance_keys (to_dict r) && has_keys provenance_keys (to_dict r))) _
        (bind-RaisesOnly is_api_error (check_texts (to_dict r)) _ (check_texts-Refuses (to_dict r))
          (λ _. then (not (job_id_re r.job_id)) _ (
            then (not (hash_re r.dataset_hash)) _ (
              then (not (hash_re r.artifact_hash)) _ (
                then (not (hash_re r.training_config_hash)) _ (
                  then (not (safe_identifier_re r.base_model_id)) _ (
                    then (not (str_eq r.schema_version provenance_schema_version)) _
                      (check_timestamp-Refuses r.created_at))))))))
