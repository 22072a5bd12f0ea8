-- ===== src/Provenance.antt =====
-- provenance.py: the content-free provenance record and its validation.
pub mod Laws
pub mod Refusals
pub mod ArtifactIds
use scooling_lab.Base.{String, Bool, true, ◌&&◌, List, [], ◌∷◌, some, str_eq, codes, not}
use scooling_lab.Errors.{
  Result, ok, err, api, api_error, value_error, validation_error, ◌>>=◌, ◌>>◌, raise_if,
}
use scooling_lab.Json.{str, Fields, end, field, get, keys_within, has_key}
use scooling_lab.Platform.{Platform}
use scooling_lab.Retention.{parse_utc_timestamp}
use scooling_lab.Contracts.Identifiers.{
  Class, search_re, repeat_re, is_hex_char, safe_identifier_re, job_id_re, letter, letter_s,
  letter_i, literal, shell_char, colon_slashes,
}

abbrev pub provenance_schema_version : String
provenance_schema_version = "scooling-lab.provenance.v1"

abbrev pub provenance_keys : List String
provenance_keys =
    "jobId" ∷ "datasetHash" ∷ "artifactHash" ∷ "baseModelId" ∷ "trainingConfigHash" ∷ "createdAt"
    ∷ "schemaVersion" ∷ []

unfoldable pub hash_re : String → Bool
unfolding repeat_re is_hex_char
hash_re s = repeat_re is_hex_char 64 64 (codes s)

-- `class ProvenanceRecord`
pub record ProvenanceRecord : Type 0 where
  pub job_id : String
  pub dataset_hash : String
  pub artifact_hash : String
  pub base_model_id : String
  pub training_config_hash : String
  pub created_at : String
  pub schema_version : String

unfoldable pub to_dict : ProvenanceRecord → Fields
to_dict r = field "artifactHash" (str r.artifact_hash) (
    field "baseModelId" (str r.base_model_id) (
      field "createdAt" (str r.created_at) (
        field "datasetHash" (str r.dataset_hash) (
          field "jobId" (str r.job_id) (
            field "schemaVersion" (str r.schema_version)
              (field "trainingConfigHash" (str r.training_config_hash) end))))))

-- `all(key in payload for key in keys)`
abbrev pub has_keys : List String → Fields → Bool
has_keys [] fs = true
has_keys (k ∷ ks) fs = has_key k fs && has_keys ks fs

-- `str(payload[key])` of a text
abbrev text_at : String → Fields → Result String
text_at k fs = elim (get k fs) [ some (str s) ↦ ok s | _ ↦ err (api validation_error 400) ]

module _ ⦃p : Platform⦄ where
  -- `UNSAFE_FREE_TEXT_RE`
  abbrev pub unsafe_alternatives : List (List Class)
  unsafe_alternatives =
      (letter b'h' ∷ letter b't' ∷ letter b't' ∷ letter b'p' ∷ colon_slashes)
      ∷ (letter b'h' ∷ letter b't' ∷ letter b't' ∷ letter b'p' ∷ letter_s ∷ colon_slashes)
      ∷ (letter b'f' ∷ letter_i ∷ letter b'l' ∷ letter b'e' ∷ colon_slashes)
      ∷ (letter_s ∷ letter_s ∷ letter b'h' ∷ colon_slashes)
      ∷ (literal b'.' ∷ literal b'.' ∷ literal b'/' ∷ [])
      ∷ (literal b'/' ∷ [])
      ∷ (literal b'\\' ∷ [])
      ∷ (shell_char ∷ [])
      ∷ (p.is_space ∷ [])
      ∷ []

  unfoldable pub unsafe_free_text_re : String → Bool
  unfolding search_re
  unsafe_free_text_re s = search_re unsafe_alternatives (codes s)

  -- the loop over `payload.items()`
  unfoldable pub check_texts : Fields → Result (Unit {0})
  check_texts end = ok tt
  check_texts (field k (str s) fs) =
      raise_if (not (str_eq k "createdAt") && unsafe_free_text_re s) (api validation_error 400)
      >> check_texts fs
  check_texts (field k v fs) = err (api validation_error 400)

  -- `except (ApiError, ValueError): raise ApiError(VALIDATION_ERROR, 400)`
  unfoldable pub check_timestamp : String → Result (Unit {0})
  unfolding parse_utc_timestamp
  check_timestamp s = elim (parse_utc_timestamp s) [
    | ok t ↦ ok tt
    | err (api_error e) ↦ err (api validation_error 400)
    | err value_error ↦ err (api validation_error 400)
    | err e ↦ err e
  ]

  unfoldable pub validate_provenance_mapping : Fields → Result (Unit {0})
  validate_provenance_mapping fs = do
    raise_if (not (keys_within provenance_keys fs && has_keys provenance_keys fs))
        (api validation_error 400)
    check_texts fs
    job_id ← text_at "jobId" fs
    raise_if (not (job_id_re job_id)) (api validation_error 400)
    dataset_hash ← text_at "datasetHash" fs
    raise_if (not (hash_re dataset_hash)) (api validation_error 400)
    artifact_hash ← text_at "artifactHash" fs
    raise_if (not (hash_re artifact_hash)) (api validation_error 400)
    config_hash ← text_at "trainingConfigHash" fs
    raise_if (not (hash_re config_hash)) (api validation_error 400)
    model ← text_at "baseModelId" fs
    raise_if (not (safe_identifier_re model)) (api validation_error 400)
    version ← text_at "schemaVersion" fs
    raise_if (not (str_eq version provenance_schema_version)) (api validation_error 400)
    created_at ← text_at "createdAt" fs
    check_timestamp created_at

  unfoldable pub validate_provenance_record : ProvenanceRecord → Result (Unit {0})
  validate_provenance_record r = validate_provenance_mapping (to_dict r)

  unfoldable pub from_mapping : Fields → Result ProvenanceRecord
  from_mapping fs = do
    validate_provenance_mapping fs
    artifact_hash ← text_at "artifactHash" fs
    base_model_id ← text_at "baseModelId" fs
    created_at ← text_at "createdAt" fs
    dataset_hash ← text_at "datasetHash" fs
    job_id ← text_at "jobId" fs
    schema_version ← text_at "schemaVersion" fs
    training_config_hash ← text_at "trainingConfigHash" fs
    ok (record {
      job_id = job_id;
      dataset_hash = dataset_hash;
      artifact_hash = artifact_hash;
      base_model_id = base_model_id;
      training_config_hash = training_config_hash;
      created_at = created_at;
      schema_version = schema_version;
    })
