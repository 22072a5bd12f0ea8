-- ===== src/Provenance/Laws.antt =====
-- provenance.py: the round trip of a record, and what its validation promises.
use scooling_lab.Base.{true, ◌&&◌, not, ◌≡◌, refl, str_eq, eq_iff, true_of_not}
use scooling_lab.Errors.{ok, ◌>>◌, >>=-eq-ok, raise_if-ok}
use scooling_lab.Json.{get, keys_within}
use scooling_lab.Platform.{Platform}
use scooling_lab.Contracts.Identifiers.{job_id_re, safe_identifier_re}
use scooling_lab.Provenance.{
  ProvenanceRecord, to_dict, from_mapping, validate_provenance_mapping, validate_provenance_record,
  hash_re, provenance_schema_version, provenance_keys, check_texts, has_keys,
}

-- The fields of a record have the forms that the schema asks for.
pub record IsContentFree (r : ProvenanceRecord) : Type 0 where
  pub job : job_id_re r.job_id ≡ true
  pub dataset : hash_re r.dataset_hash ≡ true
  pub artifact : hash_re r.artifact_hash ≡ true
  pub config : hash_re r.training_config_hash ≡ true
  pub model : safe_identifier_re r.base_model_id ≡ true
  pub version : r.schema_version ≡ provenance_schema_version

module _ ⦃p : Platform⦄ where
  -- A provenance record, written out and read again, is the same record if the validation
  -- accepts it, and else the reading raises what the validation raises.
  pub from_mapping-to_dict :
      (r : ProvenanceRecord) → from_mapping (to_dict r) ≡ (validate_provenance_record r >> ok r)
  unfolding from_mapping validate_provenance_record to_dict get
  from_mapping-to_dict r = refl

  -- A provenance record that the validation accepts has a job id, three hashes and a model id
  -- of the required forms, and the version of the schema.
  pub validate_provenance_record-IsContentFree :
      (r : ProvenanceRecord) → validate_provenance_record r ≡ ok tt → IsContentFree r
  unfolding validate_provenance_record validate_provenance_mapping to_dict get
  validate_provenance_record-IsContentFree r h =
      let (_, h1) =
        raise_if-ok
          (not (keys_within provenance_keys (to_dict r) && has_keys provenance_keys (to_dict r))) _
          _ h in
      let (_, _, h2) = >>=-eq-ok (check_texts (to_dict r)) _ h1 in
      let (job, h3) = raise_if-ok (not (job_id_re r.job_id)) _ _ h2 in
      let (dataset, h4) = raise_if-ok (not (hash_re r.dataset_hash)) _ _ h3 in
      let (artifact, h5) = raise_if-ok (not (hash_re r.artifact_hash)) _ _ h4 in
      let (config, h6) = raise_if-ok (not (hash_re r.training_config_hash)) _ _ h5 in
      let (model, h7) = raise_if-ok (not (safe_identifier_re r.base_model_id)) _ _ h6 in
      let (version, h8) =
        raise_if-ok (not (str_eq r.schema_version provenance_schema_version)) _ _ h7 in
      record {
        job = true_of_not _ job;
        dataset = true_of_not _ dataset;
        artifact = true_of_not _ artifact;
        config = true_of_not _ config;
        model = true_of_not _ model;
        version = (eq_iff r.schema_version provenance_schema_version).0 (true_of_not _ version);
      }
