-- ===== src/Examples/Records.antt =====
-- Provenance records and persisted jobs at concrete inputs.
use scooling_lab.Base.{String, [], ◌∷◌, none, some, ◌≡◌, refl}
use scooling_lab.Errors.{ok, ◌>>◌}
use scooling_lab.Json
use scooling_lab.StateMachine.{succeeded}
use scooling_lab.Contracts.Identifiers
use scooling_lab.Provenance
use scooling_lab.Provenance.{ProvenanceRecord, to_dict, from_mapping, validate_provenance_record}
use scooling_lab.Provenance.Laws.{
  IsContentFree, from_mapping-to_dict, validate_provenance_record-IsContentFree,
}
use scooling_lab.Store.Records.{TrainingJobRecord}
use scooling_lab.Examples.Demo.{demo, demo_request, hour}

abbrev hex_64 : String
hex_64 = "0123456789abcdef0123456789abcdef0123456789abcdef0123456789abcdef"

abbrev made : ProvenanceRecord
made = record {
  job_id = "job_0123456789abcdef01234567";
  dataset_hash = hex_64;
  artifact_hash = hex_64;
  base_model_id = "fixture-tiny-llm";
  training_config_hash = hex_64;
  created_at = "1Z";
  schema_version = "scooling-lab.provenance.v1";
}

from_mapping-to_dict_example :
    from_mapping ⦃p = demo⦄ (to_dict made) ≡ (validate_provenance_record ⦃p = demo⦄ made >> ok made)
from_mapping-to_dict_example = from_mapping-to_dict ⦃p = demo⦄ made

made_valid : validate_provenance_record ⦃p = demo⦄ made ≡ ok tt
unfolding validate_provenance_record Provenance.validate_provenance_mapping Json.keys_within to_dict
    Json.get Provenance.check_texts Provenance.unsafe_free_text_re demo Identifiers.job_id_re
    Provenance.hash_re Identifiers.safe_identifier_re Provenance.check_timestamp
made_valid = refl

validate_provenance_record-IsContentFree_example : IsContentFree made
validate_provenance_record-IsContentFree_example =
    validate_provenance_record-IsContentFree ⦃p = demo⦄ made made_valid

abbrev finished_job : TrainingJobRecord
finished_job = record {
  id = "job_0123456789abcdef01234567";
  request = some demo_request;
  status = succeeded;
  created_at = "Z";
  updated_at = "Z";
  artifacts =
      record {
        id = "artifact_0123456789abcdef01234567";
        job_id = "job_0123456789abcdef01234567";
        dataset_hash = hex_64;
        artifact_hash = hex_64;
        created_at = "Z";
        provenance_id = "prov";
        retention_policy = hour;
        storage_key = some "key";
      }
      ∷ [];
  provenance = some made;
  deleted_at = none;
  retry_of_job_id = none;
}
