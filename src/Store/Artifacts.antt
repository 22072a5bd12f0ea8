-- ===== src/Store/Artifacts.antt =====
-- store.py: registration of artifacts, storage keys, and the reads of one job.
use scooling_lab.Base.{String, not, List, [], ◌∷◌, ◌++◌, map, some, if◌then◌else◌, all, str_eq}
use scooling_lab.Errors.{ok, api, not_found}
use scooling_lab.Json.{Items, nil, str}
use scooling_lab.Method.{pure, lift, or_raise, ◌>>=◌, ◌>>◌}
use scooling_lab.Platform.{Platform}
use scooling_lab.StateMachine.{deleted, same}
use scooling_lab.Contracts.Identifiers.{require_job_id, require_artifact_id}
use scooling_lab.Provenance.{ProvenanceRecord, validate_provenance_record}
use scooling_lab.Store.Records.{
  ArtifactMetadata, TrainingJobRecord, with_storage_key, items_of, artifact_to_public_dict,
}
use scooling_lab.Store.State.{Action, utc_now_iso, put, get, save}
use scooling_lab.Store.Deletion.{find_artifact}

-- the list comprehension of `set_artifact_storage_key`
unfoldable pub attach_key : String → String → List ArtifactMetadata → List ArtifactMetadata
attach_key artifact_id key =
    map (λ a. if str_eq a.id artifact_id then with_storage_key a key else a)

module _ ⦃p : Platform⦄ where
  -- the write of `register_artifact`, for an artifact that the job does not have
  unfoldable pub append_artifact :
      String → TrainingJobRecord → ArtifactMetadata → ProvenanceRecord → Action TrainingJobRecord
  append_artifact job_id job artifact provenance = do
    now ← utc_now_iso
    put job_id (record job {
      artifacts = job.artifacts ++ artifact ∷ [];
      provenance = some provenance;
      updated_at = now;
    })
    save
    get job_id

  unfoldable pub register_artifact :
      String → ArtifactMetadata → ProvenanceRecord → Action TrainingJobRecord
  register_artifact job_id artifact provenance = do
    lift (require_job_id (str job_id))
    lift (require_artifact_id (str artifact.id))
    lift (validate_provenance_record provenance)
    job ← get job_id
    if all (λ a. not (str_eq a.id artifact.id)) job.artifacts
        then append_artifact job_id job artifact provenance
        else pure job

  unfoldable pub write_key : String → String → String → TrainingJobRecord → Action TrainingJobRecord
  unfolding attach_key
  write_key job_id artifact_id key job = do
    now ← utc_now_iso
    put job_id
        (record job { artifacts = attach_key artifact_id key job.artifacts; updated_at = now })
    save
    get job_id

  unfoldable pub set_artifact_storage_key : String → String → String → Action TrainingJobRecord
  set_artifact_storage_key job_id artifact_id key = do
    lift (require_job_id (str job_id))
    lift (require_artifact_id (str artifact_id))
    job ← get job_id
    or_raise (find_artifact artifact_id job.artifacts) (api not_found 404)
    write_key job_id artifact_id key job

  unfoldable pub list_artifacts : String → Action Items
  list_artifacts job_id = do
    lift (require_job_id (str job_id))
    job ← get job_id
    lift
        (if same job.status deleted then ok nil else items_of artifact_to_public_dict job.artifacts)

  unfoldable pub get_provenance : String → Action ProvenanceRecord
  get_provenance job_id = do
    lift (require_job_id (str job_id))
    job ← get job_id
    or_raise job.provenance (api not_found 404)
