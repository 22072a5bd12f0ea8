-- ===== src/Service/Jobs.antt =====
-- service.py: the operations on jobs, all of which work on the store alone once the dataset of a new
-- job is known to be approved.
use scooling_lab.Base.{
  String, not, List, [], ◌∷◌, Option, none, some, str_eq, strip, length, if◌then◌else◌, pos,
}
use scooling_lab.Codec.{Codec}
use scooling_lab.Errors.{Result, ok, err, api, internal_error, not_found}
use scooling_lab.Json.{Value, Items, nil, cons, str, int, arr, obj, end, field}
use scooling_lab.Method.{pure, raise, lift, or_raise, ◌>>=◌, ◌>>◌}
use scooling_lab.Platform.{Platform}
use scooling_lab.StateMachine.{succeeded, is_terminal, same}
use scooling_lab.Contracts.Identifiers.{require_job_id, require_artifact_id}
use scooling_lab.Contracts.Request.{TrainingJobRequest, gpu_product_model_id}
use scooling_lab.Provenance
use scooling_lab.Store.Records.{
  TrainingJobRecord, ArtifactMetadata, job_to_public_dict, deletion_receipt_to_dict,
}
use scooling_lab.Store.State.{Action, get}
use scooling_lab.Store.Queue
use scooling_lab.Store.Artifacts
use scooling_lab.Store.Artifacts.{set_artifact_storage_key}
use scooling_lab.Store.Deletion
use scooling_lab.Store.Deletion.{evaluate_expiry, find_artifact}
use scooling_lab.Store.Sweep
use scooling_lab.Auth.Ingest.{env_or}
use scooling_lab.Auth.Download.{verify_download_auth}
use scooling_lab.Workers.Fake
use scooling_lab.Workers.Gpu
use scooling_lab.Workers.Gpu.{Process}
use scooling_lab.Service.{ArtifactStorage, Deployment}

-- `self._artifact_storage is None`
abbrev pub storage_or_raise : Option ArtifactStorage → Action ArtifactStorage
storage_or_raise o = or_raise o (api not_found 404)

module _ ⦃p : Platform⦄ ⦃c : Codec⦄ ⦃q : Process⦄ (d : Deployment) where
  -- one round of the loop of `_upload_artifacts_for_job`
  unfoldable pub upload_one : ArtifactStorage → String → ArtifactMetadata → Action (Unit {0})
  upload_one storage job_id artifact = elim artifact.storage_key [
    | some key ↦ pure tt
    | none ↦ do
      key ← lift (storage.upload job_id artifact.id)
      set_artifact_storage_key job_id artifact.id key
      pure tt
  ]

  unfoldable pub upload_artifacts :
      ArtifactStorage → String → List ArtifactMetadata → Action (Unit {0})
  unfolding upload_one
  upload_artifacts storage job_id [] = pure tt
  upload_artifacts storage job_id (artifact ∷ rest) =
      upload_one storage job_id artifact >> upload_artifacts storage job_id rest

  -- `local_tarball_path`, which wants the artifact root
  unfoldable pub artifact_root : Result (Unit {0})
  artifact_root =
      if str_eq (strip p.is_space (env_or "SCOOLING_LAB_ARTIFACT_ROOT" "" d.environ)) ""
      then err (api internal_error 500)
      else ok tt

  unfoldable pub upload_to : Option ArtifactStorage → String → Action (Unit {0})
  unfolding upload_artifacts artifact_root
  upload_to none job_id = pure tt
  upload_to (some storage) job_id = do
    entry ← get job_id
    lift artifact_root
    if d.has_tarball job_id then upload_artifacts storage job_id entry.artifacts else pure tt

  -- `_dispatch_worker`
  unfoldable pub dispatch_request : String → TrainingJobRequest → Action TrainingJobRecord
  dispatch_request job_id request =
      if str_eq request.model_id gpu_product_model_id
      then Gpu.run_job d.environ job_id
      else Fake.run_job d.fixture_dataset job_id

  unfoldable pub dispatch_worker : String → Action TrainingJobRecord
  unfolding dispatch_request
  dispatch_worker job_id = do
    job ← get job_id
    request ← or_raise job.request (api internal_error 500)
    dispatch_request job_id request

  -- what follows a completed run; the record that is returned is the store's own
  unfoldable pub after_run : String → TrainingJobRecord → Action TrainingJobRecord
  unfolding upload_to
  after_run job_id completed =
      if same completed.status succeeded
      then upload_to d.artifact_storage job_id >> get job_id
      else pure completed

  unfoldable pub run_acquired : String → Action TrainingJobRecord
  unfolding dispatch_worker after_run
  run_acquired job_id =
      if d.acquires then dispatch_worker job_id >>= after_run job_id else get job_id

  -- `_run_if_configured`
  unfoldable pub run_if_configured : String → Action TrainingJobRecord
  unfolding run_acquired
  run_if_configured job_id =
      if not d.auto_run_worker
      then get job_id
      else get job_id >>= λ job. if is_terminal job.status then pure job else run_acquired job_id

  -- `create_training_job`, from the call of the store on
  unfoldable pub create_job : TrainingJobRequest → Action Value
  unfolding run_if_configured
  create_job request = do
    job ← Queue.create request
    done ← run_if_configured job.id
    lift (job_to_public_dict done)

  unfoldable pub retry_training_job : String → Action Value
  unfolding run_if_configured
  retry_training_job job_id = do
    lift (require_job_id (str job_id))
    again ← Queue.retry job_id
    done ← run_if_configured again.id
    lift (job_to_public_dict done)

  unfoldable pub get_training_job : String → Action Value
  get_training_job job_id = do
    lift (require_job_id (str job_id))
    job ← evaluate_expiry job_id none
    lift (job_to_public_dict job)

  unfoldable pub cancel_training_job : String → Action Value
  cancel_training_job job_id = do
    lift (require_job_id (str job_id))
    job ← Queue.cancel job_id
    lift (job_to_public_dict job)

  unfoldable pub list_artifacts : String → Action Value
  list_artifacts job_id = do
    lift (require_job_id (str job_id))
    evaluate_expiry job_id none
    artifacts ← Artifacts.list_artifacts job_id
    pure (obj (field "jobId" (str job_id) (field "artifacts" (arr artifacts) end)))

  unfoldable pub get_provenance : String → Action Value
  get_provenance job_id = do
    lift (require_job_id (str job_id))
    evaluate_expiry job_id none
    entry ← Artifacts.get_provenance job_id
    pure (obj (Provenance.to_dict entry))

  -- the answer of a download: the fields of the signed download after the ids
  unfoldable pub download_found :
      ArtifactStorage → String → String → Option ArtifactMetadata → Action Value
  download_found storage job_id artifact_id none = raise (api not_found 404)
  download_found storage job_id artifact_id (some artifact) = do
    key ← or_raise artifact.storage_key (api not_found 404)
    signed ← lift (storage.issue_download job_id artifact_id key)
    pure (obj (field "artifactId" (str artifact_id) (field "jobId" (str job_id) signed)))

  unfoldable pub get_artifact_download : String → String → String → Action Value
  unfolding download_found
  get_artifact_download job_id artifact_id authorization_header = do
    lift (require_job_id (str job_id))
    lift (require_artifact_id (str artifact_id))
    lift (verify_download_auth d.environ d.now authorization_header job_id artifact_id)
    storage ← storage_or_raise d.artifact_storage
    evaluate_expiry job_id none
    entry ← get job_id
    download_found storage job_id artifact_id (find_artifact artifact_id entry.artifacts)

  unfoldable pub delete_artifact : String → String → Action Value
  delete_artifact job_id artifact_id = do
    lift (require_job_id (str job_id))
    lift (require_artifact_id (str artifact_id))
    done ← Deletion.delete_artifact job_id artifact_id
    let (receipt, key) = done
    pure (deletion_receipt_to_dict receipt)

  abbrev pub ids_of : List String → Items
  ids_of [] = nil
  ids_of (id ∷ ids) = cons (str id) (ids_of ids)

  unfoldable pub sweep_expired_artifacts : Action Value
  sweep_expired_artifacts = do
    swept ← Sweep.sweep_expired none
    let (ids, keys) = swept
    pure (
        obj (
          field "deletedJobIds" (arr (ids_of ids))
            (field "deletedCount" (int (pos (length ids))) end)))
