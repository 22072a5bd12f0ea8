-- ===== src/Workers/Completion.antt =====
-- fake_worker.py, gpu_worker.py: what the two `run_job` methods have in common: the start of a job,
-- and its end, where the artifact is registered and the job marked.
use Prim.Native.String.{◌++◌}
use scooling_lab.Base.{String, none, prefix, if◌then◌else◌}
use scooling_lab.Errors.{Result, ok, err, api, is_api_error, internal_error}
use scooling_lab.Method.{pure, raise, or_raise, ◌>>=◌, ◌>>◌}
use scooling_lab.Platform.{Platform}
use scooling_lab.Retention.{RetentionPolicy}
use scooling_lab.StateMachine.{running, succeeded, failed, is_terminal}
use scooling_lab.Contracts.Request.{TrainingJobRequest}
use scooling_lab.Provenance.{ProvenanceRecord, validate_provenance_record}
use scooling_lab.Store.Records.{TrainingJobRecord, ArtifactMetadata}
use scooling_lab.Store.State.{Action, get, utc_now_iso}
use scooling_lab.Store.Queue.{update_status}
use scooling_lab.Store.Artifacts.{register_artifact}

module _ ⦃p : Platform⦄ where
  -- the artifact of a completed job, under the id that its hash gives
  unfoldable pub artifact_of : String → ProvenanceRecord → RetentionPolicy → ArtifactMetadata
  artifact_of job_id v policy = record {
    id = "artifact_" ++ prefix 24 v.artifact_hash;
    job_id = job_id;
    dataset_hash = v.dataset_hash;
    artifact_hash = v.artifact_hash;
    created_at = v.created_at;
    provenance_id = "provenance_" ++ job_id;
    retention_policy = policy;
    storage_key = none;
  }

  -- `try: validate_provenance_record(...) except ApiError`, and the end of the job on each outcome
  unfoldable pub complete_checked :
      Result (Unit {0}) → String → ProvenanceRecord → RetentionPolicy → Action TrainingJobRecord
  unfolding artifact_of
  complete_checked (ok u) job_id v policy =
      register_artifact job_id (artifact_of job_id v policy) v >>= λ _.
      update_status job_id succeeded
  complete_checked (err e) job_id v policy =
      if is_api_error e then update_status job_id failed else raise e

  unfoldable pub complete : String → ProvenanceRecord → RetentionPolicy → Action TrainingJobRecord
  unfolding complete_checked
  complete job_id v policy = complete_checked (validate_provenance_record v) job_id v policy

  -- the record is made with the time at which it is made
  unfoldable pub complete_now :
      String → (String → ProvenanceRecord) → RetentionPolicy → Action TrainingJobRecord
  unfolding complete
  complete_now job_id provenance policy = do
    created_at ← utc_now_iso
    complete job_id (provenance created_at) policy

  -- A job that is queued or running is started, and worked on; any other is returned as it is.
  unfoldable pub start :
      String
      → (TrainingJobRecord → TrainingJobRequest → Action TrainingJobRecord)
      → Action TrainingJobRecord
  start job_id work = do
    update_status job_id running
    running_job ← get job_id
    request ← or_raise running_job.request (api internal_error 500)
    work running_job request

  unfoldable pub run_with :
      String
      → (TrainingJobRecord → TrainingJobRequest → Action TrainingJobRecord)
      → Action TrainingJobRecord
  unfolding start
  run_with job_id work = do
    job ← get job_id
    if is_terminal job.status then pure job else start job_id work
