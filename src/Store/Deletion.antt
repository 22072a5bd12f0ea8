-- ===== src/Store/Deletion.antt =====
-- store.py: deletion of artifacts on request and by retention, and the verification of absence.
use scooling_lab.Base.{
  ℕ, String, Bool, true, false, List, [], ◌∷◌, ◌++◌, Option, none, some, if◌then◌else◌, str_eq,
}
use scooling_lab.Errors.{Result, ok, api, not_found}
use scooling_lab.Json.{str}
use scooling_lab.Method.{pure, raise, lift, gets, ◌>>=◌, ◌>>◌}
use scooling_lab.Platform.{Platform}
use scooling_lab.Retention.{is_expired}
use scooling_lab.StateMachine.{TrainingJobStatus, succeeded, deleted, same, transition}
use scooling_lab.Contracts.Identifiers.{require_job_id, require_artifact_id}
use scooling_lab.Store.Records.{ArtifactMetadata, DeletionReceipt, TrainingJobRecord}
use scooling_lab.Store.State.{Action, now_utc, utc_now_iso, put, get, save}
use scooling_lab.Store.Absence.{hashes_for_artifact, verify_hash_absence}

-- `_find_artifact`
unfoldable pub find_artifact : String → List ArtifactMetadata → Option ArtifactMetadata
find_artifact artifact_id [] = none
find_artifact artifact_id (a ∷ rest) =
    let found = find_artifact artifact_id rest in if str_eq a.id artifact_id then some a else found

-- the callback of the store, where both it and the key are there
unfoldable pub call_storage :
    Option (String → Result (Unit {0})) → Option String → Action (Unit {0})
call_storage (some f) (some key) s =
    (f key, record s { storage_deletes = s.storage_deletes ++ key ∷ [] })
call_storage _ none s = (ok tt, s)
call_storage none (some key) s = (ok tt, s)

unfoldable pub notify_storage : Option String → Action (Unit {0})
unfolding call_storage
notify_storage key s = call_storage s.on_storage_delete key s

-- the record that a deletion leaves
unfoldable pub tombstone : TrainingJobRecord → TrainingJobStatus → String → Bool → TrainingJobRecord
tombstone job status deleted_at retain_provenance = record job {
  status = status;
  request = none;
  artifacts = [];
  provenance = if retain_provenance then job.provenance else none;
  deleted_at = some deleted_at;
  updated_at = deleted_at;
}

module _ ⦃p : Platform⦄ where
  unfoldable pub issue_receipt :
      TrainingJobRecord → ArtifactMetadata → Bool → Action (DeletionReceipt × Option String)
  issue_receipt job artifact verify = do
    s ← gets (λ s. s)
    verified ←
        lift (if verify then verify_hash_absence (hashes_for_artifact job artifact) s else ok true)
    pure (
      record {
        job_id = job.id;
        artifact_id = artifact.id;
        deleted = true;
        already_deleted = false;
        verified = verified;
      },
      artifact.storage_key,
    )

  -- what follows the write of the tombstone
  unfoldable pub finish_deletion :
      TrainingJobRecord → ArtifactMetadata → Bool → Action (DeletionReceipt × Option String)
  finish_deletion job artifact verify = do
    save
    notify_storage artifact.storage_key
    issue_receipt job artifact verify

  unfoldable pub bury_job :
      TrainingJobRecord
      → ArtifactMetadata
      → Bool
      → Bool
      → TrainingJobStatus
      → Action (DeletionReceipt × Option String)
  unfolding tombstone
  bury_job job artifact verify retain_provenance status = do
    deleted_at ← utc_now_iso
    put job.id (tombstone job status deleted_at retain_provenance)
    finish_deletion job artifact verify

  -- `_delete_artifact_locked`
  unfoldable pub delete_artifact_locked :
      TrainingJobRecord → ArtifactMetadata → Bool → Bool → Action (DeletionReceipt × Option String)
  delete_artifact_locked job artifact verify retain_provenance = do
    status ← lift (transition job.status deleted)
    bury_job job artifact verify retain_provenance status

  -- the loop over the artifacts of a job: the first that has expired takes the job with it
  unfoldable pub delete_first_expired :
      TrainingJobRecord
      → ℕ
      → List ArtifactMetadata
      → Action (Option (DeletionReceipt × Option String))
  delete_first_expired job now [] = pure none
  delete_first_expired job now (a ∷ rest) = do
    expired ← lift (is_expired a.created_at a.retention_policy now)
    if expired
        then delete_artifact_locked job a false true >>= (λ r. pure (some r))
        else delete_first_expired job now rest

  -- `_delete_expired_artifact_locked`
  unfoldable pub delete_expired_artifact_locked :
      TrainingJobRecord → ℕ → Action (Option (DeletionReceipt × Option String))
  delete_expired_artifact_locked job now =
      if same job.status succeeded then delete_first_expired job now job.artifacts else pure none

  -- `now or datetime.now(UTC)`
  unfoldable pub time_or_now : Option ℕ → Action ℕ
  time_or_now (some t) = pure t
  time_or_now none = now_utc

  unfoldable pub evaluate_expiry : String → Option ℕ → Action TrainingJobRecord
  evaluate_expiry job_id now = do
    lift (require_job_id (str job_id))
    job ← get job_id
    time ← time_or_now now
    delete_expired_artifact_locked job time
    get job_id

  unfoldable pub delete_found :
      TrainingJobRecord → Option ArtifactMetadata → Action (DeletionReceipt × Option String)
  delete_found job none = raise (api not_found 404)
  delete_found job (some artifact) = delete_artifact_locked job artifact true false

  unfoldable pub delete_from :
      String → String → TrainingJobRecord → Action (DeletionReceipt × Option String)
  delete_from job_id artifact_id job =
      if same job.status deleted
      then pure (
        record {
          job_id = job_id;
          artifact_id = artifact_id;
          deleted = true;
          already_deleted = true;
          verified = true;
        },
        none,
      )
      else delete_found job (find_artifact artifact_id job.artifacts)

  unfoldable pub delete_artifact : String → String → Action (DeletionReceipt × Option String)
  delete_artifact job_id artifact_id = do
    lift (require_job_id (str job_id))
    lift (require_artifact_id (str artifact_id))
    job ← get job_id
    delete_from job_id artifact_id job
