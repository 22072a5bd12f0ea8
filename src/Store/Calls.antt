-- ===== src/Store/Calls.antt =====
-- store.py: the calls of the store that change it, as its clients make them one after the other,
-- with what they raise thrown away: the state that a call leaves is the same either way.
pub mod Laws
use scooling_lab.Base.{ℕ, String, Option, List, [], ◌∷◌, Bool, true, false}
use scooling_lab.Platform.{Platform}
use scooling_lab.Provenance.{ProvenanceRecord}
use scooling_lab.StateMachine.{TrainingJobStatus}
use scooling_lab.Contracts.Request.{TrainingJobRequest}
use scooling_lab.Store.Records.{ArtifactMetadata, is_deleted}
use scooling_lab.Store.State.{TrainingJobStore}
use scooling_lab.Store.Queue
use scooling_lab.Store.Artifacts
use scooling_lab.Store.Deletion
use scooling_lab.Store.Sweep

pub data Call : Type 0 where
  create : (request : TrainingJobRequest) → Call
  cancel : (job_id : String) → Call
  retry : (job_id : String) → Call
  update_status : (job_id : String) (target : TrainingJobStatus) → Call
  register_artifact :
      (job_id : String) (artifact : ArtifactMetadata) (provenance : ProvenanceRecord) → Call
  set_artifact_storage_key : (job_id artifact_id key : String) → Call
  evaluate_expiry : (job_id : String) (now : Option ℕ) → Call
  sweep_expired : (now : Option ℕ) → Call
  delete_artifact : (job_id artifact_id : String) → Call

-- a call that marks a job as deleted without the deletion of its artifacts
abbrev pub marks_deleted : Call → Bool
marks_deleted (update_status job_id target) = is_deleted target
marks_deleted _ = false

module _ ⦃p : Platform⦄ where
  unfoldable pub perform : Call → TrainingJobStore → TrainingJobStore
  perform (create request) s = (Queue.create request s).1
  perform (cancel job_id) s = (Queue.cancel job_id s).1
  perform (retry job_id) s = (Queue.retry job_id s).1
  perform (update_status job_id target) s = (Queue.update_status job_id target s).1
  perform (register_artifact job_id a v) s = (Artifacts.register_artifact job_id a v s).1
  perform (set_artifact_storage_key job_id a key) s =
      (Artifacts.set_artifact_storage_key job_id a key s).1
  perform (evaluate_expiry job_id now) s = (Deletion.evaluate_expiry job_id now s).1
  perform (sweep_expired now) s = (Sweep.sweep_expired now s).1
  perform (delete_artifact job_id a) s = (Deletion.delete_artifact job_id a s).1

  unfoldable pub run : List Call → TrainingJobStore → TrainingJobStore
  unfolding perform
  run [] s = s
  run (c ∷ cs) s = run cs (perform c s)
