-- ===== src/Store/Calls/Laws.antt =====
-- store.py: what holds after every sequence of calls.
use scooling_lab.Base.{
  ◌≤◌, String, Bool, true, false, ◌≡◌, not, List, [], ◌∷◌, all, some, lookup, arith,
}
use scooling_lab.Platform.{Platform}
use scooling_lab.Store.Records.{TrainingJobRecord}
use scooling_lab.Store.State.{TrainingJobStore, active_count}
use scooling_lab.Store.Dicts.{IsKeyed}
use scooling_lab.Store.Calls.{
  Call, create, cancel, retry, update_status, register_artifact, set_artifact_storage_key,
  evaluate_expiry, sweep_expired, delete_artifact, marks_deleted, perform, run,
}
use scooling_lab.Store.Steps.{Reach, here, Reach-trans}
use scooling_lab.Store.Steps.Keyed.{Reach-IsKeyed}
use scooling_lab.Store.Steps.Lives.{Follows, IsSound, Reach-IsLater, Reach-IsSound}
use scooling_lab.Store.Steps.Capacity.{Reach-active, Reach-limits}
use scooling_lab.Store.Steps.Admission.{create-Reach, retry-Reach}
use scooling_lab.Store.Steps.Queue.{cancel-Reach, update_status-Reach}
use scooling_lab.Store.Steps.Artifacts.{register_artifact-Reach, set_artifact_storage_key-Reach}
use scooling_lab.Store.Steps.Deletion.{evaluate_expiry-Reach, delete_artifact-Reach}
use scooling_lab.Store.Steps.Sweep.{sweep_expired-Reach}

-- No call of the sequence marks a job as deleted by `update_status`.
abbrev pub AreUsual : List Call → Type 0
AreUsual calls = all (λ c. not (marks_deleted c)) calls ≡ true

usual-update : (b : Bool) → not b ≡ true → b ≡ false
usual-update b h = ground arith

module _ ⦃p : Platform⦄ where
  perform-Reach :
      (c : Call) (s : TrainingJobStore)
      → IsKeyed s.jobs
      → not (marks_deleted c) ≡ true
      → Reach s (perform c s)
  unfolding perform
  perform-Reach (create request) s h u = create-Reach request s
  perform-Reach (cancel k) s h u = cancel-Reach k s h
  perform-Reach (retry k) s h u = retry-Reach k s
  perform-Reach (update_status k t) s h u = update_status-Reach k t s h (usual-update _ u)
  perform-Reach (register_artifact k a v) s h u = register_artifact-Reach k a v s
  perform-Reach (set_artifact_storage_key k a key) s h u = set_artifact_storage_key-Reach k a key s
  perform-Reach (evaluate_expiry k now) s h u = evaluate_expiry-Reach k now s h
  perform-Reach (sweep_expired now) s h u = sweep_expired-Reach now s h
  perform-Reach (delete_artifact k a) s h u = delete_artifact-Reach k a s h

  -- For every sequence of calls of the store, raising or not, none of which asks update_status
  -- for the deleted status, from a store whose records stand under their own ids, the calls
  -- are a sequence of the steps that the step relation allows: clock readings, saves, storage
  -- calls, legal moves of a status, deletions of succeeded jobs, edits of artifacts, and new
  -- jobs in a free place.
  pub run-Reach :
      (calls : List Call) (s : TrainingJobStore)
      → IsKeyed s.jobs
      → AreUsual calls
      → Reach s (run calls s)
  unfolding run
  run-Reach [] s h u = here
  run-Reach (c ∷ cs) s h u =
      let first = perform-Reach c s h (ground arith) in
      Reach-trans first (run-Reach cs (perform c s) (Reach-IsKeyed first h) (ground arith))

  -- After every sequence of calls of the store, raising or not, none of which asks
  -- update_status for the deleted status, from a store whose records stand under their own
  -- ids, the records stand under their own ids, no id twice.
  pub run-IsKeyed :
      (calls : List Call) (s : TrainingJobStore)
      → IsKeyed s.jobs
      → AreUsual calls
      → IsKeyed (run calls s).jobs
  run-IsKeyed calls s h u = Reach-IsKeyed (run-Reach calls s h u) h

  -- After every sequence of calls of the store, raising or not, none of which asks
  -- update_status for the deleted status, from a store whose records stand under their own
  -- ids, the number of queued and running jobs is within the queue limit, if it was before.
  pub run-active_count :
      (calls : List Call) (s : TrainingJobStore)
      → IsKeyed s.jobs
      → AreUsual calls
      → active_count s ≤ s.queue_limit
      → active_count (run calls s) ≤ s.queue_limit
  run-active_count calls s h u room =
      let r = run-Reach calls s h u in omega (arith, Reach-active r room, (Reach-limits r).0)

  -- Under every sequence of calls of the store, raising or not, none of which asks
  -- update_status for the deleted status, from a store whose records stand under their own
  -- ids, a job that is there stays there with its id, time of creation and origin, at a status
  -- that follows from the one it had: finished statuses are left only from succeeded to
  -- deleted, and no job is queued again.
  pub run-IsLater :
      (calls : List Call) (s : TrainingJobStore) (k : String) (r : TrainingJobRecord)
      → IsKeyed s.jobs
      → AreUsual calls
      → lookup k s.jobs ≡ some r
      → Follows k r (run calls s)
  run-IsLater calls s k r h u e = Reach-IsLater k r (run-Reach calls s h u) e

  -- After every sequence of calls of the store, raising or not, none of which asks
  -- update_status for the deleted status, from a store whose records stand under their own
  -- ids, a record lacks its request exactly if its job is deleted, and has a time of deletion
  -- exactly if its job is deleted, if that was so before.
  pub run-IsSound :
      (calls : List Call) (s : TrainingJobStore)
      → IsKeyed s.jobs
      → AreUsual calls
      → IsSound s
      → IsSound (run calls s)
  run-IsSound calls s h u sound = Reach-IsSound (run-Reach calls s h u) sound
