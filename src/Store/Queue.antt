-- ===== src/Store/Queue.antt =====
-- store.py: the job queue. Creation, cancellation, retry, status changes and promotion.
use Prim.Native.String.{◌++◌}
use scooling_lab.Base.{
  ℕ, zero, suc, ◌+◌, String, Bool, true, false, ◌&&◌, not, [], Option, none, some, leb,
  if◌then◌else◌, lookup, values, count_if, find_first, prefix, length,
}
use scooling_lab.Errors.{ok, err, api, queue_limit_exceeded, invalid_transition, no_answer}
use scooling_lab.Json.{Value, obj, int, end, field}
use scooling_lab.Base.{pos}
use scooling_lab.Method.{pure, raise, lift, gets, raise_when, or_raise, ◌>>=◌, ◌>>◌}
use scooling_lab.Platform.{Platform}
use scooling_lab.StateMachine
use scooling_lab.StateMachine.{
  TrainingJobStatus, queued, running, failed, cancelled, same, transition,
}
use scooling_lab.Contracts.Request.{TrainingJobRequest, stable_job_id}
use scooling_lab.Store.Records.{TrainingJobRecord}
use scooling_lab.Store.State.{
  TrainingJobStore, Action, utc_now_iso, put, get, active_count, running_count, can_run_now,
  is_queued, save,
}

abbrev pub is_retryable : TrainingJobStatus → Bool
is_retryable failed = true
is_retryable cancelled = true
is_retryable _ = false

module _ ⦃p : Platform⦄ where
  -- `TrainingJobRecord(id=..., request=..., retry_of_job_id=...)`: both times are read from the clock
  unfoldable pub new_record : String → TrainingJobRequest → Option String → Action TrainingJobRecord
  new_record id request retry_of = do
    created_at ← utc_now_iso
    updated_at ← utc_now_iso
    pure (record {
      id = id;
      request = some request;
      status = queued;
      created_at = created_at;
      updated_at = updated_at;
      artifacts = [];
      provenance = none;
      deleted_at = none;
      retry_of_job_id = retry_of;
    })

  -- a job that is not there yet
  unfoldable pub admit : String → TrainingJobRequest → Option String → Action TrainingJobRecord
  unfolding new_record
  admit job_id request retry_of = do
    job ← new_record job_id request retry_of
    put job_id job
    save
    pure job

  unfoldable pub create_at :
      String → TrainingJobRequest → Option TrainingJobRecord → Action TrainingJobRecord
  create_at job_id request (some existing) = pure existing
  create_at job_id request none = do
    count ← gets active_count
    limit ← gets (λ s. s.queue_limit)
    raise_when (leb limit count) (api queue_limit_exceeded 429)
    admit job_id request none

  unfoldable pub create : TrainingJobRequest → Action TrainingJobRecord
  unfolding create_at
  create request s =
      create_at (stable_job_id request) request (lookup (stable_job_id request) s.jobs) s

  -- the body of the loop of `_promote_queued_locked`, on the first queued job
  unfoldable pub promote_one : String → TrainingJobRecord → Action (Unit {0})
  promote_one job_id job = do
    next ← lift (transition job.status running)
    now ← utc_now_iso
    put job_id (record job { status = next; updated_at = now })

  -- `_promote_queued_locked`; each round starts one queued job, so as many rounds as there are jobs
  -- are enough
  unfoldable pub promote_rounds : ℕ → Action (Unit {0})
  promote_rounds zero s = (err no_answer, s)
  promote_rounds (suc fuel) s = elim (can_run_now s) [
    | false ↦ (ok tt, s)
    | true ↦ elim (find_first is_queued (values s.jobs)) [
      | none ↦ (ok tt, s)
      | some job ↦ (promote_one job.id job >> promote_rounds fuel) s
    ]
  ]

  unfoldable pub promote_queued : Action (Unit {0})
  promote_queued s = promote_rounds (suc (length s.jobs)) s

  -- The write that `cancel` and `update_status` make where the status changes, and what follows it.
  unfoldable pub change_status :
      String → TrainingJobRecord → TrainingJobStatus → Bool → Action (Unit {0})
  change_status job_id job next frees_slot = do
    now ← utc_now_iso
    put job_id (record job { status = next; updated_at = now })
    if frees_slot then promote_queued else pure tt
    save

  unfoldable pub cancel_to :
      String → TrainingJobRecord → TrainingJobStatus → Action TrainingJobRecord
  cancel_to job_id job next =
      if same next job.status
      then pure job
      else change_status job_id job next (same job.status running) >> get job_id

  unfoldable pub cancel : String → Action TrainingJobRecord
  cancel job_id = do
    job ← get job_id
    next ← lift (StateMachine.cancel job.status)
    cancel_to job_id job next

  unfoldable pub update_to :
      String → TrainingJobRecord → TrainingJobStatus → Action TrainingJobRecord
  update_to job_id job next =
      if same next job.status
      then pure job
      else change_status job_id job next (same job.status running && not (same next running))
        >> get job_id

  unfoldable pub update_status : String → TrainingJobStatus → Action TrainingJobRecord
  update_status job_id target = do
    job ← get job_id
    next ← lift (transition job.status target)
    update_to job_id job next

  -- the id of the n-th attempt
  unfoldable pub retry_id : String → ℕ → String
  retry_id original attempt =
      "job_" ++ prefix 24 (p.sha256_hex (original ++ (":retry:" ++ p.str_of_int attempt)))

  -- `_next_retry_id_locked`
  unfoldable pub next_retry_id : ℕ → ℕ → String → TrainingJobStore → Option String
  next_retry_id zero attempt original s = none
  next_retry_id (suc fuel) attempt original s = elim (lookup (retry_id original attempt) s.jobs) [
    | none ↦ some (retry_id original attempt)
    | some job ↦ next_retry_id fuel (attempt + 1) original s
  ]

  unfoldable pub retry_of : TrainingJobRecord → Option TrainingJobRequest → Action TrainingJobRecord
  retry_of original none = raise (api invalid_transition 409)
  retry_of original (some request) = do
    count ← gets active_count
    limit ← gets (λ s. s.queue_limit)
    raise_when (leb limit count) (api queue_limit_exceeded 429)
    found ← gets (λ s. next_retry_id (suc (length s.jobs)) 1 original.id s)
    id ← or_raise found no_answer
    admit id request (some original.id)

  unfoldable pub retry : String → Action TrainingJobRecord
  unfolding retry_of
  retry job_id = do
    original ← get job_id
    raise_when (not (is_retryable original.status)) (api invalid_transition 409)
    retry_of original original.request

-- `queue_state`
unfoldable pub queue_state : TrainingJobStore → Value
queue_state s =
    let waiting = count_if is_queued (values s.jobs) in
    let busy = running_count s in
    obj (
      field "activeCount" (int (pos (waiting + busy))) (
        field "maxConcurrentRunning" (int (pos s.max_concurrent_running)) (
          field "queueLimit" (int (pos s.queue_limit))
            (field "queuedCount" (int (pos waiting)) (field "runningCount" (int (pos busy)) end)))))
