-- ===== src/Store/Steps/Admission.antt =====
-- store.py: the creation and the retry of jobs are steps.
use scooling_lab.Base.{
  ℕ, zero, suc, ◌+◌, ◌<◌, String, not, ◌≡◌, refl, arith, Option, none, some, lookup, insert, length,
  leb, [],
}
use scooling_lab.Errors.{api, queue_limit_exceeded, invalid_transition, no_answer}
use scooling_lab.Method.{pure, gets, raise_when, or_raise, ◌>>=◌}
use scooling_lab.Platform.{Platform}
use scooling_lab.Retention.{utc_timestamp}
use scooling_lab.StateMachine.{queued}
use scooling_lab.Contracts.Request.{TrainingJobRequest, stable_job_id}
use scooling_lab.Store.Records.{TrainingJobRecord}
use scooling_lab.Store.State.{TrainingJobStore, save, active_count}
use scooling_lab.Store.Queue.{
  new_record, admit, create_at, create, next_retry_id, retry_of, retry, is_retryable,
}
use scooling_lab.Store.Steps.{Reach, here, next, Reach-trans, fresh, tick, admit as admitted}
use scooling_lab.Store.Steps.Rules.{
  bind-Reach, or_raise-Reach, raise_when-Reach, get-Reach, save-Reach,
}

module _ ⦃p : Platform⦄ where
  abbrev new_record_at :
      String → TrainingJobRequest → Option String → TrainingJobStore → TrainingJobRecord
  new_record_at k request origin s = record {
    id = k;
    request = some request;
    status = queued;
    created_at = utc_timestamp (s.clock s.readings);
    updated_at = utc_timestamp (s.clock (s.readings + 1));
    artifacts = [];
    provenance = none;
    deleted_at = none;
    retry_of_job_id = origin;
  }

  admit-Reach :
      (k : String) (request : TrainingJobRequest) (origin : Option String) (s : TrainingJobStore)
      → lookup k s.jobs ≡ none
      → active_count s < s.queue_limit
      → Reach s (admit k request origin s).1
  unfolding admit new_record active_count
  admit-Reach k request origin s e room =
      let job = (new_record_at k request origin s) in
      let t = record s { readings = s.readings + 1 + 1; jobs = insert k job s.jobs } in
      Reach-trans
        (next (next here (tick (s.readings + 1 + 1)))
          (admitted k e room (fresh request _ _ origin)))
        (bind-Reach t save (λ _. pure job) (save-Reach t) (λ _ u _. here))

  create_at-Reach :
      (k : String) (request : TrainingJobRequest) (o : Option TrainingJobRecord)
      (s : TrainingJobStore)
      → lookup k s.jobs ≡ o
      → Reach s (create_at k request o s).1
  unfolding create_at
  create_at-Reach k request (some job) s e = here
  create_at-Reach k request none s e =
      raise_when-Reach s (leb s.queue_limit (active_count s)) (api queue_limit_exceeded 429)
        (λ _. admit k request none) (λ h. admit-Reach k request none s e (ground arith))

  -- Creation is a sequence of steps: a reading of the clock, a new record under the limit, a save.
  pub create-Reach :
      (request : TrainingJobRequest) (s : TrainingJobStore) → Reach s (create request s).1
  unfolding create
  create-Reach request s =
      create_at-Reach (stable_job_id request) request (lookup (stable_job_id request) s.jobs) s refl

  next_retry_id-free :
      (fuel attempt : ℕ) (original : String) (s : TrainingJobStore) (k : String)
      → next_retry_id fuel attempt original s ≡ some k
      → lookup k s.jobs ≡ none
  unfolding next_retry_id
  next_retry_id-free zero attempt original s k h = cc
  next_retry_id-free (suc fuel) attempt original s k h =
      ground (arith, next_retry_id-free fuel (attempt + 1) original s k)

  retry_of-Reach :
      (job : TrainingJobRecord) (o : Option TrainingJobRequest) (s : TrainingJobStore)
      → Reach s (retry_of job o s).1
  unfolding retry_of
  retry_of-Reach job none s = here
  retry_of-Reach job (some request) s =
      raise_when-Reach s (leb s.queue_limit (active_count s)) (api queue_limit_exceeded 429)
        (λ _. gets (λ u. next_retry_id (suc (length u.jobs)) 1 job.id u) >>= λ found.
          or_raise found no_answer >>= λ id. admit id request (some job.id))
        (λ h.
          or_raise-Reach s (next_retry_id (suc (length s.jobs)) 1 job.id s) no_answer
            (λ id. admit id request (some job.id))
            (λ id e.
              admit-Reach id request (some job.id) s
                (next_retry_id-free (suc (length s.jobs)) 1 job.id s id e) (ground arith)))

  pub retry-Reach : (k : String) (s : TrainingJobStore) → Reach s (retry k s).1
  unfolding retry
  retry-Reach k s =
      get-Reach s k
        (λ job. raise_when (not (is_retryable job.status)) (api invalid_transition 409) >>= λ _.
          retry_of job job.request)
        (λ job e.
          raise_when-Reach s (not (is_retryable job.status)) (api invalid_transition 409)
            (λ _. retry_of job job.request) (λ _. retry_of-Reach job job.request s))
