-- ===== src/Store/Creation.antt =====
-- store.py: creation may be repeated.
use scooling_lab.Base.{
  ◌+◌, String, Bool, true, false, ◌≡◌, refl, ap, arith, Option, none, some, lookup, insert,
  lookup-insert, eq_refl, [], leb,
}
use scooling_lab.Errors.{Exception, Result, ok, err, ok-injective, api, queue_limit_exceeded}
use scooling_lab.Method.{pure, raise_when, ◌>>=◌}
use scooling_lab.Platform.{Platform}
use scooling_lab.Retention.{utc_timestamp}
use scooling_lab.StateMachine.{queued}
use scooling_lab.Contracts.Request.{TrainingJobRequest, stable_job_id}
use scooling_lab.Store.Records.{TrainingJobRecord}
use scooling_lab.Store.State.{TrainingJobStore, active_count, save}
use scooling_lab.Store.Queue.{create, create_at, admit}
use scooling_lab.Store.Keeps.{save-Keeps}

module _ ⦃p : Platform⦄ where
  abbrev made : String → TrainingJobRequest → Option String → TrainingJobStore → TrainingJobRecord
  made k request origin s = record {
    id = k;
    request = some request;
    status = queued;
    created_at = utc_timestamp (s.clock s.readings);
    updated_at = utc_timestamp (s.clock (s.readings + 1));
    artifacts = [];
    provenance = none;
    deleted_at = none;
    retry_of_job_id = origin;
  }

  abbrev with_made :
      String → TrainingJobRequest → Option String → TrainingJobStore → TrainingJobStore
  with_made k request origin s = record s {
    readings = s.readings + 1 + 1;
    jobs = insert k (made k request origin s) s.jobs;
  }

  admitted :
      (x : Result (Unit {0}) × TrainingJobStore) (k : String) (new job : TrainingJobRecord)
      (s u t : TrainingJobStore)
      → x.1.jobs ≡ insert k new s.jobs
      → ◌>>=◌ (λ (_ : TrainingJobStore). x) (λ _. pure new) u ≡ (ok job, t)
      → lookup k t.jobs ≡ some job
  admitted (ok a, v) k new job s u t e h =
      let jobs : v.jobs ≡ t.jobs =
        ap (λ (y : Result TrainingJobRecord × TrainingJobStore). y.1.jobs) h in
      let out : new ≡ job =
        ok-injective (ap (λ (y : Result TrainingJobRecord × TrainingJobStore). y.0) h) in
      let there = lookup-insert k k new s.jobs in ground (arith, eq_refl k)
  admitted (err x, v) k new job s u t e h = cc h

  admit-lookup :
      (k : String) (request : TrainingJobRequest) (origin : Option String) (s t : TrainingJobStore)
      (job : TrainingJobRecord)
      → admit k request origin s ≡ (ok job, t)
      → lookup k t.jobs ≡ some job
  unfolding admit
  admit-lookup k request origin s t job h =
      let u = with_made k request origin s in
      admitted (save u) k (made k request origin s) job s u t (save-Keeps u) h

  admission-lookup :
      (b : Bool) (e : Exception) (k : String) (request : TrainingJobRequest)
      (s t : TrainingJobStore) (job : TrainingJobRecord)
      → (raise_when b e >>= λ _. admit k request none) s ≡ (ok job, t)
      → lookup k t.jobs ≡ some job
  admission-lookup true e k request s t job h = cc h
  admission-lookup false e k request s t job h = admit-lookup k request none s t job h

  create_at-lookup :
      (k : String) (request : TrainingJobRequest) (o : Option TrainingJobRecord)
      (s t : TrainingJobStore) (job : TrainingJobRecord)
      → lookup k s.jobs ≡ o
      → create_at k request o s ≡ (ok job, t)
      → lookup k t.jobs ≡ some job
  unfolding create_at
  create_at-lookup k request (some old) s t job e h =
      let jobs : s.jobs ≡ t.jobs =
        ap (λ (y : Result TrainingJobRecord × TrainingJobStore). y.1.jobs) h in
      let out : old ≡ job =
        ok-injective (ap (λ (y : Result TrainingJobRecord × TrainingJobStore). y.0) h) in
      rw (← jobs, ← out) e
  create_at-lookup k request none s t job e h =
      admission-lookup (leb s.queue_limit (active_count s)) (api queue_limit_exceeded 429) k request
        s t job h

  -- After a creation that returns, a second one for the same request returns the same job and
  -- changes nothing.
  pub create_again :
      (request : TrainingJobRequest) (s t : TrainingJobStore) (job : TrainingJobRecord)
      → create request s ≡ (ok job, t)
      → create request t ≡ (ok job, t)
  unfolding create create_at
  create_again request s t job h =
      let k = stable_job_id request in
      let there = create_at-lookup k request (lookup k s.jobs) s t job refl h in
      rw (there, create_at) refl
