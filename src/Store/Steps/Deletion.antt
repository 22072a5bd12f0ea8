-- ===== src/Store/Steps/Deletion.antt =====
-- store.py: deletion and expiry are steps.
use scooling_lab.Base.{
  ℕ, ◌+◌, String, Bool, true, false, ◌≡◌, arith, Option, none, some, lookup, insert, if◌then◌else◌,
  List, [], ◌∷◌, ◌++◌, subst, sym,
}
use scooling_lab.Errors.{Result, ok}
use scooling_lab.Json.{str}
use scooling_lab.Method.{pure, lift, ◌>>=◌}
use scooling_lab.Platform.{Platform}
use scooling_lab.Retention.{utc_timestamp, is_expired}
use scooling_lab.StateMachine.{TrainingJobStatus, succeeded, deleted, same, transition}
use scooling_lab.Contracts.Identifiers.{require_job_id, require_artifact_id}
use scooling_lab.Store.Records.{ArtifactMetadata, TrainingJobRecord}
use scooling_lab.Store.Dicts.{IsKeyed, lookup-id}
use scooling_lab.Store.State.{TrainingJobStore, get, save}
use scooling_lab.Store.Deletion.{
  tombstone, call_storage, delete_artifact_locked, delete_first_expired,
  delete_expired_artifact_locked, evaluate_expiry, time_or_now, delete_found, delete_from,
  delete_artifact, finish_deletion, bury_job, notify_storage, issue_receipt, find_artifact,
}
use scooling_lab.Store.Steps.{Reach, here, next, Reach-trans, bury, tick, call, change}
use scooling_lab.Store.Steps.Rules.{
  bind-Reach, lift-Reach, if-Reach, get-Reach, get-Reach_last, save-Reach,
}

call_storage-Reach :
    (o : Option (String → Result (Unit {0}))) (key : Option String) (s : TrainingJobStore)
    → Reach s (call_storage o key s).1
unfolding call_storage
call_storage-Reach (some f) (some key) s = next here (call (s.storage_deletes ++ key ∷ []))
call_storage-Reach _ none s = here
call_storage-Reach none (some key) s = here

transition-deleted :
    (c t : TrainingJobStatus)
    → transition c deleted ≡ ok t
    → same c deleted ≡ false
    → (c ≡ succeeded) × (t ≡ deleted)
unfolding transition
transition-deleted c t h e = ground arith

module _ ⦃p : Platform⦄ where
  issue_receipt_state :
      (job : TrainingJobRecord) (a : ArtifactMetadata) (verify : Bool) (s : TrainingJobStore)
      → (issue_receipt job a verify s).1 ≡ s
  unfolding issue_receipt
  issue_receipt_state job a verify s = ground arith

  finish_deletion-Reach :
      (job : TrainingJobRecord) (a : ArtifactMetadata) (verify : Bool) (s : TrainingJobStore)
      → Reach s (finish_deletion job a verify s).1
  unfolding finish_deletion
  finish_deletion-Reach job a verify s =
      let receipt = issue_receipt job a verify in
      bind-Reach s save (λ _. notify_storage a.storage_key >>= λ _. receipt) (save-Reach s)
        (λ _ t _.
          bind-Reach t (notify_storage a.storage_key) (λ _. receipt)
            (unfold notify_storage in call_storage-Reach t.on_storage_delete a.storage_key t)
            (λ _ u _. rw (issue_receipt_state job a verify u) here))

  abbrev buried : TrainingJobRecord → Bool → TrainingJobStore → TrainingJobStore
  buried job retain s = record s {
    readings = s.readings + 1;
    jobs = insert job.id (tombstone job deleted (utc_timestamp (s.clock s.readings)) retain) s.jobs;
  }

  bury_job-Reach :
      (job : TrainingJobRecord) (a : ArtifactMetadata) (verify retain : Bool)
      (status : TrainingJobStatus) (s : TrainingJobStore)
      → lookup job.id s.jobs ≡ some job
      → job.status ≡ succeeded
      → status ≡ deleted
      → Reach s (bury_job job a verify retain status s).1
  unfolding bury_job
  bury_job-Reach job a verify retain status s e done gone = rw gone (
      Reach-trans (next (next here (tick (s.readings + 1))) (change job.id e (bury _ retain done)))
        (finish_deletion-Reach job a verify (buried job retain s)))

  delete_artifact_locked-Reach :
      (job : TrainingJobRecord) (a : ArtifactMetadata) (verify retain : Bool) (s : TrainingJobStore)
      → lookup job.id s.jobs ≡ some job
      → same job.status deleted ≡ false
      → Reach s (delete_artifact_locked job a verify retain s).1
  unfolding delete_artifact_locked
  delete_artifact_locked-Reach job a verify retain s e alive =
      lift-Reach s (transition job.status deleted) (bury_job job a verify retain) (λ t h.
        let (done, gone) = transition-deleted job.status t h alive in
        bury_job-Reach job a verify retain t s e done gone)

  delete_first_expired-Reach :
      (job : TrainingJobRecord) (now : ℕ) (a : List ArtifactMetadata) (s : TrainingJobStore)
      → lookup job.id s.jobs ≡ some job
      → same job.status deleted ≡ false
      → Reach s (delete_first_expired job now a s).1
  unfolding delete_first_expired
  delete_first_expired-Reach job now [] s e alive = here
  delete_first_expired-Reach job now (a ∷ rest) s e alive =
      lift-Reach s (is_expired a.created_at a.retention_policy now)
        (λ expired.
          if expired
          then delete_artifact_locked job a false true >>= (λ r. pure (some r))
          else delete_first_expired job now rest)
        (λ expired _.
          if-Reach s expired (delete_artifact_locked job a false true >>= (λ r. pure (some r)))
            (delete_first_expired job now rest)
            (λ _.
              bind-Reach s (delete_artifact_locked job a false true) (λ r. pure (some r))
                (delete_artifact_locked-Reach job a false true s e alive) (λ _ _ _. here))
            (λ _. delete_first_expired-Reach job now rest s e alive))

  succeeded_alive : (c : TrainingJobStatus) → same c succeeded ≡ true → same c deleted ≡ false
  succeeded_alive c h = ground arith

  pub delete_expired-Reach :
      (job : TrainingJobRecord) (now : ℕ) (s : TrainingJobStore)
      → lookup job.id s.jobs ≡ some job
      → Reach s (delete_expired_artifact_locked job now s).1
  unfolding delete_expired_artifact_locked
  delete_expired-Reach job now s e =
      if-Reach s (same job.status succeeded) (delete_first_expired job now job.artifacts)
        (pure none)
        (λ h. delete_first_expired-Reach job now job.artifacts s e (succeeded_alive job.status h))
        (λ _. here)

  pub own_id :
      (k : String) (job : TrainingJobRecord) (s : TrainingJobStore)
      → IsKeyed s.jobs
      → lookup k s.jobs ≡ some job
      → lookup job.id s.jobs ≡ some job
  own_id k job s keyed e =
      subst (λ j. lookup j s.jobs ≡ some job) (sym (lookup-id k job s.jobs keyed e)) e

  expire_at :
      (k : String) (job : TrainingJobRecord) (time : ℕ) (s : TrainingJobStore)
      → IsKeyed s.jobs
      → lookup k s.jobs ≡ some job
      → Reach s ((delete_expired_artifact_locked job time >>= λ _. get k) s).1
  expire_at k job time s keyed e =
      bind-Reach s (delete_expired_artifact_locked job time) (λ _. get k)
        (delete_expired-Reach job time s (own_id k job s keyed e)) (λ _ t _. get-Reach_last k t)

  expire_found :
      (k : String) (now : Option ℕ) (job : TrainingJobRecord) (s : TrainingJobStore)
      → IsKeyed s.jobs
      → lookup k s.jobs ≡ some job
      → Reach s
          ((time_or_now now >>= λ time. delete_expired_artifact_locked job time >>= λ _. get k) s).1
  unfolding time_or_now
  expire_found k (some t) job s keyed e = expire_at k job t s keyed e
  expire_found k none job s keyed e =
      Reach-trans (next here (tick (s.readings + 1)))
        (expire_at k job (s.clock s.readings) (record s { readings = s.readings + 1 }) keyed e)

  -- The evaluation of a job's expiry is a sequence of steps.
  pub evaluate_expiry-Reach :
      (k : String) (now : Option ℕ) (s : TrainingJobStore)
      → IsKeyed s.jobs
      → Reach s (evaluate_expiry k now s).1
  unfolding evaluate_expiry
  evaluate_expiry-Reach k now s keyed =
      let found = λ (job : TrainingJobRecord).
        time_or_now now >>= λ time. delete_expired_artifact_locked job time >>= λ _. get k in
      lift-Reach s (require_job_id (str k)) (λ _. get k >>= found)
        (λ _ _. get-Reach s k found (λ job e. expire_found k now job s keyed e))

  delete_found-Reach :
      (job : TrainingJobRecord) (o : Option ArtifactMetadata) (s : TrainingJobStore)
      → lookup job.id s.jobs ≡ some job
      → same job.status deleted ≡ false
      → Reach s (delete_found job o s).1
  unfolding delete_found
  delete_found-Reach job none s e alive = here
  delete_found-Reach job (some a) s e alive =
      delete_artifact_locked-Reach job a true false s e alive

  -- The deletion of an artifact is a sequence of steps.
  pub delete_artifact-Reach :
      (k artifact_id : String) (s : TrainingJobStore)
      → IsKeyed s.jobs
      → Reach s (delete_artifact k artifact_id s).1
  unfolding delete_artifact delete_from
  delete_artifact-Reach k artifact_id s keyed =
      let second = λ (_ : String). get k >>= delete_from k artifact_id in
      lift-Reach s (require_job_id (str k))
        (λ _. lift (require_artifact_id (str artifact_id)) >>= second)
        (λ _ _. lift-Reach s (require_artifact_id (str artifact_id)) second (λ _ _.
          get-Reach s k (delete_from k artifact_id) (λ job e.
            if-Reach s (same job.status deleted) (pure _)
              (delete_found job (find_artifact artifact_id job.artifacts)) (λ _. here)
              (λ alive.
                delete_found-Reach job (find_artifact artifact_id job.artifacts) s
                  (own_id k job s keyed e) alive))))
