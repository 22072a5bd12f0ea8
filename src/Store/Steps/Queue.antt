-- ===== src/Store/Steps/Queue.antt =====
-- store.py: promotion, cancellation and changes of status are steps.
use scooling_lab.Base.{
  ℕ, zero, suc, ◌+◌, String, Bool, true, false, not, ◌&&◌, ◌≡◌, arith, some, lookup, insert,
  if◌then◌else◌, Option-cases, Bool-cases, inl, inr, find_first, values, length, subst,
}
use scooling_lab.Errors.{Result, ok}
use scooling_lab.Method.{pure, lift, ◌>>=◌, ◌>>◌}
use scooling_lab.Platform.{Platform}
use scooling_lab.Retention.{utc_timestamp}
use scooling_lab.StateMachine
use scooling_lab.StateMachine.{
  TrainingJobStatus, queued, running, failed, cancelled, same, transition, transition_table,
}
use scooling_lab.Store.Records.{TrainingJobRecord, is_deleted}
use scooling_lab.Store.Dicts.{IsKeyed, find_first-lookup}
use scooling_lab.Store.State.{TrainingJobStore, put, get, save, is_queued, can_run_now, utc_now_iso}
use scooling_lab.Store.Queue.{
  promote_one, promote_rounds, promote_queued, change_status, cancel, update_status, cancel_to,
  update_to,
}
use scooling_lab.Store.Steps.{Reach, here, next, Reach-trans, move, tick, change}
use scooling_lab.Store.Steps.Keyed.{Reach-IsKeyed}
use scooling_lab.Store.Steps.Rules.{
  bind-Reach, lift-Reach, if-Reach, get-Reach, get-Reach_last, save-Reach,
}

module _ ⦃p : Platform⦄ where
  abbrev pub changed :
      String → TrainingJobRecord → TrainingJobStatus → TrainingJobStore → TrainingJobStore
  changed k r t s = record s {
    readings = s.readings + 1;
    jobs =
        insert k (record r { status = t; updated_at = utc_timestamp (s.clock s.readings) }) s.jobs;
  }

  -- A legal change of the status of a job that is there.
  moved :
      (k : String) (r : TrainingJobRecord) (t : TrainingJobStatus) (s : TrainingJobStore)
      → lookup k s.jobs ≡ some r
      → transition_table r.status t ≡ true
      → is_deleted t ≡ false
      → Reach s ((utc_now_iso >>= λ now. put k (record r { status = t; updated_at = now })) s).1
  moved k r t s e legal alive =
      next (next here (tick (s.readings + 1))) (change k e (move t _ legal alive))

  queued-transition :
      (c t : TrainingJobStatus)
      → same c queued ≡ true
      → transition c running ≡ ok t
      → (transition_table c t ≡ true) × (is_deleted t ≡ false)
  unfolding transition
  queued-transition c t q h = ground arith

  promote_one-Reach :
      (k : String) (r : TrainingJobRecord) (s : TrainingJobStore)
      → lookup k s.jobs ≡ some r
      → is_queued r ≡ true
      → Reach s (promote_one k r s).1
  unfolding promote_one
  promote_one-Reach k r s e q =
      lift-Reach s (transition r.status running)
        (λ t. utc_now_iso >>= λ now. put k (record r { status = t; updated_at = now }))
        (λ t h.
          let (legal, alive) = queued-transition r.status t q h in moved k r t s e legal alive)

  promote_rounds-Reach :
      (fuel : ℕ) (s : TrainingJobStore) → IsKeyed s.jobs → Reach s (promote_rounds fuel s).1
  unfolding promote_rounds
  promote_rounds-Reach zero s keyed = here
  promote_rounds-Reach (suc fuel) s keyed = elim (Bool-cases (can_run_now s)) [
    | inr full ↦ rw (full, promote_rounds) here
    | inl room ↦ elim (Option-cases (find_first is_queued (values s.jobs))) [
      | inl nobody ↦ rw (room, nobody, promote_rounds) here
      | inr (job, e) ↦
          let (there, waiting) = find_first-lookup is_queued job s.jobs keyed e in
          let step = promote_one-Reach job.id job s there waiting in
          rw (room, e, promote_rounds)
            (bind-Reach s (promote_one job.id job) (λ _. promote_rounds fuel) step
              (λ _ t out. promote_rounds-Reach fuel t (
                subst (λ (x : Result (Unit {0}) × TrainingJobStore). IsKeyed x.1.jobs) out
                  (Reach-IsKeyed step keyed))))
    ]
  ]

  pub promote_queued-Reach : (s : TrainingJobStore) → IsKeyed s.jobs → Reach s (promote_queued s).1
  unfolding promote_queued
  promote_queued-Reach s keyed = promote_rounds-Reach (suc (length s.jobs)) s keyed

  change_status-Reach :
      (k : String) (r : TrainingJobRecord) (t : TrainingJobStatus) (frees_slot : Bool)
      (s : TrainingJobStore)
      → IsKeyed s.jobs
      → lookup k s.jobs ≡ some r
      → transition_table r.status t ≡ true
      → is_deleted t ≡ false
      → Reach s (change_status k r t frees_slot s).1
  unfolding change_status
  change_status-Reach k r t frees_slot s keyed e legal alive =
      let first = moved k r t s e legal alive in
      let u = changed k r t s in
      Reach-trans first (
        bind-Reach u (if frees_slot then promote_queued else pure tt) (λ _. save)
          (if-Reach u frees_slot promote_queued (pure tt)
            (λ _. promote_queued-Reach u (Reach-IsKeyed first keyed)) (λ _. here))
          (λ _ v _. save-Reach v))

  -- What the transition functions allow, where they change the status.
  transition-legal :
      (c target t : TrainingJobStatus)
      → transition c target ≡ ok t
      → same t c ≡ false
      → is_deleted target ≡ false
      → (transition_table c t ≡ true) × (is_deleted t ≡ false)
  unfolding transition
  transition-legal c target t h changed alive = ground arith

  cancel-legal :
      (c t : TrainingJobStatus)
      → StateMachine.cancel c ≡ ok t
      → same t c ≡ false
      → (transition_table c t ≡ true) × (is_deleted t ≡ false)
  unfolding StateMachine.cancel
  cancel-legal c t h changed = ground arith

  cancel_to-Reach :
      (k : String) (r : TrainingJobRecord) (t : TrainingJobStatus) (s : TrainingJobStore)
      → IsKeyed s.jobs
      → lookup k s.jobs ≡ some r
      → StateMachine.cancel r.status ≡ ok t
      → Reach s (cancel_to k r t s).1
  unfolding cancel_to
  cancel_to-Reach k r t s keyed e h =
      if-Reach s (same t r.status) (pure r) (change_status k r t (same r.status running) >> get k)
        (λ _. here)
        (λ moves.
          let (legal, alive) = cancel-legal r.status t h moves in
          bind-Reach s (change_status k r t (same r.status running)) (λ _. get k)
            (change_status-Reach k r t (same r.status running) s keyed e legal alive)
            (λ _ u _. get-Reach_last k u))

  -- Cancellation is a sequence of steps, the promotion that follows it included.
  pub cancel-Reach : (k : String) (s : TrainingJobStore) → IsKeyed s.jobs → Reach s (cancel k s).1
  unfolding cancel
  cancel-Reach k s keyed =
      get-Reach s k (λ r. lift (StateMachine.cancel r.status) >>= cancel_to k r)
        (λ r e.
          lift-Reach s (StateMachine.cancel r.status) (cancel_to k r)
            (λ t h. cancel_to-Reach k r t s keyed e h))

  update_to-Reach :
      (k : String) (r : TrainingJobRecord) (target t : TrainingJobStatus) (s : TrainingJobStore)
      → IsKeyed s.jobs
      → lookup k s.jobs ≡ some r
      → transition r.status target ≡ ok t
      → is_deleted target ≡ false
      → Reach s (update_to k r t s).1
  unfolding update_to
  update_to-Reach k r target t s keyed e h alive =
      let frees = same r.status running && not (same t running) in
      if-Reach s (same t r.status) (pure r) (change_status k r t frees >> get k) (λ _. here)
        (λ moves.
          let (legal, kept) = transition-legal r.status target t h moves alive in
          bind-Reach s (change_status k r t frees) (λ _. get k)
            (change_status-Reach k r t frees s keyed e legal kept) (λ _ u _. get-Reach_last k u))

  -- A change of status to anything but `deleted` is a sequence of steps.
  pub update_status-Reach :
      (k : String) (target : TrainingJobStatus) (s : TrainingJobStore)
      → IsKeyed s.jobs
      → is_deleted target ≡ false
      → Reach s (update_status k target s).1
  unfolding update_status
  update_status-Reach k target s keyed alive =
      get-Reach s k (λ r. lift (transition r.status target) >>= update_to k r)
        (λ r e.
          lift-Reach s (transition r.status target) (update_to k r)
            (λ t h. update_to-Reach k r target t s keyed e h alive))
