-- ===== src/Store/Promotion.antt =====
-- store.py: the promotion of queued jobs terminates, fills the free slots, and takes no more.
use scooling_lab.Base.{
  ℕ, zero, suc, ◌+◌, ◌≤◌, ◌<◌, Bool, true, false, ◌&&◌, ◌≡◌, refl, ap, arith, List, [], ◌∷◌, none,
  some, is_some, lookup, insert, values, length, Dict, count_if, find_first, count_if-le-length,
  Bool-cases, Option-cases, inl, inr,
}
use scooling_lab.Errors.{Result, ok}
use scooling_lab.Method.{◌>>◌}
use scooling_lab.Platform.{Platform}
use scooling_lab.Retention.{utc_timestamp}
use scooling_lab.StateMachine.{TrainingJobStatus, queued, running, same, transition}
use scooling_lab.Store.Records.{TrainingJobRecord}
use scooling_lab.Store.State.{TrainingJobStore, can_run_now, running_count, is_queued, is_running}
use scooling_lab.Store.Queue.{promote_one, promote_rounds, promote_queued}
use scooling_lab.Store.Dicts.{IsKeyed, count_if-insert, find_first-lookup, insert-IsKeyed}

length-values : (d : Dict TrainingJobRecord) → length (values d) ≡ length d
length-values [] = refl
length-values ((k, r) ∷ d) = cc (length-values d)

queued_starts : (c : TrainingJobStatus) → same c queued ≡ true → transition c running ≡ ok running
unfolding transition
queued_starts c h = ground arith

find_first-none :
    (q : TrainingJobRecord → Bool) (l : List TrainingJobRecord)
    → count_if q l ≡ 0
    → find_first q l ≡ none
find_first-none q [] h = refl
find_first-none q (x ∷ l) h = ground (arith, find_first-none q l)

-- A free slot and a queued job to take it.
abbrev pub can_promote : TrainingJobStore → Bool
can_promote s = can_run_now s && is_some (find_first is_queued (values s.jobs))

waiting : TrainingJobStore → ℕ
waiting s = count_if is_queued (values s.jobs)

module _ ⦃p : Platform⦄ where
  abbrev started : TrainingJobRecord → TrainingJobStore → TrainingJobStore
  started job s = record s {
    readings = s.readings + 1;
    jobs =
        insert job.id
          (record job { status = running; updated_at = utc_timestamp (s.clock s.readings) }) s.jobs;
  }

  promote_one_lem :
      (job : TrainingJobRecord) (s : TrainingJobStore)
      → is_queued job ≡ true
      → promote_one job.id job s ≡ (ok tt, started job s)
  unfolding promote_one
  promote_one_lem job s h = rw (queued_starts job.status h) refl

  started-waiting :
      (job : TrainingJobRecord) (s : TrainingJobStore)
      → is_queued job ≡ true
      → lookup job.id s.jobs ≡ some job
      → suc (waiting (started job s)) ≡ waiting s
  unfolding waiting
  started-waiting job s h e =
      let now = record job { status = running; updated_at = utc_timestamp (s.clock s.readings) } in
      ground (arith, count_if-insert is_queued job.id job now s.jobs e)

  queued_idle : (c : TrainingJobStatus) → same c queued ≡ true → same c running ≡ false
  queued_idle c h = ground arith

  started-running :
      (job : TrainingJobRecord) (s : TrainingJobStore)
      → is_queued job ≡ true
      → lookup job.id s.jobs ≡ some job
      → running_count (started job s) ≡ suc (running_count s)
  unfolding running_count
  started-running job s h e =
      let now = record job { status = running; updated_at = utc_timestamp (s.clock s.readings) } in
      ground (arith, count_if-insert is_running job.id job now s.jobs e, queued_idle job.status h)

  next_round :
      (job : TrainingJobRecord) (fuel : ℕ) (s : TrainingJobStore)
      → is_queued job ≡ true
      → can_run_now s ≡ true
      → find_first is_queued (values s.jobs) ≡ some job
      → promote_rounds (suc fuel) s ≡ promote_rounds fuel (started job s)
  unfolding promote_rounds
  next_round job fuel s q free found =
      rw (free, found, promote_rounds)
        (ap
          (λ (x : Result (Unit {0}) × TrainingJobStore).
            ◌>>◌ (λ (_ : TrainingJobStore). x) (promote_rounds fuel) s)
          (promote_one_lem job s q))

  stopped :
      (fuel : ℕ) (s : TrainingJobStore)
      → can_promote s ≡ false
      → promote_rounds (suc fuel) s ≡ (ok tt, s)
  unfolding promote_rounds
  stopped fuel s h = elim (Bool-cases (can_run_now s)) [
    | inr full ↦ rw (full, promote_rounds) refl
    | inl free ↦ elim (Option-cases (find_first is_queued (values s.jobs))) [
      | inl nobody ↦ rw (free, nobody, promote_rounds) refl
      | inr (job, found) ↦ let bad : true ≡ false = rw (free, found) at h in cc
    ]
  ]

  -- A property of stores that every start of a queued job in a free slot keeps holds after the
  -- rounds, which end with no slot or no job left.
  rounds_lem :
      (P : TrainingJobStore → Type 0)
      → ((job : TrainingJobRecord) (s : TrainingJobStore)
          → can_run_now s ≡ true
          → is_queued job ≡ true
          → lookup job.id s.jobs ≡ some job
          → P s
          → P (started job s))
      → (fuel : ℕ) (s : TrainingJobStore) → IsKeyed s.jobs
      → waiting s < fuel
      → P s
      → ((promote_rounds fuel s).0 ≡ ok tt)
        × (can_promote (promote_rounds fuel s).1 ≡ false)
        × P (promote_rounds fuel s).1
  rounds_lem P keep zero s keyed enough h = ground arith
  rounds_lem P keep (suc fuel) s keyed enough h = elim (Bool-cases (can_run_now s)) [
    | inr full ↦
        let no : can_promote s ≡ false = rw full refl in rw (stopped fuel s no) (refl, no, h)
    | inl free ↦ elim (Option-cases (find_first is_queued (values s.jobs))) [
      | inl nobody ↦
          let no : can_promote s ≡ false = rw (free, nobody) refl in
          rw (stopped fuel s no) (refl, no, h)
      | inr (job, found) ↦
          let (e, q) = find_first-lookup is_queued job s.jobs keyed found in
          rw (next_round job fuel s q free found) (
            rounds_lem P keep fuel (started job s) (insert-IsKeyed job.id _ s.jobs refl keyed)
              (omega (arith, started-waiting job s q e, enough)) (keep job s free q e h))
    ]
  ]

  enough_rounds : (s : TrainingJobStore) → waiting s < suc (length s.jobs)
  unfolding waiting
  enough_rounds s =
      omega (arith, count_if-le-length is_queued (values s.jobs), length-values s.jobs)

  -- Promotion ends without a raise, and it ends with no free slot or no queued job, in a store
  -- whose records stand under their own ids.
  pub promote_queued_done :
      (s : TrainingJobStore)
      → IsKeyed s.jobs
      → ((promote_queued s).0 ≡ ok tt) × (can_promote (promote_queued s).1 ≡ false)
  unfolding promote_queued
  promote_queued_done s keyed =
      let (a, b, c) =
        rounds_lem (λ _. Unit {0}) (λ _ _ _ _ _ _. tt) (suc (length s.jobs)) s keyed
          (enough_rounds s) tt in
      (a, b)

  abbrev WithinCap : ℕ → TrainingJobStore → Type 0
  WithinCap cap s = (running_count s ≤ cap) × (s.max_concurrent_running ≡ cap)

  started-WithinCap :
      (cap : ℕ) (job : TrainingJobRecord) (s : TrainingJobStore)
      → can_run_now s ≡ true
      → is_queued job ≡ true
      → lookup job.id s.jobs ≡ some job
      → WithinCap cap s
      → WithinCap cap (started job s)
  unfolding can_run_now
  started-WithinCap cap job s free q e h =
      (ground (arith, started-running job s q e, h.0, h.1), h.1)

  -- Promotion never takes the number of running jobs over the cap, if it was within the cap
  -- before, in a store whose records stand under their own ids.
  pub promote_queued-running_count :
      (s : TrainingJobStore)
      → IsKeyed s.jobs
      → running_count s ≤ s.max_concurrent_running
      → running_count (promote_queued s).1 ≤ s.max_concurrent_running
  unfolding promote_queued
  promote_queued-running_count s keyed h =
      let cap = s.max_concurrent_running in
      (rounds_lem (WithinCap cap) (started-WithinCap cap) (suc (length s.jobs)) s keyed
        (enough_rounds s) (h, refl)).2.0
