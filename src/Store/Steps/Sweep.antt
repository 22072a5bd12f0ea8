-- ===== src/Store/Steps/Sweep.antt =====
-- store.py: the sweep over all jobs is a sequence of steps.
use scooling_lab.Base.{ℕ, ◌+◌, String, ◌≡◌, refl, Option, none, some, lookup, List, [], ◌∷◌, subst}
use scooling_lab.Errors.{Result}
use scooling_lab.Method.{pure}
use scooling_lab.Platform.{Platform}
use scooling_lab.Store.Records.{TrainingJobRecord}
use scooling_lab.Store.Dicts.{IsKeyed}
use scooling_lab.Store.State.{TrainingJobStore}
use scooling_lab.Store.Deletion.{delete_expired_artifact_locked, time_or_now}
use scooling_lab.Store.Steps.{Reach, here, next, Reach-trans, tick}
use scooling_lab.Store.Steps.Rules.{bind-Reach}
use scooling_lab.Store.Sweep.{Sweep, swept, sweep_one, sweep_jobs, sweep_from, sweep_expired}
use scooling_lab.Store.Steps.Keyed.{Reach-IsKeyed}
use scooling_lab.Store.Steps.Deletion.{delete_expired-Reach, own_id}

module _ ⦃p : Platform⦄ where
  sweep_one-Reach :
      (now : ℕ) (id : String) (acc : Sweep) (o : Option TrainingJobRecord) (s : TrainingJobStore)
      → IsKeyed s.jobs
      → lookup id s.jobs ≡ o
      → Reach s (sweep_one now id acc o s).1
  unfolding sweep_one
  sweep_one-Reach now id acc none s keyed e = here
  sweep_one-Reach now id acc (some job) s keyed e =
      bind-Reach s (delete_expired_artifact_locked job now) (λ r. pure (swept job.id r acc))
        (delete_expired-Reach job now s (own_id id job s keyed e)) (λ _ _ _. here)

  sweep_jobs-Reach :
      (now : ℕ) (ids : List String) (acc : Sweep) (s : TrainingJobStore)
      → IsKeyed s.jobs
      → Reach s (sweep_jobs now ids acc s).1
  unfolding sweep_jobs
  sweep_jobs-Reach now [] acc s keyed = here
  sweep_jobs-Reach now (id ∷ ids) acc s keyed =
      let o = lookup id s.jobs in
      let first = sweep_one-Reach now id acc o s keyed refl in
      bind-Reach s (sweep_one now id acc o) (sweep_jobs now ids) first (λ acc' t out.
        sweep_jobs-Reach now ids acc' t (
          subst (λ (x : Result Sweep × TrainingJobStore). IsKeyed x.1.jobs) out
            (Reach-IsKeyed first keyed)))

  -- A sweep is a sequence of steps, also one that a raising callback cuts short.
  pub sweep_expired-Reach :
      (now : Option ℕ) (s : TrainingJobStore) → IsKeyed s.jobs → Reach s (sweep_expired now s).1
  unfolding sweep_expired sweep_from time_or_now
  sweep_expired-Reach (some t) s keyed = sweep_jobs-Reach t _ ([], []) s keyed
  sweep_expired-Reach none s keyed = Reach-trans (next here (tick (s.readings + 1))) (
      sweep_jobs-Reach (s.clock s.readings) _ ([], []) (record s { readings = s.readings + 1 })
        keyed)
