-- ===== src/Store/Sweep.antt =====
-- store.py: the sweep over all jobs.
use scooling_lab.Base.{
  ℕ, String, List, [], ◌∷◌, ◌++◌, map, Option, none, some, if◌then◌else◌, lookup, values,
}
use scooling_lab.Method.{pure, gets, ◌>>=◌}
use scooling_lab.Platform.{Platform}
use scooling_lab.Store.Records.{DeletionReceipt, TrainingJobRecord}
use scooling_lab.Store.State.{Action, sorted_by_id}
use scooling_lab.Store.Deletion.{delete_expired_artifact_locked, time_or_now}

-- the summary of a sweep: the ids of the deleted jobs, and the storage keys
abbrev pub Sweep : Type 0
Sweep = List String × List String

abbrev pub swept : String → Option (DeletionReceipt × Option String) → Sweep → Sweep
swept id none acc = acc
swept id (some (receipt, key)) (ids, keys) =
    if receipt.deleted
    then (ids ++ id ∷ [], elim key [ none ↦ keys | some k ↦ keys ++ k ∷ [] ])
    else (ids, keys)

module _ ⦃p : Platform⦄ where
  -- one round of the sweep, on the record as it is when its turn comes
  unfoldable pub sweep_one : ℕ → String → Sweep → Option TrainingJobRecord → Action Sweep
  sweep_one now id acc none = pure acc
  sweep_one now id acc (some job) = do
    result ← delete_expired_artifact_locked job now
    pure (swept job.id result acc)

  -- the list holds the ids of the records, which are the same objects throughout
  unfoldable pub sweep_jobs : ℕ → List String → Sweep → Action Sweep
  sweep_jobs now [] acc = pure acc
  sweep_jobs now (id ∷ ids) acc = do
    found ← gets (λ s. lookup id s.jobs)
    acc' ← sweep_one now id acc found
    sweep_jobs now ids acc'

  unfoldable pub sweep_from : ℕ → Action Sweep
  sweep_from time s = sweep_jobs time (map (λ r. r.id) (sorted_by_id (values s.jobs))) ([], []) s

  unfoldable pub sweep_expired : Option ℕ → Action Sweep
  sweep_expired now = do time ← time_or_now now; sweep_from time
