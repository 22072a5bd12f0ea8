-- ===== src/Store/State.antt =====
-- store.py: the state of `TrainingJobStore`, its counts, and `_save`. The clock is a sequence of
-- readings in microseconds; every call that asks for the time takes the next one. The persistence
-- file is the value that its JSON text stands for.
use Prim.Native.String.{compare}
use text.Mathlib.Text.{is_le}
use scooling_lab.Base.{
  ℕ, ◌+◌, String, Bool, ◌||◌, List, [], ◌∷◌, Option, some, ltb, if◌then◌else◌, Dict, lookup, insert,
  values, count_if,
}
use scooling_lab.Errors.{Result, ok, err, api, not_found}
use scooling_lab.Json.{Value, arr, obj, end, field}
use scooling_lab.Method.{Method, pure, or_raise}
use scooling_lab.Platform.{Platform}
use scooling_lab.Retention.{utc_timestamp}
use scooling_lab.StateMachine.{queued, running, same}
use scooling_lab.Store.Records.{TrainingJobRecord, items_of, to_persisted_dict}

-- `class TrainingJobStore`, with the readings of the clock and the storage deletions so far
pub record TrainingJobStore : Type 0 where
  pub jobs : Dict TrainingJobRecord
  pub has_persistence_path : Bool
  pub file : Option Value
  pub queue_limit : ℕ
  pub max_concurrent_running : ℕ
  pub on_storage_delete : Option (String → Result (Unit {0}))
  pub storage_deletes : List String
  pub clock : ℕ → ℕ
  pub readings : ℕ

abbrev pub Action : Type 0 → Type 0
Action A = Method TrainingJobStore A

-- `datetime.now(UTC)`
abbrev pub now_utc : Action ℕ
now_utc s = (ok (s.clock s.readings), record s { readings = s.readings + 1 })

abbrev pub utc_now_iso : ⦃p : Platform⦄ → Action String
utc_now_iso s = (ok (utc_timestamp (s.clock s.readings)), record s { readings = s.readings + 1 })

-- A write to the record at a key, which every holder of the record sees.
abbrev pub put : String → TrainingJobRecord → Action (Unit {0})
put k r s = (ok tt, record s { jobs = insert k r s.jobs })

-- `self._jobs.get(job_id)` or the not-found error
unfoldable pub get : String → Action TrainingJobRecord
get job_id s = or_raise (lookup job_id s.jobs) (api not_found 404) s

abbrev pub is_active : TrainingJobRecord → Bool
is_active r = same r.status queued || same r.status running

abbrev pub is_running : TrainingJobRecord → Bool
is_running r = same r.status running

abbrev pub is_queued : TrainingJobRecord → Bool
is_queued r = same r.status queued

unfoldable pub active_count : TrainingJobStore → ℕ
active_count s = count_if is_active (values s.jobs)

unfoldable pub running_count : TrainingJobStore → ℕ
running_count s = count_if is_running (values s.jobs)

unfoldable pub can_run_now : TrainingJobStore → Bool
unfolding running_count
can_run_now s = ltb (running_count s) s.max_concurrent_running

-- `sorted(self._jobs.values(), key=lambda item: item.id)`
unfoldable pub insert_by_id : TrainingJobRecord → List TrainingJobRecord → List TrainingJobRecord
insert_by_id r [] = r ∷ []
insert_by_id r (x ∷ xs) =
    let rest = insert_by_id r xs in if is_le (compare r.id x.id) then r ∷ x ∷ xs else x ∷ rest

unfoldable pub sorted_by_id : List TrainingJobRecord → List TrainingJobRecord
unfolding insert_by_id
sorted_by_id [] = []
sorted_by_id (r ∷ rs) = insert_by_id r (sorted_by_id rs)

-- what `_save` writes
unfoldable pub payload_of : ⦃p : Platform⦄ → Dict TrainingJobRecord → Result Value
payload_of jobs = elim (items_of to_persisted_dict (sorted_by_id (values jobs))) [
  | ok items ↦ ok (obj (field "jobs" (arr items) end))
  | err e ↦ err e
]

unfoldable pub write_file : Result Value → Action (Unit {0})
write_file (ok v) s = (ok tt, record s { file = some v })
write_file (err e) s = (err e, s)

-- `_save`
unfoldable pub save : ⦃p : Platform⦄ → Action (Unit {0})
unfolding write_file
save s = (if s.has_persistence_path then write_file (payload_of s.jobs) else pure tt) s
