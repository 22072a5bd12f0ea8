-- ===== src/Store/Steps/Capacity.antt =====
-- store.py: the number of active jobs never exceeds the limit of the queue.
use scooling_lab.Base.{
  ◌+◌, ◌≤◌, String, Bool, true, ◌||◌, ◌≡◌, refl, arith, [], ◌∷◌, none, lookup, insert, insert_new,
  values, count_if, count_if-append,
}
use scooling_lab.StateMachine.{TrainingJobStatus, queued, running, same, transition_table}
use scooling_lab.Store.Records.{TrainingJobRecord}
use scooling_lab.Store.State.{TrainingJobStore, active_count, is_active}
use scooling_lab.Store.Deletion.{tombstone}
use scooling_lab.Store.Dicts.{bit, count_if-insert, values-append}
use scooling_lab.Store.Steps.{
  JobStep, move, bury, edit, IsNew, fresh, Step, tick, write, call, change, admit, Reach, here,
  next,
}

-- The configuration of a store never changes.
pub Reach-limits :
    {s t : TrainingJobStore}
    → Reach s t
    → (t.queue_limit ≡ s.queue_limit)
      × (t.max_concurrent_running ≡ s.max_concurrent_running)
      × (t.has_persistence_path ≡ s.has_persistence_path)
Reach-limits here = (refl, refl, refl)
Reach-limits (next r (tick n)) = Reach-limits r
Reach-limits (next r (write v)) = Reach-limits r
Reach-limits (next r (call keys)) = Reach-limits r
Reach-limits (next r (change k e st)) = Reach-limits r
Reach-limits (next r (admit k e room new)) = Reach-limits r

-- A status that is left for a new one was active, or stays inactive.
move-active :
    (a b : TrainingJobStatus)
    → transition_table a b ≡ true
    → bit (same b queued || same b running) ≤ bit (same a queued || same a running)
unfolding transition_table
move-active a b h = ground arith

JobStep-active :
    (r : TrainingJobRecord) {r' : TrainingJobRecord}
    → JobStep r r'
    → bit (is_active r') ≤ bit (is_active r)
unfolding tombstone
JobStep-active r (move t now legal alive) = move-active r.status t legal
JobStep-active r (bury now retain done) = omega arith
JobStep-active r (edit a v now) = omega arith

IsNew-active : {k : String} {r : TrainingJobRecord} → IsNew k r → bit (is_active r) ≡ 1
IsNew-active (fresh request made touched origin) = refl

count_if-admit :
    (q : TrainingJobRecord → Bool) (k : String) (r : TrainingJobRecord) (s : TrainingJobStore)
    → lookup k s.jobs ≡ none
    → count_if q (values (insert k r s.jobs)) ≡ count_if q (values s.jobs) + bit (q r)
count_if-admit q k r s e =
    rw
      (
        insert_new k r s.jobs e,
        values-append s.jobs ((k, r) ∷ []),
        count_if-append q (values s.jobs) (r ∷ []),
      )
      (ground arith)

Step-active :
    {s t : TrainingJobStore}
    → Step s t
    → active_count s ≤ s.queue_limit
    → active_count t ≤ t.queue_limit
unfolding active_count
Step-active (tick n) h = h
Step-active (write v) h = h
Step-active (call keys) h = h
Step-active {s} (change k {r = x} {r' = x'} e st) h =
    omega (arith, count_if-insert is_active k x x' s.jobs e, JobStep-active x st)
Step-active {s} (admit k {r = x} e room new) h =
    omega (arith, count_if-admit is_active k x s e, IsNew-active new)

-- A sequence of steps keeps the number of active jobs within the limit.
pub Reach-active :
    {s t : TrainingJobStore}
    → Reach s t
    → active_count s ≤ s.queue_limit
    → active_count t ≤ t.queue_limit
Reach-active here h = h
Reach-active (next r st) h = Step-active st (Reach-active r h)
