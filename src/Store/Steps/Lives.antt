-- ===== src/Store/Steps/Lives.antt =====
-- store.py: what a sequence of steps does to a job that is there.
use scooling_lab.Base.{
  String, true, false, not, ◌≡◌, refl, ◌∙◌, arith, some, is_some, lookup, insert, lookup-insert,
  str_eq, eq_iff, Bool-cases, inl, inr,
}
use scooling_lab.StateMachine.{TrainingJobStatus, succeeded, deleted, transition_table}
use scooling_lab.StateMachine.Laws.{can_become, can_become_refl, can_become_trans, can_become_move}
use scooling_lab.Store.Records.{TrainingJobRecord, is_deleted}
use scooling_lab.Store.State.{TrainingJobStore}
use scooling_lab.Store.Deletion.{tombstone}
use scooling_lab.Store.Steps.{
  JobStep, move, bury, edit, IsNew, fresh, Step, tick, write, call, change, admit, Reach, here,
  next,
}

-- The second record is a later state of the first: the same job, at a status that follows.
unfoldable pub IsLater : TrainingJobRecord → TrainingJobRecord → Type 0
IsLater r r' =
    (r'.id ≡ r.id)
    × (r'.created_at ≡ r.created_at)
    × (r'.retry_of_job_id ≡ r.retry_of_job_id)
    × (can_become r.status r'.status ≡ true)

-- A record holds its request exactly while it is not deleted, and a time of deletion once it is.
unfoldable pub IsConsistent : TrainingJobRecord → Type 0
IsConsistent r =
    (is_some r.request ≡ not (is_deleted r.status)) × (is_some r.deleted_at ≡ is_deleted r.status)

can_become_bury : (a : TrainingJobStatus) → a ≡ succeeded → can_become a deleted ≡ true
can_become_bury a h = ground arith

IsLater-refl : (r : TrainingJobRecord) → IsLater r r
unfolding IsLater
IsLater-refl r = (refl, refl, refl, can_become_refl r.status)

IsLater-trans : (a b c : TrainingJobRecord) → IsLater a b → IsLater b c → IsLater a c
unfolding IsLater
IsLater-trans a b c h k =
    (k.0 ∙ h.0, k.1 ∙ h.1, k.2 ∙ h.2, can_become_trans a.status b.status c.status h.3 k.3)

JobStep-IsLater : (r : TrainingJobRecord) {r' : TrainingJobRecord} → JobStep r r' → IsLater r r'
unfolding IsLater tombstone
JobStep-IsLater r (move t now legal alive) = (refl, refl, refl, can_become_move r.status t legal)
JobStep-IsLater r (bury now retain done) = (refl, refl, refl, can_become_bury r.status done)
JobStep-IsLater r (edit a v now) = (refl, refl, refl, can_become_refl r.status)

table-alive :
    (a b : TrainingJobStatus)
    → transition_table a b ≡ true
    → is_deleted b ≡ false
    → is_deleted a ≡ false
unfolding transition_table
table-alive a b h k = ground arith

JobStep-IsConsistent :
    (r : TrainingJobRecord) {r' : TrainingJobRecord}
    → JobStep r r'
    → IsConsistent r
    → IsConsistent r'
unfolding IsConsistent tombstone
JobStep-IsConsistent r (move t now legal alive) h =
    let before = table-alive r.status t legal alive in rw (alive, h.0, h.1, before) (refl, refl)
JobStep-IsConsistent r (bury now retain done) h = (refl, refl)
JobStep-IsConsistent r (edit a v now) h = h

IsNew-IsConsistent : {k : String} {r : TrainingJobRecord} → IsNew k r → IsConsistent r
unfolding IsConsistent
IsNew-IsConsistent (fresh request made touched origin) = (refl, refl)

-- The job under a key after a sequence of steps, in terms of the job before it.
abbrev pub Follows : String → TrainingJobRecord → TrainingJobStore → Type 0
Follows k r t = (r' : TrainingJobRecord) × (lookup k t.jobs ≡ some r') × IsLater r r'

Step-IsLater :
    {s t : TrainingJobStore} (k : String) (r : TrainingJobRecord)
    → Step s t
    → lookup k s.jobs ≡ some r
    → Follows k r t
Step-IsLater k r (tick n) e = (r, e, IsLater-refl r)
Step-IsLater k r (write v) e = (r, e, IsLater-refl r)
Step-IsLater k r (call keys) e = (r, e, IsLater-refl r)
Step-IsLater {s} k r (change j {r = x} {r' = x'} f st) e =
    let now = lookup-insert j k x' s.jobs in
    elim (Bool-cases (str_eq j k)) [
      | inl h ↦
          let old : x ≡ r = ground (arith, eq_iff j k) in
          (x', ground arith, rw (← old) (JobStep-IsLater x st))
      | inr h ↦ (r, ground arith, IsLater-refl r)
    ]
Step-IsLater {s} k r (admit j {r = x} f room new) e =
    let now = lookup-insert j k x s.jobs in (r, ground (arith, eq_iff j k), IsLater-refl r)

-- A job that is there stays there, and later states of it follow from earlier ones: the same id,
-- time of creation and origin, and a status that follows.
pub Reach-IsLater :
    {s t : TrainingJobStore} (k : String) (r : TrainingJobRecord)
    → Reach s t
    → lookup k s.jobs ≡ some r
    → Follows k r t
Reach-IsLater k r here e = (r, e, IsLater-refl r)
Reach-IsLater k r (next h st) e =
    let (r1, e1, l1) = Reach-IsLater k r h e in
    let (r2, e2, l2) = Step-IsLater k r1 st e1 in (r2, e2, IsLater-trans r r1 r2 l1 l2)

-- Every record of the store is consistent.
unfoldable pub IsSound : TrainingJobStore → Type 0
IsSound s = (k : String) (r : TrainingJobRecord) → lookup k s.jobs ≡ some r → IsConsistent r

insert-IsConsistent :
    (j : String) (x : TrainingJobRecord) (s : TrainingJobStore)
    → IsConsistent x
    → IsSound s
    → (k : String) (r : TrainingJobRecord) → lookup k (insert j x s.jobs) ≡ some r
    → IsConsistent r
unfolding IsSound
insert-IsConsistent j x s good all k r e =
    let now = lookup-insert j k x s.jobs in
    elim (Bool-cases (str_eq j k)) [
      | inl h ↦ let same : x ≡ r = ground arith in rw (← same) good
      | inr h ↦ all k r (ground arith)
    ]

Step-IsSound : {s t : TrainingJobStore} → Step s t → IsSound s → IsSound t
unfolding IsSound
Step-IsSound (tick n) h = h
Step-IsSound (write v) h = h
Step-IsSound (call keys) h = h
Step-IsSound {s} (change j {r = x} {r' = x'} f st) h =
    insert-IsConsistent j x' s (JobStep-IsConsistent x st (h j x f)) h
Step-IsSound {s} (admit j {r = x} f room new) h =
    insert-IsConsistent j x s (IsNew-IsConsistent new) h

pub Reach-IsSound : {s t : TrainingJobStore} → Reach s t → IsSound s → IsSound t
Reach-IsSound here h = h
Reach-IsSound (next r st) h = Step-IsSound st (Reach-IsSound r h)
