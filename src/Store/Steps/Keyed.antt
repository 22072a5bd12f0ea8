-- ===== src/Store/Steps/Keyed.antt =====
-- store.py: steps keep every record under its own id.
use scooling_lab.Base.{◌≡◌, refl, ◌∙◌}
use scooling_lab.Store.Records.{TrainingJobRecord}
use scooling_lab.Store.State.{TrainingJobStore}
use scooling_lab.Store.Deletion.{tombstone}
use scooling_lab.Store.Dicts.{IsKeyed, insert-IsKeyed, lookup-id}
use scooling_lab.Store.Steps.{
  JobStep, move, bury, edit, IsNew, fresh, Step, tick, write, call, change, admit, Reach, here,
  next,
}
use scooling_lab.Base.{String}

pub JobStep-id : {r r' : TrainingJobRecord} → JobStep r r' → r'.id ≡ r.id
unfolding tombstone
JobStep-id (move t now legal alive) = refl
JobStep-id (bury now retain done) = refl
JobStep-id (edit a v now) = refl

IsNew-id : {k : String} {r : TrainingJobRecord} → IsNew k r → r.id ≡ k
IsNew-id (fresh request made touched origin) = refl

Step-IsKeyed : {s t : TrainingJobStore} → Step s t → IsKeyed s.jobs → IsKeyed t.jobs
Step-IsKeyed (tick n) h = h
Step-IsKeyed (write v) h = h
Step-IsKeyed (call keys) h = h
Step-IsKeyed {s} (change k {r} {r'} e st) h =
    insert-IsKeyed k r' s.jobs (JobStep-id st ∙ lookup-id k r s.jobs h e) h
Step-IsKeyed {s} (admit k {r} e room new) h = insert-IsKeyed k r s.jobs (IsNew-id new) h

pub Reach-IsKeyed : {s t : TrainingJobStore} → Reach s t → IsKeyed s.jobs → IsKeyed t.jobs
Reach-IsKeyed here h = h
Reach-IsKeyed (next r st) h = Step-IsKeyed st (Reach-IsKeyed r h)
