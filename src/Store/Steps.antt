-- ===== src/Store/Steps.antt =====
-- store.py: the life of a job and of the store as step relations. A step of the store is one write
-- of the code: a reading of the clock, a save, a call of the storage backend, a change of one
-- record, or a new record. Every method is a sequence of such steps, also when it raises.
pub mod Keyed
pub mod Rules
pub mod Admission
pub mod Queue
pub mod Deletion
pub mod Sweep
pub mod Artifacts
pub mod Lives
pub mod Capacity
use scooling_lab.Base.{
  ℕ, ◌<◌, String, Bool, true, false, ◌≡◌, List, [], Option, none, some, lookup, insert, Dict,
}
use scooling_lab.Json.{Value}
use scooling_lab.Provenance.{ProvenanceRecord}
use scooling_lab.StateMachine.{
  TrainingJobStatus, queued, running, succeeded, deleted, transition_table,
}
use scooling_lab.Contracts.Request.{TrainingJobRequest}
use scooling_lab.Store.Records.{TrainingJobRecord, ArtifactMetadata, is_deleted}
use scooling_lab.Store.State.{TrainingJobStore, active_count}
use scooling_lab.Store.Deletion.{tombstone}

-- A change of one record: a move along the transition table, a deletion, or a change of the
-- artifacts.
pub data JobStep (r : TrainingJobRecord) : TrainingJobRecord → Type 0 where
  move :
      (t : TrainingJobStatus) (now : String)
      → transition_table r.status t ≡ true
      → is_deleted t ≡ false
      → JobStep r (record r { status = t; updated_at = now })
  bury :
      (now : String) (retain : Bool)
      → r.status ≡ succeeded
      → JobStep r (tombstone r deleted now retain)
  edit :
      (a : List ArtifactMetadata) (v : Option ProvenanceRecord) (now : String)
      → JobStep r (record r { artifacts = a; provenance = v; updated_at = now })

-- A record as `create` and `retry` make it.
pub data IsNew (id : String) : TrainingJobRecord → Type 0 where
  fresh :
      (request : TrainingJobRequest) (made touched : String) (origin : Option String)
      → IsNew id (record {
        id = id;
        request = some request;
        status = queued;
        created_at = made;
        updated_at = touched;
        artifacts = [];
        provenance = none;
        deleted_at = none;
        retry_of_job_id = origin;
      })

pub data Step (s : TrainingJobStore) : TrainingJobStore → Type 0 where
  tick : (n : ℕ) → Step s (record s { readings = n })
  write : (v : Value) → Step s (record s { file = some v })
  call : (keys : List String) → Step s (record s { storage_deletes = keys })
  change :
      (k : String) {r r' : TrainingJobRecord}
      → lookup k s.jobs ≡ some r
      → JobStep r r'
      → Step s (record s { jobs = insert k r' s.jobs })
  admit :
      (k : String) {r : TrainingJobRecord}
      → lookup k s.jobs ≡ none
      → active_count s < s.queue_limit
      → IsNew k r
      → Step s (record s { jobs = insert k r s.jobs })

pub data Reach (s : TrainingJobStore) : TrainingJobStore → Type 0 where
  here : Reach s s
  next : {t u : TrainingJobStore} → Reach s t → Step t u → Reach s u

pub Reach-trans : {s t u : TrainingJobStore} → Reach s t → Reach t u → Reach s u
Reach-trans h here = h
Reach-trans h (next r st) = next (Reach-trans h r) st
