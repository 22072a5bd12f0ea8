-- ===== src/Examples/Jobs.antt =====
-- The store at concrete inputs: a queue of two, one running job at a time, no file.
use scooling_lab.Base.{
  ◌*◌, ◌≤◌, String, true, false, List, [], ◌∷◌, Option, none, some, ◌≡◌, refl, arith, lookup,
  insert, Dict,
}
use scooling_lab.Errors.{ok}
use scooling_lab.Json.{str}
use scooling_lab.StateMachine.{TrainingJobStatus, queued, running, succeeded, failed, deleted}
use scooling_lab.Contracts.Identifiers
use scooling_lab.Contracts.Identifiers.{require_job_id, require_artifact_id}
use scooling_lab.Contracts.Request
use scooling_lab.Contracts.Request.{TrainingJobRequest, stable_job_id}
use scooling_lab.Store.Records.{TrainingJobRecord, ArtifactMetadata, DeletionReceipt}
use scooling_lab.Json
use scooling_lab.Provenance
use scooling_lab.Retention
use scooling_lab.StateMachine
use scooling_lab.Store.Records
use scooling_lab.Store.Absence
use scooling_lab.Store.State
use scooling_lab.Store.State.{TrainingJobStore, active_count, running_count}
use scooling_lab.Store.Queue
use scooling_lab.Store.Queue.{create, promote_queued}
use scooling_lab.Store.Deletion
use scooling_lab.Store.Deletion.{delete_artifact}
use scooling_lab.Store.Calls
use scooling_lab.Store.Calls.{run}
use scooling_lab.Store.Calls.Laws.{
  run-Reach, run-IsKeyed, run-active_count, run-IsLater, run-IsSound,
}
use scooling_lab.Store.Steps.{Reach}
use scooling_lab.Store.Dicts.{IsKeyed}
use scooling_lab.Store.Steps.Lives.{Follows, IsSound}
use scooling_lab.Store.Promotion.{can_promote, promote_queued_done, promote_queued-running_count}
use scooling_lab.Base.{ℕ, zero, suc, ◌+◌, ◌≤◌, ap, str_eq}
use scooling_lab.Store.Queue.{retry_id, next_retry_id}
use scooling_lab.Store.Retries.{next_retry_id_found}
use scooling_lab.Store.Creation.{create_again}
use scooling_lab.Store.Wiping.{IsWiped, delete_artifact-IsWiped, delete_artifact_again}
use scooling_lab.Examples.Demo.{demo, demo_request, hour}

abbrev store_of : Dict TrainingJobRecord → TrainingJobStore
store_of jobs = record {
  jobs = jobs;
  has_persistence_path = false;
  file = none;
  queue_limit = 2;
  max_concurrent_running = 1;
  on_storage_delete = none;
  storage_deletes = [];
  clock = λ n. n * 1_000_000;
  readings = 0;
}

abbrev id_a : String
id_a = "job_0123456789abcdef01234567"

abbrev artifact : ArtifactMetadata
artifact = record {
  id = "artifact_0123456789abcdef01234567";
  job_id = id_a;
  dataset_hash = "aa";
  artifact_hash = "bb";
  created_at = "Z";
  provenance_id = "prov";
  retention_policy = hour;
  storage_key = some "key";
}

abbrev job_at : TrainingJobStatus → List ArtifactMetadata → TrainingJobRecord
job_at status artifacts = record {
  id = id_a;
  request = some demo_request;
  status = status;
  created_at = "Z";
  updated_at = "Z";
  artifacts = artifacts;
  provenance = none;
  deleted_at = none;
  retry_of_job_id = none;
}

abbrev waiting : TrainingJobStore
waiting = store_of ((id_a, job_at queued []) ∷ [])

abbrev finished : TrainingJobStore
finished = store_of ((id_a, job_at succeeded (artifact ∷ [])) ∷ [])

abbrev calls : List Calls.Call
calls =
    Calls.create demo_request
    ∷ Calls.update_status id_a running
    ∷ Calls.retry id_a
    ∷ Calls.cancel id_a
    ∷ Calls.sweep_expired none
    ∷ []

empty_active : active_count (store_of []) ≤ 2
unfolding active_count
empty_active = omega arith

run-Reach_example : Reach (store_of []) (run ⦃p = demo⦄ calls (store_of []))
run-Reach_example = run-Reach ⦃p = demo⦄ calls (store_of []) tt refl

run-IsKeyed_example : IsKeyed (run ⦃p = demo⦄ calls (store_of [])).jobs
run-IsKeyed_example = run-IsKeyed ⦃p = demo⦄ calls (store_of []) tt refl

run-active_count_example : active_count (run ⦃p = demo⦄ calls (store_of [])) ≤ 2
run-active_count_example = run-active_count ⦃p = demo⦄ calls (store_of []) tt refl empty_active

there : lookup id_a waiting.jobs ≡ some (job_at queued [])
unfolding lookup
there = refl

waiting-IsKeyed : IsKeyed waiting.jobs
unfolding lookup
waiting-IsKeyed = (refl, refl, tt)

run-IsLater_example : Follows id_a (job_at queued []) (run ⦃p = demo⦄ calls waiting)
run-IsLater_example =
    run-IsLater ⦃p = demo⦄ calls waiting id_a (job_at queued []) waiting-IsKeyed refl there

empty-IsSound : IsSound (store_of [])
unfolding IsSound lookup
empty-IsSound k r h = cc h

run-IsSound_example : IsSound (run ⦃p = demo⦄ calls (store_of []))
run-IsSound_example = run-IsSound ⦃p = demo⦄ calls (store_of []) tt refl empty-IsSound

promote_queued_done_example :
    ((promote_queued ⦃p = demo⦄ waiting).0 ≡ ok tt)
    × (can_promote (promote_queued ⦃p = demo⦄ waiting).1 ≡ false)
promote_queued_done_example = promote_queued_done ⦃p = demo⦄ waiting waiting-IsKeyed

idle : running_count waiting ≤ 1
unfolding running_count
idle = omega arith

promote_queued-running_count_example : running_count (promote_queued ⦃p = demo⦄ waiting).1 ≤ 1
promote_queued-running_count_example =
    promote_queued-running_count ⦃p = demo⦄ waiting waiting-IsKeyed idle

finished-IsKeyed : IsKeyed finished.jobs
unfolding lookup
finished-IsKeyed = (refl, refl, tt)

abbrev first_receipt : DeletionReceipt × Option String
first_receipt = (
  record {
    job_id = id_a;
    artifact_id = artifact.id;
    deleted = true;
    already_deleted = false;
    verified = true;
  },
  some "key",
)

abbrev after : TrainingJobStore
after = (delete_artifact ⦃p = demo⦄ id_a artifact.id finished).1

deleted_once : delete_artifact ⦃p = demo⦄ id_a artifact.id finished ≡ (ok first_receipt, after)
unfolding demo delete_artifact require_job_id require_artifact_id State.get lookup
    Deletion.delete_from Deletion.delete_found Deletion.find_artifact
    Deletion.delete_artifact_locked StateMachine.transition Deletion.bury_job
    Deletion.finish_deletion State.save Deletion.notify_storage Deletion.issue_receipt
    Absence.verify_hash_absence Absence.hashes_for_artifact insert Identifiers.artifact_id_re
    Identifiers.is_hex_char Identifiers.job_id_re Identifiers.prefix_re Identifiers.repeat_re
    Identifiers.search_re Request.contains_term Request.request_to_persisted
    Request.request_to_public_dict Json.insert_field Json.sorted_fields Provenance.to_dict
    Retention.class_value Retention.expires_at Retention.parse_utc_timestamp
    Retention.to_public_dict Retention.utc_timestamp StateMachine.status_value
    StateMachine.transition_table Absence.store_output Deletion.call_storage Deletion.tombstone
    Records.artifact_to_dict Records.artifact_to_public_dict Records.items_of
    Records.job_to_public_dict Records.to_persisted_dict Records.tombstone_persisted
    Records.tombstone_public State.insert_by_id State.payload_of State.sorted_by_id State.write_file
deleted_once = refl

delete_artifact-IsWiped_example :
    (r : TrainingJobRecord) × (lookup id_a after.jobs ≡ some r) × IsWiped r
delete_artifact-IsWiped_example =
    delete_artifact-IsWiped ⦃p = demo⦄ id_a artifact.id finished after first_receipt
      finished-IsKeyed deleted_once refl

other_artifact :
    require_artifact_id (str "artifact_fedcba9876543210fedcba98")
    ≡ ok "artifact_fedcba9876543210fedcba98"
unfolding require_artifact_id Identifiers.artifact_id_re Identifiers.is_hex_char
    Identifiers.prefix_re Identifiers.repeat_re
other_artifact = refl

delete_artifact_again_example :
    delete_artifact ⦃p = demo⦄ id_a "artifact_fedcba9876543210fedcba98" after ≡ (
      ok (
        record {
          job_id = id_a;
          artifact_id = "artifact_fedcba9876543210fedcba98";
          deleted = true;
          already_deleted = true;
          verified = true;
        },
        none,
      ),
      after,
    )
delete_artifact_again_example =
    delete_artifact_again ⦃p = demo⦄ id_a artifact.id "artifact_fedcba9876543210fedcba98"
      "artifact_fedcba9876543210fedcba98" finished after first_receipt finished-IsKeyed
      other_artifact deleted_once

abbrev created : TrainingJobStore
created = (create ⦃p = demo⦄ demo_request (store_of [])).1

abbrev new_job : TrainingJobRecord
new_job = record (job_at queued []) { updated_at = "1Z" }

created_once : create ⦃p = demo⦄ demo_request (store_of []) ≡ (ok new_job, created)
unfolding demo create Queue.create_at Queue.admit Queue.new_record stable_job_id Request.fingerprint
    lookup insert active_count State.save Retention.utc_timestamp
created_once = refl

create_again_example : create ⦃p = demo⦄ demo_request created ≡ (ok new_job, created)
create_again_example =
    create_again ⦃p = demo⦄ demo_request (store_of []) created new_job created_once

-- The first attempt has the id of the job itself, the second is free.
retries_apart :
    (m n : ℕ)
    → m ≤ 1
    → n ≤ 1
    → retry_id ⦃p = demo⦄ id_a (1 + m) ≡ retry_id ⦃p = demo⦄ id_a (1 + n)
    → m ≡ n
unfolding retry_id demo
retries_apart zero zero hm hn e = refl
retries_apart zero (suc zero) hm hn e = let bad : true ≡ false = ap (λ s. str_eq s id_a) e in cc bad
retries_apart (suc zero) zero hm hn e = let bad : false ≡ true = ap (λ s. str_eq s id_a) e in cc bad
retries_apart (suc zero) (suc zero) hm hn e = refl
retries_apart (suc (suc m)) n hm hn e = absurd (omega (arith, hm))
retries_apart m (suc (suc n)) hm hn e = absurd (omega (arith, hn))

next_retry_id_found_example :
    (k : String) × (n : ℕ) × (next_retry_id ⦃p = demo⦄ 2 1 id_a waiting ≡ some k)
    × (lookup k waiting.jobs ≡ none)
    × (k ≡ retry_id ⦃p = demo⦄ id_a (1 + n))
    × (n ≤ 1)
next_retry_id_found_example = next_retry_id_found ⦃p = demo⦄ id_a waiting retries_apart

second_attempt : next_retry_id ⦃p = demo⦄ 2 1 id_a waiting ≡ some "job_fedcba9876543210fedcba98"
unfolding next_retry_id lookup retry_id demo
second_attempt = refl
