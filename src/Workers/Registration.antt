-- ===== src/Workers/Registration.antt =====
-- fake_worker.py, gpu_worker.py: the calls of the store that a worker makes for a job under way
-- return, in a store without a persistence file.
use scooling_lab.Base.{
  String, Bool, true, false, not, ◌≡◌, refl, subst, ◌∙◌, arith, some, lookup, str_eq, if◌then◌else◌,
  all, ◌∷◌, [], ◌++◌,
}
use scooling_lab.Errors.{Result, ok}
use scooling_lab.Json.{str}
use scooling_lab.Method.{pure, lift, ◌>>=◌}
use scooling_lab.Platform.{Platform}
use scooling_lab.Retention.{utc_timestamp}
use scooling_lab.StateMachine.{TrainingJobStatus, running, transition, is_terminal}
use scooling_lab.StateMachine.Laws.{can_become}
use scooling_lab.Contracts.Identifiers.{require_job_id, require_artifact_id, job_id_re}
use scooling_lab.Provenance.{ProvenanceRecord, validate_provenance_record}
use scooling_lab.Store.Records.{TrainingJobRecord, ArtifactMetadata, is_deleted}
use scooling_lab.Store.State.{TrainingJobStore, get}
use scooling_lab.Store.Queue.{update_status}
use scooling_lab.Store.Artifacts.{register_artifact, append_artifact}
use scooling_lab.Store.Dicts.{IsKeyed, lookup-id}
use scooling_lab.Store.Steps.{Reach}
use scooling_lab.Store.Steps.Artifacts.{register_artifact-Reach, edited}
use scooling_lab.Store.Steps.Keyed.{Reach-IsKeyed}
use scooling_lab.Store.Outcomes.{
  IsInMemory, Reach-IsInMemory, bind-ok, lift-ok, get-ok, save-get-ok, lookup-insert_same,
  update_status-EndsAt,
}

-- The call returns the record of the job, at a status that is terminal.
abbrev pub Ends : String → Result TrainingJobRecord × TrainingJobStore → Type 0
Ends k x =
    (r : TrainingJobRecord) × (x.0 ≡ ok r)
    × (lookup k x.1.jobs ≡ some r)
    × (is_terminal r.status ≡ true)

-- A store as the worker finds it with the job under way.
abbrev pub IsUnderWay : String → TrainingJobStore → Type 0
IsUnderWay k s =
    (r : TrainingJobRecord) × (lookup k s.jobs ≡ some r)
    × (r.status ≡ running)
    × IsKeyed s.jobs
    × IsInMemory s

end_of :
    (t c : TrainingJobStatus) → is_terminal t ≡ true → can_become t c ≡ true → is_terminal c ≡ true
end_of t c h k = ground arith

leaves_running :
    (t c : TrainingJobStatus)
    → c ≡ running
    → is_terminal t ≡ true
    → is_deleted t ≡ false
    → transition c t ≡ ok t
unfolding transition
leaves_running t c e h alive = ground arith

pub alive : (c : TrainingJobStatus) → is_terminal c ≡ false → is_deleted c ≡ false
alive c h = ground arith

job_id_ok : (k : String) → job_id_re k ≡ true → require_job_id (str k) ≡ ok k
unfolding require_job_id
job_id_ok k h = rw h refl

module _ ⦃p : Platform⦄ where
  pub update_status-Ends :
      (k : String) (t : TrainingJobStatus) (s : TrainingJobStore)
      → is_terminal t ≡ true
      → is_deleted t ≡ false
      → IsUnderWay k s
      → Ends k (update_status k t s)
  update_status-Ends k t s last alive (r, e, run, keyed, memory) =
      let (r', out, there, follows) =
        update_status-EndsAt k r t s keyed memory (lookup-id k r s.jobs keyed e) e
          (leaves_running t r.status run last alive) in
      (r', out, there, end_of t r'.status last follows)

  -- The registration of an artifact of the right form returns, and the job is under way still.
  found_artifact :
      (k : String) (a : ArtifactMetadata) (v : ProvenanceRecord) (r : TrainingJobRecord)
      (s : TrainingJobStore) (b : Bool)
      → lookup k s.jobs ≡ some r
      → r.status ≡ running
      → IsInMemory s
      → (r' : TrainingJobRecord) × (t : TrainingJobStore) × ((if b
              then append_artifact k r a v
              else pure r)
            s
          ≡ (ok r', t))
        × (lookup k t.jobs ≡ some r')
        × (r'.status ≡ running)
  unfolding append_artifact
  found_artifact k a v r s false e run memory = (r, s, refl, e, run)
  found_artifact k a v r s true e run memory =
      let u = edited k r (r.artifacts ++ a ∷ []) (some v) s in
      let now = record r {
        artifacts = r.artifacts ++ a ∷ [];
        provenance = some v;
        updated_at = utc_timestamp (s.clock s.readings);
      } in
      (
        now,
        u,
        save-get-ok k now u memory (lookup-insert_same k now s.jobs),
        lookup-insert_same k now s.jobs,
        run,
      )

  pub registered :
      (k : String) (a : ArtifactMetadata) (v : ProvenanceRecord) (s : TrainingJobStore)
      → job_id_re k ≡ true
      → require_artifact_id (str a.id) ≡ ok a.id
      → validate_provenance_record v ≡ ok tt
      → IsUnderWay k s
      → (r' : TrainingJobRecord) × (t : TrainingJobStore) × (register_artifact k a v s ≡ (ok r', t))
        × IsUnderWay k t
  unfolding register_artifact
  registered k a v s id_ok a_ok v_ok (r, e, run, keyed, memory) =
      let found = λ (x : TrainingJobRecord).
        if all (λ b. not (str_eq b.id a.id)) x.artifacts then append_artifact k x a v else pure x in
      let third = λ (_ : Unit {0}). get k >>= found in
      let second = λ (_ : String). lift (validate_provenance_record v) >>= third in
      let first = λ (_ : String). lift (require_artifact_id (str a.id)) >>= second in
      let new = all (λ b. not (str_eq b.id a.id)) r.artifacts in
      let (r', t, out, there, run') = found_artifact k a v r s new e run memory in
      let eq : register_artifact k a v s ≡ (ok r', t) =
        lift-ok (require_job_id (str k)) first s k (job_id_ok k id_ok)
        ∙ lift-ok (require_artifact_id (str a.id)) second s a.id a_ok
        ∙ lift-ok (validate_provenance_record v) third s tt v_ok
        ∙ bind-ok (get k) found s s r (get-ok k r s e)
        ∙ out in
      let reach =
        subst (λ (x : Result TrainingJobRecord × TrainingJobStore). Reach s x.1) eq
          (register_artifact-Reach k a v s) in
      (r', t, eq, (r', there, run', Reach-IsKeyed reach keyed, Reach-IsInMemory reach memory))
