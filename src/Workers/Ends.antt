-- ===== src/Workers/Ends.antt =====
-- fake_worker.py, gpu_worker.py: every job that a worker takes up ends, in a store without a
-- persistence file.
use scooling_lab.Base.{
  String, true, false, ◌≡◌, refl, sym, subst, ◌∙◌, arith, some, lookup, if◌then◌else◌, Bool-cases,
  Option-cases, inl, inr, ◌+◌,
}
use scooling_lab.Errors.{Result, ok, err, api, internal_error}
use scooling_lab.Method.{pure, or_raise, ◌>>=◌}
use scooling_lab.Platform.{Platform}
use scooling_lab.Retention.{RetentionPolicy, utc_timestamp}
use scooling_lab.StateMachine.{running, succeeded, failed, is_terminal}
use scooling_lab.Contracts.Identifiers.{job_id_re}
use scooling_lab.Contracts.Request.{TrainingJobRequest}
use scooling_lab.Provenance.{ProvenanceRecord, validate_provenance_record}
use scooling_lab.Provenance.Laws.{validate_provenance_record-IsContentFree}
use scooling_lab.Provenance.Refusals.{validate_provenance_record-RaisesOnly}
use scooling_lab.Provenance.ArtifactIds.{require_artifact_id-prefix}
use scooling_lab.Store.Records.{TrainingJobRecord}
use scooling_lab.Store.State.{TrainingJobStore, Action, get}
use scooling_lab.Store.Queue.{update_status}
use scooling_lab.Store.Artifacts.{register_artifact}
use scooling_lab.Store.Dicts.{IsKeyed}
use scooling_lab.Store.Steps.{Reach}
use scooling_lab.Store.Steps.Keyed.{Reach-IsKeyed}
use scooling_lab.Store.Steps.Lives.{IsConsistent}
use scooling_lab.Store.Steps.Queue.{update_status-Reach}
use scooling_lab.Store.Outcomes.{
  IsInMemory, Reach-IsInMemory, bind-ok, get-ok, update_status-Started,
}
use scooling_lab.Workers.Completion.{
  complete, complete_now, complete_checked, artifact_of, start, run_with,
}
use scooling_lab.Workers.Registration.{Ends, IsUnderWay, alive, update_status-Ends, registered}

module _ ⦃p : Platform⦄ where
  complete_checked-Ends :
      (k : String) (v : ProvenanceRecord) (policy : RetentionPolicy) (s : TrainingJobStore)
      (x : Result (Unit {0}))
      → validate_provenance_record v ≡ x
      → job_id_re k ≡ true
      → IsUnderWay k s
      → Ends k (complete_checked x k v policy s)
  unfolding complete_checked artifact_of
  complete_checked-Ends k v policy s (ok u) e id_ok way =
      let content = validate_provenance_record-IsContentFree v e in
      let a = artifact_of k v policy in
      let (r, t, out, way') =
        registered k a v s id_ok (require_artifact_id-prefix v.artifact_hash content.artifact) e
          way in
      subst (Ends k)
        (sym (bind-ok (register_artifact k a v) (λ _. update_status k succeeded) s t r out))
        (update_status-Ends k succeeded t refl refl way')
  complete_checked-Ends k v policy s (err y) e id_ok way =
      rw (validate_provenance_record-RaisesOnly v y e) (update_status-Ends k failed s refl refl way)

  pub complete_now-Ends :
      (k : String) (f : String → ProvenanceRecord) (policy : RetentionPolicy) (s : TrainingJobStore)
      → job_id_re k ≡ true
      → IsUnderWay k s
      → Ends k (complete_now k f policy s)
  unfolding complete_now complete
  complete_now-Ends k f policy s id_ok (r, e, run, keyed, memory) =
      let v = f (utc_timestamp (s.clock s.readings)) in
      let t = record s { readings = s.readings + 1 } in
      complete_checked-Ends k v policy t (validate_provenance_record v) refl id_ok
        (r, e, run, keyed, memory)

  active_request :
      (r : TrainingJobRecord)
      → IsConsistent r
      → is_terminal r.status ≡ false
      → (q : TrainingJobRequest) × (r.request ≡ some q)
  unfolding IsConsistent
  active_request r h active = elim (Option-cases r.request) [
    | inr (q, e) ↦ (q, e)
    | inl e ↦ let bad : true ≡ false = ground (arith, h.0, e, alive r.status active) in cc bad
  ]

-- An outcome of a run, shown of the work on a job that the worker has started.
module _ ⦃p : Platform⦄ (k : String)
    (Q : Result TrainingJobRecord × TrainingJobStore → Type 0) where
  abbrev pub WorkMeets :
      (TrainingJobRecord → TrainingJobRequest → Action TrainingJobRecord) → Type 0
  WorkMeets work =
      (r : TrainingJobRecord) (q : TrainingJobRequest) (s : TrainingJobStore)
      → lookup k s.jobs ≡ some r
      → r.status ≡ running
      → r.request ≡ some q
      → IsUnderWay k s
      → Q (work r q s)

  started_meets :
      (work : TrainingJobRecord → TrainingJobRequest → Action TrainingJobRecord)
      (r : TrainingJobRecord) (s : TrainingJobStore)
      → WorkMeets work
      → IsKeyed s.jobs
      → IsInMemory s
      → lookup k s.jobs ≡ some r
      → is_terminal r.status ≡ false
      → IsConsistent r
      → Q (start k work s)
  unfolding start
  started_meets work r s meets keyed memory e active sound =
      let ready = λ (x : TrainingJobRecord).
        or_raise x.request (api internal_error 500) >>= λ (q : TrainingJobRequest). work x q in
      let (r', t, out, there, kept, run) = update_status-Started k r s memory e active in
      let (q, asked) = active_request r sound active in
      let reach =
        subst (λ (x : Result TrainingJobRecord × TrainingJobStore). Reach s x.1) out
          (update_status-Reach k running s keyed refl) in
      let way : IsUnderWay k t =
        (r', there, run, Reach-IsKeyed reach keyed, Reach-IsInMemory reach memory) in
      let eq : start k work s ≡ work r' q t =
        bind-ok (update_status k running) (λ _. get k >>= ready) s t r' out
        ∙ bind-ok (get k) ready t t r' (get-ok k r' t there)
        ∙ bind-ok (or_raise r'.request (api internal_error 500)) (work r') t t q
            (rw (kept ∙ asked) refl) in
      subst Q (sym eq) (meets r' q t there run (kept ∙ asked) way)

  pub run_with_meets :
      (work : TrainingJobRecord → TrainingJobRequest → Action TrainingJobRecord)
      (r : TrainingJobRecord) (s : TrainingJobStore)
      → WorkMeets work
      → ((x : Result TrainingJobRecord × TrainingJobStore) → Ends k x → Q x)
      → IsKeyed s.jobs
      → IsInMemory s
      → lookup k s.jobs ≡ some r
      → IsConsistent r
      → Q (run_with k work s)
  unfolding run_with
  run_with_meets work r s meets ends keyed memory e sound =
      let taken =
        λ (x : TrainingJobRecord). if is_terminal x.status then pure x else start k work in
      subst Q (sym (bind-ok (get k) taken s s r (get-ok k r s e)))
        (elim (Bool-cases (is_terminal r.status)) [
          | inl h ↦ rw h (ends (ok r, s) (r, refl, e, h))
          | inr h ↦ rw h (started_meets work r s meets keyed memory e h sound)
        ])
