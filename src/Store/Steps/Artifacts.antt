-- ===== src/Store/Steps/Artifacts.antt =====
-- store.py: the operations on artifacts are steps.
use scooling_lab.Base.{
  ◌+◌, String, not, ◌≡◌, Option, some, lookup, insert, if◌then◌else◌, all, List, [], ◌∷◌, ◌++◌,
  str_eq,
}
use scooling_lab.Errors.{api, not_found}
use scooling_lab.Json.{str}
use scooling_lab.Method.{pure, lift, or_raise, ◌>>=◌, ◌>>◌}
use scooling_lab.Platform.{Platform}
use scooling_lab.Retention.{utc_timestamp}
use scooling_lab.Contracts.Identifiers.{require_job_id, require_artifact_id}
use scooling_lab.Provenance.{ProvenanceRecord, validate_provenance_record}
use scooling_lab.Store.Records.{ArtifactMetadata, TrainingJobRecord}
use scooling_lab.Store.State.{TrainingJobStore, get, save}
use scooling_lab.Store.Deletion.{find_artifact}
use scooling_lab.Store.Artifacts.{
  append_artifact, register_artifact, attach_key, write_key, set_artifact_storage_key,
}
use scooling_lab.Store.Steps.{Reach, here, next, Reach-trans, edit, tick, change}
use scooling_lab.Store.Steps.Rules.{
  bind-Reach, lift-Reach, or_raise-Reach, if-Reach, get-Reach, get-Reach_last, save-Reach,
}

module _ ⦃p : Platform⦄ where
  abbrev pub edited :
      String
      → TrainingJobRecord
      → List ArtifactMetadata
      → Option ProvenanceRecord
      → TrainingJobStore
      → TrainingJobStore
  edited k r a v s = record s {
    readings = s.readings + 1;
    jobs =
        insert k
          (record r {
            artifacts = a;
            provenance = v;
            updated_at = utc_timestamp (s.clock s.readings);
          })
          s.jobs;
  }

  -- A change of the artifacts of a job that is there, and the save and the lookup that follow it.
  edited-Reach :
      (k : String) (r : TrainingJobRecord) (a : List ArtifactMetadata) (v : Option ProvenanceRecord)
      (s : TrainingJobStore)
      → lookup k s.jobs ≡ some r
      → Reach s ((save >> get k) (edited k r a v s)).1
  edited-Reach k r a v s e =
      let u = edited k r a v s in
      Reach-trans (next (next here (tick (s.readings + 1))) (change k e (edit a v _)))
        (bind-Reach u save (λ _. get k) (save-Reach u) (λ _ w _. get-Reach_last k w))

  append_artifact-Reach :
      (k : String) (r : TrainingJobRecord) (a : ArtifactMetadata) (v : ProvenanceRecord)
      (s : TrainingJobStore)
      → lookup k s.jobs ≡ some r
      → Reach s (append_artifact k r a v s).1
  unfolding append_artifact
  append_artifact-Reach k r a v s e = edited-Reach k r (r.artifacts ++ a ∷ []) (some v) s e

  -- The registration of an artifact is a sequence of steps.
  pub register_artifact-Reach :
      (k : String) (a : ArtifactMetadata) (v : ProvenanceRecord) (s : TrainingJobStore)
      → Reach s (register_artifact k a v s).1
  unfolding register_artifact
  register_artifact-Reach k a v s =
      let found = λ (r : TrainingJobRecord).
        if all (λ b. not (str_eq b.id a.id)) r.artifacts then append_artifact k r a v else pure r in
      let third = λ (_ : Unit {0}). get k >>= found in
      let second = λ (_ : String). lift (validate_provenance_record v) >>= third in
      lift-Reach s (require_job_id (str k)) (λ _. lift (require_artifact_id (str a.id)) >>= second)
        (λ _ _. lift-Reach s (require_artifact_id (str a.id)) second (λ _ _.
          lift-Reach s (validate_provenance_record v) third (λ _ _. get-Reach s k found (λ r e.
            if-Reach s (all (λ b. not (str_eq b.id a.id)) r.artifacts) (append_artifact k r a v)
              (pure r) (λ _. append_artifact-Reach k r a v s e) (λ _. here)))))

  write_key-Reach :
      (k artifact_id key : String) (r : TrainingJobRecord) (s : TrainingJobStore)
      → lookup k s.jobs ≡ some r
      → Reach s (write_key k artifact_id key r s).1
  unfolding write_key
  write_key-Reach k artifact_id key r s e =
      edited-Reach k r (attach_key artifact_id key r.artifacts) r.provenance s e

  -- Attaching a storage key is a sequence of steps.
  pub set_artifact_storage_key-Reach :
      (k artifact_id key : String) (s : TrainingJobStore)
      → Reach s (set_artifact_storage_key k artifact_id key s).1
  unfolding set_artifact_storage_key
  set_artifact_storage_key-Reach k artifact_id key s =
      let found = λ (r : TrainingJobRecord).
        or_raise (find_artifact artifact_id r.artifacts) (api not_found 404)
        >>= λ (_ : ArtifactMetadata). write_key k artifact_id key r in
      let second = λ (_ : String). get k >>= found in
      lift-Reach s (require_job_id (str k))
        (λ _. lift (require_artifact_id (str artifact_id)) >>= second)
        (λ _ _. lift-Reach s (require_artifact_id (str artifact_id)) second (λ _ _.
          get-Reach s k found (λ r e.
            or_raise-Reach s (find_artifact artifact_id r.artifacts) (api not_found 404)
              (λ _. write_key k artifact_id key r)
              (λ _ _. write_key-Reach k artifact_id key r s e))))
