-- ===== src/Store/Wiping.antt =====
-- store.py: what a deletion leaves, and that it may be repeated.
use scooling_lab.Base.{
  String, Bool, true, false, ◌≡◌, refl, sym, ap, ◌∙◌, arith, Option, none, some, lookup, insert,
  lookup-insert, eq_iff, [], if◌then◌else◌,
}
use scooling_lab.Errors.{Result, ok, err, ok-injective, api}
use scooling_lab.Json.{str}
use scooling_lab.Method.{pure, lift, ◌>>=◌}
use scooling_lab.Platform.{Platform}
use scooling_lab.Retention.{utc_timestamp}
use scooling_lab.StateMachine.{TrainingJobStatus, deleted, same, transition}
use scooling_lab.Store.Records.{TrainingJobRecord, ArtifactMetadata, DeletionReceipt}
use scooling_lab.Store.State.{TrainingJobStore, Action}
use scooling_lab.Store.Deletion.{bury_job, tombstone, delete_found, delete_artifact_locked}
use scooling_lab.Store.Keeps.{bind-eq-ok, finish_deletion-Keeps}
use scooling_lab.Contracts.Identifiers.{require_job_id, require_artifact_id}
use scooling_lab.Store.Dicts.{IsKeyed, lookup-id}
use scooling_lab.Store.State.{get}
use scooling_lab.Store.Deletion.{find_artifact, delete_from, delete_artifact}
use scooling_lab.Errors.{not_found}
use scooling_lab.Method.{or_raise}

-- Nothing of the content of the job is left in its record.
abbrev pub IsWiped : TrainingJobRecord → Type 0
IsWiped r = (r.status ≡ deleted) × (r.request ≡ none) × (r.artifacts ≡ []) × (r.provenance ≡ none)

module _ ⦃p : Platform⦄ where
  bury_job-jobs :
      (job : TrainingJobRecord) (a : ArtifactMetadata) (v retain : Bool) (c : TrainingJobStatus)
      (s : TrainingJobStore)
      → (bury_job job a v retain c s).1.jobs
        ≡ insert job.id (tombstone job c (utc_timestamp (s.clock s.readings)) retain) s.jobs
  unfolding bury_job
  bury_job-jobs job a v retain c s = finish_deletion-Keeps job a v _

  status_out : (c t : TrainingJobStatus) → transition c deleted ≡ ok t → t ≡ deleted
  unfolding transition
  status_out c t h = ground arith

  deleted_found :
      (k : String) (job : TrainingJobRecord) (o : Option ArtifactMetadata) (s t : TrainingJobStore)
      (out : DeletionReceipt × Option String)
      → job.id ≡ k
      → delete_found job o s ≡ (ok out, t)
      → (r : TrainingJobRecord) × (lookup k t.jobs ≡ some r) × IsWiped r
  unfolding delete_found delete_artifact_locked tombstone
  deleted_found k job none s t out id h = cc h
  deleted_found k job (some a) s t out id h =
      let (c, u, moved, rest) =
        bind-eq-ok (lift (transition job.status deleted)) (bury_job job a true false) s t out h in
      let gone =
        status_out job.status c
          (ap (λ (y : Result TrainingJobStatus × TrainingJobStore). y.0) moved) in
      let same_state : s ≡ u =
        ap (λ (y : Result TrainingJobStatus × TrainingJobStore). y.1) moved in
      let left = tombstone job c (utc_timestamp (u.clock u.readings)) false in
      let jobs : t.jobs ≡ insert job.id left u.jobs =
        sym
          (ap (λ (y : Result (DeletionReceipt × Option String) × TrainingJobStore). y.1.jobs) rest)
        ∙ bury_job-jobs job a true false c u in
      let there = lookup-insert job.id k left u.jobs in
      (left, ground (arith, eq_iff job.id k), (gone, refl, refl, refl))

  -- The outcome of a deletion that returns: the job was deleted before, or it is wiped now.
  abbrev Outcome :
      String → TrainingJobStore → (DeletionReceipt × Option String) → TrainingJobStore → Type 0
  Outcome k s out t =
      (r : TrainingJobRecord) × (lookup k t.jobs ≡ some r)
      × (r.status ≡ deleted)
      × ((out.0.already_deleted ≡ false) → IsWiped r)

  abbrev already : String → String → DeletionReceipt × Option String
  already k artifact_id = (
    record {
      job_id = k;
      artifact_id = artifact_id;
      deleted = true;
      already_deleted = true;
      verified = true;
    },
    none,
  )

  is_same_deleted : (c : TrainingJobStatus) → same c deleted ≡ true → c ≡ deleted
  is_same_deleted c h = ground arith

  from_Outcome :
      (b : Bool) (k artifact_id : String) (job : TrainingJobRecord) (o : Option ArtifactMetadata)
      (s t : TrainingJobStore) (out : DeletionReceipt × Option String)
      → same job.status deleted ≡ b
      → lookup k s.jobs ≡ some job
      → job.id ≡ k
      → (if b then pure (already k artifact_id) else delete_found job o) s ≡ (ok out, t)
      → Outcome k s out t
  from_Outcome true k artifact_id job o s t out e l id h =
      let jobs : s.jobs ≡ t.jobs =
        ap (λ (y : Result (DeletionReceipt × Option String) × TrainingJobStore). y.1.jobs) h in
      let same_out : already k artifact_id ≡ out =
        ok-injective
          (ap (λ (y : Result (DeletionReceipt × Option String) × TrainingJobStore). y.0) h) in
      let flag : true ≡ out.0.already_deleted =
        ap (λ (y : DeletionReceipt × Option String). y.0.already_deleted) same_out in
      (job, rw (← jobs) l, is_same_deleted job.status e, λ n. ground arith)
  from_Outcome false k artifact_id job o s t out e l id h =
      let (r, there, wiped) = deleted_found k job o s t out id h in (r, there, wiped.0, λ _. wiped)

  -- a call that changes nothing, in front of a method that returns
  lift-eq-ok :
      {A B : Type 0} (r : Result A) (f : A → Action B) (s t : TrainingJobStore) (b : B)
      → (lift r >>= f) s ≡ (ok b, t)
      → (a : A) × (r ≡ ok a) × (f a s ≡ (ok b, t))
  lift-eq-ok (ok a) f s t b h = (a, refl, h)
  lift-eq-ok (err e) f s t b h = cc h

  get-eq-ok :
      {B : Type 0} (k : String) (f : TrainingJobRecord → Action B) (s t : TrainingJobStore) (b : B)
      → (get k >>= f) s ≡ (ok b, t)
      → (r : TrainingJobRecord) × (lookup k s.jobs ≡ some r) × (f r s ≡ (ok b, t))
  unfolding get
  get-eq-ok {B = B} k f s t b h = go (lookup k s.jobs) refl h
    where
      go :
          (o : Option TrainingJobRecord)
          → lookup k s.jobs ≡ o
          → (or_raise o (api not_found 404) >>= f) s ≡ (ok b, t)
          → (r : TrainingJobRecord) × (lookup k s.jobs ≡ some r) × (f r s ≡ (ok b, t))
      go (some r) e h = (r, e, h)
      go none e h = cc h

  delete_artifact-Outcome :
      (k artifact_id : String) (s t : TrainingJobStore) (out : DeletionReceipt × Option String)
      → IsKeyed s.jobs
      → delete_artifact k artifact_id s ≡ (ok out, t)
      → Outcome k s out t × ((x : String) × (require_job_id (str k) ≡ ok x))
  unfolding delete_artifact delete_from
  delete_artifact-Outcome k artifact_id s t out keyed h =
      let second = λ (_ : String). get k >>= delete_from k artifact_id in
      let (x, job_ok, h1) =
        lift-eq-ok (require_job_id (str k))
          (λ _. lift (require_artifact_id (str artifact_id)) >>= second) s t out h in
      let (y, artifact_ok, h2) =
        lift-eq-ok (require_artifact_id (str artifact_id)) second s t out h1 in
      let (job, there, h3) = get-eq-ok k (delete_from k artifact_id) s t out h2 in
      (
        from_Outcome (same job.status deleted) k artifact_id job
            (find_artifact artifact_id job.artifacts) s t out refl there
            (lookup-id k job s.jobs keyed there) h3,
        (x, job_ok),
      )

  -- A deletion that returns, and does not find the job deleted before, leaves a record under
  -- the id of the job with status deleted and no request, no artifacts and no provenance, in a
  -- store whose records stand under their own ids.
  pub delete_artifact-IsWiped :
      (k artifact_id : String) (s t : TrainingJobStore) (out : DeletionReceipt × Option String)
      → IsKeyed s.jobs
      → delete_artifact k artifact_id s ≡ (ok out, t)
      → out.0.already_deleted ≡ false
      → (r : TrainingJobRecord) × (lookup k t.jobs ≡ some r) × IsWiped r
  delete_artifact-IsWiped k artifact_id s t out keyed h new =
      let ((r, there, gone, wiped), _) = delete_artifact-Outcome k artifact_id s t out keyed h in
      (r, there, wiped new)

  get_found :
      (k : String) (r : TrainingJobRecord) (s : TrainingJobStore)
      → lookup k s.jobs ≡ some r
      → get k s ≡ (ok r, s)
  unfolding get
  get_found k r s h = rw h refl

  delete_from_deleted :
      (k b : String) (r : TrainingJobRecord) (s : TrainingJobStore)
      → same r.status deleted ≡ true
      → delete_from k b r s ≡ (ok (already k b), s)
  unfolding delete_from
  delete_from_deleted k b r s h = rw h refl

  deleted_again : (c : TrainingJobStatus) → c ≡ deleted → same c deleted ≡ true
  deleted_again c h = ground arith

  -- After a deletion that returns, a second one on the same job, for any accepted artifact id,
  -- returns the receipt of a deletion that was done before, with no storage key, and changes
  -- nothing, in a store whose records stand under their own ids.
  pub delete_artifact_again :
      (k a b c : String) (s t : TrainingJobStore) (out : DeletionReceipt × Option String)
      → IsKeyed s.jobs
      → require_artifact_id (str b) ≡ ok c
      → delete_artifact k a s ≡ (ok out, t)
      → delete_artifact k b t ≡ (
        ok (
          record {
            job_id = k;
            artifact_id = b;
            deleted = true;
            already_deleted = true;
            verified = true;
          },
          none,
        ),
        t,
      )
  unfolding delete_artifact
  delete_artifact_again k a b c s t out keyed valid h =
      let ((r, there, gone, wiped), (x, job_ok)) = delete_artifact-Outcome k a s t out keyed h in
      let checked : delete_artifact k b t ≡ (get k >>= delete_from k b) t =
        rw (job_ok, valid) refl in
      checked
      ∙ ap
          (λ (y : Result TrainingJobRecord × TrainingJobStore).
            ◌>>=◌ (λ (_ : TrainingJobStore). y) (delete_from k b) t)
          (get_found k r t there)
      ∙ delete_from_deleted k b r t (deleted_again r.status gone)
