-- ===== src/Service/Approval.antt =====
-- service.py: what must hold before a job is created or a package is written.
use scooling_lab.Base.{
  pos, Bool-cases, ◌⊎◌, sym, subst, ℕ, String, Bool, true, false, ◌≡◌, refl, ap, ◌∙◌, Option, some,
  List, lookup, inl, inr, none,
}
use scooling_lab.Codec.{Codec}
use scooling_lab.Errors.{
  Exception, Result, ok, err, api, conflict, not_found, ok-injective, dataset_not_approved,
}
use scooling_lab.Json.{Value, Fields, str, obj, int, field, end}
use scooling_lab.Method.{pure, lift, raise_when, or_raise, ◌>>=◌}
use scooling_lab.Platform.{Platform}
use scooling_lab.Contracts.Identifiers.{require_training_dataset_id}
use scooling_lab.Contracts.Request.{TrainingJobRequest, from_mapping}
use scooling_lab.DatasetReview.{rejected, same_status}
use scooling_lab.DatasetReview.Store.{
  DatasetRecord, DatasetStore, get_dataset, get_locked, is_approved,
}
use scooling_lab.Auth.Ingest.{IngestGrant, verify_ingest_auth}
use scooling_lab.PackageIngest.{Row, VaultScope, parse_package_ingest_request}
use scooling_lab.PackageIngest.Files.{
  Directories, write_package_files, canonical_train_jsonl, scope_fields,
}
use scooling_lab.PackageIngest.Written.{IsWritten, write_package_files-IsWritten}
use scooling_lab.Workers.Gpu.{Process}
use scooling_lab.Service.{Service, Operation, Deployment, on_datasets, on_packages}
use scooling_lab.Service.Routes.{
  create_valid, create_request, create_training_job, ingest_accepted, ingest_dataset_package,
}

-- An operation that returned was two that returned.
bind-eq-ok :
    {A B : Type 0} (m : Operation A) (f : A → Operation B) (s t : Service) (b : B)
    → (m >>= f) s ≡ (ok b, t)
    → (a : A) × (u : Service) × (m s ≡ (ok a, u)) × (f a u ≡ (ok b, t))
bind-eq-ok {A = A} {B = B} m f s t b h = go (m s) refl h
  where
    go :
        (x : Result A × Service)
        → m s ≡ x
        → ◌>>=◌ (λ (_ : Service). x) f s ≡ (ok b, t)
        → (a : A) × (u : Service) × (m s ≡ (ok a, u)) × (f a u ≡ (ok b, t))
    go (ok a, u) e k = (a, u, e, k)
    go (err y, u) e k = let bad = ap (λ (z : Result B × Service). z.0) k in cc bad

-- the parts of an equation of outcomes
result_of : {A : Type 0} {x y : Result A × Service} → x ≡ y → x.0 ≡ y.0
result_of {A = A} h = ap (λ (z : Result A × Service). z.0) h

state_of : {A : Type 0} {x y : Result A × Service} → x ≡ y → x.1 ≡ y.1
state_of {A = A} h = ap (λ (z : Result A × Service). z.1) h

raise_when-eq-ok :
    (b : Bool) (e : Exception) (s t : Service) {u : Unit {0}}
    → raise_when b e s ≡ (ok u, t)
    → (b ≡ false) × (s ≡ t)
raise_when-eq-ok true e s t h = let bad = result_of h in cc bad
raise_when-eq-ok false e s t h = (refl, state_of h)

module _ ⦃p : Platform⦄ where
  looked_up :
      (k : String) (x : Result String) (o : Option DatasetRecord) (s : DatasetStore)
      (r : DatasetRecord) (t : DatasetStore)
      → (lift x >>= λ _ u. or_raise o (api not_found 404) u) s ≡ (ok r, t)
      → (o ≡ some r) × (s ≡ t)
  looked_up k (ok id) none s r t h =
      let bad = ap (λ (z : Result DatasetRecord × DatasetStore). z.0) h in cc bad
  looked_up k (ok id) (some a) s r t h = (
    ap some (ok-injective (ap (λ (z : Result DatasetRecord × DatasetStore). z.0) h)),
    ap (λ (z : Result DatasetRecord × DatasetStore). z.1) h,
  )
  looked_up k (err e) o s r t h =
      let bad = ap (λ (z : Result DatasetRecord × DatasetStore). z.0) h in cc bad

module _ ⦃p : Platform⦄ ⦃c : Codec⦄ ⦃q : Process⦄ (d : Deployment) where
  abbrev Admits : Fields → Service → Result TrainingJobRequest → Type 0
  Admits payload s x =
      ((request : TrainingJobRequest) × (x ≡ ok request)
        × (is_approved request.dataset_id s.datasets ≡ true))
      ⊎ ((e : Exception) × (create_request d x s ≡ (err e, s)))

  admits : (payload : Fields) (s : Service) (x : Result TrainingJobRequest) → Admits payload s x
  unfolding create_request create_valid
  admits payload s (err e) = inr (e, refl)
  admits payload s (ok request) = elim (Bool-cases (is_approved request.dataset_id s.datasets)) [
    | inl b ↦ inl (request, refl, b)
    | inr b ↦ inr (api dataset_not_approved 403, rw (b, create_request) refl)
  ]

  -- The creation of a training job is given a valid request for a dataset that is approved, or
  -- it raises and changes nothing.
  pub create_training_job-is_approved :
      (payload : Fields) (s : Service)
      → ((request : TrainingJobRequest) × (from_mapping payload ≡ ok request)
          × (is_approved request.dataset_id s.datasets ≡ true))
        ⊎ ((e : Exception) × (create_training_job d payload s ≡ (err e, s)))
  unfolding create_training_job
  create_training_job-is_approved payload s = admits payload s (from_mapping payload)

  -- The dataset is there and is not rejected.
  abbrev pub IsOpen : String → DatasetStore → Type 0
  IsOpen k s =
      (r : DatasetRecord) × (lookup k s.datasets ≡ some r) × (same_status r.status rejected ≡ false)

  dataset_found :
      (k : String) (s t : Service) (r : DatasetRecord)
      → on_datasets (get_dataset k) s ≡ (ok r, t)
      → (lookup k s.datasets.datasets ≡ some r) × (s.packages ≡ t.packages)
  unfolding get_dataset get_locked
  dataset_found k s t r h =
      let (e, _) =
        looked_up k (require_training_dataset_id (str k)) (lookup k s.datasets.datasets) s.datasets
          r (get_dataset k s.datasets).1
          (ap (λ (z : Result DatasetRecord). (z, (get_dataset k s.datasets).1)) (result_of h)) in
      (e, ap (λ (z : Service). z.packages) (state_of h))

  accepted-IsWritten :
      (k : String) (rows : List Row) (scope : VaultScope) (n : ℕ) (s t : Service) (v : Value)
      → ingest_accepted d k (rows, scope, n) s ≡ (ok v, t)
      → (text : String) × (canonical_train_jsonl rows ≡ ok text)
        × IsWritten k text s.packages t.packages
  unfolding ingest_accepted
  accepted-IsWritten k rows scope n s t v h =
      let write = write_package_files d.environ d.now k rows scope n in
      let answer = λ (x : String). pure {S = Service} (
        obj (
          field "datasetId" (str k) (
            field "datasetHash" (str x) (
              field "rowCount" (int (pos n))
                (field "vaultScope" (obj (scope_fields scope)) end))))) in
      let (hash, u, written, h1) = bind-eq-ok (on_packages write) answer s t v h in
      let now : u.packages ≡ t.packages = ap (λ (z : Service). z.packages) (state_of h1) in
      let (text, canonical, _, done) =
        write_package_files-IsWritten d.environ d.now k rows scope n s.packages (write s.packages).1
          hash (ap (λ (z : Result String). (z, (write s.packages).1)) (result_of written)) in
      let where_to : (write s.packages).1 ≡ t.packages =
        ap (λ (z : Service). z.packages) (state_of written) ∙ now in
      (text, canonical, subst (IsWritten k text s.packages) where_to done)

  -- Where the ingest of a package returns, the token was granted for the dataset, the dataset
  -- is there and not rejected, the payload was accepted, and the directory of the dataset
  -- holds the lines of the accepted rows, while the other directories are as before, but for
  -- the temporary one, which is gone.
  pub ingest_dataset_package-IsWritten :
      (k : String) (payload : Fields) (header : String) (s t : Service) (v : Value)
      → ingest_dataset_package d k payload header s ≡ (ok v, t)
      → (grant : IngestGrant) × (rows : List Row) × (scope : VaultScope) × (row_count : ℕ)
        × (text : String) × (verify_ingest_auth d.environ d.now header k ≡ ok grant)
        × IsOpen k s.datasets
        × (parse_package_ingest_request payload ≡ ok (rows, scope, row_count))
        × (canonical_train_jsonl rows ≡ ok text)
        × IsWritten k text s.packages t.packages
  unfolding ingest_dataset_package
  ingest_dataset_package-IsWritten k payload header s t v h =
      let accepted = λ (r : DatasetRecord) (_ : Unit {0}).
        lift (parse_package_ingest_request payload) >>= ingest_accepted d k in
      let found = λ (r : DatasetRecord).
        raise_when (same_status r.status rejected) (api conflict 409) >>= accepted r in
      let vouched = λ (_ : IngestGrant). on_datasets (get_dataset k) >>= found in
      let (grant, u, granted, h1) =
        bind-eq-ok (lift (verify_ingest_auth d.environ d.now header k)) vouched s t v h in
      let (r, w, there, h2) = bind-eq-ok (on_datasets (get_dataset k)) found u t v h1 in
      let (_, x, alive, h3) =
        bind-eq-ok (raise_when (same_status r.status rejected) (api conflict 409)) (accepted r) w t
          v h2 in
      let (parsed, y, is_parsed, h4) =
        bind-eq-ok (lift (parse_package_ingest_request payload)) (ingest_accepted d k) x t v h3 in
      let (here, kept) = dataset_found k u w r there in
      let (not_rejected, same) =
        raise_when-eq-ok (same_status r.status rejected) (api conflict 409) w x alive in
      let (text, canonical, done) = accepted-IsWritten k parsed.0 parsed.1 parsed.2 y t v h4 in
      let packages : y.packages ≡ s.packages = sym (
        ap (λ (z : Service). z.packages) (state_of granted)
        ∙ kept
        ∙ ap (λ (z : Service). z.packages) same
        ∙ ap (λ (z : Service). z.packages) (state_of is_parsed)) in
      (
        grant,
        parsed.0,
        parsed.1,
        parsed.2,
        text,
        result_of granted,
        (
          r,
          subst (λ (z : Service). lookup k z.datasets.datasets ≡ some r) (sym (state_of granted))
              here,
          not_rejected,
        ),
        result_of is_parsed,
        canonical,
        subst (λ (z : Directories). IsWritten k text z t.packages) packages done,
      )
