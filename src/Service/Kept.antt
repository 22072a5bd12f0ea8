-- ===== src/Service/Kept.antt =====
-- service.py: the operations on datasets and packages leave the store of jobs as it is.
use scooling_lab.Base.{String, Bool, true, false, ◌≡◌, refl, List, Option, none, some, str_eq}
use scooling_lab.Codec.{Codec}
use scooling_lab.Errors.{Exception, Result, ok, err, api}
use scooling_lab.Json.{str}
use scooling_lab.Method.{pure, lift, ◌>>=◌}
use scooling_lab.Platform.{Platform}
use scooling_lab.Workers.Gpu.{Process}
use scooling_lab.Service.{Deployment}
use scooling_lab.Base.{ℕ, ◌∙◌, pos}
use scooling_lab.Errors.{conflict}
use scooling_lab.Json.{int, Fields, obj, field, end}
use scooling_lab.DatasetReview.{RejectionReasonCode, SyntheticDatasetShape}
use scooling_lab.PackageIngest.{Row, VaultScope, parse_package_ingest_request}
use scooling_lab.PackageIngest.Files.{write_package_files, scope_fields}
use scooling_lab.Auth.Ingest.{IngestGrant, verify_ingest_auth}
use scooling_lab.DatasetReview.{rejected, same_status}
use scooling_lab.DatasetReview.Store
use scooling_lab.DatasetReview.Store.{dataset_to_public_dict}
use scooling_lab.Method.{raise_when}
use scooling_lab.Service.{Service, Operation, on_datasets, on_packages}
use scooling_lab.DatasetReview.Store.{DatasetRecord, DatasetAction, is_approved}
use scooling_lab.Service.Routes.{
  public_dataset, register_dataset, review_with, review_dataset, ingest_accepted,
  ingest_dataset_package,
}

-- an operation that leaves the store of jobs alone
abbrev pub KeepsStore : {A : Type 0} → Operation A → Type 0
KeepsStore m = (s : Service) → (m s).1.store ≡ s.store

bind-KeepsStore :
    {A B : Type 0} (m : Operation A) (f : A → Operation B)
    → KeepsStore m
    → ((a : A) → KeepsStore (f a))
    → KeepsStore (m >>= f)
bind-KeepsStore {A = A} m f h k s = go (m s) (h s)
  where
    go :
        (x : Result A × Service)
        → x.1.store ≡ s.store
        → (◌>>=◌ (λ (_ : Service). x) f s).1.store ≡ s.store
    go (ok a, t) e = k a t ∙ e
    go (err y, t) e = e

raise_when-Keeps : (b : Bool) (e : Exception) → KeepsStore (raise_when b e)
raise_when-Keeps true e s = refl
raise_when-Keeps false e s = refl

-- a call of the dataset store
pub public-Keeps : (m : DatasetAction DatasetRecord) → KeepsStore (public_dataset m)
public-Keeps m =
    bind-KeepsStore (on_datasets m) (λ r. pure (dataset_to_public_dict r)) (λ _. refl) (λ r _. refl)

module _ ⦃p : Platform⦄ ⦃c : Codec⦄ ⦃q : Process⦄ (d : Deployment) where
  accepted-Keeps : (k : String) (x : List Row × VaultScope × ℕ) → KeepsStore (ingest_accepted d k x)
  unfolding ingest_accepted
  accepted-Keeps k (rows, scope, n) =
      bind-KeepsStore (on_packages (write_package_files d.environ d.now k rows scope n))
        (λ h. pure (
          obj (
            field "datasetId" (str k) (
              field "datasetHash" (str h) (
                field "rowCount" (int (pos n))
                  (field "vaultScope" (obj (scope_fields scope)) end))))))
        (λ _. refl) (λ h _. refl)

  pub register-Keeps :
      (r : Result (String × SyntheticDatasetShape)) → KeepsStore (register_dataset d r)
  unfolding register_dataset
  register-Keeps (ok (k, shape)) s = public-Keeps (Store.register_shape k shape) s
  register-Keeps (err e) s = refl

  review-Keeps :
      (k : String) (b : Bool) (o : Option RejectionReasonCode) → KeepsStore (review_with d k b o)
  unfolding review_with
  review-Keeps k true o s = public-Keeps (Store.approve k) s
  review-Keeps k false (some reason) s = public-Keeps (Store.reject k reason) s
  review-Keeps k false none s = refl

  pub review_dataset-Keeps :
      (k : String) (r : Result (String × Option RejectionReasonCode))
      → KeepsStore (review_dataset d k r)
  unfolding review_dataset
  review_dataset-Keeps k (ok (action, reason)) s = review-Keeps k (str_eq action "approve") reason s
  review_dataset-Keeps k (err e) s = refl

  pub ingest-Keeps :
      (k : String) (payload : Fields) (header : String)
      → KeepsStore (ingest_dataset_package d k payload header)
  unfolding ingest_dataset_package ingest_accepted
  ingest-Keeps k payload header =
      let accepted = λ (r : DatasetRecord) (_ : Unit {0}).
        lift (parse_package_ingest_request payload) >>= ingest_accepted d k in
      let found = λ (r : DatasetRecord).
        raise_when (same_status r.status rejected) (api conflict 409) >>= accepted r in
      let vouched = λ (_ : IngestGrant). on_datasets (Store.get_dataset k) >>= found in
      bind-KeepsStore (lift (verify_ingest_auth d.environ d.now header k)) vouched (λ _. refl)
        (λ _.
          bind-KeepsStore (on_datasets (Store.get_dataset k)) found (λ _. refl)
            (λ r.
              bind-KeepsStore (raise_when (same_status r.status rejected) (api conflict 409))
                (accepted r) (raise_when-Keeps (same_status r.status rejected) (api conflict 409))
                (λ _.
                  bind-KeepsStore (lift (parse_package_ingest_request payload))
                    (ingest_accepted d k) (λ _. refl) (λ x. accepted-Keeps k x))))
