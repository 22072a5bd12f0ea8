-- ===== src/Service/Routes.antt =====
-- service.py: the operations that the HTTP routes call, each as a change of the service.
use scooling_lab.Base.{ℕ, String, Bool, true, false, Option, none, some, str_eq, pos, List}
use scooling_lab.Codec.{Codec}
use scooling_lab.Errors.{Result, ok, err, api, conflict, dataset_not_approved, assertion_error}
use scooling_lab.Json.{Value, str, int, obj, Fields, end, field}
use scooling_lab.Method.{pure, raise, lift, gets, raise_when, ◌>>=◌, ◌>>◌}
use scooling_lab.Platform.{Platform}
use scooling_lab.Contracts.Request.{TrainingJobRequest, from_mapping}
use scooling_lab.DatasetReview.{
  rejected, same_status, RejectionReasonCode, SyntheticDatasetShape,
  dataset_shape_from_registration, validate_review_request,
}
use scooling_lab.DatasetReview.Store
use scooling_lab.DatasetReview.Store.{
  DatasetRecord, DatasetAction, dataset_to_public_dict, is_approved,
}
use scooling_lab.Auth.Ingest.{verify_ingest_auth}
use scooling_lab.PackageIngest.{Row, VaultScope, parse_package_ingest_request}
use scooling_lab.PackageIngest.Files.{write_package_files, scope_fields}
use scooling_lab.Store.Queue.{queue_state}
use scooling_lab.Workers.Gpu.{Process}
use scooling_lab.Service.{Service, Operation, Deployment, on_store, on_datasets, on_packages}
use scooling_lab.Service.Jobs.{
  create_job, retry_training_job, get_training_job, cancel_training_job, list_artifacts,
  get_provenance, get_artifact_download, delete_artifact, sweep_expired_artifacts,
}

-- the calls that the handler makes of the service, with what it has read of the HTTP request
pub data Request : Type 0 where
  create_call : (payload : Fields) → Request
  retry_call cancel_call get_call artifacts_call provenance_call : (job_id : String) → Request
  download_call : (job_id artifact_id authorization_header : String) → Request
  delete_call : (job_id artifact_id : String) → Request
  sweep_call queue_call : Request
  register_dataset_call : (payload : Fields) → Request
  submit_dataset_call get_dataset_call : (dataset_id : String) → Request
  review_dataset_call : (dataset_id : String) (payload : Fields) → Request
  ingest_call : (dataset_id : String) (payload : Fields) (authorization_header : String) → Request

-- `record.to_public_dict()` of what a call of the dataset store returns
abbrev pub public_dataset : DatasetAction DatasetRecord → Operation Value
public_dataset m = on_datasets m >>= λ r. pure (dataset_to_public_dict r)

module _ ⦃p : Platform⦄ ⦃c : Codec⦄ ⦃q : Process⦄ (d : Deployment) where
  -- a valid request whose dataset is approved, or is not
  unfoldable pub create_valid : Bool → TrainingJobRequest → Operation Value
  create_valid true request = on_store (create_job d request)
  create_valid false request = raise (api dataset_not_approved 403)

  unfoldable pub create_request : Result TrainingJobRequest → Operation Value
  unfolding create_valid
  create_request (ok request) s = create_valid (is_approved request.dataset_id s.datasets) request s
  create_request (err e) s = (err e, s)

  unfoldable pub create_training_job : Fields → Operation Value
  unfolding create_request
  create_training_job payload = create_request (from_mapping payload)

  unfoldable pub register_dataset : Result (String × SyntheticDatasetShape) → Operation Value
  register_dataset (ok (dataset_id, shape)) = public_dataset (Store.register_shape dataset_id shape)
  register_dataset (err e) = raise e

  -- the decision that a review asks for; a rejection without a reason fails the assertion
  unfoldable pub review_with : String → Bool → Option RejectionReasonCode → Operation Value
  review_with dataset_id true reason = public_dataset (Store.approve dataset_id)
  review_with dataset_id false (some reason) = public_dataset (Store.reject dataset_id reason)
  review_with dataset_id false none = raise assertion_error

  unfoldable pub review_dataset :
      String → Result (String × Option RejectionReasonCode) → Operation Value
  unfolding review_with
  review_dataset dataset_id (ok (action, reason)) =
      review_with dataset_id (str_eq action "approve") reason
  review_dataset dataset_id (err e) = raise e

  -- the writing of an accepted package, and the answer
  unfoldable pub ingest_accepted : String → List Row × VaultScope × ℕ → Operation Value
  ingest_accepted dataset_id (rows, scope, row_count) = do
    dataset_hash ← on_packages (write_package_files d.environ d.now dataset_id rows scope row_count)
    pure (
        obj (
          field "datasetId" (str dataset_id) (
            field "datasetHash" (str dataset_hash) (
              field "rowCount" (int (pos row_count))
                (field "vaultScope" (obj (scope_fields scope)) end)))))

  unfoldable pub ingest_dataset_package : String → Fields → String → Operation Value
  unfolding ingest_accepted
  ingest_dataset_package dataset_id payload authorization_header = do
    lift (verify_ingest_auth d.environ d.now authorization_header dataset_id)
    dataset ← on_datasets (Store.get_dataset dataset_id)
    raise_when (same_status dataset.status rejected) (api conflict 409)
    accepted ← lift (parse_package_ingest_request payload)
    ingest_accepted dataset_id accepted

  unfoldable pub handle : Request → Operation Value
  unfolding create_training_job register_dataset review_dataset ingest_dataset_package
  handle (create_call payload) = create_training_job payload
  handle (retry_call job_id) = on_store (retry_training_job d job_id)
  handle (cancel_call job_id) = on_store (cancel_training_job d job_id)
  handle (get_call job_id) = on_store (get_training_job d job_id)
  handle (artifacts_call job_id) = on_store (list_artifacts d job_id)
  handle (provenance_call job_id) = on_store (get_provenance d job_id)
  handle (download_call job_id artifact_id authorization_header) =
      on_store (get_artifact_download d job_id artifact_id authorization_header)
  handle (delete_call job_id artifact_id) = on_store (delete_artifact d job_id artifact_id)
  handle sweep_call = on_store (sweep_expired_artifacts d)
  handle queue_call = gets (λ s. queue_state s.store)
  handle (register_dataset_call payload) =
      register_dataset (dataset_shape_from_registration payload)
  handle (submit_dataset_call dataset_id) = public_dataset (Store.submit_for_review dataset_id)
  handle (get_dataset_call dataset_id) = public_dataset (Store.get_dataset dataset_id)
  handle (review_dataset_call dataset_id payload) =
      review_dataset dataset_id (validate_review_request payload)
  handle (ingest_call dataset_id payload authorization_header) =
      ingest_dataset_package dataset_id payload authorization_header

  -- one request after another; what they return or raise goes to the callers
  unfoldable pub serve : List Request → Service → Service
  unfolding handle
  serve List.[] s = s
  serve (List.◌∷◌ r rs) s = serve rs (handle r s).1
