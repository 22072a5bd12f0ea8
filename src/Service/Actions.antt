-- ===== src/Service/Actions.antt =====
-- service.py: the operations on artifacts, downloads and retention are sequences of steps of the store.
use scooling_lab.Base.{String, List, Option, none, some, if◌then◌else◌}
use scooling_lab.Codec.{Codec}
use scooling_lab.Errors.{ok, api, not_found}
use scooling_lab.Json.{str}
use scooling_lab.Method.{lift, or_raise, ◌>>=◌}
use scooling_lab.Platform.{Platform}
use scooling_lab.StateMachine.{same}
use scooling_lab.Contracts.Identifiers.{require_job_id, require_artifact_id}
use scooling_lab.Store.Records.{
  TrainingJobRecord, ArtifactMetadata, DeletionReceipt, deletion_receipt_to_dict,
}
use scooling_lab.Store.State.{TrainingJobStore, get}
use scooling_lab.Store.Artifacts
use scooling_lab.Store.Artifacts.{set_artifact_storage_key}
use scooling_lab.Store.Deletion
use scooling_lab.Store.Deletion.{evaluate_expiry}
use scooling_lab.Store.Sweep
use scooling_lab.Store.Steps.{here}
use scooling_lab.Store.Steps.Deletion.{delete_artifact-Reach}
use scooling_lab.Store.Steps.Sweep.{sweep_expired-Reach}
use scooling_lab.Workers.Gpu.{Process}
use scooling_lab.Workers.Steps.{Treads, bind-Treads}
use scooling_lab.Service.{ArtifactStorage, Deployment}
use scooling_lab.Service.Jobs.{
  list_artifacts, get_provenance, get_artifact_download, download_found, delete_artifact,
  sweep_expired_artifacts, storage_or_raise, ids_of,
}
use scooling_lab.Base.{pos, length}
use scooling_lab.StateMachine.{deleted}
use scooling_lab.Store.Records.{items_of, artifact_to_public_dict}
use scooling_lab.Json.{nil, int, Fields, Items, obj, arr, field, end}
use scooling_lab.Provenance
use scooling_lab.Provenance.{ProvenanceRecord}
use scooling_lab.Auth.Download.{DownloadGrant, verify_download_auth}
use scooling_lab.Store.Deletion.{find_artifact}
use scooling_lab.Service.Steps.{or_raise-Treads, get-Treads, checked, expiry-Treads}

module _ ⦃p : Platform⦄ ⦃c : Codec⦄ ⦃q : Process⦄ (d : Deployment) where
  -- the reads of one job
  list-Treads : (k : String) → Treads (Artifacts.list_artifacts k)
  unfolding Artifacts.list_artifacts
  list-Treads k =
      let shown = λ (r : TrainingJobRecord).
        lift {S = TrainingJobStore} (
          if same r.status deleted then ok nil else items_of artifact_to_public_dict r.artifacts) in
      checked (require_job_id (str k)) (λ _. get k >>= shown)
        (λ _. bind-Treads (get k) shown (get-Treads k) (λ _ _ _. here))

  provenance-Treads : (k : String) → Treads (Artifacts.get_provenance k)
  unfolding Artifacts.get_provenance
  provenance-Treads k =
      let held = λ (r : TrainingJobRecord).
        or_raise {S = TrainingJobStore} r.provenance (api not_found 404) in
      checked (require_job_id (str k)) (λ _. get k >>= held)
        (λ _.
          bind-Treads (get k) held (get-Treads k)
            (λ r. or_raise-Treads r.provenance (api not_found 404)))

  pub list_artifacts-Treads : (k : String) → Treads (list_artifacts d k)
  unfolding list_artifacts
  list_artifacts-Treads k =
      let shown = λ (items : Items).
        lift {S = TrainingJobStore}
          (ok (obj (field "jobId" (str k) (field "artifacts" (arr items) end)))) in
      checked (require_job_id (str k))
        (λ _. evaluate_expiry k none >>= λ _. Artifacts.list_artifacts k >>= shown)
        (λ _.
          bind-Treads (evaluate_expiry k none) (λ _. Artifacts.list_artifacts k >>= shown)
            (expiry-Treads d k)
            (λ _. bind-Treads (Artifacts.list_artifacts k) shown (list-Treads k) (λ _ _ _. here)))

  pub get_provenance-Treads : (k : String) → Treads (get_provenance d k)
  unfolding get_provenance
  get_provenance-Treads k =
      let shown =
        λ (v : ProvenanceRecord). lift {S = TrainingJobStore} (ok (obj (Provenance.to_dict v))) in
      checked (require_job_id (str k))
        (λ _. evaluate_expiry k none >>= λ _. Artifacts.get_provenance k >>= shown)
        (λ _.
          bind-Treads (evaluate_expiry k none) (λ _. Artifacts.get_provenance k >>= shown)
            (expiry-Treads d k)
            (λ _.
              bind-Treads (Artifacts.get_provenance k) shown (provenance-Treads k) (λ _ _ _. here)))

  download_found-Treads :
      (storage : ArtifactStorage) (k a : String) (o : Option ArtifactMetadata)
      → Treads (download_found d storage k a o)
  unfolding download_found
  download_found-Treads storage k a none s keyed = here
  download_found-Treads storage k a (some artifact) s keyed =
      let shown = λ (fs : Fields).
        lift {S = TrainingJobStore}
          (ok (obj (field "artifactId" (str a) (field "jobId" (str k) fs)))) in
      bind-Treads (or_raise artifact.storage_key (api not_found 404))
        (λ key. lift (storage.issue_download k a key) >>= shown)
        (or_raise-Treads artifact.storage_key (api not_found 404))
        (λ key. checked (storage.issue_download k a key) shown (λ _ _ _. here)) s keyed

  pub get_artifact_download-Treads :
      (k a header : String) → Treads (get_artifact_download d k a header)
  unfolding get_artifact_download
  get_artifact_download-Treads k a header =
      let found = λ (storage : ArtifactStorage) (r : TrainingJobRecord).
        download_found d storage k a (find_artifact a r.artifacts) in
      let fourth = λ (storage : ArtifactStorage).
        evaluate_expiry k none >>= λ (_ : TrainingJobRecord). get k >>= found storage in
      let third = λ (_ : DownloadGrant). storage_or_raise d.artifact_storage >>= fourth in
      let second =
        λ (_ : String). lift (verify_download_auth d.environ d.now header k a) >>= third in
      checked (require_job_id (str k)) (λ _. lift (require_artifact_id (str a)) >>= second)
        (λ _. checked (require_artifact_id (str a)) second (λ _.
          checked (verify_download_auth d.environ d.now header k a) third (λ _.
            bind-Treads (storage_or_raise d.artifact_storage) fourth
              (or_raise-Treads d.artifact_storage (api not_found 404))
              (λ storage.
                bind-Treads (evaluate_expiry k none) (λ _. get k >>= found storage)
                  (expiry-Treads d k)
                  (λ _.
                    bind-Treads (get k) (found storage) (get-Treads k)
                      (λ r. download_found-Treads storage k a (find_artifact a r.artifacts)))))))

  pub delete_artifact-Treads : (k a : String) → Treads (delete_artifact d k a)
  unfolding delete_artifact
  delete_artifact-Treads k a =
      let shown = λ (x : DeletionReceipt × Option String).
        lift {S = TrainingJobStore} (ok (deletion_receipt_to_dict x.0)) in
      checked (require_job_id (str k))
        (λ _. lift (require_artifact_id (str a)) >>= λ _. Deletion.delete_artifact k a >>= shown)
        (λ _.
          checked (require_artifact_id (str a)) (λ _. Deletion.delete_artifact k a >>= shown)
            (λ _.
              bind-Treads (Deletion.delete_artifact k a) shown
                (λ s keyed. delete_artifact-Reach k a s keyed) (λ _ _ _. here)))

  pub sweep-Treads : Treads (sweep_expired_artifacts d)
  unfolding sweep_expired_artifacts
  sweep-Treads =
      let shown = λ (x : List String × List String). lift {S = TrainingJobStore} (
        ok (
          obj (
            field "deletedJobIds" (arr (ids_of d x.0))
              (field "deletedCount" (int (pos (length x.0))) end)))) in
      bind-Treads (Sweep.sweep_expired none) shown (λ s keyed. sweep_expired-Reach none s keyed)
        (λ _ _ _. here)
