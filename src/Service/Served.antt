-- ===== src/Service/Served.antt =====
-- service.py: every request is a sequence of steps of the store of jobs.
use scooling_lab.Base.{Bool, true, false, List, [], ◌∷◌}
use scooling_lab.Codec.{Codec}
use scooling_lab.Errors.{Result, ok, err}
use scooling_lab.Json.{Value}
use scooling_lab.Platform.{Platform}
use scooling_lab.Contracts.Request.{TrainingJobRequest}
use scooling_lab.Store.State.{Action}
use scooling_lab.Store.Dicts.{IsKeyed}
use scooling_lab.Store.Steps.{Reach, here, Reach-trans}
use scooling_lab.Store.Steps.Keyed.{Reach-IsKeyed}
use scooling_lab.Workers.Gpu.{Process}
use scooling_lab.Workers.Steps.{Treads}
use scooling_lab.Service.{Deployment}
use scooling_lab.Service.Jobs.{
  retry_training_job, get_training_job, cancel_training_job, list_artifacts, get_provenance,
  get_artifact_download, delete_artifact, sweep_expired_artifacts,
}
use scooling_lab.Base.{sym, subst, arith, ◌≤◌}
use scooling_lab.Contracts.Request.{from_mapping}
use scooling_lab.Store.State.{active_count}
use scooling_lab.Store.Steps.Lives.{IsSound, Reach-IsSound}
use scooling_lab.Store.Steps.Capacity.{Reach-active, Reach-limits}
use scooling_lab.DatasetReview.{dataset_shape_from_registration, validate_review_request}
use scooling_lab.DatasetReview.Store
use scooling_lab.DatasetReview.Store.{dataset_to_public_dict}
use scooling_lab.Service.{Service, Operation, on_store}
use scooling_lab.Service.Steps.{
  create_job-Treads, retry_training_job-Treads, get_training_job-Treads, cancel_training_job-Treads,
}
use scooling_lab.DatasetReview.Store.{DatasetRecord, DatasetAction, is_approved}
use scooling_lab.Service.Routes.{
  public_dataset, Request, create_call, retry_call, cancel_call, get_call, artifacts_call,
  provenance_call, download_call, delete_call, sweep_call, queue_call, register_dataset_call,
  submit_dataset_call, get_dataset_call, review_dataset_call, ingest_call, create_valid,
  create_request, create_training_job, register_dataset, review_dataset, ingest_dataset_package,
  handle, serve,
}
use scooling_lab.Service.Kept.{
  KeepsStore, public-Keeps, register-Keeps, review_dataset-Keeps, ingest-Keeps,
}
use scooling_lab.Service.Actions.{
  list_artifacts-Treads, get_provenance-Treads, get_artifact_download-Treads,
  delete_artifact-Treads, sweep-Treads,
}

module _ ⦃p : Platform⦄ ⦃c : Codec⦄ ⦃q : Process⦄ (d : Deployment) where
  abbrev StoreSteps : Service → Result Value × Service → Type 0
  StoreSteps s x = Reach s.store x.1.store

  create-Steps :
      (r : Result TrainingJobRequest) (s : Service)
      → IsKeyed s.store.jobs
      → StoreSteps s (create_request d r s)
  unfolding create_request create_valid
  create-Steps (err e) s keyed = here
  create-Steps (ok request) s keyed = valid (is_approved request.dataset_id s.datasets)
    where
      valid : (b : Bool) → StoreSteps s (create_valid d b request s)
      valid true = create_job-Treads d request s.store keyed
      valid false = here

  -- the rest of a request, and that of a run of requests
  on_store-Steps :
      (m : Action Value) (s : Service)
      → IsKeyed s.store.jobs
      → Treads m
      → StoreSteps s (on_store m s)
  on_store-Steps m s keyed h = h s.store keyed

  kept-Steps : (m : Operation Value) (s : Service) → KeepsStore m → StoreSteps s (m s)
  kept-Steps m s h = subst (Reach s.store) (sym (h s)) here

  handle-Steps : (r : Request) (s : Service) → IsKeyed s.store.jobs → StoreSteps s (handle d r s)
  unfolding handle create_training_job
  handle-Steps (create_call payload) s keyed = create-Steps (from_mapping payload) s keyed
  handle-Steps (retry_call k) s keyed =
      on_store-Steps (retry_training_job d k) s keyed (retry_training_job-Treads d k)
  handle-Steps (cancel_call k) s keyed =
      on_store-Steps (cancel_training_job d k) s keyed (cancel_training_job-Treads d k)
  handle-Steps (get_call k) s keyed =
      on_store-Steps (get_training_job d k) s keyed (get_training_job-Treads d k)
  handle-Steps (artifacts_call k) s keyed =
      on_store-Steps (list_artifacts d k) s keyed (list_artifacts-Treads d k)
  handle-Steps (provenance_call k) s keyed =
      on_store-Steps (get_provenance d k) s keyed (get_provenance-Treads d k)
  handle-Steps (download_call k a h) s keyed =
      on_store-Steps (get_artifact_download d k a h) s keyed (get_artifact_download-Treads d k a h)
  handle-Steps (delete_call k a) s keyed =
      on_store-Steps (delete_artifact d k a) s keyed (delete_artifact-Treads d k a)
  handle-Steps sweep_call s keyed =
      on_store-Steps (sweep_expired_artifacts d) s keyed (sweep-Treads d)
  handle-Steps queue_call s keyed = here
  handle-Steps (register_dataset_call payload) s keyed =
      kept-Steps (register_dataset d (dataset_shape_from_registration payload)) s
        (register-Keeps d (dataset_shape_from_registration payload))
  handle-Steps (submit_dataset_call k) s keyed =
      kept-Steps (public_dataset (Store.submit_for_review k)) s
        (public-Keeps (Store.submit_for_review k))
  handle-Steps (get_dataset_call k) s keyed =
      kept-Steps (public_dataset (Store.get_dataset k)) s (public-Keeps (Store.get_dataset k))
  handle-Steps (review_dataset_call k payload) s keyed =
      kept-Steps (review_dataset d k (validate_review_request payload)) s
        (review_dataset-Keeps d k (validate_review_request payload))
  handle-Steps (ingest_call k payload h) s keyed =
      kept-Steps (ingest_dataset_package d k payload h) s (ingest-Keeps d k payload h)

  -- What every sequence of requests does to the store of jobs, raising or not, the runs of the
  -- workers included, is a sequence of the steps that the step relation allows, in a store
  -- whose records stand under their own ids.
  pub serve-Reach :
      (requests : List Request) (s : Service)
      → IsKeyed s.store.jobs
      → Reach s.store (serve d requests s).store
  unfolding serve
  serve-Reach [] s keyed = here
  serve-Reach (r ∷ rs) s keyed =
      let first = handle-Steps r s keyed in
      Reach-trans first (serve-Reach rs (handle d r s).1 (Reach-IsKeyed first keyed))

  -- After every sequence of requests that the service handles, raising or not, from a store
  -- whose records stand under their own ids, the records still stand under their own ids, no
  -- id twice; a record lacks its request exactly if its job is deleted, and has a time of
  -- deletion exactly if its job is deleted, if that was so before; and the number of queued
  -- and running jobs is within the queue limit, if it was before.
  pub serve-IsSound :
      (requests : List Request) (s : Service)
      → IsKeyed s.store.jobs
      → IsSound s.store
      → active_count s.store ≤ s.store.queue_limit
      → let t = (serve d requests s).store in
        IsKeyed t.jobs × IsSound t × (active_count t ≤ s.store.queue_limit)
  serve-IsSound requests s keyed sound room =
      let r = serve-Reach requests s keyed in
      (
        Reach-IsKeyed r keyed,
        Reach-IsSound r sound,
        omega (arith, Reach-active r room, (Reach-limits r).0),
      )
