-- ===== src/Service/Steps.antt =====
-- service.py: what a request does to the store of jobs is a sequence of its steps.
use scooling_lab.Base.{
  Option-cases, inl, inr, String, Bool, true, false, not, List, [], ◌∷◌, Option, none, some, str_eq,
  if◌then◌else◌,
}
use scooling_lab.Codec.{Codec}
use scooling_lab.Errors.{Exception, Result, api, internal_error}
use scooling_lab.Json.{Value, str}
use scooling_lab.Method.{pure, lift, or_raise, ◌>>=◌, ◌>>◌}
use scooling_lab.Platform.{Platform}
use scooling_lab.StateMachine.{succeeded, same, is_terminal}
use scooling_lab.Contracts.Request.{TrainingJobRequest, gpu_product_model_id}
use scooling_lab.Contracts.Identifiers.{require_job_id}
use scooling_lab.Store.Records.{TrainingJobRecord, ArtifactMetadata, job_to_public_dict}
use scooling_lab.Store.State.{Action, get}
use scooling_lab.Store.Queue
use scooling_lab.Store.Artifacts.{set_artifact_storage_key}
use scooling_lab.Store.Deletion.{evaluate_expiry}
use scooling_lab.Store.Steps.{here}
use scooling_lab.Store.Steps.Rules.{get-Reach_last}
use scooling_lab.Store.Steps.Admission.{create-Reach, retry-Reach}
use scooling_lab.Store.Steps.Queue.{cancel-Reach}
use scooling_lab.Store.Steps.Artifacts.{set_artifact_storage_key-Reach}
use scooling_lab.Store.Steps.Deletion.{evaluate_expiry-Reach}
use scooling_lab.Workers.Fake
use scooling_lab.Workers.Gpu
use scooling_lab.Workers.Gpu.{Process}
use scooling_lab.Workers.Steps.{Treads, bind-Treads, fake-run_job-Reach, gpu-run_job-Reach}
use scooling_lab.Service.{ArtifactStorage, Deployment}
use scooling_lab.Service.Jobs.{
  upload_one, upload_artifacts, artifact_root, upload_to, dispatch_request, dispatch_worker,
  after_run, run_acquired, run_if_configured, create_job, retry_training_job, get_training_job,
  cancel_training_job,
}

module _ {A : Type 0} where
  pub pure-Treads : (a : A) → Treads (λ s. pure a s)
  pure-Treads a s keyed = here

  pub lift-Treads : (r : Result A) → Treads (lift r)
  lift-Treads r s keyed = here

  pub or_raise-Treads : (o : Option A) (e : Exception) → Treads (or_raise o e)
  or_raise-Treads none e s keyed = here
  or_raise-Treads (some a) e s keyed = here

  if-Treads : (b : Bool) (m n : Action A) → Treads m → Treads n → Treads (if b then m else n)
  if-Treads true m n h k = h
  if-Treads false m n h k = k

pub get-Treads : (k : String) → Treads (get k)
get-Treads k s keyed = get-Reach_last k s

module _ {A B : Type 0} where
  -- a check, before the rest
  pub checked : (r : Result A) (f : A → Action B) → ((a : A) → Treads (f a)) → Treads (lift r >>= f)
  checked r f h = bind-Treads (lift r) f (lift-Treads r) h

module _ ⦃p : Platform⦄ ⦃c : Codec⦄ ⦃q : Process⦄ (d : Deployment) where
  upload_one-Treads :
      (storage : ArtifactStorage) (k : String) (a : ArtifactMetadata)
      → Treads (upload_one d storage k a)
  unfolding upload_one
  upload_one-Treads storage k a s keyed = elim (Option-cases a.storage_key) [
    | inr (key, e) ↦ rw (e, upload_one) here
    | inl e ↦
        let set = λ (key : String).
          set_artifact_storage_key k a.id key >>= λ (_ : TrainingJobRecord). pure tt in
        rw (e, upload_one)
          (checked (storage.upload k a.id) set
            (λ key.
              bind-Treads (set_artifact_storage_key k a.id key) (λ _. pure tt)
                (λ t _. set_artifact_storage_key-Reach k a.id key t) (λ _. pure-Treads tt))
            s keyed)
  ]

  upload_artifacts-Treads :
      (storage : ArtifactStorage) (k : String) (l : List ArtifactMetadata)
      → Treads (upload_artifacts d storage k l)
  unfolding upload_artifacts
  upload_artifacts-Treads storage k [] = pure-Treads tt
  upload_artifacts-Treads storage k (a ∷ l) =
      bind-Treads (upload_one d storage k a) (λ _. upload_artifacts d storage k l)
        (upload_one-Treads storage k a) (λ _. upload_artifacts-Treads storage k l)

  pub expiry-Treads : (k : String) → Treads (evaluate_expiry k none)
  expiry-Treads k s keyed = evaluate_expiry-Reach k none s keyed

  upload_to-Treads : (o : Option ArtifactStorage) (k : String) → Treads (upload_to d o k)
  unfolding upload_to
  upload_to-Treads none k = pure-Treads tt
  upload_to-Treads (some storage) k =
      let send = λ (r : TrainingJobRecord) (_ : Unit {0}).
        if d.has_tarball k then upload_artifacts d storage k r.artifacts else pure tt in
      bind-Treads (get k) (λ r. lift (artifact_root d) >>= send r) (get-Treads k)
        (λ r. checked (artifact_root d) (send r) (λ _.
          if-Treads (d.has_tarball k) (upload_artifacts d storage k r.artifacts) (pure tt)
            (upload_artifacts-Treads storage k r.artifacts) (pure-Treads tt)))

  dispatch_worker-Treads : (k : String) → Treads (dispatch_worker d k)
  unfolding dispatch_worker dispatch_request
  dispatch_worker-Treads k =
      bind-Treads (get k)
        (λ r. or_raise r.request (api internal_error 500) >>= dispatch_request d k) (get-Treads k)
        (λ r.
          bind-Treads (or_raise r.request (api internal_error 500)) (dispatch_request d k)
            (or_raise-Treads r.request (api internal_error 500))
            (λ request.
              if-Treads (str_eq request.model_id gpu_product_model_id) (Gpu.run_job d.environ k)
                (Fake.run_job d.fixture_dataset k) (gpu-run_job-Reach d.environ k)
                (fake-run_job-Reach d.fixture_dataset k)))

  after_run-Treads : (k : String) (r : TrainingJobRecord) → Treads (after_run d k r)
  unfolding after_run
  after_run-Treads k r =
      if-Treads (same r.status succeeded) (upload_to d d.artifact_storage k >> get k) (pure r)
        (bind-Treads (upload_to d d.artifact_storage k) (λ _. get k)
          (upload_to-Treads d.artifact_storage k) (λ _. get-Treads k))
        (pure-Treads r)

  run_acquired-Treads : (k : String) → Treads (run_acquired d k)
  unfolding run_acquired
  run_acquired-Treads k =
      if-Treads d.acquires (dispatch_worker d k >>= after_run d k) (get k)
        (bind-Treads (dispatch_worker d k) (after_run d k) (dispatch_worker-Treads k)
          (after_run-Treads k))
        (get-Treads k)

  run_if_configured-Treads : (k : String) → Treads (run_if_configured d k)
  unfolding run_if_configured
  run_if_configured-Treads k =
      let taken =
        λ (r : TrainingJobRecord). if is_terminal r.status then pure r else run_acquired d k in
      if-Treads (not d.auto_run_worker) (get k) (get k >>= taken) (get-Treads k) (
        bind-Treads (get k) taken (get-Treads k) (λ r.
          if-Treads (is_terminal r.status) (pure r) (run_acquired d k) (pure-Treads r)
            (run_acquired-Treads k)))

  -- a call of the store and the worker's run of the job that it gives
  run_after :
      (m : Action TrainingJobRecord)
      → Treads m
      → Treads (m >>= λ job. run_if_configured d job.id >>= λ done. lift (job_to_public_dict done))
  run_after m h =
      bind-Treads m (λ job. run_if_configured d job.id >>= λ done. lift (job_to_public_dict done)) h
        (λ job.
          bind-Treads (run_if_configured d job.id) (λ done. lift (job_to_public_dict done))
            (run_if_configured-Treads job.id) (λ done. lift-Treads (job_to_public_dict done)))

  -- a call of the store, and what is made of its answer
  pub answer :
      {A : Type 0} (m : Action A) (f : A → Result Value) → Treads m → Treads (m >>= λ a. lift (f a))
  answer m f h = bind-Treads m (λ a. lift (f a)) h (λ a. lift-Treads (f a))

  pub create_job-Treads : (request : TrainingJobRequest) → Treads (create_job d request)
  unfolding create_job
  create_job-Treads request = run_after (Queue.create request) (λ s _. create-Reach request s)

  pub retry_training_job-Treads : (k : String) → Treads (retry_training_job d k)
  unfolding retry_training_job
  retry_training_job-Treads k =
      checked (require_job_id (str k))
        (λ _. Queue.retry k >>= λ job.
          run_if_configured d job.id >>= λ done. lift (job_to_public_dict done))
        (λ _. run_after (Queue.retry k) (λ s _. retry-Reach k s))

  pub get_training_job-Treads : (k : String) → Treads (get_training_job d k)
  unfolding get_training_job
  get_training_job-Treads k =
      checked (require_job_id (str k))
        (λ _. evaluate_expiry k none >>= λ job. lift (job_to_public_dict job))
        (λ _. answer (evaluate_expiry k none) job_to_public_dict (expiry-Treads k))

  pub cancel_training_job-Treads : (k : String) → Treads (cancel_training_job d k)
  unfolding cancel_training_job
  cancel_training_job-Treads k =
      checked (require_job_id (str k))
        (λ _. Queue.cancel k >>= λ job. lift (job_to_public_dict job))
        (λ _. answer (Queue.cancel k) job_to_public_dict (cancel-Reach k))
