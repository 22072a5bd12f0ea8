-- ===== src/Workers/Steps.antt =====
-- fake_worker.py, gpu_worker.py: what a worker does to the store is a sequence of its steps.
use scooling_lab.Base.{◌+◌, String, refl, subst, Dict, not, str_eq, if◌then◌else◌}
use scooling_lab.Codec.{Codec}
use scooling_lab.Errors.{Result, ok, err, api, is_api_error, internal_error}
use scooling_lab.Method.{pure, raise, or_raise, ◌>>=◌}
use scooling_lab.Platform.{Platform}
use scooling_lab.Retention.{RetentionPolicy}
use scooling_lab.StateMachine.{running, succeeded, failed, is_terminal}
use scooling_lab.Contracts.Request.{TrainingJobRequest, gpu_product_model_id}
use scooling_lab.Provenance.{ProvenanceRecord, validate_provenance_record}
use scooling_lab.Store.Records.{TrainingJobRecord}
use scooling_lab.Store.State.{TrainingJobStore, Action, get, utc_now_iso}
use scooling_lab.Store.Queue.{update_status}
use scooling_lab.Store.Artifacts.{register_artifact}
use scooling_lab.Store.Dicts.{IsKeyed}
use scooling_lab.Store.Steps.{Reach, here, next, tick}
use scooling_lab.Store.Steps.Keyed.{Reach-IsKeyed}
use scooling_lab.Store.Steps.Rules.{bind-Reach, or_raise-Reach, if-Reach, get-Reach}
use scooling_lab.Store.Steps.Queue.{update_status-Reach}
use scooling_lab.Store.Steps.Artifacts.{register_artifact-Reach}
use scooling_lab.Workers.Completion.{
  complete, complete_now, complete_checked, artifact_of, start, run_with,
}
use scooling_lab.Workers.Fake
use scooling_lab.Workers.Gpu
use scooling_lab.Workers.Gpu.{
  Process, WorkerResult, is_caught, finish, invoke_isolated_process, envelope_of,
}
use scooling_lab.Workers.Envelope.{wants_training}

-- An action whose writes are steps, from every store whose records stand under their own ids.
abbrev pub Treads : {A : Type 0} → Action A → Type 0
Treads m = (s : TrainingJobStore) → IsKeyed s.jobs → Reach s (m s).1

-- One such action after another.
pub bind-Treads :
    {A B : Type 0} (m : Action A) (f : A → Action B)
    → Treads m
    → ((a : A) → Treads (f a))
    → Treads (m >>= f)
bind-Treads {A = A} m f h k s keyed = bind-Reach s m f (h s keyed) (λ a t e. k a t (
    subst (λ (x : Result A × TrainingJobStore). IsKeyed x.1.jobs) e
      (Reach-IsKeyed (h s keyed) keyed)))

module _ ⦃p : Platform⦄ where
  complete_checked-Treads :
      (r : Result (Unit {0})) (k : String) (v : ProvenanceRecord) (policy : RetentionPolicy)
      → Treads (complete_checked r k v policy)
  unfolding complete_checked
  complete_checked-Treads (ok u) k v policy s keyed =
      bind-Treads (register_artifact k (artifact_of k v policy) v) (λ _. update_status k succeeded)
        (λ t _. register_artifact-Reach k (artifact_of k v policy) v t)
        (λ _ t kt. update_status-Reach k succeeded t kt refl) s keyed
  complete_checked-Treads (err e) k v policy s keyed =
      if-Reach s (is_api_error e) (update_status k failed) (raise e)
        (λ _. update_status-Reach k failed s keyed refl) (λ _. here)

  complete-Treads :
      (k : String) (v : ProvenanceRecord) (policy : RetentionPolicy) → Treads (complete k v policy)
  unfolding complete
  complete-Treads k v policy = complete_checked-Treads (validate_provenance_record v) k v policy

  run_with-Treads :
      (k : String) (work : TrainingJobRecord → TrainingJobRequest → Action TrainingJobRecord)
      → ((r : TrainingJobRecord) (q : TrainingJobRequest) → Treads (work r q))
      → Treads (run_with k work)
  unfolding run_with start
  run_with-Treads k work h s keyed =
      let ready = λ (r : TrainingJobRecord).
        or_raise r.request (api internal_error 500) >>= λ (q : TrainingJobRequest). work r q in
      let started : Treads (start k work) =
        bind-Treads (update_status k running) (λ _. get k >>= ready)
          (λ u ku. update_status-Reach k running u ku refl)
          (λ _ u ku. get-Reach u k ready (λ r _.
            or_raise-Reach u r.request (api internal_error 500) (work r) (λ q _. h r q u ku))) in
      get-Reach s k (λ r. if is_terminal r.status then pure r else start k work)
        (λ r _.
          if-Reach s (is_terminal r.status) (pure r) (start k work) (λ _. here)
            (λ _. started s keyed))

  complete_now-Treads :
      (k : String) (f : String → ProvenanceRecord) (policy : RetentionPolicy)
      → Treads (complete_now k f policy)
  unfolding complete_now
  complete_now-Treads k f policy =
      bind-Treads utc_now_iso (λ t. complete k (f t) policy)
        (λ s _. next here (tick (s.readings + 1))) (λ t. complete-Treads k (f t) policy)

  -- In a store whose records stand under their own ids, what the fake worker's run of a job
  -- does to the store, raising or not, is a sequence of the steps that the step relation
  -- allows.
  pub fake-run_job-Reach :
      (fixture_dataset job_id : String) (s : TrainingJobStore)
      → IsKeyed s.jobs
      → Reach s (Fake.run_job fixture_dataset job_id s).1
  unfolding Fake.run_job Fake.work
  fake-run_job-Reach fixture_dataset job_id =
      run_with-Treads job_id (Fake.work fixture_dataset job_id) (λ r q.
        complete_now-Treads job_id (Fake.provenance fixture_dataset job_id r q) q.retention_policy)

module _ ⦃p : Platform⦄ ⦃c : Codec⦄ ⦃process : Process⦄ where
  finish-Treads :
      (x : Result WorkerResult) (k : String) (q : TrainingJobRequest) → Treads (finish x k q)
  unfolding finish
  finish-Treads (ok result) k q s keyed =
      complete_now-Treads k (Gpu.provenance result k) q.retention_policy s keyed
  finish-Treads (err e) k q s keyed =
      if-Reach s (is_caught e) (update_status k failed) (raise e)
        (λ _. update_status-Reach k failed s keyed refl) (λ _. here)

  gpu-work-Treads :
      (environ : Dict String) (k : String) (r : TrainingJobRecord) (q : TrainingJobRequest)
      → Treads (Gpu.work environ k r q)
  unfolding Gpu.work
  gpu-work-Treads environ k r q s keyed =
      let stop = λ (_ : Unit {0}). update_status-Reach k failed s keyed refl in
      let rest = finish (invoke_isolated_process environ (envelope_of k q)) k q in
      let trains = not (wants_training q.training_parameters) in
      if-Reach s (not (str_eq q.model_id gpu_product_model_id)) (update_status k failed)
        (if trains then update_status k failed else rest) (λ _. stop tt)
        (λ _.
          if-Reach s trains (update_status k failed) rest (λ _. stop tt)
            (λ _. finish-Treads (invoke_isolated_process environ (envelope_of k q)) k q s keyed))

  -- In a store whose records stand under their own ids, what the GPU worker's run of a job
  -- does to the store, raising or not, is a sequence of the steps that the step relation
  -- allows, whatever the process returns or raises.
  pub gpu-run_job-Reach :
      (environ : Dict String) (job_id : String) (s : TrainingJobStore)
      → IsKeyed s.jobs
      → Reach s (Gpu.run_job environ job_id s).1
  unfolding Gpu.run_job
  gpu-run_job-Reach environ job_id =
      run_with-Treads job_id (Gpu.work environ job_id) (gpu-work-Treads environ job_id)
