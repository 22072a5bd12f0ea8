-- ===== src/Workers/Results.antt =====
-- fake_worker.py, gpu_worker.py: `run_job` ends every job, in a store without a persistence file.
use scooling_lab.Base.{
  ◌&&◌, ◌||◌, ◌⊎◌, Bool, false, String, true, not, ◌≡◌, refl, arith, some, lookup, Dict, str_eq,
  Bool-cases, inl, inr,
}
use scooling_lab.Codec.{Codec, IsCodec, is_json_error}
use scooling_lab.Errors
use scooling_lab.Errors.{
  value_error, recursion_error, Exception, Result, ok, err, api, is_api_error, not_found,
  internal_error, validation_error,
}
use scooling_lab.Json.{str, Value, null, bool, int, float, arr, obj, Fields, keys_within}
use scooling_lab.Platform.{Platform}
use scooling_lab.Raises.{
  RaisesOnly, bind-RaisesOnly, raise_if-RaisesOnly, err-RaisesOnly, ok-RaisesOnly,
}
use scooling_lab.StateMachine.{failed, running}
use scooling_lab.Contracts.Identifiers.{job_id_re}
use scooling_lab.Contracts.Request.{TrainingJobRequest, gpu_product_model_id}
use scooling_lab.Provenance.{has_keys}
use scooling_lab.Store.Records.{TrainingJobRecord}
use scooling_lab.Store.State.{TrainingJobStore}
use scooling_lab.Store.Dicts.{IsKeyed}
use scooling_lab.Store.Steps.Lives.{IsConsistent}
use scooling_lab.Store.Outcomes.{IsInMemory}
use scooling_lab.Workers.Fake
use scooling_lab.Workers.Gpu
use scooling_lab.Workers.Gpu.{
  Process, Completed, IsProcess, is_process_error, WorkerResult, process_environment, read_result,
  read_output, result_keys, is_caught, finish, invoke_isolated_process, envelope_of,
}
use scooling_lab.Workers.Envelope.{gpu_worker_timeout_seconds, wants_training}
use scooling_lab.Workers.Registration.{Ends, IsUnderWay, update_status-Ends}
use scooling_lab.Workers.Ends.{WorkMeets, complete_now-Ends, run_with_meets}

module _ ⦃p : Platform⦄ where
  -- In a store without a persistence file whose records stand under their own ids, the fake
  -- worker's run of a job that is there, under an id of the required form and with its request
  -- exactly if it is not deleted, returns the record of the job at a terminal status.
  pub fake-run_job-Ends :
      (fixture_dataset k : String) (r : TrainingJobRecord) (s : TrainingJobStore)
      → IsKeyed s.jobs
      → IsInMemory s
      → job_id_re k ≡ true
      → lookup k s.jobs ≡ some r
      → IsConsistent r
      → Ends k (Fake.run_job fixture_dataset k s)
  unfolding Fake.run_job Fake.work
  fake-run_job-Ends fixture_dataset k r s keyed memory id_ok e sound =
      run_with_meets k (Ends k) (Fake.work fixture_dataset k) r s
        (λ x q t _ _ _ way.
          complete_now-Ends k (Fake.provenance fixture_dataset k x q) q.retention_policy t id_ok
            way)
        (λ x h. h) keyed memory e sound

-- The exceptions of the call of the process that `run_job` does not catch.
abbrev pub is_left : Exception → Bool
is_left value_error = true
is_left recursion_error = true
is_left _ = false

abbrev caught_or_left : Exception → Bool
caught_or_left e = is_caught e || is_left e

-- The call of the process raised one of these, which the run raises too, and the job is left running.
unfoldable pub IsLeft :
    ⦃p : Platform⦄ ⦃c : Codec⦄ ⦃process : Process⦄
    → Dict String
    → String
    → Result TrainingJobRecord × TrainingJobStore
    → Type 0
IsLeft environ k x =
    (e : Exception) × (x.0 ≡ err e)
    × (is_left e ≡ true)
    × (r : TrainingJobRecord) × (q : TrainingJobRequest) × (lookup k x.1.jobs ≡ some r)
    × (r.status ≡ running)
    × (r.request ≡ some q)
    × (invoke_isolated_process environ (envelope_of k q) ≡ err e)

process-caught_or_left : (e : Exception) → is_process_error e ≡ true → caught_or_left e ≡ true
unfolding is_caught
process-caught_or_left e h = ground arith

json-caught_or_left : (e : Exception) → is_json_error e ≡ true → caught_or_left e ≡ true
unfolding is_caught
json-caught_or_left e h = ground arith

module _ ⦃p : Platform⦄ ⦃c : Codec⦄ ⦃process : Process⦄ where
  text_at-RaisesOnly : (k : String) (fs : Fields) → RaisesOnly caught_or_left (Gpu.text_at k fs)
  unfolding Gpu.text_at is_caught
  text_at-RaisesOnly k fs e h = ground arith

  caught :
      {A : Type 0} (q : Exception)
      → caught_or_left q ≡ true
      → RaisesOnly {A = A} caught_or_left (err q)
  caught q h = err-RaisesOnly caught_or_left q h

  text_then :
      {A : Type 0} (k : String) (fs : Fields) (f : String → Result A)
      → ((t : String) → RaisesOnly caught_or_left (f t))
      → RaisesOnly caught_or_left (Errors.◌>>=◌ (Gpu.text_at k fs) f)
  text_then k fs f h =
      bind-RaisesOnly caught_or_left (Gpu.text_at k fs) f (text_at-RaisesOnly k fs) h

  read_result-RaisesOnly : (v : Value) → RaisesOnly caught_or_left (read_result v)
  unfolding read_result is_caught
  read_result-RaisesOnly (obj fs) =
      raise_if-RaisesOnly caught_or_left
        (not (keys_within result_keys fs && has_keys result_keys fs)) (api internal_error 500) _
        refl
        (text_then "artifactHash" fs _ (λ a. text_then "baseModelId" fs _ (λ b.
          text_then "datasetHash" fs _
            (λ d. text_then "trainingConfigHash" fs _ (λ t. ok-RaisesOnly caught_or_left _)))))
  read_result-RaisesOnly null = caught (api internal_error 500) refl
  read_result-RaisesOnly (bool b) = caught (api internal_error 500) refl
  read_result-RaisesOnly (int n) = caught (api internal_error 500) refl
  read_result-RaisesOnly (float x) = caught (api internal_error 500) refl
  read_result-RaisesOnly (str t) = caught (api internal_error 500) refl
  read_result-RaisesOnly (arr xs) = caught (api internal_error 500) refl

  read_output-RaisesOnly :
      (done : Completed) → IsCodec c → RaisesOnly caught_or_left (read_output done)
  unfolding read_output is_caught
  read_output-RaisesOnly done codec =
      raise_if-RaisesOnly caught_or_left (not done.is_success) (api internal_error 500)
        (λ _. Errors.◌>>=◌ (c.json_loads done.stdout) read_result) refl
        (bind-RaisesOnly caught_or_left (c.json_loads done.stdout) read_result
          (λ e h. json-caught_or_left e (codec.raises done.stdout e h)) read_result-RaisesOnly)

  invoke-RaisesOnly :
      (environ : Dict String) (envelope : Value)
      → IsProcess process
      → IsCodec c
      → RaisesOnly caught_or_left (invoke_isolated_process environ envelope)
  unfolding invoke_isolated_process
  invoke-RaisesOnly environ envelope runs codec =
      bind-RaisesOnly caught_or_left
        (process.run_process (process_environment environ) (gpu_worker_timeout_seconds environ)
          (p.json_dumps envelope))
        read_output (λ e h. process-caught_or_left e (runs.raises _ _ _ e h))
        (λ done. read_output-RaisesOnly done codec)

  -- What a run of the GPU worker comes to.
  abbrev Meets : Dict String → String → Result TrainingJobRecord × TrainingJobStore → Type 0
  Meets environ k x = Ends k x ⊎ IsLeft environ k x

  finish-Meets :
      (environ : Dict String) (x : Result WorkerResult) (k : String) (r : TrainingJobRecord)
      (q : TrainingJobRequest) (s : TrainingJobStore)
      → invoke_isolated_process environ (envelope_of k q) ≡ x
      → RaisesOnly caught_or_left x
      → job_id_re k ≡ true
      → lookup k s.jobs ≡ some r
      → r.status ≡ running
      → r.request ≡ some q
      → IsUnderWay k s
      → Meets environ k (finish x k q s)
  unfolding finish IsLeft
  finish-Meets environ (ok result) k r q s came only id_ok there run asked way =
      inl (complete_now-Ends k (Gpu.provenance result k) q.retention_policy s id_ok way)
  finish-Meets environ (err e) k r q s came only id_ok there run asked way =
      elim (Bool-cases (is_caught e)) [
        | inl h ↦ inl (rw h (update_status-Ends k failed s refl refl way))
        | inr h ↦
            let left : is_left e ≡ true = rw h at (only e refl) in
            inr (e, rw h refl, left, r, q, rw h there, run, asked, came)
      ]

  gpu-work-Meets :
      (environ : Dict String) (k : String)
      → IsProcess process
      → IsCodec c
      → job_id_re k ≡ true
      → WorkMeets k (Meets environ k) (Gpu.work environ k)
  unfolding Gpu.work
  gpu-work-Meets environ k runs codec id_ok r q s there run asked way =
      elim (Bool-cases (str_eq q.model_id gpu_product_model_id)) [
        | inr h ↦ rw h (inl (update_status-Ends k failed s refl refl way))
        | inl h ↦ elim (Bool-cases (wants_training q.training_parameters)) [
          | inr w ↦ rw (h, w) (inl (update_status-Ends k failed s refl refl way))
          | inl w ↦
              rw (h, w)
                (finish-Meets environ (invoke_isolated_process environ (envelope_of k q)) k r q s
                  refl (invoke-RaisesOnly environ (envelope_of k q) runs codec) id_ok there run
                  asked way)
        ]
      ]

  -- In a store without a persistence file whose records stand under their own ids, the GPU
  -- worker's run of a job that is there, under an id of the required form and with its request
  -- exactly if it is not deleted, either returns the record of the job at a terminal status,
  -- or raises a ValueError or a RecursionError that the call of the process for the job's
  -- request raised, and leaves the job running; where subprocess.run and json.loads raise only
  -- what they document.
  pub gpu-run_job-Ends :
      (environ : Dict String) (k : String) (r : TrainingJobRecord) (s : TrainingJobStore)
      → IsProcess process
      → IsCodec c
      → IsKeyed s.jobs
      → IsInMemory s
      → job_id_re k ≡ true
      → lookup k s.jobs ≡ some r
      → IsConsistent r
      → Ends k (Gpu.run_job environ k s) ⊎ IsLeft environ k (Gpu.run_job environ k s)
  unfolding Gpu.run_job
  gpu-run_job-Ends environ k r s runs codec keyed memory id_ok e sound =
      run_with_meets k (Meets environ k) (Gpu.work environ k) r s
        (gpu-work-Meets environ k runs codec id_ok) (λ x h. inl h) keyed memory e sound
