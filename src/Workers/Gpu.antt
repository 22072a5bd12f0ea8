-- ===== src/Workers/Gpu.antt =====
-- gpu_worker.py: the driver that runs a GPU job in a process of its own. The process is a parameter:
-- what `subprocess.run` returns for an environment, a time limit and the text on its input.
use Prim.Native.String.{◌++◌}
use scooling_lab.Base.{
  ℤ, String, Bool, true, false, ◌&&◌, not, List, [], ◌∷◌, any, Option, none, some, str_eq, codes,
  Dict, lookup, insert, is_some, if◌then◌else◌,
}
use scooling_lab.Codec.{Codec}
use scooling_lab.Errors.{
  Exception, Result, ok, err, api, api_error, internal_error, key_error, value_error, os_error,
  subprocess_error, json_decode_error, ◌>>=◌, ◌>>◌, raise_if,
}
use scooling_lab.Json.{Value, str, obj, Fields, end, field, get, keys_within}
use scooling_lab.Method.{raise}
use scooling_lab.Platform.{Platform}
use scooling_lab.Raises.{RaisesOnly}
use scooling_lab.Retention.{to_public_dict}
use scooling_lab.StateMachine.{failed}
use scooling_lab.Contracts.Request.{TrainingJobRequest, contains_term, gpu_product_model_id}
use scooling_lab.Provenance.{ProvenanceRecord, has_keys, provenance_schema_version}
use scooling_lab.Store.Records.{TrainingJobRecord}
use scooling_lab.Store.State.{Action}
use scooling_lab.Store.Queue.{update_status}
use scooling_lab.Workers.Completion.{complete_now, run_with}
use scooling_lab.Workers.Envelope.{gpu_worker_timeout_seconds, wants_training}

-- `subprocess.CompletedProcess`
pub record Completed : Type 0 where
  pub is_success : Bool
  pub stdout : String

pub record Process : Type 0 where
  -- `subprocess.run(...)`, whether the return code is 0, and the output
  pub run_process : Dict String → ℤ → String → Result Completed
  -- `str(Path(scooling_lab.__file__).resolve().parent.parent)`, and `os.pathsep`
  pub src_root : String
  pub pathsep : String

-- Documented behaviour of `subprocess.run`: what it raises is an `OSError`, where the program
-- cannot be started, a `SubprocessError`, where the time limit is reached, or a `ValueError`, where
-- an argument is not valid or, with `text=True`, what the program prints is not UTF-8.
abbrev pub is_process_error : Exception → Bool
is_process_error os_error = true
is_process_error subprocess_error = true
is_process_error value_error = true
is_process_error _ = false

pub record IsProcess (q : Process) : Type 0 where
  pub raises :
      (env : Dict String) (limit : ℤ) (input : String)
      → RaisesOnly is_process_error (q.run_process env limit input)

-- what `_invoke_isolated_process` returns
pub record WorkerResult : Type 0 where
  pub artifact_hash : String
  pub base_model_id : String
  pub dataset_hash : String
  pub training_config_hash : String

abbrev pub result_keys : List String
result_keys = "artifactHash" ∷ "baseModelId" ∷ "datasetHash" ∷ "jobId" ∷ "trainingConfigHash" ∷ []

abbrev withheld_terms : List String
withheld_terms = "callback" ∷ "webhook" ∷ "worker_url" ∷ "proxy" ∷ []

module _ ⦃p : Platform⦄ where
  -- a variable that the process is not given
  unfoldable pub is_withheld : String → Bool
  unfolding contains_term
  is_withheld key = any (contains_term (codes (p.lower key))) withheld_terms

  -- the loop that pops the withheld variables
  unfoldable pub without_withheld : Dict String → Dict String
  unfolding is_withheld
  without_withheld [] = []
  without_withheld ((k, v) ∷ env) =
      let rest = without_withheld env in if is_withheld k then rest else (k, v) ∷ rest

abbrev or_empty : Option String → String
or_empty none = ""
or_empty (some s) = s

unfoldable pub with_python_path : ⦃q : Process⦄ → Dict String → Dict String
with_python_path ⦃q⦄ env =
    let existing = or_empty (lookup "PYTHONPATH" env) in
    insert "PYTHONPATH"
      (if str_eq existing "" then q.src_root else q.src_root ++ (q.pathsep ++ existing)) env

unfoldable pub with_train_mode : Dict String → Dict String
with_train_mode env =
    if is_some (lookup "SCOOLING_LAB_GPU_TRAIN_MODE" env)
    then env
    else insert "SCOOLING_LAB_GPU_TRAIN_MODE" "stub" env

module _ ⦃p : Platform⦄ ⦃q : Process⦄ where
  -- the environment of the process
  unfoldable pub process_environment : Dict String → Dict String
  unfolding without_withheld with_python_path with_train_mode
  process_environment environ = with_train_mode (with_python_path (without_withheld environ))

-- `except (ApiError, OSError, subprocess.SubprocessError, json.JSONDecodeError, KeyError)`
unfoldable pub is_caught : Exception → Bool
is_caught (api_error e) = true
is_caught os_error = true
is_caught subprocess_error = true
is_caught json_decode_error = true
is_caught key_error = true
is_caught _ = false

module _ ⦃p : Platform⦄ ⦃c : Codec⦄ ⦃q : Process⦄ where
  -- `str(payload[key])`
  unfoldable pub text_at : String → Fields → Result String
  text_at k fs = elim (get k fs) [
    | none ↦ err key_error
    | some (str s) ↦ ok s
    | some v ↦ ok (p.str_of_value v)
  ]

  -- the checks on the object that the process prints, and its texts
  unfoldable pub read_result : Value → Result WorkerResult
  unfolding text_at
  read_result (obj fs) = do
    raise_if (not (keys_within result_keys fs && has_keys result_keys fs)) (api internal_error 500)
    artifact_hash ← text_at "artifactHash" fs
    base_model_id ← text_at "baseModelId" fs
    dataset_hash ← text_at "datasetHash" fs
    training_config_hash ← text_at "trainingConfigHash" fs
    ok (record {
      artifact_hash = artifact_hash;
      base_model_id = base_model_id;
      dataset_hash = dataset_hash;
      training_config_hash = training_config_hash;
    })
  read_result _ = err (api internal_error 500)

  unfoldable pub read_output : Completed → Result WorkerResult
  unfolding read_result
  read_output done =
      raise_if (not done.is_success) (api internal_error 500)
      >> (c.json_loads done.stdout >>= read_result)

  -- `_invoke_isolated_process`
  unfoldable pub invoke_isolated_process : Dict String → Value → Result WorkerResult
  unfolding read_output process_environment gpu_worker_timeout_seconds
  invoke_isolated_process environ envelope =
      q.run_process (process_environment environ) (gpu_worker_timeout_seconds environ)
        (p.json_dumps envelope)
      >>= read_output

  unfoldable pub envelope_of : String → TrainingJobRequest → Value
  envelope_of job_id request = obj (
      field "datasetId" (str request.dataset_id) (
        field "jobId" (str job_id) (
          field "modelId" (str request.model_id) (
            field "retentionPolicy" (to_public_dict request.retention_policy)
              (field "trainingParameters" (obj request.training_parameters) end)))))

  -- the provenance record of `run_job`
  unfoldable pub provenance : WorkerResult → String → String → ProvenanceRecord
  provenance result job_id created_at = record {
    job_id = job_id;
    dataset_hash = result.dataset_hash;
    artifact_hash = result.artifact_hash;
    base_model_id = result.base_model_id;
    training_config_hash = result.training_config_hash;
    created_at = created_at;
    schema_version = provenance_schema_version;
  }

  -- the part of `run_job` that follows the call of the process
  unfoldable pub finish :
      Result WorkerResult → String → TrainingJobRequest → Action TrainingJobRecord
  unfolding provenance is_caught
  finish (ok result) job_id request =
      complete_now job_id (provenance result job_id) request.retention_policy
  finish (err e) job_id request = if is_caught e then update_status job_id failed else raise e

  -- the part of `run_job` that follows the start of the job
  unfoldable pub work :
      Dict String → String → TrainingJobRecord → TrainingJobRequest → Action TrainingJobRecord
  unfolding finish invoke_isolated_process envelope_of
  work environ job_id running_job request =
      if not (str_eq request.model_id gpu_product_model_id)
      then update_status job_id failed
      else if not (wants_training request.training_parameters)
      then update_status job_id failed
      else finish (invoke_isolated_process environ (envelope_of job_id request)) job_id request

  -- `IsolatedGpuWorker.run_job`
  unfoldable pub run_job : Dict String → String → Action TrainingJobRecord
  unfolding work
  run_job environ job_id = run_with job_id (work environ job_id)
