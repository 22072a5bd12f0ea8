-- ===== src/Examples/Workers.antt =====
-- The workers at concrete inputs: one queued job, and a process that prints a result.
use scooling_lab.Base.{
  ℕ, ◌*◌, pos, String, true, false, List, [], ◌∷◌, Option, none, some, ◌≡◌, ◌⊎◌, refl, lookup,
  str_eq, if◌then◌else◌, codes,
}
use scooling_lab.Codec.{Codec, IsCodec}
use scooling_lab.Errors.{Result, ok, err, value_error}
use scooling_lab.Json.{Value, Fields, str, obj, field, end, bool, int, float, finite}
use scooling_lab.Platform.{Platform}
use scooling_lab.StateMachine.{TrainingJobStatus, queued, running, succeeded}
use scooling_lab.Contracts.Request.{TrainingJobRequest}
use scooling_lab.Store.Records.{TrainingJobRecord}
use scooling_lab.Store.State.{TrainingJobStore}
use scooling_lab.Store.Dicts.{IsKeyed}
use scooling_lab.Store.Steps.Lives.{IsConsistent}
use scooling_lab.Contracts.Identifiers.{job_id_re}
use scooling_lab.Base
use scooling_lab.Contracts.Identifiers
use scooling_lab.Json
use scooling_lab.Provenance
use scooling_lab.Retention
use scooling_lab.StateMachine
use scooling_lab.Store.Artifacts
use scooling_lab.Store.Queue
use scooling_lab.Store.State
use scooling_lab.Workers.Completion
use scooling_lab.Workers.Envelope
use scooling_lab.Workers.Fake
use scooling_lab.Workers.Gpu
use scooling_lab.Workers.Gpu.{Process, IsProcess, Completed}
use scooling_lab.Workers.Envelope.{clamp_training_parameters}
use scooling_lab.Workers.Clamping.{IsClamped, clamp_training_parameters-IsClamped}
use scooling_lab.Workers.Registration.{Ends}
use scooling_lab.Workers.Results.{IsLeft, fake-run_job-Ends, gpu-run_job-Ends}
use scooling_lab.Examples.Demo.{demo, demo_request}

abbrev hash : String
hash = "0123456789abcdef0123456789abcdef0123456789abcdef0123456789abcdef"

abbrev hashing : Platform
hashing = record demo { sha256_hex = λ s. hash }

abbrev job_id : String
job_id = "job_0123456789abcdef01234567"

abbrev waiting : TrainingJobRequest → TrainingJobRecord
waiting request = record {
  id = job_id;
  request = some request;
  status = queued;
  created_at = "Z";
  updated_at = "Z";
  artifacts = [];
  provenance = none;
  deleted_at = none;
  retry_of_job_id = none;
}

abbrev store : TrainingJobRequest → TrainingJobStore
store request = record {
  jobs = (job_id, waiting request) ∷ [];
  has_persistence_path = false;
  file = none;
  queue_limit = 2;
  max_concurrent_running = 1;
  on_storage_delete = none;
  storage_deletes = [];
  clock = λ n. n * 1_000_000;
  readings = 0;
}

store-IsKeyed : (request : TrainingJobRequest) → IsKeyed (store request).jobs
unfolding lookup
store-IsKeyed request = (refl, refl, tt)

abbrev gpu_request : TrainingJobRequest
gpu_request = record demo_request {
  dataset_id = "own:notes";
  model_id = "scooling-lab-gpu-personal-v1";
  training_parameters = field "epochs" (int (pos 2)) (field "dryRun" (bool false) end);
}

abbrev printed : Value
printed = obj (
    field "artifactHash" (str hash) (
      field "baseModelId" (str "scooling-lab-gpu-personal-v1") (
        field "datasetHash" (str hash)
          (field "jobId" (str job_id) (field "trainingConfigHash" (str hash) end)))))

abbrev codec : Codec
codec = record {
  json_loads = λ text. ok printed;
  parse_int = λ text. none;
  utf8_encode = codes;
  utf8_decode = λ bytes. none;
  urlsafe_b64encode = λ bytes. "";
  urlsafe_b64decode = λ text. none;
  hmac_sha256 = λ key message. key;
}

abbrev pub process : Process
process = record {
  run_process = λ env limit input. ok (record { is_success = true; stdout = "{}" });
  src_root = "src";
  pathsep = ":";
}

process-IsProcess : IsProcess process
process-IsProcess = record { raises = λ env limit input e h. cc h }

abbrev status_of : Result TrainingJobRecord → Option TrainingJobStatus
status_of (ok r) = some r.status
status_of (err e) = none

fake_succeeds :
    status_of (Fake.run_job ⦃p = hashing⦄ "rows" job_id (store demo_request)).0 ≡ some succeeded
unfolding Fake.run_job Fake.work Fake.provenance Fake.fixture_dataset_hash
    Fake.placeholder_artifact_hash Fake.training_config_hash Completion.run_with State.get lookup
    Queue.update_status StateMachine.transition Queue.update_to Queue.change_status State.save
    Base.insert Completion.complete_now Provenance.validate_provenance_record
    Provenance.validate_provenance_mapping Json.keys_within Provenance.to_dict Json.get
    Provenance.check_texts Identifiers.artifact_id_re Identifiers.is_hex_char
    Identifiers.is_identifier_char Identifiers.is_name_char Identifiers.job_id_re
    Identifiers.prefix_re Identifiers.repeat_re Identifiers.require_artifact_id
    Identifiers.require_job_id Identifiers.safe_identifier_re Identifiers.search_re
    Provenance.check_timestamp Provenance.hash_re Provenance.unsafe_free_text_re
    Retention.parse_utc_timestamp Retention.utc_timestamp StateMachine.transition_table
    Artifacts.append_artifact Artifacts.register_artifact Queue.promote_one Queue.promote_queued
    Queue.promote_rounds State.can_run_now State.running_count Completion.artifact_of
    Completion.complete Completion.complete_checked Completion.start demo
fake_succeeds = refl

gpu_succeeds :
    status_of (Gpu.run_job ⦃p = hashing⦄ ⦃c = codec⦄ ⦃q = process⦄ [] job_id (store gpu_request)).0
    ≡ some succeeded
unfolding Gpu.run_job Gpu.work Gpu.finish Gpu.provenance Gpu.invoke_isolated_process Gpu.read_output
    Gpu.read_result Gpu.text_at Envelope.wants_training Completion.run_with State.get lookup
    Queue.update_status StateMachine.transition Queue.update_to Queue.change_status State.save
    Base.insert Completion.complete_now Provenance.validate_provenance_record
    Provenance.validate_provenance_mapping Json.keys_within Provenance.to_dict Json.get
    Provenance.check_texts Identifiers.artifact_id_re Identifiers.is_hex_char
    Identifiers.is_identifier_char Identifiers.is_name_char Identifiers.job_id_re
    Identifiers.prefix_re Identifiers.repeat_re Identifiers.require_artifact_id
    Identifiers.require_job_id Identifiers.safe_identifier_re Identifiers.search_re
    Provenance.check_timestamp Provenance.hash_re Provenance.unsafe_free_text_re
    Retention.parse_utc_timestamp Retention.utc_timestamp StateMachine.transition_table
    Artifacts.append_artifact Artifacts.register_artifact Queue.promote_one Queue.promote_queued
    Queue.promote_rounds State.can_run_now State.running_count Completion.artifact_of
    Completion.complete Completion.complete_checked Completion.start demo
gpu_succeeds = refl

-- output that is not UTF-8
abbrev undecodable : Process
undecodable = record {
  run_process = λ env limit input. err value_error;
  src_root = "src";
  pathsep = ":";
}

abbrev left_run : Result TrainingJobRecord × TrainingJobStore
left_run = Gpu.run_job ⦃p = hashing⦄ ⦃c = codec⦄ ⦃q = undecodable⦄ [] job_id (store gpu_request)

abbrev status_at : Option TrainingJobRecord → Option TrainingJobStatus
status_at none = none
status_at (some r) = some r.status

gpu_left :
    (left_run.0 ≡ err value_error) × (status_at (lookup job_id left_run.1.jobs) ≡ some running)
unfolding Gpu.run_job Gpu.work Gpu.finish Gpu.provenance Gpu.invoke_isolated_process Gpu.read_output
    Gpu.read_result Gpu.text_at Envelope.wants_training Completion.run_with State.get lookup
    Queue.update_status StateMachine.transition Queue.update_to Queue.change_status State.save
    Base.insert Completion.complete_now Provenance.validate_provenance_record
    Provenance.validate_provenance_mapping Json.keys_within Provenance.to_dict Json.get
    Provenance.check_texts Identifiers.artifact_id_re Identifiers.is_hex_char
    Identifiers.is_identifier_char Identifiers.is_name_char Identifiers.job_id_re
    Identifiers.prefix_re Identifiers.repeat_re Identifiers.require_artifact_id
    Identifiers.require_job_id Identifiers.safe_identifier_re Identifiers.search_re
    Provenance.check_timestamp Provenance.hash_re Provenance.unsafe_free_text_re
    Retention.parse_utc_timestamp Retention.utc_timestamp StateMachine.transition_table
    Artifacts.append_artifact Artifacts.register_artifact Queue.promote_one Queue.promote_queued
    Queue.promote_rounds State.can_run_now State.running_count Completion.artifact_of
    Completion.complete Completion.complete_checked Completion.start demo
gpu_left = (refl, refl)

there : (request : TrainingJobRequest) → lookup job_id (store request).jobs ≡ some (waiting request)
unfolding lookup
there request = refl

sound : (request : TrainingJobRequest) → IsConsistent (waiting request)
unfolding IsConsistent
sound request = (refl, refl)

id_ok : job_id_re job_id ≡ true
unfolding job_id_re Identifiers.prefix_re Identifiers.repeat_re Identifiers.is_hex_char
id_ok = refl

fake-run_job-Ends_example :
    Ends job_id (Fake.run_job ⦃p = hashing⦄ "rows" job_id (store demo_request))
fake-run_job-Ends_example =
    fake-run_job-Ends ⦃p = hashing⦄ "rows" job_id (waiting demo_request) (store demo_request)
      (store-IsKeyed demo_request) refl id_ok (there demo_request) (sound demo_request)

codec-IsCodec : IsCodec codec
codec-IsCodec = record { raises = λ text e h. cc h }

abbrev gpu_run : Result TrainingJobRecord × TrainingJobStore
gpu_run = Gpu.run_job ⦃p = hashing⦄ ⦃c = codec⦄ ⦃q = process⦄ [] job_id (store gpu_request)

gpu-run_job-Ends_example :
    Ends job_id gpu_run ⊎ IsLeft ⦃p = hashing⦄ ⦃c = codec⦄ ⦃process = process⦄ [] job_id gpu_run
gpu-run_job-Ends_example =
    gpu-run_job-Ends ⦃p = hashing⦄ ⦃c = codec⦄ ⦃process = process⦄ [] job_id (waiting gpu_request)
      (store gpu_request) process-IsProcess codec-IsCodec (store-IsKeyed gpu_request) refl id_ok
      (there gpu_request) (sound gpu_request)

abbrev asked : Fields
asked = field "epochs" (int (pos 9)) (field "learningRate" (float (finite (pos 1))) end)

abbrev bounded : Fields
bounded = field "dryRun" (bool false) (
    field "epochs" (int (pos 3))
      (field "learningRate" (float (finite (pos Envelope.min_learning_rate))) end))

clamps : clamp_training_parameters ⦃p = hashing⦄ asked ≡ ok bounded
unfolding clamp_training_parameters Json.get Envelope.min_learning_rate Envelope.max_learning_rate
clamps = refl

clamp_training_parameters-IsClamped_example : IsClamped bounded
clamp_training_parameters-IsClamped_example =
    clamp_training_parameters-IsClamped ⦃p = hashing⦄ asked bounded clamps
