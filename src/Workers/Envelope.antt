-- ===== src/Workers/Envelope.antt =====
-- gpu_worker.py: what the worker process checks of the envelope that it is given, the bounds that it
-- puts on the training parameters, and the time that the service gives it.
use scooling_lab.Base.{
  ℕ, ◌*◌, ◌^◌, ℤ, pos, leb_ℤ, ltb_ℤ, String, Bool, true, false, none, some, str_eq, not, Dict,
  lookup, if◌then◌else◌,
}
use scooling_lab.Codec.{Codec}
use scooling_lab.Errors.{
  Result, ok, err, api, validation_error, overflow_error, ◌>>=◌, ◌>>◌, raise_if,
}
use scooling_lab.Json.{
  Value, Float, finite, infinity, minus_infinity, nan, bool, int, float, str, obj, Fields, end,
  field, get, get_or, get_or_null,
}
use scooling_lab.Platform.{Platform}
use scooling_lab.Contracts.Identifiers.{is_own_data_dataset_id}
use scooling_lab.Contracts.Request.{gpu_product_model_id}

-- `max(30, value)` of the text in the environment, or an hour
unfoldable pub gpu_worker_timeout_seconds : ⦃c : Codec⦄ → Dict String → ℤ
gpu_worker_timeout_seconds ⦃c⦄ environ = elim (lookup "SCOOLING_LAB_GPU_TIMEOUT_SECONDS" environ) [
  | none ↦ pos 3600
  | some raw ↦ elim (c.parse_int raw) [
    | none ↦ pos 3600
    | some value ↦ if leb_ℤ value (pos 30) then pos 30 else value
  ]
]

-- 2e-4, 1e-5 and 5e-4 in the units of `Float`
unfoldable pub default_learning_rate : Float
default_learning_rate = finite (pos (7_378_697_629_483_821 * 2 ^ 1009))

unfoldable pub min_learning_rate : ℕ
min_learning_rate = 5_902_958_103_587_057 * 2 ^ 1005

unfoldable pub max_learning_rate : ℕ
max_learning_rate = 4_611_686_018_427_388 * 2 ^ 1011

-- `max(MIN_EPOCHS, min(MAX_EPOCHS, epochs_raw))`
unfoldable pub clamp_epochs : ℤ → ℤ
clamp_epochs n =
    let low = if ltb_ℤ n (pos 3) then n else pos 3 in if ltb_ℤ (pos 1) low then low else pos 1

-- `epochs_raw`, with the default for what is no `int`
unfoldable pub epochs_raw : Value → ℤ
epochs_raw (int n) = n
epochs_raw _ = pos 1

-- `max(MIN_LEARNING_RATE, min(MAX_LEARNING_RATE, x))`: a comparison with a NaN is false
unfoldable pub clamp_learning_rate : Float → Float
clamp_learning_rate (finite n) =
    let low = if ltb_ℤ n (pos max_learning_rate) then n else pos max_learning_rate in
    if ltb_ℤ (pos min_learning_rate) low then finite low else finite (pos min_learning_rate)
clamp_learning_rate infinity = finite (pos max_learning_rate)
clamp_learning_rate minus_infinity = finite (pos min_learning_rate)
clamp_learning_rate nan = finite (pos max_learning_rate)

-- `float(lr_raw)`, with the default for what is no number
unfoldable pub learning_rate_raw : ⦃p : Platform⦄ → Value → Result Float
learning_rate_raw (float x) = ok x
learning_rate_raw ⦃p⦄ (int n) = elim (p.float_of_int n) [
  | none ↦ err overflow_error
  | some x ↦ ok x
]
learning_rate_raw _ = ok default_learning_rate

unfoldable pub clamp_training_parameters : ⦃p : Platform⦄ → Fields → Result Fields
unfolding clamp_epochs epochs_raw clamp_learning_rate learning_rate_raw
clamp_training_parameters given =
    let epochs = clamp_epochs (epochs_raw (get_or "epochs" (int (pos 1)) given)) in
    learning_rate_raw (get_or "learningRate" (float default_learning_rate) given) >>= λ x. ok (
      field "dryRun" (bool false)
        (field "epochs" (int epochs) (field "learningRate" (float (clamp_learning_rate x)) end)))

-- the arguments of `run_training`
pub record TrainingCall : Type 0 where
  pub job_id : String
  pub dataset_id : String
  pub model_id : String
  pub training_parameters : Fields
  pub retention_policy : Fields

abbrev text_of : Value → Result String
text_of (str s) = ok s
text_of _ = err (api validation_error 400)

abbrev mapping_of : Value → Result Fields
mapping_of (obj fs) = ok fs
mapping_of _ = err (api validation_error 400)

-- `training_parameters.get("dryRun") is not False`
unfoldable pub wants_training : Fields → Bool
wants_training fs = elim (get "dryRun" fs) [ some (bool false) ↦ true | _ ↦ false ]

-- the loop over `training_parameters.items()`
unfoldable pub check_numbers : Fields → Result (Unit {0})
check_numbers end = ok tt
check_numbers (field k (int n) fs) = check_numbers fs
check_numbers (field k (float x) fs) = check_numbers fs
check_numbers (field k (bool b) fs) = check_numbers fs
check_numbers (field k v fs) = err (api validation_error 400)

-- `execute_gpu_worker_envelope`, up to the call of `run_training`
unfoldable pub validate_envelope : Fields → Result TrainingCall
unfolding wants_training check_numbers
validate_envelope envelope = do
  job_id ← text_of (get_or_null "jobId" envelope)
  model_id ← text_of (get_or_null "modelId" envelope)
  dataset_id ← text_of (get_or_null "datasetId" envelope)
  raise_if (not (is_own_data_dataset_id dataset_id)) (api validation_error 400)
  raise_if (not (str_eq model_id gpu_product_model_id)) (api validation_error 400)
  training_parameters ← mapping_of (get_or_null "trainingParameters" envelope)
  raise_if (not (wants_training training_parameters)) (api validation_error 400)
  retention_policy ← mapping_of (get_or_null "retentionPolicy" envelope)
  check_numbers training_parameters
  ok (record {
    job_id = job_id;
    dataset_id = dataset_id;
    model_id = model_id;
    training_parameters = training_parameters;
    retention_policy = retention_policy;
  })
