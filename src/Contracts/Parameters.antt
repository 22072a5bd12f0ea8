-- ===== src/Contracts/Parameters.antt =====
-- contracts.py: the bounded training parameters of the two job shapes.
pub mod Accepted
pub mod Again
use scooling_lab.Base.{
  ℕ, ◌^◌, String, ℤ, pos, Bool, true, false, ◌&&◌, ◌||◌, List, [], ◌∷◌, Option, none, some, leb,
  str_eq, if◌then◌else◌, not,
}
use scooling_lab.Errors.{
  Result, ok, err, api, validation_error, overflow_error, ◌>>=◌, ◌>>◌, raise_if,
}
use scooling_lab.Json.{
  Value, Float, finite, bool, int, float, obj, Fields, end, field, get, keys_within,
}
use scooling_lab.Platform.{Platform}

-- 1.0 in the units of `Float`
unfoldable pub one_units : ℕ
one_units = 2 ^ 1074

-- `0 < x <= 1`
unfoldable pub in_unit_interval : Float → Bool
in_unit_interval (finite (pos k)) = leb 1 k && leb k one_units
in_unit_interval _ = false

abbrev pub parameter_keys : List String
parameter_keys = "epochs" ∷ "learningRate" ∷ "dryRun" ∷ []

-- A field of the result, where the request has one.
abbrev pub with_entry : String → Option Value → Fields → Fields
with_entry k none fs = fs
with_entry k (some v) fs = field k v fs

unfoldable pub check_epochs : Value → Result (Option Value)
check_epochs (int (pos n)) =
    if leb 1 n && leb n 3 then ok (some (int (pos n))) else err (api validation_error 400)
check_epochs _ = err (api validation_error 400)

unfoldable pub epochs_entry : Fields → Result (Option Value)
epochs_entry fs = elim (get "epochs" fs) [ none ↦ ok none | some v ↦ check_epochs v ]

unfoldable pub check_learning_rate : Float → Result (Option Value)
check_learning_rate x =
    if in_unit_interval x then ok (some (float x)) else err (api validation_error 400)

module _ ⦃p : Platform⦄ where
  -- `float(learning_rate)` of an `int` may overflow
  unfoldable pub learning_rate_value : Value → Result (Option Value)
  learning_rate_value (float x) = check_learning_rate x
  learning_rate_value (int n) = elim (p.float_of_int n) [
    | none ↦ err overflow_error
    | some x ↦ check_learning_rate x
  ]
  learning_rate_value _ = err (api validation_error 400)

  unfoldable pub learning_rate_entry : Fields → Result (Option Value)
  learning_rate_entry fs = elim (get "learningRate" fs) [
    | none ↦ ok none
    | some v ↦ learning_rate_value v
  ]

unfoldable pub check_dry_run : Bool → Value → Result (Option Value)
check_dry_run true (bool true) = ok (some (bool true))
check_dry_run false (bool false) = ok (some (bool false))
check_dry_run wanted _ = err (api validation_error 400)

-- The `gpu` mode requires `false`; the other takes `true`, and requires it for own data.
unfoldable pub dry_run_entry : String → Bool → Fields → Result (Option Value)
dry_run_entry dry_run_mode require_dry_run fs =
    if str_eq dry_run_mode "gpu"
    then elim (get "dryRun" fs) [
      | none ↦ err (api validation_error 400)
      | some v ↦ check_dry_run false v
    ]
    else elim (get "dryRun" fs) [
      | none ↦ if require_dry_run then err (api validation_error 400) else ok none
      | some v ↦ check_dry_run true v
    ]

unfoldable pub require_mapping : Value → Result Fields
require_mapping (obj fs) = ok fs
require_mapping _ = err (api validation_error 400)

-- The fields of the result, each validated where the request has it.
unfoldable pub collect_parameters : ⦃p : Platform⦄ → Fields → Bool → String → Result Fields
collect_parameters fs require_dry_run dry_run_mode = do
  epochs ← epochs_entry fs
  learning_rate ← learning_rate_entry fs
  dry_run ← dry_run_entry dry_run_mode require_dry_run fs
  ok (
      with_entry "epochs" epochs
        (with_entry "learningRate" learning_rate (with_entry "dryRun" dry_run end)))

unfoldable pub validate_training_parameters : ⦃p : Platform⦄ → Value → Bool → String → Result Fields
unfolding require_mapping
validate_training_parameters value require_dry_run dry_run_mode = do
  raise_if (not (str_eq dry_run_mode "wave_a" || str_eq dry_run_mode "gpu"))
      (api validation_error 400)
  fs ← require_mapping value
  raise_if (not (keys_within parameter_keys fs)) (api validation_error 400)
  collect_parameters fs require_dry_run dry_run_mode
