-- ===== src/Contracts/Parameters/Accepted.antt =====
-- contracts.py: what accepted training parameters are.
use scooling_lab.Base.{
  ℕ, String, pos, Bool, true, false, ◌&&◌, ◌||◌, Option, none, some, leb, str_eq, ◌≡◌, refl, arith,
  Bool-cases, inl, inr, ◌≤◌, subst, Option-cases,
}
use scooling_lab.Errors.{ok, err, api, validation_error, overflow_error, >>=-eq-ok, ok-injective}
use scooling_lab.Json.{Value, Float, bool, int, float, obj, Fields, end, get}
use scooling_lab.Platform.{Platform}
use scooling_lab.Contracts.Parameters.{
  in_unit_interval, with_entry, check_epochs, epochs_entry, check_learning_rate,
  learning_rate_value, learning_rate_entry, check_dry_run, dry_run_entry, collect_parameters,
  validate_training_parameters,
}

-- The modes that the code passes.
abbrev pub IsMode : String → Type 0
IsMode mode = (str_eq mode "wave_a" || str_eq mode "gpu") ≡ true

-- A field of accepted parameters, each with what it may hold.
pub data EpochsField : Option Value → Type 0 where
  without : EpochsField none
  with_epochs : (n : ℕ) → 1 ≤ n → n ≤ 3 → EpochsField (some (int (pos n)))

pub data RateField : Option Value → Type 0 where
  without : RateField none
  with_rate : (x : Float) → in_unit_interval x ≡ true → RateField (some (float x))

-- `dryRun` is false for a GPU job; else it is true, and present where it is required.
pub data DryRunField (mode : String) (required : Bool) : Option Value → Type 0 where
  gpu_run : str_eq mode "gpu" ≡ true → DryRunField mode required (some (bool false))
  dry_run : str_eq mode "gpu" ≡ false → DryRunField mode required (some (bool true))
  without : str_eq mode "gpu" ≡ false → required ≡ false → DryRunField mode required none

-- Accepted parameters: at most the three known fields, in the order of the code, each in range.
pub data IsAccepted (mode : String) (required : Bool) : Fields → Type 0 where
  accepted :
      {e r d : Option Value}
      → EpochsField e
      → RateField r
      → DryRunField mode required d
      → IsAccepted mode required
          (with_entry "epochs" e (with_entry "learningRate" r (with_entry "dryRun" d end)))

check_epochs-EpochsField : (v : Value) {o : Option Value} → check_epochs v ≡ ok o → EpochsField o
unfolding check_epochs
check_epochs-EpochsField (int (pos n)) h = elim (Bool-cases (leb 1 n && leb n 3)) [
  | inl e ↦
      subst EpochsField (ok-injective (rw e at h)) (with_epochs n (ground arith) (ground arith))
  | inr e ↦ let bad : err (api validation_error 400) ≡ ok _ = rw e at h in cc
]
check_epochs-EpochsField _ h = cc

epochs_entry-EpochsField : (fs : Fields) {o : Option Value} → epochs_entry fs ≡ ok o → EpochsField o
unfolding epochs_entry
epochs_entry-EpochsField fs h = elim (Option-cases (get "epochs" fs)) [
  | inl e ↦ subst EpochsField (ok-injective (rw (e, epochs_entry) at h)) without
  | inr (v, e) ↦ check_epochs-EpochsField v (rw (e, epochs_entry) at h)
]

check_learning_rate-RateField :
    (x : Float) {o : Option Value} → check_learning_rate x ≡ ok o → RateField o
unfolding check_learning_rate
check_learning_rate-RateField x h = elim (Bool-cases (in_unit_interval x)) [
  | inl e ↦ subst RateField (ok-injective (rw e at h)) (with_rate x e)
  | inr e ↦ let bad : err (api validation_error 400) ≡ ok _ = rw e at h in cc
]

check_dry_run-true :
    (v : Value) {o : Option Value} → check_dry_run true v ≡ ok o → some (bool true) ≡ o
unfolding check_dry_run
check_dry_run-true (bool true) h = cc
check_dry_run-true (bool false) h = cc
check_dry_run-true _ h = cc

check_dry_run-false :
    (v : Value) {o : Option Value} → check_dry_run false v ≡ ok o → some (bool false) ≡ o
unfolding check_dry_run
check_dry_run-false (bool true) h = cc
check_dry_run-false (bool false) h = cc
check_dry_run-false _ h = cc

dry_run_absent :
    (mode : String) (required : Bool) (fs : Fields) {o : Option Value}
    → str_eq mode "gpu" ≡ false
    → get "dryRun" fs ≡ none
    → dry_run_entry mode required fs ≡ ok o
    → DryRunField mode required o
unfolding dry_run_entry
dry_run_absent mode true fs g e h =
    let bad : err (api validation_error 400) ≡ ok _ = rw (g, e) at h in cc
dry_run_absent mode false fs g e h =
    subst (DryRunField mode false) (ok-injective (rw (g, e) at h)) (without g refl)

dry_run_entry-DryRunField :
    (mode : String) (required : Bool) (fs : Fields) {o : Option Value}
    → dry_run_entry mode required fs ≡ ok o
    → DryRunField mode required o
unfolding dry_run_entry
dry_run_entry-DryRunField mode required fs h = elim (Bool-cases (str_eq mode "gpu")) [
  | inl g ↦ elim (Option-cases (get "dryRun" fs)) [
    | inl e ↦ let bad : err (api validation_error 400) ≡ ok _ = rw (g, e, dry_run_entry) at h in cc
    | inr (v, e) ↦
        subst (DryRunField mode required) (check_dry_run-false v (rw (g, e, dry_run_entry) at h))
          (gpu_run g)
  ]
  | inr g ↦ elim (Option-cases (get "dryRun" fs)) [
    | inl e ↦ dry_run_absent mode required fs g e h
    | inr (v, e) ↦
        subst (DryRunField mode required) (check_dry_run-true v (rw (g, e, dry_run_entry) at h))
          (dry_run g)
  ]
]

module _ ⦃p : Platform⦄ where
  learning_rate_value-RateField :
      (v : Value) {o : Option Value} → learning_rate_value v ≡ ok o → RateField o
  unfolding learning_rate_value
  learning_rate_value-RateField (float x) h = check_learning_rate-RateField x h
  learning_rate_value-RateField (int n) h = elim (Option-cases (p.float_of_int n)) [
    | inl e ↦ let bad : err overflow_error ≡ ok _ = rw (e, learning_rate_value) at h in cc
    | inr (x, e) ↦ check_learning_rate-RateField x (rw (e, learning_rate_value) at h)
  ]
  learning_rate_value-RateField _ h = cc

  learning_rate_entry-RateField :
      (fs : Fields) {o : Option Value} → learning_rate_entry fs ≡ ok o → RateField o
  unfolding learning_rate_entry
  learning_rate_entry-RateField fs h = elim (Option-cases (get "learningRate" fs)) [
    | inl e ↦ subst RateField (ok-injective (rw (e, learning_rate_entry) at h)) without
    | inr (v, e) ↦ learning_rate_value-RateField v (rw (e, learning_rate_entry) at h)
  ]

  collect_parameters-IsAccepted :
      (given : Fields) (required : Bool) (mode : String) {fs : Fields}
      → collect_parameters given required mode ≡ ok fs
      → IsAccepted mode required fs
  unfolding collect_parameters
  collect_parameters-IsAccepted given required mode h =
      let (e, he, h1) = >>=-eq-ok (epochs_entry given) _ h in
      let (r, hr, h2) = >>=-eq-ok (learning_rate_entry given) _ h1 in
      let (d, hd, h3) = >>=-eq-ok (dry_run_entry mode required given) _ h2 in
      subst (IsAccepted mode required) (ok-injective h3) (
        accepted (epochs_entry-EpochsField given he) (learning_rate_entry-RateField given hr)
          (dry_run_entry-DryRunField mode required given hd))

  mapping_of :
      (v : Value) (required : Bool) (mode : String) {fs : Fields}
      → validate_training_parameters v required mode ≡ ok fs
      → (given : Fields) × (collect_parameters given required mode ≡ ok fs)
  unfolding validate_training_parameters
  mapping_of (obj given) required mode h = (given, ground arith)
  mapping_of _ required mode h = absurd (ground arith)

  -- Whatever value a request holds, the parameters that the validation returns are the known
  -- fields, each in its range: epochs from 1 to 3, a learning rate in (0, 1], and the dryRun
  -- that the mode asks for.
  pub validate_training_parameters-IsAccepted :
      (v : Value) (required : Bool) (mode : String) {fs : Fields}
      → validate_training_parameters v required mode ≡ ok fs
      → IsAccepted mode required fs
  validate_training_parameters-IsAccepted v required mode h =
      let (given, collected) = mapping_of v required mode h in
      collect_parameters-IsAccepted given required mode collected
