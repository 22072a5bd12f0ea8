-- ===== src/Contracts/Parameters/Again.antt =====
-- contracts.py: accepted training parameters are accepted again, unchanged.
use scooling_lab.Base.{
  String, pos, Bool, true, false, Option, none, some, str_eq, ◌≡◌, ◌∙◌, refl, arith, eq_refl,
}
use scooling_lab.Errors.{ok}
use scooling_lab.Json.{Value, int, float, obj, Fields, end, field, get, keys_within}
use scooling_lab.Platform.{Platform}
use scooling_lab.Contracts.Parameters.{
  with_entry, check_epochs, epochs_entry, check_learning_rate, learning_rate_value,
  learning_rate_entry, check_dry_run, dry_run_entry, collect_parameters,
  validate_training_parameters, parameter_keys,
}
use scooling_lab.Contracts.Parameters.Accepted.{
  IsMode, EpochsField, with_epochs, RateField, with_rate, DryRunField, gpu_run, dry_run, without,
  IsAccepted, accepted,
}

get-field_self : (k : String) (v : Value) (fs : Fields) → get k (field k v fs) ≡ some v
unfolding get
get-field_self k v fs = rw (eq_refl k)

get-with_entry_ne :
    (j k : String) (o : Option Value) (fs : Fields)
    → str_eq j k ≡ false
    → get k (with_entry j o fs) ≡ get k fs
unfolding get
get-with_entry_ne j k none fs h = refl
get-with_entry_ne j k (some v) fs h = rw h

module _ ⦃p : Platform⦄ where
  epochs_entry_again :
      {o : Option Value} (fs : Fields)
      → EpochsField o
      → get "epochs" fs ≡ none
      → epochs_entry (with_entry "epochs" o fs) ≡ ok o
  unfolding epochs_entry check_epochs
  epochs_entry_again fs without h = rw (h, epochs_entry)
  epochs_entry_again fs (with_epochs n a b) h =
      rw (get-field_self "epochs" (int (pos n)) fs, epochs_entry) (ground arith)

  learning_rate_entry_again :
      {o : Option Value} (fs : Fields)
      → RateField o
      → get "learningRate" fs ≡ none
      → learning_rate_entry (with_entry "learningRate" o fs) ≡ ok o
  unfolding learning_rate_entry learning_rate_value check_learning_rate
  learning_rate_entry_again fs without h = rw (h, learning_rate_entry)
  learning_rate_entry_again fs (with_rate x a) h =
      rw (get-field_self "learningRate" (float x) fs, learning_rate_entry) (rw a)

  dry_run_entry_again :
      {o : Option Value} (required : Bool) (mode : String)
      → DryRunField mode required o
      → dry_run_entry mode required (with_entry "dryRun" o end) ≡ ok o
  unfolding dry_run_entry check_dry_run get
  dry_run_entry_again required mode (gpu_run g) = rw g
  dry_run_entry_again required mode (dry_run g) = rw g
  dry_run_entry_again required mode (without g r) = rw g (rw r)

  learning_rate_entry_ne :
      (e : Option Value) (fs : Fields)
      → learning_rate_entry (with_entry "epochs" e fs) ≡ learning_rate_entry fs
  unfolding learning_rate_entry
  learning_rate_entry_ne e fs =
      rw (get-with_entry_ne "epochs" "learningRate" e fs refl, learning_rate_entry)

  dry_run_entry_ne :
      (e r : Option Value) (fs : Fields) (required : Bool) (mode : String)
      → dry_run_entry mode required (with_entry "epochs" e (with_entry "learningRate" r fs))
        ≡ dry_run_entry mode required fs
  unfolding dry_run_entry
  dry_run_entry_ne e r fs required mode = rw (
    get-with_entry_ne "epochs" "dryRun" e (with_entry "learningRate" r fs) refl,
    get-with_entry_ne "learningRate" "dryRun" r fs refl,
    dry_run_entry,
  )

  collect_parameters_again :
      {e r d : Option Value} (required : Bool) (mode : String)
      → EpochsField e
      → RateField r
      → DryRunField mode required d
      → let fs = with_entry "epochs" e (with_entry "learningRate" r (with_entry "dryRun" d end)) in
        collect_parameters fs required mode ≡ ok fs
  unfolding collect_parameters get
  collect_parameters_again {e} {r} {d} required mode he hr hd =
      let tail = with_entry "dryRun" d end in
      let rest = with_entry "learningRate" r tail in
      rw
        (epochs_entry_again rest he (
          get-with_entry_ne "learningRate" "epochs" r tail refl
          ∙ get-with_entry_ne "dryRun" "epochs" d end refl))
        (rw (learning_rate_entry_ne e rest) (
          rw
            (learning_rate_entry_again tail hr
              (get-with_entry_ne "dryRun" "learningRate" d end refl))
            (rw (dry_run_entry_ne e r tail required mode)
              (rw (dry_run_entry_again required mode hd)))))

  keys_within-accepted :
      (e r d : Option Value)
      → keys_within parameter_keys
          (with_entry "epochs" e (with_entry "learningRate" r (with_entry "dryRun" d end)))
        ≡ true
  unfolding keys_within
  keys_within-accepted e r d = ground arith

  -- Accepted parameters are accepted again in the same mode, one of the two that the code
  -- passes, and come back as they were.
  pub validate_training_parameters_again :
      (required : Bool) (mode : String) {fs : Fields}
      → IsMode mode
      → IsAccepted mode required fs
      → validate_training_parameters (obj fs) required mode ≡ ok fs
  unfolding validate_training_parameters
  validate_training_parameters_again required mode m (accepted {e} {r} {d} he hr hd) =
      rw m (rw (keys_within-accepted e r d) (collect_parameters_again required mode he hr hd))
