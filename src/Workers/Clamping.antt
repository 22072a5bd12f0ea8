-- ===== src/Workers/Clamping.antt =====
-- gpu_worker.py: the bounds of the parameters that a GPU job is trained with.
use scooling_lab.Base.{
  ℕ, ◌≤◌, ◌^◌, ◌*◌, ℤ, pos, negsuc, ltb, leb→le, false, ◌≡◌, refl, sym, arith, if◌then◌else◌,
}
use scooling_lab.Errors.{ok, >>=-eq-ok, ok-injective}
use scooling_lab.Json.{
  Float, finite, infinity, minus_infinity, nan, Fields, end, field, bool, int, float, get_or,
}
use scooling_lab.Platform.{Platform}
use scooling_lab.Workers.Envelope.{
  clamp_training_parameters, clamp_epochs, epochs_raw, clamp_learning_rate, learning_rate_raw,
  min_learning_rate, max_learning_rate, default_learning_rate,
}

abbrev bounded : ℕ → ℕ → Fields
bounded e n =
    field "dryRun" (bool false)
      (field "epochs" (int (pos e)) (field "learningRate" (float (finite (pos n))) end))

-- A number of epochs and a learning rate within the bounds of the worker.
unfoldable pub IsClamped : Fields → Type 0
IsClamped fs =
    (e n : ℕ) × (fs ≡ bounded e n)
    × (1 ≤ e)
    × (e ≤ 3)
    × (min_learning_rate ≤ n)
    × (n ≤ max_learning_rate)

bounds_in_order : min_learning_rate ≤ max_learning_rate
unfolding min_learning_rate max_learning_rate
bounds_in_order = leb→le (5_902_958_103_587_057 * 2 ^ 1005) (4_611_686_018_427_388 * 2 ^ 1011) refl

-- `max(low, min(high, n))`
clamp : ℕ → ℕ → ℕ → ℕ
clamp low high n =
    let capped = if ltb n high then n else high in if ltb low capped then capped else low

clamped : (low high n : ℕ) → low ≤ high → (low ≤ clamp low high n) × (clamp low high n ≤ high)
unfolding clamp
clamped low high n h = (ground (arith, h), ground (arith, h))

clamp_epochs-pos : (n : ℕ) → clamp_epochs (pos n) ≡ pos (clamp 1 3 n)
unfolding clamp_epochs clamp
clamp_epochs-pos n = ground arith

clamp_learning_rate-pos :
    (n : ℕ)
    → clamp_learning_rate (finite (pos n))
      ≡ finite (pos (clamp min_learning_rate max_learning_rate n))
unfolding clamp_learning_rate clamp
clamp_learning_rate-pos n = ground arith

clamp_learning_rate-negsuc :
    (n : ℕ) → clamp_learning_rate (finite (negsuc n)) ≡ finite (pos min_learning_rate)
unfolding clamp_learning_rate
clamp_learning_rate-negsuc n = ground arith

negative_epochs : (n : ℕ) → clamp_epochs (negsuc n) ≡ pos 1
unfolding clamp_epochs
negative_epochs n = ground arith

clamped_epochs : (z : ℤ) → (e : ℕ) × (clamp_epochs z ≡ pos e) × (1 ≤ e) × (e ≤ 3)
clamped_epochs (pos k) =
    let (low, high) = clamped 1 3 k (omega arith) in (clamp 1 3 k, clamp_epochs-pos k, low, high)
clamped_epochs (negsuc n) = (1, negative_epochs n, omega arith, omega arith)

clamped_learning_rate :
    (x : Float)
    → (n : ℕ) × (clamp_learning_rate x ≡ finite (pos n))
      × (min_learning_rate ≤ n)
      × (n ≤ max_learning_rate)
unfolding clamp_learning_rate
clamped_learning_rate (finite (pos k)) =
    let (low, high) = clamped min_learning_rate max_learning_rate k bounds_in_order in
    (clamp min_learning_rate max_learning_rate k, clamp_learning_rate-pos k, low, high)
clamped_learning_rate (finite (negsuc k)) =
    (min_learning_rate, clamp_learning_rate-negsuc k, omega arith, bounds_in_order)
clamped_learning_rate infinity = (max_learning_rate, refl, bounds_in_order, omega arith)
clamped_learning_rate minus_infinity = (min_learning_rate, refl, omega arith, bounds_in_order)
clamped_learning_rate nan = (max_learning_rate, refl, bounds_in_order, omega arith)

module _ ⦃p : Platform⦄ where
  -- Whatever parameters the worker is given, those that it trains with are dryRun false, from
  -- 1 to 3 epochs, and a finite learning rate between 1e-5 and 5e-4.
  pub clamp_training_parameters-IsClamped :
      (given out : Fields) → clamp_training_parameters given ≡ ok out → IsClamped out
  unfolding clamp_training_parameters IsClamped
  clamp_training_parameters-IsClamped given out h =
      let (x, _, made) =
        >>=-eq-ok (learning_rate_raw (get_or "learningRate" (float default_learning_rate) given)) _
          h in
      let (e, is_e, e_low, e_high) =
        clamped_epochs (epochs_raw (get_or "epochs" (int (pos 1)) given)) in
      let (n, is_n, low, high) = clamped_learning_rate x in
      (e, n, rw (← is_e, ← is_n) (sym (ok-injective made)), e_low, e_high, low, high)
