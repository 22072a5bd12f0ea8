-- ===== src/Base/Lists.antt =====
-- Lists measured by native numbers, Boolean searches over them, and predicates of all members.
use Prim.Native.Nat.{ℕ, suc, ◌+◌, ◌≤◌}
use mathlib.Core.Path.{◌≡◌, refl}
use mathlib.Core.Bool.{Bool, true, false, ◌&&◌, ◌||◌}
use mathlib.Core.List.{List, [], ◌∷◌, ◌++◌}
use mathlib.Core.Option.{Option, none, some}
use native.Mathlib.Omega.{arith}
use scooling_lab.Base.Tests.{if◌then◌else◌}

module _ {ℓ} {A : Type ℓ} where
  abbrev pub length : List A → ℕ
  length [] = 0
  length (x ∷ xs) = suc (length xs)

  -- `any(...)` and `all(...)` over a generator
  abbrev pub any : (A → Bool) → List A → Bool
  any p [] = false
  any p (x ∷ xs) = p x || any p xs

  abbrev pub all : (A → Bool) → List A → Bool
  all p [] = true
  all p (x ∷ xs) = p x && all p xs

  -- `sum(1 for x in xs if p(x))`
  abbrev pub count_if : (A → Bool) → List A → ℕ
  count_if p [] = 0
  count_if p (x ∷ xs) = let rest = count_if p xs in if p x then suc rest else rest

  -- `next((x for x in xs if p(x)), None)`
  abbrev pub find_first : (A → Bool) → List A → Option A
  find_first p [] = none
  find_first p (x ∷ xs) = let rest = find_first p xs in if p x then some x else rest

  abbrev pub All {κ} : (A → Type κ) → List A → Type κ
  All P [] = Unit
  All P (x ∷ xs) = P x × All P xs

  pub count_if-le-length : (p : A → Bool) (xs : List A) → count_if p xs ≤ length xs
  count_if-le-length p [] = omega arith
  count_if-le-length p (x ∷ xs) = ground (arith, count_if-le-length p xs)

  pub count_if-append :
      (p : A → Bool) (xs ys : List A) → count_if p (xs ++ ys) ≡ count_if p xs + count_if p ys
  count_if-append p [] ys = omega arith
  count_if-append p (x ∷ xs) ys = ground (arith, count_if-append p xs ys)

  pub length-append : (xs ys : List A) → length (xs ++ ys) ≡ length xs + length ys
  length-append [] ys = omega arith
  length-append (x ∷ xs) ys = omega (arith, length-append xs ys)

  pub all-append : (p : A → Bool) (xs ys : List A) → all p (xs ++ ys) ≡ (all p xs && all p ys)
  all-append p [] ys = refl
  all-append p (x ∷ xs) ys = ground (arith, all-append p xs ys)
