-- ===== src/Base/Cuts.antt =====
-- Text that is cut at its start or its end: the laws of prefixes, suffixes and concatenation.
use Prim.Native.Nat.{ℕ, zero, suc, ◌+◌, ◌≤◌}
use Prim.Native.Char.{Char}
use Prim.Native.String.{String, ◌++◌}
use Prim.Native.String.append
use mathlib.Core.Path.{◌≡◌, refl, sym, ap, ◌∙◌}
use mathlib.Core.Logic.{inl, inr}
use mathlib.Core.Bool.{Bool, true, false, ◌||◌}
use native.Mathlib.Omega.{arith}
use text.Mathlib.TextEquality.{eq_iff}
use text.Mathlib.TextPositions.{eq_refl}
use scooling_lab.Base.Lists.{length, any}
use scooling_lab.Base.Tests.{str_eq, Bool-cases}
use scooling_lab.Base.Texts.{codes, prefix, drop, ends_with, remove_suffix}

pub length-append_text :
    (s t : String) → length (codes (s ++ t)) ≡ length (codes s) + length (codes t)
length-append_text String.[] t = omega (arith, ap (λ x. length (codes x)) (append.nil t))
length-append_text (String.◌∷◌ c s) t =
    rw (append.cons c s t) (omega (arith, length-append_text s t))

pub append_empty : (s : String) → s ++ "" ≡ s
append_empty String.[] = append.nil ""
append_empty (String.◌∷◌ c s) = append.cons c s "" ∙ ap (String.◌∷◌ c) (append_empty s)

-- A character is in a concatenation if it is in one of the two texts.
pub any-append_text :
    (q : ℕ → Bool) (s t : String) → any q (codes (s ++ t)) ≡ (any q (codes s) || any q (codes t))
any-append_text q String.[] t = ap (λ x. any q (codes x)) (append.nil t)
any-append_text q (String.◌∷◌ c s) t =
    rw (append.cons c s t) (ground (arith, any-append_text q s t))

-- A text is its first characters and the rest.
pub prefix-drop : (n : ℕ) (s : String) → prefix n s ++ drop n s ≡ s
prefix-drop zero s = append.nil s
prefix-drop (suc n) String.[] = append.nil ""
prefix-drop (suc n) (String.◌∷◌ c s) =
    append.cons c (prefix n s) (drop n s) ∙ ap (String.◌∷◌ c) (prefix-drop n s)

pub prefix-append : (head rest : String) → prefix (length (codes head)) (head ++ rest) ≡ head
prefix-append String.[] rest = refl
prefix-append (String.◌∷◌ c head) rest =
    rw (append.cons c head rest) (ap (String.◌∷◌ c) (prefix-append head rest))

pub drop-append : (head rest : String) → drop (length (codes head)) (head ++ rest) ≡ rest
drop-append String.[] rest = append.nil rest
drop-append (String.◌∷◌ c head) rest = rw (append.cons c head rest) (drop-append head rest)

-- A text that ends with another is the rest and the ending.
pub ends_with-split : (s t : String) → ends_with s t ≡ true → s ≡ remove_suffix s t ++ t
ends_with-split String.[] t h = (eq_iff "" t).0 h ∙ sym (append.nil t)
ends_with-split (String.◌∷◌ c s) t h = elim (Bool-cases (str_eq (String.◌∷◌ c s) t)) [
  | inl e ↦ rw e ((eq_iff (String.◌∷◌ c s) t).0 e ∙ sym (append.nil t))
  | inr e ↦ rw e (
      ap (String.◌∷◌ c) (ends_with-split s t (rw e at h))
      ∙ sym (append.cons c (remove_suffix s t) t))
]

-- A longer text is another one.
longer : (c : Char) (s t : String) → str_eq (String.◌∷◌ c s ++ t) t ≡ false
longer c s t = elim (Bool-cases (str_eq (String.◌∷◌ c s ++ t) t)) [
  | inr h ↦ h
  | inl h ↦
      let same = ap (λ x. length (codes x)) ((eq_iff (String.◌∷◌ c s ++ t) t).0 h) in
      let bad : 1 ≤ 0 = omega (arith, length-append_text (String.◌∷◌ c s) t, same) in
      ground (arith, bad)
]

pub ends_with_refl : (t : String) → ends_with t t ≡ true
ends_with_refl String.[] = refl
ends_with_refl (String.◌∷◌ c t) = rw (eq_refl (String.◌∷◌ c t)) refl

remove_suffix_refl : (t : String) → remove_suffix t t ≡ ""
remove_suffix_refl String.[] = refl
remove_suffix_refl (String.◌∷◌ c t) = rw (eq_refl (String.◌∷◌ c t)) refl

pub ends_with-append : (s t : String) → ends_with (s ++ t) t ≡ true
ends_with-append String.[] t = rw (append.nil t) (ends_with_refl t)
ends_with-append (String.◌∷◌ c s) t = rw (append.cons c s t) (ground (arith, ends_with-append s t))

pub remove_suffix-append : (s t : String) → remove_suffix (s ++ t) t ≡ s
remove_suffix-append String.[] t = rw (append.nil t) (remove_suffix_refl t)
remove_suffix-append (String.◌∷◌ c s) t =
    let other : str_eq (String.◌∷◌ c (s ++ t)) t ≡ false =
      sym (ap (λ x. str_eq x t) (append.cons c s t)) ∙ longer c s t in
    rw (append.cons c s t) (rw other (ap (String.◌∷◌ c) (remove_suffix-append s t)))
