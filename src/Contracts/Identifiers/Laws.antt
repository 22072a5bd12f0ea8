-- ===== src/Contracts/Identifiers/Laws.antt =====
-- contracts.py: which identifiers are accepted.
use scooling_lab.Base.{
  ℕ, String, Bool, true, false, List, [], ◌∷◌, ◌++◌, any, all, str_eq, codes, if◌then◌else◌, not,
  ◌≡◌, refl, arith, Bool-cases, inl, inr, eq_iff, true_of_not, subst,
}
use scooling_lab.Errors.{ok, err, api, validation_error, raise_if-ok, ok-injective, >>=-eq-ok}
use scooling_lab.Json.{Value, str}
use scooling_lab.Platform.{Platform}
use scooling_lab.Contracts.Identifiers.{
  Class, matches_seq, search_re, repeat_re, prefix_re, is_name_char, is_identifier_char,
  safe_identifier_re, requester_re, letter, letter_s, letter_i, any_letter, literal, shell_char,
  forbidden_alternatives, forbidden_string_re, require_safe_identifier, require_requester,
  is_own_data_dataset_id, is_allowed_training_dataset_id, require_training_dataset_id,
  fixture_dataset_id,
}

-- A class that no character of `cs` is in, anywhere in an alternative, keeps it from matching.
matches_seq-false :
    (q : Class) (ok_class : Class)
    → ((c : ℕ) → ok_class c ≡ true → q c ≡ false)
    → (ps qs : List Class) (cs : List ℕ) → all ok_class cs ≡ true
    → matches_seq (ps ++ q ∷ qs) cs ≡ false
matches_seq-false q k avoids [] qs [] h = refl
matches_seq-false q k avoids [] qs (c ∷ cs) h = ground (arith, avoids c)
matches_seq-false q k avoids (p ∷ ps) qs [] h = refl
matches_seq-false q k avoids (p ∷ ps) qs (c ∷ cs) h =
    ground (arith, matches_seq-false q k avoids ps qs cs)

no_slash : (c : ℕ) → is_identifier_char c ≡ true → literal b'/' c ≡ false
unfolding is_identifier_char
no_slash c h = ground arith

no_backslash : (c : ℕ) → is_identifier_char c ≡ true → literal b'\\' c ≡ false
unfolding is_identifier_char
no_backslash c h = ground arith

no_shell_char : (c : ℕ) → is_identifier_char c ≡ true → shell_char c ≡ false
unfolding is_identifier_char
no_shell_char c h = ground arith

module _ ⦃p : Platform⦄ where
  forbidden_here :
      (cs : List ℕ)
      → all is_identifier_char cs ≡ true
      → any (λ ps. matches_seq ps cs) forbidden_alternatives ≡ false
  forbidden_here cs h = ground (
    arith,
    matches_seq-false (literal b'/') is_identifier_char no_slash
        (letter b'h' ∷ letter b't' ∷ letter b't' ∷ letter b'p' ∷ literal b':' ∷ [])
        (literal b'/' ∷ []) cs h,
    matches_seq-false (literal b'/') is_identifier_char no_slash
        (letter b'h' ∷ letter b't' ∷ letter b't' ∷ letter b'p' ∷ letter_s ∷ literal b':' ∷ [])
        (literal b'/' ∷ []) cs h,
    matches_seq-false (literal b'/') is_identifier_char no_slash
        (letter b'f' ∷ letter_i ∷ letter b'l' ∷ letter b'e' ∷ literal b':' ∷ []) (literal b'/' ∷ [])
        cs h,
    matches_seq-false (literal b'/') is_identifier_char no_slash
        (letter_s ∷ letter_s ∷ letter b'h' ∷ literal b':' ∷ []) (literal b'/' ∷ []) cs h,
    matches_seq-false shell_char is_identifier_char no_shell_char [] [] cs h,
    matches_seq-false (literal b'/') is_identifier_char no_slash (literal b'.' ∷ literal b'.' ∷ [])
        [] cs h,
    matches_seq-false (literal b'/') is_identifier_char no_slash [] (p.is_word ∷ []) cs h,
    matches_seq-false (literal b'\\') is_identifier_char no_backslash
        (any_letter ∷ literal b':' ∷ []) [] cs h,
  )

  search_re-forbidden :
      (cs : List ℕ) → all is_identifier_char cs ≡ true → search_re forbidden_alternatives cs ≡ false
  unfolding search_re
  search_re-forbidden [] h = refl
  search_re-forbidden (c ∷ cs) h =
      rw (forbidden_here (c ∷ cs) h) (search_re-forbidden cs (ground arith))

  -- A text is accepted as an identifier exactly when the first pattern matches it: the search
  -- for forbidden substrings refuses nothing more.
  pub require_safe_identifier_lem :
      (s : String)
      → require_safe_identifier (str s)
        ≡ (if safe_identifier_re s then ok s else err (api validation_error 400))
  unfolding require_safe_identifier repeat_re
  require_safe_identifier_lem s = ground (arith, search_re-forbidden (codes s))

  -- A text is accepted as a requester exactly when the requester pattern matches it: the
  -- search for forbidden substrings refuses nothing more.
  pub require_requester_lem :
      (s : String)
      → require_requester (str s)
        ≡ (if requester_re s then ok s else err (api validation_error 400))
  unfolding require_requester repeat_re forbidden_string_re
  require_requester_lem s = ground (arith, search_re-forbidden (codes s))

-- A text that begins with a prefix is the prefix and the rest.
pub prefix_re-split :
    (ks : List ℕ) (next : List ℕ → Bool) (cs : List ℕ)
    → prefix_re ks next cs ≡ true
    → (rest : List ℕ) × (cs ≡ ks ++ rest) × (next rest ≡ true)
unfolding prefix_re
prefix_re-split [] next cs h = (cs, refl, h)
prefix_re-split (k ∷ ks) next [] h = cc
prefix_re-split (k ∷ ks) next (c ∷ cs) h =
    let (rest, e, n) = prefix_re-split ks next cs (ground arith) in (rest, ground arith, n)

name_char-identifier : (cs : List ℕ) → all is_name_char cs ≡ true → all is_identifier_char cs ≡ true
unfolding is_identifier_char
name_char-identifier [] h = refl
name_char-identifier (c ∷ cs) h = ground (arith, name_char-identifier cs)

own_is_safe : (s : String) → is_own_data_dataset_id s ≡ true → safe_identifier_re s ≡ true
unfolding is_own_data_dataset_id safe_identifier_re
own_is_safe s h =
    let (rest, e, n) = prefix_re-split (codes "own:") (repeat_re is_name_char 3 64) (codes s) h in
    rw e (ground (arith, name_char-identifier rest))

allowed_is_safe :
    (s : String) → is_allowed_training_dataset_id s ≡ true → safe_identifier_re s ≡ true
unfolding is_allowed_training_dataset_id
allowed_is_safe s h = elim (Bool-cases (str_eq s fixture_dataset_id)) [
  | inl e ↦ rw ((eq_iff s fixture_dataset_id).0 e) (unfold safe_identifier_re in refl)
  | inr e ↦ own_is_safe s (rw e at h)
]

-- A text is accepted as a dataset id exactly when it is the practice fixture or an own-data
-- id.
pub require_training_dataset_id_lem :
    ⦃p : Platform⦄ (s : String)
    → require_training_dataset_id (str s)
      ≡ (if is_allowed_training_dataset_id s then ok s else err (api validation_error 400))
unfolding require_training_dataset_id
require_training_dataset_id_lem s =
    rw require_safe_identifier_lem (ground (arith, allowed_is_safe s))

-- What an accepted value was.
module _ ⦃p : Platform⦄ where
  pub require_safe_identifier-ok :
      (v : Value) {s : String}
      → require_safe_identifier v ≡ ok s
      → (v ≡ str s) × (safe_identifier_re s ≡ true)
  unfolding require_safe_identifier
  require_safe_identifier-ok (str t) h = ground arith
  require_safe_identifier-ok _ h = cc

  pub require_requester-ok :
      (v : Value) {s : String} → require_requester v ≡ ok s → (v ≡ str s) × (requester_re s ≡ true)
  unfolding require_requester
  require_requester-ok (str t) h = ground arith
  require_requester-ok _ h = cc

  pub require_training_dataset_id-ok :
      (v : Value) {s : String}
      → require_training_dataset_id v ≡ ok s
      → (v ≡ str s) × (is_allowed_training_dataset_id s ≡ true)
  unfolding require_training_dataset_id
  require_training_dataset_id-ok v h =
      let (t, accepted, rest) = >>=-eq-ok (require_safe_identifier v) _ h in
      let (is_text, _) = require_safe_identifier-ok v accepted in
      let (allowed, same) = raise_if-ok (not (is_allowed_training_dataset_id t)) _ _ rest in
      subst (λ u. (v ≡ str u) × (is_allowed_training_dataset_id u ≡ true)) (ok-injective same)
        (is_text, true_of_not (is_allowed_training_dataset_id t) allowed)
