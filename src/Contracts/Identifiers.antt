-- ===== src/Contracts/Identifiers.antt =====
-- contracts.py: the regular expressions for identifiers, and the functions that require them.
-- A pattern is a list of alternatives, an alternative a list of character classes. The classes of
-- the patterns that ignore case hold the characters that Python's `re` folds into the ASCII letters.
pub mod Laws
use scooling_lab.Base.{
  ℕ, ◌-◌, String, Bool, true, false, ◌&&◌, ◌||◌, List, [], ◌∷◌, Option, none, some, any, all,
  length, leb, ◌==◌, str_eq, codes, is_upper, is_lower, is_digit, if◌then◌else◌, not,
}
use scooling_lab.Errors.{Result, ok, err, api, validation_error, ◌>>=◌, ◌>>◌, raise_if}
use scooling_lab.Json.{Value, str}
use scooling_lab.Platform.{Platform}

abbrev pub Class : Type 0
Class = ℕ → Bool

-- one alternative at the head of a text
abbrev pub matches_seq : List Class → List ℕ → Bool
matches_seq [] cs = true
matches_seq (p ∷ ps) [] = false
matches_seq (p ∷ ps) (c ∷ cs) = p c && matches_seq ps cs

-- `pattern.search(text) is not None`
unfoldable pub search_re : List (List Class) → List ℕ → Bool
search_re alts [] = any (λ ps. matches_seq ps []) alts
search_re alts (c ∷ cs) = any (λ ps. matches_seq ps (c ∷ cs)) alts || search_re alts cs

-- `[...]{lo,hi}` against a whole text
unfoldable pub repeat_re : Class → ℕ → ℕ → List ℕ → Bool
repeat_re p lo hi cs = leb lo (length cs) && leb (length cs) hi && all p cs

-- a literal prefix, and the rest against `next`
unfoldable pub prefix_re : List ℕ → (List ℕ → Bool) → List ℕ → Bool
prefix_re [] next cs = next cs
prefix_re (k ∷ ks) next [] = false
prefix_re (k ∷ ks) next (c ∷ cs) = let rest = prefix_re ks next cs in (k == c) && rest

-- `[A-Za-z0-9._-]` and `[A-Za-z0-9._:-]`
unfoldable pub is_name_char : Class
is_name_char c = is_upper c || is_lower c || is_digit c || c == b'.' || c == b'_' || c == b'-'

unfoldable pub is_identifier_char : Class
unfolding is_name_char
is_identifier_char c = is_name_char c || c == b':'

-- `[a-f0-9]`
unfoldable pub is_hex_char : Class
is_hex_char c = (leb b'a' c && leb c b'f') || is_digit c

unfoldable pub safe_identifier_re : String → Bool
unfolding repeat_re is_identifier_char
safe_identifier_re s = repeat_re is_identifier_char 3 96 (codes s)

unfoldable pub requester_re : String → Bool
unfolding repeat_re is_identifier_char
requester_re s = repeat_re is_identifier_char 3 80 (codes s)

unfoldable pub own_data_dataset_id_re : String → Bool
unfolding repeat_re prefix_re is_name_char
own_data_dataset_id_re s = prefix_re (codes "own:") (repeat_re is_name_char 3 64) (codes s)

unfoldable pub job_id_re : String → Bool
unfolding repeat_re prefix_re is_hex_char
job_id_re s = prefix_re (codes "job_") (repeat_re is_hex_char 24 24) (codes s)

unfoldable pub artifact_id_re : String → Bool
unfolding repeat_re prefix_re is_hex_char
artifact_id_re s = prefix_re (codes "artifact_") (repeat_re is_hex_char 24 24) (codes s)

-- a letter with its other case; `re` also folds U+017F into `s`, and U+0130 and U+0131 into `i`
abbrev pub letter : ℕ → Class
letter l c = c == l || c == l - 32

abbrev pub letter_s : Class
letter_s c = letter b's' c || c == 0x17f

abbrev pub letter_i : Class
letter_i c = letter b'i' c || c == 0x130 || c == 0x131

-- `[A-Za-z]` ignoring case, with U+212A too
abbrev pub any_letter : Class
any_letter c = is_upper c || is_lower c || c == 0x17f || c == 0x130 || c == 0x131 || c == 0x212a

abbrev pub literal : ℕ → Class
literal k c = c == k

-- [;&|`$<>]
abbrev pub shell_char : Class
shell_char c =
    c == b';' || c == b'&' || c == b'|' || c == b'`' || c == b'$' || c == b'<' || c == b'>'

abbrev pub colon_slashes : List Class
colon_slashes = literal b':' ∷ literal b'/' ∷ literal b'/' ∷ []

module _ ⦃p : Platform⦄ where
  -- `FORBIDDEN_STRING_RE`
  abbrev pub forbidden_alternatives : List (List Class)
  forbidden_alternatives =
      (letter b'h' ∷ letter b't' ∷ letter b't' ∷ letter b'p' ∷ colon_slashes)
      ∷ (letter b'h' ∷ letter b't' ∷ letter b't' ∷ letter b'p' ∷ letter_s ∷ colon_slashes)
      ∷ (letter b'f' ∷ letter_i ∷ letter b'l' ∷ letter b'e' ∷ colon_slashes)
      ∷ (letter_s ∷ letter_s ∷ letter b'h' ∷ colon_slashes)
      ∷ (shell_char ∷ [])
      ∷ (literal b'.' ∷ literal b'.' ∷ literal b'/' ∷ [])
      ∷ (literal b'/' ∷ p.is_word ∷ [])
      ∷ (any_letter ∷ literal b':' ∷ literal b'\\' ∷ [])
      ∷ []

  unfoldable pub forbidden_string_re : String → Bool
  unfolding search_re
  forbidden_string_re s = search_re forbidden_alternatives (codes s)

  unfoldable pub require_safe_identifier : Value → Result String
  unfolding safe_identifier_re forbidden_string_re
  require_safe_identifier (str s) = do
    raise_if (not (safe_identifier_re s)) (api validation_error 400)
    raise_if (forbidden_string_re s) (api validation_error 400)
    ok s
  require_safe_identifier _ = err (api validation_error 400)

  unfoldable pub require_requester : Value → Result String
  unfolding requester_re forbidden_string_re
  require_requester (str s) = do
    raise_if (not (requester_re s)) (api validation_error 400)
    raise_if (forbidden_string_re s) (api validation_error 400)
    ok s
  require_requester _ = err (api validation_error 400)

abbrev pub fixture_dataset_id : String
fixture_dataset_id = "fixture:synthetic-tiny-v1"

unfoldable pub is_own_data_dataset_id : String → Bool
unfolding own_data_dataset_id_re
is_own_data_dataset_id s = own_data_dataset_id_re s

unfoldable pub is_allowed_training_dataset_id : String → Bool
unfolding is_own_data_dataset_id
is_allowed_training_dataset_id s = str_eq s fixture_dataset_id || is_own_data_dataset_id s

unfoldable pub require_training_dataset_id : ⦃p : Platform⦄ → Value → Result String
unfolding require_safe_identifier is_allowed_training_dataset_id
require_training_dataset_id v = do
  dataset_id ← require_safe_identifier v
  raise_if (not (is_allowed_training_dataset_id dataset_id)) (api validation_error 400)
  ok dataset_id

unfoldable pub require_job_id : Value → Result String
unfolding job_id_re
require_job_id (str s) = do raise_if (not (job_id_re s)) (api validation_error 400); ok s
require_job_id _ = err (api validation_error 400)

unfoldable pub require_artifact_id : Value → Result String
unfolding artifact_id_re
require_artifact_id (str s) = do raise_if (not (artifact_id_re s)) (api validation_error 400); ok s
require_artifact_id _ = err (api validation_error 400)
