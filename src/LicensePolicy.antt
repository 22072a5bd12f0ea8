-- ===== src/LicensePolicy.antt =====
-- license_policy.py: which licenses and source paths the inventory of dependencies may name. The
-- error of the policy is a `ValueError`, whose message is not modelled.
pub mod Laws
use Prim.Native.Char.{code}
use Prim.Native.String.{◌++◌}
use scooling_lab.Base.{
  ℕ, zero, suc, String, Bool, true, false, ◌&&◌, ◌||◌, not, any, List, [], ◌∷◌, Option, none, some,
  str_eq, codes, length, strip, split, if◌then◌else◌, ◌==◌,
}
use scooling_lab.Errors.{Result, ok, err, value_error, no_answer, ◌>>=◌, ◌>>◌, raise_if}
use scooling_lab.Json.{member}
use scooling_lab.Platform.{Platform}

abbrev pub allowed_licenses : List String
allowed_licenses = "Apache-2.0" ∷ "MIT" ∷ "BSD-2-Clause" ∷ "BSD-3-Clause" ∷ "ISC" ∷ "PSF-2.0" ∷ []

abbrev pub blocked_licenses : List String
blocked_licenses =
    "AGPL-3.0" ∷ "AGPL-3.0-only" ∷ "AGPL-3.0-or-later" ∷ "GPL-2.0" ∷ "GPL-2.0-only"
    ∷ "GPL-2.0-or-later" ∷ "GPL-3.0" ∷ "GPL-3.0-only" ∷ "GPL-3.0-or-later" ∷ []

abbrev pub blocked_path_segments : List String
blocked_path_segments = "studio" ∷ "unsloth_cli" ∷ []

pub record BomEntry : Type 0 where
  pub name : String
  pub version : String
  pub license : String
  pub source_path : String
  pub evidence : String

abbrev pub is_slash : ℕ → Bool
is_slash c = c == b'/'

-- `text.replace("\\", "/")`
unfoldable pub with_slashes : String → String
with_slashes String.[] = ""
with_slashes (String.◌∷◌ c s) =
    let rest = with_slashes s in if code c == b'\\' then "/" ++ rest else String.◌∷◌ c rest

-- `"//" in text`
unfoldable pub has_double : String → Bool
has_double String.[] = false
has_double (String.◌∷◌ c String.[]) = false
has_double (String.◌∷◌ c (String.◌∷◌ e s)) =
    (is_slash (code c) && is_slash (code e)) || has_double (String.◌∷◌ e s)

-- `text.replace("//", "/")`, from left to right
unfoldable pub replace_double : String → String
replace_double String.[] = ""
replace_double (String.◌∷◌ c String.[]) = String.◌∷◌ c ""
replace_double (String.◌∷◌ c (String.◌∷◌ e s)) =
    let after = replace_double s in
    let next = replace_double (String.◌∷◌ e s) in
    if is_slash (code c) && is_slash (code e) then String.◌∷◌ c after else String.◌∷◌ c next

-- the loop, for a number of rounds
unfoldable pub collapse : ℕ → String → Option String
unfolding has_double replace_double
collapse zero s = none
collapse (suc n) s =
    let rest = collapse n (replace_double s) in if has_double s then rest else some s

-- `text.strip("/")` of what the loop leaves
abbrev pub strip_slashes : Option String → Result String
strip_slashes none = err no_answer
strip_slashes (some s) = ok (strip is_slash s)

module _ ⦃p : Platform⦄ where
  unfoldable pub normalize_source_path : String → Result String
  unfolding with_slashes collapse
  normalize_source_path source_path =
      let stripped = with_slashes (strip p.is_space source_path) in
      strip_slashes (collapse (suc (length (codes stripped))) stripped)

  abbrev pub is_blocked_segment : String → Bool
  is_blocked_segment segment = not (str_eq segment "") && member segment blocked_path_segments

  unfoldable pub validate_source_path : String → Result (Unit {0})
  unfolding normalize_source_path
  validate_source_path source_path = do
    normalized ← normalize_source_path source_path
    raise_if (any is_blocked_segment (split b'/' normalized)) value_error

  unfoldable pub validate_license : String → Result (Unit {0})
  validate_license license_id = do
    let normalized = strip p.is_space license_id
    raise_if (member normalized blocked_licenses) value_error
    raise_if (not (member normalized allowed_licenses)) value_error

  abbrev pub is_blank : String → Bool
  is_blank text = str_eq (strip p.is_space text) ""

  unfoldable pub validate_entry : BomEntry → Result (Unit {0})
  unfolding validate_license validate_source_path
  validate_entry entry = do
    raise_if (is_blank entry.name) value_error
    raise_if (is_blank entry.version) value_error
    raise_if (is_blank entry.evidence) value_error
    validate_license entry.license
    validate_source_path entry.source_path

  unfoldable pub validate_each : List BomEntry → Result (Unit {0})
  unfolding validate_entry
  validate_each [] = ok tt
  validate_each (entry ∷ entries) = validate_entry entry >> validate_each entries

  unfoldable pub validate_entries : List BomEntry → Result (Unit {0})
  unfolding validate_each
  validate_entries [] = err value_error
  validate_entries (entry ∷ entries) = validate_each (entry ∷ entries)
