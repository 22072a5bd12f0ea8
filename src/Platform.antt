-- ===== src/Platform.antt =====
-- What the program takes from Python's standard library and does not define: hashing, JSON text and
-- calendar dates. The fields are functions; what a proof relies on is a named hypothesis of its own.
use scooling_lab.Base.{
  ℕ, ◌<◌, ℤ, String, codes, map, all, ltb, is_upper, ◌+◌, if◌then◌else◌, Option, ◌≡◌, some, Bool,
  true, ◌*◌, ends_with, remove_suffix,
}
use scooling_lab.Json.{Value, Float}
use Prim.Native.String.{◌++◌}

pub record Platform : Type 0 where
  -- `str(n)`
  pub str_of_int : ℕ → String
  -- `str(value)` of a value that is no text
  pub str_of_value : Value → String
  -- `hashlib.sha256(text.encode("utf-8")).hexdigest()`
  pub sha256_hex : String → String
  -- `json.dumps(value, separators=(",", ":"), sort_keys=True)`
  pub json_dumps : Value → String
  -- `json.dumps(value, sort_keys=True)`
  pub json_dumps_spaced : Value → String
  -- whether `\s` of a regular expression matches the character
  pub is_space : ℕ → Bool
  -- `text.lower()`
  pub lower : String → String
  -- whether `\w` of a regular expression matches the character
  pub is_word : ℕ → Bool
  -- `float(n)`; `none` is an `OverflowError`
  pub float_of_int : ℤ → Option Float
  -- `datetime.isoformat()` of a UTC instant in whole seconds from the start of the year 1, with "+00:00" written "Z"
  pub isoformat_z : ℕ → String
  -- `datetime.fromisoformat`, in microseconds; `none` is a `ValueError`
  pub fromisoformat : String → Option ℕ

-- The range of `datetime`: the seconds from the start of the year 1 to the end of the year 9999,
-- which is 3652059 days.
abbrev pub end_of_time : ℕ
end_of_time = 315_537_897_600

-- Documented behaviour of `isoformat` and `fromisoformat`: a printed instant of the range ends in
-- its zone, and is read back as the instant that it was printed from.
pub record IsCalendar (p : Platform) : Type 0 where
  pub isoformat-ends : (s : ℕ) → s < end_of_time → ends_with (p.isoformat_z s) "Z" ≡ true
  pub fromisoformat-isoformat :
      (s : ℕ)
      → s < end_of_time
      → p.fromisoformat (remove_suffix (p.isoformat_z s) "Z" ++ "+00:00") ≡ some (s * 1_000_000)

-- Documented behaviour of `str.lower` on ASCII text.
abbrev pub lower_code : ℕ → ℕ
lower_code c = if is_upper c then c + 32 else c

pub record IsLowercasing (p : Platform) : Type 0 where
  pub lower_ascii :
      (s : String)
      → all (λ c. ltb c 128) (codes s) ≡ true
      → codes (p.lower s) ≡ map lower_code (codes s)
