-- ===== src/Codec.antt =====
-- What the program takes from Python's `json`, `base64` and `hmac` modules and from codecs. Bytes
-- are lists of numbers. `none` is the exception of the call; what a proof relies on is a hypothesis.
use scooling_lab.Base.{ℕ, ℤ, String, List, Option, Bool, true, false}
use scooling_lab.Errors.{Exception, Result, json_decode_error, value_error, recursion_error}
use scooling_lab.Json.{Value}
use scooling_lab.Raises.{RaisesOnly}

abbrev pub Bytes : Type 0
Bytes = List ℕ

pub record Codec : Type 0 where
  -- `json.loads(text)`
  pub json_loads : String → Result Value
  -- `int(text)`; `none` is a `ValueError`
  pub parse_int : String → Option ℤ
  -- `text.encode("utf-8")`, and `data.decode("utf-8")` with `none` for a `UnicodeDecodeError`
  pub utf8_encode : String → Bytes
  pub utf8_decode : Bytes → Option String
  -- `base64.urlsafe_b64encode(data).decode("ascii")`, and `base64.urlsafe_b64decode(text)` with
  -- `none` for a `ValueError`
  pub urlsafe_b64encode : Bytes → String
  pub urlsafe_b64decode : String → Option Bytes
  -- `hmac.new(key, data, hashlib.sha256).digest()`
  pub hmac_sha256 : Bytes → Bytes → Bytes

-- What `json.loads` raises: a `JSONDecodeError` where the text is not JSON, a `ValueError` where an
-- integer has more digits than `int` takes, a `RecursionError` where the text is nested too deeply.
abbrev pub is_json_error : Exception → Bool
is_json_error json_decode_error = true
is_json_error value_error = true
is_json_error recursion_error = true
is_json_error _ = false

pub record IsCodec (c : Codec) : Type 0 where
  pub raises : (text : String) → RaisesOnly is_json_error (c.json_loads text)
