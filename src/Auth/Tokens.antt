-- ===== src/Auth/Tokens.antt =====
-- server_auth.py: the HS256 tokens, how they are signed, taken from a header, decoded and checked.
use Prim.Native.String.{◌++◌}
use scooling_lab.Base.{
  ℕ, zero, suc, ◌+◌, ◌-◌, ◌%◌, ℤ, pos, ltb, pos_part, neg_part, offset, String, Bool, true, false,
  ◌&&◌, ◌||◌, not, List, [], ◌∷◌, Option, none, some, str_eq, ◌==◌, codes, length, any, drop,
  prefix, strip, rstrip, split, if◌then◌else◌,
}
use scooling_lab.Codec.{Codec, Bytes}
use scooling_lab.Errors.{
  Exception, json_decode_error, value_error, Result, ok, err, api, unauthorized, ◌>>=◌, ◌>>◌,
  raise_if,
}
use scooling_lab.Json.{Value, int, str, obj, Fields, end, field, get, get_or_null}
use scooling_lab.Platform.{Platform}
use scooling_lab.Provenance.{has_keys}
use scooling_lab.Contracts.Identifiers.{require_safe_identifier}

abbrev pub required_claims : List String
required_claims = "iss" ∷ "datasetId" ∷ "exp" ∷ "sub" ∷ []

abbrev pub max_clock_skew_seconds : ℕ
max_clock_skew_seconds = 60

-- "=" * n
abbrev pub equals_signs : ℕ → String
equals_signs zero = ""
equals_signs (suc n) = "=" ++ equals_signs n

-- `bytes ==`
unfoldable pub bytes_eq : Bytes → Bytes → Bool
bytes_eq [] [] = true
bytes_eq (a ∷ xs) (b ∷ ys) = (a == b) && bytes_eq xs ys
bytes_eq _ _ = false

module _ ⦃c : Codec⦄ where
  -- `_b64url_encode` and `_b64url_decode`
  unfoldable pub b64url_encode : Bytes → String
  b64url_encode bytes = rstrip (λ k. k == b'=') (c.urlsafe_b64encode bytes)

  unfoldable pub b64url_decode : String → Option Bytes
  b64url_decode bytes =
      c.urlsafe_b64decode (bytes ++ equals_signs ((4 - length (codes bytes) % 4) % 4))

  -- `hmac.new(secret, signing_input, hashlib.sha256).digest()`
  unfoldable pub signature_of : String → String → Bytes
  signature_of secret signing_input =
      c.hmac_sha256 (c.utf8_encode secret) (c.utf8_encode signing_input)

abbrev pub header : Value
header = obj (field "alg" (str "HS256") (field "typ" (str "JWT") end))

-- the claims of a token that is signed at a time
unfoldable pub claims_at : String → String → String → ℕ → ℤ → Value
claims_at issuer subject dataset_id now ttl_seconds = obj (
    field "iss" (str issuer) (
      field "sub" (str subject) (
        field "datasetId" (str dataset_id)
          (field "iat" (int (pos now)) (field "exp" (int (offset now ttl_seconds)) end)))))

-- `except (UnicodeDecodeError, json.JSONDecodeError, ValueError)`
abbrev pub is_value_error : Exception → Bool
is_value_error json_decode_error = true
is_value_error value_error = true
is_value_error _ = false

abbrev pub caught_error {ℓ} : {A : Type ℓ} → Result A → Result A
caught_error (ok a) = ok a
caught_error (err e) = if is_value_error e then err (api unauthorized 401) else err e

-- an error of the decoding of base64 or of UTF-8, which is a `ValueError`, turned into a refusal
abbrev pub caught {ℓ} : {A : Type ℓ} → Option A → Result A
caught none = err (api unauthorized 401)
caught (some a) = ok a

-- `isinstance(header, dict) and header.get("alg") == "HS256"`
unfoldable pub is_hs256 : Value → Bool
is_hs256 (obj fs) = elim (get "alg" fs) [ some (str s) ↦ str_eq s "HS256" | _ ↦ false ]
is_hs256 _ = false

abbrev pub mapping_of : Value → Result Fields
mapping_of (obj fs) = ok fs
mapping_of _ = err (api unauthorized 401)

module _ ⦃p : Platform⦄ ⦃c : Codec⦄ where
  abbrev pub segment : Value → String
  segment v = b64url_encode (c.utf8_encode (p.json_dumps v))

  -- the end of `sign_ingest_jwt` and of `sign_download_jwt`
  unfoldable pub sign : String → Value → String
  unfolding b64url_encode signature_of
  sign secret claims =
      let signing_input = segment header ++ ("." ++ segment claims) in
      signing_input ++ ("." ++ b64url_encode (signature_of secret signing_input))

  -- `_parse_bearer_token`
  unfoldable pub parse_bearer_token : String → Result String
  unfolding rstrip
  parse_bearer_token authorization_header =
      let head = strip p.is_space authorization_header in
      let token = strip p.is_space (drop 7 head) in
      raise_if (not (str_eq (prefix 7 (p.lower head)) "bearer ")) (api unauthorized 401)
      >> (raise_if (str_eq token "" || any (λ k. k == b' ') (codes token)) (api unauthorized 401)
          >> ok token)

  -- `json.loads(_b64url_decode(part).decode("utf-8"))`, under the `except` clause
  unfoldable pub load_segment : String → Result Value
  unfolding b64url_decode
  load_segment part = do
    bytes ← caught (b64url_decode part)
    text ← caught (c.utf8_decode bytes)
    caught_error (c.json_loads text)

  unfoldable pub decode_parts : String → String → String → String → Result Fields
  unfolding load_segment b64url_decode signature_of is_hs256 bytes_eq
  decode_parts secret first second third = do
    head ← load_segment first
    body ← load_segment second
    signature ← caught (b64url_decode third)
    raise_if (not (is_hs256 head)) (api unauthorized 401)
    claims ← mapping_of body
    raise_if (not (bytes_eq signature (signature_of secret (first ++ ("." ++ second)))))
        (api unauthorized 401)
    ok claims

  -- the parts of a split token
  unfoldable pub decode_list : String → List String → Result Fields
  unfolding decode_parts
  decode_list secret (first ∷ second ∷ third ∷ []) = decode_parts secret first second third
  decode_list secret _ = err (api unauthorized 401)

  -- `_decode_hs256_jwt`
  unfoldable pub decode_hs256_jwt : String → String → Result Fields
  unfolding decode_list split
  decode_hs256_jwt token secret = decode_list secret (split b'.' token)

abbrev pub text_of : Value → Result String
text_of (str s) = ok s
text_of _ = err (api unauthorized 401)

-- `exp < now - 60`, and `iat > now + 60`
unfoldable pub is_past : ℤ → ℕ → Bool
is_past exp now = ltb (pos_part exp + max_clock_skew_seconds) (now + neg_part exp)

unfoldable pub is_future : ℤ → ℕ → Bool
is_future iat now = ltb (now + max_clock_skew_seconds + neg_part iat) (pos_part iat)

-- the checks on `exp` and on `iat`
unfoldable pub check_exp : Value → ℕ → Result (Unit {0})
unfolding is_past
check_exp (int exp) now = raise_if (is_past exp now) (api unauthorized 401)
check_exp _ now = err (api unauthorized 401)

unfoldable pub check_iat : Value → ℕ → Result (Unit {0})
unfolding is_future
check_iat (int iat) now = raise_if (is_future iat now) (api unauthorized 401)
check_iat _ now = ok tt

-- `not isinstance(value, str) or value != expected`
unfoldable pub require_claim : Value → String → Result (Unit {0})
require_claim (str s) expected = raise_if (not (str_eq s expected)) (api unauthorized 401)
require_claim _ expected = err (api unauthorized 401)

-- what `verify_ingest_auth` and `verify_download_auth` check of the claims; the subject
unfoldable pub check_claims : ⦃p : Platform⦄ → String → String → ℕ → Fields → Result String
unfolding require_claim check_exp check_iat
check_claims issuer expected now claims = do
  raise_if (not (has_keys required_claims claims)) (api unauthorized 401)
  require_claim (get_or_null "iss" claims) issuer
  require_claim (get_or_null "datasetId" claims) expected
  subject ← text_of (get_or_null "sub" claims)
  _ ← require_safe_identifier (str subject)
  check_exp (get_or_null "exp" claims) now
  check_iat (get_or_null "iat" claims) now
  ok subject
