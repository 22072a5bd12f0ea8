-- ===== src/Auth/Ingest.antt =====
-- server_auth.py: the tokens of package ingest.
use scooling_lab.Base.{
  ℕ, ℤ, String, Option, none, some, not, str_eq, strip, Dict, lookup, if◌then◌else◌,
}
use scooling_lab.Codec.{Codec}
use scooling_lab.Errors.{
  Result, ok, err, api, internal_error, validation_error, ◌>>=◌, ◌>>◌, raise_if,
}
use scooling_lab.Json.{str}
use scooling_lab.Platform.{Platform}
use scooling_lab.Contracts.Identifiers.{require_safe_identifier, is_own_data_dataset_id}
use scooling_lab.Auth.Tokens.{claims_at, sign, parse_bearer_token, decode_hs256_jwt, check_claims}

-- `os.environ.get(name, default)`
abbrev pub env_or : String → String → Dict String → String
env_or name default environ = elim (lookup name environ) [ none ↦ default | some s ↦ s ]

module _ ⦃p : Platform⦄ where
  unfoldable pub ingest_auth_secret : Dict String → Result String
  ingest_auth_secret environ =
      let raw = strip p.is_space (env_or "SCOOLING_LAB_INGEST_AUTH_SECRET" "" environ) in
      if str_eq raw "" then err (api internal_error 500) else ok raw

  unfoldable pub ingest_auth_issuer : Dict String → String
  ingest_auth_issuer environ =
      let raw = strip p.is_space (env_or "SCOOLING_LAB_INGEST_AUTH_ISSUER" "scooling" environ) in
      if str_eq raw "" then "scooling" else raw

-- what `verify_ingest_auth` returns
pub record IngestGrant : Type 0 where
  pub subject : String
  pub dataset_id : String

-- an argument that may be left out
abbrev pub or_call : Option String → Result String → Result String
or_call none call = call
or_call (some s) call = ok s

module _ ⦃p : Platform⦄ ⦃c : Codec⦄ where
  unfoldable pub sign_ingest_jwt :
      Dict String → ℕ → String → String → Option String → Option String → ℤ → Result String
  unfolding ingest_auth_secret ingest_auth_issuer claims_at sign
  sign_ingest_jwt environ now dataset_id subject secret issuer ttl_seconds = do
    _ ← require_safe_identifier (str dataset_id)
    _ ← require_safe_identifier (str subject)
    raise_if (not (is_own_data_dataset_id dataset_id)) (api validation_error 400)
    secret_value ← or_call secret (ingest_auth_secret environ)
    issuer_value ← or_call issuer (ok (ingest_auth_issuer environ))
    ok (sign secret_value (claims_at issuer_value subject dataset_id now ttl_seconds))

  unfoldable pub verify_ingest_auth : Dict String → ℕ → String → String → Result IngestGrant
  unfolding ingest_auth_secret ingest_auth_issuer parse_bearer_token decode_hs256_jwt check_claims
  verify_ingest_auth environ now authorization_header expected_dataset_id = do
    _ ← require_safe_identifier (str expected_dataset_id)
    raise_if (not (is_own_data_dataset_id expected_dataset_id)) (api validation_error 400)
    token ← parse_bearer_token authorization_header
    secret ← ingest_auth_secret environ
    claims ← decode_hs256_jwt token secret
    subject ← check_claims (ingest_auth_issuer environ) expected_dataset_id now claims
    ok (record { subject = subject; dataset_id = expected_dataset_id })
