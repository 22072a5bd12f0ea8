-- ===== src/Auth/Download.antt =====
-- download_auth.py: the tokens of artifact downloads.
use Prim.Native.String.{◌++◌}
use scooling_lab.Base.{ℕ, ℤ, String, Option, str_eq, strip, Dict, if◌then◌else◌}
use scooling_lab.Codec.{Codec}
use scooling_lab.Errors.{Result, ok, ◌>>=◌}
use scooling_lab.Json.{str}
use scooling_lab.Platform.{Platform}
use scooling_lab.Contracts.Identifiers.{
  require_safe_identifier, require_job_id, require_artifact_id,
}
use scooling_lab.Auth.Tokens.{claims_at, sign, parse_bearer_token, decode_hs256_jwt, check_claims}
use scooling_lab.Auth.Ingest.{env_or, or_call, ingest_auth_secret, ingest_auth_issuer}

module _ ⦃p : Platform⦄ where
  unfoldable pub download_auth_secret : Dict String → Result String
  unfolding ingest_auth_secret
  download_auth_secret environ =
      let raw = strip p.is_space (env_or "SCOOLING_LAB_DOWNLOAD_AUTH_SECRET" "" environ) in
      if str_eq raw "" then ingest_auth_secret environ else ok raw

  unfoldable pub download_auth_issuer : Dict String → String
  unfolding ingest_auth_issuer
  download_auth_issuer environ =
      let raw = strip p.is_space (env_or "SCOOLING_LAB_DOWNLOAD_AUTH_ISSUER" "" environ) in
      if str_eq raw "" then ingest_auth_issuer environ else raw

-- what `verify_download_auth` returns
pub record DownloadGrant : Type 0 where
  pub subject : String
  pub job_id : String
  pub artifact_id : String

-- `f"{job_id}:{artifact_id}"`
abbrev pub composite_of : String → String → String
composite_of job_id artifact_id = job_id ++ (":" ++ artifact_id)

module _ ⦃p : Platform⦄ ⦃c : Codec⦄ where
  unfoldable pub sign_download_jwt :
      Dict String → ℕ → String → String → String → Option String → Option String → ℤ → Result String
  unfolding download_auth_secret download_auth_issuer claims_at sign
  sign_download_jwt environ now job_id artifact_id subject secret issuer ttl_seconds = do
    _ ← require_job_id (str job_id)
    _ ← require_artifact_id (str artifact_id)
    _ ← require_safe_identifier (str subject)
    secret_value ← or_call secret (download_auth_secret environ)
    issuer_value ← or_call issuer (ok (download_auth_issuer environ))
    ok (
        sign secret_value
          (claims_at issuer_value subject (composite_of job_id artifact_id) now ttl_seconds))

  unfoldable pub verify_download_auth :
      Dict String → ℕ → String → String → String → Result DownloadGrant
  unfolding download_auth_secret download_auth_issuer parse_bearer_token decode_hs256_jwt
      check_claims
  verify_download_auth environ now authorization_header job_id artifact_id = do
    _ ← require_job_id (str job_id)
    _ ← require_artifact_id (str artifact_id)
    token ← parse_bearer_token authorization_header
    secret ← download_auth_secret environ
    claims ← decode_hs256_jwt token secret
    subject ←
        check_claims (download_auth_issuer environ) (composite_of job_id artifact_id) now claims
    ok (record { subject = subject; job_id = job_id; artifact_id = artifact_id })
