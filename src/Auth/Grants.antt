-- ===== src/Auth/Grants.antt =====
-- server_auth.py, download_auth.py: what a grant of ingest or of a download shows.
use scooling_lab.Base.{ℕ, String, true, not, ◌≡◌, true_of_not, Dict, sym, subst, ap}
use scooling_lab.Codec.{Codec}
use scooling_lab.Errors.{ok, >>=-eq-ok, raise_if-ok, ok-injective}
use scooling_lab.Json.{str, Fields}
use scooling_lab.Platform.{Platform}
use scooling_lab.Contracts.Identifiers.{
  require_safe_identifier, require_job_id, require_artifact_id, is_own_data_dataset_id, job_id_re,
  artifact_id_re,
}
use scooling_lab.Auth.Tokens.{parse_bearer_token, decode_hs256_jwt, check_claims}
use scooling_lab.Auth.Ingest.{
  IngestGrant, ingest_auth_secret, ingest_auth_issuer, verify_ingest_auth,
}
use scooling_lab.Auth.Download.{
  DownloadGrant, download_auth_secret, download_auth_issuer, verify_download_auth, composite_of,
}
use scooling_lab.Auth.Laws.{IsSigned, IsCurrent, decode_hs256_jwt-IsSigned, check_claims-IsCurrent}

job_id_re-ok : (s : String) {t : String} → require_job_id (str s) ≡ ok t → job_id_re s ≡ true
unfolding require_job_id
job_id_re-ok s h = let (e, _) = raise_if-ok (not (job_id_re s)) _ _ h in true_of_not _ e

artifact_id_re-ok :
    (s : String) {t : String} → require_artifact_id (str s) ≡ ok t → artifact_id_re s ≡ true
unfolding require_artifact_id
artifact_id_re-ok s h = let (e, _) = raise_if-ok (not (artifact_id_re s)) _ _ h in true_of_not _ e

module _ ⦃p : Platform⦄ ⦃c : Codec⦄ where
  -- The header carries a token that is signed with the secret, for the issuer, the target and the
  -- subject, and not past.
  abbrev pub IsVouched : String → String → String → ℕ → String → String → Type 0
  IsVouched secret issuer expected now subject authorization_header =
      (token : String) × (claims : Fields) × (parse_bearer_token authorization_header ≡ ok token)
      × IsSigned secret token claims
      × IsCurrent issuer expected now subject claims

  -- Where ingest is granted, the dataset id is an own-data id and that of the grant, and the
  -- header carries a token whose third part is the HMAC of the first two under the configured
  -- secret, and whose claims name the configured issuer, the dataset and the subject of the
  -- grant, which is an identifier, and a time of expiry not more than a minute past.
  pub verify_ingest_auth-IsVouched :
      (environ : Dict String) (now : ℕ) (authorization_header dataset_id : String)
      (grant : IngestGrant)
      → verify_ingest_auth environ now authorization_header dataset_id ≡ ok grant
      → (secret : String) × (ingest_auth_secret environ ≡ ok secret)
        × (is_own_data_dataset_id dataset_id ≡ true)
        × (grant.dataset_id ≡ dataset_id)
        × IsVouched secret
            (ingest_auth_issuer environ)
            dataset_id
            now
            grant.subject
            authorization_header
  unfolding verify_ingest_auth
  verify_ingest_auth-IsVouched environ now head d grant h =
      let (_, _, h1) = >>=-eq-ok (require_safe_identifier (str d)) _ h in
      let (own, h2) = raise_if-ok (not (is_own_data_dataset_id d)) _ _ h1 in
      let (token, bearer, h3) = >>=-eq-ok (parse_bearer_token head) _ h2 in
      let (secret, configured, h4) = >>=-eq-ok (ingest_auth_secret environ) _ h3 in
      let (claims, decoded, h5) = >>=-eq-ok (decode_hs256_jwt token secret) _ h4 in
      let (subject, checked, h6) =
        >>=-eq-ok (check_claims (ingest_auth_issuer environ) d now claims) _ h5 in
      let out : record { subject = subject; dataset_id = d } ≡ grant = ok-injective h6 in
      let same : subject ≡ grant.subject = ap (λ (g : IngestGrant). g.subject) out in
      (
        secret,
        configured,
        true_of_not _ own,
        sym (ap (λ (g : IngestGrant). g.dataset_id) out),
        (
          token,
          claims,
          bearer,
          decode_hs256_jwt-IsSigned token secret claims decoded,
          subst (λ s. IsCurrent (ingest_auth_issuer environ) d now s claims) same
              (check_claims-IsCurrent (ingest_auth_issuer environ) d now claims subject checked),
        ),
      )

  -- Where a download is granted, the job id and the artifact id have the required forms and
  -- are those of the grant, and the header carries a token whose third part is the HMAC of the
  -- first two under the configured secret, and whose claims name the configured issuer, the
  -- two ids joined by a colon and the subject of the grant, which is an identifier, and a time
  -- of expiry not more than a minute past.
  pub verify_download_auth-IsVouched :
      (environ : Dict String) (now : ℕ) (authorization_header job_id artifact_id : String)
      (grant : DownloadGrant)
      → verify_download_auth environ now authorization_header job_id artifact_id ≡ ok grant
      → (secret : String) × (download_auth_secret environ ≡ ok secret)
        × (job_id_re job_id ≡ true)
        × (artifact_id_re artifact_id ≡ true)
        × (grant.job_id ≡ job_id)
        × (grant.artifact_id ≡ artifact_id)
        × IsVouched secret
            (download_auth_issuer environ)
            (composite_of job_id artifact_id)
            now
            grant.subject
            authorization_header
  unfolding verify_download_auth
  verify_download_auth-IsVouched environ now head j a grant h =
      let (_, is_job, h1) = >>=-eq-ok (require_job_id (str j)) _ h in
      let (_, is_artifact, h2) = >>=-eq-ok (require_artifact_id (str a)) _ h1 in
      let (token, bearer, h3) = >>=-eq-ok (parse_bearer_token head) _ h2 in
      let (secret, configured, h4) = >>=-eq-ok (download_auth_secret environ) _ h3 in
      let (claims, decoded, h5) = >>=-eq-ok (decode_hs256_jwt token secret) _ h4 in
      let issuer = download_auth_issuer environ in
      let target = composite_of j a in
      let (subject, checked, h6) = >>=-eq-ok (check_claims issuer target now claims) _ h5 in
      let out : record { subject = subject; job_id = j; artifact_id = a } ≡ grant =
        ok-injective h6 in
      let same : subject ≡ grant.subject = ap (λ (g : DownloadGrant). g.subject) out in
      (
        secret,
        configured,
        job_id_re-ok j is_job,
        artifact_id_re-ok a is_artifact,
        sym (ap (λ (g : DownloadGrant). g.job_id) out),
        sym (ap (λ (g : DownloadGrant). g.artifact_id) out),
        (
          token,
          claims,
          bearer,
          decode_hs256_jwt-IsSigned token secret claims decoded,
          subst (λ s. IsCurrent issuer target now s claims) same
              (check_claims-IsCurrent issuer target now claims subject checked),
        ),
      )
