-- ===== src/Examples/Tokens.antt =====
-- The tokens at concrete inputs: an encoding of texts by their code points, and a signature that is
-- the key.
use scooling_lab.Base.{
  ◌∷◌, [], pos, String, true, none, some, ◌≡◌, refl, codes, lstrip, rstrip, lookup, str_eq, ◌==◌,
  Dict, if◌then◌else◌,
}
use scooling_lab.Codec.{Codec, IsCodec}
use scooling_lab.Errors.{ok, err, recursion_error}
use scooling_lab.Json
use scooling_lab.Json.{Value, str, int, obj, field, end}
use scooling_lab.Raises.{RaisesOnly}
use scooling_lab.Contracts.Identifiers.{is_own_data_dataset_id, job_id_re, artifact_id_re}
use scooling_lab.Contracts.Identifiers
use scooling_lab.Auth.Tokens.{bytes_eq}
use scooling_lab.Auth.Ingest.{
  IngestGrant, verify_ingest_auth, ingest_auth_secret, ingest_auth_issuer,
}
use scooling_lab.Auth.Download.{
  DownloadGrant, verify_download_auth, download_auth_secret, download_auth_issuer, composite_of,
}
use scooling_lab.Auth.Grants.{
  IsVouched, verify_ingest_auth-IsVouched, verify_download_auth-IsVouched,
}
use scooling_lab.Auth.Refusals.{is_refusal, verify_ingest_auth-RaisesOnly}
use scooling_lab.Examples.Demo.{demo}

abbrev claims : String → Value
claims target = obj (
    field "datasetId" (str target) (
      field "exp" (int (pos 1300)) (
        field "iat" (int (pos 1000))
          (field "iss" (str "scooling") (field "sub" (str "user:ada") end)))))

abbrev head : Value
head = obj (field "alg" (str "HS256") (field "typ" (str "JWT") end))

abbrev pub codec : String → Codec
codec target = record {
  json_loads = λ text. ok (if str_eq text "H" then head else claims target);
  parse_int = λ text. none;
  utf8_encode = codes;
  utf8_decode = λ bytes. some (if bytes_eq bytes (codes "H") then "H" else "C");
  urlsafe_b64encode = λ bytes. "";
  urlsafe_b64decode = λ text. some (codes (rstrip (λ k. k == b'=') text));
  hmac_sha256 = λ key message. key;
}

abbrev environ : Dict String
environ = ("SCOOLING_LAB_INGEST_AUTH_SECRET", "S") ∷ []

abbrev grant : IngestGrant
grant = record { subject = "user:ada"; dataset_id = "own:notes" }

granted :
    verify_ingest_auth ⦃p = demo⦄ ⦃c = codec "own:notes"⦄ environ 1000 "Bearer H.C.S" "own:notes"
    ≡ ok grant
unfolding verify_ingest_auth Identifiers.require_safe_identifier is_own_data_dataset_id demo lstrip
    lookup Json.get
granted = refl

abbrev job : String
job = "job_0123456789abcdef01234567"

abbrev artifact : String
artifact = "artifact_0123456789abcdef01234567"

abbrev download : DownloadGrant
download = record { subject = "user:ada"; job_id = job; artifact_id = artifact }

downloads :
    verify_download_auth ⦃p = demo⦄ ⦃c = codec (composite_of job artifact)⦄ environ 1000
      "Bearer H.C.S" job artifact
    ≡ ok download
unfolding verify_download_auth Identifiers.require_job_id Identifiers.require_artifact_id demo
    lstrip lookup Json.get Identifiers.require_safe_identifier
downloads = refl

verify_ingest_auth-IsVouched_example :
    (secret : String) × (ingest_auth_secret ⦃p = demo⦄ environ ≡ ok secret)
    × (is_own_data_dataset_id "own:notes" ≡ true)
    × (grant.dataset_id ≡ "own:notes")
    × IsVouched ⦃p = demo⦄ ⦃c = codec "own:notes"⦄ secret
        (ingest_auth_issuer ⦃p = demo⦄ environ)
        "own:notes"
        1000
        grant.subject
        "Bearer H.C.S"
verify_ingest_auth-IsVouched_example =
    verify_ingest_auth-IsVouched ⦃p = demo⦄ ⦃c = codec "own:notes"⦄ environ 1000 "Bearer H.C.S"
      "own:notes" grant granted

verify_download_auth-IsVouched_example :
    (secret : String) × (download_auth_secret ⦃p = demo⦄ environ ≡ ok secret)
    × (job_id_re job ≡ true)
    × (artifact_id_re artifact ≡ true)
    × (download.job_id ≡ job)
    × (download.artifact_id ≡ artifact)
    × IsVouched ⦃p = demo⦄ ⦃c = codec (composite_of job artifact)⦄ secret
        (download_auth_issuer ⦃p = demo⦄ environ)
        (composite_of job artifact)
        1000
        download.subject
        "Bearer H.C.S"
verify_download_auth-IsVouched_example =
    verify_download_auth-IsVouched ⦃p = demo⦄ ⦃c = codec (composite_of job artifact)⦄ environ 1000
      "Bearer H.C.S" job artifact download downloads

-- a segment that is nested too deeply
abbrev deep : Codec
deep = record (codec "own:notes") { json_loads = λ text. err recursion_error }

nested :
    verify_ingest_auth ⦃p = demo⦄ ⦃c = deep⦄ environ 1000 "Bearer H.C.S" "own:notes"
    ≡ err recursion_error
unfolding verify_ingest_auth Identifiers.require_safe_identifier is_own_data_dataset_id demo lstrip
    lookup Json.get
nested = refl

tokens-IsCodec : IsCodec (codec "own:notes")
tokens-IsCodec = record { raises = λ text e h. cc h }

verify_ingest_auth-RaisesOnly_example :
    RaisesOnly (is_refusal (ingest_auth_secret ⦃p = demo⦄ environ)) (
      verify_ingest_auth ⦃p = demo⦄ ⦃c = codec "own:notes"⦄ environ 1000 "Bearer H.C.T" "own:notes")
verify_ingest_auth-RaisesOnly_example =
    verify_ingest_auth-RaisesOnly ⦃p = demo⦄ ⦃c = codec "own:notes"⦄ environ 1000 "Bearer H.C.T"
      "own:notes" tokens-IsCodec
