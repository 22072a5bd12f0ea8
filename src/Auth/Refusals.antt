-- ===== src/Auth/Refusals.antt =====
-- server_auth.py, download_auth.py: the errors with which a token is refused.
use scooling_lab.Base.{
  ℕ, ◌==◌, String, Bool, true, false, ◌&&◌, ◌||◌, not, ◌≡◌, refl, arith, str_eq, any, codes, prefix,
  drop, strip, List, [], ◌∷◌, Option, none, some, Dict, split, if◌then◌else◌,
}
use scooling_lab.Codec.{Codec, IsCodec, is_json_error}
use scooling_lab.Errors.{
  ErrorCode, value, Exception, recursion_error, json_decode_error, value_error, api_error, Result,
  ok, err, api, is_ok, unauthorized, validation_error, internal_error, raise_if, ◌>>=◌, ◌>>◌,
}
use scooling_lab.Json.{Value, null, bool, int, float, str, arr, obj, Fields, get_or_null}
use scooling_lab.Platform.{Platform}
use scooling_lab.Raises.{
  RaisesOnly, ok-RaisesOnly, err-RaisesOnly, bind-RaisesOnly, raise_if-RaisesOnly,
}
use scooling_lab.Contracts.Identifiers.{
  require_safe_identifier, require_job_id, require_artifact_id, is_own_data_dataset_id, job_id_re,
  artifact_id_re, safe_identifier_re, forbidden_string_re,
}
use scooling_lab.Provenance.{has_keys}
use scooling_lab.Auth.Tokens.{
  parse_bearer_token, decode_hs256_jwt, decode_list, decode_parts, caught, caught_error, mapping_of,
  text_of, check_claims, required_claims, require_claim, check_exp, check_iat, is_past, is_future,
  load_segment, b64url_decode, is_hs256,
}
use scooling_lab.Auth.Ingest.{ingest_auth_secret, ingest_auth_issuer, verify_ingest_auth, env_or}

-- `ApiError(code, status)`
unfoldable pub is_code : ErrorCode → ℕ → Exception → Bool
unfolding value
is_code c n (api_error e) = str_eq (value e.code) (value c) && e.status == n
is_code c n _ = false

abbrev is_recursion_error : Exception → Bool
is_recursion_error recursion_error = true
is_recursion_error _ = false

-- A malformed id, a token that is no good, a secret that is not configured, or a token that is nested
-- too deeply for `json.loads`.
unfoldable pub is_refusal : Result String → Exception → Bool
unfolding is_code
is_refusal secret e =
    is_code validation_error 400 e
    || (is_code unauthorized 401 e
        || (is_recursion_error e || (not (is_ok secret) && is_code internal_error 500 e)))

refused : (x : Result String) → is_refusal x (api unauthorized 401) ≡ true
unfolding is_refusal is_code value
refused x = refl

invalid : (x : Result String) → is_refusal x (api validation_error 400) ≡ true
unfolding is_refusal is_code value
invalid x = refl

module _ (x : Result String) where
  abbrev Refuses : {A : Type 0} → Result A → Type 0
  Refuses = RaisesOnly (is_refusal x)

  denied : (A : Type 0) → Refuses {A = A} (err (api unauthorized 401))
  denied A = err-RaisesOnly {A = A} (is_refusal x) (api unauthorized 401) (refused x)

  -- a check of the token, before the rest
  deny :
      {A : Type 0} (b : Bool) (rest : Result A)
      → Refuses rest
      → Refuses (raise_if b (api unauthorized 401) >> rest)
  deny b rest = raise_if-RaisesOnly (is_refusal x) b (api unauthorized 401) (λ _. rest) (refused x)

  -- a check of an id, before the rest
  reject :
      {A : Type 0} (b : Bool) (rest : Result A)
      → Refuses rest
      → Refuses (raise_if b (api validation_error 400) >> rest)
  reject b rest =
      raise_if-RaisesOnly (is_refusal x) b (api validation_error 400) (λ _. rest) (invalid x)

  require_job_id-Refuses : (s : String) → Refuses (require_job_id (str s))
  unfolding require_job_id
  require_job_id-Refuses s = reject (not (job_id_re s)) (ok s) (ok-RaisesOnly (is_refusal x) s)

  require_artifact_id-Refuses : (s : String) → Refuses (require_artifact_id (str s))
  unfolding require_artifact_id
  require_artifact_id-Refuses s =
      reject (not (artifact_id_re s)) (ok s) (ok-RaisesOnly (is_refusal x) s)

  caught-Refuses : {A : Type 0} (o : Option A) → Refuses (caught o)
  caught-Refuses {A = A} none = denied A
  caught-Refuses (some a) = ok-RaisesOnly (is_refusal x) a

  mapping_of-Refuses : (v : Value) → Refuses (mapping_of v)
  mapping_of-Refuses (obj fs) = ok-RaisesOnly (is_refusal x) fs
  mapping_of-Refuses null = denied Fields
  mapping_of-Refuses (bool b) = denied Fields
  mapping_of-Refuses (int n) = denied Fields
  mapping_of-Refuses (float y) = denied Fields
  mapping_of-Refuses (str t) = denied Fields
  mapping_of-Refuses (arr ys) = denied Fields

  text_of-Refuses : (v : Value) → Refuses (text_of v)
  text_of-Refuses (str t) = ok-RaisesOnly (is_refusal x) t
  text_of-Refuses null = denied String
  text_of-Refuses (bool b) = denied String
  text_of-Refuses (int n) = denied String
  text_of-Refuses (float y) = denied String
  text_of-Refuses (obj fs) = denied String
  text_of-Refuses (arr ys) = denied String

  -- a check that ends a call
  last : (b : Bool) → Refuses (raise_if b (api unauthorized 401))
  last true = denied (Unit {0})
  last false = ok-RaisesOnly (is_refusal x) tt

  require_claim-Refuses : (v : Value) (t : String) → Refuses (require_claim v t)
  unfolding require_claim
  require_claim-Refuses (str s) t = last (not (str_eq s t))
  require_claim-Refuses null t = denied (Unit {0})
  require_claim-Refuses (bool b) t = denied (Unit {0})
  require_claim-Refuses (int n) t = denied (Unit {0})
  require_claim-Refuses (float y) t = denied (Unit {0})
  require_claim-Refuses (obj fs) t = denied (Unit {0})
  require_claim-Refuses (arr ys) t = denied (Unit {0})

  check_exp-Refuses : (v : Value) (now : ℕ) → Refuses (check_exp v now)
  unfolding check_exp
  check_exp-Refuses (int n) now = last (is_past n now)
  check_exp-Refuses null now = denied (Unit {0})
  check_exp-Refuses (bool b) now = denied (Unit {0})
  check_exp-Refuses (str s) now = denied (Unit {0})
  check_exp-Refuses (float y) now = denied (Unit {0})
  check_exp-Refuses (obj fs) now = denied (Unit {0})
  check_exp-Refuses (arr ys) now = denied (Unit {0})

  check_iat-Refuses : (v : Value) (now : ℕ) → Refuses (check_iat v now)
  unfolding check_iat
  check_iat-Refuses (int n) now = last (is_future n now)
  check_iat-Refuses null now = ok-RaisesOnly (is_refusal x) tt
  check_iat-Refuses (bool b) now = ok-RaisesOnly (is_refusal x) tt
  check_iat-Refuses (str s) now = ok-RaisesOnly (is_refusal x) tt
  check_iat-Refuses (float y) now = ok-RaisesOnly (is_refusal x) tt
  check_iat-Refuses (obj fs) now = ok-RaisesOnly (is_refusal x) tt
  check_iat-Refuses (arr ys) now = ok-RaisesOnly (is_refusal x) tt

module _ ⦃p : Platform⦄ (x : Result String) where
  require_safe_identifier-Refuses : (s : String) → Refuses x (require_safe_identifier (str s))
  unfolding require_safe_identifier
  require_safe_identifier-Refuses s =
      reject x (not (safe_identifier_re s))
        (raise_if (forbidden_string_re s) (api validation_error 400) >> ok s)
        (reject x (forbidden_string_re s) (ok s) (ok-RaisesOnly (is_refusal x) s))

  -- a call that refuses, before the rest
  after :
      {A B : Type 0} (m : Result A) (f : A → Result B)
      → Refuses x m
      → ((a : A) → Refuses x (f a))
      → Refuses x (m >>= f)
  after m f h k = bind-RaisesOnly (is_refusal x) m f h k

  check_claims-Refuses :
      (issuer expected : String) (now : ℕ) (claims : Fields)
      → Refuses x (check_claims issuer expected now claims)
  unfolding check_claims
  check_claims-Refuses issuer expected now claims =
      deny x (not (has_keys required_claims claims)) _ (
        after (require_claim (get_or_null "iss" claims) issuer) _
          (require_claim-Refuses x (get_or_null "iss" claims) issuer)
          (λ _.
            after (require_claim (get_or_null "datasetId" claims) expected) _
              (require_claim-Refuses x (get_or_null "datasetId" claims) expected)
              (λ _.
                after (text_of (get_or_null "sub" claims)) _
                  (text_of-Refuses x (get_or_null "sub" claims))
                  (λ who.
                    after (require_safe_identifier (str who)) _
                      (require_safe_identifier-Refuses who)
                      (λ _.
                        after (check_exp (get_or_null "exp" claims) now) _
                          (check_exp-Refuses x (get_or_null "exp" claims) now)
                          (λ _.
                            after (check_iat (get_or_null "iat" claims) now) (λ _. ok who)
                              (check_iat-Refuses x (get_or_null "iat" claims) now)
                              (λ _. ok-RaisesOnly (is_refusal x) who)))))))

module _ ⦃p : Platform⦄ ⦃c : Codec⦄ (x : Result String) (codec : IsCodec c) where
  parse_bearer_token-Refuses : (s : String) → Refuses x (parse_bearer_token s)
  unfolding parse_bearer_token
  parse_bearer_token-Refuses s =
      let head = strip p.is_space s in
      let token = strip p.is_space (drop 7 head) in
      deny x (not (str_eq (prefix 7 (p.lower head)) "bearer ")) _ (
        deny x (str_eq token "" || any (λ k. k == b' ') (codes token)) (ok token)
          (ok-RaisesOnly (is_refusal x) token))

  caught_error-Refuses :
      {A : Type 0} (m : Result A) → RaisesOnly is_json_error m → Refuses x (caught_error m)
  unfolding is_refusal
  caught_error-Refuses (ok a) h = ok-RaisesOnly (is_refusal x) a
  caught_error-Refuses {A} (err json_decode_error) h = denied x A
  caught_error-Refuses {A} (err value_error) h = denied x A
  caught_error-Refuses (err recursion_error) h = err-RaisesOnly (is_refusal x) recursion_error refl
  caught_error-Refuses (err e) h = let bad = h e refl in ground arith

  load_segment-Refuses : (part : String) → Refuses x (load_segment part)
  unfolding load_segment
  load_segment-Refuses part =
      after x (caught (b64url_decode part)) _ (caught-Refuses x (b64url_decode part)) (λ bytes.
        after x (caught (c.utf8_decode bytes)) _ (caught-Refuses x (c.utf8_decode bytes))
          (λ text. caught_error-Refuses (c.json_loads text) (codec.raises text)))

  decode_parts-Refuses :
      (secret first second third : String) → Refuses x (decode_parts secret first second third)
  unfolding decode_parts
  decode_parts-Refuses secret first second third =
      after x (load_segment first) _ (load_segment-Refuses first) (λ head.
        after x (load_segment second) _ (load_segment-Refuses second) (λ body.
          after x (caught (b64url_decode third)) _ (caught-Refuses x (b64url_decode third))
            (λ signature. deny x (not (is_hs256 head)) _ (
              after x (mapping_of body) _ (mapping_of-Refuses x body)
                (λ claims. deny x _ (ok claims) (ok-RaisesOnly (is_refusal x) claims))))))

  decode_list-Refuses : (secret : String) (l : List String) → Refuses x (decode_list secret l)
  unfolding decode_list
  decode_list-Refuses secret (first ∷ second ∷ third ∷ []) =
      decode_parts-Refuses secret first second third
  decode_list-Refuses secret [] = denied x Fields
  decode_list-Refuses secret (a ∷ []) = denied x Fields
  decode_list-Refuses secret (a ∷ b ∷ []) = denied x Fields
  decode_list-Refuses secret (a ∷ b ∷ d ∷ e ∷ l) = denied x Fields

  decode_hs256_jwt-Refuses : (token secret : String) → Refuses x (decode_hs256_jwt token secret)
  unfolding decode_hs256_jwt
  decode_hs256_jwt-Refuses token secret = decode_list-Refuses secret (split b'.' token)

abbrev secret_of : Bool → String → Result String
secret_of b raw = if b then err (api internal_error 500) else ok raw

configured : (b : Bool) (raw : String) → Refuses (secret_of b raw) (secret_of b raw)
unfolding is_refusal is_code value
configured true raw =
    err-RaisesOnly {A = String} (is_refusal (secret_of true raw)) (api internal_error 500) refl
configured false raw = ok-RaisesOnly (is_refusal (secret_of false raw)) raw

module _ ⦃p : Platform⦄ ⦃c : Codec⦄ where
  secret-Refuses :
      (environ : Dict String) → Refuses (ingest_auth_secret environ) (ingest_auth_secret environ)
  unfolding ingest_auth_secret
  secret-Refuses environ =
      let raw = strip p.is_space (env_or "SCOOLING_LAB_INGEST_AUTH_SECRET" "" environ) in
      configured (str_eq raw "") raw

  -- Whatever the header and the dataset id, the check of an ingest token raises nothing but a
  -- validation error 400, an unauthorized error 401, a RecursionError, and an internal error
  -- 500 only where no secret is configured, where json.loads raises only what it documents.
  pub verify_ingest_auth-RaisesOnly :
      (environ : Dict String) (now : ℕ) (authorization_header dataset_id : String)
      → IsCodec c
      → RaisesOnly
          (is_refusal (ingest_auth_secret environ))
          (verify_ingest_auth environ now authorization_header dataset_id)
  unfolding verify_ingest_auth
  verify_ingest_auth-RaisesOnly environ now head d codec =
      let x = ingest_auth_secret environ in
      after x (require_safe_identifier (str d)) _ (require_safe_identifier-Refuses x d) (λ _.
        reject x (not (is_own_data_dataset_id d)) _ (
          after x (parse_bearer_token head) _ (parse_bearer_token-Refuses x codec head) (λ token.
            after x (ingest_auth_secret environ) _ (secret-Refuses environ) (λ secret.
              after x (decode_hs256_jwt token secret) _
                (decode_hs256_jwt-Refuses x codec token secret)
                (λ claims.
                  after x (check_claims (ingest_auth_issuer environ) d now claims) _
                    (check_claims-Refuses x (ingest_auth_issuer environ) d now claims)
                    (λ _. ok-RaisesOnly (is_refusal x) _))))))
