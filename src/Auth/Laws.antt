-- ===== src/Auth/Laws.antt =====
-- server_auth.py, download_auth.py: what a token that is accepted shows.
use Prim.Native.String.{◌++◌}
use scooling_lab.Base.{
  ℕ, ◌+◌, ◌≤◌, ℤ, pos_part, neg_part, String, true, not, List, [], ◌∷◌, ◌≡◌, refl, arith, subst,
  Option, none, some, Option-cases, inl, inr, eq_iff, true_of_not, split, ap, sym, ◌∙◌,
  if◌then◌else◌,
}
use scooling_lab.Codec.{Codec, Bytes}
use scooling_lab.Errors.{ok, err, api, validation_error, >>=-eq-ok, raise_if-ok, ok-injective}
use scooling_lab.Json.{Value, null, int, str, obj, Fields, get, get_or_null}
use scooling_lab.Platform.{Platform}
use scooling_lab.Contracts.Identifiers.{require_safe_identifier, safe_identifier_re}
use scooling_lab.Contracts.Identifiers.Laws.{require_safe_identifier_lem}
use scooling_lab.Provenance.{has_keys}
use scooling_lab.Auth.Tokens.{
  bytes_eq, b64url_decode, signature_of, load_segment, is_hs256, decode_parts, decode_list,
  decode_hs256_jwt, caught, mapping_of, required_claims, max_clock_skew_seconds, is_past, check_exp,
  check_iat, require_claim, text_of, check_claims,
}

module _ ⦃p : Platform⦄ ⦃c : Codec⦄ where
  -- The token has three parts: the second holds the claims, and the third the signature of the
  -- first two under the secret.
  unfoldable pub IsSigned : String → String → Fields → Type 0
  IsSigned secret token claims =
      (first second third : String) × (split b'.' token ≡ first ∷ second ∷ third ∷ [])
      × (load_segment second ≡ ok (obj claims))
      × (b64url_decode third ≡ some (signature_of secret (first ++ ("." ++ second))))

-- The claims are for the issuer, the target and the subject, and not past at the time.
unfoldable pub IsCurrent : String → String → ℕ → String → Fields → Type 0
IsCurrent issuer expected now subject claims =
    (exp : ℤ) × (get "iss" claims ≡ some (str issuer))
    × (get "datasetId" claims ≡ some (str expected))
    × (get "sub" claims ≡ some (str subject))
    × (safe_identifier_re subject ≡ true)
    × (get "exp" claims ≡ some (int exp))
    × (now + neg_part exp ≤ pos_part exp + max_clock_skew_seconds)

bytes_eq-eq : (a b : Bytes) → bytes_eq a b ≡ true → a ≡ b
unfolding bytes_eq
bytes_eq-eq [] [] h = refl
bytes_eq-eq [] (y ∷ b) h = cc h
bytes_eq-eq (x ∷ a) [] h = cc h
bytes_eq-eq (x ∷ a) (y ∷ b) h = ground (arith, bytes_eq-eq a b)

get_or_null-str : (k t : String) (fs : Fields) → get_or_null k fs ≡ str t → get k fs ≡ some (str t)
get_or_null-str k t fs h = elim (Option-cases (get k fs)) [
  | inl e ↦ let bad : null ≡ str t = rw (e, get_or_null) at h in cc bad
  | inr (v, e) ↦ let same : v ≡ str t = rw (e, get_or_null) at h in e ∙ ap some same
]

get_or_null-int :
    (k : String) (n : ℤ) (fs : Fields) → get_or_null k fs ≡ int n → get k fs ≡ some (int n)
get_or_null-int k n fs h = elim (Option-cases (get k fs)) [
  | inl e ↦ let bad : null ≡ int n = rw (e, get_or_null) at h in cc bad
  | inr (v, e) ↦ let same : v ≡ int n = rw (e, get_or_null) at h in e ∙ ap some same
]

require_claim-ok : (v : Value) (t : String) {u : Unit {0}} → require_claim v t ≡ ok u → v ≡ str t
unfolding require_claim
require_claim-ok (str s) t h = ground (arith, eq_iff s t)
require_claim-ok _ t h = cc

text_of-ok : (v : Value) {t : String} → text_of v ≡ ok t → v ≡ str t
text_of-ok (str s) h = cc
text_of-ok _ h = cc

-- A time of expiry that is accepted.
abbrev NotPast : Value → ℕ → Type 0
NotPast v now =
    (exp : ℤ) × (v ≡ int exp) × (now + neg_part exp ≤ pos_part exp + max_clock_skew_seconds)

check_exp-ok : (v : Value) (now : ℕ) {u : Unit {0}} → check_exp v now ≡ ok u → NotPast v now
unfolding check_exp is_past
check_exp-ok (int n) now h = (n, refl, ground arith)
check_exp-ok _ now h = cc

module _ ⦃p : Platform⦄ ⦃c : Codec⦄ where
  caught-ok : {A : Type 0} (o : Option A) {a : A} → caught o ≡ ok a → o ≡ some a
  caught-ok none h = cc
  caught-ok (some a) h = cc

  mapping_of-ok : (v : Value) {fs : Fields} → mapping_of v ≡ ok fs → v ≡ obj fs
  mapping_of-ok (obj gs) h = cc
  mapping_of-ok _ h = cc

  decode_parts-ok :
      (secret first second third : String) (claims : Fields)
      → decode_parts secret first second third ≡ ok claims
      → (load_segment second ≡ ok (obj claims))
        × (b64url_decode third ≡ some (signature_of secret (first ++ ("." ++ second))))
  unfolding decode_parts
  decode_parts-ok secret first second third claims h =
      let (head, _, h1) = >>=-eq-ok (load_segment first) _ h in
      let (body, second_is, h2) = >>=-eq-ok (load_segment second) _ h1 in
      let (signature, third_is, h3) = >>=-eq-ok (caught (b64url_decode third)) _ h2 in
      let (_, h4) = raise_if-ok (not (is_hs256 head)) _ _ h3 in
      let (fs, body_is, h5) = >>=-eq-ok (mapping_of body) _ h4 in
      let given = signature_of secret (first ++ ("." ++ second)) in
      let (same, h6) = raise_if-ok (not (bytes_eq signature given)) _ _ h5 in
      let object : body ≡ obj claims = mapping_of-ok body body_is ∙ ap obj (ok-injective h6) in
      let signed : signature ≡ given = bytes_eq-eq signature given (true_of_not _ same) in
      (second_is ∙ ap ok object, caught-ok (b64url_decode third) third_is ∙ ap some signed)

  pub decode_hs256_jwt-IsSigned :
      (token secret : String) (claims : Fields)
      → decode_hs256_jwt token secret ≡ ok claims
      → IsSigned secret token claims
  unfolding decode_hs256_jwt IsSigned decode_list
  decode_hs256_jwt-IsSigned token secret claims h = parts_of (split b'.' token) refl h
    where
      parts_of :
          (l : List String)
          → split b'.' token ≡ l
          → decode_list secret l ≡ ok claims
          → IsSigned secret token claims
      parts_of (first ∷ second ∷ third ∷ []) e k =
          let (body, signed) = decode_parts-ok secret first second third claims k in
          (first, second, third, e, body, signed)
      parts_of _ e k = cc

  safe_of :
      (s : String) {t : String}
      → require_safe_identifier (str s) ≡ ok t
      → safe_identifier_re s ≡ true
  safe_of s {t} h =
      let e : (if safe_identifier_re s then ok s else err (api validation_error 400)) ≡ ok t =
        sym (require_safe_identifier_lem s) ∙ h in
      ground arith

  pub check_claims-IsCurrent :
      (issuer expected : String) (now : ℕ) (claims : Fields) (subject : String)
      → check_claims issuer expected now claims ≡ ok subject
      → IsCurrent issuer expected now subject claims
  unfolding check_claims IsCurrent
  check_claims-IsCurrent issuer expected now claims subject h =
      let (_, h1) = raise_if-ok (not (has_keys required_claims claims)) _ _ h in
      let (_, iss, h2) = >>=-eq-ok (require_claim (get_or_null "iss" claims) issuer) _ h1 in
      let (_, target, h3) =
        >>=-eq-ok (require_claim (get_or_null "datasetId" claims) expected) _ h2 in
      let (who, sub, h4) = >>=-eq-ok (text_of (get_or_null "sub" claims)) _ h3 in
      let (_, safe, h5) = >>=-eq-ok (require_safe_identifier (str who)) _ h4 in
      let (_, fresh, h6) = >>=-eq-ok (check_exp (get_or_null "exp" claims) now) _ h5 in
      let (_, _, h7) = >>=-eq-ok (check_iat (get_or_null "iat" claims) now) _ h6 in
      let named : who ≡ subject = ok-injective h7 in
      let (exp, is_exp, late) = check_exp-ok (get_or_null "exp" claims) now fresh in
      (
        exp,
        get_or_null-str "iss" issuer claims
            (require_claim-ok (get_or_null "iss" claims) issuer iss),
        get_or_null-str "datasetId" expected claims
            (require_claim-ok (get_or_null "datasetId" claims) expected target),
        get_or_null-str "sub" subject claims
            (text_of-ok (get_or_null "sub" claims) sub ∙ ap str named),
        subst (λ s. safe_identifier_re s ≡ true) named (safe_of who safe),
        get_or_null-int "exp" exp claims is_exp,
        late,
      )
