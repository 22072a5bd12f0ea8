-- ===== src/Provenance/ArtifactIds.antt =====
-- The id that an artifact is given, of a hash of the form that the validation wants.
use Prim.Native.String.{◌++◌}
use Prim.Native.String.append
use Prim.Native.Char.{code}
use scooling_lab.Base.{
  ℕ, zero, suc, ◌≤◌, String, Bool, true, ◌≡◌, refl, ap, arith, ◌∷◌, ◌++◌ as ◌+++◌, all, length,
  codes, prefix,
}
use scooling_lab.Errors.{ok}
use scooling_lab.Json.{str}
use scooling_lab.Contracts.Identifiers.{
  require_artifact_id, artifact_id_re, repeat_re, prefix_re, is_hex_char,
}
use scooling_lab.Provenance.{hash_re}

codes-append : (s t : String) → codes (s ++ t) ≡ codes s +++ codes t
codes-append String.[] t = ap codes (append.nil t)
codes-append (String.◌∷◌ c s) t = rw (append.cons c s t) (ap (λ l. code c ∷ l) (codes-append s t))

all-prefix :
    (q : ℕ → Bool) (n : ℕ) (s : String) → all q (codes s) ≡ true → all q (codes (prefix n s)) ≡ true
all-prefix q zero s h = refl
all-prefix q (suc n) String.[] h = refl
all-prefix q (suc n) (String.◌∷◌ c s) h = ground (arith, all-prefix q n s)

length-prefix : (n : ℕ) (s : String) → n ≤ length (codes s) → length (codes (prefix n s)) ≡ n
length-prefix zero s h = refl
length-prefix (suc n) String.[] h = omega arith
length-prefix (suc n) (String.◌∷◌ c s) h = omega (arith, length-prefix n s)

hash_re-parts :
    (hash : String)
    → hash_re hash ≡ true
    → (length (codes hash) ≡ 64) × (all is_hex_char (codes hash) ≡ true)
unfolding hash_re repeat_re
hash_re-parts hash h = ground arith

hex_of :
    (hash : String)
    → hash_re hash ≡ true
    → repeat_re is_hex_char 24 24 (codes (prefix 24 hash)) ≡ true
unfolding repeat_re
hex_of hash h =
    let (len, hex) = hash_re-parts hash h in
    rw (length-prefix 24 hash (omega (arith, len)), all-prefix is_hex_char 24 hash hex) refl

artifact_id_re-prefix :
    (hash : String) → hash_re hash ≡ true → artifact_id_re ("artifact_" ++ prefix 24 hash) ≡ true
unfolding artifact_id_re prefix_re
artifact_id_re-prefix hash h = rw (codes-append "artifact_" (prefix 24 hash), hex_of hash h) refl

-- A hash of the right form gives an id that the store accepts.
pub require_artifact_id-prefix :
    (hash : String)
    → hash_re hash ≡ true
    → require_artifact_id (str ("artifact_" ++ prefix 24 hash)) ≡ ok ("artifact_" ++ prefix 24 hash)
unfolding require_artifact_id
require_artifact_id-prefix hash h = rw (artifact_id_re-prefix hash h) refl
