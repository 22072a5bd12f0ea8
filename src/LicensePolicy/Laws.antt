-- ===== src/LicensePolicy/Laws.antt =====
-- license_policy.py: which inventories are accepted.
use scooling_lab.Base.{
  ℕ, zero, suc, ◌≤◌, ◌<◌, String, Bool, true, false, not, any, all, true_of_not, subst, List, [],
  ◌∷◌, some, str_eq, codes, length, All, strip, split, ◌≡◌, refl, arith, ◌↔◌, ap, Bool-cases, inl,
  inr, eq_iff,
}
use scooling_lab.Errors.{Exception, ok, value_error, raise_if, >>=-eq-ok, raise_if-ok}
use scooling_lab.Json.{member}
use scooling_lab.Platform.{Platform}
use scooling_lab.LicensePolicy.{
  allowed_licenses, blocked_licenses, BomEntry, is_slash, strip_slashes, has_double, replace_double,
  collapse, with_slashes, normalize_source_path, is_blocked_segment, validate_source_path,
  validate_license, is_blank, validate_entry, validate_each, validate_entries,
}

replace_double-le : (s : String) → length (codes (replace_double s)) ≤ length (codes s)
unfolding replace_double
replace_double-le String.[] = omega arith
replace_double-le (String.◌∷◌ c String.[]) = omega arith
replace_double-le (String.◌∷◌ c (String.◌∷◌ e s)) =
    ground (arith, replace_double-le s, replace_double-le (String.◌∷◌ e s))

replace_double-lt :
    (s : String) → has_double s ≡ true → length (codes (replace_double s)) < length (codes s)
unfolding replace_double has_double
replace_double-lt String.[] h = cc h
replace_double-lt (String.◌∷◌ c String.[]) h = cc h
replace_double-lt (String.◌∷◌ c (String.◌∷◌ e s)) h =
    ground (arith, replace_double-le s, replace_double-lt (String.◌∷◌ e s))

-- A round more than there are characters is enough, since every round takes one away.
collapse_done :
    (n : ℕ) (s : String)
    → length (codes s) < n
    → (t : String) × (collapse n s ≡ some t) × (has_double t ≡ false)
unfolding collapse
collapse_done zero s h = (s, ground arith, ground arith)
collapse_done (suc n) s h = elim (Bool-cases (has_double s)) [
  | inr e ↦ (s, rw e refl, e)
  | inl e ↦
      let (t, f, g) =
        collapse_done n (replace_double s) (omega (arith, h, replace_double-lt s e)) in
      (t, rw e f, g)
]

-- Two lists without a common member.
apart-member :
    (xs ys : List String) (s : String)
    → all (λ x. not (member x ys)) xs ≡ true
    → member s xs ≡ true
    → member s ys ≡ false
apart-member [] ys s h g = cc g
apart-member (x ∷ xs) ys s h g = elim (Bool-cases (str_eq x s)) [
  | inl e ↦
      let same : x ≡ s = (eq_iff x s).0 e in
      let free : member x ys ≡ false = ground arith in subst (λ k. member k ys ≡ false) same free
  | inr e ↦ apart-member xs ys s (ground arith) (ground arith)
]

-- A license of the list of those that are allowed is not in the list of those that are blocked.
allowed_not_blocked :
    (s : String) → member s allowed_licenses ≡ true → member s blocked_licenses ≡ false
allowed_not_blocked s = apart-member allowed_licenses blocked_licenses s refl

raise_if-of_ok : (b : Bool) (e : Exception) → raise_if b e ≡ ok tt → b ≡ false
raise_if-of_ok true e h = cc h
raise_if-of_ok false e h = refl

module _ ⦃p : Platform⦄ where
  -- The normalization of a path ends, whatever the path.
  normalize_source_path_done :
      (source_path : String) → (t : String) × (normalize_source_path source_path ≡ ok t)
  unfolding normalize_source_path
  normalize_source_path_done source_path =
      let stripped = with_slashes (strip p.is_space source_path) in
      let (t, e, _) = collapse_done (suc (length (codes stripped))) stripped (omega arith) in
      (strip is_slash t, ap strip_slashes e)

  -- A path none of whose parts is blocked, once it is normalized.
  abbrev pub HasFreePath : String → Type 0
  HasFreePath source_path =
      (t : String) × (normalize_source_path source_path ≡ ok t)
      × (any is_blocked_segment (split b'/' t) ≡ false)

  -- An entry with a name, a version and evidence, an allowed license and a free path.
  unfoldable pub IsAllowed : BomEntry → Type 0
  IsAllowed e =
      (is_blank e.name ≡ false)
      × (is_blank e.version ≡ false)
      × (is_blank e.evidence ≡ false)
      × (member (strip p.is_space e.license) allowed_licenses ≡ true)
      × HasFreePath e.source_path

  validate_license_iff :
      (s : String)
      → validate_license s ≡ ok tt ↔ member (strip p.is_space s) allowed_licenses ≡ true
  unfolding validate_license
  validate_license_iff s = (splits, joins)
    where
      t : String
      t = strip p.is_space s

      splits : validate_license s ≡ ok tt → member t allowed_licenses ≡ true
      splits h =
          let (_, h1) = raise_if-ok (member t blocked_licenses) value_error _ h in
          true_of_not (member t allowed_licenses)
            (raise_if-of_ok (not (member t allowed_licenses)) value_error h1)

      joins : member t allowed_licenses ≡ true → validate_license s ≡ ok tt
      joins h = rw (allowed_not_blocked t h, h) refl

  validate_source_path_iff : (s : String) → validate_source_path s ≡ ok tt ↔ HasFreePath s
  unfolding validate_source_path
  validate_source_path_iff s = (
    (λ h.
        let (t, e, h1) = >>=-eq-ok (normalize_source_path s) _ h in
        (t, e, raise_if-of_ok (any is_blocked_segment (split b'/' t)) value_error h1)),
    λ h. rw h.1 (rw h.2 refl),
  )

  validate_entry_iff : (e : BomEntry) → validate_entry e ≡ ok tt ↔ IsAllowed e
  unfolding validate_entry IsAllowed
  validate_entry_iff e = (splits, joins)
    where
      splits : validate_entry e ≡ ok tt → IsAllowed e
      splits h =
          let (name, h1) = raise_if-ok (is_blank e.name) value_error _ h in
          let (version, h2) = raise_if-ok (is_blank e.version) value_error _ h1 in
          let (evidence, h3) = raise_if-ok (is_blank e.evidence) value_error _ h2 in
          let (_, license, path) = >>=-eq-ok (validate_license e.license) _ h3 in
          (
            name,
            version,
            evidence,
            (validate_license_iff e.license).0 license,
            (validate_source_path_iff e.source_path).0 path,
          )

      joins : IsAllowed e → validate_entry e ≡ ok tt
      joins (name, version, evidence, license, path) =
          rw (name, version, evidence)
            (rw ((validate_license_iff e.license).1 license)
              ((validate_source_path_iff e.source_path).1 path))

  validate_each_iff : (es : List BomEntry) → validate_each es ≡ ok tt ↔ All IsAllowed es
  unfolding validate_each
  validate_each_iff [] = ((λ h. tt), λ h. refl)
  validate_each_iff (e ∷ es) = (
    (λ h.
        let (_, first, rest) = >>=-eq-ok (validate_entry e) _ h in
        ((validate_entry_iff e).0 first, (validate_each_iff es).0 rest)),
    λ h. rw ((validate_entry_iff e).1 h.0) ((validate_each_iff es).1 h.1),
  )

  -- The entries of an inventory are accepted exactly when there is one at least and each has a
  -- name, a version and evidence that are not blank, a license of the list of those that are
  -- allowed, and a source path that normalizes to a text none of whose parts is blocked; the
  -- list of blocked licenses refuses nothing more.
  pub validate_entries_iff :
      (es : List BomEntry) → validate_entries es ≡ ok tt ↔ ((1 ≤ length es) × All IsAllowed es)
  unfolding validate_entries
  validate_entries_iff [] = ((λ h. cc h), λ h. ground (arith, h.0))
  validate_entries_iff (e ∷ es) =
      let both = validate_each_iff (e ∷ es) in ((λ h. (omega arith, both.0 h)), λ h. both.1 h.1)
