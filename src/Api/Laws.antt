-- ===== src/Api/Laws.antt =====
-- api.py: the paths that the routes accept.
use Prim.Native.String.{◌++◌}
use scooling_lab.Base.{
  ℕ, String, Bool, true, false, any, all, List, [], ◌∷◌, Option, none, some, str_eq, codes, length,
  prefix, ends_with, remove_suffix, if◌then◌else◌, ◌==◌, ◌≡◌, refl, arith, Bool-cases, Option-cases,
  inl, inr, eq_iff, eq_refl, ap, sym, subst, ◌∙◌, ◌↔◌, append_empty, prefix-drop, prefix-append,
  drop-append, ends_with-split, ends_with-append, remove_suffix-append,
}
use scooling_lab.Contracts.Identifiers.{
  job_id_re, artifact_id_re, repeat_re, is_hex_char, is_identifier_char,
}
use scooling_lab.Contracts.Identifiers.Laws.{prefix_re-split}
use scooling_lab.Api.{
  dataset_id_re, has_slash, starts_with, remove_prefix, ending_of, without_ending, id_or_none,
  id_without_ending, parse_job_route, parse_dataset_route,
}

pub starts_with-split :
    (head text : String) → starts_with head text ≡ true → text ≡ head ++ remove_prefix head text
starts_with-split head text h =
    sym (prefix-drop (length (codes head)) text)
    ∙ ap (λ x. x ++ remove_prefix head text) ((eq_iff (prefix (length (codes head)) text) head).0 h)

pub starts_with-append : (head rest : String) → starts_with head (head ++ rest) ≡ true
starts_with-append head rest = rw (prefix-append head rest) (eq_refl head)

pub without_ending-split :
    (suffix text rest : String)
    → without_ending suffix text ≡ some rest
    → text ≡ rest ++ ending_of suffix
unfolding without_ending
without_ending-split suffix text rest h = elim (Bool-cases (str_eq suffix "")) [
  | inl e ↦ let same : some text ≡ some rest = rw e at h in rw e (cc same ∙ sym (append_empty rest))
  | inr e ↦
      let h1 = rw e at h in
      elim (Bool-cases (ends_with text ("/" ++ suffix))) [
        | inl f ↦
            let same : some (remove_suffix text ("/" ++ suffix)) ≡ some rest = rw f at h1 in
            let cut : remove_suffix text ("/" ++ suffix) ≡ rest = cc same in
            rw e (ends_with-split text ("/" ++ suffix) f ∙ ap (λ x. x ++ ("/" ++ suffix)) cut)
        | inr f ↦ let bad : none ≡ some rest = rw f at h1 in cc bad
      ]
]

pub without_ending-append :
    (suffix rest : String) → without_ending suffix (rest ++ ending_of suffix) ≡ some rest
unfolding without_ending
without_ending-append suffix rest = elim (Bool-cases (str_eq suffix "")) [
  | inl e ↦ rw e (ap some (append_empty rest))
  | inr e ↦
      rw e
        (rw (ends_with-append rest ("/" ++ suffix), remove_suffix-append rest ("/" ++ suffix)) refl)
]

-- An id of a class without a slash, in the last part of a path.
module _ (id_re : String → Bool)
    (no_slash : (s : String) → id_re s ≡ true → has_slash s ≡ false) where
  id_without_ending-split :
      (suffix text id : String)
      → id_without_ending id_re suffix text ≡ some id
      → (text ≡ id ++ ending_of suffix) × (id_re id ≡ true)
  unfolding id_without_ending id_or_none
  id_without_ending-split suffix text id h = elim (Option-cases (without_ending suffix text)) [
    | inl e ↦ let bad : none ≡ some id = rw (e, id_without_ending) at h in cc bad
    | inr (rest, e) ↦
        let h1 : id_or_none id_re rest ≡ some id = rw (e, id_without_ending) at h in
        let (same, is_id) : (rest ≡ id) × (id_re rest ≡ true) = (ground arith, ground arith) in
        subst (λ x. (text ≡ x ++ ending_of suffix) × (id_re x ≡ true)) same
          (without_ending-split suffix text rest e, is_id)
  ]

  id_without_ending-append :
      (suffix id : String)
      → id_re id ≡ true
      → id_without_ending id_re suffix (id ++ ending_of suffix) ≡ some id
  unfolding id_without_ending id_or_none
  id_without_ending-append suffix id h =
      rw (without_ending-append suffix id, id_without_ending) (rw (no_slash id h, h) refl)

hex-no_slash : (cs : List ℕ) → all is_hex_char cs ≡ true → any (λ k. k == b'/') cs ≡ false
unfolding is_hex_char
hex-no_slash [] h = refl
hex-no_slash (c ∷ cs) h = ground (arith, hex-no_slash cs)

identifier-no_slash :
    (cs : List ℕ) → all is_identifier_char cs ≡ true → any (λ k. k == b'/') cs ≡ false
unfolding is_identifier_char
identifier-no_slash [] h = refl
identifier-no_slash (c ∷ cs) h = ground (arith, identifier-no_slash cs)

pub job_id-no_slash : (s : String) → job_id_re s ≡ true → has_slash s ≡ false
unfolding job_id_re repeat_re
job_id-no_slash s h =
    let (rest, e, hex) = prefix_re-split (codes "job_") (repeat_re is_hex_char 24 24) (codes s) h in
    rw e (hex-no_slash rest (ground arith))

pub artifact_id-no_slash : (s : String) → artifact_id_re s ≡ true → has_slash s ≡ false
unfolding artifact_id_re repeat_re
artifact_id-no_slash s h =
    let (rest, e, hex) =
      prefix_re-split (codes "artifact_") (repeat_re is_hex_char 24 24) (codes s) h in
    rw e (hex-no_slash rest (ground arith))

dataset_id-no_slash : (s : String) → dataset_id_re s ≡ true → has_slash s ≡ false
unfolding dataset_id_re repeat_re
dataset_id-no_slash s h = identifier-no_slash (codes s) (ground arith)

-- what a route with an id in its last part accepts
unfoldable pub IsRoute : String → (String → Bool) → String → String → String → Type 0
IsRoute head id_re suffix path id = (path ≡ head ++ (id ++ ending_of suffix)) × (id_re id ≡ true)

module _ (head : String) (id_re : String → Bool)
    (no_slash : (s : String) → id_re s ≡ true → has_slash s ≡ false) where
  abbrev route_at : String → String → Option String
  route_at path suffix =
      if starts_with head path
      then id_without_ending id_re suffix (remove_prefix head path)
      else none

  route_at-IsRoute :
      (path suffix id : String) → route_at path suffix ≡ some id ↔ IsRoute head id_re suffix path id
  unfolding IsRoute
  route_at-IsRoute path suffix id = (splits, joins)
    where
      splits : route_at path suffix ≡ some id → IsRoute head id_re suffix path id
      splits h = elim (Bool-cases (starts_with head path)) [
        | inr e ↦ let bad : none ≡ some id = rw e at h in cc bad
        | inl e ↦
            let (text, is_id) =
              id_without_ending-split id_re no_slash suffix (remove_prefix head path) id
                (rw e at h) in
            (starts_with-split head path e ∙ ap (λ x. head ++ x) text, is_id)
      ]

      joins : IsRoute head id_re suffix path id → route_at path suffix ≡ some id
      joins (path_is, is_id) =
          let rest = id ++ ending_of suffix in
          rw path_is (
            rw (starts_with-append head rest) (
              rw (drop-append head rest) (id_without_ending-append id_re no_slash suffix id is_id)))

-- A path is parsed to a job id exactly when it is the id in the required form, after the
-- heading of the jobs and with the ending of the suffix.
pub parse_job_route-IsRoute :
    (path suffix id : String)
    → parse_job_route path suffix ≡ some id ↔ IsRoute "/training/jobs/" job_id_re suffix path id
unfolding parse_job_route
parse_job_route-IsRoute = route_at-IsRoute "/training/jobs/" job_id_re job_id-no_slash

-- A path is parsed to a dataset id exactly when it is the id in the required form, after the
-- heading of the datasets and with the ending of the suffix.
pub parse_dataset_route-IsRoute :
    (path suffix id : String)
    → parse_dataset_route path suffix ≡ some id ↔ IsRoute "/datasets/" dataset_id_re suffix path id
unfolding parse_dataset_route
parse_dataset_route-IsRoute = route_at-IsRoute "/datasets/" dataset_id_re dataset_id-no_slash
