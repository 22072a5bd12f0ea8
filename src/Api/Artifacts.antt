-- ===== src/Api/Artifacts.antt =====
-- api.py: the paths of artifacts, whose two ids stand on the sides of a marker.
use Prim.Native.Char.{Char, code}
use Prim.Native.String.{◌++◌}
use Prim.Native.String.append
use scooling_lab.Base.{
  String, true, false, ◌||◌, not, none, some, codes, length, ◌==◌, ◌≡◌, refl, arith, Bool-cases,
  Option-cases, inl, inr, eq_iff, ap, sym, subst, ◌∙◌, ◌↔◌, prefix, drop-append,
}
use scooling_lab.Contracts.Identifiers.{job_id_re, artifact_id_re}
use scooling_lab.Api.{
  has_slash, starts_with, remove_prefix, partition, ending_of, without_ending, parse_artifact_route,
  artifact_route, ids_or_none,
}
use scooling_lab.Api.Laws.{
  starts_with-split, starts_with-append, without_ending-split, without_ending-append,
  job_id-no_slash, artifact_id-no_slash,
}

abbrev marker : String
marker = "/artifacts/"

-- The marker is the first one, so nothing that stands before it has a slash.
other_start :
    (c : Char) (s : String) → (code c == b'/') ≡ false → starts_with marker (String.◌∷◌ c s) ≡ false
other_start c s h = elim (Bool-cases (starts_with marker (String.◌∷◌ c s))) [
  | inr e ↦ e
  | inl e ↦
      let same = ap codes ((eq_iff (prefix (length (codes marker)) (String.◌∷◌ c s)) marker).0 e) in
      ground (arith, same)
]

partition-here :
    (text : String)
    → starts_with marker text ≡ true
    → partition marker text ≡ some ("", remove_prefix marker text)
unfolding partition
partition-here String.[] h = cc h
partition-here (String.◌∷◌ c s) h = rw h refl

partition-append :
    (before after : String)
    → has_slash before ≡ false
    → partition marker (before ++ (marker ++ after)) ≡ some (before, after)
unfolding partition
partition-append String.[] after h = rw (append.nil (marker ++ after)) (
    partition-here (marker ++ after) (starts_with-append marker after)
    ∙ ap (λ x. some ("", x)) (drop-append marker after))
partition-append (String.◌∷◌ c before) after h =
    let rest = before ++ (marker ++ after) in
    rw (append.cons c before (marker ++ after)) (
      rw (other_start c rest (ground arith))
        (rw (partition-append before after (ground arith)) refl))

partition-split :
    (text before after : String)
    → partition marker text ≡ some (before, after)
    → text ≡ before ++ (marker ++ after)
unfolding partition
partition-split String.[] before after h = cc h
partition-split (String.◌∷◌ c s) before after h =
    elim (Bool-cases (starts_with marker (String.◌∷◌ c s))) [
      | inl e ↦
          let same : some ("", remove_prefix marker (String.◌∷◌ c s)) ≡ some (before, after) =
            rw e at h in
          let (first, second) : ("" ≡ before) × (remove_prefix marker (String.◌∷◌ c s) ≡ after) =
            (cc same, cc same) in
          starts_with-split marker (String.◌∷◌ c s) e
          ∙ ap (λ x. marker ++ x) second
          ∙ sym (append.nil (marker ++ after))
          ∙ ap (λ x. x ++ (marker ++ after)) first
      | inr e ↦ elim (Option-cases (partition marker s)) [
        | inl f ↦ let bad : none ≡ some (before, after) = rw (e, f) at h in cc bad
        | inr ((b, a), f) ↦
            let same : some (String.◌∷◌ c b, a) ≡ some (before, after) = rw (e, f) at h in
            let (first, second) : (String.◌∷◌ c b ≡ before) × (a ≡ after) = (cc same, cc same) in
            ap (String.◌∷◌ c) (partition-split s b a f)
            ∙ sym (append.cons c b (marker ++ a))
            ∙ ap (λ x. x ++ (marker ++ a)) first
            ∙ ap (λ x. before ++ (marker ++ x)) second
      ]
    ]

-- what a route of an artifact accepts
unfoldable pub IsArtifactRoute : String → String → String → String → Type 0
IsArtifactRoute suffix path job_id artifact_id =
    (path ≡ "/training/jobs/" ++ (job_id ++ (marker ++ (artifact_id ++ ending_of suffix))))
    × (job_id_re job_id ≡ true)
    × (artifact_id_re artifact_id ≡ true)

ids_or_none-split :
    (job_id id j a : String)
    → ids_or_none job_id id ≡ some (j, a)
    → (job_id ≡ j) × (id ≡ a) × (job_id_re job_id ≡ true) × (artifact_id_re id ≡ true)
unfolding ids_or_none
ids_or_none-split job_id id j a h =
    let test = has_slash id || not (job_id_re job_id) || not (artifact_id_re id) in
    elim (Bool-cases test) [
      | inl e ↦ let bad : none ≡ some (j, a) = rw e at h in cc bad
      | inr e ↦
          let pair : some (job_id, id) ≡ some (j, a) = rw e at h in
          (cc pair, cc pair, ground (arith, e), ground (arith, e))
    ]

artifact_route-split :
    (suffix job_id tail j a : String)
    → artifact_route suffix job_id tail ≡ some (j, a)
    → (job_id ≡ j)
      × (tail ≡ a ++ ending_of suffix)
      × (job_id_re j ≡ true)
      × (artifact_id_re a ≡ true)
unfolding artifact_route
artifact_route-split suffix job_id tail j a h = elim (Option-cases (without_ending suffix tail)) [
  | inl e ↦ let bad : none ≡ some (j, a) = rw (e, artifact_route) at h in cc bad
  | inr (id, e) ↦
      let h1 : ids_or_none job_id id ≡ some (j, a) = rw (e, artifact_route) at h in
      let (is_job, same, job, artifact) = ids_or_none-split job_id id j a h1 in
      (
        is_job,
        without_ending-split suffix tail id e ∙ ap (λ x. x ++ ending_of suffix) same,
        subst (λ x. job_id_re x ≡ true) is_job job,
        subst (λ x. artifact_id_re x ≡ true) same artifact,
      )
]

-- A path is parsed to a job id and an artifact id exactly when it is the two ids in the
-- required forms, with the heading, the marker between them and the ending of the suffix.
pub parse_artifact_route-IsArtifactRoute :
    (path suffix job_id artifact_id : String)
    → parse_artifact_route path suffix ≡ some (job_id, artifact_id)
      ↔ IsArtifactRoute suffix path job_id artifact_id
unfolding parse_artifact_route IsArtifactRoute
parse_artifact_route-IsArtifactRoute path suffix j a = (splits, joins)
  where
    splits : parse_artifact_route path suffix ≡ some (j, a) → IsArtifactRoute suffix path j a
    splits h = elim (Bool-cases (starts_with "/training/jobs/" path)) [
      | inr e ↦ let bad : none ≡ some (j, a) = rw e at h in cc bad
      | inl e ↦
          let rest = remove_prefix "/training/jobs/" path in
          let h1 = rw e at h in
          elim (Option-cases (partition marker rest)) [
            | inl f ↦ let bad : none ≡ some (j, a) = rw f at h1 in cc bad
            | inr ((job_id, tail), f) ↦
                let (same, tail_is, job, artifact) =
                  artifact_route-split suffix job_id tail j a (rw f at h1) in
                (
                  starts_with-split "/training/jobs/" path e
                      ∙ ap (λ x. "/training/jobs/" ++ x)
                          (partition-split rest job_id tail f
                            ∙ ap (λ x. x ++ (marker ++ tail)) same
                            ∙ ap (λ x. j ++ (marker ++ x)) tail_is),
                  job,
                  artifact,
                )
          ]
    ]

    joins : IsArtifactRoute suffix path j a → parse_artifact_route path suffix ≡ some (j, a)
    joins (path_is, job, artifact) =
        let tail = a ++ ending_of suffix in
        let rest = j ++ (marker ++ tail) in
        rw path_is (
          rw (starts_with-append "/training/jobs/" rest) (
            rw (drop-append "/training/jobs/" rest) (
              rw (partition-append j tail (job_id-no_slash j job)) (
                unfold artifact_route in
                unfold ids_or_none in
                rw (without_ending-append suffix a, artifact_route)
                  (rw (artifact_id-no_slash a artifact, job, artifact) refl)))))
