-- ===== src/Api.antt =====
-- api.py: the routes of the HTTP handler, and what it does with a request to one of them.
pub mod Laws
pub mod Artifacts
pub mod Handler
pub mod Calls
use Prim.Native.String.{◌++◌}
use scooling_lab.Base.{
  ℕ, String, Bool, true, false, ◌||◌, not, any, Option, none, some, str_eq, codes, length, prefix,
  drop, ends_with, remove_suffix, if◌then◌else◌, ◌==◌,
}
use scooling_lab.Contracts.Identifiers.{job_id_re, artifact_id_re, repeat_re, is_identifier_char}

-- `DATASET_ID_RE`; the patterns of the other ids are those of contracts.py
unfoldable pub dataset_id_re : String → Bool
unfolding repeat_re is_identifier_char
dataset_id_re s = repeat_re is_identifier_char 3 96 (codes s)

-- whether the text has a slash
abbrev pub has_slash : String → Bool
has_slash s = any (λ k. k == b'/') (codes s)

-- `text.startswith(head)`, and `text.removeprefix(head)` where it does
abbrev pub starts_with : String → String → Bool
starts_with head text = str_eq (prefix (length (codes head)) text) head

abbrev pub remove_prefix : String → String → String
remove_prefix head text = drop (length (codes head)) text

-- the parts of `text.partition(marker)`, where the marker is there
unfoldable pub partition : String → String → Option (String × String)
partition marker String.[] = if str_eq marker "" then some ("", "") else none
partition marker (String.◌∷◌ c s) =
    let rest = partition marker s in
    let text = String.◌∷◌ c s in
    if starts_with marker text
    then some ("", remove_prefix marker text)
    else elim rest [ none ↦ none | some (before, after) ↦ some (String.◌∷◌ c before, after) ]

-- the ending that a suffix asks for, with its slash
abbrev pub ending_of : String → String
ending_of suffix = if str_eq suffix "" then "" else "/" ++ suffix

-- `if suffix:`, the text without its ending; `none` where it has another
unfoldable pub without_ending : String → String → Option String
without_ending suffix text =
    if str_eq suffix ""
    then some text
    else if ends_with text ("/" ++ suffix)
    then some (remove_suffix text ("/" ++ suffix))
    else none

-- an id of one part of a path
unfoldable pub id_or_none : (String → Bool) → String → Option String
id_or_none id_re text = if has_slash text || not (id_re text) then none else some text

unfoldable pub id_without_ending : (String → Bool) → String → String → Option String
unfolding without_ending id_or_none
id_without_ending id_re suffix text = elim (without_ending suffix text) [
  | none ↦ none
  | some rest ↦ id_or_none id_re rest
]

unfoldable pub parse_job_route : String → String → Option String
unfolding id_without_ending
parse_job_route path suffix =
    if starts_with "/training/jobs/" path
    then id_without_ending job_id_re suffix (remove_prefix "/training/jobs/" path)
    else none

unfoldable pub parse_dataset_route : String → String → Option String
unfolding id_without_ending
parse_dataset_route path suffix =
    if starts_with "/datasets/" path
    then id_without_ending dataset_id_re suffix (remove_prefix "/datasets/" path)
    else none

unfoldable pub ids_or_none : String → String → Option (String × String)
ids_or_none job_id artifact_id =
    if has_slash artifact_id || not (job_id_re job_id) || not (artifact_id_re artifact_id)
    then none
    else some (job_id, artifact_id)

-- the ids on the two sides of the marker
unfoldable pub artifact_route : String → String → String → Option (String × String)
unfolding without_ending ids_or_none
artifact_route suffix job_id tail = elim (without_ending suffix tail) [
  | none ↦ none
  | some artifact_id ↦ ids_or_none job_id artifact_id
]

unfoldable pub parse_artifact_route : String → String → Option (String × String)
unfolding artifact_route partition
parse_artifact_route path suffix =
    if starts_with "/training/jobs/" path
    then elim (partition "/artifacts/" (remove_prefix "/training/jobs/" path)) [
      | none ↦ none
      | some (job_id, tail) ↦ artifact_route suffix job_id tail
    ]
    else none
