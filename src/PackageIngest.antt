-- ===== src/PackageIngest.antt =====
-- package_ingest.py: the packages of training rows. The validation of an ingest request, and the
-- directories under the package root that it is written to.
pub mod Files
pub mod Written
pub mod Laws
use scooling_lab.Base.{
  ℕ, suc, ℤ, pos, String, Bool, true, false, ◌&&◌, ◌||◌, not, List, [], ◌∷◌, Option, none, some,
  str_eq, codes, length, leb, ltb, Dict, if◌then◌else◌, ◌==◌,
}
use scooling_lab.Errors.{Result, ok, err, api, validation_error, ◌>>=◌, ◌>>◌, raise_if}
use scooling_lab.Json.{
  Value, Items, nil, cons, null, int, str, arr, obj, Fields, end, field, get, get_or_null, has_key,
  keys_within, member,
}
use scooling_lab.Platform.{Platform}
use scooling_lab.Contracts.Identifiers.{forbidden_string_re, require_safe_identifier}
use scooling_lab.Contracts.Request.{reject_forbidden_keys}

abbrev pub allowed_package_keys : List String
allowed_package_keys = "rows" ∷ "vaultScope" ∷ "rowCount" ∷ []

abbrev pub allowed_row_keys : List String
allowed_row_keys = "instruction" ∷ "input" ∷ "output" ∷ []

abbrev pub vault_scope_kinds : List String
vault_scope_kinds = "all" ∷ "folder" ∷ "tag" ∷ "selection" ∷ "youtube" ∷ []

abbrev pub scope_id_list_keys : List String
scope_id_list_keys = "folderIds" ∷ "tagIds" ∷ "noteIds" ∷ "youtubeIds" ∷ []

-- `_SCOPE_ID_LIST_KEYS[kind]`
unfoldable pub list_key_of : String → String
list_key_of kind =
    if str_eq kind "folder"
    then "folderIds"
    else if str_eq kind "tag"
    then "tagIds"
    else if str_eq kind "selection"
    then "noteIds"
    else "youtubeIds"

-- a training row
pub record Row : Type 0 where
  pub input : String
  pub instruction : String
  pub output : String

-- what `validate_vault_scope` returns: the kind, and the ids under the key of the kind
pub record VaultScope : Type 0 where
  pub kind : String
  pub ids : Option (List String)

abbrev pub mapping_of : Value → Result Fields
mapping_of (obj fs) = ok fs
mapping_of _ = err (api validation_error 400)

abbrev pub list_of : Value → Result Items
list_of (arr xs) = ok xs
list_of _ = err (api validation_error 400)

abbrev pub count_items : Items → ℕ
count_items nil = 0
count_items (cons x xs) = suc (count_items xs)

abbrev pub is_empty : Items → Bool
is_empty nil = true
is_empty (cons x xs) = false

module _ ⦃p : Platform⦄ where
  -- one field of a row
  unfoldable pub clean_text : Option Value → Result String
  clean_text (some (str s)) =
      raise_if (ltb 16_384 (length (codes s))) (api validation_error 400)
      >> (raise_if (forbidden_string_re s) (api validation_error 400) >> ok s)
  clean_text _ = err (api validation_error 400)

  unfoldable pub row_text : String → Fields → Result String
  unfolding clean_text
  row_text k fs = clean_text (get k fs)

  unfoldable pub validate_training_row : Value → Result Row
  unfolding row_text
  validate_training_row v = do
    fs ← mapping_of v
    raise_if (not (keys_within allowed_row_keys fs)) (api validation_error 400)
    input ← row_text "input" fs
    instruction ← row_text "instruction" fs
    output ← row_text "output" fs
    ok (record { input = input; instruction = instruction; output = output })

  unfoldable pub validate_rows : Items → Result (List Row)
  unfolding validate_training_row
  validate_rows nil = ok []
  validate_rows (cons v vs) = do
    row ← validate_training_row v
    rows ← validate_rows vs
    ok (row ∷ rows)

  unfoldable pub validate_ids : Items → Result (List String)
  validate_ids nil = ok []
  validate_ids (cons v vs) = do id ← require_safe_identifier v; ids ← validate_ids vs; ok (id ∷ ids)

  -- the scope of a kind whose ids are not given
  unfoldable pub kind_alone : String → Fields → Result VaultScope
  kind_alone kind fs =
      raise_if (not (keys_within ("kind" ∷ []) fs)) (api validation_error 400)
      >> ok (record { kind = kind; ids = none })

  unfoldable pub kind_with_ids : String → Fields → Result VaultScope
  unfolding validate_ids
  kind_with_ids kind fs = do
    items ← list_of (get_or_null (list_key_of kind) fs)
    raise_if (is_empty items || ltb 256 (count_items items)) (api validation_error 400)
    ids ← validate_ids items
    ok (record { kind = kind; ids = some ids })

  unfoldable pub scope_of_kind : String → Fields → Result VaultScope
  unfolding kind_alone kind_with_ids list_key_of
  scope_of_kind kind fs =
      if str_eq kind "all"
      then kind_alone kind fs
      else if str_eq kind "youtube" && not (has_key (list_key_of kind) fs)
      then kind_alone kind fs
      else kind_with_ids kind fs

  abbrev pub kind_of : Value → Result String
  kind_of (str s) = if member s vault_scope_kinds then ok s else err (api validation_error 400)
  kind_of _ = err (api validation_error 400)

  unfoldable pub validate_vault_scope : Value → Result VaultScope
  unfolding scope_of_kind
  validate_vault_scope v = do
    fs ← mapping_of v
    reject_forbidden_keys fs
    raise_if (not (keys_within ("kind" ∷ scope_id_list_keys) fs)) (api validation_error 400)
    kind ← kind_of (get_or_null "kind" fs)
    scope_of_kind kind fs

  -- the check of a declared `rowCount`
  unfoldable pub check_declared : Value → ℕ → Result (Unit {0})
  check_declared null row_count = ok tt
  check_declared (int (pos n)) row_count =
      raise_if (not (n == row_count)) (api validation_error 400)
  check_declared _ row_count = err (api validation_error 400)

  unfoldable pub parse_package_ingest_request : Fields → Result (List Row × VaultScope × ℕ)
  unfolding validate_rows validate_vault_scope check_declared
  parse_package_ingest_request payload = do
    reject_forbidden_keys payload
    raise_if (not (keys_within allowed_package_keys payload)) (api validation_error 400)
    items ← list_of (get_or_null "rows" payload)
    raise_if (is_empty items) (api validation_error 400)
    vault_scope ← validate_vault_scope (get_or_null "vaultScope" payload)
    rows ← validate_rows items
    let row_count = length rows
    raise_if (ltb row_count 1 || ltb 10_000 row_count) (api validation_error 400)
    check_declared (get_or_null "rowCount" payload) row_count
    ok (rows, vault_scope, row_count)
