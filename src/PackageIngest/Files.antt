-- ===== src/PackageIngest/Files.antt =====
-- package_ingest.py: the writing of a package. The package root holds a directory of texts for each
-- name; a call that raises leaves what it has written. Time is in whole seconds.
use Prim.Native.String.{◌++◌}
use scooling_lab.Base.{
  ℕ, ◌+◌, pos, String, not, List, [], ◌∷◌, none, some, str_eq, strip, Dict, lookup, insert,
  if◌then◌else◌,
}
use scooling_lab.Errors.{
  Result, ok, err, api, validation_error, internal_error, ◌>>=◌, ◌>>◌, raise_if,
}
use scooling_lab.Json.{Value, Items, nil, cons, int, str, arr, obj, Fields, end, field}
use scooling_lab.Platform.{Platform}
use scooling_lab.Contracts.Identifiers.{is_own_data_dataset_id}
use scooling_lab.Auth.Ingest.{env_or}
use scooling_lab.PackageIngest.{Row, VaultScope, list_key_of}

-- the seconds from the start of the year 1 to the epoch of `time.time`
abbrev unix_epoch : ℕ
unix_epoch = 62_135_596_800

-- the directories under the package root
abbrev pub Directories : Type 0
Directories = Dict (Dict String)

-- `shutil.rmtree(path)` where it exists
unfoldable pub remove {ℓ} : {V : Type ℓ} → String → Dict V → Dict V
remove k [] = []
remove k ((j, v) ∷ d) = let rest = remove k d in if str_eq j k then rest else (j, v) ∷ rest

-- `path.rename(target)` of a directory onto a name that is free
unfoldable pub rename : String → String → Directories → Directories
unfolding remove
rename from to dirs = elim (lookup from dirs) [
  | none ↦ dirs
  | some d ↦ insert to d (remove from dirs)
]

abbrev row_value : Row → Value
row_value r = obj (
    field "input" (str r.input)
      (field "instruction" (str r.instruction) (field "output" (str r.output) end)))

abbrev strings : List String → Items
strings [] = nil
strings (s ∷ rest) = cons (str s) (strings rest)

-- the scope as a dict
unfoldable pub scope_fields : VaultScope → Fields
scope_fields s =
    field "kind" (str s.kind)
      (elim s.ids [ none ↦ end | some ids ↦ field (list_key_of s.kind) (arr (strings ids)) end ])

module _ ⦃p : Platform⦄ where
  -- the lines of rows, each with its newline
  unfoldable pub json_lines : List Row → String
  json_lines [] = ""
  json_lines (r ∷ rows) = p.json_dumps (row_value r) ++ ("\n" ++ json_lines rows)

  unfoldable pub canonical_train_jsonl : List Row → Result String
  unfolding json_lines
  canonical_train_jsonl [] = err (api validation_error 400)
  canonical_train_jsonl (r ∷ rows) = ok (json_lines (r ∷ rows))

  -- `resolve_package_dir`: the name of the directory under the root
  unfoldable pub resolve_package_dir : Dict String → String → Result String
  resolve_package_dir environ dataset_id =
      raise_if (not (is_own_data_dataset_id dataset_id)) (api validation_error 400)
      >> (raise_if (str_eq (strip p.is_space (env_or "SCOOLING_LAB_PACKAGE_ROOT" "" environ)) "")
            (api internal_error 500)
          >> ok dataset_id)

  unfoldable pub manifest_text : String → ℕ → VaultScope → String → ℕ → String
  unfolding scope_fields
  manifest_text dataset_id row_count scope dataset_hash now = p.json_dumps (
      obj (
        field "datasetId" (str dataset_id) (
          field "rowCount" (int (pos row_count)) (
            field "vaultScope" (obj (scope_fields scope)) (
              field "datasetHash" (str dataset_hash)
                (field "packagedAt" (str (p.isoformat_z (unix_epoch + now))) end))))))

  -- the directory operations of `write_package_files`, and its hash
  unfoldable pub write_directory :
      ℕ → String → String → VaultScope → ℕ → Directories → String × Directories
  unfolding remove rename manifest_text
  write_directory now dataset_id text scope row_count dirs =
      let dataset_hash = p.sha256_hex text in
      let tmp = dataset_id ++ ".tmp-ingest" in
      let cleared = remove tmp dirs in
      let with_rows = insert tmp (("train.jsonl", text) ∷ []) cleared in
      let manifest = manifest_text dataset_id row_count scope dataset_hash now in
      let complete =
        insert tmp (("train.jsonl", text) ∷ ("manifest.json", manifest) ∷ []) with_rows in
      (dataset_hash, rename tmp dataset_id (remove dataset_id complete))

  -- the package is written where the checks before it return
  unfoldable pub written_by :
      ℕ → String → VaultScope → ℕ → Directories → Result String → Result String × Directories
  unfolding write_directory
  written_by now dataset_id scope row_count dirs (err e) = (err e, dirs)
  written_by now dataset_id scope row_count dirs (ok text) =
      let (dataset_hash, written) = write_directory now dataset_id text scope row_count dirs in
      (ok dataset_hash, written)

  unfoldable pub write_package_files :
      Dict String
      → ℕ
      → String
      → List Row
      → VaultScope
      → ℕ
      → Directories
      → Result String × Directories
  unfolding resolve_package_dir canonical_train_jsonl written_by
  write_package_files environ now dataset_id rows scope row_count dirs =
      written_by now dataset_id scope row_count dirs
        (resolve_package_dir environ dataset_id >>= λ _. canonical_train_jsonl rows)

  -- `content_dataset_hash`, of the file as it is
  unfoldable pub content_dataset_hash : Dict String → String → Directories → Result String
  content_dataset_hash environ dataset_id dirs =
      raise_if (str_eq (strip p.is_space (env_or "SCOOLING_LAB_PACKAGE_ROOT" "" environ)) "")
        (api internal_error 500)
      >> (elim (lookup dataset_id dirs) [
        | none ↦ err (api internal_error 500)
        | some d ↦ elim (lookup "train.jsonl" d) [
          | none ↦ err (api internal_error 500)
          | some text ↦ ok (p.sha256_hex text)
        ]
      ])
