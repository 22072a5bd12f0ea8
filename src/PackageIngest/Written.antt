-- ===== src/PackageIngest/Written.antt =====
-- package_ingest.py: what the writing of a package leaves under the root.
use Prim.Native.String.{◌++◌}
use scooling_lab.Base.{
  ℕ, ◌≤◌, String, false, not, List, [], ◌∷◌, none, some, ◌≡◌, refl, ap, subst, ◌∙◌, arith, str_eq,
  eq_iff, eq_refl, strip, codes, length, length-append_text, Dict, lookup, insert, lookup-insert,
  if◌then◌else◌, Bool-cases, inl, inr,
}
use scooling_lab.Errors.{Result, ok, err, >>=-eq-ok, raise_if-ok, ok-injective, ◌>>=◌}
use scooling_lab.Platform.{Platform}
use scooling_lab.Contracts.Identifiers.{is_own_data_dataset_id}
use scooling_lab.Auth.Ingest.{env_or}
use scooling_lab.PackageIngest.{Row, VaultScope}
use scooling_lab.PackageIngest.Files.{
  Directories, remove, rename, canonical_train_jsonl, resolve_package_dir, manifest_text,
  write_directory, written_by, write_package_files, content_dataset_hash,
}

lookup-remove :
    {V : Type 0} (k j : String) (d : Dict V)
    → lookup j (remove k d) ≡ (if str_eq k j then none else lookup j d)
unfolding lookup remove
lookup-remove k j [] = ground arith
lookup-remove k j ((i, v) ∷ d) =
    ground (arith, lookup-remove k j d, eq_iff i k, eq_iff i j, eq_iff k j)

abbrev tmp_of : String → String
tmp_of dataset_id = dataset_id ++ ".tmp-ingest"

tmp_differs : (s : String) → str_eq (tmp_of s) s ≡ false
tmp_differs s = elim (Bool-cases (str_eq (tmp_of s) s)) [
  | inr h ↦ h
  | inl h ↦
      let same = ap (λ x. length (codes x)) ((eq_iff (tmp_of s) s).0 h) in
      let bad : 1 ≤ 0 = omega (arith, length-append_text s ".tmp-ingest", same) in
      ground (arith, bad)
]

module _ ⦃p : Platform⦄ where
  -- The directories as the writing leaves them: the package with its rows, and the others.
  unfoldable pub IsWritten : String → String → Directories → Directories → Type 0
  IsWritten dataset_id text dirs written =
      ((d : Dict String) × (lookup dataset_id written ≡ some d)
        × (lookup "train.jsonl" d ≡ some text))
      × (lookup (tmp_of dataset_id) written ≡ none)
      × ((k : String)
          → str_eq dataset_id k ≡ false
          → str_eq (tmp_of dataset_id) k ≡ false
          → lookup k written ≡ lookup k dirs)

  -- a name after the directory operations, with `d` for the complete directory
  lookup-rename :
      (k t j : String) (d1 d2 : Dict String) (dirs : Directories)
      → str_eq t k ≡ false
      → lookup j (rename t k (remove k (insert t d2 (insert t d1 (remove t dirs)))))
        ≡ (if str_eq k j then some d2 else if str_eq t j then none else lookup j dirs)
  unfolding rename
  lookup-rename k t j d1 d2 dirs h =
      let b = insert t d2 (insert t d1 (remove t dirs)) in
      let found : lookup t (remove k b) ≡ some d2 = ground (
        arith,
        lookup-remove k t b,
        lookup-insert t t d2 (insert t d1 (remove t dirs)),
        eq_refl t,
        eq_iff k t,
        eq_iff t k,
      ) in
      rw (found, rename)
        (ground (
          arith,
          lookup-insert k j d2 (remove t (remove k b)),
          lookup-remove t j (remove k b),
          lookup-remove k j b,
          lookup-insert t j d2 (insert t d1 (remove t dirs)),
          lookup-insert t j d1 (remove t dirs),
          lookup-remove t j dirs,
        ))

  write_directory-IsWritten :
      (now : ℕ) (k text : String) (scope : VaultScope) (row_count : ℕ) (dirs : Directories)
      → IsWritten k text dirs (write_directory now k text scope row_count dirs).1
  unfolding IsWritten write_directory lookup
  write_directory-IsWritten now k text scope row_count dirs =
      let t = tmp_of k in
      let d1 : Dict String = ("train.jsonl", text) ∷ [] in
      let d2 : Dict String =
        ("train.jsonl", text)
        ∷ ("manifest.json", manifest_text k row_count scope (p.sha256_hex text) now)
        ∷ [] in
      let at = λ (j : String). lookup-rename k t j d1 d2 dirs (tmp_differs k) in
      (
        (d2, (ground (arith, at k, eq_refl k)), refl),
        (ground (arith, at t, eq_refl t, eq_iff k t, eq_iff t k, tmp_differs k)),
        λ j h g. ground (arith, at j),
      )

  hash_of_written :
      (environ : Dict String) (k text : String) (d : Dict String) (dirs : Directories)
      → str_eq (strip p.is_space (env_or "SCOOLING_LAB_PACKAGE_ROOT" "" environ)) "" ≡ false
      → lookup k dirs ≡ some d
      → lookup "train.jsonl" d ≡ some text
      → content_dataset_hash environ k dirs ≡ ok (p.sha256_hex text)
  unfolding content_dataset_hash
  hash_of_written environ k text d dirs root there rows = rw (root, there, rows) refl

  outcome :
      (environ : Dict String) (now : ℕ) (k : String) (rows : List Row) (scope : VaultScope)
      (row_count : ℕ) (dirs written : Directories) (hash : String) (r : Result String)
      → (resolve_package_dir environ k >>= λ _. canonical_train_jsonl rows) ≡ r
      → written_by now k scope row_count dirs r ≡ (ok hash, written)
      → (text : String) × (canonical_train_jsonl rows ≡ ok text)
        × (content_dataset_hash environ k written ≡ ok hash)
        × IsWritten k text dirs written
  unfolding resolve_package_dir IsWritten written_by write_directory
  outcome environ now k rows scope row_count dirs written hash (err e) made h =
      let bad = ap (λ (x : Result String × Directories). x.0) h in cc bad
  outcome environ now k rows scope row_count dirs written hash (ok text) made h =
      let (_, resolved, canonical) = >>=-eq-ok (resolve_package_dir environ k) _ made in
      let (_, rooted) = raise_if-ok (not (is_own_data_dataset_id k)) _ _ resolved in
      let (root, _) =
        raise_if-ok (str_eq (strip p.is_space (env_or "SCOOLING_LAB_PACKAGE_ROOT" "" environ)) "") _
          _ rooted in
      let result = write_directory now k text scope row_count dirs in
      let is_hash : p.sha256_hex text ≡ hash =
        ok-injective (ap (λ (x : Result String × Directories). x.0) h) in
      let is_written : result.1 ≡ written = ap (λ (x : Result String × Directories). x.1) h in
      let all =
        subst (IsWritten k text dirs) is_written
          (write_directory-IsWritten now k text scope row_count dirs) in
      (
        text,
        canonical,
        hash_of_written environ k text all.0.0 written root all.0.1 all.0.2 ∙ ap ok is_hash,
        all,
      )

  -- Where the writing of a package returns a hash, the directory of the dataset holds the
  -- lines of its rows, the hash is the one that the content of the directory has when it is
  -- read again, and every other directory is as before, but for the temporary one, which is
  -- gone.
  pub write_package_files-IsWritten :
      (environ : Dict String) (now : ℕ) (k : String) (rows : List Row) (scope : VaultScope)
      (row_count : ℕ) (dirs written : Directories) (hash : String)
      → write_package_files environ now k rows scope row_count dirs ≡ (ok hash, written)
      → (text : String) × (canonical_train_jsonl rows ≡ ok text)
        × (content_dataset_hash environ k written ≡ ok hash)
        × IsWritten k text dirs written
  unfolding write_package_files
  write_package_files-IsWritten environ now k rows scope row_count dirs written hash h =
      outcome environ now k rows scope row_count dirs written hash
        (resolve_package_dir environ k >>= λ _. canonical_train_jsonl rows) refl h
