-- ===== src/PackageIngest/Laws.antt =====
-- package_ingest.py: what an accepted request holds.
use scooling_lab.Base.{
  ℕ, ◌≤◌, ltb, String, true, false, ◌&&◌, ◌||◌, not, List, [], ◌∷◌, Option, some, All, ◌≡◌, refl,
  subst, arith, str_eq, codes, length, Bool-cases, inl, inr,
}
use scooling_lab.Errors.{ok, >>=-eq-ok, raise_if-ok, ok-injective}
use scooling_lab.Json.{
  Value, Items, nil, cons, str, Fields, get, get_or_null, has_key, keys_within, member,
}
use scooling_lab.Platform.{Platform}
use scooling_lab.Contracts.Identifiers.{
  forbidden_string_re, require_safe_identifier, safe_identifier_re,
}
use scooling_lab.Contracts.Identifiers.Laws.{require_safe_identifier-ok}
use scooling_lab.Contracts.Request.{reject_forbidden_keys}
use scooling_lab.PackageIngest.{
  Row, VaultScope, allowed_package_keys, allowed_row_keys, vault_scope_kinds, scope_id_list_keys,
  list_key_of, count_items, mapping_of, list_of, is_empty, kind_of, clean_text, row_text,
  validate_training_row, validate_rows, validate_ids, kind_alone, kind_with_ids, scope_of_kind,
  validate_vault_scope, check_declared, parse_package_ingest_request,
}

module _ ⦃p : Platform⦄ where
  -- A text of at most 16,384 characters without a forbidden substring.
  unfoldable pub IsClean : String → Type 0
  IsClean s = (length (codes s) ≤ 16_384) × (forbidden_string_re s ≡ false)

  unfoldable pub IsCleanRow : Row → Type 0
  IsCleanRow r = IsClean r.input × IsClean r.instruction × IsClean r.output

-- A known kind, and at most 256 ids, each an identifier.
unfoldable pub IsBoundedScope : VaultScope → Type 0
IsBoundedScope s =
    (member s.kind vault_scope_kinds ≡ true)
    × ((ids : List String)
        → s.ids ≡ some ids
        → (length ids ≤ 256) × All (λ id. safe_identifier_re id ≡ true) ids)

module _ ⦃p : Platform⦄ where
  clean_text-IsClean : (v : Option Value) {s : String} → clean_text v ≡ ok s → IsClean s
  unfolding clean_text IsClean
  clean_text-IsClean (some (str t)) h =
      let (short, h1) = raise_if-ok (ltb 16_384 (length (codes t))) _ _ h in
      let (clean, h2) = raise_if-ok (forbidden_string_re t) _ _ h1 in
      subst (λ x. (length (codes x) ≤ 16_384) × (forbidden_string_re x ≡ false)) (ok-injective h2)
        (ground (arith, short), clean)
  clean_text-IsClean _ h = cc

  row_text-IsClean : (k : String) (fs : Fields) {s : String} → row_text k fs ≡ ok s → IsClean s
  unfolding row_text
  row_text-IsClean k fs h = clean_text-IsClean (get k fs) h

  validate_training_row-IsCleanRow :
      (v : Value) {r : Row} → validate_training_row v ≡ ok r → IsCleanRow r
  unfolding validate_training_row IsCleanRow
  validate_training_row-IsCleanRow v {r} h =
      let (fs, _, h1) = >>=-eq-ok (mapping_of v) _ h in
      let (_, h2) = raise_if-ok (not (keys_within allowed_row_keys fs)) _ _ h1 in
      let (input, is_input, h3) = >>=-eq-ok (row_text "input" fs) _ h2 in
      let (instruction, is_instruction, h4) = >>=-eq-ok (row_text "instruction" fs) _ h3 in
      let (output, is_output, h5) = >>=-eq-ok (row_text "output" fs) _ h4 in
      let made : record { input = input; instruction = instruction; output = output } ≡ r =
        ok-injective h5 in
      subst (λ (x : Row). IsClean x.input × IsClean x.instruction × IsClean x.output) made
        (
          row_text-IsClean "input" fs is_input,
          row_text-IsClean "instruction" fs is_instruction,
          row_text-IsClean "output" fs is_output,
        )

  validate_rows-All :
      (xs : Items) {rows : List Row} → validate_rows xs ≡ ok rows → All IsCleanRow rows
  unfolding validate_rows
  validate_rows-All nil {rows} h = subst (All IsCleanRow) (ok-injective h) tt
  validate_rows-All (cons v vs) {rows} h =
      let (row, is_row, h1) = >>=-eq-ok (validate_training_row v) _ h in
      let (rest, is_rest, h2) = >>=-eq-ok (validate_rows vs) _ h1 in
      subst (All IsCleanRow) (ok-injective h2)
        (validate_training_row-IsCleanRow v is_row, validate_rows-All vs is_rest)

  validate_ids-All :
      (xs : Items) {ids : List String}
      → validate_ids xs ≡ ok ids
      → (length ids ≡ count_items xs) × All (λ id. safe_identifier_re id ≡ true) ids
  unfolding validate_ids
  validate_ids-All nil {ids} h =
      subst (λ l. (length l ≡ 0) × All (λ id. safe_identifier_re id ≡ true) l) (ok-injective h)
        (refl, tt)
  validate_ids-All (cons v vs) {ids} h =
      let (id, is_id, h1) = >>=-eq-ok (require_safe_identifier v) _ h in
      let (rest, is_rest, h2) = >>=-eq-ok (validate_ids vs) _ h1 in
      let (size, safe) = validate_ids-All vs is_rest in
      subst (λ l. (length l ≡ count_items (cons v vs)) × All (λ i. safe_identifier_re i ≡ true) l)
        (ok-injective h2) (omega (arith, size), ((require_safe_identifier-ok v is_id).1, safe))

  -- the scope that a kind alone gives, and the one with ids
  kind_alone-IsBoundedScope :
      (kind : String) (fs : Fields) {s : VaultScope}
      → member kind vault_scope_kinds ≡ true
      → kind_alone kind fs ≡ ok s
      → IsBoundedScope s
  unfolding kind_alone IsBoundedScope
  kind_alone-IsBoundedScope kind fs known h =
      let (_, h1) = raise_if-ok (not (keys_within ("kind" ∷ []) fs)) _ _ h in
      subst IsBoundedScope (ok-injective h1) (known, λ ids e. cc e)

  kind_with_ids-IsBoundedScope :
      (kind : String) (fs : Fields) {s : VaultScope}
      → member kind vault_scope_kinds ≡ true
      → kind_with_ids kind fs ≡ ok s
      → IsBoundedScope s
  unfolding kind_with_ids IsBoundedScope
  kind_with_ids-IsBoundedScope kind fs known h =
      let (items, _, h1) = >>=-eq-ok (list_of (get_or_null (list_key_of kind) fs)) _ h in
      let (few, h2) = raise_if-ok (is_empty items || ltb 256 (count_items items)) _ _ h1 in
      let (ids, is_ids, h3) = >>=-eq-ok (validate_ids items) _ h2 in
      let (size, safe) = validate_ids-All items is_ids in
      let bounded : length ids ≤ 256 = ground (arith, few, size) in
      subst IsBoundedScope (ok-injective h3) (
        known,
        λ l e.
            let same : ids ≡ l = cc e in
            subst (λ x. (length x ≤ 256) × All (λ id. safe_identifier_re id ≡ true) x) same
              (bounded, safe),
      )

  scope_of_kind-IsBoundedScope :
      (kind : String) (fs : Fields) {s : VaultScope}
      → member kind vault_scope_kinds ≡ true
      → scope_of_kind kind fs ≡ ok s
      → IsBoundedScope s
  unfolding scope_of_kind
  scope_of_kind-IsBoundedScope kind fs known h = elim (Bool-cases (str_eq kind "all")) [
    | inl a ↦ kind_alone-IsBoundedScope kind fs known (rw a at h)
    | inr a ↦ elim (Bool-cases (str_eq kind "youtube" && not (has_key (list_key_of kind) fs))) [
      | inl b ↦ kind_alone-IsBoundedScope kind fs known (rw (a, b) at h)
      | inr b ↦ kind_with_ids-IsBoundedScope kind fs known (rw (a, b) at h)
    ]
  ]

  kind_of-known : (v : Value) {k : String} → kind_of v ≡ ok k → member k vault_scope_kinds ≡ true
  kind_of-known (str s) h = ground arith
  kind_of-known _ h = cc

  validate_vault_scope-IsBoundedScope :
      (v : Value) {s : VaultScope} → validate_vault_scope v ≡ ok s → IsBoundedScope s
  unfolding validate_vault_scope
  validate_vault_scope-IsBoundedScope v h =
      let (fs, _, h1) = >>=-eq-ok (mapping_of v) _ h in
      let (_, _, h2) = >>=-eq-ok (reject_forbidden_keys fs) _ h1 in
      let (_, h3) = raise_if-ok (not (keys_within ("kind" ∷ scope_id_list_keys) fs)) _ _ h2 in
      let (kind, is_kind, h4) = >>=-eq-ok (kind_of (get_or_null "kind" fs)) _ h3 in
      scope_of_kind-IsBoundedScope kind fs (kind_of-known (get_or_null "kind" fs) is_kind) h4

  -- An accepted package has as many rows as the count says, from 1 to 10,000, each of texts of
  -- at most 16,384 characters without a forbidden substring, and a scope of a known kind whose
  -- ids, where it has any, are at most 256 identifiers.
  pub parse_package_ingest_request-IsCleanRow :
      (payload : Fields) (rows : List Row) (scope : VaultScope) (row_count : ℕ)
      → parse_package_ingest_request payload ≡ ok (rows, scope, row_count)
      → (row_count ≡ length rows)
        × (1 ≤ row_count)
        × (row_count ≤ 10_000)
        × All IsCleanRow rows
        × IsBoundedScope scope
  unfolding parse_package_ingest_request
  parse_package_ingest_request-IsCleanRow payload rows scope n h =
      let (_, _, h1) = >>=-eq-ok (reject_forbidden_keys payload) _ h in
      let (_, h2) = raise_if-ok (not (keys_within allowed_package_keys payload)) _ _ h1 in
      let (items, _, h3) = >>=-eq-ok (list_of (get_or_null "rows" payload)) _ h2 in
      let (_, h4) = raise_if-ok (is_empty items) _ _ h3 in
      let (scope', is_scope, h5) =
        >>=-eq-ok (validate_vault_scope (get_or_null "vaultScope" payload)) _ h4 in
      let (rows', is_rows, h6) = >>=-eq-ok (validate_rows items) _ h5 in
      let (range, h7) = raise_if-ok (ltb (length rows') 1 || ltb 10_000 (length rows')) _ _ h6 in
      let (_, _, h8) =
        >>=-eq-ok (check_declared (get_or_null "rowCount" payload) (length rows')) _ h7 in
      let out : (rows', scope', length rows') ≡ (rows, scope, n) = ok-injective h8 in
      subst
        (λ (x : List Row × VaultScope × ℕ).
          (x.2 ≡ length x.0) × (1 ≤ x.2) × (x.2 ≤ 10_000) × All IsCleanRow x.0 × IsBoundedScope x.1)
        out
        (
          refl,
          ground (arith, range),
          ground (arith, range),
          validate_rows-All items is_rows,
          validate_vault_scope-IsBoundedScope (get_or_null "vaultScope" payload) is_scope,
        )
