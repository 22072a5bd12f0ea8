-- ===== src/Examples/Licenses.antt =====
-- The policy at a concrete inventory.
use scooling_lab.Base.{rstrip, lstrip, [], ◌∷◌, ◌≤◌, ◌≡◌, refl, ◌↔◌, All, length}
use scooling_lab.Errors.{ok}
use scooling_lab.LicensePolicy.{BomEntry, validate_entries, normalize_source_path}
use scooling_lab.LicensePolicy.Laws.{IsAllowed, validate_entries_iff}
use scooling_lab.Examples.Demo.{demo}

abbrev entry : BomEntry
entry = record {
  name = "unsloth";
  version = "1.0";
  license = " Apache-2.0";
  source_path = "/third_party///unsloth\\core/";
  evidence = "license-file";
}

normalized :
    normalize_source_path ⦃p = demo⦄ "/third_party///unsloth\\core/" ≡ ok "third_party/unsloth/core"
unfolding normalize_source_path rstrip lstrip demo
normalized = refl

validate_entries_iff_example :
    validate_entries ⦃p = demo⦄ (entry ∷ []) ≡ ok tt
    ↔ ((1 ≤ length (entry ∷ [])) × All (IsAllowed ⦃p = demo⦄) (entry ∷ []))
validate_entries_iff_example = validate_entries_iff ⦃p = demo⦄ (entry ∷ [])
