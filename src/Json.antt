-- ===== src/Json.antt =====
-- The values that the program reads from and writes to JSON: what `json.loads` returns. A float is
-- finite with its exact value in units of 2 ^ -1074, of which every binary64 is a whole multiple.
use Prim.Native.String.{compare}
use text.Mathlib.Text.{is_le}
use scooling_lab.Base.{
  String, ℤ, Bool, true, false, Option, none, some, ◌&&◌, str_eq, if◌then◌else◌, List, any,
}

pub data Float : Type 0 where
  finite : ℤ → Float
  infinity minus_infinity nan : Float

mutual
  pub data Fields : Type 0 where
    end : Fields
    field : String → Value → Fields → Fields

  pub data Value : Type 0 where
    null : Value
    bool : Bool → Value
    int : ℤ → Value
    float : Float → Value
    str : String → Value
    arr : Items → Value
    obj : Fields → Value

  pub data Items : Type 0 where
    nil : Items
    cons : Value → Items → Items

-- `payload.get(key)`, the first field of the name
unfoldable pub get : String → Fields → Option Value
get k end = none
get k (field j v fs) = let rest = get k fs in if str_eq j k then some v else rest

-- `key in payload`
abbrev pub has_key : String → Fields → Bool
has_key k fs = elim (get k fs) [ none ↦ false | some v ↦ true ]

-- `payload.get(key)` with `None` for a missing key
abbrev pub get_or_null : String → Fields → Value
get_or_null k fs = elim (get k fs) [ none ↦ null | some v ↦ v ]

-- `payload.get(key, default)`
abbrev pub get_or : String → Value → Fields → Value
get_or k d fs = elim (get k fs) [ none ↦ d | some v ↦ v ]

abbrev pub member : String → List String → Bool
member k = any (λ j. str_eq j k)

-- `not set(payload).difference(allowed)`
unfoldable pub keys_within : List String → Fields → Bool
keys_within allowed end = true
keys_within allowed (field k v fs) = member k allowed && keys_within allowed fs

-- `dict(sorted(fields.items()))`
unfoldable pub insert_field : String → Value → Fields → Fields
insert_field k v end = field k v end
insert_field k v (field j w fs) =
    let rest = field j w (insert_field k v fs) in
    if is_le (compare k j) then field k v (field j w fs) else rest

unfoldable pub sorted_fields : Fields → Fields
unfolding insert_field
sorted_fields end = end
sorted_fields (field k v fs) = insert_field k v (sorted_fields fs)
