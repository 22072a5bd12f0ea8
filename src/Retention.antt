-- ===== src/Retention.antt =====
-- retention.py: the retention classes, the validation of a request's policy, and expiry.
pub mod Laws
use Prim.Native.String.{◌++◌}
use scooling_lab.Base.{
  ℕ, ◌+◌, ◌*◌, ◌/◌, ◌&&◌, String, ℤ, pos, negsuc, Bool, true, false, Option, none, some, List, [],
  ◌∷◌, leb, ltb, str_eq, if◌then◌else◌, ends_with, remove_suffix, not,
}
use scooling_lab.Errors.{
  Result, ok, err, api, validation_error, internal_error, value_error, overflow_error, ◌>>=◌, ◌>>◌,
  raise_if,
}
use scooling_lab.Json.{
  Value, null, int, str, obj, field, end, Fields, get_or_null, get_or, keys_within,
}
use scooling_lab.Platform.{Platform, end_of_time}

-- `class RetentionPolicyClass`
pub data RetentionPolicyClass : Type 0 where
  ephemeral standard extended : RetentionPolicyClass

unfoldable pub class_value : RetentionPolicyClass → String
class_value ephemeral = "ephemeral"
class_value standard = "standard"
class_value extended = "extended"

-- `RetentionPolicyClass(text)`; `none` is the `ValueError`
unfoldable pub class_of_value : String → Option RetentionPolicyClass
class_of_value s =
    if str_eq s "ephemeral"
    then some ephemeral
    else if str_eq s "standard"
    then some standard
    else if str_eq s "extended"
    then some extended
    else none

pub record RetentionBounds : Type 0 where
  pub default_ttl_seconds : ℕ
  pub min_ttl_seconds : ℕ
  pub max_ttl_seconds : ℕ

-- A policy's TTL is an `int` between the bounds of its class, so it is a natural number.
pub record RetentionPolicy : Type 0 where
  pub policy_class : RetentionPolicyClass
  pub ttl_seconds : ℕ

-- `RETENTION_BOUNDS`
unfoldable pub retention_bounds : RetentionPolicyClass → RetentionBounds
retention_bounds ephemeral = record {
  default_ttl_seconds = 3_600;
  min_ttl_seconds = 60;
  max_ttl_seconds = 86_400;
}
retention_bounds standard = record {
  default_ttl_seconds = 2_592_000;
  min_ttl_seconds = 3_600;
  max_ttl_seconds = 7_776_000;
}
retention_bounds extended = record {
  default_ttl_seconds = 31_536_000;
  min_ttl_seconds = 86_400;
  max_ttl_seconds = 63_072_000;
}

unfoldable pub default_retention_policy : RetentionPolicy
unfolding retention_bounds
default_retention_policy = record {
  policy_class = standard;
  ttl_seconds = (retention_bounds standard).default_ttl_seconds;
}

-- `RetentionPolicy.to_public_dict`
unfoldable pub to_public_dict : RetentionPolicy → Value
unfolding class_value
to_public_dict p = obj (
    field "policyClass" (str (class_value p.policy_class))
      (field "ttlSeconds" (int (pos p.ttl_seconds)) end))

-- `if not bounds.min <= ttl <= bounds.max: raise`, on an `int`
bounded_policy : RetentionPolicyClass → Value → Result RetentionPolicy
unfolding retention_bounds
bounded_policy c (int (pos ttl)) =
    let bounds = retention_bounds c in
    if leb bounds.min_ttl_seconds ttl && leb ttl bounds.max_ttl_seconds
    then ok (record { policy_class = c; ttl_seconds = ttl })
    else err (api validation_error 400)
bounded_policy c _ = err (api validation_error 400)

policy_of_class : Option RetentionPolicyClass → Fields → Result RetentionPolicy
unfolding bounded_policy
policy_of_class none fs = err (api validation_error 400)
policy_of_class (some c) fs =
    bounded_policy c (get_or "ttlSeconds" (int (pos (retention_bounds c).default_ttl_seconds)) fs)

policy_of_class_value : Value → Fields → Result RetentionPolicy
unfolding policy_of_class class_of_value
policy_of_class_value (str s) fs = policy_of_class (class_of_value s) fs
policy_of_class_value _ fs = err (api validation_error 400)

unfoldable pub retention_policy_from_mapping : Value → Result RetentionPolicy
unfolding policy_of_class_value default_retention_policy
retention_policy_from_mapping null = ok default_retention_policy
retention_policy_from_mapping (obj fs) = do
  raise_if (not (keys_within ("policyClass" ∷ "ttlSeconds" ∷ []) fs)) (api validation_error 400)
  policy_of_class_value (get_or_null "policyClass" fs) fs
retention_policy_from_mapping _ = err (api validation_error 400)

-- An instant is a number of microseconds from the start of the year 1.
module _ ⦃p : Platform⦄ where
  unfoldable pub parse_utc_timestamp : String → Result ℕ
  parse_utc_timestamp value =
      if ends_with value "Z"
      then elim (p.fromisoformat (remove_suffix value "Z" ++ "+00:00")) [
        | none ↦ err value_error
        | some t ↦ ok t
      ]
      else err (api internal_error 500)

  -- `value.replace(microsecond=0)` drops the part of a second
  unfoldable pub utc_timestamp : ℕ → String
  utc_timestamp value = p.isoformat_z (value / 1_000_000)

  -- `value + timedelta(seconds=seconds)`, which leaves the range of `datetime` by an `OverflowError`
  unfoldable pub after_seconds : ℕ → ℕ → Result ℕ
  after_seconds seconds value =
      let sum = value + seconds * 1_000_000 in
      if ltb sum (end_of_time * 1_000_000) then ok sum else err overflow_error

  unfoldable pub expires_at : String → RetentionPolicy → Result String
  unfolding parse_utc_timestamp utc_timestamp after_seconds
  expires_at created_at policy = do
    created ← parse_utc_timestamp created_at
    expires ← after_seconds policy.ttl_seconds created
    ok (utc_timestamp expires)

  unfoldable pub is_expired : String → RetentionPolicy → ℕ → Result Bool
  unfolding expires_at
  is_expired created_at policy now = do
    expiry ← parse_utc_timestamp (← expires_at created_at policy)
    ok (leb expiry now)
