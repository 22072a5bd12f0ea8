-- ===== src/Retention/Laws.antt =====
-- retention.py: what the validation of a policy promises, and when an artifact expires.
use scooling_lab.Base.{
  ℕ, ◌+◌, ◌*◌, ◌/◌, ◌≤◌, ◌<◌, ltb, ltb→lt, if◌then◌else◌, true, false, refl, [], ◌∷◌, leb, ◌≡◌,
  arith, subst, Option-cases, Bool-cases, inl, inr,
}
use scooling_lab.Errors.{ok, err, api, validation_error, overflow_error}
use scooling_lab.Json.{Value, null, str, obj, Fields, get, get_or_null, keys_within}
use scooling_lab.Platform.{Platform, IsCalendar, end_of_time}
use scooling_lab.Retention.{
  RetentionPolicyClass, ephemeral, standard, extended, RetentionPolicy, retention_bounds,
  class_of_value, to_public_dict, bounded_policy, policy_of_class, policy_of_class_value,
  retention_policy_from_mapping, default_retention_policy, parse_utc_timestamp, utc_timestamp,
  after_seconds, expires_at, is_expired,
}

-- The TTL lies within the bounds of the policy's class.
pub record IsBounded (r : RetentionPolicy) : Type 0 where
  pub at_least : (retention_bounds r.policy_class).min_ttl_seconds ≤ r.ttl_seconds
  pub at_most : r.ttl_seconds ≤ (retention_bounds r.policy_class).max_ttl_seconds

policy_of_class-to_public_dict :
    (c : RetentionPolicyClass) (n : ℕ)
    → IsBounded (record { policy_class = c; ttl_seconds = n })
    → retention_policy_from_mapping (to_public_dict (record { policy_class = c; ttl_seconds = n }))
      ≡ ok (record { policy_class = c; ttl_seconds = n })
unfolding retention_policy_from_mapping to_public_dict get keys_within retention_bounds
policy_of_class-to_public_dict ephemeral n h = ground arith
policy_of_class-to_public_dict standard n h = ground arith
policy_of_class-to_public_dict extended n h = ground arith

-- A policy within the bounds of its class, written out and validated again, is the same
-- policy.
pub retention_policy_from_mapping-to_public_dict :
    (r : RetentionPolicy) → IsBounded r → retention_policy_from_mapping (to_public_dict r) ≡ ok r
retention_policy_from_mapping-to_public_dict r h =
    policy_of_class-to_public_dict r.policy_class r.ttl_seconds h

default-IsBounded : IsBounded default_retention_policy
unfolding default_retention_policy retention_bounds
default-IsBounded = omega arith

bounded_policy-IsBounded :
    (c : RetentionPolicyClass) (v : Value) {r : RetentionPolicy}
    → bounded_policy c v ≡ ok r
    → IsBounded r
unfolding bounded_policy retention_bounds
bounded_policy-IsBounded ephemeral v h = ground arith
bounded_policy-IsBounded standard v h = ground arith
bounded_policy-IsBounded extended v h = ground arith

policy_of_class_value-IsBounded :
    (v : Value) (fs : Fields) {r : RetentionPolicy}
    → policy_of_class_value v fs ≡ ok r
    → IsBounded r
unfolding policy_of_class_value policy_of_class
policy_of_class_value-IsBounded (str s) fs h = elim (Option-cases (class_of_value s)) [
  | inl e ↦ ground arith
  | inr (c, e) ↦ bounded_policy-IsBounded c _ (rw e at h)
]
policy_of_class_value-IsBounded _ fs h = cc

-- Whatever value a request holds, a policy that the validation accepts has a TTL within the
-- bounds of its class.
pub retention_policy_from_mapping-IsBounded :
    (v : Value) {r : RetentionPolicy} → retention_policy_from_mapping v ≡ ok r → IsBounded r
unfolding retention_policy_from_mapping
retention_policy_from_mapping-IsBounded null {r} h =
    let e : default_retention_policy ≡ r = cc in subst IsBounded e default-IsBounded
retention_policy_from_mapping-IsBounded (obj fs) {r} h =
    elim (Bool-cases (keys_within ("policyClass" ∷ "ttlSeconds" ∷ []) fs)) [
      | inl e ↦ policy_of_class_value-IsBounded (get_or_null "policyClass" fs) fs (rw e at h)
      | inr e ↦ let bad : err (api validation_error 400) ≡ ok r = rw e at h in cc
    ]
retention_policy_from_mapping-IsBounded _ h = cc

-- A printed instant of the range of dates is read back as the whole second that it lies in, where
-- the platform's dates behave as documented.
pub parse_utc_timestamp-utc_timestamp :
    ⦃p : Platform⦄ (t : ℕ)
    → IsCalendar p
    → t < end_of_time * 1_000_000
    → parse_utc_timestamp (utc_timestamp t) ≡ ok (t / 1_000_000 * 1_000_000)
unfolding parse_utc_timestamp utc_timestamp
parse_utc_timestamp-utc_timestamp ⦃p⦄ t c h =
    let small : t / 1_000_000 < end_of_time = omega (arith, h) in
    rw (c.isoformat-ends (t / 1_000_000) small)
      (rw (c.fromisoformat-isoformat (t / 1_000_000) small) refl)

whole_seconds :
    (s d : ℕ) → (s * 1_000_000 + d * 1_000_000) / 1_000_000 * 1_000_000 ≡ (s + d) * 1_000_000
whole_seconds s d = omega arith

-- For an artifact made at a clock reading in the range of dates: if the whole second of the
-- reading and the TTL stay in that range, it is expired exactly when the TTL has passed since
-- that second, and else the test raises an OverflowError; where the platform's dates behave as
-- documented.
pub is_expired_lem :
    ⦃p : Platform⦄ (t : ℕ) (r : RetentionPolicy) (now : ℕ)
    → IsCalendar p
    → t < end_of_time * 1_000_000
    → is_expired (utc_timestamp t) r now ≡ (
        if ltb (t / 1_000_000 + r.ttl_seconds) end_of_time
        then ok (leb ((t / 1_000_000 + r.ttl_seconds) * 1_000_000) now)
        else err overflow_error)
unfolding is_expired expires_at after_seconds
is_expired_lem ⦃p⦄ t r now c h =
    let s = t / 1_000_000 in
    let sum = s * 1_000_000 + r.ttl_seconds * 1_000_000 in
    rw (parse_utc_timestamp-utc_timestamp t c h)
      (elim (Bool-cases (ltb (s + r.ttl_seconds) end_of_time)) [
        | inl e ↦
            let inside : ltb sum (end_of_time * 1_000_000) ≡ true = ground arith in
            rw (e, inside)
              (rw
                (parse_utc_timestamp-utc_timestamp sum c
                  (ltb→lt sum (end_of_time * 1_000_000) inside))
                (rw (whole_seconds s r.ttl_seconds)))
        | inr e ↦
            let outside : ltb sum (end_of_time * 1_000_000) ≡ false = ground arith in
            rw (e, outside) refl
      ])
