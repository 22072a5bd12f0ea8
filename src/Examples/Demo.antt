-- ===== src/Examples/Demo.antt =====
-- A concrete platform for tests: dates in unary, one text for all JSON, and hashes that tell the
-- ids of retries apart from those of requests.
use Prim.Native.Char.{Char, char, code, IsScalar}
use Prim.Native.Nat.{compare, Ordering}
use Prim.Native.String.{◌++◌}
use Prim.Native.String.append
use scooling_lab.Base.{
  ◌||◌, ℕ, zero, suc, ◌+◌, ◌*◌, pos, String, Bool, true, false, none, some, is_upper, ltb,
  if◌then◌else◌, str_eq, ◌==◌, codes, map, ends_with, remove_suffix, ◌≡◌, refl, ap, arith,
  Bool-cases, inl, inr, eq_iff,
}
use scooling_lab.Json.{field, end, int}
use scooling_lab.Retention.{RetentionPolicy, ephemeral}
use scooling_lab.Contracts.Request.{TrainingJobRequest}
use scooling_lab.Platform.{Platform, IsCalendar, IsLowercasing, lower_code}

abbrev below_surrogates :
    (o : Ordering) → (elim o [ Ordering.lt ↦ true | _ ↦ false ]) ≡ true → o ≡ Ordering.lt
below_surrogates Ordering.lt h = refl
below_surrogates Ordering.eq h = cc h
below_surrogates Ordering.gt h = cc h

abbrev upper_scalar : (n : ℕ) → is_upper n ≡ true → IsScalar (n + 32)
upper_scalar n h =
    let small : ltb (n + 32) 55296 ≡ true = ground arith in
    rw (below_surrogates (compare (n + 32) 55296) small) tt

lower_char : (c : Char) (b : Bool) → is_upper (code c) ≡ b → Char
lower_char c true h = char (code c + 32) (upper_scalar (code c) h)
lower_char c false h = c

lower_text : String → String
lower_text String.[] = ""
lower_text (String.◌∷◌ c s) = String.◌∷◌ (lower_char c (is_upper (code c)) refl) (lower_text s)

lower_char_code :
    (c : Char) (b : Bool) (h : is_upper (code c) ≡ b)
    → code (lower_char c b h) ≡ (if b then code c + 32 else code c)
unfolding lower_char
lower_char_code c true h = refl
lower_char_code c false h = refl

lower_text-codes : (s : String) → codes (lower_text s) ≡ map lower_code (codes s)
unfolding lower_text
lower_text-codes String.[] = refl
lower_text-codes (String.◌∷◌ c s) =
    cc (lower_text-codes s, lower_char_code c (is_upper (code c)) refl)

tally : ℕ → String
tally zero = "Z"
tally (suc n) = String.◌∷◌ "1" (tally n)

ones : String → ℕ
ones String.[] = 0
ones (String.◌∷◌ c s) = let rest = ones s in if code c == b'1' then suc rest else rest

tally-ends : (n : ℕ) → ends_with (tally n) "Z" ≡ true
unfolding tally
tally-ends zero = refl
tally-ends (suc n) = ground (arith, tally-ends n)

ones-tally : (n : ℕ) → ones (remove_suffix (tally n) "Z" ++ "+00:00") ≡ n
unfolding tally ones
ones-tally zero = refl
ones-tally (suc n) = elim (Bool-cases (str_eq (String.◌∷◌ "1" (tally n)) "Z")) [
  | inl h ↦
      let same = (eq_iff (String.◌∷◌ "1" (tally n)) "Z").0 h in
      let bad : codes (tally (suc n)) ≡ codes "Z" = ap codes same in cc bad
  | inr h ↦
      rw h (rw (append.cons "1" (remove_suffix (tally n) "Z") "+00:00") (ap suc (ones-tally n)))
]

unfoldable pub demo : Platform
unfolding tally ones lower_text lower_char
demo = record {
  str_of_int = λ n. if n == 1 then "1" else "2";
  str_of_value = λ v. "value";
  sha256_hex = λ s.
      if str_eq s "{}" || ends_with s "1"
      then "0123456789abcdef0123456789abcdef"
      else "fedcba9876543210fedcba9876543210";
  json_dumps = λ v. "{}";
  json_dumps_spaced = λ v. "{}";
  is_space = λ c. c == b' ';
  lower = lower_text;
  is_word = λ c. is_upper c;
  float_of_int = λ n. none;
  isoformat_z = tally;
  fromisoformat = λ s. some (ones s * 1_000_000);
}

pub demo-IsCalendar : IsCalendar demo
unfolding demo
demo-IsCalendar = record {
  isoformat-ends = λ s h. tally-ends s;
  fromisoformat-isoformat = λ s h. rw (ones-tally s) refl;
}

pub demo-IsLowercasing : IsLowercasing demo
unfolding demo
demo-IsLowercasing = record { lower_ascii = λ s _. lower_text-codes s }

abbrev pub hour : RetentionPolicy
hour = record { policy_class = ephemeral; ttl_seconds = 3600 }

abbrev pub demo_request : TrainingJobRequest
demo_request = record {
  idempotency_key = "job-1";
  dataset_id = "fixture:synthetic-tiny-v1";
  model_id = "fixture-tiny-llm";
  requested_by = "user:ada";
  retention_policy = hour;
  training_parameters = field "epochs" (int (pos 2)) end;
}
