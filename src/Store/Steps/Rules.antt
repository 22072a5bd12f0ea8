-- ===== src/Store/Steps/Rules.antt =====
-- store.py: how the steps of a method follow from the steps of its parts.
use scooling_lab.Base.{
  String, Bool, true, false, ◌≡◌, refl, arith, Option, none, some, lookup, if◌then◌else◌,
}
use scooling_lab.Errors.{Exception, Result, ok, err, api, not_found}
use scooling_lab.Json.{Value}
use scooling_lab.Method.{pure, lift, raise_when, or_raise, ◌>>=◌}
use scooling_lab.Platform.{Platform}
use scooling_lab.Store.Records.{TrainingJobRecord}
use scooling_lab.Store.State.{TrainingJobStore, Action, get, save, payload_of, write_file}
use scooling_lab.Store.Steps.{Reach, here, next, Reach-trans, write}

module _ {A B : Type 0} (s : TrainingJobStore) where
  pub bind-Reach :
      (m : Action A) (f : A → Action B)
      → Reach s (m s).1
      → ((a : A) (t : TrainingJobStore) → m s ≡ (ok a, t) → Reach t (f a t).1)
      → Reach s ((m >>= f) s).1
  bind-Reach m f h k = go (m s) refl h
    where
      go :
          (r : Result A × TrainingJobStore)
          → m s ≡ r
          → Reach s r.1
          → Reach s (◌>>=◌ (λ (_ : TrainingJobStore). r) f s).1
      go (ok a, t) e h = Reach-trans h (k a t e)
      go (err x, t) e h = h

module _ {A B : Type 0} (s : TrainingJobStore) where
  -- a call that may raise and changes nothing
  pub lift-Reach :
      (r : Result A) (f : A → Action B)
      → ((a : A) → r ≡ ok a → Reach s (f a s).1)
      → Reach s ((lift r >>= f) s).1
  lift-Reach (ok a) f k = k a refl
  lift-Reach (err e) f k = here

  pub or_raise-Reach :
      (o : Option A) (e : Exception) (f : A → Action B)
      → ((a : A) → o ≡ some a → Reach s (f a s).1)
      → Reach s ((or_raise o e >>= f) s).1
  or_raise-Reach (some a) e f k = k a refl
  or_raise-Reach none e f k = here

module _ {B : Type 0} (s : TrainingJobStore) where
  pub raise_when-Reach :
      (b : Bool) (e : Exception) (f : Unit {0} → Action B)
      → (b ≡ false → Reach s (f tt s).1)
      → Reach s ((raise_when b e >>= f) s).1
  raise_when-Reach true e f k = here
  raise_when-Reach false e f k = k refl

  pub if-Reach :
      (b : Bool) (m n : Action B)
      → (b ≡ true → Reach s (m s).1)
      → (b ≡ false → Reach s (n s).1)
      → Reach s ((if b then m else n) s).1
  if-Reach true m n k l = k refl
  if-Reach false m n k l = l refl

  -- the rest of a method that looks a job up
  pub get-Reach :
      (k : String) (f : TrainingJobRecord → Action B)
      → ((r : TrainingJobRecord) → lookup k s.jobs ≡ some r → Reach s (f r s).1)
      → Reach s ((get k >>= f) s).1
  unfolding get
  get-Reach k f h = or_raise-Reach s (lookup k s.jobs) (api not_found 404) f h

pub get_state : (k : String) (s : TrainingJobStore) → (get k s).1 ≡ s
unfolding get
get_state k s = ground arith

pub get-Reach_last : (k : String) (s : TrainingJobStore) → Reach s (get k s).1
get-Reach_last k s = rw (get_state k s) here

write_file-Reach : (r : Result Value) (s : TrainingJobStore) → Reach s (write_file r s).1
unfolding write_file
write_file-Reach (ok v) s = next here (write v)
write_file-Reach (err e) s = here

pub save-Reach : ⦃p : Platform⦄ (s : TrainingJobStore) → Reach s (save s).1
unfolding save
save-Reach s =
    if-Reach s s.has_persistence_path (write_file (payload_of s.jobs)) (pure tt)
      (λ _. write_file-Reach (payload_of s.jobs) s) (λ _. here)
