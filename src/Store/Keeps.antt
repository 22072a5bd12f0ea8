-- ===== src/Store/Keeps.antt =====
-- store.py: actions that leave the records of the store alone, and the inversion of a sequence of
-- actions that returns.
use scooling_lab.Base.{
  String, Bool, true, false, ◌≡◌, refl, ◌∙◌, arith, Option, none, some, if◌then◌else◌,
}
use scooling_lab.Errors.{Result, ok, err}
use scooling_lab.Json.{Value}
use scooling_lab.Method.{pure, ◌>>=◌}
use scooling_lab.Platform.{Platform}
use scooling_lab.Store.Records.{TrainingJobRecord, ArtifactMetadata}
use scooling_lab.Store.State.{TrainingJobStore, Action, save, payload_of, write_file}
use scooling_lab.Store.Deletion.{call_storage, notify_storage, issue_receipt, finish_deletion}

-- An action that leaves the records alone.
abbrev pub Keeps : {A : Type 0} → Action A → Type 0
Keeps m = (s : TrainingJobStore) → (m s).1.jobs ≡ s.jobs

bind-Keeps :
    {A B : Type 0} (m : Action A) (f : A → Action B)
    → Keeps m
    → ((a : A) → Keeps (f a))
    → Keeps (m >>= f)
bind-Keeps {A = A} m f h k s = go (m s) (h s)
  where
    go :
        (x : Result A × TrainingJobStore)
        → x.1.jobs ≡ s.jobs
        → (◌>>=◌ (λ (_ : TrainingJobStore). x) f s).1.jobs ≡ s.jobs
    go (ok a, t) e = k a t ∙ e
    go (err x, t) e = e

if-Keeps :
    {A : Type 0} (b : Bool) (m n : Action A)
    → Keeps m
    → Keeps n
    → Keeps (λ s. (if b then m else n) s)
if-Keeps true m n h k = h
if-Keeps false m n h k = k

write_file-Keeps : (r : Result Value) → Keeps (write_file r)
unfolding write_file
write_file-Keeps (ok v) s = refl
write_file-Keeps (err e) s = refl

call_storage-Keeps :
    (o : Option (String → Result (Unit {0}))) (key : Option String) → Keeps (call_storage o key)
unfolding call_storage
call_storage-Keeps (some f) (some key) s = refl
call_storage-Keeps none (some key) s = refl
call_storage-Keeps o none s = refl

pub bind-eq-ok :
    {A B : Type 0} (m : Action A) (f : A → Action B) (s t : TrainingJobStore) (b : B)
    → (m >>= f) s ≡ (ok b, t)
    → (a : A) × (u : TrainingJobStore) × (m s ≡ (ok a, u)) × (f a u ≡ (ok b, t))
bind-eq-ok {A = A} m f s t b h = go (m s) refl h
  where
    go :
        (x : Result A × TrainingJobStore)
        → m s ≡ x
        → ◌>>=◌ (λ (_ : TrainingJobStore). x) f s ≡ (ok b, t)
        → (a : A) × (u : TrainingJobStore) × (m s ≡ (ok a, u)) × (f a u ≡ (ok b, t))
    go (ok a, u) e h = (a, u, e, h)
    go (err x, u) e h = cc h

module _ ⦃p : Platform⦄ where
  pub save-Keeps : Keeps save
  unfolding save
  save-Keeps s =
      if-Keeps s.has_persistence_path (write_file (payload_of s.jobs)) (pure tt)
        (write_file-Keeps (payload_of s.jobs)) (λ _. refl) s

  issue_receipt-Keeps :
      (job : TrainingJobRecord) (a : ArtifactMetadata) (v : Bool) → Keeps (issue_receipt job a v)
  unfolding issue_receipt
  issue_receipt-Keeps job a v s = ground arith

  pub finish_deletion-Keeps :
      (job : TrainingJobRecord) (a : ArtifactMetadata) (v : Bool) → Keeps (finish_deletion job a v)
  unfolding finish_deletion notify_storage
  finish_deletion-Keeps job a v =
      let receipt = issue_receipt job a v in
      bind-Keeps save (λ _. notify_storage a.storage_key >>= λ _. receipt) save-Keeps
        (λ _.
          bind-Keeps (notify_storage a.storage_key) (λ _. receipt)
            (λ t. call_storage-Keeps t.on_storage_delete a.storage_key t)
            (λ _. issue_receipt-Keeps job a v))
