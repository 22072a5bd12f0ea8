-- ===== src/Store/Outcomes.antt =====
-- store.py: what the methods return in a store without a persistence file, where no save can fail.
use scooling_lab.Base.{
  String, Bool, true, false, ◌&&◌, not, ◌≡◌, refl, sym, ap, subst, ◌∙◌, arith, some, lookup, insert,
  lookup-insert, eq_refl, Dict, if◌then◌else◌, Bool-cases, inl, inr,
}
use scooling_lab.Errors.{Result, ok}
use scooling_lab.Method.{pure, lift, ◌>>=◌, ◌>>◌}
use scooling_lab.Platform.{Platform}
use scooling_lab.Retention.{utc_timestamp}
use scooling_lab.StateMachine.{TrainingJobStatus, running, same, transition, is_terminal}
use scooling_lab.StateMachine.Laws.{can_become}
use scooling_lab.Store.Records.{TrainingJobRecord}
use scooling_lab.Store.State.{TrainingJobStore, Action, get, save}
use scooling_lab.Store.Queue.{update_status, update_to, change_status, promote_queued}
use scooling_lab.Store.Dicts.{IsKeyed, insert-IsKeyed}
use scooling_lab.Store.Promotion.{promote_queued_done}
use scooling_lab.Store.Steps.{Reach, here}
use scooling_lab.Store.Steps.Capacity.{Reach-limits}
use scooling_lab.Store.Steps.Lives.{Reach-IsLater, IsLater}
use scooling_lab.Store.Steps.Queue.{promote_queued-Reach, changed}

-- A store without a persistence file.
abbrev pub IsInMemory : TrainingJobStore → Type 0
IsInMemory s = s.has_persistence_path ≡ false

pub Reach-IsInMemory : {s t : TrainingJobStore} → Reach s t → IsInMemory s → IsInMemory t
Reach-IsInMemory r h = (Reach-limits r).2 ∙ h

becomes : (r r' : TrainingJobRecord) → IsLater r r' → can_become r.status r'.status ≡ true
unfolding IsLater
becomes r r' h = h.3

-- a call that returns, and the rest after it
pub bind-ok :
    {A B : Type 0} (m : Action A) (f : A → Action B) (s t : TrainingJobStore) (a : A)
    → m s ≡ (ok a, t)
    → (m >>= f) s ≡ f a t
bind-ok {A = A} m f s t a h =
    ap (λ (y : Result A × TrainingJobStore). ◌>>=◌ (λ (_ : TrainingJobStore). y) f s) h

-- a check that passes, and the rest after it
pub lift-ok :
    {A B : Type 0} (r : Result A) (f : A → Action B) (s : TrainingJobStore) (a : A)
    → r ≡ ok a
    → (lift r >>= f) s ≡ f a s
lift-ok {A = A} r f s a h = bind-ok (lift r) f s s a (ap (λ (x : Result A). (x, s)) h)

pub lookup-insert_same :
    (k : String) (r : TrainingJobRecord) (d : Dict TrainingJobRecord)
    → lookup k (insert k r d) ≡ some r
lookup-insert_same k r d = ground (arith, lookup-insert k k r d, eq_refl k)

pub get-ok :
    (k : String) (r : TrainingJobRecord) (s : TrainingJobStore)
    → lookup k s.jobs ≡ some r
    → get k s ≡ (ok r, s)
unfolding get
get-ok k r s e = rw e refl

module _ ⦃p : Platform⦄ where
  pub save-ok : (s : TrainingJobStore) → IsInMemory s → save s ≡ (ok tt, s)
  unfolding save
  save-ok s memory = rw memory refl

  pub save-get-ok :
      (k : String) (r : TrainingJobRecord) (s : TrainingJobStore)
      → IsInMemory s
      → lookup k s.jobs ≡ some r
      → (save >> get k) s ≡ (ok r, s)
  save-get-ok k r s memory e = bind-ok save (λ _. get k) s s tt (save-ok s memory) ∙ get-ok k r s e

  -- The outcome of a call that ends with the job at a status that follows from the given one.
  abbrev pub EndsAt :
      String → TrainingJobStatus → Result TrainingJobRecord × TrainingJobStore → Type 0
  EndsAt k t x =
      (r : TrainingJobRecord) × (x.0 ≡ ok r)
      × (lookup k x.1.jobs ≡ some r)
      × (can_become t r.status ≡ true)

  EndsAt-returned :
      (k : String) (t : TrainingJobStatus) (x : Result TrainingJobRecord × TrainingJobStore)
      (r : TrainingJobRecord) (v : TrainingJobStore)
      → x ≡ (ok r, v)
      → lookup k v.jobs ≡ some r
      → can_become t r.status ≡ true
      → EndsAt k t x
  EndsAt-returned k t x r v e there later = subst (EndsAt k t) (sym e) (r, refl, there, later)

  promoted :
      (u : TrainingJobStore)
      → IsKeyed u.jobs
      → (frees : Bool)
      → ((v : TrainingJobStore) × ((if frees then promote_queued else pure tt) u ≡ (ok tt, v))
          × Reach u v)
  promoted u keyed true = (
    (promote_queued u).1,
    ap (λ (x : Result (Unit {0})). (x, (promote_queued u).1)) (promote_queued_done u keyed).0,
    promote_queued-Reach u keyed,
  )
  promoted u keyed false = (u, refl, here)

  change_status-EndsAt :
      (k : String) (r : TrainingJobRecord) (t : TrainingJobStatus) (frees : Bool)
      (s : TrainingJobStore)
      → IsKeyed s.jobs
      → IsInMemory s
      → r.id ≡ k
      → EndsAt k t ((change_status k r t frees >> get k) s)
  unfolding change_status
  change_status-EndsAt k r t frees s keyed memory own =
      let u = changed k r t s in
      let now = record r { status = t; updated_at = utc_timestamp (s.clock s.readings) } in
      let keyed' : IsKeyed u.jobs = insert-IsKeyed k now s.jobs own keyed in
      let (v, e, reach) = promoted u keyed' frees in
      let (r', there, later) = Reach-IsLater k now reach (lookup-insert_same k now s.jobs) in
      let m = if frees then promote_queued else pure tt in
      let saved = bind-ok m (λ _. save) u v tt e ∙ save-ok v (Reach-IsInMemory reach memory) in
      EndsAt-returned k t _ r' v
        (bind-ok (m >>= λ _. save) (λ _. get k) u v tt saved ∙ get-ok k r' v there) there
        (becomes now r' later)

  same-can_become : (a b : TrainingJobStatus) → same a b ≡ true → can_become a b ≡ true
  same-can_become a b h = ground arith

  -- A legal change of the status of a job returns the job, at that status or one that follows.
  pub update_status-EndsAt :
      (k : String) (r : TrainingJobRecord) (t : TrainingJobStatus) (s : TrainingJobStore)
      → IsKeyed s.jobs
      → IsInMemory s
      → r.id ≡ k
      → lookup k s.jobs ≡ some r
      → transition r.status t ≡ ok t
      → EndsAt k t (update_status k t s)
  unfolding update_status update_to
  update_status-EndsAt k r t s keyed memory own e legal =
      let frees = same r.status running && not (same t running) in
      let found =
        bind-ok (get k) (λ x. lift (transition x.status t) >>= update_to k x) s s r (get-ok k r s e)
        ∙ lift-ok (transition r.status t) (update_to k r) s t legal in
      subst (EndsAt k t) (sym found) (elim (Bool-cases (same t r.status)) [
        | inl h ↦ rw (h, update_to) (r, refl, e, same-can_become t r.status h)
        | inr h ↦ rw (h, update_to) (change_status-EndsAt k r t frees s keyed memory own)
      ])

  -- A job that is queued or running, started.
  abbrev pub Started : String → TrainingJobRecord → TrainingJobStore → Type 0
  Started k r s =
      (r' : TrainingJobRecord) × (t : TrainingJobStore) × (update_status k running s ≡ (ok r', t))
      × (lookup k t.jobs ≡ some r')
      × (r'.request ≡ r.request)
      × (r'.status ≡ running)

  started_by :
      (c : TrainingJobStatus)
      → is_terminal c ≡ false
      → (transition c running ≡ ok running)
        × ((same c running && not (same running running)) ≡ false)
  unfolding transition
  started_by c h = ground arith

  pub update_status-Started :
      (k : String) (r : TrainingJobRecord) (s : TrainingJobStore)
      → IsInMemory s
      → lookup k s.jobs ≡ some r
      → is_terminal r.status ≡ false
      → Started k r s
  unfolding update_status update_to change_status
  update_status-Started k r s memory e active =
      let (legal, stays) = started_by r.status active in
      let found =
        bind-ok (get k) (λ x. lift (transition x.status running) >>= update_to k x) s s r
          (get-ok k r s e)
        ∙ lift-ok (transition r.status running) (update_to k r) s running legal in
      elim (Bool-cases (same running r.status)) [
        | inl h ↦ (r, s, found ∙ (rw (h, update_to) refl), e, refl, ground arith)
        | inr h ↦
            let u = changed k r running s in
            let now = record r {
              status = running;
              updated_at = utc_timestamp (s.clock s.readings);
            } in
            (
              now,
              u,
              found
                  ∙ (rw (h, stays, update_to, change_status)
                      (save-get-ok k now u memory (lookup-insert_same k now s.jobs))),
              lookup-insert_same k now s.jobs,
              refl,
              refl,
            )
      ]
