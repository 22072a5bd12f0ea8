-- ===== src/DatasetReview/Laws.antt =====
-- dataset_review.py: decisions follow the validation of the shape, and are final.
pub mod Runs
pub mod Approval
use scooling_lab.Base.{
  ℕ, ◌+◌, String, Bool, true, false, ◌&&◌, ◌||◌, not, List, [], ◌∷◌, Option, none, some, is_some,
  if◌then◌else◌, Dict, lookup, insert, lookup-insert, str_eq, eq_iff, eq_refl, ◌≡◌, ◌≢◌, ◌⊎◌, refl,
  sym, ap, ◌∙◌, subst, arith, Bool-cases, Option-cases, inl, inr,
}
use scooling_lab.Errors.{Exception, Result, ok, err, api, not_found, conflict}
use scooling_lab.Json.{str}
use scooling_lab.Method.{Method, pure, raise, lift, gets, or_raise, ◌>>=◌, ◌>>◌}
use scooling_lab.Platform.{Platform}
use scooling_lab.Retention.{utc_timestamp}
use scooling_lab.Contracts.Identifiers.{require_training_dataset_id}
use scooling_lab.DatasetReview.{
  DatasetStatus, registered, pending_review, approved, rejected, same_status, RejectionReasonCode,
  SyntheticDatasetShape, dataset_transition, dataset_transitions, default_dataset_shape,
  validate_synthetic_dataset_shape,
}
use scooling_lab.DatasetReview.Store.{
  DatasetRecord, DatasetStore, DatasetAction, get_locked, is_decided, register_at, register_shape,
  register, decision_status, write_decision, submit_found, submit_for_review, approve_found,
  approve, reject_found, reject,
}

-- The calls that change the store of datasets.
pub data DatasetCall : Type 0 where
  register_call : (dataset_id : String) (shape : SyntheticDatasetShape) → DatasetCall
  submit_call approve_call : (dataset_id : String) → DatasetCall
  reject_call : (dataset_id : String) (reason : RejectionReasonCode) → DatasetCall

module _ ⦃p : Platform⦄ where
  unfoldable pub perform_dataset : DatasetCall → DatasetStore → DatasetStore
  perform_dataset (register_call k shape) s = (register_shape k shape s).1
  perform_dataset (submit_call k) s = (submit_for_review k s).1
  perform_dataset (approve_call k) s = (approve k s).1
  perform_dataset (reject_call k reason) s = (reject k reason s).1

  unfoldable pub run_datasets : List DatasetCall → DatasetStore → DatasetStore
  unfolding perform_dataset
  run_datasets [] s = s
  run_datasets (c ∷ cs) s = run_datasets cs (perform_dataset c s)

  -- A record as the review leaves it: registered with no reason, or decided as the validation of
  -- its shape says.
  unfoldable pub IsReviewed : DatasetRecord → Type 0
  IsReviewed r =
      ((r.status ≡ registered) × (r.rejection_reason ≡ none))
      ⊎ ((r.status ≡ decision_status (validate_synthetic_dataset_shape r.synthetic_shape))
          × (r.rejection_reason ≡ validate_synthetic_dataset_shape r.synthetic_shape))

  -- The second record is a later state of the first: the same dataset and shape, reviewed if the
  -- first was, and the same decision if the first was decided.
  unfoldable pub Follows : DatasetRecord → DatasetRecord → Type 0
  unfolding IsReviewed
  Follows r r' =
      (r'.dataset_id ≡ r.dataset_id)
      × (r'.synthetic_shape ≡ r.synthetic_shape)
      × (IsReviewed r → IsReviewed r')
      × (is_decided r.status ≡ true
          → (r'.status ≡ r.status) × (r'.rejection_reason ≡ r.rejection_reason))

  -- What one call does to the records: nothing, a new record, or a change of one.
  pub data DatasetStep (d : Dict DatasetRecord) : Dict DatasetRecord → Type 0 where
    none_changed : DatasetStep d d
    added :
        (k : String) (r : DatasetRecord)
        → lookup k d ≡ none
        → IsReviewed r
        → DatasetStep d (insert k r d)
    changed :
        (k : String) (r r' : DatasetRecord)
        → lookup k d ≡ some r
        → Follows r r'
        → DatasetStep d (insert k r' d)

  pub register_at-Step :
      (k : String) (shape : SyntheticDatasetShape) (o : Option DatasetRecord) (s : DatasetStore)
      → lookup k s.datasets ≡ o
      → DatasetStep s.datasets (register_at k shape o s).1.datasets
  unfolding register_at IsReviewed
  register_at-Step k shape none s e = added k _ e (inl (refl, refl))
  register_at-Step k shape (some r) s e = elim (Bool-cases (is_decided r.status)) [
    | inl h ↦ rw h none_changed
    | inr h ↦ rw h none_changed
  ]

  pub lift-Step :
      {A B : Type 0} (r : Result A) (f : A → DatasetAction B) (s : DatasetStore)
      → ((a : A) → r ≡ ok a → DatasetStep s.datasets (f a s).1.datasets)
      → DatasetStep s.datasets ((lift r >>= f) s).1.datasets
  lift-Step (ok a) f s h = h a refl
  lift-Step (err e) f s h = none_changed

  pub get-Step :
      {B : Type 0} (k : String) (f : DatasetRecord → DatasetAction B) (s : DatasetStore)
      → ((r : DatasetRecord)
          → lookup k s.datasets ≡ some r
          → DatasetStep s.datasets (f r s).1.datasets)
      → DatasetStep s.datasets ((get_locked k >>= f) s).1.datasets
  unfolding get_locked
  get-Step {B = B} k f s h = go (lookup k s.datasets) refl
    where
      go :
          (o : Option DatasetRecord)
          → lookup k s.datasets ≡ o
          → DatasetStep s.datasets ((or_raise o (api not_found 404) >>= f) s).1.datasets
      go (some r) e = h r e
      go none e = none_changed

  submitted :
      (a b c : DatasetStatus) (o : Option RejectionReasonCode)
      → dataset_transition a pending_review ≡ ok b
      → dataset_transition b (decision_status o) ≡ ok c
      → (is_decided a ≡ false) × (c ≡ decision_status o)
  unfolding dataset_transition dataset_transitions
  submitted a b c none h k = ground arith
  submitted a b c (some r) h k = ground arith

  approved_from :
      (a c : DatasetStatus)
      → dataset_transition a approved ≡ ok c
      → ((a ≡ approved) × (c ≡ approved)) ⊎ (a ≡ pending_review)
  unfolding dataset_transition dataset_transitions
  approved_from a c h = ground arith

  rejected_from :
      (a c : DatasetStatus)
      → same_status a rejected ≡ false
      → dataset_transition a rejected ≡ ok c
      → a ≡ pending_review
  unfolding dataset_transition dataset_transitions
  rejected_from a c n h = ground arith

  pending_open :
      (a : DatasetStatus) (o : Option RejectionReasonCode)
      → a ≡ pending_review
      → (is_decided a ≡ false) × (a ≢ registered) × (a ≢ decision_status o)
  pending_open a none h = ground arith
  pending_open a (some r) h = ground arith

  true-false : {b : Bool} → b ≡ true → b ≡ false → ⊥
  true-false h k = cc

  written :
      DatasetRecord → DatasetStatus → Option RejectionReasonCode → DatasetStore → DatasetRecord
  written r c reason s = record r {
    status = c;
    rejection_reason = reason;
    updated_at = utc_timestamp (s.clock s.readings);
  }

  pending_moves_on :
      (r r' : DatasetRecord)
      → r'.dataset_id ≡ r.dataset_id
      → r'.synthetic_shape ≡ r.synthetic_shape
      → r.status ≡ pending_review
      → Follows r r'
  unfolding Follows IsReviewed
  pending_moves_on r r' id shape h =
      let (undecided, fresh, never) =
        pending_open r.status (validate_synthetic_dataset_shape r.synthetic_shape) h in
      let pending_not_reviewed : IsReviewed r → ⊥ =
        λ reviewed. elim reviewed [ inl (e, _) ↦ fresh e | inr (e, _) ↦ never e ] in
      (
        id,
        shape,
        λ reviewed. absurd (pending_not_reviewed reviewed),
        λ d. absurd (true-false d undecided),
      )

  pub submit_found-Step :
      (k : String) (r : DatasetRecord) (s : DatasetStore)
      → lookup k s.datasets ≡ some r
      → DatasetStep s.datasets (submit_found k r s).1.datasets
  unfolding submit_found write_decision Follows IsReviewed
  submit_found-Step k r s e =
      let reason = validate_synthetic_dataset_shape r.synthetic_shape in
      let decide = λ (b : DatasetStatus).
        lift (dataset_transition b (decision_status reason)) >>= λ c. write_decision k r c reason in
      lift-Step (dataset_transition r.status pending_review) decide s (λ b h.
        lift-Step (dataset_transition b (decision_status reason)) (λ c. write_decision k r c reason)
          s
          (λ c g.
            let (undecided, new) = submitted r.status b c reason h g in
            changed k r _ e
              (refl, refl, λ _. inr (new, refl), λ d. absurd (true-false d undecided))))

  pub approve_found-Step :
      (k : String) (r : DatasetRecord) (s : DatasetStore)
      → lookup k s.datasets ≡ some r
      → DatasetStep s.datasets (approve_found k r s).1.datasets
  unfolding approve_found write_decision written Follows IsReviewed
  approve_found-Step k r s e =
      lift-Step (dataset_transition r.status approved)
        (λ c. write_decision k r c r.rejection_reason) s
        (λ c h. elim (approved_from r.status c h) [
          | inl (was, now) ↦
              changed k r _ e
                (refl, refl, λ reviewed. rw (now, ← was) reviewed, λ d. (now ∙ sym was, refl))
          | inr pending ↦
              changed k r _ e
                (pending_moves_on r (written r c r.rejection_reason s) refl refl pending)
        ])

  pub reject_found-Step :
      (k : String) (reason : RejectionReasonCode) (r : DatasetRecord) (s : DatasetStore)
      → lookup k s.datasets ≡ some r
      → DatasetStep s.datasets (reject_found k reason r s).1.datasets
  unfolding reject_found write_decision written
  reject_found-Step k reason r s e = elim (Bool-cases (same_status r.status rejected)) [
    | inl h ↦ rw h none_changed
    | inr h ↦ rw h (
        lift-Step (dataset_transition r.status rejected) (λ c. write_decision k r c (some reason)) s
          (λ c g. changed k r _ e (
            pending_moves_on r (written r c (some reason) s) refl refl
              (rejected_from r.status c h g))))
  ]
