-- ===== src/DatasetReview/Laws/Approval.antt =====
-- dataset_review.py: what a submission decides, and which datasets are approved.
use scooling_lab.Base.{
  ℕ, String, true, false, List, Option, none, some, lookup, insert, lookup-insert, eq_refl, str_eq,
  ◌+◌, ◌≡◌, refl, sym, ap, ◌∙◌, subst, arith, Bool-cases, inl, inr,
}
use scooling_lab.Errors.{Result, ok, err}
use scooling_lab.Json.{str}
use scooling_lab.Method.{lift, ◌>>=◌}
use scooling_lab.Platform.{Platform}
use scooling_lab.Retention.{utc_timestamp}
use scooling_lab.Contracts.Identifiers.{require_training_dataset_id}
use scooling_lab.DatasetReview.{
  registered, pending_review, approved, same_status, RejectionReasonCode, dataset_transition,
  dataset_transitions, default_dataset_shape, validate_synthetic_dataset_shape,
}
use scooling_lab.DatasetReview.Store.{
  DatasetRecord, DatasetStore, get_locked, decision_status, write_decision, submit_found,
  submit_for_review,
}
use scooling_lab.DatasetReview.Store.{open_dataset_store, is_approved}
use scooling_lab.DatasetReview.{has_forbidden_field_term, same_schema}
use scooling_lab.Platform.{IsLowercasing, lower_code}
use scooling_lab.Base.{any, all, map, ltb, codes}
use scooling_lab.Contracts.Request.{contains_term}
use scooling_lab.Contracts.Identifiers.{forbidden_string_re}
use scooling_lab.DatasetReview.{forbidden_field_terms}
use scooling_lab.Contracts.Identifiers.{fixture_dataset_id}
use scooling_lab.DatasetReview.Store.{record_approved}
use scooling_lab.DatasetReview.Laws.{DatasetCall, run_datasets, IsReviewed}
use scooling_lab.DatasetReview.Laws.Runs.{AreReviewed, run_datasets-AreReviewed}

module _ ⦃p : Platform⦄ where
  clean :
      (s : String)
      → IsLowercasing p
      → all (λ c. ltb c 128) (codes s) ≡ true
      → any (contains_term (map lower_code (codes s))) forbidden_field_terms ≡ false
      → forbidden_string_re s ≡ false
      → has_forbidden_field_term s ≡ false
  unfolding has_forbidden_field_term
  clean s l ascii terms pattern = rw (l.lower_ascii s ascii) (rw (pattern, terms) refl)

  default_valid :
      IsLowercasing p → validate_synthetic_dataset_shape (default_dataset_shape none) ≡ none
  unfolding validate_synthetic_dataset_shape default_dataset_shape forbidden_string_re contains_term
      same_schema lookup
  default_valid l =
      rw
        (
          clean "exampleId" l refl refl refl,
          clean "string" l refl refl refl,
          clean "inputTokenCount" l refl refl refl,
          clean "integer" l refl refl refl,
          clean "outputTokenCount" l refl refl refl,
          clean "split" l refl refl refl,
        )
        refl

  some_injective : {A : Type 0} {a b : A} → some a ≡ some b → a ≡ b
  some_injective h = cc

  abbrev fixture_record : (ℕ → ℕ) → DatasetRecord
  fixture_record clock = record {
    dataset_id = fixture_dataset_id;
    status = approved;
    registered_at = utc_timestamp (clock 0);
    updated_at = utc_timestamp (clock 0);
    rejection_reason = none;
    synthetic_shape = default_dataset_shape none;
  }

  fixture-IsReviewed : (clock : ℕ → ℕ) → IsLowercasing p → IsReviewed (fixture_record clock)
  unfolding IsReviewed
  fixture-IsReviewed clock l =
      let valid = default_valid l in inr (sym (ap decision_status valid), sym valid)

  open_dataset_store-AreReviewed :
      (clock : ℕ → ℕ) → IsLowercasing p → AreReviewed (open_dataset_store clock).datasets
  unfolding AreReviewed open_dataset_store lookup
  open_dataset_store-AreReviewed clock l k r e = elim (Bool-cases (str_eq fixture_dataset_id k)) [
    | inl h ↦
        let same : some (fixture_record clock) ≡ some r = rw h at e in
        subst IsReviewed (some_injective same) (fixture-IsReviewed clock l)
    | inr h ↦ let bad : none ≡ some r = rw h at e in cc bad
  ]

  decides_none : (o : Option RejectionReasonCode) → decision_status o ≡ approved → o ≡ none
  decides_none none h = refl
  decides_none (some r) h = cc h

  approved-valid :
      (r : DatasetRecord)
      → IsReviewed r
      → same_status r.status approved ≡ true
      → validate_synthetic_dataset_shape r.synthetic_shape ≡ none
  unfolding IsReviewed
  approved-valid r reviewed h =
      let is : r.status ≡ approved = ground arith in
      elim reviewed [
        | inl (fresh, _) ↦ let bad : registered ≡ approved = sym fresh ∙ is in cc bad
        | inr (decided, _) ↦ decides_none _ (sym decided ∙ is)
      ]

  approved_lookup :
      (q : Result String) (o : Option DatasetRecord)
      → (elim q [ ok id ↦ record_approved o | err e ↦ false ]) ≡ true
      → (r : DatasetRecord) × (o ≡ some r) × (same_status r.status approved ≡ true)
  unfolding record_approved
  approved_lookup (ok id) (some r) h = (r, refl, h)
  approved_lookup (ok id) none h = cc h
  approved_lookup (err e) o h = cc h

  -- After every sequence of registrations, submissions, approvals and rejections from a new
  -- store, raising or not, a dataset that is_approved accepts has a record whose shape the
  -- validation accepts, where the platform lowercases ASCII text as documented.
  pub run_datasets-is_approved :
      (calls : List DatasetCall) (clock : ℕ → ℕ) (k : String)
      → IsLowercasing p
      → is_approved k (run_datasets calls (open_dataset_store clock)) ≡ true
      → (r : DatasetRecord) × (lookup k (run_datasets calls (open_dataset_store clock)).datasets
          ≡ some r)
        × (validate_synthetic_dataset_shape r.synthetic_shape ≡ none)
  unfolding is_approved AreReviewed
  run_datasets-is_approved calls clock k l h =
      let t = run_datasets calls (open_dataset_store clock) in
      let (r, there, status) =
        approved_lookup (require_training_dataset_id (str k)) (lookup k t.datasets) h in
      let all =
        run_datasets-AreReviewed calls (open_dataset_store clock)
          (open_dataset_store-AreReviewed clock l) in
      (r, there, approved-valid r (all k r there) status)

  submit_decides :
      (k : String) (r : DatasetRecord) (o : Option RejectionReasonCode) (s : DatasetStore)
      → r.status ≡ registered
      → (lift (dataset_transition r.status pending_review) >>= λ b.
            lift (dataset_transition b (decision_status o)) >>= λ c. write_decision k r c o)
          s
        ≡ write_decision k r (decision_status o) o s
  unfolding dataset_transition dataset_transitions
  submit_decides k r none s h = rw h refl
  submit_decides k r (some reason) s h = rw h refl

  -- The record that the validation decides for.
  abbrev pub reviewed_at : DatasetRecord → ℕ → DatasetRecord
  reviewed_at r now = record r {
    status = decision_status (validate_synthetic_dataset_shape r.synthetic_shape);
    rejection_reason = validate_synthetic_dataset_shape r.synthetic_shape;
    updated_at = utc_timestamp now;
  }

  -- The submission of a registered dataset under an accepted id returns its record with the
  -- time of the call, approved without a reason if the validation accepts the shape, and else
  -- rejected with the reason of the validation; afterwards the store holds that record under
  -- the id, and is as before but for this record and one reading of the clock.
  pub submit_for_review_lem :
      (k id : String) (r : DatasetRecord) (s : DatasetStore)
      → require_training_dataset_id (str k) ≡ ok id
      → lookup k s.datasets ≡ some r
      → r.status ≡ registered
      → let decided = reviewed_at r (s.clock s.readings) in
        let t = (submit_for_review k s).1 in
        ((submit_for_review k s).0 ≡ ok decided)
        × (lookup k t.datasets ≡ some decided)
        × (t ≡ record s { datasets = insert k decided s.datasets; readings = s.readings + 1 })
  unfolding submit_for_review submit_found get_locked write_decision
  submit_for_review_lem k id r s valid there h =
      let found : get_locked k s ≡ (ok r, s) = rw there refl in
      let checked : submit_for_review k s ≡ (get_locked k >>= submit_found k) s = rw valid refl in
      let whole =
        checked
        ∙ ap
            (λ (y : Result DatasetRecord × DatasetStore).
              ◌>>=◌ (λ (_ : DatasetStore). y) (submit_found k) s)
            found
        ∙ submit_decides k r (validate_synthetic_dataset_shape r.synthetic_shape) s h in
      let decided = reviewed_at r (s.clock s.readings) in
      let left = ap (λ (y : Result DatasetRecord × DatasetStore). y.1) whole in
      (
        ap (λ (y : Result DatasetRecord × DatasetStore). y.0) whole,
        ap (λ (t : DatasetStore). lookup k t.datasets) left
            ∙ lookup-insert k k decided s.datasets
            ∙ rw (eq_refl k) refl,
        left,
      )
