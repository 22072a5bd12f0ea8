-- ===== src/DatasetReview/Laws/Runs.antt =====
-- dataset_review.py: what holds after every sequence of calls.
use scooling_lab.Base.{
  String, List, [], ◌∷◌, some, Dict, lookup, insert, lookup-insert, str_eq, eq_iff, ◌≡◌, refl, ◌∙◌,
  subst, arith, Bool-cases, inl, inr,
}
use scooling_lab.Json.{str}
use scooling_lab.Method.{gets, ◌>>=◌}
use scooling_lab.Platform.{Platform}
use scooling_lab.Contracts.Identifiers.{require_training_dataset_id}
use scooling_lab.DatasetReview.Store.{
  DatasetRecord, DatasetStore, get_locked, register_at, register_shape, submit_found,
  submit_for_review, approve_found, approve, reject_found, reject,
}
use scooling_lab.Base.{all}
use scooling_lab.DatasetReview.Laws.{
  DatasetCall, register_call, submit_call, approve_call, reject_call, perform_dataset, run_datasets,
  IsReviewed, Follows, DatasetStep, none_changed, added, changed, register_at-Step, lift-Step,
  get-Step, submit_found-Step, approve_found-Step, reject_found-Step,
}

module _ ⦃p : Platform⦄ where
  perform_dataset-Step :
      (c : DatasetCall) (s : DatasetStore) → DatasetStep s.datasets (perform_dataset c s).datasets
  unfolding perform_dataset register_shape submit_for_review approve reject
  perform_dataset-Step (register_call k shape) s =
      lift-Step (require_training_dataset_id (str k))
        (λ _. gets (λ t. lookup k t.datasets) >>= register_at k shape) s
        (λ _ _. register_at-Step k shape (lookup k s.datasets) s refl)
  perform_dataset-Step (submit_call k) s =
      lift-Step (require_training_dataset_id (str k)) (λ _. get_locked k >>= submit_found k) s
        (λ _ _. get-Step k (submit_found k) s (λ r e. submit_found-Step k r s e))
  perform_dataset-Step (approve_call k) s =
      lift-Step (require_training_dataset_id (str k)) (λ _. get_locked k >>= approve_found k) s
        (λ _ _. get-Step k (approve_found k) s (λ r e. approve_found-Step k r s e))
  perform_dataset-Step (reject_call k reason) s =
      lift-Step (require_training_dataset_id (str k)) (λ _. get_locked k >>= reject_found k reason)
        s (λ _ _. get-Step k (reject_found k reason) s (λ r e. reject_found-Step k reason r s e))

  -- Every record under review or decided is as the review leaves it.
  unfoldable pub AreReviewed : Dict DatasetRecord → Type 0
  AreReviewed d = (k : String) (r : DatasetRecord) → lookup k d ≡ some r → IsReviewed r

  insert-AreReviewed :
      (j : String) (x : DatasetRecord) (d : Dict DatasetRecord)
      → IsReviewed x
      → AreReviewed d
      → AreReviewed (insert j x d)
  unfolding AreReviewed
  insert-AreReviewed j x d good all k r e =
      let now = lookup-insert j k x d in
      elim (Bool-cases (str_eq j k)) [
        | inl h ↦ let same : x ≡ r = ground arith in subst IsReviewed same good
        | inr h ↦ all k r (ground arith)
      ]

  Step-AreReviewed : {d e : Dict DatasetRecord} → DatasetStep d e → AreReviewed d → AreReviewed e
  unfolding AreReviewed Follows
  Step-AreReviewed none_changed h = h
  Step-AreReviewed {d} (added k r e new) h = insert-AreReviewed k r d new h
  Step-AreReviewed {d} (changed k r r' e later) h = insert-AreReviewed k r' d (later.2 (h k r e)) h

  pub run_datasets-AreReviewed :
      (calls : List DatasetCall) (s : DatasetStore)
      → AreReviewed s.datasets
      → AreReviewed (run_datasets calls s).datasets
  unfolding run_datasets
  run_datasets-AreReviewed [] s h = h
  run_datasets-AreReviewed (c ∷ cs) s h =
      run_datasets-AreReviewed cs (perform_dataset c s)
        (Step-AreReviewed (perform_dataset-Step c s) h)

  Follows-refl : (r : DatasetRecord) → Follows r r
  unfolding Follows
  Follows-refl r = (refl, refl, λ h. h, λ d. (refl, refl))

  Follows-trans : (a b c : DatasetRecord) → Follows a b → Follows b c → Follows a c
  unfolding Follows
  Follows-trans a b c h k = (
    k.0 ∙ h.0,
    k.1 ∙ h.1,
    λ r. k.2 (h.2 r),
    λ d.
        let (status, reason) = h.3 d in
        let (status', reason') = k.3 (rw status d) in (status' ∙ status, reason' ∙ reason),
  )

  Step-Follows :
      {d e : Dict DatasetRecord} (k : String) (r : DatasetRecord)
      → DatasetStep d e
      → lookup k d ≡ some r
      → (r' : DatasetRecord) × (lookup k e ≡ some r') × Follows r r'
  Step-Follows k r none_changed e = (r, e, Follows-refl r)
  Step-Follows {d} k r (added j x f new) e =
      let now = lookup-insert j k x d in (r, ground (arith, eq_iff j k), Follows-refl r)
  Step-Follows {d} k r (changed j x x' f later) e =
      let now = lookup-insert j k x' d in
      elim (Bool-cases (str_eq j k)) [
        | inl h ↦
            let old : x ≡ r = ground (arith, eq_iff j k) in
            (x', ground arith, subst (λ y. Follows y x') old later)
        | inr h ↦ (r, ground arith, Follows-refl r)
      ]

  -- Under every such sequence of calls from any store of datasets, a dataset that is there
  -- stays there with its id and its shape, and one that was approved or rejected keeps its
  -- decision and its reason; and a record that is registered without a reason, or decided as
  -- the validation of its shape says, stays such a record.
  pub run_datasets-Follows :
      (calls : List DatasetCall) (s : DatasetStore) (k : String) (r : DatasetRecord)
      → lookup k s.datasets ≡ some r
      → (r' : DatasetRecord) × (lookup k (run_datasets calls s).datasets ≡ some r') × Follows r r'
  unfolding run_datasets
  run_datasets-Follows [] s k r e = (r, e, Follows-refl r)
  run_datasets-Follows (c ∷ cs) s k r e =
      let (r1, e1, f1) = Step-Follows k r (perform_dataset-Step c s) e in
      let (r2, e2, f2) = run_datasets-Follows cs (perform_dataset c s) k r1 e1 in
      (r2, e2, Follows-trans r r1 r2 f1 f2)
