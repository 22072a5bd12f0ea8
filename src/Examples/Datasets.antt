-- ===== src/Examples/Datasets.antt =====
-- The review of datasets at concrete inputs.
use scooling_lab.Base.{
  ℕ, ◌*◌, ◌+◌, String, true, List, [], ◌∷◌, none, some, ◌≡◌, refl, lookup, insert,
}
use scooling_lab.Errors.{ok}
use scooling_lab.Json.{str}
use scooling_lab.Contracts.Identifiers.{require_training_dataset_id}
use scooling_lab.Contracts.Request
use scooling_lab.DatasetReview
use scooling_lab.DatasetReview.{
  DatasetStatus, registered, approved, rejected, RejectionReasonCode, policy_violation,
  SyntheticDatasetShape, default_dataset_shape, validate_synthetic_dataset_shape,
}
use scooling_lab.DatasetReview.Store
use scooling_lab.DatasetReview.Store.{
  DatasetRecord, DatasetStore, open_dataset_store, is_approved, submit_for_review, decision_status,
}
use scooling_lab.DatasetReview.Laws.{
  DatasetCall, register_call, submit_call, reject_call, run_datasets, Follows,
}
use scooling_lab.DatasetReview.Laws.Runs.{run_datasets-Follows}
use scooling_lab.DatasetReview.Laws.Approval.{
  run_datasets-is_approved, submit_for_review_lem, reviewed_at,
}
use scooling_lab.Examples.Demo.{demo, demo-IsLowercasing}

abbrev ticks : ℕ → ℕ
ticks n = n * 1_000_000

abbrev opened : DatasetStore
opened = open_dataset_store ⦃p = demo⦄ ticks

abbrev own_set : String
own_set = "own:set-1"

abbrev review_calls : List DatasetCall
review_calls =
    register_call own_set (default_dataset_shape none)
    ∷ submit_call own_set
    ∷ reject_call own_set policy_violation
    ∷ []

abbrev own_record : DatasetRecord
own_record = record {
  dataset_id = own_set;
  status = registered;
  registered_at = "Z";
  updated_at = "Z";
  rejection_reason = none;
  synthetic_shape = default_dataset_shape none;
}

abbrev with_own : DatasetStore
with_own = record { datasets = (own_set, own_record) ∷ []; clock = ticks; readings = 0 }

own_there : lookup own_set with_own.datasets ≡ some own_record
unfolding lookup
own_there = refl

run_datasets-Follows_example :
    (r' : DatasetRecord) × (lookup own_set (run_datasets ⦃p = demo⦄ review_calls with_own).datasets
      ≡ some r')
    × Follows ⦃p = demo⦄ own_record r'
run_datasets-Follows_example =
    run_datasets-Follows ⦃p = demo⦄ review_calls with_own own_set own_record own_there

own_accepted : require_training_dataset_id ⦃p = demo⦄ (str own_set) ≡ ok own_set
unfolding require_training_dataset_id
own_accepted = refl

abbrev own_decided : DatasetRecord
own_decided = reviewed_at ⦃p = demo⦄ own_record 0

submit_for_review_lem_example :
    ((submit_for_review ⦃p = demo⦄ own_set with_own).0 ≡ ok own_decided)
    × (lookup own_set (submit_for_review ⦃p = demo⦄ own_set with_own).1.datasets ≡ some own_decided)
    × ((submit_for_review ⦃p = demo⦄ own_set with_own).1 ≡ record with_own {
      datasets = insert own_set own_decided with_own.datasets;
      readings = with_own.readings + 1;
    })
submit_for_review_lem_example =
    submit_for_review_lem ⦃p = demo⦄ own_set own_set own_record with_own own_accepted own_there refl

own_approved : is_approved ⦃p = demo⦄ own_set (run_datasets ⦃p = demo⦄ review_calls opened) ≡ true
unfolding is_approved require_training_dataset_id lookup run_datasets Store.reject Store.get_locked
    submit_for_review Store.register_shape open_dataset_store insert
    DatasetReview.dataset_transition validate_synthetic_dataset_shape default_dataset_shape
    Request.contains_term demo
own_approved = refl

run_datasets-is_approved_example :
    (r : DatasetRecord) × (lookup own_set (run_datasets ⦃p = demo⦄ review_calls opened).datasets
      ≡ some r)
    × (validate_synthetic_dataset_shape ⦃p = demo⦄ r.synthetic_shape ≡ none)
run_datasets-is_approved_example =
    run_datasets-is_approved ⦃p = demo⦄ review_calls ticks own_set demo-IsLowercasing own_approved
