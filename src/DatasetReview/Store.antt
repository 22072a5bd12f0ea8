-- ===== src/DatasetReview/Store.antt =====
-- dataset_review.py: the store of datasets under review. A record is changed in place, so a write to
-- it stands for every holder of the record.
use scooling_lab.Base.{
  ℕ, ◌+◌, String, Bool, false, ◌||◌, [], ◌∷◌, Option, none, some, if◌then◌else◌, Dict, lookup,
  insert,
}
use scooling_lab.Errors.{ok, err, api, not_found, conflict}
use scooling_lab.Json.{Value, str, obj, field, end, Fields}
use scooling_lab.Method.{Method, pure, raise, lift, gets, or_raise, ◌>>=◌, ◌>>◌}
use scooling_lab.Platform.{Platform}
use scooling_lab.Retention.{utc_timestamp}
use scooling_lab.Contracts.Identifiers.{require_training_dataset_id, fixture_dataset_id}
use scooling_lab.DatasetReview.{
  DatasetStatus, registered, pending_review, approved, rejected, dataset_status_value, same_status,
  RejectionReasonCode, reason_value, SyntheticDatasetShape, dataset_transition,
  default_dataset_shape, validate_synthetic_dataset_shape,
}

pub record DatasetRecord : Type 0 where
  pub dataset_id : String
  pub status : DatasetStatus
  pub registered_at : String
  pub updated_at : String
  pub rejection_reason : Option RejectionReasonCode
  pub synthetic_shape : SyntheticDatasetShape

abbrev reason_entry : Option RejectionReasonCode → Fields
reason_entry none = end
reason_entry (some r) = field "rejectionReasonCode" (str (reason_value r)) end

unfoldable pub dataset_to_public_dict : DatasetRecord → Value
dataset_to_public_dict r = obj (
    field "datasetId" (str r.dataset_id) (
      field "status" (str (dataset_status_value r.status)) (
        field "registeredAt" (str r.registered_at)
          (field "updatedAt" (str r.updated_at) (reason_entry r.rejection_reason)))))

-- `class DatasetStore`, with the clock that it reads
pub record DatasetStore : Type 0 where
  pub datasets : Dict DatasetRecord
  pub clock : ℕ → ℕ
  pub readings : ℕ

abbrev pub DatasetAction : Type 0 → Type 0
DatasetAction A = Method DatasetStore A

abbrev pub store_record : String → DatasetRecord → DatasetAction (Unit {0})
store_record k r s = (ok tt, record s { datasets = insert k r s.datasets })

abbrev pub read_time : ⦃p : Platform⦄ → DatasetAction String
read_time s = (ok (utc_timestamp (s.clock s.readings)), record s { readings = s.readings + 1 })

-- `_get_locked`
unfoldable pub get_locked : String → DatasetAction DatasetRecord
get_locked dataset_id s = or_raise (lookup dataset_id s.datasets) (api not_found 404) s

-- approved or rejected
abbrev pub is_decided : DatasetStatus → Bool
is_decided c = same_status c approved || same_status c rejected

-- the status that a validation decides for
abbrev pub decision_status : Option RejectionReasonCode → DatasetStatus
decision_status none = approved
decision_status (some r) = rejected

module _ ⦃p : Platform⦄ where
  -- `__init__`: the practice fixture is there from the start
  unfoldable pub open_dataset_store : (ℕ → ℕ) → DatasetStore
  open_dataset_store clock =
      let ts = utc_timestamp (clock 0) in
      record {
        datasets =
            (
              fixture_dataset_id,
              record {
                dataset_id = fixture_dataset_id;
                status = approved;
                registered_at = ts;
                updated_at = ts;
                rejection_reason = none;
                synthetic_shape = default_dataset_shape none;
              },
            )
            ∷ [];
        clock = clock;
        readings = 1;
      }

  unfoldable pub register_at :
      String → SyntheticDatasetShape → Option DatasetRecord → DatasetAction DatasetRecord
  register_at dataset_id shape (some existing) =
      if is_decided existing.status then raise (api conflict 409) else pure existing
  register_at dataset_id shape none = do
    registered_at ← read_time
    updated_at ← read_time
    let made : DatasetRecord = record {
      dataset_id = dataset_id;
      status = registered;
      registered_at = registered_at;
      updated_at = updated_at;
      rejection_reason = none;
      synthetic_shape = shape;
    }
    store_record dataset_id made
    pure made

  unfoldable pub register_shape : String → SyntheticDatasetShape → DatasetAction DatasetRecord
  unfolding register_at
  register_shape dataset_id shape = do
    lift (require_training_dataset_id (str dataset_id))
    existing ← gets (λ s. lookup dataset_id s.datasets)
    register_at dataset_id shape existing

  unfoldable pub register : String → DatasetAction DatasetRecord
  unfolding register_shape
  register dataset_id = do
    lift (require_training_dataset_id (str dataset_id))
    register_shape dataset_id (default_dataset_shape none)

  -- The write of the status and of the time. `submit_for_review` writes the pending status first;
  -- nothing between that write and the next can raise, so only the next is kept.
  unfoldable pub write_decision :
      String
      → DatasetRecord
      → DatasetStatus
      → Option RejectionReasonCode
      → DatasetAction DatasetRecord
  write_decision dataset_id r status reason = do
    now ← read_time
    let changed = record r { status = status; rejection_reason = reason; updated_at = now }
    store_record dataset_id changed
    pure changed

  unfoldable pub submit_found : String → DatasetRecord → DatasetAction DatasetRecord
  unfolding write_decision
  submit_found dataset_id r = do
    pending ← lift (dataset_transition r.status pending_review)
    let reason = validate_synthetic_dataset_shape r.synthetic_shape
    status ← lift (dataset_transition pending (decision_status reason))
    write_decision dataset_id r status reason

  unfoldable pub submit_for_review : String → DatasetAction DatasetRecord
  unfolding submit_found
  submit_for_review dataset_id = do
    lift (require_training_dataset_id (str dataset_id))
    r ← get_locked dataset_id
    submit_found dataset_id r

  unfoldable pub approve_found : String → DatasetRecord → DatasetAction DatasetRecord
  unfolding write_decision
  approve_found dataset_id r = do
    status ← lift (dataset_transition r.status approved)
    write_decision dataset_id r status r.rejection_reason

  unfoldable pub approve : String → DatasetAction DatasetRecord
  unfolding approve_found
  approve dataset_id = do
    lift (require_training_dataset_id (str dataset_id))
    r ← get_locked dataset_id
    approve_found dataset_id r

  unfoldable pub reject_found :
      String → RejectionReasonCode → DatasetRecord → DatasetAction DatasetRecord
  unfolding write_decision
  reject_found dataset_id reason r =
      if same_status r.status rejected
      then pure r
      else lift (dataset_transition r.status rejected) >>= λ status.
          write_decision dataset_id r status (some reason)

  unfoldable pub reject : String → RejectionReasonCode → DatasetAction DatasetRecord
  unfolding reject_found
  reject dataset_id reason = do
    lift (require_training_dataset_id (str dataset_id))
    r ← get_locked dataset_id
    reject_found dataset_id reason r

  unfoldable pub get_dataset : String → DatasetAction DatasetRecord
  get_dataset dataset_id = do
    lift (require_training_dataset_id (str dataset_id))
    get_locked dataset_id

  unfoldable pub record_approved : Option DatasetRecord → Bool
  record_approved none = false
  record_approved (some r) = same_status r.status approved

  unfoldable pub is_approved : String → DatasetStore → Bool
  unfolding record_approved
  is_approved dataset_id s = elim (require_training_dataset_id (str dataset_id)) [
    | ok id ↦ record_approved (lookup dataset_id s.datasets)
    | err e ↦ false
  ]
