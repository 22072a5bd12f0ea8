-- ===== src/DatasetReview.antt =====
-- dataset_review.py: the review of datasets. Shapes of datasets, their validation, and the state
-- machine of the review. The store is in DatasetReview/Store.
pub mod Store
pub mod Laws
use scooling_lab.Base.{
  ℕ, ℤ, pos, String, Bool, true, false, ◌&&◌, ◌||◌, not, List, [], ◌∷◌, Option, none, some, any,
  all, length, ◌==◌, leb, str_eq, codes, if◌then◌else◌, Dict, lookup, insert,
}
use scooling_lab.Errors.{
  Result, ok, err, api, validation_error, invalid_transition, type_error, ◌>>=◌, ◌>>◌, raise_if,
}
use scooling_lab.Json.{
  Value, Fields, end, field, obj, arr, int, str, get, has_key, get_or_null, keys_within,
}
use scooling_lab.Platform.{Platform}
use scooling_lab.Contracts.Identifiers.{forbidden_string_re, require_training_dataset_id}
use scooling_lab.Contracts.Request.{contains_term}

pub data DatasetStatus : Type 0 where
  registered pending_review approved rejected : DatasetStatus

unfoldable pub dataset_status_value : DatasetStatus → String
dataset_status_value registered = "registered"
dataset_status_value pending_review = "pending_review"
dataset_status_value approved = "approved"
dataset_status_value rejected = "rejected"

-- `==` on statuses
abbrev pub same_status : DatasetStatus → DatasetStatus → Bool
same_status registered registered = true
same_status pending_review pending_review = true
same_status approved approved = true
same_status rejected rejected = true
same_status _ _ = false

pub data RejectionReasonCode : Type 0 where
  synthetic_limit format_invalid policy_violation schema_mismatch duplicate_submission :
      RejectionReasonCode

unfoldable pub reason_value : RejectionReasonCode → String
reason_value synthetic_limit = "SYNTHETIC_LIMIT"
reason_value format_invalid = "FORMAT_INVALID"
reason_value policy_violation = "POLICY_VIOLATION"
reason_value schema_mismatch = "SCHEMA_MISMATCH"
reason_value duplicate_submission = "DUPLICATE_SUBMISSION"

-- `RejectionReasonCode(text)`; `none` is the `ValueError`
unfoldable pub reason_of_value : String → Option RejectionReasonCode
reason_of_value s =
    if str_eq s "SYNTHETIC_LIMIT"
    then some synthetic_limit
    else if str_eq s "FORMAT_INVALID"
    then some format_invalid
    else if str_eq s "POLICY_VIOLATION"
    then some policy_violation
    else if str_eq s "SCHEMA_MISMATCH"
    then some schema_mismatch
    else if str_eq s "DUPLICATE_SUBMISSION"
    then some duplicate_submission
    else none

pub record SyntheticDatasetShape : Type 0 where
  pub row_count : ℤ
  pub declared_schema : Dict String
  pub parse_reason : Option RejectionReasonCode

-- `target in _DATASET_TRANSITIONS[current]`
unfoldable pub dataset_transitions : DatasetStatus → DatasetStatus → Bool
dataset_transitions registered target = same_status target pending_review
dataset_transitions pending_review target =
    same_status target approved || same_status target rejected
dataset_transitions approved target = false
dataset_transitions rejected target = false

unfoldable pub dataset_transition : DatasetStatus → DatasetStatus → Result DatasetStatus
unfolding dataset_transitions
dataset_transition current target =
    if same_status current target
    then ok current
    else if dataset_transitions current target
    then ok target
    else err (api invalid_transition 409)

abbrev reason_or_error : Option RejectionReasonCode → Result RejectionReasonCode
reason_or_error none = err (api validation_error 400)
reason_or_error (some r) = ok r

unfoldable pub require_rejection_reason : Value → Result RejectionReasonCode
unfolding reason_of_value
require_rejection_reason (str s) = reason_or_error (reason_of_value s)
require_rejection_reason _ = err (api validation_error 400)

-- `SYNTHETIC_DATASET_SCHEMA`
abbrev pub synthetic_dataset_schema : Dict String
synthetic_dataset_schema =
    ("exampleId", "string")
    ∷ ("inputTokenCount", "integer")
    ∷ ("outputTokenCount", "integer")
    ∷ ("split", "string")
    ∷ []

unfoldable pub default_dataset_shape : Option RejectionReasonCode → SyntheticDatasetShape
default_dataset_shape reason = record {
  row_count = pos 1;
  declared_schema = synthetic_dataset_schema;
  parse_reason = reason;
}

-- the loop over the declared schema; `none` is the early return
unfoldable pub parsed_schema : Fields → Dict String → Option (Dict String)
parsed_schema end d = some d
parsed_schema (field k (str t) fs) d = parsed_schema fs (insert k t d)
parsed_schema (field k v fs) d = none

abbrev shape_of_schema : ℤ → Option (Dict String) → SyntheticDatasetShape
shape_of_schema n none = default_dataset_shape (some format_invalid)
shape_of_schema n (some d) = record { row_count = n; declared_schema = d; parse_reason = none }

unfoldable pub shape_of : Value → Value → SyntheticDatasetShape
unfolding default_dataset_shape parsed_schema
shape_of (int n) (obj fs) = shape_of_schema n (parsed_schema fs [])
shape_of _ _ = default_dataset_shape (some format_invalid)

abbrev pub forbidden_field_terms : List String
forbidden_field_terms =
    "content" ∷ "credential" ∷ "document" ∷ "email" ∷ "file" ∷ "instruction" ∷ "message"
    ∷ "password" ∷ "path" ∷ "prompt" ∷ "secret" ∷ "text" ∷ "url" ∷ []

-- `==` on dictionaries of texts, which have no key twice
abbrev value_is : Option String → String → Bool
value_is none v = false
value_is (some w) v = str_eq w v

unfoldable pub same_schema : Dict String → Dict String → Bool
same_schema d e = (length d == length e) && all (λ (k, v). value_is (lookup k e) v) d

-- `SYNTHETIC_ROW_COUNT_MIN <= n <= SYNTHETIC_ROW_COUNT_MAX`
abbrev pub row_count_allowed : ℤ → Bool
row_count_allowed (pos n) = leb 1 n && leb n 10_000
row_count_allowed _ = false

module _ ⦃p : Platform⦄ where
  unfoldable pub dataset_shape_from_registration : Fields → Result (String × SyntheticDatasetShape)
  unfolding shape_of
  dataset_shape_from_registration payload = do
    dataset_id ← require_training_dataset_id (get_or_null "datasetId" payload)
    ok (
      dataset_id,
      if not (keys_within ("datasetId" ∷ "rowCount" ∷ "declaredSchema" ∷ []) payload)
          then default_dataset_shape (some format_invalid)
          else if not (has_key "rowCount" payload || has_key "declaredSchema" payload)
          then default_dataset_shape none
          else shape_of (get_or_null "rowCount" payload) (get_or_null "declaredSchema" payload),
    )

  -- the pattern of this module is the one of contracts.py
  unfoldable pub has_forbidden_field_term : String → Bool
  has_forbidden_field_term value =
      forbidden_string_re value || any (contains_term (codes (p.lower value))) forbidden_field_terms

  unfoldable pub validate_synthetic_dataset_shape :
      SyntheticDatasetShape → Option RejectionReasonCode
  unfolding has_forbidden_field_term same_schema
  validate_synthetic_dataset_shape shape = elim shape.parse_reason [
    | some reason ↦ some reason
    | none ↦
        if not (row_count_allowed shape.row_count)
        then some synthetic_limit
        else if any (λ (k, t). has_forbidden_field_term k || has_forbidden_field_term t)
            shape.declared_schema
        then some policy_violation
        else if not (same_schema shape.declared_schema synthetic_dataset_schema)
        then some schema_mismatch
        else none
  ]

-- `action not in {"approve", "reject"}` raises a `TypeError` on a value that has no hash
unfoldable pub review_action : Value → Fields → Result (String × Option RejectionReasonCode)
unfolding require_rejection_reason
review_action (str action) payload =
    if str_eq action "approve"
    then raise_if (has_key "reasonCode" payload) (api validation_error 400) >> ok (action, none)
    else raise_if (not (str_eq action "reject")) (api validation_error 400)
      >> (require_rejection_reason (get_or_null "reasonCode" payload) >>= λ reason.
          ok (action, some reason))
review_action (arr items) payload = err type_error
review_action (obj fields) payload = err type_error
review_action _ payload = err (api validation_error 400)

unfoldable pub validate_review_request : Fields → Result (String × Option RejectionReasonCode)
unfolding review_action
validate_review_request payload =
    raise_if (not (keys_within ("action" ∷ "reasonCode" ∷ []) payload)) (api validation_error 400)
    >> review_action (get_or_null "action" payload) payload
