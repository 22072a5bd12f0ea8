-- ===== src/Store/Records.antt =====
-- store.py: the records of artifacts and jobs, and their serializations.
use scooling_lab.Base.{String, Bool, true, false, List, [], ◌∷◌, Option, none, some}
use scooling_lab.Errors.{Result, ok, err, api, internal_error, ◌>>=◌}
use scooling_lab.Json.{Value, Items, nil, cons, null, str, arr, bool, obj, Fields, end, field}
use scooling_lab.Platform.{Platform}
use scooling_lab.Retention.{RetentionPolicy, to_public_dict, expires_at}
use scooling_lab.Contracts.Request.{
  TrainingJobRequest, request_to_public_dict, request_to_persisted,
}
use scooling_lab.Provenance
use scooling_lab.Provenance.{ProvenanceRecord}
use scooling_lab.StateMachine.{TrainingJobStatus, deleted, status_value}

-- `class ArtifactMetadata`
pub record ArtifactMetadata : Type 0 where
  pub id : String
  pub job_id : String
  pub dataset_hash : String
  pub artifact_hash : String
  pub created_at : String
  pub provenance_id : String
  pub retention_policy : RetentionPolicy
  pub storage_key : Option String

unfoldable pub with_storage_key : ArtifactMetadata → String → ArtifactMetadata
with_storage_key a key = record a { storage_key = some key }

-- `class DeletionReceipt`
pub record DeletionReceipt : Type 0 where
  pub job_id : String
  pub artifact_id : String
  pub deleted : Bool
  pub already_deleted : Bool
  pub verified : Bool

-- `class TrainingJobRecord`
pub record TrainingJobRecord : Type 0 where
  pub id : String
  pub request : Option TrainingJobRequest
  pub status : TrainingJobStatus
  pub created_at : String
  pub updated_at : String
  pub artifacts : List ArtifactMetadata
  pub provenance : Option ProvenanceRecord
  pub deleted_at : Option String
  pub retry_of_job_id : Option String

-- a field that is written only where the value is there
abbrev pub optional_text : String → Option String → Fields → Fields
optional_text k none fs = fs
optional_text k (some s) fs = field k (str s) fs

unfoldable pub deletion_receipt_to_dict : DeletionReceipt → Value
deletion_receipt_to_dict r = obj (
    field "alreadyDeleted" (bool r.already_deleted) (
      field "artifactId" (str r.artifact_id) (
        field "deleted" (bool r.deleted)
          (field "jobId" (str r.job_id) (field "verified" (bool r.verified) end)))))

-- the fields that the two serializations of an artifact share, and what follows them
artifact_fields : ArtifactMetadata → String → Fields → Fields
artifact_fields a expiry rest = field "id" (str a.id) (
    field "jobId" (str a.job_id) (
      field "datasetHash" (str a.dataset_hash) (
        field "artifactHash" (str a.artifact_hash) (
          field "createdAt" (str a.created_at) (
            field "expiresAt" (str expiry) (
              field "provenanceRecordId" (str a.provenance_id)
                (field "retentionPolicy" (to_public_dict a.retention_policy) rest)))))))

-- The fields common to every serialization of a job.
job_fields : TrainingJobRecord → Fields → Fields
unfolding status_value
job_fields r rest = field "id" (str r.id) (
    field "status" (str (status_value r.status))
      (field "createdAt" (str r.created_at) (field "updatedAt" (str r.updated_at) rest)))

abbrev provenance_value : Option ProvenanceRecord → Value
provenance_value none = null
provenance_value (some r) = obj (Provenance.to_dict r)

abbrev optional_provenance : Option ProvenanceRecord → Fields → Fields
optional_provenance none fs = fs
optional_provenance (some r) fs = field "provenance" (obj (Provenance.to_dict r)) fs

module _ ⦃p : Platform⦄ where
  -- `ArtifactMetadata.to_dict`
  unfoldable pub artifact_to_dict : ArtifactMetadata → Result Value
  unfolding artifact_fields
  artifact_to_dict a = do
    expiry ← expires_at a.created_at a.retention_policy
    ok (obj (artifact_fields a expiry (optional_text "storageKey" a.storage_key end)))

  -- `ArtifactMetadata.to_public_dict`
  unfoldable pub artifact_to_public_dict : ArtifactMetadata → Result Value
  unfolding artifact_fields
  artifact_to_public_dict a = do
    expiry ← expires_at a.created_at a.retention_policy
    ok (obj (artifact_fields a expiry end))

  -- a list comprehension whose expression may raise
  unfoldable pub items_of {ℓ} : {A : Type ℓ} → (A → Result Value) → List A → Result Items
  items_of f [] = ok nil
  items_of f (a ∷ rest) = do v ← f a; vs ← items_of f rest; ok (cons v vs)

-- the tombstone of a deleted job, and the record of any other
unfoldable pub tombstone_public : TrainingJobRecord → Value
unfolding job_fields
tombstone_public r = obj (
    job_fields r
      (optional_text "deletedAt" r.deleted_at (optional_text "retryOfJobId" r.retry_of_job_id end)))

unfoldable pub tombstone_persisted : TrainingJobRecord → Value
unfolding job_fields
tombstone_persisted r = obj (
    job_fields r (
      optional_text "deletedAt" r.deleted_at
        (optional_provenance r.provenance (optional_text "retryOfJobId" r.retry_of_job_id end))))

live_public : TrainingJobRecord → Option TrainingJobRequest → Result Value
unfolding job_fields
live_public r none = err (api internal_error 500)
live_public r (some request) = ok (
    obj (
      job_fields r (
        field "request" (request_to_public_dict request)
          (optional_text "retryOfJobId" r.retry_of_job_id end))))

unfoldable pub live_persisted :
    ⦃p : Platform⦄ → TrainingJobRecord → Option TrainingJobRequest → Result Value
unfolding job_fields
live_persisted r none = err (api internal_error 500)
live_persisted r (some request) = do
  artifacts ← items_of artifact_to_public_dict r.artifacts
  ok (
      obj (
        job_fields r (
          field "request" (obj (request_to_persisted request)) (
            field "artifacts" (arr artifacts) (
              field "provenance" (provenance_value r.provenance)
                (optional_text "retryOfJobId" r.retry_of_job_id end))))))

abbrev pub is_deleted : TrainingJobStatus → Bool
is_deleted deleted = true
is_deleted _ = false

-- `TrainingJobRecord.to_public_dict`
unfoldable pub job_to_public_dict : TrainingJobRecord → Result Value
unfolding tombstone_public live_public
job_to_public_dict r = elim (is_deleted r.status) [
  | true ↦ ok (tombstone_public r)
  | false ↦ live_public r r.request
]

-- `TrainingJobRecord.to_persisted_dict`
unfoldable pub to_persisted_dict : ⦃p : Platform⦄ → TrainingJobRecord → Result Value
unfolding tombstone_persisted live_persisted
to_persisted_dict r = elim (is_deleted r.status) [
  | true ↦ ok (tombstone_persisted r)
  | false ↦ live_persisted r r.request
]
