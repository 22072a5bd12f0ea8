-- ===== src/Store/Loading.antt =====
-- store.py: rehydration of the records, `_load`, and the constructor of the store.
use scooling_lab.Base.{
  ℕ, String, Bool, true, false, List, [], ◌∷◌, Option, none, some, Dict, insert,
}
use scooling_lab.Errors.{
  Result, ok, err, api, internal_error, value_error, key_error, attribute_error, ◌>>=◌,
}
use scooling_lab.Json.{
  Value, Items, nil, cons, null, str, arr, obj, Fields, get, get_or, get_or_null,
}
use scooling_lab.Platform.{Platform}
use scooling_lab.Retention.{retention_policy_from_mapping}
use scooling_lab.Contracts.Request
use scooling_lab.Contracts.Request.{TrainingJobRequest}
use scooling_lab.Provenance
use scooling_lab.Provenance.{ProvenanceRecord}
use scooling_lab.StateMachine.{TrainingJobStatus, status_of_value}
use scooling_lab.Store.Records.{ArtifactMetadata, TrainingJobRecord, is_deleted}
use scooling_lab.Store.State.{TrainingJobStore}

-- `payload[key]`
unfoldable pub item : String → Fields → Result Value
item k fs = elim (get k fs) [ none ↦ err key_error | some v ↦ ok v ]

status_or_error : Option TrainingJobStatus → Result TrainingJobStatus
status_or_error none = err value_error
status_or_error (some s) = ok s

module _ ⦃p : Platform⦄ where
  -- `str(value)`
  unfoldable pub text_of : Value → String
  text_of (str s) = s
  text_of v = p.str_of_value v

  -- `str(payload[key])`
  unfoldable pub text_item : String → Fields → Result String
  unfolding item text_of
  text_item k fs = do ok (text_of (← item k fs))

  optional_text_of : Value → Option String
  unfolding text_of
  optional_text_of null = none
  optional_text_of v = some (text_of v)

  -- `str(payload[key]) if payload.get(key) is not None else None`
  unfoldable pub optional_item : String → Fields → Option String
  unfolding optional_text_of
  optional_item k fs = optional_text_of (get_or_null k fs)

  -- `ArtifactMetadata.from_dict`
  unfoldable pub artifact_from_dict : Fields → Result ArtifactMetadata
  unfolding text_item optional_item
  artifact_from_dict fs = do
    id ← text_item "id" fs
    job_id ← text_item "jobId" fs
    dataset_hash ← text_item "datasetHash" fs
    artifact_hash ← text_item "artifactHash" fs
    created_at ← text_item "createdAt" fs
    provenance_id ← text_item "provenanceRecordId" fs
    retention_policy ← retention_policy_from_mapping (← item "retentionPolicy" fs)
    ok (record {
      id = id;
      job_id = job_id;
      dataset_hash = dataset_hash;
      artifact_hash = artifact_hash;
      created_at = created_at;
      provenance_id = provenance_id;
      retention_policy = retention_policy;
      storage_key = optional_item "storageKey" fs;
    })

  unfoldable pub artifacts_of : Items → Result (List ArtifactMetadata)
  artifacts_of nil = ok []
  artifacts_of (cons (obj fs) vs) = do
    a ← artifact_from_dict fs
    rest ← artifacts_of vs
    ok (a ∷ rest)
  artifacts_of (cons v vs) = artifacts_of vs

  unfoldable pub optional_provenance_of : Value → Result (Option ProvenanceRecord)
  optional_provenance_of null = ok none
  optional_provenance_of (obj fs) = do ok (some (← Provenance.from_mapping fs))
  optional_provenance_of _ = err (api internal_error 500)

  -- `if not isinstance(value, dict): raise`, and so for a list
  unfoldable pub fields_of : Value → Result Fields
  fields_of (obj fs) = ok fs
  fields_of _ = err (api internal_error 500)

  unfoldable pub items_in : Value → Result Items
  items_in (arr vs) = ok vs
  items_in _ = err (api internal_error 500)

  unfoldable pub tombstone_from : Fields → TrainingJobStatus → Result TrainingJobRecord
  unfolding text_item optional_item
  tombstone_from fs status = do
    provenance ← optional_provenance_of (get_or_null "provenance" fs)
    id ← text_item "id" fs
    created_at ← text_item "createdAt" fs
    updated_at ← text_item "updatedAt" fs
    ok (record {
      id = id;
      request = none;
      status = status;
      created_at = created_at;
      updated_at = updated_at;
      artifacts = [];
      provenance = provenance;
      deleted_at = optional_item "deletedAt" fs;
      retry_of_job_id = optional_item "retryOfJobId" fs;
    })

  unfoldable pub live_from : Fields → TrainingJobStatus → Result TrainingJobRecord
  unfolding text_item optional_item item fields_of items_in
  live_from fs status = do
    request_payload ← fields_of (← item "request" fs)
    artifacts_payload ← items_in (get_or "artifacts" (arr nil) fs)
    provenance ← optional_provenance_of (get_or_null "provenance" fs)
    id ← text_item "id" fs
    request ← Request.from_mapping request_payload
    created_at ← text_item "createdAt" fs
    updated_at ← text_item "updatedAt" fs
    artifacts ← artifacts_of artifacts_payload
    ok (record {
      id = id;
      request = some request;
      status = status;
      created_at = created_at;
      updated_at = updated_at;
      artifacts = artifacts;
      provenance = provenance;
      deleted_at = none;
      retry_of_job_id = optional_item "retryOfJobId" fs;
    })

  -- `TrainingJobRecord.from_persisted_dict`
  unfoldable pub from_persisted_dict : Fields → Result TrainingJobRecord
  unfolding status_or_error text_item
  from_persisted_dict fs = do
    status ← status_or_error (status_of_value (← text_item "status" fs))
    elim (is_deleted status) [ true ↦ tombstone_from fs status | false ↦ live_from fs status ]

  -- the dict comprehension of `_load`, from the left
  unfoldable pub load_jobs : Items → Dict TrainingJobRecord → Result (Dict TrainingJobRecord)
  load_jobs nil jobs = ok jobs
  load_jobs (cons (obj fs) vs) jobs = do
    job ← from_persisted_dict fs
    load_jobs vs (insert job.id job jobs)
  load_jobs (cons v vs) jobs = load_jobs vs jobs

  -- `_load`, on the value that the file holds
  unfoldable pub load : Value → Result (Dict TrainingJobRecord)
  unfolding items_in
  load (obj fs) = do load_jobs (← items_in (get_or "jobs" (arr nil) fs)) []
  load _ = err attribute_error

  -- `TrainingJobStore.__init__`: the jobs of the file, where a path is given and the file is there
  unfoldable pub initial_jobs : Bool → Option Value → Result (Dict TrainingJobRecord)
  initial_jobs true (some v) = load v
  initial_jobs _ _ = ok []

  unfoldable pub open_store :
      Bool
      → Option Value
      → ℕ
      → ℕ
      → Option (String → Result (Unit {0}))
      → (ℕ → ℕ)
      → Result TrainingJobStore
  unfolding initial_jobs
  open_store has_path file queue_limit max_concurrent_running on_storage_delete clock = do
    jobs ← initial_jobs has_path file
    ok (record {
      jobs = jobs;
      has_persistence_path = has_path;
      file = file;
      queue_limit = queue_limit;
      max_concurrent_running = max_concurrent_running;
      on_storage_delete = on_storage_delete;
      storage_deletes = [];
      clock = clock;
      readings = 0;
    })
