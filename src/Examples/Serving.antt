-- ===== src/Examples/Serving.antt =====
-- The service at concrete inputs: an empty store, one registered dataset, and a package of one row.
use scooling_lab.Base.{
  ℕ, ◌*◌, ◌≤◌, pos, String, true, false, List, [], ◌∷◌, none, ◌≡◌, ◌⊎◌, refl, arith, All, length,
  Dict, lookup, insert, lstrip, rstrip,
}
use scooling_lab.Codec.{Codec}
use scooling_lab.Errors.{Exception, ok, err}
use scooling_lab.Json.{Value, Fields, str, int, arr, nil, cons, obj, field, end, get, keys_within}
use scooling_lab.DatasetReview.{registered, default_dataset_shape}
use scooling_lab.DatasetReview.Store.{DatasetStore, is_approved, get_dataset, get_locked}
use scooling_lab.Contracts.Request.{
  TrainingJobRequest, from_mapping, reject_forbidden_keys, is_forbidden_key,
}
use scooling_lab.Contracts.Identifiers.{
  forbidden_string_re, is_own_data_dataset_id, require_safe_identifier, require_training_dataset_id,
}
use scooling_lab.Store.State.{TrainingJobStore, active_count}
use scooling_lab.Store.Dicts.{IsKeyed}
use scooling_lab.Store.Steps.{Reach}
use scooling_lab.Store.Steps.Lives.{IsSound, IsConsistent}
use scooling_lab.Auth.Ingest.{IngestGrant, verify_ingest_auth}
use scooling_lab.PackageIngest.{Row, VaultScope, parse_package_ingest_request}
use scooling_lab.PackageIngest.Laws.{
  IsCleanRow, IsBoundedScope, parse_package_ingest_request-IsCleanRow,
}
use scooling_lab.PackageIngest.Files.{
  Directories, remove, rename, write_package_files, canonical_train_jsonl, content_dataset_hash,
}
use scooling_lab.PackageIngest.Written.{IsWritten, write_package_files-IsWritten}
use scooling_lab.Service.{Service, Deployment}
use scooling_lab.Service.Routes.{
  Request, create_call, sweep_call, queue_call, submit_dataset_call, create_training_job,
  ingest_dataset_package, serve,
}
use scooling_lab.Service.Served.{serve-Reach, serve-IsSound}
use scooling_lab.Service.Approval.{
  IsOpen, create_training_job-is_approved, ingest_dataset_package-IsWritten,
}
use scooling_lab.Examples.Demo.{demo}
use scooling_lab.Examples.Tokens.{codec}
use scooling_lab.Examples.Workers.{process}

abbrev own : String
own = "own:notes"

abbrev tokens : Codec
tokens = codec own

abbrev environ : Dict String
environ = ("SCOOLING_LAB_INGEST_AUTH_SECRET", "S") ∷ ("SCOOLING_LAB_PACKAGE_ROOT", "data") ∷ []

abbrev deployment : Deployment
deployment = record {
  environ = environ;
  now = 1000;
  fixture_dataset = "rows";
  auto_run_worker = true;
  artifact_storage = none;
  acquires = true;
  has_tarball = λ job_id. false;
}

abbrev jobs : TrainingJobStore
jobs = record {
  jobs = [];
  has_persistence_path = false;
  file = none;
  queue_limit = 2;
  max_concurrent_running = 1;
  on_storage_delete = none;
  storage_deletes = [];
  clock = λ n. n * 1_000_000;
  readings = 0;
}

abbrev datasets : DatasetStore
datasets = record {
  datasets =
      (
        own,
        record {
          dataset_id = own;
          status = registered;
          registered_at = "Z";
          updated_at = "Z";
          rejection_reason = none;
          synthetic_shape = default_dataset_shape none;
        },
      )
      ∷ [];
  clock = λ n. n * 1_000_000;
  readings = 0;
}

abbrev service : Service
service = record { store = jobs; datasets = datasets; packages = [] }

abbrev payload : Fields
payload = field "idempotencyKey" (str "job-1") (
    field "datasetId" (str "fixture:synthetic-tiny-v1") (
      field "modelId" (str "fixture-tiny-llm") (
        field "requestedBy" (str "user:ada") (
          field "retentionPolicy"
            (obj (field "class" (str "ephemeral") (field "ttlSeconds" (int (pos 3600)) end)))
            end))))

abbrev requests : List Request
requests = submit_dataset_call own ∷ create_call payload ∷ sweep_call ∷ queue_call ∷ []

empty-IsSound : IsSound jobs
unfolding IsSound IsConsistent lookup
empty-IsSound k r h = (cc h, cc h)

empty_active : active_count jobs ≤ 2
unfolding active_count
empty_active = omega arith

abbrev served : TrainingJobStore
served = (serve ⦃p = demo⦄ ⦃c = tokens⦄ ⦃q = process⦄ deployment requests service).store

serve-Reach_example : Reach jobs served
serve-Reach_example =
    serve-Reach ⦃p = demo⦄ ⦃c = tokens⦄ ⦃q = process⦄ deployment requests service tt

serve-IsSound_example : IsKeyed served.jobs × IsSound served × (active_count served ≤ 2)
serve-IsSound_example =
    serve-IsSound ⦃p = demo⦄ ⦃c = tokens⦄ ⦃q = process⦄ deployment requests service tt empty-IsSound
      empty_active

create_training_job-is_approved_example :
    ((request : TrainingJobRequest) × (from_mapping ⦃p = demo⦄ payload ≡ ok request)
      × (is_approved ⦃p = demo⦄ request.dataset_id datasets ≡ true))
    ⊎ ((e : Exception) × (create_training_job ⦃p = demo⦄ ⦃c = tokens⦄ ⦃q = process⦄ deployment
            payload service
          ≡ (err e, service)))
create_training_job-is_approved_example =
    create_training_job-is_approved ⦃p = demo⦄ ⦃c = tokens⦄ ⦃q = process⦄ deployment payload service

abbrev row : Row
row = record { input = "in"; instruction = "do"; output = "out" }

abbrev scope : VaultScope
scope = record { kind = "all"; ids = none }

abbrev upload : Fields
upload =
    field "rows"
      (arr (
        cons
          (obj (
            field "instruction" (str "do")
              (field "input" (str "in") (field "output" (str "out") end))))
          nil))
      (field "vaultScope" (obj (field "kind" (str "all") end)) (field "rowCount" (int (pos 1)) end))

parsed : parse_package_ingest_request ⦃p = demo⦄ upload ≡ ok (row ∷ [], scope, 1)
unfolding parse_package_ingest_request reject_forbidden_keys is_forbidden_key demo keys_within get
    forbidden_string_re
parsed = refl

parse_package_ingest_request-IsCleanRow_example :
    (1 ≡ length (row ∷ []))
    × (1 ≤ 1)
    × (1 ≤ 10_000)
    × All (IsCleanRow ⦃p = demo⦄) (row ∷ [])
    × IsBoundedScope scope
parse_package_ingest_request-IsCleanRow_example =
    parse_package_ingest_request-IsCleanRow ⦃p = demo⦄ upload (row ∷ []) scope 1 parsed

abbrev before : Directories
before = ("own:notes.tmp-ingest", []) ∷ ("own:other", ("train.jsonl", "x") ∷ []) ∷ []

abbrev hash : String
hash = "fedcba9876543210fedcba9876543210"

abbrev after : Directories
after =
    ("own:other", ("train.jsonl", "x") ∷ [])
    ∷ (own, ("train.jsonl", "{}\n") ∷ ("manifest.json", "{}") ∷ [])
    ∷ []

written :
    write_package_files ⦃p = demo⦄ environ 1000 own (row ∷ []) scope 1 before ≡ (ok hash, after)
unfolding write_package_files is_own_data_dataset_id rstrip lstrip lookup demo insert
written = refl

write_package_files-IsWritten_example :
    (text : String) × (canonical_train_jsonl ⦃p = demo⦄ (row ∷ []) ≡ ok text)
    × (content_dataset_hash ⦃p = demo⦄ environ own after ≡ ok hash)
    × IsWritten ⦃p = demo⦄ own text before after
write_package_files-IsWritten_example =
    write_package_files-IsWritten ⦃p = demo⦄ environ 1000 own (row ∷ []) scope 1 before after hash
      written

abbrev ingested : Service
ingested = record service {
  packages = (own, ("train.jsonl", "{}\n") ∷ ("manifest.json", "{}") ∷ []) ∷ [];
}

abbrev answer : Value
answer = obj (
    field "datasetId" (str own) (
      field "datasetHash" (str hash) (
        field "rowCount" (int (pos 1))
          (field "vaultScope" (obj (field "kind" (str "all") end)) end))))

ingests :
    ingest_dataset_package ⦃p = demo⦄ ⦃c = tokens⦄ ⦃q = process⦄ deployment own upload
      "Bearer H.C.S" service
    ≡ (ok answer, ingested)
unfolding ingest_dataset_package verify_ingest_auth require_safe_identifier is_own_data_dataset_id
    demo lstrip rstrip lookup get get_dataset require_training_dataset_id get_locked
    parse_package_ingest_request reject_forbidden_keys is_forbidden_key keys_within
    write_package_files insert remove rename forbidden_string_re
ingests = refl

ingest_dataset_package-IsWritten_example :
    (grant : IngestGrant) × (rows : List Row) × (s : VaultScope) × (row_count : ℕ) × (text : String)
    × (verify_ingest_auth ⦃p = demo⦄ ⦃c = tokens⦄ environ 1000 "Bearer H.C.S" own ≡ ok grant)
    × IsOpen ⦃p = demo⦄ ⦃c = tokens⦄ ⦃q = process⦄ deployment own datasets
    × (parse_package_ingest_request ⦃p = demo⦄ upload ≡ ok (rows, s, row_count))
    × (canonical_train_jsonl ⦃p = demo⦄ rows ≡ ok text)
    × IsWritten ⦃p = demo⦄ own text [] ingested.packages
ingest_dataset_package-IsWritten_example =
    ingest_dataset_package-IsWritten ⦃p = demo⦄ ⦃c = tokens⦄ ⦃q = process⦄ deployment own upload
      "Bearer H.C.S" service ingested answer ingests
