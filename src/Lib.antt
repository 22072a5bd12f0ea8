-- ===== src/Lib.antt =====
-- Scooling Lab: the training API's contracts, its job store and their correctness.
--
-- The program takes requests for training jobs, validates them against closed contracts, queues
-- them in a store under a limit, runs them one after the other, keeps metadata of their artifacts
-- and deletes these on request or when their retention ends. What is modelled of src/scooling_lab:
--   * errors.py: Errors (the error codes, `ApiError`, and the exceptions of the language as one
--     result type).
--   * retention.py: Retention, with its laws in Retention/Laws.
--   * state_machine.py and the statuses of contracts.py: StateMachine, StateMachine/Laws.
--   * contracts.py: Contracts/Identifiers (the regular expressions as matchers on code points),
--     Contracts/Parameters (`validate_training_parameters`), Contracts/Request
--     (`TrainingJobRequest.from_mapping`, fingerprints and serializations).
--   * provenance.py: Provenance (validation and serialization; not the command line).
--   * store.py: Store/Records (the records and their serializations), Store/State (the state of
--     `TrainingJobStore`, its counts, `_save`), Store/Queue (`create`, `cancel`, `retry`,
--     `update_status`, promotion), Store/Artifacts (`register_artifact`, storage keys),
--     Store/Absence (`verify_hash_absence`), Store/Deletion (`delete_artifact`,
--     `evaluate_expiry`), Store/Sweep (`sweep_expired`), Store/Loading (`from_persisted_dict`,
--     `_load`, the constructor).
--   * dataset_review.py: DatasetReview (shapes, their validation, the state machine of the review,
--     `validate_review_request`) and DatasetReview/Store (`DatasetStore`).
--   * fake_worker.py and gpu_worker.py: Workers/Completion (what the two `run_job` share),
--     Workers/Fake (`FakeTrainingWorker.run_job` and its hashes), Workers/Gpu
--     (`IsolatedGpuWorker`), Workers/Envelope (`clamp_training_parameters` and the checks of
--     `execute_gpu_worker_envelope`).
--   * server_auth.py and download_auth.py: Auth/Tokens (the tokens, their signing and the checks of
--     their claims), Auth/Ingest and Auth/Download (the two uses of them).
--   * package_ingest.py: PackageIngest (the checks of a package) and PackageIngest/Files (the
--     directories under the package root, a map from names to files).
--   * service.py: Service (the state and what the service is set up with), Service/Jobs (the
--     operations on jobs), Service/Routes (the operations of the routes of api.py, `handle` of one
--     request and `serve` of a sequence of them).
--   * api.py: Api (the parsing of paths) and Api/Handler (`_read_json`, the routes of each method,
--     the responses of `_handle_json`). A message is what the standard library has read of a request.
--   * license_policy.py: LicensePolicy (the lists, the normalization of paths, `validate_entries`).
-- Base holds what these share: tests, lists, text, dictionaries (association lists in insertion
-- order) and integers. Json is the data that `json` reads and writes. Method is the monad of the
-- store's methods: a method takes the state and gives a result or an exception, and the state,
-- which keeps what was written before a raise.
--
-- Platform holds what the code takes from Python's standard library: hashing, JSON text, calendar
-- dates, lowercasing, the classes of Unicode that `\s` and `\w` match. These are parameters; the
-- two hypotheses on them, IsCalendar and IsLowercasing, say that a printed date of the years 1 to
-- 9999 is read back and that ASCII text is lowercased letter by letter. Examples/Demo gives a
-- platform of which both hold. Codec holds HMAC, base64, UTF-8 and the reading of JSON text; its
-- hypothesis IsCodec says which exceptions `json.loads` raises. Process, in Workers/Gpu, is
-- `subprocess.run` and the path of the sources; its hypothesis IsProcess says which exceptions
-- `subprocess.run` raises. The storage backend is an interface of the service. A text is a sequence
-- of Unicode characters, so Python's lone surrogates are not modelled.
--
-- The two workers share the operations of Workers/Completion, and the service runs one of them, by
-- the model of the request, between the creation of a job and the upload of its artifacts. Raises
-- holds the lemmas on which exceptions a call can raise. Workers/Steps and Service/Steps show that
-- the workers and the service change the store by steps of its relation only, so the invariants of
-- the store carry over to the service. The liveness of the workers is shown for a store in memory,
-- since a write of the file may raise in the middle of a run; a GPU job is left running by the
-- exceptions that the worker does not catch.
--
-- The clock is a sequence of readings in microseconds from the start of the year 1, of which every call for the time takes the
-- next. The store's file is the JSON value that its text stands for. A float is a whole number of
-- units of the least positive double, or one of the special values.
--
-- The step relation of Store/Steps says what a method may do to the store, one write at a time; the
-- modules below it treat the methods one by one, and the invariants by induction on the relation.
-- Store/Calls puts calls in sequence; DatasetReview/Laws does the same for the datasets.
--
-- Fuel: promotion runs one round more than there are jobs, and each round starts a queued job, so
-- the rounds suffice. The search for a retry's id tries one id more than there are jobs; it finds a
-- free one if the ids of these attempts differ (Store/Retries). The normalization of a path runs one
-- round more than there are characters, and each round takes one away (LicensePolicy/Laws). An exhausted fuel is the exception
-- `no_answer`, which the code does not have.
--
-- Not modelled: locks (every method of the store holds its lock throughout, so methods run one at
-- a time; a request runs from start to end before the next), the network, the streaming of an
-- artifact's content and the start of the server in api.py, the file system but for the package
-- directories, what runs inside the GPU worker's process but for the checks of its envelope,
-- artifact_storage.py but for its abstract backend, bom.py and runtime_config.py, and of service.py the reading of an artifact's content and the check that
-- hashes are absent, which change nothing.
mod Base
pub mod Errors
pub mod Json
pub mod Platform
pub mod Method
pub mod Raises
pub mod Codec
pub mod Retention
pub mod StateMachine
pub mod Contracts
pub mod Provenance
pub mod Store
pub mod DatasetReview
pub mod PackageIngest
pub mod Workers
pub mod Auth
pub mod Service
pub mod Api
pub mod LicensePolicy
mod Examples
