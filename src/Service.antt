-- ===== src/Service.antt =====
-- service.py: the operations of the training API over the store of jobs, the store of datasets and
-- the package directories. A request runs from start to end before the next.
pub mod Jobs
pub mod Routes
pub mod Steps
pub mod Kept
pub mod Actions
pub mod Served
pub mod Approval
use scooling_lab.Base.{ℕ, String, Bool, Option, List, Dict}
use scooling_lab.Errors.{Result}
use scooling_lab.Json.{Fields}
use scooling_lab.Method.{Method}
use scooling_lab.Store.State.{TrainingJobStore, Action}
use scooling_lab.DatasetReview.Store.{DatasetStore, DatasetAction}
use scooling_lab.PackageIngest.Files.{Directories}

-- `class TrainingApiService`: what it changes
pub record Service : Type 0 where
  pub store : TrainingJobStore
  pub datasets : DatasetStore
  pub packages : Directories

abbrev pub Operation : Type 0 → Type 0
Operation A = Method Service A

-- `class ArtifactStorageBackend`, but for its deletions, which the store calls
pub record ArtifactStorage : Type 0 where
  pub upload : String → String → Result String
  pub issue_download : String → String → String → Result Fields

-- what the service is set up with, and finds around it
pub record Deployment : Type 0 where
  -- `os.environ`, and `int(time.time())` for the tokens
  pub environ : Dict String
  pub now : ℕ
  -- the text of the fixture dataset
  pub fixture_dataset : String
  pub auto_run_worker : Bool
  pub artifact_storage : Option ArtifactStorage
  -- whether `acquire` returns true
  pub acquires : Bool
  -- whether the worker has left a tarball of the job
  pub has_tarball : String → Bool

module _ {A : Type 0} where
  -- calls of the parts
  abbrev pub on_store : Action A → Operation A
  on_store m s = let (r, t) = m s.store in (r, record s { store = t })

  abbrev pub on_datasets : DatasetAction A → Operation A
  on_datasets m s = let (r, t) = m s.datasets in (r, record s { datasets = t })

  abbrev pub on_packages : Method Directories A → Operation A
  on_packages m s = let (r, t) = m s.packages in (r, record s { packages = t })
