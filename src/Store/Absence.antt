-- ===== src/Store/Absence.antt =====
-- store.py: the hashes of an artifact, and the check that no output of the store holds them.
use scooling_lab.Base.{
  String, Bool, false, not, List, [], ◌∷◌, none, some, if◌then◌else◌, values, str_eq, codes, all,
}
use scooling_lab.Errors.{Result, ok, err}
use scooling_lab.Json.{arr, obj, Fields, end, field}
use scooling_lab.Platform.{Platform}
use scooling_lab.Contracts.Request.{contains_term}
use scooling_lab.Provenance
use scooling_lab.Provenance.{ProvenanceRecord}
use scooling_lab.Store.Records.{
  ArtifactMetadata, TrainingJobRecord, items_of, artifact_to_dict, job_to_public_dict,
  to_persisted_dict,
}
use scooling_lab.Store.State.{TrainingJobStore, sorted_by_id}

-- `_hashes_for_artifact`
unfoldable pub hashes_for_artifact : TrainingJobRecord → ArtifactMetadata → List String
hashes_for_artifact job a = a.dataset_hash ∷ a.artifact_hash ∷ elim job.provenance [
  | none ↦ []
  | some r ↦ r.dataset_hash ∷ r.artifact_hash ∷ r.training_config_hash ∷ []
]

module _ ⦃p : Platform⦄ where
  -- the dictionaries of `verify_hash_absence`, in the order of the jobs
  artifacts_by_job : List TrainingJobRecord → Result Fields
  artifacts_by_job [] = ok end
  artifacts_by_job (r ∷ rs) = elim (items_of artifact_to_dict r.artifacts) [
    | err e ↦ err e
    | ok items ↦ elim (artifacts_by_job rs) [
      | err e ↦ err e
      | ok rest ↦ ok (field r.id (arr items) rest)
    ]
  ]

  provenance_by_job : List TrainingJobRecord → Fields
  provenance_by_job [] = end
  provenance_by_job (r ∷ rs) =
      let rest = provenance_by_job rs in
      elim r.provenance [
        | none ↦ rest
        | some made ↦ field r.id (obj (Provenance.to_dict made)) rest
      ]

  -- everything that the store can serialize, as one JSON text
  unfoldable pub store_output : List TrainingJobRecord → Result String
  unfolding artifacts_by_job provenance_by_job
  store_output jobs = elim (artifacts_by_job jobs) [
    | err e ↦ err e
    | ok artifacts ↦ elim (items_of job_to_public_dict (sorted_by_id jobs)) [
      | err e ↦ err e
      | ok public ↦ elim (items_of to_persisted_dict (sorted_by_id jobs)) [
        | err e ↦ err e
        | ok persisted ↦ ok (
            p.json_dumps_spaced (
              obj (
                field "artifacts" (obj artifacts) (
                  field "jobs" (arr public) (
                    field "persisted" (arr persisted)
                      (field "provenance" (obj (provenance_by_job jobs)) end))))))
      ]
    ]
  ]

  non_empty : List String → List String
  non_empty [] = []
  non_empty (h ∷ hs) = let rest = non_empty hs in if str_eq h "" then rest else h ∷ rest

  absent_from : List String → Result String → Result Bool
  absent_from hashes (ok output) = ok (all (λ h. not (contains_term (codes output) h)) hashes)
  absent_from hashes (err e) = err e

  unfoldable pub verify_hash_absence : List String → TrainingJobStore → Result Bool
  unfolding non_empty absent_from
  verify_hash_absence hash_values s = elim (non_empty hash_values) [
    | [] ↦ ok false
    | h ∷ hs ↦ absent_from (h ∷ hs) (store_output (values s.jobs))
  ]
