-- ===== src/Workers/Fake.antt =====
-- fake_worker.py: the in-process worker, which trains nothing. The fixture dataset is a file of the
-- package; its text is a parameter.
use scooling_lab.Base.{String}
use scooling_lab.Json.{obj, str, field, end, sorted_fields}
use scooling_lab.Platform.{Platform}
use scooling_lab.Retention.{to_public_dict}
use scooling_lab.Contracts.Request.{TrainingJobRequest}
use scooling_lab.Provenance.{ProvenanceRecord, provenance_schema_version}
use scooling_lab.Store.Records.{TrainingJobRecord}
use scooling_lab.Store.State.{Action}
use scooling_lab.Workers.Completion.{complete_now, run_with}

module _ ⦃p : Platform⦄ (fixture_dataset : String) where
  unfoldable pub fixture_dataset_hash : String
  fixture_dataset_hash = p.sha256_hex fixture_dataset

module _ ⦃p : Platform⦄ where
  unfoldable pub placeholder_artifact_hash : String → TrainingJobRequest → String → String
  placeholder_artifact_hash job_id request dataset_hash = p.sha256_hex (
      p.json_dumps (
        obj (
          field "datasetHash" (str dataset_hash) (
            field "jobId" (str job_id) (
              field "modelId" (str request.model_id) (
                field "placeholder" (str "scooling-lab-fake-artifact-v1") (
                  field "trainingParameters" (obj (sorted_fields request.training_parameters))
                    end)))))))

  unfoldable pub training_config_hash : TrainingJobRequest → String
  training_config_hash request = p.sha256_hex (
      p.json_dumps (
        obj (
          field "modelId" (str request.model_id) (
            field "retentionPolicy" (to_public_dict request.retention_policy)
              (field "trainingParameters" (obj (sorted_fields request.training_parameters)) end)))))

  -- the provenance record of `run_job`
  unfoldable pub provenance :
      String → String → TrainingJobRecord → TrainingJobRequest → String → ProvenanceRecord
  unfolding fixture_dataset_hash placeholder_artifact_hash training_config_hash
  provenance fixture_dataset job_id running_job request created_at = record {
    job_id = job_id;
    dataset_hash = fixture_dataset_hash fixture_dataset;
    artifact_hash =
        placeholder_artifact_hash running_job.id request (fixture_dataset_hash fixture_dataset);
    base_model_id = request.model_id;
    training_config_hash = training_config_hash request;
    created_at = created_at;
    schema_version = provenance_schema_version;
  }

  -- the part of `run_job` that follows the start of the job
  unfoldable pub work :
      String → String → TrainingJobRecord → TrainingJobRequest → Action TrainingJobRecord
  unfolding provenance
  work fixture_dataset job_id running_job request =
      complete_now job_id (provenance fixture_dataset job_id running_job request)
        request.retention_policy

  -- `FakeTrainingWorker.run_job`
  unfoldable pub run_job : String → String → Action TrainingJobRecord
  unfolding work
  run_job fixture_dataset job_id = run_with job_id (work fixture_dataset job_id)
