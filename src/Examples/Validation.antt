-- ===== src/Examples/Validation.antt =====
-- Requests, retention policies and timestamps at concrete inputs.
use scooling_lab.Base.{
  ◌+◌, ◌*◌, ◌/◌, pos, true, false, List, ◌≡◌, refl, arith, leb, ltb, if◌then◌else◌, ◌↔◌,
}
use scooling_lab.Errors.{ok, err, api, validation_error, overflow_error}
use scooling_lab.Json.{int, str, obj, Fields, field, end, keys_within, get}
use scooling_lab.Retention.{
  RetentionPolicy, RetentionPolicyClass, ephemeral, standard, to_public_dict,
  retention_policy_from_mapping, default_retention_policy, retention_bounds, parse_utc_timestamp,
  utc_timestamp, is_expired,
}
use scooling_lab.Retention.Laws.{IsBounded, is_expired_lem}
use scooling_lab.Platform.{end_of_time}
use scooling_lab.Contracts.Identifiers.{
  require_safe_identifier, require_requester, require_training_dataset_id, safe_identifier_re,
  requester_re, is_allowed_training_dataset_id,
}
use scooling_lab.Contracts.Identifiers.Laws.{require_safe_identifier_lem}
use scooling_lab.Contracts.Parameters
use scooling_lab.Contracts.Identifiers
use scooling_lab.Contracts.Request
use scooling_lab.Retention
use scooling_lab.Contracts.Parameters.{validate_training_parameters}
use scooling_lab.Contracts.Parameters.Accepted.{IsAccepted, validate_training_parameters-IsAccepted}
use scooling_lab.Contracts.Parameters.Again.{validate_training_parameters_again}
use scooling_lab.Contracts.Request.{TrainingJobRequest, from_mapping, request_to_persisted}
use scooling_lab.Contracts.Request.Laws.{IsValid, from_mapping-IsValid}
use scooling_lab.Contracts.Request.Again.{from_mapping-request_to_persisted}
use scooling_lab.Examples.Demo.{demo, demo_request, hour, demo-IsCalendar, demo-IsLowercasing}
use scooling_lab.StateMachine.{TrainingJobStatus, queued, deleted}
use scooling_lab.StateMachine.Laws.{can_become, transitions, transitions-can_become_iff}

hour-IsBounded : IsBounded hour
unfolding retention_bounds
hour-IsBounded = record { at_least = omega arith; at_most = omega arith }

hour_accepted :
    retention_policy_from_mapping (obj (field "policyClass" (str "ephemeral") end)) ≡ ok hour
unfolding retention_policy_from_mapping keys_within get
hour_accepted = refl

is_expired_lem_example :
    is_expired ⦃p = demo⦄ (utc_timestamp ⦃p = demo⦄ 2_500_000) hour 3_602_000_000 ≡ (
      if ltb (2_500_000 / 1_000_000 + 3600) end_of_time
      then ok (leb ((2_500_000 / 1_000_000 + 3600) * 1_000_000) 3_602_000_000)
      else err overflow_error)
is_expired_lem_example =
    is_expired_lem ⦃p = demo⦄ 2_500_000 hour 3_602_000_000 demo-IsCalendar (omega arith)

require_safe_identifier_lem_example :
    require_safe_identifier ⦃p = demo⦄ (str "job-1")
    ≡ (if safe_identifier_re "job-1" then ok "job-1" else err (api validation_error 400))
require_safe_identifier_lem_example = require_safe_identifier_lem ⦃p = demo⦄ "job-1"

abbrev epochs_two : Fields
epochs_two = field "epochs" (int (pos 2)) end

epochs_accepted :
    validate_training_parameters ⦃p = demo⦄ (obj epochs_two) false "wave_a" ≡ ok epochs_two
unfolding validate_training_parameters keys_within Parameters.collect_parameters
    Parameters.epochs_entry get Parameters.check_epochs Parameters.learning_rate_entry
    Parameters.dry_run_entry
epochs_accepted = refl

validate_training_parameters-IsAccepted_example : IsAccepted "wave_a" false epochs_two
validate_training_parameters-IsAccepted_example =
    validate_training_parameters-IsAccepted ⦃p = demo⦄ (obj epochs_two) false "wave_a"
      epochs_accepted

validate_training_parameters_again_example :
    validate_training_parameters ⦃p = demo⦄ (obj epochs_two) false "wave_a" ≡ ok epochs_two
validate_training_parameters_again_example =
    validate_training_parameters_again ⦃p = demo⦄ false "wave_a" refl
      validate_training_parameters-IsAccepted_example

request_accepted : from_mapping ⦃p = demo⦄ (request_to_persisted demo_request) ≡ ok demo_request
unfolding demo from_mapping request_to_persisted to_public_dict keys_within require_safe_identifier
    get require_training_dataset_id require_requester retention_policy_from_mapping
    validate_training_parameters is_allowed_training_dataset_id requester_re safe_identifier_re
    default_retention_policy retention_bounds Parameters.check_epochs Parameters.check_dry_run
    Parameters.check_learning_rate Parameters.dry_run_entry Parameters.in_unit_interval
    Parameters.learning_rate_entry Parameters.learning_rate_value Parameters.one_units
    Parameters.require_mapping Parameters.collect_parameters Parameters.epochs_entry
    Identifiers.forbidden_string_re Identifiers.is_identifier_char Identifiers.is_name_char
    Identifiers.is_own_data_dataset_id Identifiers.own_data_dataset_id_re Identifiers.prefix_re
    Identifiers.repeat_re Identifiers.search_re Request.reject_forbidden_keys
    Request.is_forbidden_key Request.parameters_for Request.contains_term Retention.class_of_value
    Retention.class_value
request_accepted = refl

from_mapping-IsValid_example : IsValid demo_request
from_mapping-IsValid_example =
    from_mapping-IsValid ⦃p = demo⦄ (request_to_persisted demo_request) request_accepted

from_mapping-request_to_persisted_example :
    from_mapping ⦃p = demo⦄ (request_to_persisted demo_request) ≡ ok demo_request
from_mapping-request_to_persisted_example =
    from_mapping-request_to_persisted ⦃p = demo⦄ demo_request demo-IsLowercasing
      from_mapping-IsValid_example

transitions-can_become_iff_example :
    ((ts : List TrainingJobStatus) × (transitions queued ts ≡ ok deleted))
    ↔ (can_become queued deleted ≡ true)
transitions-can_become_iff_example = transitions-can_become_iff queued deleted
