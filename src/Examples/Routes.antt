-- ===== src/Examples/Routes.antt =====
-- The routes at concrete paths.
use scooling_lab.Base.{String, true, [], some, none, ◌≡◌, refl, ◌↔◌}
use scooling_lab.Errors.{ok}
use scooling_lab.Contracts.Identifiers.{job_id_re}
use scooling_lab.Service.Routes.{cancel_call}
use scooling_lab.Api.{parse_job_route, parse_artifact_route}
use scooling_lab.Api.Laws.{IsRoute, parse_job_route-IsRoute}
use scooling_lab.Api.Artifacts.{IsArtifactRoute, parse_artifact_route-IsArtifactRoute}
use scooling_lab.Api.Handler.{Message, call, do_post, route}
use scooling_lab.Api.Calls.{is_safe_route, route-is_safe_route}
use scooling_lab.Examples.Tokens.{codec}

abbrev job_id : String
job_id = "job_0123456789abcdef01234567"

abbrev artifact_id : String
artifact_id = "artifact_0123456789abcdef01234567"

abbrev cancel_path : String
cancel_path = "/training/jobs/job_0123456789abcdef01234567/cancel"

abbrev download_path : String
download_path =
    "/training/jobs/job_0123456789abcdef01234567/artifacts/artifact_0123456789abcdef01234567/download"

abbrev message : Message
message = record {
  path = cancel_path;
  content_length = none;
  authorization = "";
  read = λ length. [];
  token = "";
}

parse_job_route-IsRoute_example :
    parse_job_route cancel_path "cancel" ≡ some job_id
    ↔ IsRoute "/training/jobs/" job_id_re "cancel" cancel_path job_id
parse_job_route-IsRoute_example = parse_job_route-IsRoute cancel_path "cancel" job_id

parse_artifact_route-IsArtifactRoute_example :
    parse_artifact_route download_path "download" ≡ some (job_id, artifact_id)
    ↔ IsArtifactRoute "download" download_path job_id artifact_id
parse_artifact_route-IsArtifactRoute_example =
    parse_artifact_route-IsArtifactRoute download_path "download" job_id artifact_id

cancelled : route ⦃c = codec "own:notes"⦄ do_post message ≡ ok (call (cancel_call job_id))
unfolding route parse_job_route job_id_re
cancelled = refl

route-is_safe_route_example : is_safe_route (call (cancel_call job_id)) ≡ true
route-is_safe_route_example =
    route-is_safe_route ⦃c = codec "own:notes"⦄ do_post message (call (cancel_call job_id))
      cancelled
