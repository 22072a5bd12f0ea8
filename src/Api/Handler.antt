-- ===== src/Api/Handler.antt =====
-- api.py: the handler. A message is what the standard library has read of a request; each method
-- finds the call of the service for it, and the answer is the result of the call or its error.
use scooling_lab.Base.{
  ℕ, ℤ, pos, negsuc, zero, suc, String, Option, none, some, str_eq, ltb, if◌then◌else◌,
}
use scooling_lab.Codec.{Codec, Bytes}
use scooling_lab.Errors.{
  Result, ok, err, api, api_error, error_payload, validation_error, malformed_json, not_found,
  method_not_allowed, internal_error, value_error, json_decode_error, ◌>>=◌, ◌>>◌, raise_if,
}
use scooling_lab.Json.{Value, Fields, obj}
use scooling_lab.Service.Routes.{
  Request, create_call, retry_call, cancel_call, register_dataset_call, review_dataset_call,
  submit_dataset_call, ingest_call, artifacts_call, download_call, provenance_call, get_call,
  queue_call, get_dataset_call, delete_call,
}
use scooling_lab.Api.{parse_job_route, parse_artifact_route, parse_dataset_route}

-- the path and the headers of a request, its body up to a length, and the first `token` of its query
pub record Message : Type 0 where
  pub path : String
  pub content_length : Option String
  pub authorization : String
  pub read : ℕ → Bytes
  pub token : String

abbrev pub max_body_bytes : ℕ
max_body_bytes = 16_384

abbrev pub max_package_body_bytes : ℕ
max_package_body_bytes = 4_194_304

-- an `Option` of the standard library as a call that raises
abbrev pub or_error {ℓ} : {A : Type ℓ} → Option A → Result A
or_error none = err (api malformed_json 400)
or_error (some a) = ok a

-- `except (UnicodeDecodeError, json.JSONDecodeError)`: the other errors of `json.loads` pass
abbrev pub or_malformed {ℓ} : {A : Type ℓ} → Result A → Result A
or_malformed (err json_decode_error) = err (api malformed_json 400)
or_malformed m = m

abbrev pub mapping_of : Value → Result Fields
mapping_of (obj fs) = ok fs
mapping_of _ = err (api validation_error 400)

-- the length of the body, which is from 1 to the limit
unfoldable pub body_length : ℕ → ℤ → Result ℕ
body_length max_bytes (pos zero) = err (api validation_error 400)
body_length max_bytes (pos (suc n)) =
    raise_if (ltb max_bytes (suc n)) (api validation_error 400) >> ok (suc n)
body_length max_bytes (negsuc n) = err (api validation_error 400)

-- the routes of a `GET`: a call of the service, or the content of an artifact
pub data Route : Type 0 where
  call : Request → Route
  content : (job_id artifact_id token : String) → Route

-- the methods that the handler has
pub data Verb : Type 0 where
  do_post do_get do_put do_delete : Verb

module _ {A : Type 0} where
  -- an `if` of the handler on a route that is there
  unfoldable pub on_id : Option String → (String → Result A) → Result A → Result A
  on_id none found otherwise = otherwise
  on_id (some id) found otherwise = found id

  unfoldable pub on_ids :
      Option (String × String) → (String → String → Result A) → Result A → Result A
  on_ids none found otherwise = otherwise
  on_ids (some (job_id, artifact_id)) found otherwise = found job_id artifact_id

-- the routes of `do_GET`
unfoldable pub get_route : Message → Result Route
unfolding on_id on_ids
get_route m =
    on_id (parse_job_route m.path "artifacts") (λ id. ok (call (artifacts_call id)))
      (on_ids (parse_artifact_route m.path "download")
        (λ job_id artifact_id. ok (call (download_call job_id artifact_id m.authorization)))
        (on_ids (parse_artifact_route m.path "content")
          (λ job_id artifact_id. ok (content job_id artifact_id m.token))
          (on_id (parse_job_route m.path "provenance") (λ id. ok (call (provenance_call id)))
            (on_id (parse_job_route m.path "") (λ id. ok (call (get_call id)))
              (if str_eq m.path "/training/queue"
                then ok (call queue_call)
                else on_id (parse_dataset_route m.path "") (λ id. ok (call (get_dataset_call id)))
                    (err (api not_found 404)))))))

-- the route of `do_DELETE`
unfoldable pub delete_route : Message → Result Route
unfolding on_ids
delete_route m =
    on_ids (parse_artifact_route m.path "")
      (λ job_id artifact_id. ok (call (delete_call job_id artifact_id)))
      (err (api method_not_allowed 405))

module _ ⦃c : Codec⦄ where
  -- `Content-Length` as a number
  unfoldable pub declared_length : Option String → Result ℤ
  declared_length none = err (api malformed_json 400)
  declared_length (some text) = elim (c.parse_int text) [ none ↦ err value_error | some n ↦ ok n ]

  unfoldable pub read_json : ℕ → Message → Result Fields
  unfolding declared_length body_length
  read_json max_bytes m = do
    declared ← declared_length m.content_length
    length ← body_length max_bytes declared
    text ← or_error (c.utf8_decode (m.read length))
    payload ← or_malformed (c.json_loads text)
    mapping_of payload

  -- a call with the body of the request
  unfoldable pub with_body : ℕ → Message → (Fields → Request) → Result Route
  unfolding read_json
  with_body max_bytes m make = read_json max_bytes m >>= λ payload. ok (call (make payload))

  -- the routes of `do_POST`
  unfoldable pub post_route : Message → Result Route
  unfolding with_body on_id
  post_route m =
      if str_eq m.path "/training/jobs"
      then with_body max_body_bytes m create_call
      else on_id (parse_job_route m.path "retry") (λ id. ok (call (retry_call id)))
          (on_id (parse_job_route m.path "cancel") (λ id. ok (call (cancel_call id)))
            (if str_eq m.path "/datasets"
              then with_body max_body_bytes m register_dataset_call
              else on_id (parse_dataset_route m.path "review")
                  (λ id. with_body max_body_bytes m (review_dataset_call id))
                  (on_id (parse_dataset_route m.path "submit")
                    (λ id. ok (call (submit_dataset_call id)))
                    (on_id (parse_dataset_route m.path "package")
                      (λ id.
                        with_body max_package_body_bytes m
                          (λ payload. ingest_call id payload m.authorization))
                      (err (api not_found 404))))))

  unfoldable pub route : Verb → Message → Result Route
  unfolding post_route get_route delete_route
  route do_post m = post_route m
  route do_get m = get_route m
  route do_put m = err (api method_not_allowed 405)
  route do_delete m = delete_route m

-- `_handle_json`: the status and the body of the response
unfoldable pub handle_json : Result Value → ℕ × Value
handle_json (ok v) = (200, v)
handle_json (err (api_error e)) = (e.status, error_payload e)
handle_json (err _) = (500, error_payload (record { code = internal_error; status = 500 }))
