-- ===== src/Api/Calls.antt =====
-- api.py: which calls the handler makes.
use scooling_lab.Base.{
  ℕ, String, Bool, true, false, ◌&&◌, str_eq, if◌then◌else◌, ◌≡◌, refl, inl, inr, Option-cases,
  subst,
}
use scooling_lab.Codec.{Codec}
use scooling_lab.Errors.{Result, ok, >>=-eq-ok, ok-injective}
use scooling_lab.Json.{Fields}
use scooling_lab.Contracts.Identifiers.{job_id_re, artifact_id_re}
use scooling_lab.Service.Routes.{
  Request, create_call, retry_call, cancel_call, register_dataset_call, review_dataset_call,
  submit_dataset_call, ingest_call, artifacts_call, download_call, provenance_call, get_call,
  queue_call, get_dataset_call, delete_call, sweep_call,
}
use scooling_lab.Api.{dataset_id_re, parse_job_route, parse_dataset_route, parse_artifact_route}
use scooling_lab.Api.Laws.{IsRoute, parse_job_route-IsRoute, parse_dataset_route-IsRoute}
use scooling_lab.Api.Artifacts.{IsArtifactRoute, parse_artifact_route-IsArtifactRoute}
use scooling_lab.Api.Handler.{
  Message, Route, call, content, Verb, do_post, do_get, do_put, do_delete, max_body_bytes,
  max_package_body_bytes, on_id, on_ids, get_route, delete_route, read_json, with_body, post_route,
  route,
}

-- The ids of a request have the required forms. No message asks for a sweep.
abbrev pub has_safe_ids : Request → Bool
has_safe_ids (create_call payload) = true
has_safe_ids (retry_call id) = job_id_re id
has_safe_ids (cancel_call id) = job_id_re id
has_safe_ids (get_call id) = job_id_re id
has_safe_ids (artifacts_call id) = job_id_re id
has_safe_ids (provenance_call id) = job_id_re id
has_safe_ids (download_call job_id artifact_id h) = job_id_re job_id && artifact_id_re artifact_id
has_safe_ids (delete_call job_id artifact_id) = job_id_re job_id && artifact_id_re artifact_id
has_safe_ids sweep_call = false
has_safe_ids queue_call = true
has_safe_ids (register_dataset_call payload) = true
has_safe_ids (submit_dataset_call id) = dataset_id_re id
has_safe_ids (get_dataset_call id) = dataset_id_re id
has_safe_ids (review_dataset_call id payload) = dataset_id_re id
has_safe_ids (ingest_call id payload h) = dataset_id_re id

abbrev pub is_safe_route : Route → Bool
is_safe_route (call r) = has_safe_ids r
is_safe_route (content job_id artifact_id token) = job_id_re job_id && artifact_id_re artifact_id

-- The route that a result holds is safe, if it holds one.
abbrev IsSafe : Result Route → Type 0
IsSafe x = (r : Route) → x ≡ ok r → is_safe_route r ≡ true

IsSafe-ok : (r : Route) → is_safe_route r ≡ true → IsSafe (ok r)
IsSafe-ok r h t e = subst (λ x. is_safe_route x ≡ true) (ok-injective e) h

if-IsSafe : (b : Bool) (x y : Result Route) → IsSafe x → IsSafe y → IsSafe (if b then x else y)
if-IsSafe true x y h g = h
if-IsSafe false x y h g = g

job-IsSafe :
    (path suffix : String) (found : String → Result Route) (otherwise : Result Route)
    → ((id : String) → job_id_re id ≡ true → IsSafe (found id))
    → IsSafe otherwise
    → IsSafe (on_id (parse_job_route path suffix) found otherwise)
unfolding on_id IsRoute
job-IsSafe path suffix found otherwise h g = elim (Option-cases (parse_job_route path suffix)) [
  | inl e ↦ rw e g
  | inr (id, e) ↦ rw e (h id ((parse_job_route-IsRoute path suffix id).0 e).1)
]

dataset-IsSafe :
    (path suffix : String) (found : String → Result Route) (otherwise : Result Route)
    → ((id : String) → dataset_id_re id ≡ true → IsSafe (found id))
    → IsSafe otherwise
    → IsSafe (on_id (parse_dataset_route path suffix) found otherwise)
unfolding on_id IsRoute
dataset-IsSafe path suffix found otherwise h g =
    elim (Option-cases (parse_dataset_route path suffix)) [
      | inl e ↦ rw e g
      | inr (id, e) ↦ rw e (h id ((parse_dataset_route-IsRoute path suffix id).0 e).1)
    ]

artifact-IsSafe :
    (path suffix : String) (found : String → String → Result Route) (otherwise : Result Route)
    → ((job_id artifact_id : String)
        → (job_id_re job_id && artifact_id_re artifact_id) ≡ true
        → IsSafe (found job_id artifact_id))
    → IsSafe otherwise
    → IsSafe (on_ids (parse_artifact_route path suffix) found otherwise)
unfolding on_ids IsArtifactRoute
artifact-IsSafe path suffix found otherwise h g =
    elim (Option-cases (parse_artifact_route path suffix)) [
      | inl e ↦ rw e g
      | inr ((j, a), e) ↦
          let (_, job, artifact) = (parse_artifact_route-IsArtifactRoute path suffix j a).0 e in
          rw e (h j a (rw (job, artifact) refl))
    ]

get_route-IsSafe : (m : Message) → IsSafe (get_route m)
unfolding get_route
get_route-IsSafe m =
    job-IsSafe m.path "artifacts" _ _ (λ id h. IsSafe-ok (call (artifacts_call id)) h)
      (artifact-IsSafe m.path "download" _ _
        (λ j a h. IsSafe-ok (call (download_call j a m.authorization)) h)
        (artifact-IsSafe m.path "content" _ _ (λ j a h. IsSafe-ok (content j a m.token) h)
          (job-IsSafe m.path "provenance" _ _ (λ id h. IsSafe-ok (call (provenance_call id)) h)
            (job-IsSafe m.path "" _ _ (λ id h. IsSafe-ok (call (get_call id)) h)
              (if-IsSafe (str_eq m.path "/training/queue") _ _ (IsSafe-ok (call queue_call) refl) (
                dataset-IsSafe m.path "" _ _ (λ id h. IsSafe-ok (call (get_dataset_call id)) h)
                  (λ r e. cc e)))))))

delete_route-IsSafe : (m : Message) → IsSafe (delete_route m)
unfolding delete_route
delete_route-IsSafe m =
    artifact-IsSafe m.path "" _ _ (λ j a h. IsSafe-ok (call (delete_call j a)) h) (λ r e. cc e)

module _ ⦃c : Codec⦄ where
  body-IsSafe :
      (max_bytes : ℕ) (m : Message) (make : Fields → Request)
      → ((payload : Fields) → has_safe_ids (make payload) ≡ true)
      → IsSafe (with_body max_bytes m make)
  unfolding with_body
  body-IsSafe max_bytes m make h r e =
      let (payload, _, e1) = >>=-eq-ok (read_json max_bytes m) _ e in
      IsSafe-ok (call (make payload)) (h payload) r e1

  post_route-IsSafe : (m : Message) → IsSafe (post_route m)
  unfolding post_route
  post_route-IsSafe m =
      if-IsSafe (str_eq m.path "/training/jobs") _ _
        (body-IsSafe max_body_bytes m create_call (λ payload. refl))
        (job-IsSafe m.path "retry" _ _ (λ id h. IsSafe-ok (call (retry_call id)) h)
          (job-IsSafe m.path "cancel" _ _ (λ id h. IsSafe-ok (call (cancel_call id)) h)
            (if-IsSafe (str_eq m.path "/datasets") _ _
              (body-IsSafe max_body_bytes m register_dataset_call (λ payload. refl))
              (dataset-IsSafe m.path "review" _ _
                (λ id h. body-IsSafe max_body_bytes m (review_dataset_call id) (λ payload. h))
                (dataset-IsSafe m.path "submit" _ _
                  (λ id h. IsSafe-ok (call (submit_dataset_call id)) h)
                  (dataset-IsSafe m.path "package" _ _
                    (λ id h.
                      body-IsSafe max_package_body_bytes m
                        (λ payload. ingest_call id payload m.authorization) (λ payload. h))
                    (λ r e. cc e)))))))

  -- Whatever the method, the path, the headers and the body of a message, the route that the
  -- handler finds has job ids, artifact ids and dataset ids of the required forms only, and it
  -- is not the sweep.
  pub route-is_safe_route :
      (verb : Verb) (m : Message) (r : Route) → route verb m ≡ ok r → is_safe_route r ≡ true
  unfolding route
  route-is_safe_route do_post m r e = post_route-IsSafe m r e
  route-is_safe_route do_get m r e = get_route-IsSafe m r e
  route-is_safe_route do_put m r e = cc e
  route-is_safe_route do_delete m r e = delete_route-IsSafe m r e
