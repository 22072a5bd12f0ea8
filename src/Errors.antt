-- ===== src/Errors.antt =====
-- errors.py: the public error codes, their messages and the error payload. A Python exception is
-- a value: `api_error` for `ApiError`, the others for the built-in exceptions that the program's
-- own code may raise, which the HTTP handler turns into the internal error. `no_answer` marks a loop
-- of the model that its fuel did not carry to the end: the program's loop would still be running.
use scooling_lab.Json.{Value, obj, str, field, end}
use scooling_lab.Base.{ℕ, String, Bool, true, false, ◌≡◌, refl}

-- `class ErrorCode`
pub data ErrorCode : Type 0 where
  validation_error malformed_json not_found invalid_transition : ErrorCode
  queue_limit_exceeded method_not_allowed conflict internal_error : ErrorCode
  dataset_not_approved unauthorized : ErrorCode

-- `ErrorCode.value`
unfoldable pub value : ErrorCode → String
value validation_error = "VALIDATION_ERROR"
value malformed_json = "MALFORMED_JSON"
value not_found = "NOT_FOUND"
value invalid_transition = "INVALID_TRANSITION"
value queue_limit_exceeded = "QUEUE_LIMIT_EXCEEDED"
value method_not_allowed = "METHOD_NOT_ALLOWED"
value conflict = "CONFLICT"
value internal_error = "INTERNAL_ERROR"
value dataset_not_approved = "DATASET_NOT_APPROVED"
value unauthorized = "UNAUTHORIZED"

-- `SAFE_ERROR_MESSAGES`
unfoldable pub safe_error_messages : ErrorCode → String
safe_error_messages validation_error = "The request is not accepted by the training contract."
safe_error_messages malformed_json = "The request body must be valid JSON."
safe_error_messages not_found = "The requested training resource was not found."
safe_error_messages invalid_transition = "The requested job state change is not allowed."
safe_error_messages queue_limit_exceeded = "The fixture training queue is full."
safe_error_messages method_not_allowed = "The HTTP method is not allowed for this route."
safe_error_messages conflict = "The request conflicts with an existing training job."
safe_error_messages internal_error = "The training service could not complete the request."
safe_error_messages dataset_not_approved = "The dataset has not been approved for job submission."
safe_error_messages unauthorized = "The request is not authorized for this training operation."

-- `class ApiError`
pub record ApiError : Type 0 where
  pub code : ErrorCode
  pub status : ℕ

pub data Exception : Type 0 where
  api_error : ApiError → Exception
  value_error key_error overflow_error type_error attribute_error : Exception
  assertion_error os_error recursion_error json_decode_error subprocess_error no_answer : Exception

-- A call that returns or raises.
pub data Result {ℓ} (A : Type ℓ) : Type ℓ where
  ok : A → Result A
  err : Exception → Result A

-- `ApiError(code, status)`
abbrev pub api : ErrorCode → ℕ → Exception
api c n = api_error (record { code = c; status = n })

-- `except ApiError`
abbrev pub is_api_error : Exception → Bool
is_api_error (api_error e) = true
is_api_error _ = false

-- `if b: raise e`
abbrev pub raise_if : Bool → Exception → Result (Unit {0})
raise_if true e = err e
raise_if false e = ok tt

abbrev pub is_ok {ℓ} : {A : Type ℓ} → Result A → Bool
is_ok (ok a) = true
is_ok (err e) = false

module _ {ℓ κ} {A : Type ℓ} {B : Type κ} where
  infixl 10 ◌>>=◌
  -- one call after another, which takes what the first returned
  abbrev pub ◌>>=◌ : Result A → (A → Result B) → Result B
  call >>= rest = elim call [ err e ↦ err e | ok a ↦ rest a ]

  -- Inversion of a call that returns.
  pub >>=-eq-ok :
      (call : Result A) (rest : A → Result B) {b : B}
      → (call >>= rest) ≡ ok b
      → (a : A) × (call ≡ ok a) × (rest a ≡ ok b)
  >>=-eq-ok (err e) rest h = cc
  >>=-eq-ok (ok a) rest h = (a, refl, h)

-- a check before a call
infixl 10 ◌>>◌
abbrev pub ◌>>◌ {κ} : {B : Type κ} → Result (Unit {0}) → Result B → Result B
check >> rest = check >>= λ _. rest

pub ok-injective {ℓ} : {A : Type ℓ} {a b : A} → ok a ≡ ok b → a ≡ b
ok-injective h = cc

-- A check that did not raise had its test fail.
pub raise_if-ok {ℓ} :
    {A : Type ℓ} (b : Bool) (e : Exception) (f : Unit {0} → Result A) {a : A}
    → (raise_if b e >>= f) ≡ ok a
    → (b ≡ false) × (f tt ≡ ok a)
raise_if-ok true e f h = cc
raise_if-ok false e f h = (refl, h)

-- `error_payload`, with the message of the error's code
unfoldable pub error_payload : ApiError → Value
unfolding value safe_error_messages
error_payload e = obj (
    field "error"
      (obj (
        field "code" (str (value e.code)) (field "message" (str (safe_error_messages e.code)) end)))
      end)
