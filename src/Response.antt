-- ===== src/Response.antt =====
-- pkg/response/response.go: the envelope of every API response. The functions take the trace id
-- that gin's context holds under "trace_id" ("" if none); Http.antt writes the envelopes.
use ginblade.Prelude.{String, Option, none, some, List, [], ◌∷◌, str_eq, is_empty, if◌then◌else◌}
use ginblade.Prelude.Int.{ℤ, pos}
use ginblade.Errors.{Error, GoError, code_of, reason_of, as_api}
use ginblade.Errcode.{invalid_params, internal_error}
use ginblade.Model.{Example, ListExamplesRes, EnqueueExampleTaskRes, CreateTokenRes, MeRes}
use ginblade.Validator.{FieldError, handle_validator_error}

-- The values that the handlers put into `Data any`.
pub data Data : Type 0 where
  example : Example → Data
  examples : ListExamplesRes → Data
  enqueued : EnqueueExampleTaskRes → Data
  token : CreateTokenRes → Data
  me : MeRes → Data

-- Response; a nil map and an empty one are the same JSON, and so is `Data` without a value.
pub record Response : Type 0 where
  pub code : ℤ
  pub message : String
  pub reason : String
  pub payload : Option Data
  pub metadata : List (String × String)

-- What gin's binding returns: the validator's list, or another error with its text.
pub data BindError : Type 0 where
  validation : List FieldError → BindError
  malformed : String → BindError

-- messageFor
unfoldable pub message_for : String → String
message_for reason =
    if str_eq reason "INVALID_PARAMS"
    then "invalid request parameters"
    else if str_eq reason "UNAUTHORIZED"
    then "unauthorized"
    else if str_eq reason "PERMISSION_DENIED"
    then "permission denied"
    else if str_eq reason "TOO_MANY_REQUESTS"
    then "too many requests"
    else if str_eq reason "REQUEST_TIMEOUT"
    then "request timeout"
    else if str_eq reason "DATABASE_ERROR"
    then "database error"
    else if str_eq reason "QUEUE_UNAVAILABLE"
    then "queue unavailable"
    else if str_eq reason "QUEUE_ERROR"
    then "queue error"
    else "operation failed"

-- buildMetadata
unfoldable pub build_metadata : String → List (String × String)
build_metadata trace = if is_empty trace then [] else ("trace_id", trace) ∷ []

-- SuccessResponse
unfoldable pub success_response : Data → Response
success_response d = record {
  code = pos 0;
  message = "success";
  reason = "";
  payload = some d;
  metadata = [];
}

-- ErrorResponse
unfoldable pub error_response : String → Error → Response
unfolding message_for build_metadata code_of reason_of
error_response trace e = record {
  code = code_of e;
  message = message_for (reason_of e);
  reason = reason_of e;
  payload = none;
  metadata = build_metadata trace;
}

-- The message that BuildValidationErrorResponse picks.
unfoldable pub bind_message : BindError → String
unfolding handle_validator_error
bind_message (validation errs) = handle_validator_error errs
bind_message (malformed text) = text

-- BuildValidationErrorResponse
unfoldable pub build_validation_error_response : String → BindError → Response
unfolding bind_message build_metadata code_of reason_of
build_validation_error_response trace e = record {
  code = code_of invalid_params;
  message = bind_message e;
  reason = reason_of invalid_params;
  payload = none;
  metadata = build_metadata trace;
}

abbrev or_internal : Option Error → Error
or_internal none = internal_error
or_internal (some e) = e

-- The envelope that WriteError chooses.
unfoldable pub envelope_of_error : String → GoError → Response
unfolding as_api error_response
envelope_of_error trace e = error_response trace (or_internal (as_api e))
