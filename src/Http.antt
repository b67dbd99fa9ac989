-- ===== src/Http.antt =====
-- gin's Context, as far as the program uses it: the request, the request's context, the key-value
-- store, the response written so far, the abort flag, and the log entries of the request. gin and
-- zap are not this repository's code; these are the calls that it makes of them.
use ginblade.Prelude.{ℕ, String, Bool, true, List, [], ◌∷◌, ◌++◌, str_eq, if◌then◌else◌}
use ginblade.Prelude.Int.{ℤ}
use ginblade.Context.{Context}
use ginblade.Errors.{GoError}
use ginblade.Response.{
  Response, Data, BindError, success_response, envelope_of_error, build_validation_error_response,
}

pub data Level : Type 0 where
  info warn error fatal : Level

pub data Field : Type 0 where
  str : String → String → Field
  int : String → ℕ → Field
  -- zap.Int, of an int that may be negative
  integer : String → ℤ → Field
  duration : String → ℤ → Field
  fault : GoError → Field

-- One call of a zap logger: its level and message, the trace id that FromContext put in front, and
-- the fields of the call.
pub record Entry : Type 0 where
  pub level : Level
  pub message : String
  pub trace : String
  pub fields : List Field

-- A body of a response: JSON that c.JSON writes, or the plain text that gin itself answers with.
pub data Body : Type 0 where
  envelope : Response → Body
  health : String → List (String × String) → Body
  text : String → Body

pub record Gin : Type 0 where
  pub method : String
  pub path : String
  pub client_ip : String
  pub header : String → String
  pub ctx : Context
  pub keys : List (String × String)
  pub response_header : List (String × String)
  pub status : ℕ
  pub bodies : List Body
  pub aborted : Bool
  pub log : List Entry

-- A map with text keys, by its writes, the last one first; a missing key reads as "".
unfoldable pub get_string : String → List (String × String) → String
get_string k [] = ""
get_string k ((j, v) ∷ m) = if str_eq j k then v else get_string k m

-- The bodies written so far, and one more.
abbrev pub with_body : List Body → Body → List Body
with_body bodies b = bodies ++ b ∷ []

-- c.Set
abbrev pub set_key : String → String → Gin → Gin
set_key k v c = record c { keys = (k, v) ∷ c.keys }

-- c.Header
abbrev pub set_header : String → String → Gin → Gin
set_header k v c = record c { response_header = (k, v) ∷ c.response_header }

-- c.JSON
abbrev pub write_json : ℕ → Body → Gin → Gin
write_json status b c = record c { status = status; bodies = c.bodies ++ b ∷ [] }

-- c.AbortWithStatusJSON
abbrev pub abort_with_json : ℕ → Body → Gin → Gin
abort_with_json status b c = record c {
  status = status;
  bodies = c.bodies ++ b ∷ [];
  aborted = true;
}

-- c.AbortWithStatus
abbrev pub abort_with_status : ℕ → Gin → Gin
abort_with_status status c = record c { status = status; aborted = true }

abbrev pub log_entry : Entry → Gin → Gin
log_entry e c = record c { log = c.log ++ e ∷ [] }

-- c.GetString("trace_id")
unfoldable pub trace_of : Gin → String
unfolding get_string
trace_of c = get_string "trace_id" c.keys

-- response.WriteSuccess
unfoldable pub write_success : Data → Gin → Gin
unfolding success_response
write_success d c = write_json 200 (envelope (success_response d)) c

-- response.WriteError
unfoldable pub write_error : GoError → Gin → Gin
unfolding envelope_of_error get_string
write_error e c = write_json 200 (envelope (envelope_of_error (trace_of c) e)) c

-- response.WriteValidationError
unfoldable pub write_validation_error : BindError → Gin → Gin
unfolding build_validation_error_response get_string
write_validation_error e c =
    write_json 200 (envelope (build_validation_error_response (trace_of c) e)) c

-- What running handlers ends in: the request is answered, or a panic is on its way up. `W` is the
-- state outside the request.
pub data Outcome (W : Type 0) : Type 0 where
  finished : Gin → W → Outcome W
  panicked : String → Gin → W → Outcome W

-- A handler; and a middleware, which gets the rest of the chain as what c.Next() runs.
abbrev pub Handler : Type 0 → Type 0
Handler W = Gin → W → Outcome W

abbrev pub Middleware : Type 0 → Type 0
Middleware W = Handler W → Handler W

-- The code after c.Next(), which a panic skips.
abbrev pub after : {W : Type 0} → Outcome W → Handler W → Outcome W
after (finished c w) k = k c w
after (panicked p c w) k = panicked p c w
