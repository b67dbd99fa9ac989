-- ===== src/Middleware.antt =====
-- internal/middleware: the middlewares of the HTTP server. `W` is the state outside the request; a
-- reading of the clock, or a fresh UUID, is an argument.
pub mod RateLimit
pub mod Auth
pub mod Cors
pub mod Recovery
pub mod Trace
pub mod Timeout
use ginblade.Prelude.{
  ℕ, ◌+◌, ◌-◌, String, Bool, true, false, ◌&&◌, not, Option, none, some, List, [], ◌∷◌, ◌++◌,
  str_eq, is_empty, trim_space, if◌then◌else◌,
}
use ginblade.Prelude.Int.{ℤ, pos, pos_part, is_positive}
use ginblade.Errors.{Result, ok, err}
use ginblade.Errcode.{unauthorized, internal_error}
use ginblade.Context.{with_deadline}
use ginblade.Log.{with_trace_id, trace_id_from}
use ginblade.Response.{error_response}
use ginblade.Auth.{JwtManager, parse_token}
use ginblade.Auth.Library.{Jwt, Claims}
use ginblade.Http.{
  Gin, Outcome, finished, panicked, Handler, Middleware, Entry, info, error, str, int, duration,
  envelope, get_string, set_key, set_header, abort_with_json, abort_with_status, log_entry,
  trace_of, after,
}

-- authSubjectKey
abbrev pub auth_subject_key : String
auth_subject_key = "auth_subject"

-- AuthSubject
unfoldable pub auth_subject : Gin → String
unfolding get_string
auth_subject c = get_string auth_subject_key c.keys

-- c.AbortWithStatusJSON(200, response.ErrorResponse(c, errcode.Unauthorized))
abbrev pub deny_unauthorized : Gin → Gin
deny_unauthorized c = abort_with_json 200 (envelope (error_response (trace_of c) unauthorized)) c

-- A map[string]struct{} built by the loops of CORS and TraceLogger.
unfoldable pub contains : List String → String → Bool
contains [] key = false
contains (k ∷ ks) key = let rest = contains ks key in if str_eq k key then true else rest

unfoldable pub allowed_origins : List String → List String
allowed_origins [] = []
allowed_origins (o ∷ os) =
    let origin = trim_space o in
    let rest = allowed_origins os in if is_empty origin then rest else origin ∷ rest

unfoldable pub excluded_paths : List String → List String
excluded_paths [] = []
excluded_paths (p ∷ ps) = let rest = excluded_paths ps in if is_empty p then rest else p ∷ rest

abbrev pub allow_methods : String
allow_methods = "GET,POST,PUT,PATCH,DELETE,OPTIONS"

abbrev pub allow_headers : String
allow_headers = "Origin,Content-Type,Accept,Authorization,X-Request-ID"

-- The five headers that CORS sets for an allowed origin.
unfoldable pub allow_origin : String → Gin → Gin
allow_origin origin c = set_header "Access-Control-Allow-Credentials" "true" (
    set_header "Access-Control-Allow-Headers" allow_headers (
      set_header "Access-Control-Allow-Methods" allow_methods
        (set_header "Vary" "Origin" (set_header "Access-Control-Allow-Origin" origin c))))

-- The headers that the handler of CORS sets before it goes on.
unfoldable pub cors_headers : List String → Gin → Gin
unfolding allow_origin
cors_headers origins c =
    let origin = trim_space (c.header "Origin") in
    if not (is_empty origin) && contains (allowed_origins origins) origin
    then allow_origin origin c
    else c

-- The entry that Recovery logs; the stack trace is left out.
abbrev pub recovery_entry : String → Gin → Entry
unfolding trace_id_from
recovery_entry p c = record {
  level = error;
  message = "panic recovered";
  trace = trace_id_from (some c.ctx);
  fields = str "method" c.method ∷ str "path" c.path ∷ str "error" p ∷ [];
}

-- The deferred function of Recovery, after a panic.
unfoldable pub recover : String → Gin → Gin
recover p c =
    abort_with_json 200 (envelope (error_response (trace_of c) internal_error))
      (log_entry (recovery_entry p c) c)

-- The request's trace id: the caller's, or a new UUID.
unfoldable pub request_trace : String → Gin → String
request_trace uuid c = let id = c.header "X-Request-ID" in if is_empty id then uuid else id

-- TraceLogger, before c.Next()
unfoldable pub attach_trace : String → Gin → Gin
unfolding with_trace_id
attach_trace id c =
    let c' = set_header "X-Request-ID" id (set_key "trace_id" id c) in
    record c' { ctx = with_trace_id (some c'.ctx) id }

abbrev pub audit_entry : ℕ → Gin → Entry
unfolding trace_id_from
audit_entry latency c = record {
  level = info;
  message = "http request completed";
  trace = trace_id_from (some c.ctx);
  fields =
      str "method" c.method
      ∷ str "path" c.path
      ∷ int "status" c.status
      ∷ duration "latency" (pos latency)
      ∷ str "client_ip" c.client_ip
      ∷ [];
}

-- TraceLogger, after c.Next()
unfoldable pub audit : Bool → List String → ℕ → Gin → Gin
audit enabled excludes latency c =
    if not enabled
    then c
    else if contains (excluded_paths excludes) c.path
    then c
    else log_entry (audit_entry latency c) c

module _ {W : Type 0} where
  -- BearerAuth, from the parser's answer on
  abbrev pub admit : Result Claims → Middleware W
  admit (err e) next c w = finished (deny_unauthorized c) w
  admit (ok claims) next c w = next (set_key auth_subject_key claims.subject c) w

  -- BearerAuth
  unfoldable pub bearer_auth : Jwt → Option JwtManager → ℕ → Middleware W
  bearer_auth jwt none now next c w = finished (deny_unauthorized c) w
  bearer_auth jwt (some m) now next c w =
      admit (parse_token jwt m now (c.header "Authorization")) next c w

  -- CORS
  unfoldable pub cors : List String → Middleware W
  cors origins next c w =
      let c' = cors_headers origins c in
      if str_eq c'.method "OPTIONS" then finished (abort_with_status 204 c') w else next c' w

  abbrev pub recovered : Outcome W → Outcome W
  recovered (finished c w) = finished c w
  recovered (panicked p c w) = finished (recover p c) w

  -- Recovery
  unfoldable pub recovery : Middleware W
  unfolding recover
  recovery next c w = recovered (next c w)

  -- Timeout; `now` is the time at which the deadline is set.
  unfoldable pub timeout : ℤ → ℕ → Middleware W
  timeout d now next c w =
      if is_positive d
      then next (record c { ctx = with_deadline (now + pos_part d) c.ctx }) w
      else next c w

  -- TraceLogger; `start` and `end` are the readings of the clock.
  unfoldable pub trace_logger : Bool → List String → String → ℕ → ℕ → Middleware W
  trace_logger enabled excludes uuid start end next c w =
      after (next (attach_trace (request_trace uuid c) c) w)
        (λ c' w'. finished (audit enabled excludes (end - start) c') w')
