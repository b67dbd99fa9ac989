-- ===== src/Log.antt =====
-- pkg/log/logger.go: the process logger, and the trace id that a context carries.
pub mod Trace
pub mod Global
use Prim.Native.String
use ginblade.Prelude.{
  String, Bool, true, false, not, ◌&&◌, ◌||◌, Option, none, some, List, [], ◌∷◌, ◌++◌, ◌≡◌, refl,
  str_eq, is_empty, trim_space, join, if◌then◌else◌,
}
use ginblade.Prelude.Int.{ℤ}
use ginblade.Errors.{GoError, wrap, plain, Result, ok, err, ◌>>=◌}
use ginblade.Context.{Context, background, with_trace, trace_value, normalize_context}

-- WithTraceID
unfoldable pub with_trace_id : Option Context → String → Context
unfolding normalize_context
with_trace_id ctx id = with_trace id (normalize_context ctx)

abbrev text_or_empty : Option String → String
text_or_empty none = ""
text_or_empty (some v) = v

-- TraceIDFrom
unfoldable pub trace_id_from : Option Context → String
unfolding trace_value
trace_id_from none = ""
trace_id_from (some ctx) = text_or_empty (trace_value ctx)

-- EnsureTraceID
unfoldable pub ensure_trace_id : Option Context → String → Context
unfolding normalize_context with_trace_id trace_id_from
ensure_trace_id ctx id =
    let base = normalize_context ctx in
    let clean = trim_space id in
    if not (is_empty (trace_id_from (some base)))
    then base
    else if is_empty clean
    then base
    else with_trace_id (some base) clean

-- The loop of NewTraceID.
unfoldable pub clean_parts : List String → List String
clean_parts [] = []
clean_parts (part ∷ parts) =
    let clean = trim_space part in
    let rest = clean_parts parts in if is_empty clean then rest else clean ∷ rest

-- NewTraceID
unfoldable pub new_trace_id : List String → String
unfolding clean_parts
new_trace_id parts = join ":" (clean_parts parts)

-- The settings of a zap logger that the program chooses, and the fields it has added to it.
pub data Encoding : Type 0 where
  json console : Encoding

pub data Logger : Type 0 where
  nop : Logger
  core : Encoding → ℤ → ℤ → Bool → Logger
  with_field : String → String → Logger → Logger

-- The package variable `defaultLogger`, and zap's global logger, which every write sets with it.
pub record Loggers : Type 0 where
  pub default_logger : Logger
  pub zap_global : Logger

-- Config
pub record Config : Type 0 where
  pub level : String
  pub format : String
  pub stacktrace_level : String
  pub service : String

-- init, and zap's own global logger before any ReplaceGlobals
abbrev pub initial : Loggers
initial = record { default_logger = nop; zap_global = nop }

-- L
unfoldable pub current : Loggers → Logger
current s = s.default_logger

-- Sync; `sync_logger` is zap's Sync.
unfoldable pub sync : (Logger → Option GoError) → Loggers → Option GoError
sync sync_logger s = sync_logger s.default_logger

-- SetLogger; its second result is what the restore function writes back.
unfoldable pub set_logger : Option Logger → Loggers → Loggers × Logger
set_logger none s = (record { default_logger = nop; zap_global = nop }, s.default_logger)
set_logger (some l) s = (record { default_logger = l; zap_global = l }, s.default_logger)

-- The function that SetLogger returns.
unfoldable pub restore_logger : Logger → Loggers → Loggers
restore_logger previous s = record { default_logger = previous; zap_global = previous }

-- FromContext
unfoldable pub from_context : Option Context → Loggers → Logger
unfolding trace_id_from
from_context ctx s =
    let id = trace_id_from ctx in
    if is_empty id then s.default_logger else with_field "trace_id" id s.default_logger

-- `zapcore.Level.Set`, of zap, is a parameter.
module _ (level_set : String → Result ℤ) where
  -- parseLevel
  unfoldable pub parse_level : String → Result ℤ
  parse_level level = elim (level_set (if is_empty level then "info" else level)) [
    | ok parsed ↦ ok parsed
    | err e ↦ err (wrap "parse log level" e)
  ]

  -- The `switch cfg.Format`.
  unfoldable pub encoding_of : String → Result Encoding
  encoding_of format =
      if is_empty format || str_eq format "json"
      then ok json
      else if str_eq format "console"
      then ok console
      else err (plain "unsupported log format")

  abbrev with_service : String → Logger → Logger
  with_service service l = if is_empty service then l else with_field "service" service l

  -- The part of Init that can fail.
  unfoldable pub new_logger : Config → Result Logger
  unfolding parse_level encoding_of
  new_logger cfg = do
    level ← parse_level cfg.level
    stack ← parse_level cfg.stacktrace_level
    encoding ← encoding_of cfg.format
    ok (with_service cfg.service (core encoding level stack (str_eq cfg.format "console")))

  abbrev install : Result Logger → Loggers → Loggers × Result Logger
  install (err e) s = (s, err e)
  install (ok l) s = (record { default_logger = l; zap_global = l }, ok l)

  -- Init
  unfoldable pub init : Config → Loggers → Loggers × Result Logger
  unfolding new_logger
  init cfg s = install (new_logger cfg) s
