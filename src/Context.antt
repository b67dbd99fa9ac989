-- ===== src/Context.antt =====
-- context.Context (standard library) with the three things that the program hangs on it: the trace
-- id of pkg/log, the transaction of internal/repository, and a deadline. A context that may be nil
-- is an `Option`.
use ginblade.Prelude.{ℕ, String, Option, none, some, leb, if◌then◌else◌}

-- A *gorm.DB, by the identity of the handle.
abbrev pub Db : Type 0
Db = ℕ

pub data Context : Type 0 where
  background : Context
  with_trace : String → Context → Context
  with_tx : Option Db → Context → Context
  with_deadline : ℕ → Context → Context

-- ctx.Value(log.ctxKey{}): the innermost value under the key
unfoldable pub trace_value : Context → Option String
trace_value background = none
trace_value (with_trace t c) = some t
trace_value (with_tx tx c) = trace_value c
trace_value (with_deadline d c) = trace_value c

-- ctx.Value(repository.txKey{}); the value may be a nil *gorm.DB
unfoldable pub tx_value : Context → Option (Option Db)
tx_value background = none
tx_value (with_trace t c) = tx_value c
tx_value (with_tx tx c) = some tx
tx_value (with_deadline d c) = tx_value c

abbrev sooner : ℕ → Option ℕ → ℕ
sooner d none = d
sooner d (some e) = if leb d e then d else e

-- ctx.Deadline(): context.WithTimeout never extends the parent's deadline
unfoldable pub deadline : Context → Option ℕ
deadline background = none
deadline (with_trace t c) = deadline c
deadline (with_tx tx c) = deadline c
deadline (with_deadline d c) = some (sooner d (deadline c))

-- normalizeContext, and the same default where other packages write it out
unfoldable pub normalize_context : Option Context → Context
normalize_context none = background
normalize_context (some c) = c
