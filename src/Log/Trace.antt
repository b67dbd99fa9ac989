-- ===== src/Log/Trace.antt =====
-- What the trace functions of pkg/log guarantee.
use ginblade.Prelude.{String, ◌≡◌, Option, some, arith, is_empty, trim_space, if◌then◌else◌}
use ginblade.Context.{Context}
use ginblade.Log.{trace_id_from, ensure_trace_id}

-- A context with a trace id keeps it; one without takes the given id, trimmed.
pub trace_id_from-ensure_trace_id :
    (ctx : Option Context) (id : String)
    → trace_id_from (some (ensure_trace_id ctx id))
      ≡ (if is_empty (trace_id_from ctx) then trim_space id else trace_id_from ctx)
unfolding ensure_trace_id
trace_id_from-ensure_trace_id ctx id = ground arith
