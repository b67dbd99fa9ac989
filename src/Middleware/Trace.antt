-- ===== src/Middleware/Trace.antt =====
-- TraceLogger: the request's trace id, and the audit log.
use ginblade.Prelude.{
  eq_iff, arith, ◌⊎◌, ℕ, ◌-◌, ◌≡◌, refl, inl, inr, String, Bool, true, false, some, List, [], ◌∷◌,
  ◌++◌, is_empty, if◌then◌else◌,
}
use ginblade.Prelude.Int.{pos}
use ginblade.Log.{trace_id_from}
use ginblade.Http.{Gin, finished, Handler, Entry, info, str, int, duration, get_string, trace_of}
use ginblade.Middleware.{
  trace_logger, attach_trace, request_trace, audit, audit_entry, contains, excluded_paths,
}

-- A request carries a trace id: in gin's keys, for the envelopes; in its context, for logs and
-- tasks; and in the response's X-Request-ID.
pub record Carries (id : String) (c : Gin) : Type 0 where
  pub in_keys : trace_of c ≡ id
  pub in_context : trace_id_from (some c.ctx) ≡ id
  pub in_header : get_string "X-Request-ID" c.response_header ≡ id

pub attach_trace-Carries : (id : String) (c : Gin) → Carries id (attach_trace id c)
unfolding attach_trace get_string trace_id_from trace_of
attach_trace-Carries id c = record { in_keys = refl; in_context = refl; in_header = refl }

-- One of the configured paths, not an empty one, is this path.
abbrev pub Excludes : List String → String → Type 0
Excludes [] path = ⊥
Excludes (p ∷ ps) path = ((is_empty p ≡ false) × (p ≡ path)) ⊎ Excludes ps path

contains-excluded_paths :
    (ps : List String) (path : String)
    → ((contains (excluded_paths ps) path ≡ true) × Excludes ps path)
      ⊎ ((contains (excluded_paths ps) path ≡ false) × (Excludes ps path → ⊥))
unfolding contains excluded_paths
contains-excluded_paths [] path = inr (refl, λ e. e)
contains-excluded_paths (p ∷ ps) path =
    ground (arith, contains-excluded_paths ps path, eq_iff p path)

-- The audit entry of a request that took this long.
abbrev pub IsAuditOf : ℕ → Gin → Entry → Type 0
IsAuditOf latency c e =
    (e.level ≡ info)
    × (e.message ≡ "http request completed")
    × (e.trace ≡ trace_id_from (some c.ctx))
    × (e.fields
        ≡ str "method" c.method
          ∷ str "path" c.path
          ∷ int "status" c.status
          ∷ duration "latency" (pos latency)
          ∷ str "client_ip" c.client_ip
          ∷ [])

-- A finished request `c` is logged by one audit entry, if auditing is on and its path is not
-- excluded; else nothing of it changes.
abbrev pub IsAudited : Bool → List String → ℕ → Gin → Gin → Type 0
IsAudited enabled excludes latency c c' =
    ((enabled ≡ true)
      × (Excludes excludes c.path → ⊥)
      × ((e : Entry) × IsAuditOf latency c e × (c' ≡ record c { log = c.log ++ e ∷ [] })))
    ⊎ (((enabled ≡ false) ⊎ Excludes excludes c.path) × (c' ≡ c))

audit-IsAudited :
    (enabled : Bool) (excludes : List String) (latency : ℕ) (c : Gin)
    → IsAudited enabled excludes latency c (audit enabled excludes latency c)
unfolding audit audit_entry
audit-IsAudited false excludes latency c = inr (inl refl, refl)
audit-IsAudited true excludes latency c = elim (contains-excluded_paths excludes c.path) [
  | inl (skip, excluded) ↦ inr (inr excluded, rw skip refl)
  | inr (keep, included) ↦ inl (refl, included, (_, (refl, refl, refl, refl), rw keep refl))
]

module _ {W : Type 0} (enabled : Bool) (excludes : List String) (uuid : String)
    (start end : ℕ) where
  -- The chain behind TraceLogger runs on a request that carries the caller's X-Request-ID, or the
  -- new UUID if there is none, in all three places; when it finishes, one audit entry is logged,
  -- with the request's method, path, status, latency and client, if auditing is on and the path is
  -- not one of the excluded ones, and nothing else changes.
  pub trace_logger_lem :
      (next : Handler W) (c done : Gin) (w w' : W)
      → next (attach_trace (request_trace uuid c) c) w ≡ finished done w'
      → Carries
          (if is_empty (c.header "X-Request-ID") then uuid else c.header "X-Request-ID")
          (attach_trace (request_trace uuid c) c)
        × ((c' : Gin) × (trace_logger enabled excludes uuid start end next c w ≡ finished c' w')
            × IsAudited enabled excludes (end - start) done c')
  unfolding trace_logger
  trace_logger_lem next c done w w' h = (
    unfold request_trace in attach_trace-Carries _ c,
    (_, rw h refl, audit-IsAudited enabled excludes (end - start) done),
  )
