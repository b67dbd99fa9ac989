-- ===== src/Middleware/RateLimit.antt =====
-- internal/middleware/rate_limit.go: a token bucket per client address, and the sweep that forgets
-- clients not seen for three minutes. golang.org/x/time/rate is a parameter, `Limiters`. The mutex
-- makes each operation one step on the state. Times are in nanoseconds.
pub mod Library
pub mod Refinement
pub mod Sweep
pub mod Stopping
use ginblade.Prelude.{
  ℕ, ◌-◌, ◌*◌, ◌/◌, String, Bool, true, false, ◌&&◌, Option, none, some, List, [], ◌∷◌, str_eq, ltb,
  if◌then◌else◌,
}
use ginblade.Prelude.Int.{ℤ, pos_part, is_positive}
use ginblade.Errcode.{too_many_requests}
use ginblade.Response.{error_response}
use ginblade.Http.{
  Gin, Outcome, finished, Middleware, envelope, get_string, abort_with_json, trace_of,
}
use Library.{Limiters}

abbrev pub second : ℕ
second = 1000000000

abbrev pub minute : ℕ
minute = 60 * second

module _ (lib : Limiters) where
  -- visitor
  pub record Visitor : Type 0 where
    pub limiter : lib.Limiter
    pub last_seen : ℕ

  -- IPRateLimiter; the map of visitors is a function, and `rate` is the interval given to
  -- rate.Every.
  pub record IpRateLimiter : Type 0 where
    pub visitors : String → Option Visitor
    pub rate : ℕ
    pub burst : ℕ
    pub stopped : Bool

  -- NewIPRateLimiterPerMinute; it also starts the goroutine of cleanupLoop.
  unfoldable pub new_ip_rate_limiter_per_minute : ℤ → Option IpRateLimiter
  new_ip_rate_limiter_per_minute rpm =
      if is_positive rpm
      then some (record {
        visitors = λ ip. none;
        rate = minute / pos_part rpm;
        burst = pos_part rpm;
        stopped = false;
      })
      else none

  abbrev pub limiter_of : IpRateLimiter → Option Visitor → lib.Limiter
  limiter_of l none = lib.new_limiter l.rate l.burst
  limiter_of l (some v) = v.limiter

  -- l.visitors[ip] = v
  abbrev pub put_visitor : String → Visitor → (String → Option Visitor) → String → Option Visitor
  put_visitor ip v m key = if str_eq ip key then some v else m key

  -- allow; `seen` is the reading of the clock for lastSeen, `at` the limiter's own.
  unfoldable pub allow : String → ℕ → ℕ → IpRateLimiter → Bool × IpRateLimiter
  allow ip seen at l =
      let (allowed, limiter) = lib.allow (limiter_of l (l.visitors ip)) at in
      (
        allowed,
        record l {
          visitors = put_visitor ip (record { limiter = limiter; last_seen = seen }) l.visitors;
        },
      )

  abbrev pub keep : ℕ → Option Visitor → Option Visitor
  keep cutoff none = none
  keep cutoff (some v) = if ltb v.last_seen cutoff then none else some v

  -- cleanup: what is left of each visitor.
  unfoldable pub cleanup : ℕ → IpRateLimiter → IpRateLimiter
  cleanup cutoff l = record l { visitors = λ ip. keep cutoff (l.visitors ip) }

  -- The body of cleanup's loop, for an address and what the map holds for it.
  abbrev pub sweep_one :
      ℕ → String → Option Visitor → (String → Option Visitor) → String → Option Visitor
  sweep_one cutoff ip none m key = m key
  sweep_one cutoff ip (some v) m key =
      if ltb v.last_seen cutoff && str_eq ip key then none else m key

  unfoldable pub sweep_all : ℕ → List String → (String → Option Visitor) → String → Option Visitor
  sweep_all cutoff [] m = m
  sweep_all cutoff (ip ∷ ips) m = sweep_all cutoff ips (sweep_one cutoff ip (m ip) m)

  -- cleanup as its loop over the map, in the order `ips`, which the language leaves open
  unfoldable pub cleanup_in_order : List String → ℕ → IpRateLimiter → IpRateLimiter
  unfolding sweep_all
  cleanup_in_order ips cutoff l = record l { visitors = sweep_all cutoff ips l.visitors }

  -- One tick of cleanupLoop, at the time `now`. Before the first three minutes the cutoff is
  -- negative and nothing is older than it, as with 0 here.
  unfoldable pub tick : ℕ → IpRateLimiter → IpRateLimiter
  unfolding cleanup
  tick now l = cleanup (now - 3 * minute) l

  -- Stop: it closes the channel unless that is closed.
  unfoldable pub stop : Option IpRateLimiter → Option IpRateLimiter
  stop none = none
  stop (some l) = if l.stopped then some l else some (record l { stopped = true })

  module _ {W : Type 0} where
    abbrev pub decide :
        Bool
        → Gin
        → (Gin → Outcome (Option IpRateLimiter × W))
        → Option IpRateLimiter × W
        → Outcome (Option IpRateLimiter × W)
    decide true c next w = next c
    decide false c next w =
        finished (abort_with_json 200 (envelope (error_response (trace_of c) too_many_requests)) c)
          w

    -- Middleware
    unfoldable pub rate_limit : ℕ → ℕ → Middleware (Option IpRateLimiter × W)
    unfolding allow
    rate_limit seen at next c (none, w) = next c (none, w)
    rate_limit seen at next c (some l, w) =
        let (allowed, l') = allow c.client_ip seen at l in
        decide allowed c (λ c'. next c' (some l', w)) (some l', w)
