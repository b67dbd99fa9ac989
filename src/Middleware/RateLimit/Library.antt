-- ===== src/Middleware/RateLimit/Library.antt =====
-- golang.org/x/time/rate, which rate_limit.go calls: its operations are a parameter, and what the
-- program relies on is a record of laws, from the package's documentation.
use ginblade.Prelude.{ℕ, ◌+◌, ◌*◌, ◌≤◌, ◌≡◌, Bool}

pub record Limiters : Type 1 where
  -- rate.Limiter
  pub Limiter : Type 0
  -- rate.NewLimiter(rate.Every(interval), burst)
  pub new_limiter : ℕ → ℕ → Limiter
  -- Allow at a time
  pub allow : Limiter → ℕ → Bool × Limiter

pub record LimiterLaws (lib : Limiters) : Type 1 where
  -- a limiter of an interval and a burst that was asked no later than a time
  pub AskedBy : ℕ → ℕ → lib.Limiter → ℕ → Type 0
  pub later :
      (interval burst : ℕ) (l : lib.Limiter) (s t : ℕ)
      → s ≤ t
      → AskedBy interval burst l s
      → AskedBy interval burst l t
  -- a new limiter was not asked at all
  pub fresh : (interval burst t : ℕ) → AskedBy interval burst (lib.new_limiter interval burst) t
  pub asked :
      (interval burst : ℕ) (l : lib.Limiter) (s t : ℕ)
      → s ≤ t
      → AskedBy interval burst l s
      → AskedBy interval burst (lib.allow l t).1 t
  -- tokens come back at one an interval up to the burst: after `burst` intervals without a request
  -- the limiter is full, and answers as a new one does
  pub refills :
      (interval burst : ℕ) (l : lib.Limiter) (s t : ℕ)
      → AskedBy interval burst l s
      → s + burst * interval ≤ t
      → lib.allow l t ≡ lib.allow (lib.new_limiter interval burst) t
