-- ===== src/Handler/Health.antt =====
-- The health check's answer.
use ginblade.Prelude.{ℕ, ◌≡◌, String, Bool, true, false, Option, none, some}
use ginblade.Errors.{GoError}
use ginblade.Http.{Gin, Outcome, finished}
use ginblade.Database
use ginblade.Database.{DbManager, Sql}
use ginblade.Cache
use ginblade.Cache.{Client, Redis}
use ginblade.Handler.{HealthHandler, health_context, check, pinged}

-- The request was answered with a status.
abbrev pub AnswersWith : {S : Type 0} → ℕ → S → Outcome S → Type 0
AnswersWith status s o = (c : Gin) × (o ≡ finished c s) × (c.status ≡ status)

-- A dependency that is configured and answers its ping.
abbrev pub IsUp : {A : Type 0} → (Option A → Option GoError) → Option A → Type 0
IsUp ping none = ⊥
IsUp ping (some a) = ping (some a) ≡ none

-- A dependency that answers its ping, if it is configured.
abbrev pub IsUpOrAbsent : {A : Type 0} → (Option A → Option GoError) → Option A → Type 0
IsUpOrAbsent ping none = Unit
IsUpOrAbsent ping (some a) = ping (some a) ≡ none

module _ {S : Type 0} (sql : Sql S) (redis : Redis S) (now : ℕ) (h : HealthHandler sql redis)
    (c : Gin) (s : S) where
  -- The database is configured and answers.
  abbrev pub PostgresUp : Type 0
  PostgresUp = IsUp (λ m. Database.ping sql m (health_context now c) s) h.db

  -- The cache answers, or is not configured.
  abbrev pub RedisUp : Type 0
  RedisUp = IsUpOrAbsent (λ m. Cache.ping redis m (health_context now c) s) h.cache

  abbrev postgres_check : String × Bool
  postgres_check = check false (pinged (λ m. Database.ping sql m (health_context now c) s) h.db)

  abbrev redis_check : String × Bool
  redis_check = check true (pinged (λ m. Cache.ping redis m (health_context now c) s) h.cache)
