-- ===== src/Config/Types.antt =====
-- config/types.go: the configuration. A duration is a number of nanoseconds.
use ginblade.Prelude.{String, Bool, List}
use ginblade.Prelude.Int.{ℤ}

pub record ServerConfig : Type 0 where
  pub port : String
  pub gin_mode : String
  pub trusted_proxies : List String
  pub request_timeout : ℤ

pub record PostgresConfig : Type 0 where
  pub dsn : String
  pub log_level : String
  pub max_idle_conns : ℤ
  pub max_open_conns : ℤ
  pub conn_max_lifetime : ℤ
  pub conn_max_idle_time : ℤ

pub record RedisConfig : Type 0 where
  pub addr : String
  pub password : String
  pub cache_db : ℤ
  pub queue_db : ℤ

pub record AuthConfig : Type 0 where
  pub jwt_secret : String
  pub jwt_issuer : String
  pub jwt_ttl : ℤ

pub record CorsConfig : Type 0 where
  pub allow_origins : List String

pub record LogConfig : Type 0 where
  pub level : String
  pub format : String
  pub stacktrace_level : String
  pub audit_enabled : Bool
  pub audit_excludes : List String

pub record RateLimitConfig : Type 0 where
  pub requests_per_minute : ℤ

pub record Config : Type 0 where
  pub server : ServerConfig
  pub postgres : PostgresConfig
  pub redis : RedisConfig
  pub auth : AuthConfig
  pub cors : CorsConfig
  pub log : LogConfig
  pub rate_limit : RateLimitConfig
