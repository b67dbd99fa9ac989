-- ===== src/Config.antt =====
-- config/config.go and config/runtime.go: reading the configuration from the environment.
-- godotenv and the float64 product in time.ParseDuration are parameters.
pub mod Types
pub mod Numbers
pub mod Durations
pub mod Csv
pub mod Loading
pub mod DurationEnv
pub mod Dotenv
use ginblade.Prelude.{
  ℕ, ◌*◌, String, Bool, true, false, Option, none, some, List, [], ◌∷◌, ◌++◌, is_empty, trim_space,
  split_on, if◌then◌else◌,
}
use ginblade.Prelude.Int.{ℤ, pos}
use ginblade.Errors.{Result, ok, err}
use Types.{Config}
use Durations.{parse_duration}
use Numbers.{atoi, parse_bool}

-- The environment: the variables that are set.
abbrev pub Env : Type 0
Env = String → Option String

abbrev text_or_empty : Option String → String
text_or_empty none = ""
text_or_empty (some v) = v

-- os.Getenv
unfoldable pub getenv : Env → String → String
getenv env key = text_or_empty (env key)

-- getEnvOrDefault
unfoldable pub get_env_or_default : Env → String → String → String
get_env_or_default env key fallback =
    let value = trim_space (getenv env key) in if is_empty value then fallback else value

-- The loop of parseCSV.
unfoldable pub clean_fields : List String → List String
clean_fields [] = []
clean_fields (part ∷ parts) =
    let field = trim_space part in
    let rest = clean_fields parts in if is_empty field then rest else field ∷ rest

-- parseCSV
unfoldable pub parse_csv : String → List String
parse_csv value = clean_fields (split_on b',' value)

abbrev or_fallback {ℓ} : {A : Type ℓ} → A → Result A → A
or_fallback fallback (ok a) = a
or_fallback fallback (err e) = fallback

-- intEnv
unfoldable pub int_env : Env → String → ℤ → ℤ
int_env env key fallback =
    let raw = trim_space (getenv env key) in
    if is_empty raw then fallback else or_fallback fallback (atoi raw)

-- boolEnv
unfoldable pub bool_env : Env → String → Bool → Bool
bool_env env key fallback =
    let raw = trim_space (getenv env key) in
    if is_empty raw then fallback else or_fallback fallback (parse_bool raw)

abbrev pub seconds : ℕ → ℤ
seconds n = pos (n * 1000000000)

-- `scale` is the float64 product in time.ParseDuration.
module _ (scale : ℕ → ℕ → ℕ → ℕ) where
  -- durationEnv
  unfoldable pub duration_env : Env → String → ℤ → ℤ
  unfolding parse_duration
  duration_env env key fallback =
      let raw = trim_space (getenv env key) in
      if is_empty raw then fallback else or_fallback fallback (parse_duration scale raw)

  -- Load
  unfoldable pub load : Env → Config
  load env = record {
    server = record {
      port = get_env_or_default env "SERVER_PORT" ":3000";
      gin_mode = get_env_or_default env "GIN_MODE" "release";
      trusted_proxies = parse_csv (getenv env "TRUSTED_PROXIES");
      request_timeout = duration_env env "REQUEST_TIMEOUT" (seconds 30);
    };
    postgres = record {
      dsn = getenv env "POSTGRES";
      log_level = getenv env "GORM_LOG_LEVEL";
      max_idle_conns = int_env env "DB_MAX_IDLE_CONNS" (pos 15);
      max_open_conns = int_env env "DB_MAX_OPEN_CONNS" (pos 30);
      conn_max_lifetime = duration_env env "DB_CONN_MAX_LIFETIME" (seconds (30 * 60));
      conn_max_idle_time = duration_env env "DB_CONN_MAX_IDLE_TIME" (seconds (5 * 60));
    };
    redis = record {
      addr = getenv env "REDIS_ADDR";
      password = getenv env "REDIS_PASSWORD";
      cache_db = int_env env "REDIS_CACHE_DB" (pos 0);
      queue_db = int_env env "REDIS_QUEUE_DB" (pos 6);
    };
    auth = record {
      jwt_secret = getenv env "JWT_SECRET";
      jwt_issuer = get_env_or_default env "JWT_ISSUER" "ginblade";
      jwt_ttl = duration_env env "JWT_TTL" (seconds (24 * 3600));
    };
    cors = record { allow_origins = parse_csv (getenv env "CORS_ALLOW_ORIGINS") };
    log = record {
      level = get_env_or_default env "LOG_LEVEL" "info";
      format = get_env_or_default env "LOG_FORMAT" "json";
      stacktrace_level = get_env_or_default env "LOG_STACKTRACE_LEVEL" "error";
      audit_enabled = bool_env env "AUDIT_LOG_ENABLED" true;
      audit_excludes = parse_csv (getenv env "AUDIT_LOG_EXCLUDE_PATHS");
    };
    rate_limit = record { requests_per_minute = int_env env "RATE_LIMIT_PER_MINUTE" (pos 0) };
  }

-- The loop of LoadEnv; `load_file` is godotenv.Load on one file, its error dropped.
unfoldable pub load_files : (String → Env → Env) → List String → Env → Env
load_files load_file [] env = env
load_files load_file (file ∷ files) env = load_files load_file files (load_file file env)

-- LoadEnv
unfoldable pub load_env : (String → Env → Env) → List String → Env → Env
unfolding load_files
load_env load_file paths env = load_files load_file (paths ++ ".env" ∷ []) env
