-- ===== src/Config/Loading.antt =====
-- Load: which variables decide what, and the defaults.
use ginblade.Prelude.{
  ℕ, ◌≡◌, ◌≤◌, ◌<◌, ◌^◌, refl, String, Bool, true, false, Option, none, some, [], arith, Bool-cases,
  inl, inr, ◌⊎◌, is_empty, trim_space,
}
use ginblade.Prelude.Text.Trim.{blank-Lacks}
use ginblade.Prelude.Text.Split.{split_on_of_Lacks}
use ginblade.Prelude.Int.{ℤ, pos, pos_part, neg_part}
use ginblade.Errors.{Result, ok, err}
use ginblade.Config.{
  Env, getenv, get_env_or_default, int_env, bool_env, duration_env, parse_csv, clean_fields,
  or_fallback, load, seconds,
}
use ginblade.Config.Types.{Config}
use ginblade.Config.Numbers.{atoi, in_range, parse_digits}

-- An int64.
abbrev pub IsInt64 : ℤ → Type 0
IsInt64 z = (pos_part z < 2 ^ 63) × (neg_part z ≤ 2 ^ 63)

in_range-IsInt64 : (negative : Bool) (o : Option ℕ) (z : ℤ) → in_range negative o ≡ ok z → IsInt64 z
in_range-IsInt64 negative none z h = ground arith
in_range-IsInt64 true (some n) z h = ground arith
in_range-IsInt64 false (some n) z h = ground arith

atoi-IsInt64 : (s : String) (z : ℤ) → atoi s ≡ ok z → IsInt64 z
unfolding atoi
atoi-IsInt64 String.[] z h = ground arith
atoi-IsInt64 (String.◌∷◌ c s) z h = ground (
  arith,
  in_range-IsInt64 true (parse_digits s) z,
  in_range-IsInt64 false (parse_digits s) z,
  in_range-IsInt64 false (parse_digits (String.◌∷◌ c s)) z,
)

pub or_fallback-IsInt64 :
    (fallback : ℤ) (r : Result ℤ)
    → ((z : ℤ) → r ≡ ok z → IsInt64 z)
    → (or_fallback fallback r ≡ fallback) ⊎ IsInt64 (or_fallback fallback r)
or_fallback-IsInt64 fallback (ok z) h = inr (h z refl)
or_fallback-IsInt64 fallback (err e) h = inl refl

-- An integer setting is the fallback or an int64, whatever text the variable holds: digits that are
-- out of range are not wrapped around.
pub int_env-IsInt64 :
    (env : Env) (key : String) (fallback : ℤ)
    → (int_env env key fallback ≡ fallback) ⊎ IsInt64 (int_env env key fallback)
unfolding int_env
int_env-IsInt64 env key fallback = elim (Bool-cases (is_empty (trim_space (getenv env key)))) [
  | inl blank ↦ rw blank (inl refl)
  | inr given ↦
      rw given (or_fallback-IsInt64 fallback _ (atoi-IsInt64 (trim_space (getenv env key))))
]

-- Every variable is unset or blank.
abbrev pub IsBlank : Env → Type 0
IsBlank env = (key : String) → is_empty (trim_space (getenv env key)) ≡ true

parse_csv_blank : (s : String) → is_empty (trim_space s) ≡ true → parse_csv s ≡ []
unfolding parse_csv clean_fields
parse_csv_blank s h = rw (split_on_of_Lacks b',' s (blank-Lacks s h)) (rw h)

-- The documented defaults. The settings that Load takes as they are, blank or not, are arguments.
abbrev pub defaults : String → String → String → String → String → Config
defaults dsn log_level addr password secret = record {
  server = record {
    port = ":3000";
    gin_mode = "release";
    trusted_proxies = [];
    request_timeout = seconds 30;
  };
  postgres = record {
    dsn = dsn;
    log_level = log_level;
    max_idle_conns = pos 15;
    max_open_conns = pos 30;
    conn_max_lifetime = seconds 1800;
    conn_max_idle_time = seconds 300;
  };
  redis = record { addr = addr; password = password; cache_db = pos 0; queue_db = pos 6 };
  auth = record { jwt_secret = secret; jwt_issuer = "ginblade"; jwt_ttl = seconds 86400 };
  cors = record { allow_origins = [] };
  log = record {
    level = "info";
    format = "json";
    stacktrace_level = "error";
    audit_enabled = true;
    audit_excludes = [];
  };
  rate_limit = record { requests_per_minute = pos 0 };
}

-- With every variable unset or blank, Load gives the documented defaults; the five
-- settings without a default are the variables' own text.
pub load_blank :
    (scale : ℕ → ℕ → ℕ → ℕ) (env : Env)
    → IsBlank env
    → load scale env
      ≡ defaults
          (getenv env "POSTGRES")
          (getenv env "GORM_LOG_LEVEL")
          (getenv env "REDIS_ADDR")
          (getenv env "REDIS_PASSWORD")
          (getenv env "JWT_SECRET")
unfolding load get_env_or_default int_env bool_env duration_env
load_blank scale env h = simp (
  h,
  parse_csv_blank _ (h "TRUSTED_PROXIES"),
  parse_csv_blank _ (h "CORS_ALLOW_ORIGINS"),
  parse_csv_blank _ (h "AUDIT_LOG_EXCLUDE_PATHS"),
)
