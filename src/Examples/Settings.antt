-- ===== src/Examples/Settings.antt =====
-- The configuration and the retry delay, at concrete environments.
use Prim.Native.String.{◌++◌ as ◌+++◌}
use ginblade.Config.Numbers.{parse_digits, digits_from}
use ginblade.Config.Durations.{
  parse_duration, signed, unsigned, split_sign, segments, segment, leading_int, fraction_part,
  leading_fraction, split_unit, unit_map,
}
use ginblade.Config.Durations.Written.{Part, hour, minute, written, total, sign, signed_total}
use ginblade.Config.DurationEnv.{duration_env-written, duration_env-too_long, duration_env-IsInt64}
use ginblade.Config.Durations.Overflow.{NoneExact}
use ginblade.Config.{duration_env, int_env, Env, getenv, load, load_env, parse_csv}
use ginblade.Errors.{ok, or_else}
use ginblade.Prelude.Int.{negsuc, pos}
use ginblade.Prelude.{
  ◌*◌, ◌/◌, ◌^◌, ℕ, [], ◌∷◌, arith, Bool, true, false, ◌≡◌, refl, String, Option, none, some, List,
  ◌++◌, All, join, is_empty, trim_space, str_eq, if◌then◌else◌, ◌⊎◌,
}
use ginblade.Log
use ginblade.Log.{Loggers, nop, with_field, set_logger, restore_logger}
use ginblade.Config.Loading.{IsInt64, int_env-IsInt64, IsBlank, defaults, load_blank}
use ginblade.Config.Csv.{IsField, parse_csv_lem}
use ginblade.Config.Dotenv.{LoadsFile, first_value, load_env_lem}
use ginblade.Worker.{example_retry_delay}
use ginblade.Worker.Retry.{backoff, example_retry_delay-eq-backoff, example_retry_delay_wraps}

abbrev origins : List String
origins = "https://a.example" ∷ "https://b.example" ∷ []

parse_csv_lem_example :
    All IsField (parse_csv " a,, b ")
    × (All IsField origins → parse_csv (join "," origins) ≡ origins)
parse_csv_lem_example = parse_csv_lem " a,, b " origins

abbrev env : Env
env key = if str_eq key "JWT_TTL" then some " " else none

abbrev scale : ℕ → ℕ → ℕ → ℕ
scale f unit digits = f * unit / 10 ^ digits

blank_value :
    (b : Bool) (key : String)
    → is_empty (trim_space (getenv (λ k. if b then some " " else none) key)) ≡ true
unfolding getenv trim_space
blank_value true key = refl
blank_value false key = refl

env-IsBlank : IsBlank env
unfolding getenv
env-IsBlank key = blank_value (str_eq key "JWT_TTL") key

abbrev huge : Env
huge key = some "9223372036854775808"

huge_setting :
    (int_env huge "REDIS_QUEUE_DB" (pos 6) ≡ pos 6)
    ⊎ IsInt64 (int_env huge "REDIS_QUEUE_DB" (pos 6))
huge_setting = int_env-IsInt64 huge "REDIS_QUEUE_DB" (pos 6)

defaults_loaded :
    load scale env
    ≡ defaults
        (getenv env "POSTGRES")
        (getenv env "GORM_LOG_LEVEL")
        (getenv env "REDIS_ADDR")
        (getenv env "REDIS_PASSWORD")
        (getenv env "JWT_SECRET")
defaults_loaded = load_blank scale env env-IsBlank

-- Two files that both set a variable.
abbrev files : String → String → Option String
files path key = if str_eq key "SERVER_PORT" then some path else none

abbrev load_file : String → Env → Env
load_file path env key = or_else (env key) (files path key)

load_file-LoadsFile : LoadsFile files load_file
load_file-LoadsFile = record { loads = λ path env key. refl }

load_env_lem_example :
    load_env load_file ("cmd/api/.env" ∷ []) env "SERVER_PORT"
    ≡ or_else
        (env "SERVER_PORT")
        (first_value files (("cmd/api/.env" ∷ []) ++ ".env" ∷ []) "SERVER_PORT")
load_env_lem_example =
    load_env_lem files load_file ("cmd/api/.env" ∷ []) env "SERVER_PORT" load_file-LoadsFile

example_retry_delay-eq-backoff_example : example_retry_delay 10 ≡ pos (backoff 10)
example_retry_delay-eq-backoff_example = example_retry_delay-eq-backoff 10 (omega arith)

example_retry_delay_wraps_example : example_retry_delay 70 ≡ pos 0
example_retry_delay_wraps_example = example_retry_delay_wraps 6

abbrev console_config : Log.Config
console_config = record {
  level = "loud";
  format = "console";
  stacktrace_level = "";
  service = "api";
}

abbrev quiet : Loggers
quiet = record { default_logger = nop; zap_global = nop }

abbrev one_hour : Part
one_hour = record {
  numeral = "1";
  count = 1;
  unit = hour;
  reads = unfold parse_digits digits_from in refl;
}

abbrev thirty_minutes : Part
thirty_minutes = record {
  numeral = "30";
  count = 30;
  unit = minute;
  reads = unfold parse_digits digits_from in refl;
}

abbrev spaced : Env
spaced key = some " 1h30m\n"

spaced_holds :
    trim_space (getenv spaced "JWT_TTL") ≡ sign false +++ written (one_hour ∷ thirty_minutes ∷ [])
unfolding trim_space getenv written
spaced_holds = refl

duration_env-written_example :
    duration_env scale spaced "JWT_TTL" (pos 0)
    ≡ signed_total false (one_hour ∷ thirty_minutes ∷ [])
unfolding total
duration_env-written_example =
    duration_env-written scale spaced "JWT_TTL" (pos 0) false one_hour (thirty_minutes ∷ [])
      spaced_holds (omega arith)

-- Three million hours are more than 2^63 nanoseconds.
abbrev three_million_hours : Part
three_million_hours = record {
  numeral = "3000000";
  count = 3000000;
  unit = hour;
  reads = unfold parse_digits digits_from in refl;
}

abbrev overflowing : Env
overflowing key = some "-3000000h30m"

overflowing_holds :
    trim_space (getenv overflowing "JWT_TTL")
    ≡ sign true +++ written (three_million_hours ∷ thirty_minutes ∷ [])
unfolding trim_space getenv written
overflowing_holds = refl

overflowing-NoneExact : NoneExact (three_million_hours ∷ thirty_minutes ∷ [])
unfolding NoneExact
overflowing-NoneExact = (λ h. omega (arith, h), (λ h. omega (arith, h), tt))

duration_env-too_long_example : duration_env scale overflowing "JWT_TTL" (pos 5) ≡ pos 5
unfolding total
duration_env-too_long_example =
    duration_env-too_long scale overflowing "JWT_TTL" (pos 5) true three_million_hours
      (thirty_minutes ∷ []) overflowing_holds (omega arith) overflowing-NoneExact

every_setting_fits :
    (duration_env scale overflowing "JWT_TTL" (pos 5) ≡ pos 5)
    ⊎ IsInt64 (duration_env scale overflowing "JWT_TTL" (pos 5))
every_setting_fits = duration_env-IsInt64 scale overflowing "JWT_TTL" (pos 5)

-- A fraction, and a sign.
reads_fraction :
    parse_duration (λ f unit digits. f * unit / 10 ^ digits) "-1.5s100us" ≡ ok (negsuc 1500099999)
unfolding parse_duration signed unsigned split_sign segments segment leading_int fraction_part
    leading_fraction split_unit unit_map
reads_fraction = refl
