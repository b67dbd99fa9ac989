-- ===== src/Database.antt =====
-- pkg/database: the primary database connection and its pool. gorm and database/sql are a
-- parameter, `Sql`. `S` is the state of the drivers.
pub mod Pool
pub mod Opening
use ginblade.Prelude.{
  ℕ, String, Bool, true, false, ◌||◌, Option, none, some, str_eq, is_empty, trim_space, to_lower,
  if◌then◌else◌, List, [], ◌∷◌, ◌++◌,
}
use ginblade.Prelude.Int.{ℤ, pos, is_positive}
use ginblade.Http
use ginblade.Http.{Entry, str}
use ginblade.Errors.{GoError, plain, wrap, Result, ok, err}
use ginblade.Context.{Db, Context}

-- Config
pub record Config : Type 0 where
  pub dsn : String
  pub log_level : String
  pub max_idle_conns : ℤ
  pub max_open_conns : ℤ
  pub conn_max_lifetime : ℤ
  pub conn_max_idle_time : ℤ

-- poolSettings
pub record PoolSettings : Type 0 where
  pub max_idle_conns : ℤ
  pub max_open_conns : ℤ
  pub conn_max_lifetime : ℤ
  pub conn_max_idle_time : ℤ

-- DBManager; a nil *DBManager is `none` of an option.
pub record DbManager : Type 0 where
  pub primary : Option Db

-- gorm's logger.LogLevel
pub data LogLevel : Type 0 where
  silent error warn info : LogLevel

abbrev pub or_default : ℤ → ℤ → ℤ
or_default value fallback = if is_positive value then value else fallback

-- normalizePoolSettings
unfoldable pub normalize_pool_settings : Config → PoolSettings
normalize_pool_settings cfg = record {
  max_idle_conns = or_default cfg.max_idle_conns (pos 15);
  max_open_conns = or_default cfg.max_open_conns (pos 30);
  conn_max_lifetime = or_default cfg.conn_max_lifetime (pos 1800000000000);
  conn_max_idle_time = or_default cfg.conn_max_idle_time (pos 300000000000);
}

-- The level that parseLogLevel returns.
unfoldable pub parse_log_level : String → LogLevel
parse_log_level raw =
    let level = to_lower (trim_space raw) in
    if str_eq level "silent"
    then silent
    else if str_eq level "error"
    then error
    else if str_eq level "info"
    then info
    else warn

-- What parseLogLevel logs: a level that it does not know.
unfoldable pub level_entries : String → List Entry
level_entries raw =
    let level = to_lower (trim_space raw) in
    if str_eq level "silent"
      || str_eq level "error"
      || str_eq level "info"
      || str_eq level "warn"
      || str_eq level "warning"
      || is_empty level
    then []
    else record {
      level = Http.warn;
      message = "unknown gorm log level; falling back to warn";
      trace = "";
      fields = str "level" raw ∷ [];
    }
      ∷ []

abbrev pub connected_entry : Entry
connected_entry = record {
  level = Http.info;
  message = "postgres connected";
  trace = "";
  fields = [];
}

pub record Sql (S : Type 0) : Type 1 where
  -- logger.Interface, and logger.Default.LogMode
  pub GormLogger : Type 0
  pub log_mode : LogLevel → GormLogger
  -- gorm.Open(postgres.Open(dsn), ...) with its logger
  pub open_dsn : String → GormLogger → S → Result Db × S
  -- the error of db.DB()
  pub sql_error : Db → S → Option GoError
  -- the four setters of sql.DB
  pub set_pool : Db → PoolSettings → S → S
  -- sqlDB.PingContext
  pub ping : Db → Context → S → Option GoError
  -- sqlDB.Close
  pub close : Db → S → Option GoError × S

-- DB
unfoldable pub db_of : Option DbManager → Option Db
db_of none = none
db_of (some m) = m.primary

-- NewTestManager
unfoldable pub new_test_manager : Option Db → DbManager
new_test_manager db = record { primary = db }

abbrev pub wrapped : String → Option GoError → Option GoError
wrapped text none = none
wrapped text (some e) = some (wrap text e)

abbrev pub first_error : Option GoError → Option GoError → Option GoError
first_error none e = e
first_error (some d) e = some d

module _ {S : Type 0} (sql : Sql S) where
  -- newGormLogger
  unfoldable pub new_gorm_logger : String → sql.GormLogger
  unfolding parse_log_level
  new_gorm_logger level = sql.log_mode (parse_log_level level)

  abbrev tuned : Db → PoolSettings → Option GoError → S → Option GoError × S
  tuned db pool (some e) s = (some (wrap "get sql.DB" e), s)
  tuned db pool none s = (none, sql.set_pool db pool s)

  -- tunePool
  unfoldable pub tune_pool : Db → PoolSettings → S → Option GoError × S
  tune_pool db pool s = tuned db pool (sql.sql_error db s) s

  abbrev manage : Db → List Entry → Option GoError × S → Result DbManager × List Entry × S
  manage db log (some e, s) = (err e, log, s)
  manage db log (none, s) = (ok (record { primary = some db }), log ++ connected_entry ∷ [], s)

  abbrev opened : PoolSettings → List Entry → Result Db × S → Result DbManager × List Entry × S
  opened pool log (err e, s) = (err (wrap "connect to postgres" e), log, s)
  opened pool log (ok db, s) = manage db log (tune_pool db pool s)

  -- Init, with what it logs
  unfoldable pub init : Config → S → Result DbManager × List Entry × S
  unfolding tune_pool new_gorm_logger level_entries
  init cfg s =
      if is_empty (trim_space cfg.dsn)
      then (ok (record { primary = none }), [], s)
      else opened (normalize_pool_settings cfg) (level_entries cfg.log_level)
          (sql.open_dsn cfg.dsn (new_gorm_logger cfg.log_level) s)

  abbrev ping_db : Option Db → Context → S → Option GoError
  ping_db none ctx s = some (plain "database is not configured")
  ping_db (some db) ctx s =
      first_error (wrapped "get sql.DB" (sql.sql_error db s))
        (wrapped "ping database" (sql.ping db ctx s))

  -- Ping
  unfoldable pub ping : Option DbManager → Context → S → Option GoError
  unfolding db_of
  ping m ctx s = ping_db (db_of m) ctx s

  abbrev pub close_unless : Option GoError → Db → S → Option GoError × S
  close_unless (some e) db s = (some e, s)
  close_unless none db s = sql.close db s

  abbrev pub close_db : Option Db → S → Option GoError × S
  close_db none s = (none, s)
  close_db (some db) s = close_unless (sql.sql_error db s) db s

  -- Close
  unfoldable pub close : Option DbManager → S → Option GoError × S
  unfolding db_of
  close m s = close_db (db_of m) s
