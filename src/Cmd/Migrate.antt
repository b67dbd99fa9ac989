-- ===== src/Cmd/Migrate.antt =====
-- cmd/migrate/main.go: main. gorm's AutoMigrate of the Example model is an argument.
pub mod Ending
use ginblade.Prelude.{ℕ, String, Option, none, some, List, [], ◌∷◌, ◌++◌}
use ginblade.Prelude.Int.{ℤ}
use ginblade.Errors.{wrap, GoError, Result, ok, err}
use ginblade.Context.{Db}
use ginblade.Http.{Entry, info}
use ginblade.Log.{Loggers}
use ginblade.Config.{Env}
use ginblade.Config.Types.{Config}
use ginblade.Database
use ginblade.Database.{DbManager, Sql, db_of}
use ginblade.Bootstrap.{
  init_runtime, Platform, RuntimeStart, set_up, refused, crashed, database_config,
}
use ginblade.Shutdown.{process_entry}
use ginblade.Cmd.{Process, read_config, panics, dies, returns}

module _ {S : Type 0} (sql : Sql S) (auto_migrate : Db → S → Option GoError × S) where
  -- The deferred closing of the database, and the deferred Sync.
  unfoldable pub leave : DbManager → List Entry → Loggers → S → Process S
  unfolding returns Database.close
  leave m log loggers s = returns "close database" (Database.close sql (some m)) log loggers s

  unfoldable pub after_migration : DbManager → List Entry → Loggers → Option GoError × S → Process S
  unfolding dies leave
  after_migration m log loggers (some e, s) = dies "run migrations" (some e) log loggers s
  after_migration m log loggers (none, s) =
      leave m (log ++ process_entry info "migrations completed" none ∷ []) loggers s

  unfoldable pub with_database : DbManager → List Entry → Loggers → S → Option Db → Process S
  unfolding dies after_migration
  with_database m log loggers s none = dies "database is not configured" none log loggers s
  with_database m log loggers s (some db) = after_migration m log loggers (auto_migrate db s)

  unfoldable pub with_manager : Loggers → Result DbManager × List Entry × S → Process S
  unfolding dies with_database db_of
  with_manager loggers (err e, log, s) = dies "initialize database" (some e) log loggers s
  with_manager loggers (ok m, log, s) = with_database m log loggers s (db_of (some m))

  unfoldable pub with_runtime : Config → S → Loggers × RuntimeStart → Process S
  unfolding with_manager Database.init
  with_runtime cfg s (loggers, refused e) = panics (wrap "init runtime" e) loggers s
  with_runtime cfg s (loggers, crashed e) = panics e loggers s
  with_runtime cfg s (loggers, set_up) =
      with_manager loggers (Database.init sql (database_config cfg) s)

  -- main, with the configuration that it read
  unfoldable pub migrate : Platform → Config → Loggers → S → Process S
  unfolding with_runtime init_runtime
  migrate platform cfg loggers s =
      with_runtime cfg s (init_runtime platform (some cfg) ("migrate" ∷ []) loggers)

  -- main
  unfoldable pub main :
      (String → Env → Env) → (ℕ → ℕ → ℕ → ℕ) → Platform → Env → Loggers → S → Process S
  unfolding migrate read_config
  main load_file scale platform env loggers s =
      migrate platform (read_config load_file scale "cmd/migrate/.env" env) loggers s
