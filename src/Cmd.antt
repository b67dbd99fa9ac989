-- ===== src/Cmd.antt =====
-- The programs of cmd: how a main function ends. Each reads its configuration and installs its
-- logger, builds what it needs, does its work and, if it returns, runs its deferred calls.
pub mod Starting
pub mod Api
pub mod Worker
pub mod Migrate
use ginblade.Prelude.{String, Bool, true, false, Option, none, some, List, [], ◌∷◌, ◌++◌, ℕ}
use ginblade.Prelude.Int.{ℤ}
use ginblade.Errors.{GoError, Result}
use ginblade.Http.{Entry, Level, info, warn, fatal}
use ginblade.Log.{Loggers}
use ginblade.Config.{Env, load, load_env}
use ginblade.Config.Types.{Config}
use ginblade.Shutdown.{process_entry}

-- How a process ends: main returns, `Fatal` leaves it by os.Exit, or it panics.
pub data Exit : Type 0 where
  returned : Exit
  exited : Exit
  panicked : GoError → Exit

-- What a process leaves: its log, whether its deferred `Sync` ran, its loggers, and the state.
pub record Process (S : Type 0) : Type 0 where
  pub exit : Exit
  pub log : List Entry
  pub synced : Bool
  pub loggers : Loggers
  pub state : S

-- LoadEnv for the program's own file, then Load. godotenv and the float64 product of time.ParseDuration are arguments.
unfoldable pub read_config : (String → Env → Env) → (ℕ → ℕ → ℕ → ℕ) → String → Env → Config
unfolding load load_env
read_config load_file scale path env = load scale (load_env load_file (path ∷ []) env)

abbrev pub close_warning : String → Option GoError → List Entry
close_warning message none = []
close_warning message (some e) = process_entry warn message (some e) ∷ []

module _ {S : Type 0} where
  -- The panic of a failed InitRuntime, before any call is deferred.
  abbrev pub panics : GoError → Loggers → S → Process S
  panics e loggers s = record {
    exit = panicked e;
    log = [];
    synced = false;
    loggers = loggers;
    state = s;
  }

  -- Fatal: the entry is written, and os.Exit runs no deferred call.
  unfoldable pub dies : String → Option GoError → List Entry → Loggers → S → Process S
  dies message e log loggers s = record {
    exit = exited;
    log = log ++ process_entry fatal message e ∷ [];
    synced = false;
    loggers = loggers;
    state = s;
  }

  -- main returns: the deferred closing warns of its error, and the deferred Sync follows.
  unfoldable pub returns : String → (S → Option GoError × S) → List Entry → Loggers → S → Process S
  returns message close log loggers s =
      let (e, s') = close s in
      record {
        exit = returned;
        log = log ++ close_warning message e;
        synced = true;
        loggers = loggers;
        state = s';
      }
