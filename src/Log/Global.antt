-- ===== src/Log/Global.antt =====
-- The two global loggers, through Init, SetLogger and the function that SetLogger returns.
use ginblade.Prelude.{String, ◌≡◌, refl, Option, none, some, ◌∙◌, sym}
use ginblade.Prelude.Int.{ℤ}
use ginblade.Errors.{Result, ok, err}
use ginblade.Log.{Logger, Loggers, Config, set_logger, restore_logger, init, new_logger, install}

-- zap's global logger is the package's.
abbrev pub IsSynced : Loggers → Type 0
IsSynced s = s.zap_global ≡ s.default_logger

install-IsSynced :
    (level_set : String → Result ℤ) (r : Result Logger) (s : Loggers)
    → IsSynced s
    → IsSynced (install level_set r s).0
install-IsSynced level_set (ok l) s h = refl
install-IsSynced level_set (err e) s h = h

set_logger-IsSynced : (l : Option Logger) (s : Loggers) → IsSynced (set_logger l s).0
unfolding set_logger
set_logger-IsSynced none s = refl
set_logger-IsSynced (some l) s = refl

restored : (l : Option Logger) (s : Loggers) → (set_logger l s).1 ≡ s.default_logger
unfolding set_logger
restored none s = refl
restored (some l) s = refl

-- Init and SetLogger keep the two global loggers the same, whether or not Init fails; and the
-- function that SetLogger returns brings both back, whatever was set in between.
pub loggers_lem :
    (level_set : String → Result ℤ) (cfg : Config) (l : Option Logger) (s later : Loggers)
    → IsSynced s
    → IsSynced (init level_set cfg s).0
      × IsSynced (set_logger l s).0
      × (restore_logger (set_logger l s).1 later ≡ s)
unfolding init restore_logger
loggers_lem level_set cfg l s later h = (
  install-IsSynced level_set (new_logger level_set cfg) s h,
  set_logger-IsSynced l s,
  λ i. record { default_logger = restored l s i; zap_global = (restored l s ∙ sym h) i },
)
