-- ===== src/Database/Opening.antt =====
-- What Init leaves.
use ginblade.Prelude.{
  ◌≡◌, refl, ◌⊎◌, inl, inr, Option, none, some, true, false, arith, Bool-cases, is_empty,
  trim_space, List, [], ◌∷◌, ◌++◌,
}
use ginblade.Errors.{GoError, Result, ok, err}
use ginblade.Http.{Entry}
use ginblade.Database.{
  level_entries, connected_entry, manage, tuned, opened, PoolSettings, Config, DbManager, Sql, init,
  tune_pool, normalize_pool_settings, parse_log_level, new_gorm_logger,
}
use ginblade.Context.{Db}

module _ {S : Type 0} (sql : Sql S) (cfg : Config) (s : S) where
  -- A connection that the driver opened, and whose pool was set to the normalized limits.
  pub record IsConnected (m : DbManager) (log : List Entry) (s' : S) : Type 0 where
    pub db : Db
    pub between : S
    pub configured : is_empty (trim_space cfg.dsn) ≡ false
    pub connected :
        sql.open_dsn cfg.dsn (sql.log_mode (parse_log_level cfg.log_level)) s ≡ (ok db, between)
    pub primary : m.primary ≡ some db
    pub logged : log ≡ level_entries cfg.log_level ++ connected_entry ∷ []
    pub pooled : s' ≡ sql.set_pool db (normalize_pool_settings cfg) between

  -- No DSN, no connection, and the driver is left alone.
  pub record IsUnconfigured (m : DbManager) (log : List Entry) (s' : S) : Type 0 where
    pub blank : is_empty (trim_space cfg.dsn) ≡ true
    pub primary : m.primary ≡ none
    pub unchanged : s' ≡ s
    pub silent : log ≡ []

  manage-eq-ok :
      (db : Db) (pool : PoolSettings) (log log' : List Entry) (t : S) (o : Option GoError)
      (m : DbManager) (s' : S)
      → manage sql db log (tuned sql db pool o t) ≡ (ok m, log', s')
      → (m.primary ≡ some db) × (s' ≡ sql.set_pool db pool t) × (log' ≡ log ++ connected_entry ∷ [])
  manage-eq-ok db pool log log' t o m s' h = ground arith

  opened-IsConnected :
      (r : Result Db × S) (log' : List Entry) (m : DbManager) (s' : S)
      → is_empty (trim_space cfg.dsn) ≡ false
      → sql.open_dsn cfg.dsn (sql.log_mode (parse_log_level cfg.log_level)) s ≡ r
      → opened sql (normalize_pool_settings cfg) (level_entries cfg.log_level) r ≡ (ok m, log', s')
      → IsConnected m log' s'
  unfolding tune_pool
  opened-IsConnected (err e, t) log' m s' given e' h = absurd (ground arith)
  opened-IsConnected (ok db, t) log' m s' given e h =
      let (primary, pooled, logged) =
        manage-eq-ok db _ (level_entries cfg.log_level) log' t (sql.sql_error db t) m s' h in
      record {
        db = db;
        between = t;
        configured = given;
        connected = e;
        primary = primary;
        pooled = pooled;
        logged = logged;
      }

  -- Init succeeds in two ways only: without a DSN, with no connection; or with a connection that
  -- the driver opened, and whose pool was set to the normalized limits.
  pub init-eq-ok :
      (m : DbManager) (log : List Entry) (s' : S)
      → init sql cfg s ≡ (ok m, log, s')
      → IsUnconfigured m log s' ⊎ IsConnected m log s'
  unfolding init new_gorm_logger
  init-eq-ok m log s' h = elim (Bool-cases (is_empty (trim_space cfg.dsn))) [
    | inl blank ↦ inl (record {
      blank = blank;
      primary = ground arith;
      unchanged = ground arith;
      silent = ground arith;
    })
    | inr given ↦ inr (opened-IsConnected _ log m s' given refl (rw given at h))
  ]
