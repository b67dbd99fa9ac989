-- ===== src/Cmd/Migrate/Ending.antt =====
-- How the migration process can end.
use ginblade.Prelude.{
  none-ne-some, ◌≡◌, ◌⊎◌, refl, inl, inr, ap, sym, ◌∙◌, true, Option, none, some, [], ◌∷◌, is_empty,
  trim_space, List, ◌++◌,
}
use ginblade.Errors.{GoError, Result, ok, err}
use mathlib.Core.Path.{ap₂}
use ginblade.Http.{Entry, info, fatal}
use ginblade.Shutdown.{process_entry}
use ginblade.Cmd.Starting.{NeverStarted}
use ginblade.Cmd.{close_warning, Process, returned, exited, dies, returns}
use ginblade.Context.{Db}
use ginblade.Log.{Loggers}
use ginblade.Config.Types.{Config}
use ginblade.Database
use ginblade.Database.{DbManager, Sql, db_of}
use ginblade.Database.Opening.{IsConnected, IsUnconfigured, init-eq-ok}
use ginblade.Bootstrap.{
  init_runtime, Platform, RuntimeStart, set_up, refused, crashed, database_config,
}
use ginblade.Cmd.Migrate.{
  migrate, with_runtime, with_manager, with_database, after_migration, leave,
}

module _ {S : Type 0} (sql : Sql S) (auto_migrate : Db → S → Option GoError × S)
    (platform : Platform) (cfg : Config) (loggers : Loggers) (s : S) where
  -- The state once the database is initialized.
  abbrev pub opened : S
  opened = (Database.init sql (database_config cfg) s).2

  -- What Init logs.
  abbrev pub opening : List Entry
  opening = (Database.init sql (database_config cfg) s).1

  -- An exit for the error of the database's Init.
  abbrev pub NeverOpened : Process S → Type 0
  NeverOpened p =
      (e : GoError) × ((Database.init sql (database_config cfg) s).0 ≡ err e)
      × (p.exit ≡ exited)
      × (p.state ≡ opened)
      × (p.log ≡ opening ++ process_entry fatal "initialize database" (some e) ∷ [])

  -- An exit since there is no DSN. The driver was left alone.
  abbrev pub NotConfigured : Process S → Type 0
  NotConfigured p =
      (is_empty (trim_space cfg.postgres.dsn) ≡ true)
      × (p.exit ≡ exited)
      × (p.state ≡ s)
      × (p.log ≡ process_entry fatal "database is not configured" none ∷ [])

  -- A connection that Init opened, with its pool set.
  pub record Connected : Type 0 where
    pub m : DbManager
    pub initialized : Database.init sql (database_config cfg) s ≡ (ok m, opening, opened)
    pub connection : IsConnected sql (database_config cfg) s m opening opened

  -- An exit since the migration failed. The database is not closed.
  abbrev pub Failed : Process S → Type 0
  Failed p =
      (c : Connected) × (e : GoError) × (p.exit ≡ exited)
      × (auto_migrate c.connection.db opened ≡ (some e, p.state))
      × (p.log ≡ opening ++ process_entry fatal "run migrations" (some e) ∷ [])

  -- main returned: the migration ran on the connection, without an error, and the deferred calls
  -- closed the database and synced the log.
  pub record Returned (p : Process S) : Type 0 where
    pub c : Connected
    pub last : S
    pub left : p.exit ≡ returned
    pub synced : p.synced ≡ true
    pub migrated : auto_migrate c.connection.db opened ≡ (none, last)
    pub closed : p.state ≡ (Database.close sql (some c.m) last).1
    pub logged :
        p.log
        ≡ (opening ++ process_entry info "migrations completed" none ∷ [])
          ++ close_warning "close database" (Database.close sql (some c.m) last).0

  abbrev pub Ends : Process S → Type 0
  Ends p =
      NeverStarted platform cfg loggers "migrate" s p
      ⊎ NeverOpened p
      ⊎ NotConfigured p
      ⊎ Failed p
      ⊎ Returned p

  after_migration-Ends :
      (c : Connected) (l : Loggers) (p : Option GoError × S)
      → auto_migrate c.connection.db opened ≡ p
      → Ends (after_migration sql auto_migrate c.m opening l p)
  unfolding after_migration dies leave returns
  after_migration-Ends c l (some e, last) h = inr (inr (inr (inl (c, e, refl, h, refl))))
  after_migration-Ends c l (none, last) h = inr (
      inr (
        inr (
          inr (record {
            c = c;
            last = last;
            left = refl;
            synced = refl;
            migrated = h;
            closed = refl;
            logged = refl;
          }))))

  same_db : (o : Option Db) (db x : Db) → o ≡ some x → o ≡ some db → x ≡ db
  same_db o db x h k = cc

  with_database-Ends :
      (m : DbManager) (l : Loggers) (o : Option Db)
      → Database.init sql (database_config cfg) s ≡ (ok m, opening, opened)
      → m.primary ≡ o
      → IsUnconfigured sql (database_config cfg) s m opening opened
        ⊎ IsConnected sql (database_config cfg) s m opening opened
      → Ends (with_database sql auto_migrate m opening l opened o)
  unfolding with_database dies
  with_database-Ends m l none initialized has (inl u) = inr (
      inr (
        inl (
          u.blank,
          refl,
          u.unchanged,
          ap (λ l. l ++ process_entry fatal "database is not configured" none ∷ []) u.silent,
        )))
  with_database-Ends m l none initialized has (inr c) =
      absurd (none-ne-some _ (sym has ∙ c.primary))
  with_database-Ends m l (some db) initialized has (inl u) =
      absurd (none-ne-some _ (sym u.primary ∙ has))
  with_database-Ends m l (some db) initialized has (inr c) =
      rw (← same_db m.primary db c.db c.primary has) (
        after_migration-Ends (record { m = m; initialized = initialized; connection = c }) l _ refl)

  with_manager-Ends :
      (l : Loggers) (q : Result DbManager × List Entry × S)
      → Database.init sql (database_config cfg) s ≡ q
      → Ends (with_manager sql auto_migrate l q)
  unfolding with_manager with_database dies db_of
  with_manager-Ends l (err e, log, after) h = inr (
      inl (
        e,
        ap (λ q. q.0) h,
        refl,
        sym (ap (λ q. q.2) h),
        sym (ap (λ q. q.1 ++ process_entry fatal "initialize database" (some e) ∷ []) h),
      ))
  with_manager-Ends l (ok m, log, after) h =
      let at = ap (λ q. q.2) h in
      let initialized = h ∙ ap₂ (λ x y. (ok m, x, y)) (sym (ap (λ q. q.1) h)) (sym at) in
      rw (← at, ← ap (λ q. q.1) h)
        (with_database-Ends m l _ initialized refl
          (init-eq-ok sql (database_config cfg) s m opening opened initialized))

  with_runtime-Ends :
      (q : Loggers × RuntimeStart)
      → init_runtime platform (some cfg) ("migrate" ∷ []) loggers ≡ q
      → Ends (with_runtime sql auto_migrate cfg s q)
  unfolding with_runtime
  with_runtime-Ends (l, refused e) h = inl (refl, (e, inl (ap (λ q. q.1) h, refl)))
  with_runtime-Ends (l, crashed e) h = inl (refl, (e, inr (ap (λ q. q.1) h, refl)))
  with_runtime-Ends (l, set_up) h = with_manager-Ends l _ refl

  -- The migration process either panics, for InitRuntime, and has opened nothing; or
  -- exits for the error of the database's Init; or exits for a blank DSN, with the driver left
  -- alone; or exits since the migration failed, in the state that it left, without the deferred
  -- calls; or returns, and then the migration ran without an error on the connection that Init
  -- opened, the database was closed and the log synced. From Init on, its log is what Init logged
  -- and what main logs for that end.
  pub migrate_verdict : Ends (migrate sql auto_migrate platform cfg loggers s)
  unfolding migrate
  migrate_verdict = with_runtime-Ends _ refl
