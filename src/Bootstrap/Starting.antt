-- ===== src/Bootstrap/Starting.antt =====
-- What InitAPI comes to.
use ginblade.Prelude.{
  append-nil, ◌∷◌, ◌++◌, Option-cases, ◌≡◌, refl, ◌⊎◌, inl, inr, Option, none, some, none-ne-some,
  true, false, Bool-cases, is_empty, trim_space, List, [],
}
use ginblade.Errors.{GoError, plain, wrap, Result, ok, err}
use ginblade.Http.{Entry, str, integer}
use ginblade.Context.{Db, background}
use ginblade.TaskQueue.{Queue, new_queue}
use ginblade.Auth.{JwtManager, new_jwt_manager}
use ginblade.Config.Types.{Config}
use ginblade.Database.{DbManager, Sql, db_of}
use ginblade.Database.Opening.{IsConnected, IsUnconfigured, init-eq-ok}
use ginblade.Cache.{Redis, Client, new_client}
use ginblade.Bootstrap.{
  Asynq, AsynqClient, Registry, new_asynq_client, queue_client_function, database_config,
  init_database, init_cache, init_auth, api_registry, api_with_cache, api_with_primary,
  api_with_database, init_api,
}

-- The manager, if a secret is set; there is no error.
abbrev pub IsAuthOf : Config → Option JwtManager → Type 0
IsAuthOf cfg none = is_empty (trim_space cfg.auth.jwt_secret) ≡ true
IsAuthOf cfg (some m) =
    (is_empty (trim_space cfg.auth.jwt_secret) ≡ false)
    × (m.secret ≡ cfg.auth.jwt_secret)
    × (m.issuer ≡ trim_space cfg.auth.jwt_issuer)
    × (m.ttl ≡ cfg.auth.jwt_ttl)

init_auth-IsAuthOf :
    (cfg : Config) → (a : Option JwtManager) × (init_auth cfg ≡ ok a) × IsAuthOf cfg a
unfolding init_auth new_jwt_manager
init_auth-IsAuthOf cfg = elim (Bool-cases (is_empty (trim_space cfg.auth.jwt_secret))) [
  | inl blank ↦ (none, rw blank refl, blank)
  | inr given ↦ (some _, rw given refl, (given, refl, refl, refl))
]

module _ {S : Type 0} (sql : Sql S) (redis : Redis S) (asynq : Asynq S) (cfg : Config) (s : S) where
  abbrev Started : Type 0
  Started = Result (Registry sql redis asynq) × List Entry × S

  abbrev joined : List Entry → S → Result (Registry sql redis asynq) × List Entry → Started
  joined opened after (r, more) = (r, opened ++ more, after)

  -- The database cannot be opened.
  abbrev pub HasNoDatabase : Started → Type 0
  HasNoDatabase (r, log, after) =
      (e : GoError) × (init_database sql redis asynq cfg s ≡ (err e, log, after))
      × (r ≡ err (wrap "init database" e))

  -- No DSN is configured, and nothing was opened.
  abbrev pub HasNoDsn : Started → Type 0
  HasNoDsn (r, log, after) =
      (is_empty (trim_space cfg.postgres.dsn) ≡ true)
      × (after ≡ s)
      × (log ≡ [])
      × (r ≡ err (plain "postgres dsn is required for api"))

  -- The connection to Redis of the configuration.
  abbrev pub conn : redis.Conn
  conn =
      redis.new_client
        (record { addr = cfg.redis.addr; password = cfg.redis.password; db = cfg.redis.cache_db })

  -- The cache, if an address is configured, and what was logged for it: its connection answered.
  abbrev pub IsCacheOf : S → Option (Client redis) → List Entry → Type 0
  IsCacheOf after none log = (is_empty (trim_space cfg.redis.addr) ≡ true) × (log ≡ [])
  IsCacheOf after (some c) log =
      (is_empty (trim_space cfg.redis.addr) ≡ false)
      × (c.rdb ≡ some conn)
      × (redis.ping conn background after ≡ none)
      × ((entry : Entry) × (log ≡ entry ∷ [])
          × (entry.message ≡ "redis connection successful")
          × (entry.fields ≡ str "addr" cfg.redis.addr ∷ integer "db" cfg.redis.cache_db ∷ []))

  -- The queue and its client, if an address is configured: the client is asynq's for the address and
  -- the database of queues, and the queue publishes through it.
  abbrev pub IsQueueOf : Option (Queue S) → Option (AsynqClient S) → Type 0
  IsQueueOf queue none = (is_empty (trim_space cfg.redis.addr) ≡ true) × (queue ≡ none)
  IsQueueOf queue (some client) =
      (is_empty (trim_space cfg.redis.addr) ≡ false)
      × (client
          ≡ asynq (record {
            addr = cfg.redis.addr;
            password = cfg.redis.password;
            db = cfg.redis.queue_db;
          }))
      × (queue ≡ some (record { client = some client.enqueue }))

  -- The database is open, but the cache does not answer: InitAPI returns with the database as it was
  -- opened, and logs nothing more.
  abbrev pub HasNoCache : List Entry → Started → Type 0
  HasNoCache opened (r, log, after) =
      (is_empty (trim_space cfg.redis.addr) ≡ false)
      × ((e : GoError) × (redis.ping conn background after ≡ some e)
          × (r ≡ err (wrap "init cache" (wrap "connect to redis" e))))
      × (log ≡ opened)

  -- A registry of the configuration, the database, the cache, the manager and the queue.
  pub record HasRegistry (m : DbManager) (opened : List Entry) (o : Started) : Type 0 where
    pub r : Registry sql redis asynq
    pub cache_log : List Entry
    pub made : o.0 ≡ ok r
    pub configured : r.cfg ≡ some cfg
    pub database : r.db ≡ some m
    pub cached : IsCacheOf o.2 r.cache cache_log
    pub authenticates : IsAuthOf cfg r.auth
    pub queues : IsQueueOf r.queue r.queue_client
    pub logged : o.1 ≡ opened ++ cache_log

  abbrev pub IsStarted : Started → Type 0
  IsStarted o =
      HasNoDatabase o
      ⊎ HasNoDsn o
      ⊎ ((m : DbManager) × (opened : List Entry) × IsConnected sql (database_config cfg) s m opened
            o.2
          × (HasNoCache opened o ⊎ HasRegistry m opened o))

  -- What initCache comes to.
  abbrev CacheVerdict : S → Result (Option (Client redis)) × List Entry → Type 0
  CacheVerdict after (err e, log) =
      (is_empty (trim_space cfg.redis.addr) ≡ false)
      × ((cause : GoError) × (redis.ping conn background after ≡ some cause)
          × (e ≡ wrap "connect to redis" cause))
      × (log ≡ [])
  CacheVerdict after (ok c, log) = IsCacheOf after c log

  init_cache-verdict : (after : S) → CacheVerdict after (init_cache sql redis asynq cfg after)
  unfolding init_cache new_client
  init_cache-verdict after = elim (Bool-cases (is_empty (trim_space cfg.redis.addr))) [
    | inl blank ↦ rw blank (blank, refl)
    | inr given ↦ elim (Option-cases (redis.ping conn background after)) [
      | inl answers ↦ rw (given, answers) (given, refl, answers, (_, refl, refl, refl))
      | inr (e, failed) ↦ rw (given, failed) (given, (e, failed, refl), refl)
    ]
  ]

  new_asynq_client-IsQueueOf :
      IsQueueOf
        (new_queue (queue_client_function (new_asynq_client sql redis asynq (some cfg))))
        (new_asynq_client sql redis asynq (some cfg))
  unfolding new_asynq_client new_queue
  new_asynq_client-IsQueueOf = elim (Bool-cases (is_empty (trim_space cfg.redis.addr))) [
    | inl blank ↦ rw blank (blank, refl)
    | inr given ↦ rw given (given, refl, refl)
  ]

  with_cache :
      (m : DbManager) (opened : List Entry) (after : S)
      (c : Result (Option (Client redis)) × List Entry)
      → CacheVerdict after c
      → HasNoCache opened (joined opened after (api_with_cache sql redis asynq cfg m c))
        ⊎ HasRegistry m opened (joined opened after (api_with_cache sql redis asynq cfg m c))
  with_cache m opened after (err e, log) (given, (cause, failed, is), silent) =
      inl (given, (cause, failed, rw is refl), rw silent (append-nil opened))
  with_cache m opened after (ok c, log) h =
      let (a, made, is) = init_auth-IsAuthOf cfg in
      inr (record {
        r = api_registry sql redis asynq cfg m c a;
        cache_log = log;
        made = rw made refl;
        configured = refl;
        database = refl;
        cached = h;
        authenticates = is;
        queues = new_asynq_client-IsQueueOf;
        logged = refl;
      })

  with_primary :
      (m : DbManager) (opened : List Entry) (after : S) (q : Option Db) (p : Db)
      → q ≡ some p
      → HasNoCache opened (joined opened after (api_with_primary sql redis asynq cfg m q after))
        ⊎ HasRegistry m opened
            (joined opened after (api_with_primary sql redis asynq cfg m q after))
  with_primary m opened after none p h = absurd (none-ne-some p h)
  with_primary m opened after (some q) p h = with_cache m opened after _ (init_cache-verdict after)

  with_manager :
      (m : DbManager) (log : List Entry) (after : S)
      → IsUnconfigured sql (database_config cfg) s m log after
        ⊎ IsConnected sql (database_config cfg) s m log after
      → IsStarted (api_with_database sql redis asynq cfg (ok m, log, after))
  unfolding db_of
  with_manager m log after (inl u) =
      inr (inl (u.blank, u.unchanged, rw (u.primary, u.silent) refl, rw u.primary refl))
  with_manager m log after (inr c) =
      inr (inr (m, log, c, with_primary m log after _ c.db c.primary))

  with_database :
      (d : Result DbManager × List Entry × S)
      → init_database sql redis asynq cfg s ≡ d
      → IsStarted (api_with_database sql redis asynq cfg d)
  unfolding init_database
  with_database (err e, log, after) h = inl (e, h, refl)
  with_database (ok m, log, after) h =
      with_manager m log after (init-eq-ok sql (database_config cfg) s m log after h)

  -- InitAPI fails because the database cannot be opened, because no DSN is configured, or because
  -- the cache does not answer; else it makes a registry, of the configuration, the connection, the
  -- cache and the queue if an address of Redis is configured, and the manager exactly if a secret is.
  -- The authentication does not fail. When the cache fails, the connection that was opened is left
  -- open. An open database and a cache that answers are each logged.
  pub init_api-IsStarted : IsStarted (init_api sql redis asynq (some cfg) s)
  unfolding init_api
  init_api-IsStarted = with_database _ refl
