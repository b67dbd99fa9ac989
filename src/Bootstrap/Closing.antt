-- ===== src/Bootstrap/Closing.antt =====
-- Closing the registry.
use ginblade.Prelude.{◌≡◌, ◌↔◌, refl, Option, none, some, List, [], ◌∷◌, ◌++◌, arith}
use ginblade.Context.{Db}
use ginblade.Errors.{GoError, join_errors}
use ginblade.Database
use ginblade.Database.{DbManager, Sql, db_of}
use ginblade.Cache
use ginblade.Cache.{Redis, Client, underlying}
use ginblade.Bootstrap.{Asynq, AsynqClient, Registry, close, close_queue_client, error_list}

joined-eq-none :
    (a b c : Option GoError)
    → (join_errors (
          error_list "close queue client" a
          ++ error_list "close cache" b
          ++ error_list "close database" c)
        ≡ none)
      ↔ ((a ≡ none) × (b ≡ none) × (c ≡ none))
unfolding join_errors
joined-eq-none a b c = ground arith

module _ {S : Type 0} (sql : Sql S) (redis : Redis S) (asynq : Asynq S)
    (r : Registry sql redis asynq) (s : S) where
  -- One closing: what it returns, and the state that it leaves.
  abbrev pub Closer : Type 0
  Closer = S → Option GoError × S

  -- The close of the queue client, if there is one.
  abbrev pub queue_closer : Option (AsynqClient S) → Closer
  queue_closer none s = (none, s)
  queue_closer (some c) s = c.close s

  -- The close of a connection to Redis, if there is one.
  abbrev pub conn_closer : Option redis.Conn → Closer
  conn_closer none s = (none, s)
  conn_closer (some conn) s = redis.close conn s

  abbrev pub cache_closer : Option (Client redis) → Closer
  cache_closer none s = (none, s)
  cache_closer (some c) s = conn_closer c.rdb s

  -- The close of a handle of database/sql, or the error that kept it from being got.
  abbrev pub handle_closer : Option GoError → Db → Closer
  handle_closer (some e) db s = (some e, s)
  handle_closer none db s = sql.close db s

  -- The close of a database, if there is one.
  abbrev pub primary_closer : Option Db → Closer
  primary_closer none s = (none, s)
  primary_closer (some db) s = handle_closer (sql.sql_error db s) db s

  abbrev pub db_closer : Option DbManager → Closer
  db_closer none s = (none, s)
  db_closer (some m) s = primary_closer m.primary s

  -- The closings of a registry, in their order.
  abbrev pub closers : List Closer
  closers = queue_closer r.queue_client ∷ cache_closer r.cache ∷ db_closer r.db ∷ []

  -- The state behind a list of closings, each of which runs whatever the others return.
  pub run_closers : List Closer → S → S
  run_closers [] s = s
  run_closers (k ∷ ks) s = run_closers ks (k s).1

  -- No closing of a list returns an error.
  pub AllClose : List Closer → S → Type 0
  AllClose [] s = Unit
  AllClose (k ∷ ks) s = ((k s).0 ≡ none) × AllClose ks (k s).1

  close_queue_client-closer :
      (o : Option (AsynqClient S)) (t : S)
      → close_queue_client sql redis asynq o t ≡ queue_closer o t
  close_queue_client-closer none t = refl
  close_queue_client-closer (some c) t = refl

  close_conn-closer : (o : Option redis.Conn) (t : S) → Cache.close_conn redis o t ≡ conn_closer o t
  close_conn-closer none t = refl
  close_conn-closer (some conn) t = refl

  close-cache_closer :
      (o : Option (Client redis)) (t : S) → Cache.close redis o t ≡ cache_closer o t
  unfolding Cache.close underlying
  close-cache_closer none t = refl
  close-cache_closer (some c) t = close_conn-closer c.rdb t

  close_unless-closer :
      (e : Option GoError) (db : Db) (t : S)
      → Database.close_unless sql e db t ≡ handle_closer e db t
  close_unless-closer none db t = refl
  close_unless-closer (some e) db t = refl

  close_db-closer : (o : Option Db) (t : S) → Database.close_db sql o t ≡ primary_closer o t
  close_db-closer none t = refl
  close_db-closer (some db) t = close_unless-closer (sql.sql_error db t) db t

  close-db_closer : (o : Option DbManager) (t : S) → Database.close sql o t ≡ db_closer o t
  unfolding Database.close db_of
  close-db_closer none t = refl
  close-db_closer (some m) t = close_db-closer m.primary t

  rest : {A B C D : Type 0} → A ↔ (B × C × D) → A ↔ (B × (C × (D × Unit {0})))
  rest h = (λ a. ((h.0 a).0, ((h.0 a).1, ((h.0 a).2, tt))), λ x. h.1 (x.0, x.1.0, x.1.1.0))

  -- Close closes the queue client, the connection to Redis and the database, those that there are,
  -- one after the other, whatever the closings before returned; it returns nil exactly when all
  -- the closings did.
  pub close_lem :
      ((close sql redis asynq (some r) s).1 ≡ run_closers closers s)
      × (((close sql redis asynq (some r) s).0 ≡ none) ↔ AllClose closers s)
  unfolding close run_closers AllClose
  close_lem =
      rw
        (
          close_queue_client-closer r.queue_client s,
          close-cache_closer r.cache _,
          close-db_closer r.db _,
        )
        (refl, rest (joined-eq-none _ _ _))
