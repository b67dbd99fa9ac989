-- ===== src/Examples/Persistence.antt =====
-- Transactions, listings, the database, the cache and the queue, at concrete states.
use ginblade.Prelude.{
  to_lower, ℕ, ◌≡◌, refl, ◌⊎◌, ◌↔◌, true, none, some, [], ◌∷◌, trim_space, if◌then◌else◌, str_eq,
}
use ginblade.Config.Types
use ginblade.Config.Loading.{defaults}
use ginblade.Bootstrap.{init_api, init_cache, Registry, close}
use ginblade.Bootstrap.Starting.{IsStarted, init_api-IsStarted}
use ginblade.Errors.{err, wrap, plain, ok}
use ginblade.Database.{
  connected_entry, db_of, DbManager, PoolSettings, init, normalize_pool_settings,
}
use ginblade.Cache.{new_client, Client, get, set}
use ginblade.Prelude.Int.{pos, negsuc}
use ginblade.Context.{Context, background, with_trace}
use ginblade.Task.{Task}
use ginblade.Service.{ExampleService, ExampleQueue, list}
use ginblade.Service.Listing.{new_example_repository, service, IsPage, list-IsPage}
use ginblade.Repository.{Callback, in_tx}
use ginblade.Repository.Tx.{Work, part, seq, nested, in_tx_nested}
use ginblade.Worker.{TaskRuntimeMetadata}
use ginblade.Worker.Trace.{published}
use ginblade.Database
use ginblade.Database.Pool.{IsPositive}
use ginblade.Database.Opening.{IsConnected, IsUnconfigured, init-eq-ok}
use ginblade.Cache
use ginblade.Cache.Laws.{get-set}
use ginblade.Bootstrap.Closing.{run_closers, AllClose, closers, close_lem}
use ginblade.Encoding.Payload.{encoding_json}
use ginblade.Encoding.RoundTrip.{encoding_json-JsonLaws}
use ginblade.Examples.Stores.{
  Table, row, toy_gorm, toy_gorm-QueryLaws, Keys, toy_redis, toy_redis-RedisLaws, toy_sql,
  idle_redis, toy_asynq,
}

-- A callback that stores a row, and one that fails after it stored one.
abbrev insert_then_fail : Callback toy_gorm
insert_then_fail ctx s = (some (plain "too late"), row 1 "a" ∷ s)

-- A row that an inner InTx stores, and then a failure.
abbrev nested_then_fail : Work Table
nested_then_fail = seq (nested none (part (λ ctx s. (none, row 1 "a" ∷ s)))) (part insert_then_fail)

nested_call :
    in_tx toy_gorm none
      (some 7)
      (some (λ c. in_tx toy_gorm (some c) none (some insert_then_fail)))
      []
    ≡ in_tx toy_gorm none (some 7) (some insert_then_fail) []
nested_call = in_tx_nested toy_gorm none (some 7) none insert_then_fail []

abbrev rows : Table
rows = row 3 "c" ∷ row 2 "b" ∷ row 1 "a" ∷ []

list-IsPage_example : IsPage toy_gorm toy_gorm-QueryLaws 7 none background rows 20 1 (
    list
      (service toy_gorm toy_gorm-QueryLaws 7 none background rows)
      background
      (record { limit = pos 0; offset = pos 1 })
      rows)
list-IsPage_example = list-IsPage toy_gorm toy_gorm-QueryLaws 7 none background rows 0 1

abbrev queue : ExampleQueue Table
queue = record { available = true; enqueue = λ ctx t s. (ok "task-1", row 9 t.payload ∷ s) }

abbrev queueing : ExampleService Table
queueing = record { repo = new_example_repository toy_gorm 7; queue = some queue }

abbrev meta : TaskRuntimeMetadata
meta = record {
  task_id = "task-1";
  queue = "default";
  retry_count = 0;
  retry_count_recorded = true;
}

abbrev traced : Context
traced = with_trace "r-1" background

abbrev task : Task
task = published encoding_json encoding_json-JsonLaws traced (record { name = "demo" })

abbrev pool : PoolSettings
pool = record {
  max_idle_conns = pos 15;
  max_open_conns = pos 30;
  conn_max_lifetime = pos 1;
  conn_max_idle_time = pos 2;
}

abbrev database_cfg : Database.Config
database_cfg = record {
  dsn = "postgres://db";
  log_level = "warn";
  max_idle_conns = negsuc 0;
  max_open_conns = pos 0;
  conn_max_lifetime = pos 0;
  conn_max_idle_time = pos 5;
}

pool-IsPositive : IsPositive pool
pool-IsPositive = record { idle = refl; opens = refl; lifetime = refl; idle_time = refl }

abbrev opened_manager : DbManager
opened_manager = record { primary = some 1 }

database_opened : init {S = ℕ} toy_sql database_cfg 0 ≡ (ok opened_manager, connected_entry ∷ [], 0)
unfolding init trim_space to_lower
database_opened = refl

opened_connection :
    IsUnconfigured {S = ℕ} toy_sql database_cfg 0 opened_manager (connected_entry ∷ []) 0
    ⊎ IsConnected {S = ℕ} toy_sql database_cfg 0 opened_manager (connected_entry ∷ []) 0
opened_connection =
    init-eq-ok toy_sql database_cfg 0 opened_manager (connected_entry ∷ []) 0 database_opened

abbrev client : Client toy_redis
client = record { rdb = some tt }

abbrev stored : Keys
stored k = if str_eq "key" k then "value" else ""

value_set : set toy_redis (some client) background "key" "value" (pos 60) (λ k. "") ≡ (none, stored)
unfolding set Cache.underlying
value_set = refl

value_read_back : get toy_redis (some client) background "key" stored ≡ ok "value"
value_read_back =
    get-set toy_redis (some client) background "key" "value" (pos 60) (λ k. "") stored
      toy_redis-RedisLaws value_set

abbrev registry : Registry {S = ℕ} toy_sql idle_redis toy_asynq
registry = record {
  cfg = none;
  db = some opened_manager;
  cache = none;
  auth = none;
  queue = none;
  queue_client = none;
}

close_lem_example :
    ((close {S = ℕ} toy_sql idle_redis toy_asynq (some registry) 3).1
      ≡ run_closers toy_sql idle_redis toy_asynq registry 3
          (closers toy_sql idle_redis toy_asynq registry 3)
          3)
    × (((close {S = ℕ} toy_sql idle_redis toy_asynq (some registry) 3).0 ≡ none)
        ↔ AllClose toy_sql idle_redis toy_asynq registry 3
            (closers toy_sql idle_redis toy_asynq registry 3)
            3)
close_lem_example = close_lem toy_sql idle_redis toy_asynq registry 3

-- A configuration with a cache that does not answer.
abbrev cached_cfg : Types.Config
cached_cfg = defaults "postgres://localhost/app" "warn" "localhost:6379" "" "secret"

init_api-IsStarted_example :
    IsStarted {S = ℕ} toy_sql idle_redis toy_asynq cached_cfg 0
      (init_api {S = ℕ} toy_sql idle_redis toy_asynq (some cached_cfg) 0)
init_api-IsStarted_example = init_api-IsStarted toy_sql idle_redis toy_asynq cached_cfg 0

cache_refused : init_api {S = ℕ} toy_sql idle_redis toy_asynq (some cached_cfg) 0 ≡ (
  err (wrap "init cache" (wrap "connect to redis" (plain "connection refused"))),
  connected_entry ∷ [],
  0,
)
unfolding init_api Database.init trim_space db_of init_cache new_client to_lower
cache_refused = refl
