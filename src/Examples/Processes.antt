-- ===== src/Examples/Processes.antt =====
-- The API process, from its configuration to the end that a signal makes.
use ginblade.Cmd.Worker.{Waits, work}
use ginblade.Cmd.Worker.Ending as Work
use ginblade.Cmd.Worker.Ending.{WaitLaws, work_verdict}
use ginblade.Cmd.Migrate.{migrate}
use ginblade.Cmd.Migrate.Ending as Migration
use ginblade.Cmd.Migrate.Ending.{migrate_verdict}
use ginblade.WorkerApp.{
  Group, started, server_returns, shut_down, cancel, signal, serve, watch, Reaches, start, step,
}
use ginblade.Context.{Db, background}
use ginblade.Errors.{GoError, ok}
use ginblade.Examples.Working.{cfg as worker_cfg, no_keys}
use ginblade.Examples.Tasks.{toy_muxes, meta}
use ginblade.Encoding.Payload.{encoding_json}
use ginblade.Examples.Stores.{Keys, toy_redis, Table, toy_gorm, toy_sql, idle_redis, toy_asynq}
use ginblade.Bootstrap.{Platform}
use ginblade.Prelude.{refl, false, none, some, [], Option, true}
use ginblade.Prelude.Int.{pos}
use ginblade.Log.{Loggers, nop}
use ginblade.Config.Types.{Config}
use ginblade.Config.Loading.{defaults}
use ginblade.Server.Startup.{HttpServer}
use ginblade.Cmd.Api.{Serving, run_api}
use ginblade.Cmd.Api.Ending.{Ends, run_api_verdict}
use ginblade.Examples.Buckets.{toy_limiters}

abbrev platform : Platform
platform = record { set_mode = λ mode. none; level_set = λ text. ok (pos 0) }

abbrev cfg : Config
cfg = defaults "postgres://db" "" "" "" ""

abbrev fresh : Loggers
fresh = record { default_logger = nop; zap_global = nop }

abbrev polite_server : HttpServer Table
polite_server = record {
  listen_and_serve = λ s. (none, s);
  shutdown = λ ctx s. (none, s);
  close = λ s. (none, s);
}

abbrev until_signal : Serving Table
until_signal = record {
  ends_first = λ s. false;
  at_signal = λ s. s;
  shutdown_context = background;
  exit = λ s. some none;
}

run_api_verdict_example :
    Ends toy_limiters toy_sql idle_redis until_signal toy_asynq toy_gorm
      (λ ips. none)
      (λ c. polite_server)
      platform
      cfg
      fresh
      []
      (run_api toy_limiters toy_sql idle_redis until_signal toy_asynq toy_gorm
        (λ ips. none)
        (λ c. polite_server)
        platform
        cfg
        fresh
        [])
run_api_verdict_example =
    run_api_verdict toy_limiters toy_sql idle_redis until_signal toy_asynq toy_gorm (λ ips. none)
      (λ c. polite_server) platform cfg fresh []

abbrev quiet : Group
quiet = shut_down (server_returns none (record started { canceled = true; signalled = true }))

-- The signal has come, which cancels the context of the process, too.
canceled_reached : Reaches (record started { canceled = true; signalled = true })
canceled_reached = step _ _ (step _ _ start (signal started)) (cancel _)

quiet_reached : Reaches quiet
unfolding server_returns
quiet_reached =
    step _ _ (step _ _ canceled_reached (serve _ none refl refl))
      (watch (server_returns none (record started { canceled = true; signalled = true })) refl refl)

abbrev waits : Waits {S = Keys} toy_sql toy_redis toy_asynq toy_muxes encoding_json meta
waits w s = (quiet, s)

waits-WaitLaws : WaitLaws {S = Keys} toy_sql toy_redis toy_asynq toy_muxes encoding_json meta waits
unfolding server_returns shut_down
waits-WaitLaws = record {
  served = λ w s. none;
  reaches = λ w s. quiet_reached;
  done = λ w s. (refl, refl);
}

work_verdict_example :
    Work.Ends {S = Keys} toy_sql toy_redis toy_asynq toy_muxes encoding_json meta waits
      waits-WaitLaws platform worker_cfg fresh no_keys
      (work toy_sql toy_redis toy_asynq toy_muxes encoding_json meta waits platform worker_cfg fresh
        no_keys)
work_verdict_example =
    work_verdict toy_sql toy_redis toy_asynq toy_muxes encoding_json meta waits waits-WaitLaws
      platform worker_cfg fresh no_keys

abbrev migrated : Db → Table → Option GoError × Table
migrated db s = (none, s)

migrate_verdict_example :
    Migration.Ends toy_sql migrated platform cfg fresh []
      (migrate toy_sql migrated platform cfg fresh [])
migrate_verdict_example = migrate_verdict toy_sql migrated platform cfg fresh []
