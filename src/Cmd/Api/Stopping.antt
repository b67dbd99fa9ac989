-- ===== src/Cmd/Api/Stopping.antt =====
-- What the shutdown of a signal does to the server and its rate limiter.
use ginblade.Prelude.{◌≡◌, refl, Option, some}
use ginblade.Database.{Sql}
use ginblade.Cache.{Redis}
use ginblade.Middleware.RateLimit.{stop}
use ginblade.Middleware.RateLimit.Library.{Limiters}
use ginblade.Server.Startup.{HttpServer, Server, shutdown, close}
use ginblade.Server.Stopping.{IsStopped, stop-IsStopped}
use ginblade.Shutdown.{shutdown_web_server_keeps}
use ginblade.Cmd.Api.{Serving, stop_server, shutdown_owned, close_owned, Owned}

module _ {S : Type 0} (lib : Limiters) (sql : Sql S) (redis : Redis S) (serving : Serving S)
    (http : HttpServer S) where
  -- The server is there, and its rate limiter, if it has one, was told to stop.
  abbrev pub HasStopped : Option (Server lib sql redis) → Type 0
  HasStopped o =
      (w : Server lib sql redis) × (o ≡ some w) × (w.http ≡ some http) × IsStopped w.rate_limiter

  shutdown-HasStopped :
      (v : Server lib sql redis) (s : S)
      → v.http ≡ some http
      → HasStopped (shutdown_owned lib sql redis serving (some v, s)).1.0
  unfolding shutdown_owned shutdown stop
  shutdown-HasStopped v s has = rw has (_, refl, refl, stop-IsStopped lib v.rate_limiter)

  close-HasStopped :
      (o : Owned lib sql redis serving)
      → HasStopped o.0
      → HasStopped (close_owned lib sql redis serving o).1.0
  unfolding close_owned close stop
  close-HasStopped (o, s) (w, is, has, stopped) =
      rw (is, has) (_, refl, refl, stop-IsStopped lib w.rate_limiter)

  -- However the shutdown goes, it leaves the server's rate limiter stopped.
  pub stop_server-HasStopped :
      (v : Server lib sql redis) (s : S)
      → v.http ≡ some http
      → HasStopped (stop_server lib sql redis serving v s).state.0
  unfolding stop_server
  stop_server-HasStopped v s has =
      shutdown_web_server_keeps (shutdown_owned lib sql redis serving)
        (close_owned lib sql redis serving) (λ o. serving.exit o.1) (λ o. HasStopped o.0)
        (some v, s) (shutdown-HasStopped v s has) close-HasStopped
