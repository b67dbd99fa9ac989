-- ===== src/Server/Stopping.antt =====
-- What Shutdown and Close leave of the rate limiter.
use ginblade.Prelude.{◌≡◌, refl, inl, inr, Option, none, some, true, Bool-cases, ◌↔◌, arith}
use ginblade.Server.Startup.{unless_closed, HttpServer, Server, stop_limiter, shutdown, close}
use ginblade.Errors.{is_sentinel, GoError}
use ginblade.Context.{Context}
use ginblade.Database.{Sql}
use ginblade.Cache.{Redis}
use ginblade.Middleware.RateLimit.{IpRateLimiter, stop}
use ginblade.Middleware.RateLimit.Library.{Limiters}

-- There is no rate limiter, or its sweep was told to stop.
abbrev pub IsStopped : {lib : Limiters} → Option (IpRateLimiter lib) → Type 0
IsStopped none = Unit
IsStopped (some l) = l.stopped ≡ true

module _ (lib : Limiters) where
  pub stop-IsStopped : (o : Option (IpRateLimiter lib)) → IsStopped (stop lib o)
  unfolding stop
  stop-IsStopped none = tt
  stop-IsStopped (some l) = elim (Bool-cases l.stopped) [
    | inl stopped ↦ rw stopped refl
    | inr runs ↦ rw runs refl
  ]

  stop_of_IsStopped : (o : Option (IpRateLimiter lib)) → IsStopped o → stop lib o ≡ o
  unfolding stop
  stop_of_IsStopped none h = refl
  stop_of_IsStopped (some l) stopped = rw stopped

-- The answers of the HTTP server's Close that are no failure.
abbrev pub IsClosed : Option GoError → Type 0
IsClosed none = Unit
IsClosed (some e) = is_sentinel e "http: Server closed" ≡ true

unless_closed-IsClosed : (o : Option GoError) → (unless_closed o ≡ none) ↔ IsClosed o
unfolding is_sentinel
unless_closed-IsClosed none = ((λ e. tt), (λ u. refl))
unless_closed-IsClosed (some e) = ground arith

module _ {S : Type 0} (lib : Limiters) (sql : Sql S) (redis : Redis S) (v : Server lib sql redis)
    (http : HttpServer S) (ctx : Context) (s : S) where
  -- The server after its rate limiter was told to stop.
  abbrev pub stopped_server : Server lib sql redis
  stopped_server = stop_limiter lib sql redis v

  -- Shutdown and Close of a server with an HTTP server stop its rate limiter, and stopping it once
  -- more changes nothing; Shutdown reports what the HTTP server's Shutdown does, and Close reports
  -- no error exactly when the HTTP server's Close gave none, or gave the one for a closed server.
  pub stopping_lem :
      v.http ≡ some http
      → (shutdown lib sql redis (some v) ctx s
          ≡ ((http.shutdown ctx s).0, some stopped_server, (http.shutdown ctx s).1))
        × ((close lib sql redis (some v) s).1 ≡ some stopped_server)
        × (((close lib sql redis (some v) s).0 ≡ none) ↔ IsClosed (http.close s).0)
        × IsStopped stopped_server.rate_limiter
        × (stop lib stopped_server.rate_limiter ≡ stopped_server.rate_limiter)
  unfolding shutdown close stop
  stopping_lem has = (
    simp has,
    simp has,
    simp has (unless_closed-IsClosed (http.close s).0),
    stop-IsStopped lib v.rate_limiter,
    stop_of_IsStopped lib _ (stop-IsStopped lib v.rate_limiter),
  )
