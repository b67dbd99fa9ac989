-- ===== src/Lib.antt =====
-- Ginblade: an HTTP API on gin with JWT authentication, a Postgres database, a Redis cache and a
-- task queue, and a worker that runs the tasks.
--
-- A request runs through the chain of middlewares of the engine (internal/server.go), is routed to
-- a handler (internal/router, internal/handler), which calls the service (internal/service); the
-- service calls the repository (internal/repository) or the queue (internal/taskqueue), and the
-- answer is an envelope (pkg/response). The worker (internal/worker) runs queued tasks under the
-- trace id of the request that published them. internal/bootstrap opens and closes the resources
-- that config describes.
--
-- Which file models what; an operation keeps its Go name, in snake case, and stands under a comment
-- with that name:
--   Errors, Errcode     Go errors with errors.As, Is and Join; internal/errcode
--   Context, Log        context.Context and its values; pkg/log/logger.go
--   Model, Validator    internal/model and the request types; pkg/validator/validator.go
--   Response, Http      pkg/response/response.go; gin's context, as far as the program uses it
--   Auth                pkg/auth/jwt.go; Auth.Library is golang-jwt, Auth.RoundTrip the proofs
--   Middleware          internal/middleware, with one child for the proofs of each middleware;
--                       Middleware.RateLimit is rate_limit.go over Middleware.RateLimit.Library,
--                       with Stop under concurrency in Middleware.RateLimit.Stopping
--   Config              config; Config.Numbers is strconv.Atoi and ParseBool, Config.Durations is
--                       time.ParseDuration
--   Repository          internal/repository over Repository.Library, which is gorm
--   Service, Task, TaskQueue, Worker
--                       internal/service, internal/task, internal/taskqueue, internal/worker;
--                       Worker.Runtime is NewServer and RegisterHandlers
--   Encoding            encoding/json on the payload: Encoding.Literal, Number and Scan are its
--                       scanner, Encoding.Payload Marshal and Unmarshal, Escapes and RoundTrip proofs
--   Database, Cache     pkg/database, pkg/cache/redis.go
--   Bootstrap           internal/bootstrap
--   Handler, Router     internal/handler, internal/router
--   Server              internal/server.go: guards and handlers; Server.Engine is the chain and the
--                       dispatch, Server.Startup NewServer, Run, Shutdown and Close
--   WorkerApp           internal/worker.go, with Run as a step relation on its two goroutines;
--                       WorkerApp.Tasks and Published follow a task to it
--   Shutdown            shutdownWebServer and waitForServerExit of cmd/api/main.go
--   Cmd                 the three mains, as functions that say how the process ends: Cmd.Api,
--                       Cmd.Worker and Cmd.Migrate, each with a child Ending for the proofs;
--                       Cmd.Api.Lifecycle is the API's main with its goroutine, as a step relation
--   Examples            concrete libraries and stores, and the theorems at concrete inputs
--   Prelude             names of the library, lists, texts with Go's strings package, integers
--
-- State is passed explicitly: `S` is what is behind the drivers, and gin's context is the record
-- `Gin`. A nil pointer is `none` of an option. Readings of the clock and new UUIDs are arguments. A
-- middleware is a function of the rest of the chain; a panic is a second outcome beside a finished
-- request, and one of a library that a handler calls is an argument of the engine, before the answer. A main is a function into its exit, its log, its loggers and the state; what happens while
-- its server serves, the signal included, is an argument. Recursion is structural, save for the
-- loop of time.ParseDuration: its fuel is the length of the text, which is enough, since each pass
-- takes a character (Config.Durations.Fuel). A Go `int` or duration is an integer `ℤ`; the 64-bit
-- wrap-around is written out where a product or a sum can overflow, in `Worker.raw_delay` and in
-- Config.Durations.
--
-- gin's binding, golang-jwt, x/time/rate, gorm, database/sql, go-redis, asynq, godotenv, the float64
-- product in time.ParseDuration and zap's level parser are parameters. What is relied on of them is
-- a record of laws in a module named Library, or beside the theorem that uses it, and Examples has an
-- instance of each. encoding/json is an interface with laws, Task.Json, for the modules that use it;
-- Encoding writes it out, as far as the payload of a task needs it, and proves the laws.
--
-- asynq's Run returns an error when it cannot start, and nil only behind a signal to exit, which is
-- a step of WorkerApp.
--
-- Not modelled: asynq's server as it runs, gorm's AutoMigrate, zap's output, gin's redirection of
-- paths with a slash too many, a panic inside a transaction, and the interleaving inside a critical
-- section of the rate limiter.
pub mod Prelude
pub mod Errors
pub mod Encoding
pub mod Errcode
pub mod Context
pub mod Cmd
pub mod Log
pub mod Model
pub mod Validator
pub mod Response
pub mod Http
pub mod Auth
pub mod Config
pub mod Repository
pub mod Service
pub mod Task
pub mod TaskQueue
pub mod Worker
pub mod Database
pub mod Cache
pub mod Bootstrap
pub mod Handler
pub mod Router
pub mod Server
pub mod Middleware
pub mod Shutdown
pub mod WorkerApp
mod Examples
