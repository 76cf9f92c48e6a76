-- ===== src/Lib.antt =====
-- A library on the ingress gateway: an HTTP API that accepts registrations, payment webhooks, QR
-- scans and notifications, queues them in Redis by priority, and a pool of workers that processes
-- them with retries and a dead-letter list.
--
-- The parts, and the files that model them:
--   Domain.*        internal/domain: jobs, payloads, rows, errors, and the ports as records of
--                   operations over the state of an adapter; Domain.Laws says what is relied on. The
--                   contract IsJobTable is that of Repository.Jobs and of Testutil.
--   Interleaving    what Service.Requests, Worker.Deliveries and Api.Middleware.Pressure share:
--                   goroutines at places of the same code as a step relation, a key that they take
--                   with SETNX (Semaphore), and a quantity that they add to (Potential).
--   Service.*       internal/service: Gateway is GatewayService.Enqueue, Admin the admin service.
--   Service.Requests  GatewayService.Enqueue a call at a time, for requests with one idempotency key
--                   that interleave. `Alone` relates it to Service.Gateway.
--   Worker.Pool     internal/worker/pool.go: `process` and what it calls. `Retries` follows a job
--                   through its deliveries, `Once` the lock and the done marker, `Verdict` the result,
--                   `Stored` the row of the job.
--   Worker.Deliveries  internal/worker/pool.go: `process` a step at a time, for deliveries of one job
--                   in several goroutines. `Alone` relates it to Worker.Pool.
--   Worker.Goroutines  internal/worker/pool.go: dispatch, worker, requeueAfter and Shutdown as steps
--                   that any schedule orders, over the abstract queue of Queue.Spec. `Conserve` counts the
--                   jobs, `Settled` and `Dropped` are about those that leave the pool, `Drain` about
--                   the shutdown.
--   Worker.Processors  internal/worker/*_processor.go.
--   Queue, Cache    internal/queue and internal/cache over the commands of a Redis client (Redis);
--                   Queue.Spec is the abstract queue that Queue.Refines relates them to.
--   RateLimiter.*   internal/ratelimiter. Tokens are exact numbers, not doubles.
--   Repository.*    internal/repository: the texts and arguments of the statements (Query those of
--                   List), the rows read back, the queries and NewPool. Repository.Jobs.Table is the
--                   jobs table that Postgres keeps; Repository.Jobs.RoundTrip reads it after a write.
--   Security        internal/security/hmac.go; Security.Jwt is jwt.go.
--   Api.*           internal/api: responses, middleware, handlers and the routes. Api.Router.Table is
--                   about the whole router, Api.Handlers.Gateway.Delivers about a request from the
--                   handler to the queue and the table, Api.Middleware.Pressure about backpressure.go
--                   with requests that interleave.
--   Observability   internal/observability: the collectors and the writes to them.
--   Logger          internal/logger.
--   Config          internal/config: Load, Validate and LoadDotEnv.
--   Lifecycle       a job from Enqueue over the queue and the table to the end of `process`.
--   Testutil        internal/testutil/store.go, the in-memory store.
--   Tests.*         each theorem at a concrete input, with adapters that meet its hypotheses.
--
-- A call that returns `(value, error)` and changes shared state is a function from a state to a result
-- and a state (Domain.Result); the state stands beside an error too. A request or a worker acts on a
-- `World`: the states of queue, store, cache and environment (clock, uuid, random numbers, metrics). A
-- request's handler and a worker's job are one sequence of calls each; a theorem that takes a second
-- state beside the first one leaves open what other goroutines did in between. In Service.Requests and
-- Worker.Deliveries other goroutines step between the calls, the rest of the system may change the
-- world but not the keys in question, and the claim of a request and the lock of a job may run out at
-- any time. Go's `int` and `int64`
-- are unbounded integers but where int32 is converted to, times and durations are nanoseconds.
--
-- Redis, Postgres, JSON, SHA-256, HMAC, the clock, uuids and random numbers are parameters. What is
-- relied on of them is a hypothesis: `IsReliable` (SETNX, GET, SET and DEL on a server that answers,
-- no key running out between the calls), `IsServer` (LPUSH, BRPOP and LLEN), `KeepsJobs` (JSON
-- encodes and decodes jobs), `FindsById` (GetByID answers the job of its id), `IsPostgres` (an
-- INSERT, an UPDATE and a SELECT of the jobs table by its primary key), `IsJobTable` (GetByID reads
-- what Create and Update wrote), `IsJwt` (golang-jwt issues and checks tokens), `IsRecorded` (logs
-- and metrics grow at their end), `DrawsBelow` (Int63n) and `SetsOne` (Setenv changes no other
-- variable).
--
-- `deliver` in Worker.Pool.Retries runs on fuel, one unit a delivery; a job's retries left, and one
-- more, are enough.
--
-- A request names the pattern of its route, which chi finds for its path; the router's table is searched
-- for the method and that pattern.
--
-- A world's adapters may fail at any call; so a cancelled context is a world in which they do. The
-- overflow of int64(capped)+1 in `backoff`, for a maximal delay near 2^63 nanoseconds, and the rounding
-- of its doubles are left out. Process takes the job by a pointer; the four processors only
-- read it, and a `Processor` of the model cannot change it.
--
-- Not modelled: deadlines of calls, a panic after a response has begun, the number of bytes and the
-- stack in a log line, what zap, chi, pgx and Prometheus do inside, and the static Swagger page.
mod Prelude
pub mod Interleaving
pub mod Domain
pub mod Service
pub mod Worker
pub mod Redis
pub mod Cache
pub mod Queue
pub mod RateLimiter
pub mod Security
pub mod Api
pub mod Testutil
pub mod Config
pub mod Repository
pub mod Observability
pub mod Logger
pub mod Lifecycle
mod Tests
