-- ===== src/Tests/Deliveries.antt =====
-- internal/worker/pool.go: deliveries of one job in several goroutines, at concrete inputs.
use mathlib.Core.Path.{subst}
use ingress_api_gateway.Prelude.{
  ℕ, suc, ◌+◌, ◌≤◌, ◌≡◌, refl, true, none, some, List, [], ◌∷◌, arith, ◌==◌, Bool-cases, inl, inr,
}
use ingress_api_gateway.Prelude.Int.{pos}
use ingress_api_gateway.Domain.Result.{ok}
use ingress_api_gateway.Domain.Job.{Job, new_job}
use ingress_api_gateway.Domain.Ports.{World, Processor, Store}
use ingress_api_gateway.Testutil.{InMemoryStore, new_in_memory_store, memory_store}
use ingress_api_gateway.Worker.Processors.Payment.{payment_processor}
use ingress_api_gateway.Worker.Processors.Notification.{simulated_sender}
use ingress_api_gateway.Worker.Deliveries.Processors.{processors, processors-keep}
use ingress_api_gateway.Worker.Pool.{RetryConfig, process, find_processor, run_locked, succeed}
use ingress_api_gateway.Worker.Deliveries.{Delivery, arrived, claiming, locked, advance, deliveries}
use ingress_api_gateway.Interleaving.{State, System, Reach, stay, later, begin, expire, nobody}
use ingress_api_gateway.Tests.Interleaving.{walk}
use ingress_api_gateway.Worker.Deliveries.Guards.{KeepsGuards}
use ingress_api_gateway.Worker.Deliveries.Exclusion.{Reach-holds}
use ingress_api_gateway.Worker.Deliveries.Marked.{Reach-runs}
use ingress_api_gateway.Worker.Deliveries.Overtaken.{checking-process-claiming}
use ingress_api_gateway.Tests.Reference.{
  Memory, put, memory_cache, memory_cache-IsReliable, view, list_queue, list_jobs, counter, rt,
  queued, fresh_world, empty,
}

abbrev W : Type 0
W = World (List Job) (List Job) Memory ℕ

abbrev config : RetryConfig
config = record { retry_base = pos 100; retry_max = pos 1000 }

abbrev good : Processor W
good = record { type = "REGISTRATION"; process = λ job w. (ok tt, w) }

abbrev registry : List (Processor W)
registry = good ∷ []

abbrev Keeps : Processor W → Type 0
Keeps =
    KeepsGuards list_queue list_jobs memory_cache counter rt config registry view
      memory_cache-IsReliable "u1"

keep : (p : Processor W) (job : Job) → find_processor registry job.job_type ≡ some p → Keeps p
unfolding find_processor
keep p job e = elim (Bool-cases ("REGISTRATION" == job.job_type)) [
  | inl q ↦ let same : good ≡ p = ground arith in subst Keeps same (λ j w. (refl, refl))
  | inr n ↦ absurd (ground arith)
]

abbrev Run : Type 0
Run = State W (Delivery W)

abbrev system : System W (Delivery W)
system = deliveries list_queue list_jobs memory_cache counter rt config registry view "u1"

abbrev start : Run
start = nobody fresh_world

abbrev both : Run
both = record start { places = arrived queued ∷ arrived queued ∷ [] }

unfoldable two : Reach system start both
unfolding new_job
two =
    later (later stay (begin (arrived queued) (queued, refl, refl)))
      (begin (arrived queued) (queued, refl, refl))

-- The first delivery takes the lock, the second has passed the check.
unfoldable passed : (u : Run) × Reach system start u
unfolding walk two
passed = walk system (0 ∷ 1 ∷ 0 ∷ 1 ∷ 0 ∷ []) start both two

-- The lock runs out while the first delivery holds it, and the second takes it.
unfoldable expired : (u : Run) × Reach system start u
unfolding passed
expired =
    let s = passed.0 in
    let w = record s.world { cache = put "job:lock:u1" none s.world.cache } in
    walk system (1 ∷ []) start (record s { world = w; expiries = suc s.expiries })
      (later passed.1 (expire w (refl, refl)))

Reach-holds_example : (2 ≤ 1 + 1) × (1 ≤ 2)
unfolding expired passed walk two advance new_job find_processor
Reach-holds_example =
    Reach-holds list_queue list_jobs memory_cache counter rt config registry view
      memory_cache-IsReliable "u1" keep fresh_world expired.0 refl expired.1

-- The first delivery has ended, and the second stands before its SETNX.
unfoldable ended : (u : Run) × Reach system start u
unfolding passed
ended = walk system (0 ∷ 0 ∷ 0 ∷ 0 ∷ 0 ∷ []) start passed.0 passed.1

-- The second delivery goes on to its end.
unfoldable repeated : (u : Run) × Reach system ended.0 u
unfolding ended
repeated = walk system (1 ∷ 1 ∷ 1 ∷ 1 ∷ 1 ∷ 1 ∷ []) ended.0 ended.0 stay

Reach-runs_example : (2 ≤ 1 + 1) × (true ≡ true)
unfolding repeated ended passed walk two advance new_job find_processor succeed
Reach-runs_example =
    Reach-runs list_queue list_jobs memory_cache counter rt config registry view
      memory_cache-IsReliable "u1" keep fresh_world ended.0 repeated.0 ended.1 refl repeated.1

checking-process-claiming_example :
    let w2 =
      (process list_queue list_jobs memory_cache counter rt config registry queued fresh_world).1 in
    let place : Delivery W = claiming 0 good queued in
    (place ≡ place)
    × (w2.cache "job:done:u1" ≡ some "1")
    × ((advance list_queue list_jobs memory_cache counter rt config registry place w2).0
        ≡ locked 0 good queued)
unfolding advance new_job process find_processor run_locked
checking-process-claiming_example =
    checking-process-claiming list_queue list_jobs memory_cache counter rt config registry view
      memory_cache-IsReliable 0 good queued queued fresh_world refl refl refl refl

abbrev V : Type 0
V = World (List Job) InMemoryStore Memory ℕ

abbrev table : Store InMemoryStore
table = memory_store (λ jobs. jobs)

abbrev real : Processor V
real = payment_processor table counter rt

abbrev kept : V
kept = record {
  queue = [];
  store = new_in_memory_store;
  cache = put "job:lock:u1" (some "1") empty;
  env = 0;
}

processors-keep_example :
    let v = (real.process queued kept).1 in
    (v.cache "job:lock:u1" ≡ some "1") × (v.cache "job:done:u1" ≡ none)
unfolding processors find_processor new_job
processors-keep_example =
    processors-keep list_queue table memory_cache counter rt
      (record { max_retries = pos 3; idempotency_ttl = pos 10 }) (pos 10) simulated_sender view
      memory_cache-IsReliable (λ rest a b c d w. refl) "u1" real "PAYMENT_WEBHOOK" queued kept refl
