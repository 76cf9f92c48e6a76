-- ===== src/Worker/Deliveries.antt =====
-- internal/worker/pool.go: `process` in several goroutines at once, each with a delivery of the same
-- job, as the steps that they take in any order. A step reads or writes the lock or the done marker of
-- the job at most once; the calls between two such accesses are one step.
pub mod Alone
pub mod Guards
pub mod Exclusion
pub mod Marked
pub mod Overtaken
pub mod Processors
use ingress_api_gateway.Prelude.{
  ℕ, zero, suc, ◌+◌, ◌-◌, ◌/◌, String, ◌≡◌, Bool, Option, none, some, List, [], ◌∷◌, ◌++◌, ◌<>◌,
  if◌then◌else◌, get_elem?, set,
}
use ingress_api_gateway.Prelude.Int.{inc}
use ingress_api_gateway.Interleaving.{System}
use ingress_api_gateway.Domain.Result.{Result, ignore}
use ingress_api_gateway.Domain.Job.{Job, JobAttempt, job_status_processing}
use ingress_api_gateway.Domain.Ports.{
  Queue, Cache, JobRepository, Env, Runtime, World, Processor, on_store, on_cache, tick,
  workers_active_inc, workers_active_dec,
}
use ingress_api_gateway.Worker.Pool.{
  RetryConfig, Outcome, process, to_dead_letter, find_processor, finish, done_key, lock_key,
  lock_ttl, is_done, is_acquired, now,
}

-- Where a goroutine stands in `process`, with its variables that are live there.
pub data Delivery (W : Type 0) : Type 0 where
  arrived : Job → Delivery W
  checking claiming locked running : ℕ → Processor W → Job → Delivery W
  ran : ℕ → Result (Unit {0}) → Job → Delivery W
  settled : Job → Outcome → Delivery W
  leaving over : Outcome → Delivery W

abbrev pub skipped : Job → Outcome
skipped job = record { job = job; retry = none }

module _ {Q S C E : Type 0} (queue : Queue Q) (jobs : JobRepository S) (cache : Cache C)
    (env : Env E) (rt : Runtime) (cfg : RetryConfig)
    (registry : List (Processor (World Q S C E))) where
  abbrev pub Place : Type 0
  Place = Delivery (World Q S C E)

  abbrev clock : World Q S C E → ℕ × World Q S C E
  clock = now queue jobs cache env rt cfg

  -- The look into the registry.
  abbrev pub on_found :
      ℕ → Option (Processor (World Q S C E)) → Job → World Q S C E → Place × World Q S C E
  on_found start none job w =
      let (out, w) = to_dead_letter queue jobs cache env rt cfg job "no processor registered" w in
      (leaving out, w)
  on_found start (some p) job w = (checking start p job, w)

  -- The row of the attempt, whose status is not set yet.
  abbrev pub new_attempt : ℕ → Job → World Q S C E → JobAttempt × World Q S C E
  new_attempt start job w =
      let (end, w) = clock w in
      let (t, w) = clock w in
      (
        record {
          job_id = job.id;
          attempt = inc job.retry_count;
          status = "";
          error = "";
          duration_ms = (end - start) / 1000000;
          created_at = t;
        },
        w,
      )

  -- The next step of a delivery.
  unfoldable pub advance : Place → World Q S C E → Place × World Q S C E
  advance (arrived job) w =
      let w = tick (env.count workers_active_inc) w in
      let (start, w) = clock w in on_found start (find_processor registry job.job_type) job w
  advance (checking start p job) w =
      let (done, w) = on_cache (cache.get (done_key job)) w in
      (if is_done done then leaving (skipped job) else claiming start p job, w)
  advance (claiming start p job) w =
      let (acquired, w) = on_cache (cache.set_nx (lock_key job) "1" lock_ttl) w in
      (if is_acquired acquired then locked start p job else leaving (skipped job), w)
  advance (locked start p job) w =
      let (t, w) = clock w in
      let marked = record job { status = job_status_processing; updated_at = t } in
      (running start p marked, ignore (on_store (jobs.update marked)) w)
  advance (running start p job) w = let (r, w) = p.process job w in (ran start r job, w)
  advance (ran start r job) w =
      let (attempt, w) = new_attempt start job w in
      let (out, w) = finish queue jobs cache env rt cfg attempt job r w in (settled job out, w)
  advance (settled job out) w = (leaving out, ignore (on_cache (cache.del (lock_key job))) w)
  advance (leaving out) w = (over out, tick (env.count workers_active_dec) w)
  advance (over out) w = (over out, w)

  -- A delivery that nothing interrupts.
  unfoldable pub advance_times : ℕ → Place → World Q S C E → Place × World Q S C E
  advance_times zero d w = (d, w)
  advance_times (suc n) d w = let (d', w') = advance d w in advance_times n d' w'

-- Between the SETNX that took the lock and its DEL.
abbrev pub holds : {W : Type 0} → Delivery W → ℕ
holds (locked start p job) = 1
holds (running start p job) = 1
holds (ran start r job) = 1
holds (settled job out) = 1
holds other = 0

-- Past the check of the done marker, and not yet through the call of the processor.
abbrev pub may_run : {W : Type 0} → Delivery W → ℕ
may_run (claiming start p job) = 1
may_run (locked start p job) = 1
may_run (running start p job) = 1
may_run other = 0

-- The call of the processor.
abbrev pub runs_now : {W : Type 0} → Delivery W → ℕ
runs_now (running start p job) = 1
runs_now other = 0

module _ {Q S C E : Type 0} (queue : Queue Q) (jobs : JobRepository S) (cache : Cache C)
    (env : Env E) (rt : Runtime) (cfg : RetryConfig) (registry : List (Processor (World Q S C E)))
    (view : C → String → Option String) (id : String) where
  abbrev pub lock_of : World Q S C E → Option String
  lock_of w = view w.cache ("job:lock:" <> id)

  abbrev pub done_of : World Q S C E → Option String
  done_of w = view w.cache ("job:done:" <> id)

  -- The system of the deliveries of the job: a worker takes the job; the rest of the system leaves its lock
  -- and its done marker alone; the lock may run out. The marker, which stays for a day, does not.
  abbrev pub deliveries : System (World Q S C E) (Delivery (World Q S C E))
  deliveries = record {
    advance = advance queue jobs cache env rt cfg registry;
    counts = runs_now;
    Start = λ d. (job : Job) × (job.id ≡ id) × (d ≡ arrived job);
    Frame = λ w v. (lock_of v ≡ lock_of w) × (done_of v ≡ done_of w);
    Expiry = λ w v. (lock_of v ≡ none) × (done_of v ≡ done_of w);
  }
