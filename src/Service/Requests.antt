-- ===== src/Service/Requests.antt =====
-- internal/service/gateway_service.go: `Enqueue` in several goroutines at once, as the steps that they
-- take in any order: each call of the queue, the repository or the cache is a step of its own.
pub mod Alone
pub mod Claims
pub mod Unbacked
mod Agreement
pub mod Answers
use ingress_api_gateway.Prelude.{
  ℕ, zero, suc, String, Bool, true, false, ◌≡◌, not, ◌||◌, Option, none, ◌==◌, if◌then◌else◌,
}
use ingress_api_gateway.Interleaving.{System}
use ingress_api_gateway.Domain.Error.{
  Error, sentinel, wrap, err_invalid_payload, err_unknown_job_type,
}
use ingress_api_gateway.Domain.Result.{Result, ok, err, ignore}
use ingress_api_gateway.Domain.Job.{Job, job_type_valid, new_job}
use ingress_api_gateway.Domain.Ports.{
  Queue, Cache, JobRepository, Env, idempotency_hits, Runtime, World, on_queue, on_store, on_cache,
  tick, EnqueueRequest, EnqueueResult,
}
use ingress_api_gateway.Service.Gateway.{
  GatewayConfig, stub_job, or_empty, or_stub, effective_key, claim_key,
}

-- Where a goroutine stands in `Enqueue`, with its variables that are live there: the trace id and the
-- job id that it drew, the job, the error to return, or the id of the existing job.
pub data Request : Type 0 where
  received : EnqueueRequest → Request
  claiming fresh looking reading : EnqueueRequest → (trace_id id : String) → Request
  queueing : EnqueueRequest → Job → Request
  releasing : EnqueueRequest → Error → Request
  replied : Result EnqueueResult → Request

module _ {Q S C E : Type 0} (queue : Queue Q) (jobs : JobRepository S) (cache : Cache C)
    (env : Env E) (rt : Runtime) (cfg : GatewayConfig) where
  -- The two ids that a valid request draws.
  abbrev pub draw : EnqueueRequest → World Q S C E → Request × World Q S C E
  draw req w =
      let (trace_id, e) =
        if req.trace_id == "" then env.new_uuid w.env else (req.trace_id, w.env) in
      let (job_id, e) = env.new_uuid e in (claiming req trace_id job_id, record w { env = e })

  abbrev pub on_claim : EnqueueRequest → (trace_id job_id : String) → Result Bool → Request
  on_claim req trace_id job_id (err e) = replied (err (wrap "idempotency claim: " e ""))
  on_claim req trace_id job_id (ok free) =
      if free then fresh req trace_id job_id else looking req trace_id job_id

  abbrev pub on_create : EnqueueRequest → Job → Result (Unit {0}) → Request
  on_create req job (ok _) = queueing req job
  on_create req job (err e) = releasing req (wrap "persist job: " e "")

  abbrev pub on_push : EnqueueRequest → Job → Result (Unit {0}) → Request
  on_push req job (ok _) = replied (ok (record { job = job; duplicate = false }))
  on_push req job (err e) = releasing req (wrap "queue job: " e "")

  -- The next step of a request.
  unfoldable pub advance : Request → World Q S C E → Request × World Q S C E
  advance (received req) w =
      if not (job_type_valid req.job_type)
      then (replied (err (sentinel err_unknown_job_type)), w)
      else if req.payload == "" || not (rt.json_valid req.payload)
      then (replied (err (wrap "" (sentinel err_invalid_payload) ": body must be valid JSON")), w)
      else draw req w
  advance (claiming req trace_id job_id) w =
      let (r, w) = on_cache (cache.set_nx (claim_key rt req) job_id cfg.idempotency_ttl) w in
      (on_claim req trace_id job_id r, w)
  advance (fresh req trace_id job_id) w =
      let (t, e) = env.now w.env in
      let job =
        new_job t job_id req.job_type req.payload (effective_key rt req) trace_id cfg.max_retries in
      let (r, w) = on_store (jobs.create job) (record w { env = e }) in (on_create req job r, w)
  advance (queueing req job) w = let (r, w) = on_queue (queue.push job) w in (on_push req job r, w)
  advance (releasing req e) w =
      (replied (err e), ignore (on_cache (cache.del (claim_key rt req))) w)
  advance (looking req trace_id job_id) w =
      let w = tick (env.count idempotency_hits) w in
      let (found, w) = on_cache (cache.get (claim_key rt req)) w in
      (reading req trace_id (if or_empty found == "" then job_id else or_empty found), w)
  advance (reading req trace_id id) w =
      let (existing, w) = on_store (jobs.get_by_id id) w in
      (
        replied (
            ok (record {
              job = or_stub existing (stub_job id req.job_type (effective_key rt req) trace_id);
              duplicate = true;
            })),
        w,
      )
  advance (replied r) w = (replied r, w)

  -- A request that nothing interrupts.
  unfoldable pub advance_times : ℕ → Request → World Q S C E → Request × World Q S C E
  advance_times zero r w = (r, w)
  advance_times (suc n) r w = let (r', w') = advance r w in advance_times n r' w'

-- Answered as fresh.
abbrev pub accepted : Result EnqueueResult → ℕ
accepted (ok res) = if res.duplicate then 0 else 1
accepted (err e) = 0

-- A request that has claimed its key and has not released it, be it answered or not.
abbrev pub claims : Request → ℕ
claims (fresh req trace_id id) = 1
claims (queueing req job) = 1
claims (releasing req e) = 1
claims (replied r) = accepted r
claims other = 0

module _ {Q S C E : Type 0} (queue : Queue Q) (jobs : JobRepository S) (cache : Cache C)
    (env : Env E) (rt : Runtime) (cfg : GatewayConfig) (view : C → String → Option String)
    (key : String) where
  abbrev pub claim_of : World Q S C E → Option String
  claim_of w = view w.cache key

  -- The system of the requests with one claim: the rest of the system leaves the claim alone, which may
  -- run out.
  abbrev pub requests : System (World Q S C E) Request
  requests = record {
    advance = advance queue jobs cache env rt cfg;
    counts = λ r. 0;
    Start = λ r. (req : EnqueueRequest) × (claim_key rt req ≡ key) × (r ≡ received req);
    Frame = λ w v. claim_of v ≡ claim_of w;
    Expiry = λ w v. claim_of v ≡ none;
  }
