-- ===== src/Service/Gateway.antt =====
-- internal/service/gateway_service.go: `Enqueue`, over any queue, job repository and cache. Log
-- lines are left out.
pub mod Accepts
pub mod Idempotent
pub mod Failures
pub mod Keys
use ingress_api_gateway.Prelude.{
  ℕ, ◌*◌, String, Bool, true, false, not, ◌||◌, Option, none, some, ◌==◌, if◌then◌else◌,
}
use ingress_api_gateway.Prelude.Int.{ℤ, pos, is_positive}
use ingress_api_gateway.Domain.Error.{
  Error, sentinel, wrap, err_invalid_payload, err_unknown_job_type,
}
use ingress_api_gateway.Domain.Result.{
  Result, ok, err, Act, pure, fail, catch, map_error, ignore, ◌>>=◌, ◌>>◌,
}
use ingress_api_gateway.Domain.Job.{Job, JobType, job_type_valid, job_status_queued, new_job}
use ingress_api_gateway.Domain.Ports.{
  Queue, Cache, JobRepository, Env, Metric, idempotency_hits, Runtime, World, on_queue, on_store,
  on_cache, on_env, tick, EnqueueRequest, EnqueueResult,
}
use ingress_api_gateway.Service.Idempotency.{payload_hash, idempotency_redis_key}

-- Durations are whole nanoseconds.
pub record GatewayConfig : Type 0 where
  pub max_retries : ℤ
  pub idempotency_ttl : ℤ

abbrev pub hour : ℕ
hour = 3600000000000

-- The defaults of `NewGatewayService`.
unfoldable pub new_gateway_config : GatewayConfig → GatewayConfig
new_gateway_config cfg = record {
  max_retries = if is_positive cfg.max_retries then cfg.max_retries else pos 5;
  idempotency_ttl =
      if is_positive cfg.idempotency_ttl then cfg.idempotency_ttl else pos (24 * hour);
}

-- The stub that stands in for a job that cannot be read: every field not set is Go's zero value.
abbrev pub stub_job : String → JobType → String → String → Job
stub_job id t key trace_id = record {
  id = id;
  job_type = t;
  payload = "";
  status = job_status_queued;
  retry_count = pos 0;
  max_retries = pos 0;
  priority = "";
  idempotency_key = key;
  trace_id = trace_id;
  error_message = "";
  created_at = 0;
  updated_at = 0;
  processed_at = none;
}

abbrev pub or_empty : Result (Option String) → String
or_empty (ok (some v)) = v
or_empty (ok none) = ""
or_empty (err e) = ""

abbrev pub or_stub : Result Job → Job → Job
or_stub (ok job) stub = job
or_stub (err e) stub = stub

module _ {Q S C E : Type 0} where
  -- Releases the claimed key when a later step has failed, so that a retry can succeed.
  abbrev pub release :
      Cache C
      → String
      → String
      → Result (Unit {0}) × World Q S C E
      → Result (Unit {0}) × World Q S C E
  release cache redis_key before (ok _, w) = (ok tt, w)
  release cache redis_key before (err e, w) =
      (err (wrap before e ""), ignore (on_cache (cache.del redis_key)) w)

-- The key of a request: the client's, or the hash of its payload.
unfoldable pub effective_key : Runtime → EnqueueRequest → String
unfolding payload_hash
effective_key rt req =
    if req.idempotency_key == ""
    then payload_hash rt.sha256_hex req.job_type req.payload
    else req.idempotency_key

abbrev pub claim_key : Runtime → EnqueueRequest → String
claim_key rt req = idempotency_redis_key req.job_type (effective_key rt req)

module _ {Q S C E : Type 0} (queue : Queue Q) (jobs : JobRepository S) (cache : Cache C)
    (env : Env E) (rt : Runtime) (cfg : GatewayConfig) where
  -- The branch of a claim that was already taken.
  unfoldable pub enqueue_duplicate :
      EnqueueRequest → String → String → Act (World Q S C E) EnqueueResult
  enqueue_duplicate req trace_id job_id w =
      (do
        found ← catch (on_cache (cache.get (claim_key rt req)))
        let existing_id = if or_empty found == "" then job_id else or_empty found
        existing ← catch (on_store (jobs.get_by_id existing_id))
        pure (record {
          job =
              or_stub existing (stub_job existing_id req.job_type (effective_key rt req) trace_id);
          duplicate = true;
        }))
        (tick (env.count idempotency_hits) w)

  -- The branch of a fresh claim: persist, then queue.
  unfoldable pub enqueue_fresh :
      EnqueueRequest → String → String → Act (World Q S C E) EnqueueResult
  enqueue_fresh req trace_id job_id = do
    now ← on_env env.now
    let job =
        new_job now job_id req.job_type req.payload (effective_key rt req) trace_id cfg.max_retries
    (λ w. release cache (claim_key rt req) "persist job: " (on_store (jobs.create job) w))
    (λ w. release cache (claim_key rt req) "queue job: " (on_queue (queue.push job) w))
    pure (record { job = job; duplicate = false })

  abbrev pub trace_or_new : String → Act (World Q S C E) String
  trace_or_new trace_id w = if trace_id == "" then on_env env.new_uuid w else pure trace_id w

  -- Claims the key atomically, and goes on by whether it was free.
  unfoldable pub claim_with : EnqueueRequest → String → String → Act (World Q S C E) EnqueueResult
  unfolding enqueue_fresh enqueue_duplicate
  claim_with req trace_id job_id = do
    fresh ←
        map_error (λ e. wrap "idempotency claim: " e "")
          (on_cache (cache.set_nx (claim_key rt req) job_id cfg.idempotency_ttl))
    λ w.
        if fresh
        then enqueue_fresh req trace_id job_id w
        else enqueue_duplicate req trace_id job_id w

  unfoldable pub claim : EnqueueRequest → Act (World Q S C E) EnqueueResult
  claim req = do
    trace_id ← trace_or_new req.trace_id
    job_id ← on_env env.new_uuid
    claim_with req trace_id job_id

  unfoldable pub enqueue : EnqueueRequest → Act (World Q S C E) EnqueueResult
  unfolding claim
  enqueue req w =
      if not (job_type_valid req.job_type)
      then fail (sentinel err_unknown_job_type) w
      else if req.payload == "" || not (rt.json_valid req.payload)
      then fail (wrap "" (sentinel err_invalid_payload) ": body must be valid JSON") w
      else claim req w
