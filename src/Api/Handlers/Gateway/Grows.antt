-- ===== src/Api/Handlers/Gateway/Grows.antt =====
-- internal/api/handlers/gateway_handler.go over internal/service: how much a request adds to the queue.
use ingress_api_gateway.Prelude.{ℕ, ◌+◌, ◌≤◌, String, Bool, arith}
use ingress_api_gateway.Domain.Job.{Job, JobType}
use ingress_api_gateway.Domain.Ports.{
  Queue, Cache, JobRepository, Env, Runtime, World, EnqueueRequest,
}
use ingress_api_gateway.Service.Gateway.{GatewayConfig, enqueue, claim_with}
use ingress_api_gateway.Api.Http.{Request}
use ingress_api_gateway.Api.Handlers.Gateway.{accept}

-- A push adds one job, or none if it fails.
pub record AddsOne {Q : Type 0} (queue : Queue Q) (size : Q → ℕ) : Type 0 where
  pub takes_none : (job : Job) (q : Q) → size q ≤ size (queue.push job q).1
  pub adds_one : (job : Job) (q : Q) → size (queue.push job q).1 ≤ size q + 1

module _ {Q S C E : Type 0} (queue : Queue Q) (size : Q → ℕ) (adds : AddsOne queue size)
    (jobs : JobRepository S) (cache : Cache C) (env : Env E) (rt : Runtime)
    (cfg : GatewayConfig) where
  enqueue_grows :
      (req : EnqueueRequest) (w : World Q S C E)
      → let w' = (enqueue queue jobs cache env rt cfg req w).1 in
        (size w.queue ≤ size w'.queue) × (size w'.queue ≤ size w.queue + 1)
  unfolding enqueue claim_with
  enqueue_grows req w = grind (arith, adds.takes_none, adds.adds_one)

  -- A request to a gateway handler adds one job to the queue at most, and takes none off it.
  pub accept_grows :
      (secret : String) (job_type : JobType) (verify_hmac : Bool) (r : Request) (w : World Q S C E)
      → let w' =
          (accept rt (enqueue queue jobs cache env rt cfg) secret job_type verify_hmac r w).1 in
        (size w.queue ≤ size w'.queue) × (size w'.queue ≤ size w.queue + 1)
  unfolding accept
  accept_grows secret job_type verify_hmac r w = grind (arith, enqueue_grows)
