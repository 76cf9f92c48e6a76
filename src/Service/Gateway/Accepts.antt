-- ===== src/Service/Gateway/Accepts.antt =====
-- internal/service/gateway_service.go: what an accepted request has done.
use ingress_api_gateway.Prelude.{String, ◌≡◌, true, false, arith}
use ingress_api_gateway.Prelude.Int.{pos}
use ingress_api_gateway.Domain.Result.{ok}
use ingress_api_gateway.Domain.Job.{Job, job_status_queued, priority_for_type, new_job}
use ingress_api_gateway.Domain.Ports.{
  Queue, Cache, JobRepository, Env, Runtime, World, EnqueueRequest, EnqueueResult,
}
use ingress_api_gateway.Service.Gateway.{
  GatewayConfig, enqueue_duplicate, enqueue_fresh, claim_with, enqueue,
}

module _ {Q S C E : Type 0} (queue : Queue Q) (jobs : JobRepository S) (cache : Cache C)
    (env : Env E) (rt : Runtime) (cfg : GatewayConfig) where
  -- What a fresh job that was persisted and queued looks like.
  pub record IsAccepted (req : EnqueueRequest) (w w' : World Q S C E) (job : Job) : Type 0 where
    pub created : (jobs.create job w.store).0 ≡ ok tt
    pub store : w'.store ≡ (jobs.create job w.store).1
    pub pushed : (queue.push job w.queue).0 ≡ ok tt
    pub queue' : w'.queue ≡ (queue.push job w.queue).1
    pub job_type : job.job_type ≡ req.job_type
    pub payload : job.payload ≡ req.payload
    pub status : job.status ≡ job_status_queued
    pub retry_count : job.retry_count ≡ pos 0
    pub max_retries : job.max_retries ≡ cfg.max_retries
    pub priority : job.priority ≡ priority_for_type req.job_type

  enqueue_fresh-IsAccepted :
      (req : EnqueueRequest) (trace_id job_id : String) (w : World Q S C E) (res : EnqueueResult)
      → (enqueue_fresh queue jobs cache env rt cfg req trace_id job_id w).0 ≡ ok res
      → IsAccepted req w (enqueue_fresh queue jobs cache env rt cfg req trace_id job_id w).1 res.job
  unfolding enqueue_fresh new_job
  enqueue_fresh-IsAccepted req trace_id job_id w res h = ground arith

  duplicate_of_enqueue_duplicate :
      (req : EnqueueRequest) (trace_id job_id : String) (w : World Q S C E) (res : EnqueueResult)
      → (enqueue_duplicate queue jobs cache env rt cfg req trace_id job_id w).0 ≡ ok res
      → res.duplicate ≡ true
  unfolding enqueue_duplicate
  duplicate_of_enqueue_duplicate req trace_id job_id w res h = ground arith

  -- A request that is answered as no duplicate has been persisted and then queued, each once and with
  -- success: a job with the request's type and payload, in state QUEUED, without retries, with the
  -- configured limit and the priority of its type.
  pub enqueue-IsAccepted :
      (req : EnqueueRequest) (w : World Q S C E) (res : EnqueueResult)
      → (enqueue queue jobs cache env rt cfg req w).0 ≡ ok res
      → res.duplicate ≡ false
      → IsAccepted req w (enqueue queue jobs cache env rt cfg req w).1 res.job
  unfolding enqueue claim_with new_job
  enqueue-IsAccepted req w res h d = ground arith
