-- ===== src/Service/Gateway/Idempotent.antt =====
-- internal/service/gateway_service.go: a request whose key was claimed gets the first job's id, and
-- queues nothing.
use ingress_api_gateway.Prelude.{
  String, ◌≡◌, ap, Bool, true, false, Option, none, some, arith, ◌==◌, eq_refl,
}
use ingress_api_gateway.Domain.Result.{Result, ok, err}
use ingress_api_gateway.Domain.Job.{job_type_valid, new_job}
use ingress_api_gateway.Domain.Ports.{
  Queue, Cache, JobRepository, Env, Runtime, World, EnqueueRequest, EnqueueResult,
}
use ingress_api_gateway.Domain.Laws.{IsReliable, FindsById}
use ingress_api_gateway.Service.Gateway.{GatewayConfig, claim_with, enqueue, claim_key}

abbrev pub answered_id : Result EnqueueResult → Option String
answered_id (ok res) = some res.job.id
answered_id (err e) = none

abbrev pub is_duplicate : Result EnqueueResult → Bool
is_duplicate (ok res) = res.duplicate
is_duplicate (err e) = false

module _ {Q S C E : Type 0} (queue : Queue Q) (jobs : JobRepository S) (cache : Cache C)
    (env : Env E) (rt : Runtime) (cfg : GatewayConfig) (view : C → String → Option String)
    (reliable : IsReliable cache view) where
  claim_fresh :
      (req : EnqueueRequest) (trace_id job_id : String) (w : World Q S C E) (res : EnqueueResult)
      → (claim_with queue jobs cache env rt cfg req trace_id job_id w).0 ≡ ok res
      → res.duplicate ≡ false
      → view
          (claim_with queue jobs cache env rt cfg req trace_id job_id w).1.cache
          (claim_key rt req)
        ≡ some res.job.id
  unfolding claim_with new_job
  claim_fresh req trace_id job_id w res h fresh =
      grind (arith, reliable.set_nx_reply, reliable.set_nx_view, reliable.get_reply, eq_refl)

  -- A fresh request leaves its job's id under its claim.
  pub enqueue_claims :
      (req : EnqueueRequest) (w : World Q S C E) (res : EnqueueResult)
      → (enqueue queue jobs cache env rt cfg req w).0 ≡ ok res
      → res.duplicate ≡ false
      → view (enqueue queue jobs cache env rt cfg req w).1.cache (claim_key rt req)
        ≡ some res.job.id
  unfolding enqueue
  enqueue_claims req w res h fresh = grind (arith, claim_fresh)

  enqueue_taken :
      (req : EnqueueRequest) (id : String) (w : World Q S C E)
      → job_type_valid req.job_type ≡ true
      → (req.payload == "") ≡ false
      → rt.json_valid req.payload ≡ true
      → view w.cache (claim_key rt req) ≡ some id
      → (id == "") ≡ false
      → FindsById jobs
      → let out = enqueue queue jobs cache env rt cfg req w in
        (answered_id out.0 ≡ some id) × (is_duplicate out.0 ≡ true) × (out.1.queue ≡ w.queue)
  unfolding enqueue claim_with
  enqueue_taken req id w valid full json h ne finds =
      grind (arith, reliable.set_nx_reply, reliable.set_nx_view, reliable.get_reply, finds, eq_refl)

  -- With a reliable cache and a repository that finds jobs by their id: after a request was answered
  -- as fresh, with a job id that is not empty, and while the cache keeps its claim, a valid request
  -- with the same claim is answered with that job's id, marked as a duplicate, and queues nothing.
  pub enqueue-enqueue :
      (req req' : EnqueueRequest) (w v : World Q S C E) (res : EnqueueResult)
      → (enqueue queue jobs cache env rt cfg req w).0 ≡ ok res
      → res.duplicate ≡ false
      → (res.job.id == "") ≡ false
      → view v.cache (claim_key rt req)
        ≡ view (enqueue queue jobs cache env rt cfg req w).1.cache (claim_key rt req)
      → claim_key rt req' ≡ claim_key rt req
      → job_type_valid req'.job_type ≡ true
      → (req'.payload == "") ≡ false
      → rt.json_valid req'.payload ≡ true
      → FindsById jobs
      → let out = enqueue queue jobs cache env rt cfg req' v in
        (answered_id out.0 ≡ some res.job.id)
        × (is_duplicate out.0 ≡ true)
        × (out.1.queue ≡ v.queue)
  enqueue-enqueue req req' w v res first fresh named kept same valid full json finds =
      enqueue_taken req' res.job.id v valid full json
        (cc (ap (view v.cache) same, kept, enqueue_claims req w res first fresh)) named finds
