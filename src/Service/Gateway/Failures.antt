-- ===== src/Service/Gateway/Failures.antt =====
-- internal/service/gateway_service.go: what a request that is refused or fails leaves behind.
use ingress_api_gateway.Prelude.{
  String, ◌≡◌, false, not, ◌&&◌, Option, none, arith, ◌==◌, eq_refl, eq_iff,
}
use ingress_api_gateway.Domain.Error.{Error, err_unknown_job_type, err_invalid_payload, is_error}
use ingress_api_gateway.Domain.Result.{err, fails_with}
use ingress_api_gateway.Domain.Job.{job_type_valid}
use ingress_api_gateway.Domain.Ports.{
  Queue, Cache, JobRepository, Env, Runtime, World, EnqueueRequest,
}
use ingress_api_gateway.Domain.Laws.{IsReliable}
use ingress_api_gateway.Service.Gateway.{GatewayConfig, claim_with, enqueue, claim_key}

module _ {Q S C E : Type 0} (queue : Queue Q) (jobs : JobRepository S) (cache : Cache C)
    (env : Env E) (rt : Runtime) (cfg : GatewayConfig) where
  -- A request of an unknown type, or whose payload is empty or no JSON, is refused with
  -- ErrUnknownJobType or ErrInvalidPayload, and changes nothing at all.
  pub enqueue_refuses :
      (req : EnqueueRequest) (w : World Q S C E)
      → (job_type_valid req.job_type && (not (req.payload == "") && rt.json_valid req.payload))
        ≡ false
      → let out = enqueue queue jobs cache env rt cfg req w in
        (out.1 ≡ w)
        × (fails_with out.0 err_unknown_job_type ≡ not (job_type_valid req.job_type))
        × (fails_with out.0 err_invalid_payload ≡ job_type_valid req.job_type)
  unfolding enqueue is_error
  enqueue_refuses req w h = ground arith

  -- With a reliable cache, a request whose claim was free and that fails leaves every key of the cache as
  -- it was, its claim included.
  pub enqueue_fails_clean :
      (view : C → String → Option String) (reliable : IsReliable cache view) (req : EnqueueRequest)
      (w : World Q S C E) (e : Error) (key : String)
      → (enqueue queue jobs cache env rt cfg req w).0 ≡ err e
      → view w.cache (claim_key rt req) ≡ none
      → view (enqueue queue jobs cache env rt cfg req w).1.cache key ≡ view w.cache key
  unfolding enqueue claim_with
  enqueue_fails_clean view reliable req w e key h free =
      grind (arith, reliable.set_nx_reply, reliable.set_nx_view, reliable.del_view, eq_refl, eq_iff)
