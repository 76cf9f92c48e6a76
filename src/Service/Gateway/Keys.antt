-- ===== src/Service/Gateway/Keys.antt =====
-- internal/service/gateway_service.go: the keys of the cache that `Enqueue` leaves alone.
use Prim.Native.String.{count}
use text.Mathlib.TextLemmas.{append_assoc}
use ingress_api_gateway.Prelude.{String, ◌≡◌, refl, false, Option, ◌<>◌, ◌==◌, arith, ne_prefix}
use ingress_api_gateway.Domain.Laws.{IsReliable}
use ingress_api_gateway.Domain.Ports.{
  Queue, Cache, JobRepository, Env, Runtime, World, EnqueueRequest,
}
use ingress_api_gateway.Service.Idempotency.{idempotency_redis_key}
use ingress_api_gateway.Service.Gateway.{
  GatewayConfig, enqueue, claim_with, claim_key, effective_key,
}

-- A key that starts with another word of four letters than "job:...".
pub key-ne-job :
    (tag more s rest : String)
    → count tag ≡ 4
    → (tag == "job:") ≡ false
    → (((tag <> more) <> s) == ("job:" <> rest)) ≡ false
key-ne-job tag more s rest four other =
    rw (append_assoc tag more s) (ne_prefix tag "job:" (more <> s) rest four other)

-- A key of the workers, which all start with "job:", in either way to write it.
pub job_key_of :
    {V : Type 0} (view : V → String → Option String) (v w : V) (prefix id : String)
    → view v ("job:" <> (prefix <> id)) ≡ view w ("job:" <> (prefix <> id))
    → view v (("job:" <> prefix) <> id) ≡ view w (("job:" <> prefix) <> id)
job_key_of view v w prefix id h = rw (append_assoc "job:" prefix id) h

idemp-ne-job :
    (rt : Runtime) (req : EnqueueRequest) (rest : String)
    → (claim_key rt req == ("job:" <> rest)) ≡ false
unfolding idempotency_redis_key
idemp-ne-job rt req rest =
    key-ne-job "idem" "p:" (req.job_type <> ":" <> effective_key rt req) rest refl refl

-- With a reliable cache, a request leaves the locks and the markers of the workers as they are.
pub enqueue_keeps :
    {Q S C E : Type 0} (queue : Queue Q) (jobs : JobRepository S) (cache : Cache C) (env : Env E)
    (rt : Runtime) (cfg : GatewayConfig) (view : C → String → Option String)
    (reliable : IsReliable cache view) (rest : String) (req : EnqueueRequest) (w : World Q S C E)
    → view (enqueue queue jobs cache env rt cfg req w).1.cache ("job:" <> rest)
      ≡ view w.cache ("job:" <> rest)
unfolding enqueue claim_with
enqueue_keeps queue jobs cache env rt cfg view reliable rest req w =
    grind (arith, reliable.set_nx_view, reliable.get_view, reliable.del_view, idemp-ne-job)
