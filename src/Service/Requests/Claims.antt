-- ===== src/Service/Requests/Claims.antt =====
-- internal/service/gateway_service.go: the claim of an idempotency key, with several requests for it.
use mathlib.Core.Path.{subst}
use ingress_api_gateway.Prelude.{
  ◌+◌, ◌≤◌, ◌≡◌, refl, sym, ap, inl, inr, String, Bool, true, false, not, ◌||◌, Option, none, ◌==◌,
  eq_refl, arith, Bool-cases, total,
}
use ingress_api_gateway.Interleaving.{State, Reach, nobody}
use ingress_api_gateway.Interleaving.Semaphore.{bit, IsKeyStep, key_kept, Reach-total}
use ingress_api_gateway.Domain.Result.{Result, ok, err}
use ingress_api_gateway.Domain.Job.{Job, job_type_valid, new_job}
use ingress_api_gateway.Domain.Laws.{IsReliable}
use ingress_api_gateway.Domain.Ports.{
  Queue, Cache, JobRepository, Env, Runtime, World, EnqueueRequest,
}
use ingress_api_gateway.Service.Gateway.{GatewayConfig, claim_key, effective_key}
use ingress_api_gateway.Service.Requests.{
  Request, received, claiming, fresh, looking, reading, queueing, releasing, replied, advance,
  claims, claim_of, requests, on_claim, on_create, on_push,
}

module _ {Q S C E : Type 0} (queue : Queue Q) (jobs : JobRepository S) (cache : Cache C)
    (env : Env E) (rt : Runtime) (cfg : GatewayConfig) (view : C → String → Option String)
    (reliable : IsReliable cache view) (key : String) where
  abbrev held_by : World Q S C E → Option String
  held_by = claim_of queue jobs cache env rt cfg view key

  abbrev Sees : EnqueueRequest → Type 0
  Sees req = claim_key rt req ≡ key

  -- A request for the key.
  abbrev IsForKey : Request → Type 0
  IsForKey (received req) = Sees req
  IsForKey (claiming req trace_id id) = Sees req
  IsForKey (fresh req trace_id id) = Sees req
  IsForKey (looking req trace_id id) = Sees req
  IsForKey (reading req trace_id id) = Sees req
  IsForKey (queueing req job) = Sees req
  IsForKey (releasing req e) = Sees req
  IsForKey (replied r) = Unit

  abbrev next : Request → World Q S C E → Request × World Q S C E
  next = advance queue jobs cache env rt cfg

  starts-IsForKey :
      (r : Request) → (requests queue jobs cache env rt cfg view key).Start r → IsForKey r
  starts-IsForKey r (req, same, e) = subst IsForKey (sym e) same

  on_claim-IsForKey :
      (req : EnqueueRequest) (trace_id id : String) (r : Result Bool)
      → Sees req
      → IsForKey (on_claim queue jobs cache env rt cfg req trace_id id r)
  on_claim-IsForKey req trace_id id (ok true) h = h
  on_claim-IsForKey req trace_id id (ok false) h = h
  on_claim-IsForKey req trace_id id (err e) h = tt

  on_create-IsForKey :
      (req : EnqueueRequest) (job : Job) (r : Result (Unit {0}))
      → Sees req
      → IsForKey (on_create queue jobs cache env rt cfg req job r)
  on_create-IsForKey req job (ok u) h = h
  on_create-IsForKey req job (err e) h = h

  on_push-IsForKey :
      (req : EnqueueRequest) (job : Job) (r : Result (Unit {0}))
      → Sees req
      → IsForKey (on_push queue jobs cache env rt cfg req job r)
  on_push-IsForKey req job (ok u) h = tt
  on_push-IsForKey req job (err e) h = h

  advance-IsForKey : (r : Request) (w : World Q S C E) → IsForKey r → IsForKey (next r w).0
  unfolding advance
  advance-IsForKey (received req) w h = elim (Bool-cases (not (job_type_valid req.job_type))) [
    | inl p ↦ rw p tt
    | inr n ↦ elim (Bool-cases (req.payload == "" || not (rt.json_valid req.payload))) [
      | inl q ↦ rw (n, q) tt
      | inr m ↦ rw (n, m) h
    ]
  ]
  advance-IsForKey (claiming req trace_id id) w h = on_claim-IsForKey req trace_id id _ h
  advance-IsForKey (fresh req trace_id id) w h =
      let job =
        new_job (env.now w.env).0 id req.job_type req.payload (effective_key rt req) trace_id
          cfg.max_retries in
      on_create-IsForKey req job _ h
  advance-IsForKey (looking req trace_id id) w h = h
  advance-IsForKey (reading req trace_id id) w h = tt
  advance-IsForKey (queueing req job) w h = on_push-IsForKey req job _ h
  advance-IsForKey (releasing req e) w h = tt
  advance-IsForKey (replied r) w h = tt

  advance-claim :
      (r : Request) (w : World Q S C E)
      → IsForKey r
      → IsKeyStep (claims r) (claims (next r w).0) (held_by w) (held_by (next r w).1)
  unfolding advance
  advance-claim (received req) w h = ground arith
  advance-claim (claiming req trace_id id) w h =
      grind (arith, reliable.set_nx_view, reliable.set_nx_reply, eq_refl)
  advance-claim (fresh req trace_id id) w h = ground arith
  advance-claim (looking req trace_id id) w h =
      key_kept 0 (reliable.get_view (claim_key rt req) w.cache key)
  advance-claim (reading req trace_id id) w h = key_kept 0 refl
  advance-claim (queueing req job) w h = ground arith
  advance-claim (releasing req e) w h = grind (arith, reliable.del_view, eq_refl)
  advance-claim (replied r) w h = key_kept _ refl

  -- With a reliable cache and a claim that is free before the first request for it: however the
  -- requests for the claim interleave with each other and with the rest of the system, the requests
  -- that are answered as fresh, with those that have taken the claim and are not answered yet, are at
  -- most as many as the claim has run out, and one more while it is set. While it is set there is one
  -- such request at least, so that no claim is left behind by requests that failed.
  pub Reach-claims :
      (w : World Q S C E) (s : State (World Q S C E) Request)
      → held_by w ≡ none
      → Reach (requests queue jobs cache env rt cfg view key) (nobody w) s
      → (total claims s.places ≤ s.expiries + bit (held_by s.world))
        × (bit (held_by s.world) ≤ total claims s.places)
  Reach-claims w s free r =
      Reach-total (requests queue jobs cache env rt cfg view key) IsForKey starts-IsForKey
        advance-IsForKey held_by claims (λ r (req, same, e). ap claims e) advance-claim (λ w v f. f)
        (λ w v f. f) w s free r
