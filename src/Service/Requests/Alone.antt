-- ===== src/Service/Requests/Alone.antt =====
-- internal/service/gateway_service.go: the steps of a request are those of `Enqueue`.
use ingress_api_gateway.Prelude.{ℕ, String, ◌≡◌, refl, Bool-cases, inl, inr, ◌==◌, not, ◌||◌}
use ingress_api_gateway.Domain.Result.{Result, Result-cases}
use ingress_api_gateway.Domain.Job.{job_type_valid, new_job}
use ingress_api_gateway.Domain.Ports.{
  Queue, Cache, JobRepository, Env, Runtime, World, EnqueueRequest, EnqueueResult,
}
use ingress_api_gateway.Service.Gateway.{
  GatewayConfig, enqueue, claim, claim_with, enqueue_fresh, enqueue_duplicate, claim_key,
  effective_key,
}
use ingress_api_gateway.Service.Requests.{
  Request, received, claiming, fresh, looking, replied, advance, advance_times,
}

module _ {Q S C E : Type 0} (queue : Queue Q) (jobs : JobRepository S) (cache : Cache C)
    (env : Env E) (rt : Runtime) (cfg : GatewayConfig) where
  abbrev steps : ℕ → Request → World Q S C E → Request × World Q S C E
  steps = advance_times queue jobs cache env rt cfg

  abbrev answer : Result EnqueueResult × World Q S C E → Request × World Q S C E
  answer (r, w) = (replied r, w)

  looking_ends :
      (req : EnqueueRequest) (trace_id id : String) (w : World Q S C E)
      → steps 3 (looking req trace_id id) w
        ≡ answer (enqueue_duplicate queue jobs cache env rt cfg req trace_id id w)
  unfolding advance_times advance enqueue_duplicate
  looking_ends req trace_id id w = refl

  fresh_ends :
      (req : EnqueueRequest) (trace_id id : String) (w : World Q S C E)
      → steps 3 (fresh req trace_id id) w
        ≡ answer (enqueue_fresh queue jobs cache env rt cfg req trace_id id w)
  unfolding advance_times advance enqueue_fresh
  fresh_ends req trace_id id w =
      let job =
        new_job (env.now w.env).0 id req.job_type req.payload (effective_key rt req) trace_id
          cfg.max_retries in
      elim (Result-cases (jobs.create job w.store).0) [
        | inr (e, p) ↦ rw p refl
        | inl (u, p) ↦ elim (Result-cases (queue.push job w.queue).0) [
          | inr (e, q) ↦ rw (p, q) refl
          | inl (v, q) ↦ rw (p, q) refl
        ]
      ]

  claiming_ends :
      (req : EnqueueRequest) (trace_id id : String) (w : World Q S C E)
      → steps 4 (claiming req trace_id id) w
        ≡ answer (claim_with queue jobs cache env rt cfg req trace_id id w)
  unfolding advance_times advance claim_with
  claiming_ends req trace_id id w =
      let taken = cache.set_nx (claim_key rt req) id cfg.idempotency_ttl w.cache in
      let v : World Q S C E = record w { cache = taken.1 } in
      elim (Result-cases taken.0) [
        | inr (e, p) ↦ rw p refl
        | inl (free, p) ↦ elim (Bool-cases free) [
          | inl q ↦ rw (p, q) (fresh_ends req trace_id id v)
          | inr q ↦ rw (p, q) (looking_ends req trace_id id v)
        ]
      ]

  -- A request that no other goroutine interrupts is answered after five steps, with the answer and the
  -- world of `Enqueue`.
  pub advance_times-enqueue :
      (req : EnqueueRequest) (w : World Q S C E)
      → advance_times queue jobs cache env rt cfg 5 (received req) w ≡ (
        replied (enqueue queue jobs cache env rt cfg req w).0,
        (enqueue queue jobs cache env rt cfg req w).1,
      )
  unfolding advance_times advance enqueue claim
  advance_times-enqueue req w = elim (Bool-cases (not (job_type_valid req.job_type))) [
    | inl p ↦ rw p refl
    | inr n ↦ elim (Bool-cases (req.payload == "" || not (rt.json_valid req.payload))) [
      | inl q ↦ rw (n, q) refl
      | inr m ↦ elim (Bool-cases (req.trace_id == "")) [
        | inl r ↦ rw (n, m, r) (claiming_ends req _ _ _)
        | inr r ↦ rw (n, m, r) (claiming_ends req _ _ _)
      ]
    ]
  ]
