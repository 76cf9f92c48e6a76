-- ===== src/Service/Requests/Agreement.antt =====
-- internal/service/gateway_service.go: each request step keeps to the job under its claim.
use mathlib.Core.Path.{subst}
use ingress_api_gateway.Prelude.{
  ◌≡◌, refl, sym, ap, ◌∙◌, ◌⊎◌, inl, inr, String, Bool, true, false, not, ◌||◌, Option, none, some,
  ◌==◌, eq_iff, arith, Bool-cases, Option-cases,
}
use ingress_api_gateway.Domain.Result.{Result, Result-cases, ok, err}
use ingress_api_gateway.Domain.Job.{Job, job_type_valid, new_job}
use ingress_api_gateway.Domain.Laws.{IsReliable, FindsById, is_none, some_or}
use ingress_api_gateway.Domain.Ports.{
  Queue, Cache, JobRepository, Env, Runtime, World, EnqueueRequest,
}
use ingress_api_gateway.Service.Gateway.{GatewayConfig, claim_key, effective_key}
use ingress_api_gateway.Service.Requests.{
  Request, received, claiming, fresh, looking, reading, queueing, releasing, replied, advance,
  claim_of, on_claim,
}

abbrev pub IsNamed : Option String → Type 0
IsNamed none = Unit
IsNamed (some id) = (id == "") ≡ false

module _ (rt : Runtime) (key : String) where
  abbrev Sees : EnqueueRequest → Type 0
  Sees req = claim_key rt req ≡ key

  -- A request for the key that knows no other job than the one under the claim.
  abbrev pub Agrees : Option String → Request → Type 0
  Agrees o (received req) = Sees req
  Agrees o (claiming req trace_id id) = Sees req × ((id == "") ≡ false)
  Agrees o (fresh req trace_id id) = Sees req × (o ≡ some id)
  Agrees o (queueing req job) = Sees req × (o ≡ some job.id)
  Agrees o (looking req trace_id id) = Sees req × (is_none o ≡ false)
  Agrees o (reading req trace_id id) = o ≡ some id
  Agrees o (releasing req e) = true ≡ false
  Agrees o (replied (ok res)) = o ≡ some res.job.id
  Agrees o (replied (err e)) = Unit

  -- While the claim is free, nobody knows a job.
  pub Agrees-none : (o : Option String) (r : Request) → Agrees none r → Agrees o r
  Agrees-none o (received req) h = h
  Agrees-none o (claiming req trace_id id) h = h
  Agrees-none o (fresh req trace_id id) h = absurd (ground (arith, h.1))
  Agrees-none o (queueing req job) h = absurd (ground (arith, h.1))
  Agrees-none o (looking req trace_id id) h = absurd (ground (arith, h.1))
  Agrees-none o (reading req trace_id id) h = absurd (ground arith)
  Agrees-none o (releasing req e) h = h
  Agrees-none o (replied (ok res)) h = absurd (ground arith)
  Agrees-none o (replied (err e)) h = h

  pub record IsAgreeing (old new : Option String) (r : Request) : Type 0 where
    pub agrees : Agrees new r
    pub is_named : IsNamed new
    pub kept : (new ≡ old) ⊎ (old ≡ none)

  unchanged :
      (old new : Option String) (r : Request)
      → new ≡ old
      → IsNamed old
      → Agrees old r
      → IsAgreeing old new r
  unchanged old new r e n a = record {
    agrees = subst (λ o. Agrees o r) (sym e) a;
    is_named = subst IsNamed (sym e) n;
    kept = inl e;
  }

module _ {Q S C E : Type 0} (queue : Queue Q) (jobs : JobRepository S) (cache : Cache C)
    (env : Env E) (rt : Runtime) (cfg : GatewayConfig) (view : C → String → Option String)
    (reliable : IsReliable cache view) (key : String) (finds : FindsById jobs)
    (stores : (job : Job) (s : S) → (jobs.create job s).0 ≡ ok tt)
    (queues : (job : Job) (q : Q) → (queue.push job q).0 ≡ ok tt)
    (named : (e : E) → ((env.new_uuid e).0 == "") ≡ false) where
  abbrev pub held_by : World Q S C E → Option String
  held_by = claim_of queue jobs cache env rt cfg view key

  abbrev next : Request → World Q S C E → Request × World Q S C E
  next = advance queue jobs cache env rt cfg

  claimed :
      (req : EnqueueRequest) (trace_id id : String) (o new : Option String) (r : Result Bool)
      → r ≡ ok (is_none o)
      → new ≡ some_or o id
      → Agrees rt key o (claiming req trace_id id)
      → IsNamed o
      → IsAgreeing rt key o new (on_claim queue jobs cache env rt cfg req trace_id id r)
  claimed req trace_id id none new r reply set a n =
      rw reply
        (record { agrees = (a.0, set); is_named = subst IsNamed (sym set) a.1; kept = inr refl })
  claimed req trace_id id (some x) new r reply set a n =
      rw reply (unchanged rt key (some x) new (looking req trace_id id) set n (a.0, refl))

  claiming_agrees :
      (req : EnqueueRequest) (trace_id id : String) (w : World Q S C E) (o : Option String)
      → held_by w ≡ o
      → Agrees rt key o (claiming req trace_id id)
      → IsNamed o
      → IsAgreeing rt key o
          (held_by (next (claiming req trace_id id) w).1)
          (next (claiming req trace_id id) w).0
  unfolding advance
  claiming_agrees req trace_id id w o e a n =
      let k = claim_key rt req in
      let old : view w.cache k ≡ o = ap (view w.cache) a.0 ∙ e in
      let reply =
        reliable.set_nx_reply k id cfg.idempotency_ttl w.cache ∙ ap (λ u. ok (is_none u)) old in
      let new : view (cache.set_nx k id cfg.idempotency_ttl w.cache).1 key ≡ some_or o id =
        reliable.set_nx_view k id cfg.idempotency_ttl w.cache key
        ∙ rw ((eq_iff k key).1 a.0) (ap (λ u. some_or u id) old) in
      claimed req trace_id id o _ _ reply new a n

  pub advance-agrees :
      (r : Request) (w : World Q S C E)
      → Agrees rt key (held_by w) r
      → IsNamed (held_by w)
      → IsAgreeing rt key (held_by w) (held_by (next r w).1) (next r w).0
  unfolding advance new_job
  advance-agrees (received req) w a n = elim (Bool-cases (not (job_type_valid req.job_type))) [
    | inl p ↦ rw p (unchanged rt key (held_by w) (held_by w) _ refl n tt)
    | inr m ↦ elim (Bool-cases (req.payload == "" || not (rt.json_valid req.payload))) [
      | inl q ↦ rw (m, q) (unchanged rt key (held_by w) (held_by w) _ refl n tt)
      | inr l ↦ rw (m, l) (unchanged rt key (held_by w) (held_by w) _ refl n (a, named _))
    ]
  ]
  advance-agrees (claiming req trace_id id) w a n =
      claiming_agrees req trace_id id w (held_by w) refl a n
  advance-agrees (fresh req trace_id id) w a n =
      let job =
        new_job (env.now w.env).0 id req.job_type req.payload (effective_key rt req) trace_id
          cfg.max_retries in
      rw (stores job w.store) (unchanged rt key (held_by w) (held_by w) (queueing req job) refl n a)
  advance-agrees (looking req trace_id id) w a n =
      let k = claim_key rt req in
      let reply = reliable.get_reply k w.cache ∙ ap (λ i. ok (view w.cache i)) a.0 in
      let same = reliable.get_view k w.cache key in
      elim (Option-cases (view w.cache key)) [
        | inl p ↦ absurd (ground (arith, a.1))
        | inr (x, p) ↦
            let some_id : (x == "") ≡ false = subst IsNamed p n in
            rw (reply, p, some_id)
              (unchanged rt key (some x) _ (reading req trace_id x) (same ∙ p) some_id refl)
      ]
  advance-agrees (reading req trace_id id) w a n =
      elim (Result-cases (jobs.get_by_id id w.store).0) [
        | inl (job, p) ↦ rw p (
            unchanged rt key (held_by w) (held_by w) _ refl n
              (a ∙ ap some (sym (finds id w.store job p))))
        | inr (e, p) ↦ rw p (unchanged rt key (held_by w) (held_by w) _ refl n a)
      ]
  advance-agrees (queueing req job) w a n =
      rw (queues job w.queue) (unchanged rt key (held_by w) (held_by w) _ refl n a.1)
  advance-agrees (releasing req e) w a n = absurd (ground arith)
  advance-agrees (replied r) w a n = unchanged rt key (held_by w) (held_by w) (replied r) refl n a
