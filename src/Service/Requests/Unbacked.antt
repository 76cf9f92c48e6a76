-- ===== src/Service/Requests/Unbacked.antt =====
-- internal/service/gateway_service.go: a duplicate whose first request fails in the meantime.
use ingress_api_gateway.Prelude.{
  ◌≡◌, refl, sym, ap, ◌∙◌, String, true, false, Option, none, some, ◌==◌, eq_refl,
}
use ingress_api_gateway.Domain.Error.{Error, wrap}
use ingress_api_gateway.Domain.Result.{ok, err}
use ingress_api_gateway.Domain.Job.{Job, new_job}
use ingress_api_gateway.Domain.Laws.{IsReliable, is_none, some_or}
use ingress_api_gateway.Domain.Ports.{
  Queue, Cache, JobRepository, Env, Runtime, World, EnqueueRequest,
}
use ingress_api_gateway.Service.Gateway.{GatewayConfig, claim_key, effective_key, stub_job}
use ingress_api_gateway.Service.Requests.{Request, claiming, fresh, replied, advance, advance_times}

module _ {Q S C E : Type 0} (queue : Queue Q) (jobs : JobRepository S) (cache : Cache C)
    (env : Env E) (rt : Runtime) (cfg : GatewayConfig) (view : C → String → Option String)
    (reliable : IsReliable cache view) where
  claiming_answers :
      (again : EnqueueRequest) (trace_id id id' : String) (w : World Q S C E) (unknown : Error)
      → view w.cache (claim_key rt again) ≡ some id
      → (id == "") ≡ false
      → (jobs.get_by_id id w.store).0 ≡ err unknown
      → let out = advance_times queue jobs cache env rt cfg 3 (claiming again trace_id id') w in
        (out.0
          ≡ replied (
              ok (record {
                job = stub_job id again.job_type (effective_key rt again) trace_id;
                duplicate = true;
              })))
        × (out.1.queue ≡ w.queue)
        × (out.1.store ≡ (jobs.get_by_id id w.store).1)
  unfolding advance_times advance
  claiming_answers again trace_id id id' w unknown taken named absent =
      let key = claim_key rt again in
      let refused =
        reliable.set_nx_reply key id' cfg.idempotency_ttl w.cache
        ∙ ap (λ o. ok (is_none o)) taken in
      let c = (cache.set_nx key id' cfg.idempotency_ttl w.cache).1 in
      let kept : view c key ≡ some id =
        reliable.set_nx_view key id' cfg.idempotency_ttl w.cache key
        ∙ rw (eq_refl key) (ap (λ o. some_or o id') taken) in
      rw (refused, reliable.get_reply key c ∙ ap ok kept, named, absent) (refl, refl, refl)

  -- With a reliable cache and a repository whose reads, and whose Create when it fails, change no answer
  -- of GetByID: a request has claimed its key with a job id that is not empty and that the repository
  -- does not know yet. If a second request for the key runs to its end before the first one
  -- goes on, it is answered as a duplicate with that id; if the first one's Create then fails, the
  -- first is answered with that error, the claim is free, the queue is as it was and GetByID still does
  -- not find the id: the second request was answered with the id of a job that is neither stored nor
  -- queued.
  pub claiming-fresh-fails :
      (req again : EnqueueRequest) (trace_id trace_id' id id' : String) (w v : World Q S C E)
      (second : Request) (unknown failed : Error)
      → ((i j : String) (s : S)
          → (jobs.get_by_id i (jobs.get_by_id j s).1).0 ≡ (jobs.get_by_id i s).0)
      → ((i : String) (job : Job) (s : S) (e : Error)
          → (jobs.create job s).0 ≡ err e
          → (jobs.get_by_id i (jobs.create job s).1).0 ≡ (jobs.get_by_id i s).0)
      → view w.cache (claim_key rt again) ≡ some id
      → (id == "") ≡ false
      → claim_key rt again ≡ claim_key rt req
      → (jobs.get_by_id id w.store).0 ≡ err unknown
      → advance_times queue jobs cache env rt cfg 3 (claiming again trace_id' id') w ≡ (second, v)
      → (jobs.create
          (new_job
            (env.now v.env).0
            id
            req.job_type
            req.payload
            (effective_key rt req)
            trace_id
            cfg.max_retries)
          v.store).0
        ≡ err failed
      → let (first, u) = advance_times queue jobs cache env rt cfg 3 (fresh req trace_id id) v in
        (second
          ≡ replied (
              ok (record {
                job = stub_job id again.job_type (effective_key rt again) trace_id';
                duplicate = true;
              })))
        × (first ≡ replied (err (wrap "persist job: " failed "")))
        × (view u.cache (claim_key rt req) ≡ none)
        × (u.queue ≡ w.queue)
        × ((jobs.get_by_id id u.store).0 ≡ err unknown)
  unfolding advance_times advance
  claiming-fresh-fails req again trace_id trace_id' id id' w v second unknown failed read_only
        unstored taken named same absent ran fails =
      let (answered, untouched, read) =
        claiming_answers again trace_id' id id' w unknown taken named absent in
      rw fails (
        sym (ap (λ o. o.0) ran) ∙ answered,
        refl,
        reliable.del_view (claim_key rt req) v.cache (claim_key rt req)
            ∙ rw (eq_refl (claim_key rt req)) refl,
        sym (ap (λ o. o.1.queue) ran) ∙ untouched,
        unstored id _ v.store failed fails
            ∙ ap (λ s. (jobs.get_by_id id s).0) (sym (ap (λ o. o.1.store) ran) ∙ read)
            ∙ read_only id id w.store
            ∙ absent,
      )
