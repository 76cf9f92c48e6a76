-- ===== src/Worker/Deliveries/Overtaken.antt =====
-- internal/worker/pool.go: a delivery that is overtaken between its look at the done marker and its SETNX
-- of the lock.
use ingress_api_gateway.Prelude.{
  ℕ, ◌≡◌, refl, ap, ◌∙◌, String, true, false, Option, none, some, List, ◌<>◌, arith,
}
use ingress_api_gateway.Domain.Job.{Job}
use ingress_api_gateway.Domain.Laws.{IsReliable, is_none}
use ingress_api_gateway.Domain.Ports.{Queue, Cache, JobRepository, Env, Runtime, World, Processor}
use ingress_api_gateway.Worker.Pool.{
  RetryConfig, process, is_done, done_key, lock_key, is_acquired, lock_ttl,
}
use ingress_api_gateway.Worker.Pool.Once.{process_unlocks, process_marks_done}
use ingress_api_gateway.Worker.Deliveries.{checking, claiming, locked, advance}

module _ {Q S C E : Type 0} (queue : Queue Q) (jobs : JobRepository S) (cache : Cache C)
    (env : Env E) (rt : Runtime) (cfg : RetryConfig) (registry : List (Processor (World Q S C E)))
    (view : C → String → Option String) (reliable : IsReliable cache view) where
  -- With a reliable cache, of a job that is neither marked nor locked: if a delivery has looked at the
  -- done marker, and another one of the same id is then processed from its start to its end without a
  -- retry, the first takes the lock and goes on to the processor, although the job is marked by then.
  pub checking-process-claiming :
      (begun : ℕ) (p : Processor (World Q S C E)) (job again : Job) (w : World Q S C E)
      → view w.cache (done_key job) ≡ none
      → view w.cache (lock_key job) ≡ none
      → again.id ≡ job.id
      → let (d, w1) = advance queue jobs cache env rt cfg registry (checking begun p again) w in
        (process queue jobs cache env rt cfg registry job w1).0.retry ≡ none
        → let w2 = (process queue jobs cache env rt cfg registry job w1).1 in
          (d ≡ claiming begun p again)
          × (view w2.cache (done_key again) ≡ some "1")
          × ((advance queue jobs cache env rt cfg registry d w2).0 ≡ locked begun p again)
  unfolding advance
  checking-process-claiming begun p job again w unmarked free same final =
      let w1 = (advance queue jobs cache env rt cfg registry (checking begun p again) w).1 in
      let kept = reliable.get_view (done_key again) w.cache in
      let fresh : is_done (cache.get (done_key again) w.cache).0 ≡ false =
        grind (arith, reliable.get_reply) in
      let mark =
        process_marks_done queue jobs cache env rt cfg view reliable registry job w1
          (kept (done_key job) ∙ unmarked) (kept (lock_key job) ∙ free) final in
      let unlocked =
        process_unlocks queue jobs cache env rt cfg view reliable registry job w1
          (kept (lock_key job) ∙ free) in
      let v = (process queue jobs cache env rt cfg registry job w1).1 in
      let acquired : is_acquired (cache.set_nx (lock_key again) "1" lock_ttl v.cache).0 ≡ true =
        ap is_acquired (reliable.set_nx_reply (lock_key again) "1" lock_ttl v.cache)
        ∙ ap is_none (ap (λ i. view v.cache ("job:lock:" <> i)) same ∙ unlocked) in
      rw fresh (refl, ap (λ i. view v.cache ("job:done:" <> i)) same ∙ mark, rw acquired refl)
