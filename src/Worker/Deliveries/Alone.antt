-- ===== src/Worker/Deliveries/Alone.antt =====
-- internal/worker/pool.go: the steps of a delivery are those of `process`.
use ingress_api_gateway.Prelude.{◌≡◌, refl, List, Option-cases, Bool-cases, inl, inr}
use ingress_api_gateway.Domain.Job.{Job}
use ingress_api_gateway.Domain.Ports.{
  Queue, Cache, JobRepository, Env, Runtime, World, Processor, tick, workers_active_inc,
}
use ingress_api_gateway.Worker.Pool.{
  RetryConfig, process, run_locked, run_guarded, find_processor, done_key, lock_key, lock_ttl,
  is_done, is_acquired, now,
}
use ingress_api_gateway.Worker.Deliveries.{arrived, over, advance, advance_times}

module _ {Q S C E : Type 0} (queue : Queue Q) (jobs : JobRepository S) (cache : Cache C)
    (env : Env E) (rt : Runtime) (cfg : RetryConfig)
    (registry : List (Processor (World Q S C E))) where
  -- A delivery that no other goroutine interrupts ends after eight steps, with the outcome and the
  -- world of `process`.
  pub advance_times-process :
      (job : Job) (w : World Q S C E)
      → advance_times queue jobs cache env rt cfg registry 8 (arrived job) w ≡ (
        over (process queue jobs cache env rt cfg registry job w).0,
        (process queue jobs cache env rt cfg registry job w).1,
      )
  unfolding process run_guarded run_locked advance_times advance
  advance_times-process job w =
      let (begin, w1) = now queue jobs cache env rt cfg (tick (env.count workers_active_inc) w) in
      elim (Option-cases (find_processor registry job.job_type)) [
        | inl p ↦ rw p refl
        | inr (proc, p) ↦ elim (Bool-cases (is_done (cache.get (done_key job) w1.cache).0)) [
          | inl q ↦ rw (p, q) refl
          | inr n ↦
              elim (Bool-cases (
                is_acquired
                  (cache.set_nx (lock_key job) "1" lock_ttl
                    (cache.get (done_key job) w1.cache).1).0)) [
                      | inl q ↦ rw (p, n, q) refl
                      | inr m ↦ rw (p, n, m) refl
                    ]
        ]
      ]
