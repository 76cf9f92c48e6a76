-- ===== src/Worker/Pool/Once.antt =====
-- internal/worker/pool.go: the lock and the done marker that guard against duplicate deliveries.
use ingress_api_gateway.Prelude.{
  ℕ, String, ◌≡◌, refl, false, Option, none, some, List, arith, ◌==◌, eq_refl, ne_prefix,
}
use ingress_api_gateway.Domain.Job.{Job}
use ingress_api_gateway.Domain.Ports.{Queue, Cache, JobRepository, Env, Runtime, World, Processor}
use ingress_api_gateway.Domain.Laws.{IsReliable}
use ingress_api_gateway.Worker.Pool.{
  RetryConfig, to_dead_letter, run_locked, process, find_processor, done_key, lock_key,
}

pub done-ne-lock : (job job' : Job) → (done_key job == lock_key job') ≡ false
done-ne-lock job job' = ne_prefix "job:done:" "job:lock:" job.id job'.id refl refl

pub lock-ne-done : (job job' : Job) → (lock_key job == done_key job') ≡ false
lock-ne-done job job' = ne_prefix "job:lock:" "job:done:" job.id job'.id refl refl

module _ {Q S C E : Type 0} (queue : Queue Q) (jobs : JobRepository S) (cache : Cache C)
    (env : Env E) (rt : Runtime) (cfg : RetryConfig) where
  module _ (view : C → String → Option String) (reliable : IsReliable cache view) where
    -- A delivery of a job that is marked as done changes neither the store nor the queue.
    pub process_skips_done :
        (registry : List (Processor (World Q S C E))) (p : Processor (World Q S C E)) (job : Job)
        (w : World Q S C E)
        → find_processor registry job.job_type ≡ some p
        → view w.cache (done_key job) ≡ some "1"
        → let out = process queue jobs cache env rt cfg registry job w in
          (out.0.retry ≡ none)
          × (out.0.job ≡ job)
          × (out.1.store ≡ w.store)
          × (out.1.queue ≡ w.queue)
    unfolding process
    process_skips_done registry p job w found done =
        ground (arith, reliable.get_reply (done_key job) w.cache)

    -- With a reliable cache, a job's lock that was free is free again after a delivery, whatever the
    -- processor did.
    pub process_unlocks :
        (registry : List (Processor (World Q S C E))) (job : Job) (w : World Q S C E)
        → view w.cache (lock_key job) ≡ none
        → view (process queue jobs cache env rt cfg registry job w).1.cache (lock_key job) ≡ none
    unfolding process to_dead_letter
    process_unlocks registry job w free = grind (
      arith, reliable.del_view, reliable.set_view, reliable.get_reply, reliable.get_view,
      reliable.set_nx_reply, eq_refl, done-ne-lock,
    )

    to_dead_letter_marks_done :
        (job : Job) (reason : String) (w : World Q S C E)
        → view (to_dead_letter queue jobs cache env rt cfg job reason w).1.cache (done_key job)
          ≡ some "1"
    unfolding to_dead_letter
    to_dead_letter_marks_done job reason w = grind (arith, reliable.set_view, eq_refl)

    run_locked_marks_done :
        (start : ℕ) (p : Processor (World Q S C E)) (job : Job) (w : World Q S C E)
        → (run_locked queue jobs cache env rt cfg start p job w).0.retry ≡ none
        → view (run_locked queue jobs cache env rt cfg start p job w).1.cache (done_key job)
          ≡ some "1"
    unfolding run_locked
    run_locked_marks_done start p job w over = grind (arith, reliable.set_view, eq_refl)

    -- Unless the job was locked or is to be retried, a delivery leaves it marked as done.
    pub process_marks_done :
        (registry : List (Processor (World Q S C E))) (job : Job) (w : World Q S C E)
        → view w.cache (done_key job) ≡ none
        → view w.cache (lock_key job) ≡ none
        → (process queue jobs cache env rt cfg registry job w).0.retry ≡ none
        → view (process queue jobs cache env rt cfg registry job w).1.cache (done_key job)
          ≡ some "1"
    unfolding process
    process_marks_done registry job w fresh free over = grind (
      arith, to_dead_letter_marks_done, run_locked_marks_done, reliable.del_view,
      reliable.get_reply, reliable.get_view, reliable.set_nx_reply, lock-ne-done,
    )
