-- ===== src/Worker/Pool/Retries.antt =====
-- internal/worker/pool.go: the retry budget and the backoff delay.
use ingress_api_gateway.Prelude.{
  ℕ, zero, suc, ◌+◌, ◌≤◌, ◌<◌, ◌≡◌, true, Option, none, some, List, arith, ap, inl, inr,
  Option-cases,
}
use ingress_api_gateway.Prelude.Int.{pos, inc}
use ingress_api_gateway.Domain.Job.{Job, job_status_queued, can_retry}
use ingress_api_gateway.Domain.Ports.{Queue, Cache, JobRepository, Env, Runtime, World, Processor}
use ingress_api_gateway.Domain.Laws.{DrawsBelow}
use ingress_api_gateway.Worker.Pool.{
  RetryConfig, backoff_cap, Outcome, to_dead_letter, run_locked, process,
}

budget_lt :
    (r m : ℕ) (job : Job)
    → job.retry_count ≡ pos r
    → job.max_retries ≡ pos m
    → can_retry job ≡ true
    → r < m
unfolding can_retry
budget_lt r m job hr hm h = ground arith

module _ {Q S C E : Type 0} (queue : Queue Q) (jobs : JobRepository S) (cache : Cache C)
    (env : Env E) (rt : Runtime) (cfg : RetryConfig) where
  -- What holds when `process` schedules a retry after `delay`.
  pub record IsRetry (before after : Job) (delay : ℕ) : Type 0 where
    pub budget : can_retry before ≡ true
    pub counted : after.retry_count ≡ inc before.retry_count
    pub queued : after.status ≡ job_status_queued
    pub same_id : after.id ≡ before.id
    pub same_max : after.max_retries ≡ before.max_retries
    pub bounded : delay ≤ backoff_cap cfg after.retry_count

  -- With a generator that draws below its bound: if a delivery of a job, whatever its processor does,
  -- schedules a retry, then the job had budget left, its retries are one more, it is QUEUED under the
  -- same id and limit, and the delay is at most the backoff cap of the new retry count.
  pub process-IsRetry :
      (draws : DrawsBelow env) (registry : List (Processor (World Q S C E))) (job : Job)
      (w : World Q S C E) (delay : ℕ)
      → let out = (process queue jobs cache env rt cfg registry job w).0 in
        out.retry ≡ some delay → IsRetry job out.job delay
  unfolding process run_locked to_dead_letter can_retry
  process-IsRetry draws registry job w delay h = grind (arith, draws)

  -- Deliveries of one job until it is not scheduled again; `between` is whatever happens from one
  -- delivery to the next. `none` means that the fuel ran out.
  pub deliver :
      ℕ
      → List (Processor (World Q S C E))
      → (World Q S C E → World Q S C E)
      → Job
      → World Q S C E
      → Option Outcome
  deliver zero registry between job w = none
  deliver (suc fuel) registry between job w =
      let (out, w') = process queue jobs cache env rt cfg registry job w in
      elim out.retry [
        | none ↦ some out
        | some delay ↦ deliver fuel registry between out.job (between w')
      ]

  -- With a generator that draws below its bound, and whatever the processors do and whatever happens
  -- between the deliveries: a job with r of m retries spent, r at most m, is delivered at most
  -- m - r + 1 times, since with fuel for that many a delivery is reached that schedules no retry.
  pub deliver_ends :
      (draws : DrawsBelow env) (registry : List (Processor (World Q S C E)))
      (between : World Q S C E → World Q S C E) (fuel r m : ℕ) (job : Job) (w : World Q S C E)
      → job.retry_count ≡ pos r
      → job.max_retries ≡ pos m
      → m < r + fuel
      → (r ≤ m)
      → (out : Outcome) × (deliver fuel registry between job w ≡ some out)
  unfolding deliver
  deliver_ends draws registry between zero r m job w hr hm enough le = absurd (omega arith)
  deliver_ends draws registry between (suc fuel) r m job w hr hm enough le =
      let out = process queue jobs cache env rt cfg registry job w in
      elim (Option-cases out.0.retry) [
        | inl e ↦ (out.0, rw (e, deliver))
        | inr (d, e) ↦
            let again = process-IsRetry draws registry job w d e in
            let below = budget_lt r m job hr hm again.budget in
            rw (e, deliver)
              (deliver_ends draws registry between fuel (r + 1) m out.0.job (between out.1)
                (cc (again.counted, ap inc hr)) (cc again.same_max) (omega arith) (omega arith))
      ]
