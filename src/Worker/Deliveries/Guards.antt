-- ===== src/Worker/Deliveries/Guards.antt =====
-- internal/worker/pool.go: what a step of a delivery does to the lock and to the done marker of its job.
use mathlib.Core.Path.{subst}
use ingress_api_gateway.Prelude.{
  ◌≡◌, refl, sym, ◌⊎◌, inl, inr, String, false, not, ◌||◌, Option, some, List, ◌<>◌, ◌==◌, eq_refl,
  arith, Bool-cases, Option-cases, ne_prefix,
}
use ingress_api_gateway.Domain.Job.{Job, JobAttempt, can_retry}
use ingress_api_gateway.Domain.Error.{is_error, err_non_retryable}
use ingress_api_gateway.Domain.Result.{Result, ok, err}
use ingress_api_gateway.Interleaving.Semaphore.{IsKeyStep, key_kept}
use ingress_api_gateway.Domain.Laws.{IsReliable}
use ingress_api_gateway.Domain.Ports.{Queue, Cache, JobRepository, Env, Runtime, World, Processor}
use ingress_api_gateway.Worker.Pool.{
  RetryConfig, to_dead_letter, find_processor, finish, succeed, succeeded_job, fail_attempt,
  schedule_retry, is_done, is_acquired, done_key, lock_key, lock_ttl,
}
use ingress_api_gateway.Worker.Deliveries.{
  Delivery, arrived, checking, claiming, locked, running, ran, settled, leaving, over, new_attempt,
  advance, holds, lock_of, done_of, deliveries,
}

-- What a step may do to the done marker.
abbrev pub IsMarkStep : (old new : Option String) → Type 0
IsMarkStep old new = (new ≡ old) ⊎ (new ≡ some "1")

module _ {Q S C E : Type 0} (queue : Queue Q) (jobs : JobRepository S) (cache : Cache C)
    (env : Env E) (rt : Runtime) (cfg : RetryConfig) (registry : List (Processor (World Q S C E)))
    (view : C → String → Option String) (reliable : IsReliable cache view) (id : String) where
  abbrev pub lock : World Q S C E → Option String
  lock = lock_of queue jobs cache env rt cfg registry view id

  abbrev pub done : World Q S C E → Option String
  done = done_of queue jobs cache env rt cfg registry view id

  -- A processor leaves the lock and the done marker of the job alone.
  abbrev pub KeepsGuards : Processor (World Q S C E) → Type 0
  KeepsGuards p =
      (job : Job) (w : World Q S C E)
      → (lock (p.process job w).1 ≡ lock w) × (done (p.process job w).1 ≡ done w)

  -- A delivery of the job with the id, through a processor that keeps the guards.
  abbrev pub IsOurs : Delivery (World Q S C E) → Type 0
  IsOurs (arrived job) = job.id ≡ id
  IsOurs (checking start p job) = KeepsGuards p × (job.id ≡ id)
  IsOurs (claiming start p job) = KeepsGuards p × (job.id ≡ id)
  IsOurs (locked start p job) = KeepsGuards p × (job.id ≡ id)
  IsOurs (running start p job) = KeepsGuards p × (job.id ≡ id)
  IsOurs (ran start r job) = job.id ≡ id
  IsOurs (settled job out) = job.id ≡ id
  IsOurs other = Unit

  abbrev pub next :
      Delivery (World Q S C E) → World Q S C E → Delivery (World Q S C E) × World Q S C E
  next = advance queue jobs cache env rt cfg registry

  module _
      (keep : (p : Processor (World Q S C E)) (job : Job)
        → find_processor registry job.job_type ≡ some p
        → KeepsGuards p) where
    pub advance-IsOurs :
        (d : Delivery (World Q S C E)) (w : World Q S C E) → IsOurs d → IsOurs (next d w).0
    unfolding advance
    advance-IsOurs (arrived job) w h = elim (Option-cases (find_processor registry job.job_type)) [
      | inl q ↦ rw q tt
      | inr (p, q) ↦ rw q (keep p job q, h)
    ]
    advance-IsOurs (checking start p job) w h =
        elim (Bool-cases (is_done (cache.get (done_key job) w.cache).0)) [
          | inl q ↦ rw q tt
          | inr n ↦ rw n h
        ]
    advance-IsOurs (claiming start p job) w h =
        elim (Bool-cases (is_acquired (cache.set_nx (lock_key job) "1" lock_ttl w.cache).0)) [
          | inl q ↦ rw q h
          | inr n ↦ rw n tt
        ]
    advance-IsOurs (locked start p job) w h = h
    advance-IsOurs (running start p job) w h = h.1
    advance-IsOurs (ran start p job) w h = h
    advance-IsOurs (settled job out) w h = tt
    advance-IsOurs (leaving out) w h = tt
    advance-IsOurs (over out) w h = tt

  done-ne-lock : (("job:done:" <> id) == ("job:lock:" <> id)) ≡ false
  done-ne-lock = ne_prefix "job:done:" "job:lock:" id id refl refl

  lock-ne-done : (("job:lock:" <> id) == ("job:done:" <> id)) ≡ false
  lock-ne-done = ne_prefix "job:lock:" "job:done:" id id refl refl

  to_dead_letter-lock :
      (job : Job) (reason : String) (w : World Q S C E)
      → job.id ≡ id
      → lock (to_dead_letter queue jobs cache env rt cfg job reason w).1 ≡ lock w
  unfolding to_dead_letter
  to_dead_letter-lock job reason w h = grind (arith, reliable.set_view, done-ne-lock)

  finish-lock :
      (a : JobAttempt) (job : Job) (r : Result (Unit {0})) (w : World Q S C E)
      → job.id ≡ id
      → lock (finish queue jobs cache env rt cfg a job r w).1 ≡ lock w
  unfolding succeed fail_attempt schedule_retry succeeded_job
  finish-lock a job (ok u) w h = grind (arith, reliable.set_view, done-ne-lock)
  finish-lock a job (err e) w h =
      elim (Bool-cases (is_error e err_non_retryable || not (can_retry job))) [
        | inl p ↦ rw p (to_dead_letter-lock job "" w h)
        | inr n ↦ rw n refl
      ]

  to_dead_letter-done :
      (job : Job) (reason : String) (w : World Q S C E)
      → job.id ≡ id
      → done (to_dead_letter queue jobs cache env rt cfg job reason w).1 ≡ some "1"
  unfolding to_dead_letter
  to_dead_letter-done job reason w h = grind (arith, reliable.set_view, eq_refl)

  finish-done :
      (a : JobAttempt) (job : Job) (r : Result (Unit {0})) (w : World Q S C E)
      → job.id ≡ id
      → IsMarkStep (done w) (done (finish queue jobs cache env rt cfg a job r w).1)
  unfolding succeed fail_attempt schedule_retry succeeded_job
  finish-done a job (ok u) w h = grind (arith, reliable.set_view, eq_refl)
  finish-done a job (err e) w h =
      elim (Bool-cases (is_error e err_non_retryable || not (can_retry job))) [
        | inl p ↦ rw p (inr (to_dead_letter-done job "" w h))
        | inr n ↦ rw n (inl refl)
      ]

  pub advance-done :
      (d : Delivery (World Q S C E)) (w : World Q S C E)
      → IsOurs d
      → IsMarkStep (done w) (done (next d w).1)
  unfolding advance to_dead_letter
  advance-done (arrived job) w h = elim (Option-cases (find_processor registry job.job_type)) [
    | inl q ↦ rw q (inr (to_dead_letter-done job "" w h))
    | inr (p, q) ↦ rw q (inl refl)
  ]
  advance-done (checking start p job) w h = inl (reliable.get_view _ w.cache _)
  advance-done (claiming start p job) w h = inl (grind (arith, reliable.set_nx_view, lock-ne-done))
  advance-done (locked start p job) w h = inl refl
  advance-done (running start p job) w h = inl (h.0 job w).1
  advance-done (ran start r job) w h =
      let (a, v) = new_attempt queue jobs cache env rt cfg registry start job w in
      finish-done a job r v h
  advance-done (settled job out) w h = inl (grind (arith, reliable.del_view, lock-ne-done))
  advance-done (leaving out) w h = inl refl
  advance-done (over out) w h = inl refl

  pub advance-lock :
      (d : Delivery (World Q S C E)) (w : World Q S C E)
      → IsOurs d
      → IsKeyStep (holds d) (holds (next d w).0) (lock w) (lock (next d w).1)
  unfolding advance to_dead_letter
  advance-lock (arrived job) w h = elim (Option-cases (find_processor registry job.job_type)) [
    | inl q ↦ rw q (key_kept 0 (to_dead_letter-lock job "" w h))
    | inr (p, q) ↦ rw q (key_kept 0 refl)
  ]
  advance-lock (checking start p job) w h = grind (arith, reliable.get_view)
  advance-lock (claiming start p job) w h =
      grind (arith, reliable.set_nx_view, reliable.set_nx_reply, eq_refl)
  advance-lock (locked start p job) w h = key_kept 1 refl
  advance-lock (running start p job) w h = key_kept 1 (h.0 job w).0
  advance-lock (ran start r job) w h =
      let (a, v) = new_attempt queue jobs cache env rt cfg registry start job w in
      key_kept 1 (finish-lock a job r v h)
  advance-lock (settled job out) w h = grind (arith, reliable.del_view, eq_refl)
  advance-lock (leaving out) w h = key_kept 0 refl
  advance-lock (over out) w h = key_kept 0 refl

  pub starts-IsOurs :
      (d : Delivery (World Q S C E))
      → (deliveries queue jobs cache env rt cfg registry view id).Start d
      → IsOurs d
  starts-IsOurs d (job, same, e) = subst IsOurs (sym e) same
