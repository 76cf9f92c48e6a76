-- ===== src/Worker/Deliveries/Marked.antt =====
-- internal/worker/pool.go: the done marker of a job, with deliveries of it in several goroutines.
use ingress_api_gateway.Prelude.{
  ◌+◌, ◌≤◌, ◌≡◌, refl, ap, inl, inr, String, Bool, true, Option, some, List, ◌<>◌, arith,
  Bool-cases, Option-cases, total,
}
use ingress_api_gateway.Interleaving.Potential.{Reach-spends}
use ingress_api_gateway.Domain.Result.{ok}
use ingress_api_gateway.Domain.Job.{Job}
use ingress_api_gateway.Domain.Laws.{IsReliable}
use ingress_api_gateway.Domain.Ports.{Queue, Cache, JobRepository, Env, Runtime, World, Processor}
use ingress_api_gateway.Worker.Pool.{
  RetryConfig, find_processor, is_done, lock_key, is_acquired, lock_ttl,
}
use ingress_api_gateway.Worker.Deliveries.{
  Delivery, arrived, checking, claiming, locked, running, ran, settled, leaving, over, advance,
  may_run, runs_now, deliveries,
}
use ingress_api_gateway.Interleaving.{State, nobody, All, Reach, Reach-keeps, Step-All}
use ingress_api_gateway.Worker.Deliveries.Guards.{
  IsMarkStep, done, KeepsGuards, IsOurs, starts-IsOurs, advance-IsOurs, advance-done,
}

module _ {Q S C E : Type 0} (queue : Queue Q) (jobs : JobRepository S) (cache : Cache C)
    (env : Env E) (rt : Runtime) (cfg : RetryConfig) (registry : List (Processor (World Q S C E)))
    (view : C → String → Option String) (reliable : IsReliable cache view) where
  module _ (id : String) where
    abbrev marked : World Q S C E → Bool
    marked w = is_done (ok (done queue jobs cache env rt cfg registry view reliable id w))

    abbrev Ours : Delivery (World Q S C E) → Type 0
    Ours = IsOurs queue jobs cache env rt cfg registry view reliable id

    mark_stays :
        (w v : World Q S C E)
        → IsMarkStep (view w.cache ("job:done:" <> id)) (view v.cache ("job:done:" <> id))
        → marked w ≡ true
        → marked v ≡ true
    mark_stays w v (inl same) h = rw same h
    mark_stays w v (inr one) h = rw one refl

    -- Once the job is marked, a delivery that has yet to look at the marker never gets to the processor.
    advance-may_run :
        (d : Delivery (World Q S C E)) (w : World Q S C E)
        → Ours d
        → marked w ≡ true
        → may_run (advance queue jobs cache env rt cfg registry d w).0 + runs_now d ≤ may_run d
    unfolding advance
    advance-may_run (arrived job) w h m =
        elim (Option-cases (find_processor registry job.job_type)) [
          | inl q ↦ rw q (omega arith)
          | inr (p, q) ↦ rw q (omega arith)
        ]
    advance-may_run (checking start p job) w h m = grind (arith, reliable.get_reply)
    advance-may_run (claiming start p job) w h m =
        elim (Bool-cases (is_acquired (cache.set_nx (lock_key job) "1" lock_ttl w.cache).0)) [
          | inl q ↦ rw q (omega arith)
          | inr n ↦ rw n (omega arith)
        ]
    advance-may_run (locked start p job) w h m = omega arith
    advance-may_run (running start p job) w h m = omega arith
    advance-may_run (ran start r job) w h m = omega arith
    advance-may_run (settled job out) w h m = omega arith
    advance-may_run (leaving out) w h m = omega arith
    advance-may_run (over out) w h m = omega arith

    abbrev Run : Type 0
    Run = State (World Q S C E) (Delivery (World Q S C E))

    -- The marker stays, and the processor is called at the cost of a delivery past the check.
    advance-spends :
        (d : Delivery (World Q S C E)) (w : World Q S C E)
        → Ours d
        → marked w ≡ true
        → let (d', w') = advance queue jobs cache env rt cfg registry d w in
          (marked w' ≡ true) × (0 + runs_now d + may_run d' ≤ 0 + may_run d)
    advance-spends d w h m =
        let change = advance-done queue jobs cache env rt cfg registry view reliable id d w h in
        (
          mark_stays w (advance queue jobs cache env rt cfg registry d w).1 change m,
          omega (arith, advance-may_run d w h m),
        )

    module _
        (keep : (p : Processor (World Q S C E)) (job : Job)
          → find_processor registry job.job_type ≡ some p
          → KeepsGuards queue jobs cache env rt cfg registry view reliable id p) where
      -- With a reliable cache, processors that leave the guards of the job alone, and a done marker that
      -- does not run out: from a state of the deliveries of a job in which it is marked as done, in
      -- whatever order they go on, whichever new ones arrive and whether or not the lock runs out, the
      -- processor is called at most as often as there are deliveries that stand between their look at
      -- the marker and their call of the processor; and the job stays marked.
      pub Reach-runs :
          (w : World Q S C E) (s t : Run)
          → Reach (deliveries queue jobs cache env rt cfg registry view id) (nobody w) s
          → marked s.world ≡ true
          → Reach (deliveries queue jobs cache env rt cfg registry view id) s t
          → (t.count ≤ s.count + total may_run s.places) × (marked t.world ≡ true)
      Reach-runs w s t before mark r =
          let sys = deliveries queue jobs cache env rt cfg registry view id in
          let starts = starts-IsOurs queue jobs cache env rt cfg registry view reliable id in
          let on = advance-IsOurs queue jobs cache env rt cfg registry view reliable id keep in
          let ours =
            Reach-keeps sys (λ u. All Ours u.places) (Step-All sys Ours starts on) (nobody w) s
              before (λ i d e. ground arith) in
          let h =
            Reach-spends sys Ours starts on (λ v. marked v ≡ true) (λ v. 0) may_run
              (λ d (job, same, e). ap may_run e) advance-spends
              (λ v u f m. (mark_stays v u (inl f.1) m, omega arith))
              (λ v u f m. (mark_stays v u (inl f.1) m, omega arith)) s t ours mark r in
          (omega (arith, h.0), h.1)
