-- ===== src/Worker/Deliveries/Exclusion.antt =====
-- internal/worker/pool.go: the lock of a job, with deliveries of it in several goroutines at once.
use ingress_api_gateway.Prelude.{◌+◌, ◌≤◌, ◌≡◌, String, Option, none, some, List, ap, total}
use ingress_api_gateway.Interleaving.{State, Reach, nobody}
use ingress_api_gateway.Interleaving.Semaphore.{bit, Reach-total}
use ingress_api_gateway.Domain.Job.{Job}
use ingress_api_gateway.Domain.Laws.{IsReliable}
use ingress_api_gateway.Domain.Ports.{Queue, Cache, JobRepository, Env, Runtime, World, Processor}
use ingress_api_gateway.Worker.Pool.{RetryConfig, find_processor}
use ingress_api_gateway.Worker.Deliveries.{Delivery, deliveries, holds, lock_of}
use ingress_api_gateway.Worker.Deliveries.Guards.{
  KeepsGuards, IsOurs, starts-IsOurs, advance-IsOurs, advance-lock,
}

module _ {Q S C E : Type 0} (queue : Queue Q) (jobs : JobRepository S) (cache : Cache C)
    (env : Env E) (rt : Runtime) (cfg : RetryConfig) (registry : List (Processor (World Q S C E)))
    (view : C → String → Option String) (reliable : IsReliable cache view) (id : String)
    (keep : (p : Processor (World Q S C E)) (job : Job)
      → find_processor registry job.job_type ≡ some p
      → KeepsGuards queue jobs cache env rt cfg registry view reliable id p) where
  abbrev lock : World Q S C E → Option String
  lock = lock_of queue jobs cache env rt cfg registry view id

  -- With a reliable cache, processors that leave the guards of the job alone, and a job that is not
  -- locked before its first delivery: however the deliveries of the job interleave with each other
  -- and with the rest of the system, at most as many of them stand between the SETNX that took the
  -- lock and its DEL as the lock has run out, and one more while the lock is set. While it is set, at
  -- least one does, so that a lock is never left behind.
  pub Reach-holds :
      (w : World Q S C E) (s : State (World Q S C E) (Delivery (World Q S C E)))
      → lock w ≡ none
      → Reach (deliveries queue jobs cache env rt cfg registry view id) (nobody w) s
      → (total holds s.places ≤ s.expiries + bit (lock s.world))
        × (bit (lock s.world) ≤ total holds s.places)
  Reach-holds w s free r =
      Reach-total (deliveries queue jobs cache env rt cfg registry view id)
        (IsOurs queue jobs cache env rt cfg registry view reliable id)
        (starts-IsOurs queue jobs cache env rt cfg registry view reliable id)
        (advance-IsOurs queue jobs cache env rt cfg registry view reliable id keep) lock holds
        (λ d (job, same, e). ap holds e)
        (advance-lock queue jobs cache env rt cfg registry view reliable id) (λ w v f. f.0)
        (λ w v f. f.0) w s free r
