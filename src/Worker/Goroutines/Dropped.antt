-- ===== src/Worker/Goroutines/Dropped.antt =====
-- internal/worker/pool.go: the jobs that the workers drop when the calls of `process` fail.
use ingress_api_gateway.Prelude.{ℕ, ◌≡◌, none, List}
use ingress_api_gateway.Domain.Error.{Error}
use ingress_api_gateway.Domain.Result.{err}
use ingress_api_gateway.Domain.Job.{Job}
use ingress_api_gateway.Domain.Ports.{Queue, Cache, JobRepository, Env, Runtime, World, Processor}
use ingress_api_gateway.Worker.Pool.{RetryConfig, find_processor, done_key, lock_key, lock_ttl}
use ingress_api_gateway.Worker.Goroutines.{Pool}

module _ {Q S C E : Type 0} (queue : Queue Q) (jobs : JobRepository S) (cache : Cache C)
    (env : Env E) (rt : Runtime) (cfg : RetryConfig) (registry : List (Processor (World Q S C E)))
    (workers : ℕ) where
  -- A world in which Redis answers neither the GET nor the SETNX of `process`.
  abbrev pub IsCut : World Q S C E → Type 0
  IsCut w =
      (job : Job)
      → (a b : Error) × ((cache.get (done_key job) w.cache).0 ≡ err a)
        × ((cache.set_nx (lock_key job) "1" lock_ttl (cache.get (done_key job) w.cache).1).0
            ≡ err b)

  -- No processor takes the job.
  abbrev pub IsUnserved : Job → Type 0
  IsUnserved job = find_processor registry job.job_type ≡ none
