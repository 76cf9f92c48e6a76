-- ===== src/Worker/Goroutines/Bounds.antt =====
-- internal/worker/pool.go: the buffer of the channel and the number of workers.
use ingress_api_gateway.Prelude.{
  ℕ, suc, ◌≤◌, ◌≡◌, Option, none, some, List, length, arith, inl, inr, Option-cases, length-append,
}
use ingress_api_gateway.Domain.Ports.{Queue, Cache, JobRepository, Env, Runtime, World, Processor}
use ingress_api_gateway.Domain.Job.{Job}
use ingress_api_gateway.Worker.Pool.{RetryConfig, Outcome, process}
use ingress_api_gateway.Worker.Goroutines.{
  Pool, Event, cancel, look, receive, garble, arrive, passage, Passage, through, marked, unlocked,
  timeout, broken, wake, send, give_back, lose_back, take_job, finish, due, lose_due, remove_at,
  settle, buffer, step,
}
use ingress_api_gateway.Worker.Goroutines.Drain.{length-remove_at}

-- The channel holds at most its buffer, and each worker at most one job.
pub record IsBounded (workers : ℕ) (s : Pool) : Type 0 where
  pub channel : length s.channel ≤ buffer workers
  pub running : length s.running ≤ workers

settle-IsBounded :
    (workers : ℕ) (g : Passage) (out : Outcome) (retry : Option ℕ) (rest : List Job) (s : Pool)
    → length s.running ≡ suc (length rest)
    → IsBounded workers s
    → IsBounded workers (settle g out retry rest s)
settle-IsBounded workers through out none rest s h b = ground arith
settle-IsBounded workers through out (some d) rest s h b = ground arith
settle-IsBounded workers marked out retry rest s h b = ground arith
settle-IsBounded workers unlocked out retry rest s h b = ground arith

module _ {Q S C E : Type 0} (queue : Queue Q) (jobs : JobRepository S) (cache : Cache C)
    (env : Env E) (rt : Runtime) (cfg : RetryConfig) (registry : List (Processor (World Q S C E)))
    (workers : ℕ) where
  -- No step of the goroutines leaves more jobs in the channel than its buffer, or more jobs running than
  -- there are workers, if there were not more before.
  pub step-IsBounded :
      (e : Event Q S C E) (s s' : Pool)
      → IsBounded workers s
      → step queue jobs cache env rt cfg registry workers e s ≡ some s'
      → IsBounded workers s'
  unfolding step
  step-IsBounded cancel s s' b h = ground arith
  step-IsBounded look s s' b h = ground arith
  step-IsBounded receive s s' b h = ground arith
  step-IsBounded garble s s' b h = ground arith
  step-IsBounded (arrive job) s s' b h = ground arith
  step-IsBounded timeout s s' b h = ground arith
  step-IsBounded broken s s' b h = ground arith
  step-IsBounded wake s s' b h = ground arith
  step-IsBounded send s s' b h = grind (arith, length-append)
  step-IsBounded give_back s s' b h = ground arith
  step-IsBounded lose_back s s' b h = ground arith
  step-IsBounded take_job s s' b h = ground arith
  step-IsBounded (finish i w) s s' b h = elim (Option-cases (remove_at i s.running)) [
    | inl e ↦ ground arith
    | inr ((job, rest), e) ↦
        let out = (process queue jobs cache env rt cfg registry job w).0 in
        ground (
          arith,
          settle-IsBounded workers (passage queue jobs cache env rt cfg registry workers job w) out
              out.retry rest s (length-remove_at i s.running rest job e) b,
        )
  ]
  step-IsBounded (due i) s s' b h = ground arith
  step-IsBounded (lose_due i) s s' b h = ground arith
