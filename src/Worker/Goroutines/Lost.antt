-- ===== src/Worker/Goroutines/Lost.antt =====
-- internal/worker/pool.go: the jobs whose last push fails.
use ingress_api_gateway.Prelude.{
  ℕ, ◌+◌, ◌≡◌, refl, Option, none, some, List, [], ◌∷◌, arith, inl, inr, Option-cases, length,
}
use ingress_api_gateway.Domain.Job.{Job}
use ingress_api_gateway.Domain.Ports.{Queue, Cache, JobRepository, Env, Runtime, World, Processor}
use ingress_api_gateway.Worker.Pool.{RetryConfig, Outcome, process}
use ingress_api_gateway.Worker.Goroutines.{
  Pool, Event, cancel, look, receive, garble, arrive, passage, Passage, through, marked, unlocked,
  timeout, broken, wake, send, give_back, lose_back, take_job, finish, due, lose_due, remove_at,
  settle, step, run, failures,
}

lost-settle :
    (g : Passage) (out : Outcome) (retry : Option ℕ) (rest : List Job) (s : Pool)
    → (settle g out retry rest s).lost ≡ s.lost
lost-settle through out none rest s = refl
lost-settle through out (some d) rest s = refl
lost-settle marked out retry rest s = refl
lost-settle unlocked out retry rest s = refl

module _ {Q S C E : Type 0} (queue : Queue Q) (jobs : JobRepository S) (cache : Cache C)
    (env : Env E) (rt : Runtime) (cfg : RetryConfig) (registry : List (Processor (World Q S C E)))
    (workers : ℕ) where
  step-lost :
      (e : Event Q S C E) (s s' : Pool)
      → step queue jobs cache env rt cfg registry workers e s ≡ some s'
      → length s'.lost ≡ length s.lost + failures (e ∷ [])
  unfolding step failures
  step-lost cancel s s' h = ground arith
  step-lost look s s' h = ground arith
  step-lost receive s s' h = ground arith
  step-lost garble s s' h = ground arith
  step-lost (arrive job) s s' h = ground arith
  step-lost timeout s s' h = ground arith
  step-lost broken s s' h = ground arith
  step-lost wake s s' h = ground arith
  step-lost send s s' h = ground arith
  step-lost give_back s s' h = ground arith
  step-lost lose_back s s' h = ground arith
  step-lost take_job s s' h = ground arith
  step-lost (finish i w) s s' h = elim (Option-cases (remove_at i s.running)) [
    | inl e ↦ ground arith
    | inr ((job, rest), e) ↦
        let out = (process queue jobs cache env rt cfg registry job w).0 in
        ground (
          arith,
          lost-settle (passage queue jobs cache env rt cfg registry workers job w) out out.retry
              rest s,
        )
  ]
  step-lost (due i) s s' h = ground arith
  step-lost (lose_due i) s s' h = ground arith

  failures-cons :
      (e : Event Q S C E) (es : List (Event Q S C E))
      → failures (e ∷ es) ≡ failures (e ∷ []) + failures es
  unfolding failures
  failures-cons e es = ground arith

  -- As many jobs are lost as pushes fail and elements cannot be decoded.
  pub run-lost :
      (es : List (Event Q S C E)) (s s' : Pool)
      → run queue jobs cache env rt cfg registry workers es s ≡ some s'
      → length s'.lost ≡ length s.lost + failures es
  unfolding run failures
  run-lost [] s s' h = ground arith
  run-lost (e ∷ es) s s' h =
      elim (Option-cases (step queue jobs cache env rt cfg registry workers e s)) [
        | inl n ↦ ground arith
        | inr (t, n) ↦ ground (arith, step-lost e s t n, failures-cons e es, run-lost es t s')
      ]
