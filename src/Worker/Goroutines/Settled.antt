-- ===== src/Worker/Goroutines/Settled.antt =====
-- internal/worker/pool.go: the jobs that the goroutines settle.
use mathlib.Core.Path.{subst}
use ingress_api_gateway.Prelude.{
  Bool, ℕ, ◌≡◌, refl, sym, ap, ◌∙◌, ◌⊎◌, inl, inr, true, false, Option, none, some, List, [], ◌∷◌,
  arith, Bool-cases, Option-cases,
}
use ingress_api_gateway.Domain.Result.{Result-cases, ok}
use ingress_api_gateway.Domain.Job.{Job, job_status_success, job_status_dead_letter}
use ingress_api_gateway.Domain.Ports.{Queue, Cache, JobRepository, Env, Runtime, World, Processor}
use ingress_api_gateway.Worker.Pool.{
  RetryConfig, Outcome, process, find_processor, done_key, lock_key, lock_ttl, is_done,
  to_dead_letter,
}
use ingress_api_gateway.Worker.Pool.Verdict.{verdict, is_final, answer, process-verdict}
use ingress_api_gateway.Worker.Goroutines.{
  Pool, Event, cancel, look, receive, garble, arrive, timeout, broken, wake, send, give_back,
  lose_back, take_job, finish, due, lose_due, remove_at, Passage, through, marked, unlocked,
  passage, settle, step, run, and_then,
}

abbrev pub Every : (Job → Type 0) → List Job → Type 0
Every P [] = Unit
Every P (job ∷ rest) = P job × Every P rest

-- Processed to an end.
abbrev pub IsEnded : Job → Type 0
IsEnded job = (job.status ≡ job_status_success) ⊎ (job.status ≡ job_status_dead_letter)

settle-Every :
    (P : Job → Type 0) (g : Passage) (out : Outcome) (retry : Option ℕ) (rest : List Job) (s : Pool)
    → (g ≡ through → retry ≡ none → P out.job)
    → Every P s.settled
    → Every P (settle g out retry rest s).settled
settle-Every P through out none rest s fits h = (fits refl refl, h)
settle-Every P through out (some d) rest s fits h = h
settle-Every P marked out retry rest s fits h = h
settle-Every P unlocked out retry rest s fits h = h

module _ {Q S C E : Type 0} (queue : Queue Q) (jobs : JobRepository S) (cache : Cache C)
    (env : Env E) (rt : Runtime) (cfg : RetryConfig) (registry : List (Processor (World Q S C E)))
    (workers : ℕ) where
  -- The worlds in which a schedule runs `process`.
  abbrev pub RunsIn : (World Q S C E → Type 0) → List (Event Q S C E) → Type 0
  RunsIn Good [] = Unit
  RunsIn Good (finish i w ∷ es) = Good w × RunsIn Good es
  RunsIn Good (other ∷ es) = RunsIn Good es

  abbrev pub is_finish : Event Q S C E → Bool
  is_finish (finish i w) = true
  is_finish other = false

  -- Only a `process` that returns settles or skips a job.
  pub step-settled :
      (e : Event Q S C E) (s s' : Pool)
      → is_finish e ≡ false
      → step queue jobs cache env rt cfg registry workers e s ≡ some s'
      → (s'.settled ≡ s.settled) × (s'.skipped ≡ s.skipped)
  unfolding step
  step-settled cancel s s' n h = ground arith
  step-settled look s s' n h = ground arith
  step-settled receive s s' n h = ground arith
  step-settled garble s s' n h = ground arith
  step-settled (arrive job) s s' n h = ground arith
  step-settled timeout s s' n h = ground arith
  step-settled broken s s' n h = ground arith
  step-settled wake s s' n h = ground arith
  step-settled send s s' n h = ground arith
  step-settled give_back s s' n h = ground arith
  step-settled lose_back s s' n h = ground arith
  step-settled take_job s s' n h = ground arith
  step-settled (due i) s s' n h = ground arith
  step-settled (lose_due i) s s' n h = ground arith
  step-settled (finish i w) s s' n h = absurd (ground arith)

  pub RunsIn-cons :
      (Good : World Q S C E → Type 0) (e : Event Q S C E) (es : List (Event Q S C E))
      → RunsIn Good (e ∷ es)
      → RunsIn Good (e ∷ []) × RunsIn Good es
  RunsIn-cons Good (finish i w) es g = ((g.0, tt), g.1)
  RunsIn-cons Good cancel es g = (tt, g)
  RunsIn-cons Good look es g = (tt, g)
  RunsIn-cons Good receive es g = (tt, g)
  RunsIn-cons Good garble es g = (tt, g)
  RunsIn-cons Good (arrive job) es g = (tt, g)
  RunsIn-cons Good timeout es g = (tt, g)
  RunsIn-cons Good broken es g = (tt, g)
  RunsIn-cons Good wake es g = (tt, g)
  RunsIn-cons Good send es g = (tt, g)
  RunsIn-cons Good give_back es g = (tt, g)
  RunsIn-cons Good lose_back es g = (tt, g)
  RunsIn-cons Good take_job es g = (tt, g)
  RunsIn-cons Good (due i) es g = (tt, g)
  RunsIn-cons Good (lose_due i) es g = (tt, g)

  module _ (Good : World Q S C E → Type 0) (P : Job → Type 0)
      (fits : (job : Job) (w : World Q S C E)
        → Good w
        → passage queue jobs cache env rt cfg registry workers job w ≡ through
        → (process queue jobs cache env rt cfg registry job w).0.retry ≡ none
        → P (process queue jobs cache env rt cfg registry job w).0.job) where
    kept :
        (e : Event Q S C E) (s s' : Pool)
        → is_finish e ≡ false
        → Every P s.settled
        → step queue jobs cache env rt cfg registry workers e s ≡ some s'
        → Every P s'.settled
    kept e s s' n q h = subst (Every P) (sym (step-settled e s s' n h).0) q

    step-Every :
        (e : Event Q S C E) (s s' : Pool)
        → RunsIn Good (e ∷ [])
        → Every P s.settled
        → step queue jobs cache env rt cfg registry workers e s ≡ some s'
        → Every P s'.settled
    unfolding step
    step-Every (finish i w) s s' g q h = elim (Option-cases (remove_at i s.running)) [
      | inl none_at ↦ absurd (ground arith)
      | inr ((job, rest), at) ↦
          let out = (process queue jobs cache env rt cfg registry job w).0 in
          let way = passage queue jobs cache env rt cfg registry workers job w in
          let same : settle way out out.retry rest s ≡ s' = ground (arith, at) in
          subst (λ (u : Pool). Every P u.settled) same
            (settle-Every P way out out.retry rest s (fits job w g.0) q)
    ]
    step-Every cancel s s' g q h = kept cancel s s' refl q h
    step-Every look s s' g q h = kept look s s' refl q h
    step-Every receive s s' g q h = kept receive s s' refl q h
    step-Every garble s s' g q h = kept garble s s' refl q h
    step-Every (arrive job) s s' g q h = kept (arrive job) s s' refl q h
    step-Every timeout s s' g q h = kept timeout s s' refl q h
    step-Every broken s s' g q h = kept broken s s' refl q h
    step-Every wake s s' g q h = kept wake s s' refl q h
    step-Every send s s' g q h = kept send s s' refl q h
    step-Every give_back s s' g q h = kept give_back s s' refl q h
    step-Every lose_back s s' g q h = kept lose_back s s' refl q h
    step-Every take_job s s' g q h = kept take_job s s' refl q h
    step-Every (due i) s s' g q h = kept (due i) s s' refl q h
    step-Every (lose_due i) s s' g q h = kept (lose_due i) s s' refl q h

    pub run-Every :
        (es : List (Event Q S C E)) (s s' : Pool)
        → RunsIn Good es
        → Every P s.settled
        → run queue jobs cache env rt cfg registry workers es s ≡ some s'
        → Every P s'.settled
    unfolding run
    run-Every [] s s' g q h =
        let same : s ≡ s' = ground arith in subst (λ (u : Pool). Every P u.settled) same q
    run-Every (e ∷ es) s s' g q h =
        elim (Option-cases (step queue jobs cache env rt cfg registry workers e s)) [
          | inl n ↦ absurd (ground arith)
          | inr (t, n) ↦
              let (now, later) = RunsIn-cons Good e es g in
              run-Every es t s' later (step-Every e s t now q n) (
                sym (
                  ap
                    (and_then queue jobs cache env rt cfg registry workers es
                      (run queue jobs cache env rt cfg registry workers es))
                    n)
                ∙ h)
        ]

  anywhere : (es : List (Event Q S C E)) → RunsIn (λ w. Unit) es
  anywhere [] = tt
  anywhere (finish i w ∷ es) = (tt, anywhere es)
  anywhere (cancel ∷ es) = anywhere es
  anywhere (look ∷ es) = anywhere es
  anywhere (receive ∷ es) = anywhere es
  anywhere (garble ∷ es) = anywhere es
  anywhere (arrive job ∷ es) = anywhere es
  anywhere (timeout ∷ es) = anywhere es
  anywhere (broken ∷ es) = anywhere es
  anywhere (wake ∷ es) = anywhere es
  anywhere (send ∷ es) = anywhere es
  anywhere (give_back ∷ es) = anywhere es
  anywhere (lose_back ∷ es) = anywhere es
  anywhere (take_job ∷ es) = anywhere es
  anywhere (due i ∷ es) = anywhere es
  anywhere (lose_due i ∷ es) = anywhere es

  decided :
      (job : Job) (w : World Q S C E) (p : Processor (World Q S C E))
      → find_processor registry job.job_type ≡ some p
      → is_done (cache.get (done_key job) w.cache).0 ≡ false
      → (cache.set_nx (lock_key job) "1" lock_ttl (cache.get (done_key job) w.cache).1).0 ≡ ok true
      → (process queue jobs cache env rt cfg registry job w).0.retry ≡ none
      → IsEnded (process queue jobs cache env rt cfg registry job w).0.job
  decided job w p found fresh locked last =
      let (status, again, _, _) =
        process-verdict queue jobs cache env rt cfg registry p job w found fresh locked in
      elim (Result-cases (answer queue jobs cache env rt cfg p job w)) [
        | inl (u, r) ↦ inl (status ∙ ap (λ a. verdict a job) r)
        | inr (e, r) ↦ elim (Bool-cases (is_final e job)) [
          | inl final ↦ inr (status ∙ ap (λ a. verdict a job) r ∙ rw final refl)
          | inr more ↦ absurd (ground (arith, again, r, last, more))
        ]
      ]

  through-IsEnded :
      (job : Job) (w : World Q S C E)
      → passage queue jobs cache env rt cfg registry workers job w ≡ through
      → (process queue jobs cache env rt cfg registry job w).0.retry ≡ none
      → IsEnded (process queue jobs cache env rt cfg registry job w).0.job
  unfolding passage process to_dead_letter
  through-IsEnded job w g last = elim (Option-cases (find_processor registry job.job_type)) [
    | inl missing ↦ inr (rw missing refl)
    | inr (p, found) ↦ elim (Bool-cases (is_done (cache.get (done_key job) w.cache).0)) [
      | inl marked_done ↦ absurd (ground arith)
      | inr fresh ↦
          let c = (cache.get (done_key job) w.cache).1 in
          elim (Result-cases (cache.set_nx (lock_key job) "1" lock_ttl c).0) [
            | inl (b, locked) ↦ elim (Bool-cases b) [
              | inl taken ↦ decided job w p found fresh (locked ∙ ap ok taken) last
              | inr refused ↦ absurd (ground arith)
            ]
            | inr (e, failed) ↦ absurd (ground arith)
          ]
    ]
  ]

  -- A job that does not get past the guards comes back as it was, and is not scheduled again.
  turned_away :
      (job : Job) (w : World Q S C E) (g : Passage)
      → passage queue jobs cache env rt cfg registry workers job w ≡ g
      → (g ≡ through)
        ⊎ ((process queue jobs cache env rt cfg registry job w).0
            ≡ record { job = job; retry = none })
  unfolding passage process
  turned_away job w through e = inl refl
  turned_away job w marked e = inr (grind arith)
  turned_away job w unlocked e = inr (grind arith)

  -- Whatever the processors answer and in whatever worlds `process` runs: if all settled jobs of a pool
  -- have the status SUCCESS or DEAD_LETTER, so have those after any schedule. A job that is skipped as
  -- done already or that cannot be locked is not among them.
  pub run-IsEnded :
      (es : List (Event Q S C E)) (s s' : Pool)
      → Every IsEnded s.settled
      → run queue jobs cache env rt cfg registry workers es s ≡ some s'
      → Every IsEnded s'.settled
  run-IsEnded es s s' =
      run-Every (λ w. Unit) IsEnded (λ job w g. through-IsEnded job w) es s s' (anywhere es)
