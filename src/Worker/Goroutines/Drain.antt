-- ===== src/Worker/Goroutines/Drain.antt =====
-- internal/worker/pool.go: the graceful shutdown, once the context is cancelled.
use ingress_api_gateway.Prelude.{
  ◌⊎◌, ℕ, zero, suc, ◌+◌, ◌*◌, ◌≤◌, ◌<◌, ◌≡◌, refl, true, false, Option, none, some, List, [], ◌∷◌,
  length, arith, inl, inr, Bool-cases, Option-cases, length-append,
}
use ingress_api_gateway.Domain.Job.{Job}
use ingress_api_gateway.Domain.Ports.{Queue, Cache, JobRepository, Env, Runtime, World, Processor}
use ingress_api_gateway.Queue.Spec.{enter}
use ingress_api_gateway.Worker.Pool.{RetryConfig, Outcome, process}
use ingress_api_gateway.Worker.Goroutines.{
  Dispatcher, head, polling, paused, stopped, holding, Pool, Event, cancel, look, receive, garble,
  arrive, passage, own_steps, is_own, Passage, through, marked, unlocked, timeout, broken, wake,
  send, give_back, lose_back, take_job, finish, due, lose_due, remove_at, settle, step, run,
  is_drained,
}

-- How many steps the dispatcher, and the job that it may hold, are still good for.
abbrev pub rank : Dispatcher → ℕ
rank stopped = 0
rank head = 1
rank paused = 2
rank (holding job) = 5
rank polling = 6

rank_le : (d : Dispatcher) → rank d ≤ 6
rank_le d = ground arith

-- The most steps that a cancelled pool can still take: a job of the channel is good for three, a
-- running one for two and a delayed one for one.
unfoldable pub steps_left : Pool → ℕ
steps_left s = rank s.dispatcher + 3 * length s.channel + 2 * length s.running + length s.delayed

pub length-remove_at :
    (i : ℕ) (xs rest : List Job) (job : Job)
    → remove_at i xs ≡ some (job, rest)
    → length xs ≡ suc (length rest)
unfolding remove_at
length-remove_at i [] rest job h = ground arith
length-remove_at zero (x ∷ xs) rest job h = ground arith
length-remove_at (suc i) (x ∷ xs) rest job h = elim (Option-cases (remove_at i xs)) [
  | inl e ↦ ground arith
  | inr ((k, r), e) ↦ ground (arith, length-remove_at i xs r k e)
]

steps_left-settle :
    (g : Passage) (out : Outcome) (retry : Option ℕ) (rest : List Job) (s : Pool)
    → length s.running ≡ suc (length rest)
    → (steps_left (settle g out retry rest s) < steps_left s)
      × ((settle g out retry rest s).cancelled ≡ s.cancelled)
unfolding steps_left
steps_left-settle through out none rest s h = ground arith
steps_left-settle through out (some d) rest s h = ground arith
steps_left-settle marked out retry rest s h = ground arith
steps_left-settle unlocked out retry rest s h = ground arith

module _ {Q S C E : Type 0} (queue : Queue Q) (jobs : JobRepository S) (cache : Cache C)
    (env : Env E) (rt : Runtime) (cfg : RetryConfig) (registry : List (Processor (World Q S C E)))
    (workers : ℕ) where
  step-steps_left :
      (e : Event Q S C E) (s s' : Pool)
      → s.cancelled ≡ true
      → step queue jobs cache env rt cfg registry workers e s ≡ some s'
      → (own_steps (e ∷ []) + steps_left s' ≤ steps_left s) × (s'.cancelled ≡ true)
  unfolding step steps_left own_steps
  step-steps_left cancel s s' c h = ground arith
  step-steps_left look s s' c h = ground arith
  step-steps_left receive s s' c h = ground arith
  step-steps_left garble s s' c h = ground arith
  step-steps_left (arrive job) s s' c h = ground arith
  step-steps_left timeout s s' c h = ground arith
  step-steps_left broken s s' c h = ground arith
  step-steps_left wake s s' c h = ground arith
  step-steps_left send s s' c h = grind (arith, length-append)
  step-steps_left give_back s s' c h = ground arith
  step-steps_left lose_back s s' c h = ground arith
  step-steps_left take_job s s' c h = ground arith
  step-steps_left (finish i w) s s' c h = elim (Option-cases (remove_at i s.running)) [
    | inl e ↦ ground arith
    | inr ((job, rest), e) ↦
        let out = (process queue jobs cache env rt cfg registry job w).0 in
        ground (
          arith,
          length-remove_at i s.running rest job e,
          steps_left-settle (passage queue jobs cache env rt cfg registry workers job w) out
              out.retry rest s (length-remove_at i s.running rest job e),
        )
  ]
  step-steps_left (due i) s s' c h = elim (Option-cases (remove_at i s.delayed)) [
    | inl e ↦ ground arith
    | inr ((job, rest), e) ↦ ground (arith, length-remove_at i s.delayed rest job e)
  ]
  step-steps_left (lose_due i) s s' c h = elim (Option-cases (remove_at i s.delayed)) [
    | inl e ↦ ground arith
    | inr ((job, rest), e) ↦ ground (arith, length-remove_at i s.delayed rest job e)
  ]

  own_steps-run :
      (es : List (Event Q S C E)) (s s' : Pool)
      → s.cancelled ≡ true
      → run queue jobs cache env rt cfg registry workers es s ≡ some s'
      → (own_steps es + steps_left s' ≤ steps_left s) × (s'.cancelled ≡ true)
  unfolding run own_steps
  own_steps-run [] s s' c h = ground arith
  own_steps-run (e ∷ es) s s' c h =
      elim (Option-cases (step queue jobs cache env rt cfg registry workers e s)) [
        | inl n ↦ ground arith
        | inr (t, n) ↦
            let later = step-steps_left e s t c n in
            ground (arith, later, own_steps-run es t s' later.1)
      ]

  -- A step that the pool can take now.
  abbrev pub GoesOn : Pool → Type 0
  GoesOn s =
      (e : Event Q S C E) × (is_own e ≡ true)
      × (s' : Pool) × (step queue jobs cache env rt cfg registry workers e s ≡ some s')

  module _ (s : Pool) (w : World Q S C E) (c : s.cancelled ≡ true) (some_worker : 0 < workers) where
    stopped-GoesOn :
        (channel running delayed : List Job)
        → s.dispatcher ≡ stopped
        → s.channel ≡ channel
        → s.running ≡ running
        → s.delayed ≡ delayed
        → is_drained s ≡ false
        → GoesOn s
    unfolding step is_drained remove_at
    stopped-GoesOn channel (job ∷ rest) delayed ed ec er el h =
        let out = (process queue jobs cache env rt cfg registry job w).0 in
        let g = passage queue jobs cache env rt cfg registry workers job w in
        (finish 0 w, refl, settle g out out.retry rest s, ground arith)
    stopped-GoesOn (job ∷ rest) [] delayed ed ec er el h =
        (take_job, refl, record s { channel = rest; running = job ∷ s.running }, ground arith)
    stopped-GoesOn [] [] (job ∷ rest) ed ec er el h =
        (due 0, refl, record s { lines = enter job s.lines; delayed = rest }, ground arith)
    stopped-GoesOn [] [] [] ed ec er el h = absurd (ground arith)

    from-GoesOn : (d : Dispatcher) → s.dispatcher ≡ d → is_drained s ≡ false → GoesOn s
    unfolding step
    from-GoesOn head ed h = (look, refl, record s { dispatcher = stopped }, ground arith)
    from-GoesOn polling ed h = (timeout, refl, record s { dispatcher = head }, ground arith)
    from-GoesOn paused ed h = (wake, refl, record s { dispatcher = stopped }, ground arith)
    from-GoesOn (holding job) ed h = (
      give_back,
      refl,
      record s { lines = enter job s.lines; dispatcher = stopped },
      ground arith,
    )
    from-GoesOn stopped ed h = stopped-GoesOn s.channel s.running s.delayed ed refl refl refl h

  -- With at least one worker and a context that is cancelled: whatever the processors, the queue and the
  -- scheduler do and whatever is queued meanwhile, the pool takes in every schedule at most six steps,
  -- three for each job in the channel, two for each running one and one for each delayed one, and at the
  -- end of each schedule it is drained or can take a further step. So every schedule that goes on as
  -- long as the pool can step drains it.
  pub run_ends :
      (es : List (Event Q S C E)) (s s' : Pool) (w : World Q S C E)
      → s.cancelled ≡ true
      → 0 < workers
      → run queue jobs cache env rt cfg registry workers es s ≡ some s'
      → (own_steps es ≤ 6 + 3 * length s.channel + 2 * length s.running + length s.delayed)
        × ((is_drained s' ≡ true) ⊎ GoesOn s')
  unfolding steps_left
  run_ends es s s' w c some_worker h =
      let (most, c') = own_steps-run es s s' c h in
      (
        omega (arith, most, rank_le s.dispatcher),
        elim (Bool-cases (is_drained s')) [
          | inl over ↦ inl over
          | inr going ↦ inr (from-GoesOn s' w c' some_worker s'.dispatcher refl going)
        ],
      )
