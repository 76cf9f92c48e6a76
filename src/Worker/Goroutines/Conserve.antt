-- ===== src/Worker/Goroutines/Conserve.antt =====
-- internal/worker/pool.go: no interleaving of the goroutines loses or doubles a job.
use ingress_api_gateway.Prelude.{
  ℕ, zero, suc, ◌+◌, String, ◌≡◌, refl, true, Option, none, some, List, [], ◌∷◌, ◌++◌, arith, ◌==◌,
  inl, inr, Option-cases, length, if◌then◌else◌,
}
use ingress_api_gateway.Domain.Job.{Job}
use ingress_api_gateway.Domain.Ports.{Queue, Cache, JobRepository, Env, Runtime, World, Processor}
use ingress_api_gateway.Queue.Spec.{Lines, enter, serve}
use ingress_api_gateway.Worker.Pool.{RetryConfig, Outcome, process, run_locked, to_dead_letter}
use ingress_api_gateway.Worker.Goroutines.{
  Dispatcher, holding, Pool, Event, cancel, look, receive, garble, arrive, passage, Passage,
  through, marked, unlocked, timeout, broken, wake, send, give_back, lose_back, take_job, finish,
  due, lose_due, remove_at, settle, step, run, is_drained, failures, arrivals,
}
use ingress_api_gateway.Worker.Goroutines.Lost.{run-lost}

-- How many jobs of a list have an id.
unfoldable pub count : String → List Job → ℕ
count id [] = 0
count id (job ∷ rest) = let n = count id rest in if job.id == id then suc n else n

count-append : (id : String) (xs ys : List Job) → count id (xs ++ ys) ≡ count id xs + count id ys
unfolding count
count-append id [] ys = omega arith
count-append id (x ∷ xs) ys = ground (arith, count-append id xs ys)

count-cons :
    (id : String) (job : Job) (rest : List Job)
    → count id (job ∷ rest) ≡ count id rest + count id (job ∷ [])
unfolding count
count-cons id job rest = ground arith

abbrev pub count_held : String → Dispatcher → ℕ
count_held id (holding job) = count id (job ∷ [])
count_held id other = 0

abbrev pub count_lines : String → Lines → ℕ
count_lines id l = count id l.high + count id l.medium + count id l.low

-- The copies of a job anywhere in the pool and its queue.
unfoldable pub copies : String → Pool → ℕ
copies id s =
    count_lines id s.lines
    + count_held id s.dispatcher
    + count id s.channel
    + count id s.running
    + count id s.delayed
    + count id s.settled
    + count id s.skipped
    + count id s.dropped
    + count id s.lost

count_lines-enter :
    (id : String) (job : Job) (l : Lines)
    → count_lines id (enter job l) ≡ count_lines id l + count id (job ∷ [])
unfolding enter
count_lines-enter id job l = ground (
  arith,
  count-append id l.high (job ∷ []),
  count-append id l.medium (job ∷ []),
  count-append id l.low (job ∷ []),
)

serve_cases :
    (id : String) (job : Job) (l : Lines) (high medium low : List Job)
    → l.high ≡ high
    → l.medium ≡ medium
    → l.low ≡ low
    → (serve l).0 ≡ some job
    → count_lines id l ≡ count_lines id (serve l).1 + count id (job ∷ [])
unfolding serve count
serve_cases id job l (j ∷ js) medium low eh em el h = ground arith
serve_cases id job l [] (j ∷ js) low eh em el h = ground arith
serve_cases id job l [] [] (j ∷ js) eh em el h = ground arith
serve_cases id job l [] [] [] eh em el h = ground arith

count_lines-serve :
    (id : String) (job : Job) (l : Lines)
    → (serve l).0 ≡ some job
    → count_lines id l ≡ count_lines id (serve l).1 + count id (job ∷ [])
count_lines-serve id job l h = serve_cases id job l l.high l.medium l.low refl refl refl h

count-remove_at :
    (id : String) (i : ℕ) (xs rest : List Job) (job : Job)
    → remove_at i xs ≡ some (job, rest)
    → count id xs ≡ count id rest + count id (job ∷ [])
unfolding count remove_at
count-remove_at id i [] rest job h = ground arith
count-remove_at id zero (x ∷ xs) rest job h = ground arith
count-remove_at id (suc i) (x ∷ xs) rest job h = elim (Option-cases (remove_at i xs)) [
  | inl e ↦ ground arith
  | inr ((k, r), e) ↦ ground (arith, count-remove_at id i xs r k e)
]

count-settle :
    (id : String) (g : Passage) (out : Outcome) (retry : Option ℕ) (rest : List Job) (s : Pool)
    → copies id (settle g out retry rest s) + count id s.running
      ≡ copies id s + count id rest + count id (out.job ∷ [])
unfolding copies count
count-settle id through out none rest s = ground arith
count-settle id through out (some d) rest s = ground arith
count-settle id marked out retry rest s = ground arith
count-settle id unlocked out retry rest s = ground arith

count-arrivals :
    {Q S C E : Type 0} (id : String) (e : Event Q S C E) (es : List (Event Q S C E))
    → count id (arrivals (e ∷ es)) ≡ count id (arrivals (e ∷ [])) + count id (arrivals es)
unfolding arrivals count
count-arrivals id e es = ground arith

count-id :
    (id : String) (job job' : Job) → job.id ≡ job'.id → count id (job ∷ []) ≡ count id (job' ∷ [])
unfolding count
count-id id job job' h = rw h

drained :
    (id : String) (s : Pool)
    → is_drained s ≡ true
    → copies id s
      ≡ count_lines id s.lines
        + count id s.settled
        + count id s.skipped
        + count id s.dropped
        + count id s.lost
unfolding is_drained copies count
drained id s h = ground arith

module _ {Q S C E : Type 0} (queue : Queue Q) (jobs : JobRepository S) (cache : Cache C)
    (env : Env E) (rt : Runtime) (cfg : RetryConfig)
    (registry : List (Processor (World Q S C E))) where
  process-id :
      (job : Job) (w : World Q S C E)
      → (process queue jobs cache env rt cfg registry job w).0.job.id ≡ job.id
  unfolding process run_locked to_dead_letter
  process-id job w = ground arith

  module _ (workers : ℕ) where
    pub step-copies :
        (id : String) (e : Event Q S C E) (s s' : Pool)
        → step queue jobs cache env rt cfg registry workers e s ≡ some s'
        → copies id s' ≡ copies id s + count id (arrivals (e ∷ []))
    unfolding step copies arrivals count
    step-copies id cancel s s' h = ground arith
    step-copies id look s s' h = ground arith
    step-copies id receive s s' h = grind (arith, count_lines-serve)
    step-copies id garble s s' h = grind (arith, count_lines-serve, count-cons)
    step-copies id (arrive job) s s' h = grind (arith, count_lines-enter)
    step-copies id timeout s s' h = ground arith
    step-copies id broken s s' h = ground arith
    step-copies id wake s s' h = ground arith
    step-copies id send s s' h = grind (arith, count-append)
    step-copies id give_back s s' h = grind (arith, count_lines-enter)
    step-copies id lose_back s s' h = grind (arith, count-cons)
    step-copies id take_job s s' h = grind (arith, count-cons)
    step-copies id (finish i w) s s' h = elim (Option-cases (remove_at i s.running)) [
      | inl e ↦ ground arith
      | inr ((job, rest), e) ↦
          let out = (process queue jobs cache env rt cfg registry job w).0 in
          ground (
            arith,
            count-remove_at id i s.running rest job e,
            count-settle id (passage queue jobs cache env rt cfg registry workers job w) out
                out.retry rest s,
            count-id id out.job job (process-id job w),
          )
    ]
    step-copies id (due i) s s' h = elim (Option-cases (remove_at i s.delayed)) [
      | inl e ↦ ground arith
      | inr ((job, rest), e) ↦
          ground
            (arith, count-remove_at id i s.delayed rest job e, count_lines-enter id job s.lines)
    ]
    step-copies id (lose_due i) s s' h = elim (Option-cases (remove_at i s.delayed)) [
      | inl e ↦ ground arith
      | inr ((job, rest), e) ↦
          ground (arith, count-remove_at id i s.delayed rest job e, count-cons id job s.lost)
    ]

    -- After any schedule of the goroutines, shutdown included, the copies of each job id are those from
    -- before and those that the schedule queued: each is in the queue, in the pool, among the settled
    -- jobs, the skipped ones, those dropped because they could not be locked, or those lost to a push
    -- that failed or to an element that could not be decoded. None gets lost otherwise, and the pool
    -- doubles none.
    pub run-copies :
        (id : String) (es : List (Event Q S C E)) (s s' : Pool)
        → run queue jobs cache env rt cfg registry workers es s ≡ some s'
        → copies id s' ≡ copies id s + count id (arrivals es)
    unfolding run arrivals count
    run-copies id [] s s' h = ground arith
    run-copies id (e ∷ es) s s' h =
        elim (Option-cases (step queue jobs cache env rt cfg registry workers e s)) [
          | inl n ↦ ground arith
          | inr (t, n) ↦
              ground (arith, step-copies id e s t n, count-arrivals id e es, run-copies id es t s')
        ]

    -- A pool that a schedule has drained holds no job itself: each copy of a job that was there before or
    -- that the schedule queued is in the queue, settled, skipped, dropped because it could not be
    -- locked, or lost; and as many jobs more are lost as pushes of the schedule failed and elements
    -- could not be decoded.
    pub run-is_drained :
        (id : String) (es : List (Event Q S C E)) (s s' : Pool)
        → run queue jobs cache env rt cfg registry workers es s ≡ some s'
        → is_drained s' ≡ true
        → (count_lines id s'.lines
              + count id s'.settled
              + count id s'.skipped
              + count id s'.dropped
              + count id s'.lost
            ≡ copies id s + count id (arrivals es))
          × (length s'.lost ≡ length s.lost + failures es)
    run-is_drained id es s s' h d = (
      omega (arith, drained id s' d, run-copies id es s s' h),
      run-lost queue jobs cache env rt cfg registry workers es s s' h,
    )
