-- ===== src/Worker/Goroutines.antt =====
-- internal/worker/pool.go: the goroutines of a pool, as the steps that they take on what they share:
-- the dispatcher, the workers, the delayed retries and the cancellation. The queue is the one of
-- Queue.Spec; a push of the pool may fail, and then leaves the queue as it was. `process` runs in any
-- world, also in one whose calls fail, as they do with the cancelled context that it is given.
pub mod Lost
pub mod Conserve
pub mod Drain
pub mod Bounds
pub mod Settled
pub mod Dropped
use ingress_api_gateway.Prelude.{
  ℕ, zero, suc, ◌+◌, ◌*◌, String, Bool, true, false, ◌&&◌, Option, none, some, List, [], ◌∷◌, ◌++◌,
  length, ltb, if◌then◌else◌,
}
use ingress_api_gateway.Prelude.Int.{ℤ, pos, is_positive, pos_part}
use ingress_api_gateway.Domain.Job.{Job}
use ingress_api_gateway.Domain.Ports.{Queue, Cache, JobRepository, Env, Runtime, World, Processor}
use ingress_api_gateway.Queue.Spec.{Lines, enter, serve}
use ingress_api_gateway.Domain.Result.{Result}
use ingress_api_gateway.Worker.Pool.{
  RetryConfig, Outcome, process, find_processor, done_key, lock_key, lock_ttl, is_done, is_acquired,
}

-- Where the dispatcher stands: at the head of its loop, in `Pop`, in the pause after an error, in the
-- select with the job that it popped, or returned, with the channel closed.
pub data Dispatcher : Type 0 where
  head polling paused stopped : Dispatcher
  holding : Job → Dispatcher

-- `channel` is the buffer, `running` the jobs in `process` and `delayed` those of the retry goroutines.
-- Of those that the pool is done with, `settled` were processed to SUCCESS or DEAD_LETTER, `skipped`
-- were marked as done, `dropped` could not be locked, and `lost` are those whose last push has failed
-- and those that the queue gave up but that could not be decoded.
pub record Pool : Type 0 where
  pub lines : Lines
  pub dispatcher : Dispatcher
  pub channel : List Job
  pub running : List Job
  pub delayed : List Job
  pub settled : List Job
  pub skipped : List Job
  pub dropped : List Job
  pub lost : List Job
  pub cancelled : Bool

-- The defaults of `NewPool`: 4 workers.
unfoldable pub workers_or_default : ℤ → ℕ
workers_or_default n = if is_positive n then pos_part n else 4

-- The buffer of the channel.
unfoldable pub buffer : ℕ → ℕ
buffer workers = workers * 2

-- A step of one of the goroutines, the cancellation, or a job that is queued, by a request or by a
-- processor. A number picks one of several. `lose_back` and `lose_due` are `give_back` and `due` with a
-- push that fails, and `garble` is a `Pop` whose element cannot be decoded.
pub data Event (Q S C E : Type 0) : Type 0 where
  cancel look receive garble timeout broken wake send give_back lose_back take_job : Event Q S C E
  arrive : Job → Event Q S C E
  finish : ℕ → World Q S C E → Event Q S C E
  due lose_due : ℕ → Event Q S C E

abbrev pub put_back : Job → Option (Job × List Job) → Option (Job × List Job)
put_back j none = none
put_back j (some (k, rest)) = some (k, j ∷ rest)

unfoldable pub remove_at : ℕ → List Job → Option (Job × List Job)
remove_at i [] = none
remove_at zero (j ∷ js) = some (j, js)
remove_at (suc i) (j ∷ js) = put_back j (remove_at i js)

-- `if ctx.Err() != nil { return }`
abbrev pub on_look : Dispatcher → Pool → Option Pool
on_look head s = some (record s { dispatcher = if s.cancelled then stopped else polling })
on_look other s = none

abbrev pub hand_over : Option Job × Lines → Pool → Option Pool
hand_over (some job, lines) s = some (record s { lines = lines; dispatcher = holding job })
hand_over (none, lines) s = none

-- `Pop` answers a job.
abbrev pub on_receive : Dispatcher → Pool → Option Pool
on_receive polling s = hand_over (serve s.lines) s
on_receive other s = none

-- `Pop` has taken the element off its list when it fails to decode it.
abbrev pub throw_away : Option Job × Lines → Pool → Option Pool
throw_away (some job, lines) s =
    some (record s { lines = lines; dispatcher = paused; lost = job ∷ s.lost })
throw_away (none, lines) s = none

abbrev pub on_garble : Dispatcher → Pool → Option Pool
on_garble polling s = throw_away (serve s.lines) s
on_garble other s = none

abbrev pub on_timeout : Dispatcher → Dispatcher → Pool → Option Pool
on_timeout next polling s = some (record s { dispatcher = next })
on_timeout next other s = none

-- The pause is over, or the context is cancelled.
abbrev pub on_wake : Dispatcher → Pool → Option Pool
on_wake paused s = some (record s { dispatcher = if s.cancelled then stopped else head })
on_wake other s = none

-- The two cases of the select: both are possible once the context is cancelled.
abbrev pub on_send : ℕ → Dispatcher → Pool → Option Pool
on_send workers (holding job) s =
    if ltb (length s.channel) (buffer workers)
    then some (record s { channel = s.channel ++ job ∷ []; dispatcher = head })
    else none
on_send workers other s = none

abbrev pub on_give_back : Dispatcher → Pool → Option Pool
on_give_back (holding job) s =
    if s.cancelled
    then some (record s { lines = enter job s.lines; dispatcher = stopped })
    else none
on_give_back other s = none

-- The error of the push is dropped.
abbrev pub on_lose_back : Dispatcher → Pool → Option Pool
on_lose_back (holding job) s =
    if s.cancelled then some (record s { dispatcher = stopped; lost = job ∷ s.lost }) else none
on_lose_back other s = none

-- A worker that is free takes the next job of the channel, closed or not.
abbrev pub on_take : ℕ → List Job → Pool → Option Pool
on_take workers [] s = none
on_take workers (job ∷ rest) s =
    if ltb (length s.running) workers
    then some (record s { channel = rest; running = job ∷ s.running })
    else none

-- How `process` gets past its guards: the marker of the job, then its lock.
pub data Passage : Type 0 where
  through marked unlocked : Passage

abbrev pub settle : Passage → Outcome → Option ℕ → List Job → Pool → Pool
settle through out none rest s = record s { running = rest; settled = out.job ∷ s.settled }
settle through out (some delay) rest s = record s { running = rest; delayed = out.job ∷ s.delayed }
settle marked out retry rest s = record s { running = rest; skipped = out.job ∷ s.skipped }
settle unlocked out retry rest s = record s { running = rest; dropped = out.job ∷ s.dropped }

-- The timer of a delayed retry, or the cancellation, pushes the job.
abbrev pub on_due : Option (Job × List Job) → Pool → Option Pool
on_due none s = none
on_due (some (job, rest)) s = some (record s { lines = enter job s.lines; delayed = rest })

-- The push, and the second one that follows a first that failed, fail: the error is dropped.
abbrev pub on_lose_due : Option (Job × List Job) → Pool → Option Pool
on_lose_due none s = none
on_lose_due (some (job, rest)) s = some (record s { delayed = rest; lost = job ∷ s.lost })

module _ {Q S C E : Type 0} (queue : Queue Q) (jobs : JobRepository S) (cache : Cache C)
    (env : Env E) (rt : Runtime) (cfg : RetryConfig) (registry : List (Processor (World Q S C E)))
    (workers : ℕ) where
  -- A job without a processor is dead-lettered before the guards.
  abbrev pub passage_from :
      Option (Processor (World Q S C E)) → Result (Option String) → Result Bool → Passage
  passage_from none done acquired = through
  passage_from (some p) done acquired =
      if is_done done then marked else if is_acquired acquired then through else unlocked

  unfoldable pub passage : Job → World Q S C E → Passage
  passage job w =
      let (done, c) = cache.get (done_key job) w.cache in
      passage_from (find_processor registry job.job_type) done
        (cache.set_nx (lock_key job) "1" lock_ttl c).0

  -- `process` has returned, after it ran in the world `w`.
  abbrev pub on_finish : World Q S C E → Option (Job × List Job) → Pool → Option Pool
  on_finish w none s = none
  on_finish w (some (job, rest)) s =
      let out = (process queue jobs cache env rt cfg registry job w).0 in
      some (settle (passage job w) out out.retry rest s)

  -- `none` where the step is not possible.
  unfoldable pub step : Event Q S C E → Pool → Option Pool
  step cancel s = if s.cancelled then none else some (record s { cancelled = true })
  step look s = on_look s.dispatcher s
  step receive s = on_receive s.dispatcher s
  step garble s = on_garble s.dispatcher s
  step (arrive job) s = some (record s { lines = enter job s.lines })
  step timeout s = on_timeout head s.dispatcher s
  step broken s = on_timeout paused s.dispatcher s
  step wake s = on_wake s.dispatcher s
  step send s = on_send workers s.dispatcher s
  step give_back s = on_give_back s.dispatcher s
  step lose_back s = on_lose_back s.dispatcher s
  step take_job s = on_take workers s.channel s
  step (finish i w) s = on_finish w (remove_at i s.running) s
  step (due i) s = on_due (remove_at i s.delayed) s
  step (lose_due i) s = on_lose_due (remove_at i s.delayed) s

  abbrev pub and_then : List (Event Q S C E) → (Pool → Option Pool) → Option Pool → Option Pool
  and_then es k none = none
  and_then es k (some s) = k s

  -- A schedule of steps.
  unfoldable pub run : List (Event Q S C E) → Pool → Option Pool
  run [] s = some s
  run (e ∷ es) s = and_then es (run es) (step e s)

-- What Shutdown waits for: the dispatcher, the workers and the delayed retries have returned.
abbrev pub is_stopped : Dispatcher → Bool
is_stopped stopped = true
is_stopped other = false

abbrev pub is_empty : List Job → Bool
is_empty [] = true
is_empty (job ∷ rest) = false

unfoldable pub is_drained : Pool → Bool
is_drained s =
    is_stopped s.dispatcher && is_empty s.channel && is_empty s.running && is_empty s.delayed

-- How many pushes of a schedule fail, and how many jobs it fails to decode.
unfoldable pub failures : {Q S C E : Type 0} → List (Event Q S C E) → ℕ
failures [] = 0
failures (garble ∷ es) = suc (failures es)
failures (lose_back ∷ es) = suc (failures es)
failures (lose_due i ∷ es) = suc (failures es)
failures (other ∷ es) = failures es

-- The jobs that a schedule queues.
unfoldable pub arrivals : {Q S C E : Type 0} → List (Event Q S C E) → List Job
arrivals [] = []
arrivals (arrive job ∷ es) = job ∷ arrivals es
arrivals (other ∷ es) = arrivals es

abbrev pub is_own : {Q S C E : Type 0} → Event Q S C E → Bool
is_own (arrive job) = false
is_own other = true

-- The steps of a schedule that the pool takes itself.
unfoldable pub own_steps : {Q S C E : Type 0} → List (Event Q S C E) → ℕ
own_steps [] = 0
own_steps (e ∷ es) = let n = own_steps es in if is_own e then suc n else n
