-- ===== src/Tests/Goroutines.antt =====
-- The goroutines of internal/worker/pool.go at a concrete schedule: one job is popped, processed with
-- success, and the pool shuts down.
use ingress_api_gateway.Prelude.{
  ◌⊎◌, ◌*◌, ◌≤◌, ℕ, ◌+◌, ◌≡◌, refl, true, false, some, List, [], ◌∷◌, arith, length,
}
use ingress_api_gateway.Prelude.Int.{pos}
use ingress_api_gateway.Domain.Result.{ok, err}
use ingress_api_gateway.Domain.Job.{Job, new_job}
use ingress_api_gateway.Domain.Ports.{Cache, World, Processor}
use ingress_api_gateway.Queue.Spec.{no_jobs, enter, serve}
use ingress_api_gateway.Worker.Pool.{RetryConfig, process, find_processor, run_locked}
use ingress_api_gateway.Worker.Goroutines.{
  Pool, head, stopped, Event, cancel, look, receive, send, take_job, finish, step, run, remove_at,
  buffer, is_drained, failures, arrivals, own_steps, passage,
}
use ingress_api_gateway.Worker.Goroutines.Conserve.{
  count, count_lines, copies, run-copies, run-is_drained,
}
use ingress_api_gateway.Worker.Goroutines.Drain.{GoesOn, run_ends}
use ingress_api_gateway.Worker.Goroutines.Settled.{Every, IsEnded, run-IsEnded}
use ingress_api_gateway.Domain.Error.{foreign}
use ingress_api_gateway.Tests.Reference.{
  Memory, memory_cache, list_queue, list_jobs, counter, rt, queued, fresh_world,
}

abbrev W : Type 0
W = World (List Job) (List Job) Memory ℕ

abbrev config : RetryConfig
config = record { retry_base = pos 100; retry_max = pos 1000 }

abbrev registry : List (Processor W)
registry = record { type = "REGISTRATION"; process = λ job w. (ok tt, w) } ∷ []

abbrev start : Pool
start = record {
  lines = enter queued no_jobs;
  dispatcher = head;
  channel = [];
  running = [];
  delayed = [];
  settled = [];
  skipped = [];
  dropped = [];
  lost = [];
  cancelled = false;
}

abbrev schedule : List (Event (List Job) (List Job) Memory ℕ)
schedule = look ∷ receive ∷ send ∷ take_job ∷ finish 0 fresh_world ∷ cancel ∷ look ∷ []

abbrev done : Job
done =
    (process list_queue list_jobs memory_cache counter rt config registry queued fresh_world).0.job

abbrev end : Pool
end = record start { lines = no_jobs; dispatcher = stopped; settled = done ∷ []; cancelled = true }

ran : run list_queue list_jobs memory_cache counter rt config registry 1 schedule start ≡ some end
unfolding run step serve enter new_job remove_at buffer process run_locked find_processor passage
ran = refl

run-copies_example : copies "u1" end ≡ copies "u1" start + 0
unfolding arrivals count
run-copies_example =
    run-copies list_queue list_jobs memory_cache counter rt config registry 1 "u1" schedule start
      end ran

run-is_drained_example :
    (count_lines "u1" no_jobs
        + count "u1" (done ∷ [])
        + count "u1" []
        + count "u1" []
        + count "u1" []
      ≡ copies "u1" start + 0)
    × (length end.lost ≡ 0)
unfolding is_drained failures arrivals count
run-is_drained_example =
    run-is_drained list_queue list_jobs memory_cache counter rt config registry 1 "u1" schedule
      start end ran refl

-- A pool that is cancelled while a job runs.
abbrev busy : Pool
busy = record start { lines = no_jobs; running = queued ∷ []; cancelled = true }

-- Its worker returns, and the dispatcher has to look at the context.
abbrev finished : Pool
finished = record busy { running = []; settled = done ∷ [] }

run_ends_example :
    (1 ≤ 6 + 3 * 0 + 2 * 1 + 0)
    × ((is_drained finished ≡ true)
        ⊎ GoesOn list_queue list_jobs memory_cache counter rt config registry 1 finished)
unfolding run step own_steps new_job remove_at process run_locked find_processor passage
run_ends_example =
    run_ends list_queue list_jobs memory_cache counter rt config registry 1
      (finish 0 fresh_world ∷ []) busy finished fresh_world refl (omega arith) refl

run-IsEnded_example : Every IsEnded (done ∷ [])
run-IsEnded_example =
    run-IsEnded list_queue list_jobs memory_cache counter rt config registry 1 schedule start end tt
      ran

-- A server that answers neither GET nor SETNX, and a job that is popped before the shutdown and taken
-- behind it.
abbrev cut_cache : Cache Memory
cut_cache = record memory_cache {
  get = λ k c. (err (foreign "context canceled"), c);
  set_nx = λ k v t c. (err (foreign "context canceled"), c);
}

abbrev shutdown : List (Event (List Job) (List Job) Memory ℕ)
shutdown = look ∷ receive ∷ send ∷ cancel ∷ take_job ∷ finish 0 fresh_world ∷ look ∷ []

abbrev cut : Pool
cut = record start {
  lines = no_jobs;
  dispatcher = stopped;
  dropped = queued ∷ [];
  cancelled = true;
}
