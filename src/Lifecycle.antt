-- ===== src/Lifecycle.antt =====
-- A job from the request to its end: internal/service/gateway_service.go over internal/queue,
-- internal/repository and internal/worker/pool.go.
use mathlib.Core.Path.{subst}
use ingress_api_gateway.Prelude.{
  ℕ, String, ◌≡◌, refl, ap, sym, ◌∙◌, false, Option, none, some, List, ◌<>◌, eq_refl,
}
use ingress_api_gateway.Prelude.Int.{ℤ}
use ingress_api_gateway.Domain.Result.{Result, ok}
use ingress_api_gateway.Domain.Job.{Job}
use ingress_api_gateway.Domain.Laws.{IsReliable, is_none}
use ingress_api_gateway.Domain.Ports.{
  Cache, Env, Runtime, World, EnqueueRequest, EnqueueResult, Processor, Queue, JobRepository,
}
use ingress_api_gateway.Redis.{Redis, IsServer}
use ingress_api_gateway.Queue.{redis_queue, queue_pop}
use ingress_api_gateway.Queue.Spec.{Lines, enter, serve}
use ingress_api_gateway.Queue.Refines.{
  KeepsJobs, Holds, restored_one, queue_push-enter, queue_pop-serve,
}
use ingress_api_gateway.Service.Gateway.{GatewayConfig, enqueue}
use ingress_api_gateway.Service.Gateway.Accepts.{enqueue-IsAccepted}
use ingress_api_gateway.Service.Gateway.Keys.{job_key_of, enqueue_keeps}
use ingress_api_gateway.Repository.Database.{Postgres}
use ingress_api_gateway.Repository.Jobs.{get_by_id, update, postgres_jobs}
use ingress_api_gateway.Repository.Jobs.Table.{Row, IsPostgres, restored, mutated}
use ingress_api_gateway.Repository.Jobs.RoundTrip.{get_by_id-create}
use ingress_api_gateway.Repository.Jobs.Contract.{postgres_jobs-IsJobTable}
use ingress_api_gateway.Worker.Pool.{
  RetryConfig, Outcome, process, find_processor, done_key, lock_key, lock_ttl, is_done,
}
use ingress_api_gateway.Worker.Pool.Stored.{process_stored}
use ingress_api_gateway.Worker.Pool.Verdict.{called, verdict, process-verdict}

module _ {R D C E : Type 0} (redis : Redis R) (lists : R → String → List String)
    (server : IsServer redis lists) (pg : Postgres D) (jsonb : String → String) (instant : ℕ → ℕ)
    (rows : D → List Row) (is_postgres : IsPostgres jsonb instant pg rows)
    (answers : (j old : Job) (d : D) → (get_by_id pg j.id d).0 ≡ ok old → (update pg j d).0 ≡ ok tt)
    (cache : Cache C) (view : C → String → Option String) (reliable : IsReliable cache view)
    (env : Env E) (rt : Runtime) (encode : Job → String) (back : Job → Job)
    (keeps : KeepsJobs rt encode back) (poll_timeout : ℤ) (gateway : GatewayConfig)
    (retries : RetryConfig) where
  abbrev queue : Queue R
  queue = redis_queue redis rt poll_timeout

  abbrev jobs : JobRepository D
  jobs = postgres_jobs pg

  abbrev pub accept_request : EnqueueRequest → World R D C E → Result EnqueueResult × World R D C E
  accept_request = enqueue queue jobs cache env rt gateway

  -- What a worker does with the next job of the queue.
  abbrev pub run_job :
      List (Processor (World R D C E)) → Job → World R D C E → Outcome × World R D C E
  run_job = process queue jobs cache env rt retries

  -- The job and the world that the worker calls the processor with, after it has popped the job.
  abbrev pub call_of : Job → World R D C E → Job × World R D C E
  call_of job w =
      called queue jobs cache env rt retries (back job)
        (record w { queue = (queue_pop redis rt poll_timeout w.queue).1 })

  -- A lock or a marker that is free before the request is free for the job as it is popped.
  still_free :
      (prefix : String) (req : EnqueueRequest) (job : Job) (w : World R D C E)
      → (back job).id ≡ job.id
      → view w.cache (("job:" <> prefix) <> job.id) ≡ none
      → view (accept_request req w).1.cache (("job:" <> prefix) <> (back job).id) ≡ none
  still_free prefix req job w same free =
      let v = (accept_request req w).1 in
      ap (λ i. view v.cache (("job:" <> prefix) <> i)) same
      ∙ job_key_of view v.cache w.cache prefix job.id
          (enqueue_keeps queue jobs cache env rt gateway view reliable (prefix <> job.id) req w)
      ∙ free

  -- The row of an accepted job, by the id of the job as it is popped.
  accepted_row :
      (req : EnqueueRequest) (w : World R D C E) (res : EnqueueResult)
      → (accept_request req w).0 ≡ ok res
      → res.duplicate ≡ false
      → (back res.job).id ≡ res.job.id
      → (get_by_id pg (back res.job).id (accept_request req w).1.store).0
        ≡ ok (restored jsonb instant res.job)
  accepted_row req w res answered fresh same =
      let done = enqueue-IsAccepted queue jobs cache env rt gateway req w res answered fresh in
      ap (λ i. (get_by_id pg i (accept_request req w).1.store).0) same
      ∙ ap (λ d. (get_by_id pg res.job.id d).0) done.store
      ∙ get_by_id-create jsonb instant pg rows is_postgres res.job res.job.id w.store done.created
      ∙ rw (eq_refl res.job.id) refl

  -- On a Redis server and a Postgres as documented, that answers each Update of a job that it holds, with
  -- a reliable cache: of a request answered as fresh, whose job JSON restores with its id and its type,
  -- is the next that the lines serve once it has entered them, and has neither marker nor lock, Pop
  -- answers the job as JSON restores it; and when a worker has processed it with a processor of its type
  -- that changes in this call no answer of GetByID for this job, then GetByID reads the job under its id
  -- with the status that the answer of the processor to this call and the retry budget decide.
  pub enqueue-pop-process :
      (req : EnqueueRequest) (w : World R D C E) (res : EnqueueResult) (l l' : Lines)
      (registry : List (Processor (World R D C E))) (p : Processor (World R D C E))
      → Holds encode (lists w.queue) l
      → (accept_request req w).0 ≡ ok res
      → res.duplicate ≡ false
      → (back res.job).id ≡ res.job.id
      → (back res.job).job_type ≡ res.job.job_type
      → serve (enter res.job l) ≡ (some res.job, l')
      → view w.cache (done_key res.job) ≡ none
      → view w.cache (lock_key res.job) ≡ none
      → find_processor registry res.job.job_type ≡ some p
      → let (running, v) = call_of res.job (accept_request req w).1 in
        (get_by_id pg (back res.job).id (p.process running v).1.store).0
          ≡ (get_by_id pg (back res.job).id v.store).0
        → let w1 = (accept_request req w).1 in
          let (popped, q) = queue_pop redis rt poll_timeout w1.queue in
          let out = run_job registry (back res.job) (record w1 { queue = q }) in
          (popped ≡ ok (some (back res.job)))
          × (stored : Job) × ((get_by_id pg res.job.id out.1.store).0 ≡ ok stored)
          × (let (running, v) = call_of res.job w1 in
              stored.status ≡ verdict (p.process running v).0 (back res.job))
  enqueue-pop-process req w res l l' registry p holds answered fresh same same_type next unmarked
        free found untouched =
      let job = res.job in
      let w1 = (accept_request req w).1 in
      let q = (queue_pop redis rt poll_timeout w1.queue).1 in
      let w2 : World R D C E = record w1 { queue = q } in
      let done = enqueue-IsAccepted queue jobs cache env rt gateway req w res answered fresh in
      let (_, joined) =
        queue_push-enter redis lists server rt encode back keeps poll_timeout job w.queue l holds in
      let entered : Holds encode (lists w1.queue) (enter job l) =
        subst (λ u. Holds encode (lists u) (enter job l)) (sym done.queue') joined in
      let (popped, _) =
        queue_pop-serve redis lists server rt encode back keeps poll_timeout w1.queue (enter job l)
          entered in
      let read = accepted_row req w res answered fresh same in
      let c = (cache.get (done_key (back job)) w1.cache).1 in
      let not_done = ap is_done (
        reliable.get_reply (done_key (back job)) w1.cache
        ∙ ap ok (still_free "done:" req job w same unmarked)) in
      let lockable =
        reliable.set_nx_reply (lock_key (back job)) "1" lock_ttl c
        ∙ ap (λ o. ok (is_none o))
            (reliable.get_view (done_key (back job)) w1.cache (lock_key (back job))
              ∙ still_free "lock:" req job w same free) in
      let found' = ap (find_processor registry) same_type ∙ found in
      let stored =
        process_stored queue jobs (restored jsonb instant) (mutated jsonb instant)
          (postgres_jobs-IsJobTable pg jsonb instant rows is_postgres) answers cache env rt retries
          registry p (back job) (restored jsonb instant job) w2 found' not_done lockable untouched
          read in
      let decided =
        process-verdict queue jobs cache env rt retries registry p (back job) w2 found' not_done
          lockable in
      (
        popped ∙ ap (λ o. ok (restored_one back o.0)) next,
        (mutated jsonb instant (run_job registry (back job) w2).0.job (restored jsonb instant job)),
        ap (λ i. (get_by_id pg i (run_job registry (back job) w2).1.store).0) (sym same) ∙ stored,
        decided.0,
      )
