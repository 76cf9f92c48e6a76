-- ===== src/Api/Handlers/Gateway/Delivers.antt =====
-- internal/api/handlers/gateway_handler.go over internal/service, internal/repository and
-- internal/queue: where the job of an accepted request is.
use mathlib.Core.Path.{subst}
use ingress_api_gateway.Prelude.{
  ℕ, String, ◌≡◌, refl, ap, sym, ◌∙◌, ◌⊎◌, inl, inr, Bool, true, false, arith, List, Bool-cases,
  eq_refl,
}
use ingress_api_gateway.Prelude.Int.{ℤ}
use ingress_api_gateway.Domain.Result.{Result, ok, err}
use ingress_api_gateway.Domain.Job.{Job, JobType, job_status_queued, priority_for_type}
use ingress_api_gateway.Domain.Ports.{Cache, Env, Runtime, World, EnqueueResult, Enqueuer}
use ingress_api_gateway.Redis.{Redis, IsServer}
use ingress_api_gateway.Queue.{redis_queue}
use ingress_api_gateway.Queue.Spec.{Lines, enter}
use ingress_api_gateway.Queue.Refines.{KeepsJobs, Holds, queue_push-enter}
use ingress_api_gateway.Service.Gateway.{GatewayConfig, enqueue}
use ingress_api_gateway.Service.Gateway.Accepts.{enqueue-IsAccepted}
use ingress_api_gateway.Repository.Database.{Postgres}
use ingress_api_gateway.Repository.Jobs.{get_by_id, postgres_jobs}
use ingress_api_gateway.Repository.Jobs.Table.{Row, IsPostgres, restored}
use ingress_api_gateway.Repository.Jobs.RoundTrip.{get_by_id-create}
use ingress_api_gateway.Api.Http.{BodyRead, bytes, max_bytes_error, broken, Request}
use ingress_api_gateway.Api.Handlers.Gateway.{accept, request_of}
use ingress_api_gateway.Api.Handlers.Gateway.Replies.{
  is_acceptable, status_of, accept_refuses, accept_replies,
}

BodyRead-cases :
    (b : BodyRead) → ((body : String) × (b ≡ bytes body)) ⊎ (b ≡ max_bytes_error) ⊎ (b ≡ broken)
BodyRead-cases (bytes body) = inl (body, refl)
BodyRead-cases max_bytes_error = inr (inl refl)
BodyRead-cases broken = inr (inr refl)

status_of_202 :
    (a : Result EnqueueResult)
    → status_of a ≡ 202
    → (res : EnqueueResult) × (a ≡ ok res) × (res.duplicate ≡ false)
status_of_202 (ok res) h = (res, refl, ground arith)
status_of_202 (err e) h = ground arith

module _ {W : Type 0} (rt : Runtime) (enqueuer : Enqueuer W) (secret : String) where
  -- A 202 comes of a fresh answer of the enqueuer.
  accept_202 :
      (job_type : JobType) (verify_hmac : Bool) (r : Request) (w : W)
      → (accept rt enqueuer secret job_type verify_hmac r w).0.status ≡ 202
      → (body : String) × (res : EnqueueResult) × ((enqueuer
            (request_of rt enqueuer secret job_type r body)
            w).0
          ≡ ok res)
        × (res.duplicate ≡ false)
        × ((accept rt enqueuer secret job_type verify_hmac r w).1
            ≡ (enqueuer (request_of rt enqueuer secret job_type r body) w).1)
  accept_202 job_type verify_hmac r w h =
      elim (Bool-cases (is_acceptable rt secret job_type verify_hmac r (r.body r.limit))) [
        | inr n ↦
            let refused = accept_refuses rt enqueuer secret job_type verify_hmac r w n in
            ground arith
        | inl p ↦ elim (BodyRead-cases (r.body r.limit)) [
          | inl (body, q) ↦
              let good : is_acceptable rt secret job_type verify_hmac r (bytes body) ≡ true =
                sym (ap (is_acceptable rt secret job_type verify_hmac r) q) ∙ p in
              let (moved, st) =
                accept_replies rt enqueuer secret job_type verify_hmac r body w q good in
              let (res, answered, fresh) = status_of_202 _ (sym st ∙ h) in
              (body, res, answered, fresh, moved)
          | inr unread ↦ ground arith
        ]
      ]

module _ {R D C E : Type 0} (redis : Redis R) (lists : R → String → List String)
    (server : IsServer redis lists) (pg : Postgres D) (jsonb : String → String) (instant : ℕ → ℕ)
    (rows : D → List Row) (is_postgres : IsPostgres jsonb instant pg rows) (cache : Cache C)
    (env : Env E) (rt : Runtime) (encode : Job → String) (back : Job → Job)
    (keeps : KeepsJobs rt encode back) (poll_timeout : ℤ) (cfg : GatewayConfig)
    (secret : String) where
  -- The gateway's handlers over the Redis queue and the jobs table.
  abbrev pub enqueuer : Enqueuer (World R D C E)
  enqueuer = enqueue (redis_queue redis rt poll_timeout) (postgres_jobs pg) cache env rt cfg

  -- On a Redis server and a Postgres as documented, with JSON that keeps jobs and the server's lists
  -- holding the lines: a request that is answered 202 has a job of the route's type, in state QUEUED
  -- and with the priority of its type, that GetByID reads back from the jobs table as Postgres keeps
  -- it, and the server's lists now hold the lines with that job at the end of the line of its
  -- priority.
  pub accept_delivers :
      (job_type : JobType) (verify_hmac : Bool) (r : Request) (w : World R D C E) (l : Lines)
      → Holds encode (lists w.queue) l
      → (accept rt enqueuer secret job_type verify_hmac r w).0.status ≡ 202
      → let w' = (accept rt enqueuer secret job_type verify_hmac r w).1 in
        (job : Job) × (job.job_type ≡ job_type)
        × (job.status ≡ job_status_queued)
        × (job.priority ≡ priority_for_type job_type)
        × ((get_by_id pg job.id w'.store).0 ≡ ok (restored jsonb instant job))
        × Holds encode (lists w'.queue) (enter job l)
  accept_delivers job_type verify_hmac r w l holds h =
      let (body, res, answered, fresh, moved) =
        accept_202 rt enqueuer secret job_type verify_hmac r w h in
      let req = request_of rt enqueuer secret job_type r body in
      let done =
        enqueue-IsAccepted (redis_queue redis rt poll_timeout) (postgres_jobs pg) cache env rt cfg
          req w res answered fresh in
      let read =
        get_by_id-create jsonb instant pg rows is_postgres res.job res.job.id w.store
          done.created in
      let (_, joined) =
        queue_push-enter redis lists server rt encode back keeps poll_timeout res.job w.queue l
          holds in
      (
        res.job,
        done.job_type,
        done.status,
        done.priority,
        ap (λ v. (get_by_id pg res.job.id v.store).0) moved
            ∙ ap (λ st. (get_by_id pg res.job.id st).0) done.store
            ∙ read
            ∙ rw (eq_refl res.job.id) refl,
        subst (λ q. Holds encode (lists q) (enter res.job l))
            (sym (ap (λ v. v.queue) moved ∙ done.queue')) joined,
      )
