-- ===== src/Tests/Requests.antt =====
-- internal/service/gateway_service.go: requests in several goroutines, at concrete inputs.
use ingress_api_gateway.Prelude.{
  ltb, if◌then◌else◌, Bool-cases, inl, inr, ◌==◌, ℕ, ◌+◌, ◌≤◌, ◌≡◌, refl, true, false, String, none,
  some, List, [], ◌∷◌,
}
use ingress_api_gateway.Prelude.Int.{pos}
use ingress_api_gateway.Interleaving.{State, System, Reach, stay, later, begin, nobody}
use ingress_api_gateway.Domain.Error.{foreign, wrap, sentinel, err_not_found}
use ingress_api_gateway.Domain.Result.{ok, err}
use ingress_api_gateway.Domain.Job.{Job, new_job, job_type_valid}
use ingress_api_gateway.Domain.Ports.{Env, World, JobRepository, EnqueueRequest}
use ingress_api_gateway.Service.Idempotency.{idempotency_redis_key}
use ingress_api_gateway.Service.Gateway.{GatewayConfig, effective_key, stub_job}
use ingress_api_gateway.Service.Requests.{
  Request, received, fresh, claiming, replied, advance, advance_times, requests,
}
use ingress_api_gateway.Service.Requests.Claims.{Reach-claims}
use ingress_api_gateway.Service.Requests.Answers.{Reach-answers}
use ingress_api_gateway.Service.Requests.Unbacked.{claiming-fresh-fails}
use ingress_api_gateway.Tests.Interleaving.{walk}
use ingress_api_gateway.Tests.Reference.{
  list_jobs-FindsById, Memory, put, memory_cache, memory_cache-IsReliable, view, empty, list_queue,
  list_jobs, counter, rt, fresh_world, row_of,
}

abbrev config : GatewayConfig
config = record { max_retries = pos 3; idempotency_ttl = pos 10 }

abbrev W : Type 0
W = World (List Job) (List Job) Memory ℕ

abbrev request : EnqueueRequest
request = record {
  job_type = "REGISTRATION";
  payload = "{}";
  idempotency_key = "k";
  trace_id = "t";
}

abbrev key : String
key = "idemp:REGISTRATION:k"

abbrev system : System W Request
system = requests list_queue list_jobs memory_cache counter rt config view key

abbrev start : State W Request
start = nobody fresh_world

abbrev both : State W Request
both = record start { places = received request ∷ received request ∷ [] }

unfoldable two : Reach system start both
unfolding idempotency_redis_key effective_key
two =
    later (later stay (begin (received request) (request, refl, refl)))
      (begin (received request) (request, refl, refl))

-- The first request is answered, the second one as its duplicate.
unfoldable answered : (s : State W Request) × Reach system start s
unfolding walk two
answered = walk system (0 ∷ 1 ∷ 0 ∷ 1 ∷ 0 ∷ 1 ∷ 0 ∷ 1 ∷ []) start both two

Reach-claims_example : (1 ≤ 0 + 1) × (1 ≤ 1)
unfolding answered walk two advance new_job job_type_valid idempotency_redis_key effective_key
Reach-claims_example =
    Reach-claims list_queue list_jobs memory_cache counter rt config view memory_cache-IsReliable
      key fresh_world answered.0 refl answered.1

-- A table that fails each Create.
abbrev full : JobRepository (List Job)
full = record list_jobs { create = λ job s. (err (foreign "disk full"), s) }

-- The first request has claimed the key.
abbrev claimed : W
claimed = record fresh_world { cache = put key (some "u1") empty }

abbrev second : Request × W
second =
    advance_times list_queue full memory_cache counter rt config 3 (claiming request "t" "u2")
      claimed

claiming-fresh-fails_example :
    let (first, u) =
      advance_times list_queue full memory_cache counter rt config 3
        (fresh request "t" "u1")
        second.1 in
    (second.0
      ≡ replied (ok (record { job = stub_job "u1" "REGISTRATION" "k" "t"; duplicate = true })))
    × (first ≡ replied (err (wrap "persist job: " (foreign "disk full") "")))
    × (u.cache key ≡ none)
    × (u.queue ≡ [])
    × ((row_of "u1" u.store) ≡ err (sentinel err_not_found))
unfolding advance_times advance idempotency_redis_key effective_key row_of
claiming-fresh-fails_example =
    claiming-fresh-fails list_queue full memory_cache counter rt config view memory_cache-IsReliable
      request request "t" "t" "u1" "u2" claimed second.1 second.0 (sentinel err_not_found)
      (foreign "disk full") (λ i j s. refl) (λ i job s e h. refl) refl refl refl refl refl refl

-- The two requests draw two ids.
abbrev two_ids : Env ℕ
two_ids = record counter { new_uuid = λ e. (if ltb e 1 then "u1" else "u2", e + 1) }

two_ids_named : (e : ℕ) → ((two_ids.new_uuid e).0 == "") ≡ false
two_ids_named e = elim (Bool-cases (ltb e 1)) [ inl p ↦ rw p refl | inr n ↦ rw n refl ]

abbrev drawn : System W Request
drawn = requests list_queue list_jobs memory_cache two_ids rt config view key

unfoldable two_drawn : Reach drawn start both
unfolding idempotency_redis_key effective_key
two_drawn =
    later (later stay (begin (received request) (request, refl, refl)))
      (begin (received request) (request, refl, refl))

unfoldable replayed : (s : State W Request) × Reach drawn start s
unfolding walk two_drawn
replayed = walk drawn (0 ∷ 1 ∷ 0 ∷ 1 ∷ 0 ∷ 1 ∷ 0 ∷ 1 ∷ []) start both two_drawn

abbrev first_job : Job
first_job = new_job 2 "u1" "REGISTRATION" "{}" "k" "t" (pos 3)

Reach-answers_example : first_job.id ≡ "u1"
unfolding replayed walk two_drawn advance new_job job_type_valid idempotency_redis_key effective_key
    row_of
Reach-answers_example =
    Reach-answers list_queue list_jobs memory_cache two_ids rt config view memory_cache-IsReliable
      key list_jobs-FindsById (λ job s. refl) (λ job q. refl) two_ids_named fresh_world replayed.0 0
      1 (record { job = first_job; duplicate = false })
      (record { job = first_job; duplicate = true }) refl replayed.1 refl refl refl
