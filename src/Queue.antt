-- ===== src/Queue.antt =====
-- internal/queue/redis_queue.go: the queue port over Redis lists.
pub mod Spec
pub mod Refines
use ingress_api_gateway.Prelude.{
  ℕ, zero, suc, ◌+◌, ◌-◌, String, Option, none, some, List, [], ◌∷◌, ◌==◌, if◌then◌else◌,
}
use ingress_api_gateway.Prelude.Int.{ℤ, pos, is_positive, pos_part}
use ingress_api_gateway.Domain.Error.{Error, wrap, foreign}
use ingress_api_gateway.Domain.Result.{Result, ok, err, Act, fail, map_error, ◌>>=◌, ◌>>◌}
use ingress_api_gateway.Domain.Job.{Job, Priority, priority_high, priority_low}
use ingress_api_gateway.Domain.Ports.{Queue, Runtime}
use ingress_api_gateway.Redis.{Redis, Reply, value, nil, cancelled, failed}

abbrev pub key_high : String
key_high = "jobs:high"

abbrev pub key_medium : String
key_medium = "jobs:medium"

abbrev pub key_low : String
key_low = "jobs:low"

abbrev pub key_dead_letter : String
key_dead_letter = "jobs:dead-letter"

abbrev pub ordered_keys : List String
ordered_keys = key_high ∷ key_medium ∷ key_low ∷ []

-- The default of `NewRedisQueue`: 5 s.
unfoldable pub poll_timeout_or_default : ℤ → ℤ
poll_timeout_or_default t = if is_positive t then t else pos 5000000000

unfoldable pub key_for_priority : Priority → String
key_for_priority p =
    if p == priority_high then key_high else if p == priority_low then key_low else key_medium

abbrev pub sum : List ℕ → ℕ
sum [] = 0
sum (n ∷ ns) = n + sum ns

-- The jobs of a list reply; the first that cannot be decoded fails the call.
abbrev pub cons_job : Result Job → Result (List Job) → Result (List Job)
cons_job (ok job) (ok jobs) = ok (job ∷ jobs)
cons_job (ok job) (err e) = err e
cons_job (err e) rest = err (wrap "unmarshal dead-letter job: " e "")

abbrev pub decode_all : (String → Result Job) → List String → Result (List Job)
decode_all decode [] = ok []
decode_all decode (v ∷ vs) = cons_job (decode v) (decode_all decode vs)

abbrev pub some_job : Result Job → Result (Option Job)
some_job (ok job) = ok (some job)
some_job (err e) = err (wrap "unmarshal job: " e "")

module _ {R : Type 0} (redis : Redis R) (rt : Runtime) (poll_timeout : ℤ) where
  unfoldable pub queue_push : Job → Act R (Unit {0})
  unfolding key_for_priority
  queue_push job r = elim (rt.encode_job job) [
    | ok b ↦ redis.lpush (key_for_priority job.priority) b r
    | err e ↦ (err (wrap "marshal job: " e ""), r)
  ]

  -- A reply of another length than two is an error, whose text here leaves out the length; a timeout or a cancelled context is no job.
  abbrev pub popped : Reply (List String) → Result (Option Job)
  popped (value (k ∷ v ∷ [])) = some_job (rt.decode_job v)
  popped (value other) = err (foreign "unexpected BRPOP result length")
  popped nil = ok none
  popped cancelled = ok none
  popped (failed e) = err e

  unfoldable pub queue_pop : Act R (Option Job)
  queue_pop r = let (reply, r') = redis.brpop poll_timeout ordered_keys r in (popped reply, r')

  unfoldable pub queue_push_dead_letter : Job → Act R (Unit {0})
  queue_push_dead_letter job r = elim (rt.encode_job job) [
    | ok b ↦ redis.lpush key_dead_letter b r
    | err e ↦ (err (wrap "marshal dead-letter job: " e ""), r)
  ]

  unfoldable pub queue_depth : Priority → Act R ℕ
  unfolding key_for_priority
  queue_depth p = redis.llen (key_for_priority p)

  unfoldable pub queue_total_depth : Act R ℕ
  queue_total_depth = do counts ← redis.llen_all ordered_keys; λ r. (ok (sum counts), r)

  unfoldable pub queue_dead_letter_depth : Act R ℕ
  queue_dead_letter_depth = redis.llen key_dead_letter

  unfoldable pub queue_list_dead_letter : ℤ → Act R (List Job)
  queue_list_dead_letter limit = do
    let n = if is_positive limit then pos_part limit else 50
    vals ← redis.lrange key_dead_letter 0 (pos (n - 1))
    λ r. (decode_all rt.decode_job vals, r)

  abbrev pub redis_queue : Queue R
  redis_queue = record {
    push = queue_push;
    pop = queue_pop;
    push_dead_letter = queue_push_dead_letter;
    depth = queue_depth;
    total_depth = queue_total_depth;
    dead_letter_depth = queue_dead_letter_depth;
    list_dead_letter = queue_list_dead_letter;
    ping = redis.ping;
  }
