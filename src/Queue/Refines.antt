-- ===== src/Queue/Refines.antt =====
-- internal/queue/redis_queue.go implements the lines of `Spec` on a Redis server that answers.
use ingress_api_gateway.Prelude.{
  String, ◌≡◌, refl, ap, Option, none, some, List, [], ◌∷◌, ◌++◌, length, length-append, arith,
  ◌==◌, if◌then◌else◌,
}
use ingress_api_gateway.Prelude.Int.{ℤ}
use ingress_api_gateway.Domain.Result.{ok}
use ingress_api_gateway.Domain.Job.{Job}
use ingress_api_gateway.Domain.Ports.{Runtime}
use ingress_api_gateway.Redis.{Redis, IsServer, last?, init, first_tail, brpop_reply, after_pop}
use ingress_api_gateway.Queue.{
  key_high, key_medium, key_low, ordered_keys, queue_push, queue_pop, queue_total_depth,
}
use ingress_api_gateway.Queue.Spec.{Lines, enter, serve, waiting}

-- JSON encodes every job, and decodes its own texts: `restored` is what it gives back of a job, the
-- job itself but for what JSON cannot express, such as the monotonic reading of a clock.
pub record KeepsJobs (rt : Runtime) (encode : Job → String) (restored : Job → Job) : Type 0 where
  pub encodes : (job : Job) → rt.encode_job job ≡ ok (encode job)
  pub decodes : (job : Job) → rt.decode_job (encode job) ≡ ok (restored job)

abbrev pub restored_one : (Job → Job) → Option Job → Option Job
restored_one restored none = none
restored_one restored (some job) = some (restored job)

-- A Redis list holds a line with its newest job at the head.
unfoldable pub stored : (Job → String) → List Job → List String
stored encode [] = []
stored encode (job ∷ line) = stored encode line ++ encode job ∷ []

pub record Holds (encode : Job → String) (lists : String → List String) (l : Lines) : Type 0 where
  pub high : lists key_high ≡ stored encode l.high
  pub medium : lists key_medium ≡ stored encode l.medium
  pub low : lists key_low ≡ stored encode l.low

stored-append :
    (encode : Job → String) (line : List Job) (job : Job)
    → stored encode (line ++ job ∷ []) ≡ encode job ∷ stored encode line
unfolding stored
stored-append encode [] job = refl
stored-append encode (j ∷ line) job =
    ap (λ (l : List String). l ++ encode j ∷ []) (stored-append encode line job)

last?-append : (xs : List String) (x : String) → last? (xs ++ x ∷ []) ≡ some x
last?-append [] x = refl
last?-append (y ∷ []) x = refl
last?-append (y ∷ z ∷ l) x = last?-append (z ∷ l) x

init-append : (xs : List String) (x : String) → init (xs ++ x ∷ []) ≡ xs
init-append [] x = refl
init-append (y ∷ []) x = refl
init-append (y ∷ z ∷ l) x = ap (◌∷◌ y) (init-append (z ∷ l) x)

length-stored :
    (encode : Job → String) (line : List Job) → length (stored encode line) ≡ length line
unfolding stored
length-stored encode [] = refl
length-stored encode (job ∷ line) =
    omega (arith, length-append (stored encode line) (encode job ∷ []), length-stored encode line)

last?-stored :
    (encode : Job → String) (job : Job) (line : List Job)
    → last? (stored encode (job ∷ line)) ≡ some (encode job)
unfolding stored
last?-stored encode job line = last?-append (stored encode line) (encode job)

init-stored :
    (encode : Job → String) (job : Job) (line : List Job)
    → init (stored encode (job ∷ line)) ≡ stored encode line
unfolding stored
init-stored encode job line = init-append (stored encode line) (encode job)

stored-nil : (encode : Job → String) → stored encode [] ≡ []
unfolding stored
stored-nil encode = refl

module _ {R : Type 0} (redis : Redis R) (lists : R → String → List String)
    (server : IsServer redis lists) (rt : Runtime) (encode : Job → String) (restored : Job → Job)
    (keeps : KeepsJobs rt encode restored) (poll_timeout : ℤ) where
  -- One LPUSH, seen at the three lists.
  pushed_at :
      (key v : String) (r : R)
      → let r' = (redis.lpush key v r).1 in
        ((redis.lpush key v r).0 ≡ ok tt)
        × (lists r' key_high ≡ (if key == key_high then v ∷ lists r key_high else lists r key_high))
        × (lists r' key_medium
            ≡ (if key == key_medium then v ∷ lists r key_medium else lists r key_medium))
        × (lists r' key_low ≡ (if key == key_low then v ∷ lists r key_low else lists r key_low))
  pushed_at key v r = (
    server.lpush_reply key v r,
    server.lpush_lists key v r key_high,
    server.lpush_lists key v r key_medium,
    server.lpush_lists key v r key_low,
  )

  -- On a server that answers, with the lists of the server holding the lines: Push succeeds, and the
  -- job joins the end of its line.
  pub queue_push-enter :
      (job : Job) (r : R) (l : Lines)
      → Holds encode (lists r) l
      → ((queue_push redis rt poll_timeout job r).0 ≡ ok tt)
        × Holds encode (lists (queue_push redis rt poll_timeout job r).1) (enter job l)
  unfolding queue_push enter
  queue_push-enter job r l h = ground (
    arith,
    keeps.encodes job,
    pushed_at key_high (encode job) r,
    pushed_at key_medium (encode job) r,
    pushed_at key_low (encode job) r,
    stored-append encode l.high job,
    stored-append encode l.medium job,
    stored-append encode l.low job,
  )

  module _ (r : R) (l : Lines) (h : Holds encode (lists r) l) where
    -- What a pop answers and leaves, by the lines.
    abbrev Served : Type 0
    Served =
        ((queue_pop redis rt poll_timeout r).0 ≡ ok (restored_one restored (serve l).0))
        × Holds encode (lists (queue_pop redis rt poll_timeout r).1) (serve l).1

    -- One BRPOP, seen at the three lists.
    popped_at :
        let r' = (redis.brpop poll_timeout ordered_keys r).1 in
        let found = first_tail ordered_keys (lists r) in
        ((redis.brpop poll_timeout ordered_keys r).0 ≡ brpop_reply found)
        × (lists r' key_high ≡ after_pop found (lists r) key_high)
        × (lists r' key_medium ≡ after_pop found (lists r) key_medium)
        × (lists r' key_low ≡ after_pop found (lists r) key_low)
    popped_at = (
      server.brpop_value poll_timeout ordered_keys r,
      server.brpop_lists poll_timeout ordered_keys r key_high,
      server.brpop_lists poll_timeout ordered_keys r key_medium,
      server.brpop_lists poll_timeout ordered_keys r key_low,
    )

    serve_cases :
        (high medium low : List Job) → l.high ≡ high → l.medium ≡ medium → l.low ≡ low → Served
    unfolding queue_pop serve
    serve_cases (job ∷ rest) medium low eh em el = ground (
      arith,
      popped_at,
      last?-stored encode job rest,
      init-stored encode job rest,
      keeps.decodes job,
    )
    serve_cases [] (job ∷ rest) low eh em el = ground (
      arith,
      popped_at,
      stored-nil encode,
      last?-stored encode job rest,
      init-stored encode job rest,
      keeps.decodes job,
    )
    serve_cases [] [] (job ∷ rest) eh em el = ground (
      arith,
      popped_at,
      stored-nil encode,
      last?-stored encode job rest,
      init-stored encode job rest,
      keeps.decodes job,
    )
    serve_cases [] [] [] eh em el = ground (arith, popped_at, stored-nil encode)

  -- On a server that answers, with the lists of the server holding the lines: Pop answers the job
  -- that the lines serve, as JSON restores it, or none if all are empty, and takes it off its line.
  pub queue_pop-serve :
      (r : R) (l : Lines)
      → Holds encode (lists r) l
      → ((queue_pop redis rt poll_timeout r).0 ≡ ok (restored_one restored (serve l).0))
        × Holds encode (lists (queue_pop redis rt poll_timeout r).1) (serve l).1
  queue_pop-serve r l h = serve_cases r l h l.high l.medium l.low refl refl refl

  -- On a server that answers, with the lists of the server holding the lines, the total depth is the
  -- number of jobs that wait in the three lines.
  pub queue_total_depth-waiting :
      (r : R) (l : Lines)
      → Holds encode (lists r) l
      → (queue_total_depth redis rt poll_timeout r).0 ≡ ok (waiting l)
  unfolding queue_total_depth waiting
  queue_total_depth-waiting r l h = ground (
    arith,
    server.llen_all_reply ordered_keys r,
    length-stored encode l.high,
    length-stored encode l.medium,
    length-stored encode l.low,
  )
