-- ===== src/Tests/Adapters.antt =====
-- The queue, the rate limiter, the signature check and the HTTP layer at concrete inputs.
use ingress_api_gateway.Prelude.{
  false, ℕ, ◌+◌, ◌-◌, ◌*◌, ◌≤◌, String, ◌≡◌, refl, ◌↔◌, true, some, List, [], ◌∷◌, map, length,
  ◌==◌, arith, if◌then◌else◌,
}
use ingress_api_gateway.Prelude.Int.{pos}
use ingress_api_gateway.Domain.Result.{ok}
use ingress_api_gateway.Domain.Job.{Job}
use ingress_api_gateway.Redis.{Redis, IsServer, nil, first_tail, brpop_reply, after_pop}
use ingress_api_gateway.Queue.Refines.{queue_push-enter}
use ingress_api_gateway.Queue.Spec.{enter}
use ingress_api_gateway.Queue.{queue_push}
use ingress_api_gateway.Queue.{queue_pop}
use ingress_api_gateway.Queue.Spec.{Lines, no_jobs, serve}
use ingress_api_gateway.Queue.Refines.{KeepsJobs, Holds, stored, queue_pop-serve}
use ingress_api_gateway.RateLimiter.Bucket.{Bucket, token, new_bucket, allow}
use ingress_api_gateway.RateLimiter.Keyed.{Entry}
use ingress_api_gateway.RateLimiter.Admission.{admitted, admitted-le-burst}
use ingress_api_gateway.RateLimiter.Keyed.{allow_key, janitor_round, insert, evict, lookup}
use ingress_api_gateway.RateLimiter.Janitor.{Guarded, Event, call, close, tick, leave, step, run}
use ingress_api_gateway.RateLimiter.Janitor.Isolation.{allow_key-run}
use ingress_api_gateway.Security.{verify_hmac_sha256, IsSignature, verify_hmac_sha256_iff}
use ingress_api_gateway.Tests.Reference.{rt, queued}

abbrev pub Lists : Type 0
Lists = String → List String

abbrev pub server : Redis Lists
server = record {
  lpush = λ k v r. (ok tt, λ j. if k == j then v ∷ r j else r j);
  brpop = λ t ks r. (brpop_reply (first_tail ks r), λ j. after_pop (first_tail ks r) r j);
  llen = λ k r. (ok (length (r k)), r);
  llen_all = λ ks r. (ok (map (λ k. length (r k)) ks), r);
  lrange = λ k from to r. (ok (r k), r);
  set_nx = λ k v t r. (ok true, r);
  get = λ k r. (nil, r);
  set = λ k v t r. (ok tt, r);
  incr = λ k r. (ok (pos 1), r);
  del = λ k r. (ok tt, r);
  ping = λ r. (ok tt, r);
}

abbrev pub contents : Lists → String → List String
contents r k = r k

pub server-IsServer : IsServer server contents
server-IsServer = record {
  lpush_reply = λ k v r. refl;
  lpush_lists = λ k v r j. refl;
  brpop_value = λ t ks r. refl;
  brpop_lists = λ t ks r j. refl;
  llen_all_reply = λ ks r. refl;
}

abbrev pub encode : Job → String
encode job = "j"

abbrev pub restored : Job → Job
restored job = queued

pub rt-KeepsJobs : KeepsJobs rt encode restored
rt-KeepsJobs = record { encodes = λ job. refl; decodes = λ job. refl }

abbrev pub nothing : Lists
nothing k = []

abbrev one_low : Lists
one_low k = if k == "jobs:low" then "j" ∷ [] else []

abbrev low_line : Lines
low_line = record no_jobs { low = queued ∷ [] }

pub nothing-Holds : Holds encode (contents nothing) no_jobs
unfolding stored
nothing-Holds = record { high = refl; medium = refl; low = refl }

one_low-Holds : Holds encode (contents one_low) low_line
unfolding stored
one_low-Holds = record { high = refl; medium = refl; low = refl }

queue_pop-serve_example :
    ((queue_pop server rt (pos 5) one_low).0 ≡ ok (some queued))
    × Holds encode (contents (queue_pop server rt (pos 5) one_low).1) no_jobs
unfolding serve
queue_pop-serve_example =
    queue_pop-serve server contents server-IsServer rt encode restored rt-KeepsJobs (pos 5) one_low
      low_line one_low-Holds

queue_push-enter_example :
    ((queue_push server rt (pos 5) queued nothing).0 ≡ ok tt)
    × Holds encode (contents (queue_push server rt (pos 5) queued nothing).1) (enter queued no_jobs)
queue_push-enter_example =
    queue_push-enter server contents server-IsServer rt encode restored rt-KeepsJobs (pos 5) queued
      nothing no_jobs nothing-Holds

-- Four requests, the last one second after the first, to a bucket of two at one per second.
abbrev times : List ℕ
times = 0 ∷ 0 ∷ 0 ∷ 1000000000 ∷ []

admitted-le-burst_example :
    let out = admitted times (new_bucket (pos 1) (pos 2) 0) in
    out.0 * token ≤ 2 * token + (out.1.last - 0) * 1
admitted-le-burst_example =
    admitted-le-burst 0 1 0 times (omega arith, (omega arith, (omega arith, (omega arith, tt))))

abbrev bucket : Bucket
bucket = new_bucket (pos 1) (pos 2) 7

abbrev entry : Entry
entry = record { bucket = bucket; seen = 7 }

abbrev later : ℕ
later = 3000000000008

abbrev one_client : Guarded
one_client = record {
  limiter = record {
    buckets = ("a", entry) ∷ [];
    rps = pos 1;
    burst = pos 2;
    idle_ttl = 3000000000000;
  };
  closed = false;
  returned = false;
}

abbrev quiet : List Event
quiet = call "b" 0 0 0 ∷ tick 3000000000008 ∷ close ∷ leave ∷ []

abbrev evicted : Guarded
evicted = record {
  limiter = record one_client.limiter { buckets = [] };
  closed = true;
  returned = true;
}

ran_quiet : run quiet one_client ≡ some evicted
unfolding run step allow_key janitor_round evict insert lookup
ran_quiet = refl

allow_key-run_example : (allow_key "a" later later later evicted.limiter).0 ≡ (allow later bucket).0
unfolding lookup new_bucket
allow_key-run_example =
    allow_key-run "a" quiet one_client evicted entry 0 later later later ran_quiet refl (refl, tt)
      refl refl refl (omega arith) (omega arith) (omega arith)

verify_hmac_sha256_iff_example :
    (verify_hmac_sha256 rt "s" "{}" "sha256=ab" ≡ true) ↔ IsSignature "sha256=ab" "ab"
verify_hmac_sha256_iff_example = verify_hmac_sha256_iff rt "s" "{}" "sha256=ab" refl refl
