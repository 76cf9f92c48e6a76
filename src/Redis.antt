-- ===== src/Redis.antt =====
-- The Redis client that internal/queue and internal/cache call (go-redis): its commands as
-- operations over the state of a server, and what Redis documents of the list commands.
use ingress_api_gateway.Prelude.{
  ℕ, String, ◌≡◌, Bool, Option, none, some, List, [], ◌∷◌, map, length, ◌==◌, if◌then◌else◌,
}
use ingress_api_gateway.Prelude.Int.{ℤ}
use ingress_api_gateway.Domain.Error.{Error}
use ingress_api_gateway.Domain.Result.{ok, Act}

-- The replies that the code tells apart: a value, `redis.Nil`, a context that was cancelled or has
-- run out, and any other error.
pub data Reply (A : Type 0) : Type 0 where
  value : A → Reply A
  nil : Reply A
  cancelled : Reply A
  failed : Error → Reply A

-- `llen_all` is a pipeline of LLEN commands.
pub record Redis (R : Type 0) : Type 0 where
  pub lpush : String → String → Act R Unit
  pub brpop : ℤ → List String → R → Reply (List String) × R
  pub llen : String → Act R ℕ
  pub llen_all : List String → Act R (List ℕ)
  pub lrange : String → ℕ → ℤ → Act R (List String)
  pub set_nx : String → String → ℤ → Act R Bool
  pub get : String → R → Reply String × R
  pub set : String → String → ℤ → Act R Unit
  pub incr : String → Act R ℤ
  pub del : String → Act R Unit
  pub ping : Act R Unit

abbrev pub last? : List String → Option String
last? [] = none
last? (x ∷ []) = some x
last? (x ∷ y ∷ l) = last? (y ∷ l)

abbrev pub init : List String → List String
init [] = []
init (x ∷ []) = []
init (x ∷ y ∷ l) = x ∷ init (y ∷ l)

-- BRPOP: the last element of the first list in the order of the keys that is not empty.
abbrev pub found_at : String → Option String → Option (String × String) → Option (String × String)
found_at k (some v) rest = some (k, v)
found_at k none rest = rest

abbrev pub first_tail : List String → (String → List String) → Option (String × String)
first_tail [] lists = none
first_tail (k ∷ ks) lists = found_at k (last? (lists k)) (first_tail ks lists)

abbrev pub brpop_reply : Option (String × String) → Reply (List String)
brpop_reply none = nil
brpop_reply (some (k, v)) = value (k ∷ v ∷ [])

abbrev pub after_pop : Option (String × String) → (String → List String) → String → List String
after_pop none lists j = lists j
after_pop (some (k, v)) lists j = if k == j then init (lists j) else lists j

-- A server that answers: LPUSH puts an element at the head, BRPOP takes one from the tail, or
-- answers nil at its timeout, and LLEN counts. `lists` is what the server holds at each key.
pub record IsServer {R : Type 0} (redis : Redis R) (lists : R → String → List String) : Type 0 where
  pub lpush_reply : (k v : String) (r : R) → (redis.lpush k v r).0 ≡ ok tt
  pub lpush_lists :
      (k v : String) (r : R) (j : String)
      → lists (redis.lpush k v r).1 j ≡ (if k == j then v ∷ lists r j else lists r j)
  pub brpop_value :
      (t : ℤ) (ks : List String) (r : R)
      → (redis.brpop t ks r).0 ≡ brpop_reply (first_tail ks (lists r))
  pub brpop_lists :
      (t : ℤ) (ks : List String) (r : R) (j : String)
      → lists (redis.brpop t ks r).1 j ≡ after_pop (first_tail ks (lists r)) (lists r) j
  pub llen_all_reply :
      (ks : List String) (r : R) → (redis.llen_all ks r).0 ≡ ok (map (λ k. length (lists r k)) ks)
