-- ===== src/RateLimiter/Admission.antt =====
-- internal/ratelimiter/token_bucket.go: how many requests a bucket lets through.
use ingress_api_gateway.Prelude.{
  ℕ, zero, suc, ◌+◌, ◌-◌, ◌*◌, ◌≤◌, ◌≡◌, refl, true, List, [], ◌∷◌, arith, ap, replicate,
  if◌then◌else◌,
}
use ingress_api_gateway.Prelude.Int.{pos}
use ingress_api_gateway.RateLimiter.Bucket.{Bucket, token, new_bucket, allow}

-- The requests of a list of times, in order: how many pass, and the bucket after them.
unfoldable pub admitted : List ℕ → Bucket → ℕ × Bucket
admitted [] b = (0, b)
admitted (now ∷ times) b =
    let (allowed, b') = allow now b in
    let (n, b'') = admitted times b' in (if allowed then n + 1 else n, b'')

-- The times do not go back, from `t` on.
abbrev pub IsMonotonic : ℕ → List ℕ → Type 0
IsMonotonic t [] = Unit
IsMonotonic t (now ∷ times) = (t ≤ now) × IsMonotonic now times

-- A bucket never holds more than its capacity.
pub allow-tokens : (now : ℕ) (b : Bucket) → (allow now b).1.tokens ≤ (allow now b).1.capacity
unfolding allow
allow-tokens now b = ground arith

allow_potential :
    (now : ℕ) (b : Bucket)
    → (allow now b).1.tokens + (if (allow now b).0 then token else 0)
      ≤ b.tokens + (now - b.last) * b.refill_per_sec
unfolding allow
allow_potential now b = ground arith

allow_keeps :
    (now : ℕ) (b : Bucket)
    → ((allow now b).1.last ≡ now) × ((allow now b).1.refill_per_sec ≡ b.refill_per_sec)
unfolding allow
allow_keeps now b = ground arith

allow_room : (now : ℕ) (b : Bucket) → (allow now b).1.capacity ≡ b.capacity
unfolding allow
allow_room now b = ground arith

split_elapsed : (a b c r : ℕ) → a ≤ b → b ≤ c → (b - a) * r + (c - b) * r ≡ (c - a) * r
split_elapsed a b c r h k =
    let e : b - a + (c - b) ≡ c - a = omega arith in omega (arith, ap (λ (t : ℕ). t * r) e)

abbrev Bounded : ℕ × Bucket → Bucket → Type 0
Bounded out b =
    (b.last ≤ out.1.last)
    × (out.1.refill_per_sec ≡ b.refill_per_sec)
    × (out.0 * token + out.1.tokens ≤ b.tokens + (out.1.last - b.last) * b.refill_per_sec)

admitted-step :
    (now : ℕ) (b : Bucket) (out : ℕ × Bucket)
    → b.last ≤ now
    → Bounded out (allow now b).1
    → Bounded ((if (allow now b).0 then out.0 + 1 else out.0), out.1) b
admitted-step now b out h k =
    let (at, rate) = allow_keeps now b in
    let reached : now ≤ out.1.last = omega (arith, at) in
    let later : out.0 * token + out.1.tokens
        ≤ (allow now b).1.tokens + (out.1.last - now) * b.refill_per_sec =
      rw (at, rate) at k.2 in
    ground (
      arith,
      allow_potential now b,
      split_elapsed b.last now out.1.last b.refill_per_sec h reached,
      later,
      rate,
    )

admitted-Bounded :
    (times : List ℕ) (b : Bucket) → IsMonotonic b.last times → Bounded (admitted times b) b
unfolding admitted
admitted-Bounded [] b h = omega arith
admitted-Bounded (now ∷ times) b h =
    admitted-step now b (admitted times (allow now b).1) h.0
      (admitted-Bounded times (allow now b).1 (let e = (allow_keeps now b).0 in rw e h.1))

-- For a positive rate and burst and times that do not go back: the tokens of all requests that a new
-- bucket lets through are at most its burst and what its rate refills until the last request.
pub admitted-le-burst :
    (rps burst start : ℕ) (times : List ℕ)
    → IsMonotonic start times
    → let out = admitted times (new_bucket (pos (suc rps)) (pos (suc burst)) start) in
      out.0 * token ≤ suc burst * token + (out.1.last - start) * suc rps
unfolding new_bucket
admitted-le-burst rps burst start times h =
    omega (arith, admitted-Bounded times (new_bucket (pos (suc rps)) (pos (suc burst)) start) h)

same_instant :
    (b : Bucket)
    → token ≤ b.tokens
    → b.tokens ≤ b.capacity
    → let (allowed, b') = allow b.last b in
      (allowed ≡ true)
      × (b'.tokens + token ≡ b.tokens)
      × (b'.last ≡ b.last)
      × (b'.capacity ≡ b.capacity)
unfolding allow
same_instant b h full =
    let none_elapsed : (b.last - b.last) * b.refill_per_sec ≡ 0 = grind arith in
    ground (arith, none_elapsed)

-- A bucket with at least n tokens, within its capacity, lets n requests of one instant through.
pub admitted_burst :
    (n : ℕ) (b : Bucket)
    → n * token ≤ b.tokens
    → b.tokens ≤ b.capacity
    → (admitted (replicate n b.last) b).0 ≡ n
unfolding admitted
admitted_burst zero b h full = refl
admitted_burst (suc n) b h full =
    let now = same_instant b (omega arith) full in
    let rest : (admitted (replicate n b.last) (allow b.last b).1).0 ≡ n =
      rw now.2 at (admitted_burst n (allow b.last b).1 (omega arith) (omega arith)) in
    rw now.0 (omega arith)
