-- ===== src/RateLimiter/Eviction.antt =====
-- internal/ratelimiter/limiter.go: what the janitor drops, and that it forgets nothing that counts.
use ingress_api_gateway.Prelude.{
  ℕ, ◌+◌, ◌-◌, ◌*◌, ◌≤◌, ◌≡◌, refl, String, Option, none, some, [], ◌∷◌, arith, ltb, eq_iff,
  if◌then◌else◌,
}
use ingress_api_gateway.Prelude.Int.{ℤ}
use ingress_api_gateway.RateLimiter.Bucket.{Bucket, allow, new_bucket}
use ingress_api_gateway.RateLimiter.Keyed.{Entry, Buckets, lookup, evict}

-- No key stands twice.
abbrev pub AreDistinct : Buckets → Type 0
AreDistinct [] = Unit
AreDistinct ((key, e) ∷ rest) = (lookup key rest ≡ none) × AreDistinct rest

abbrev pub keep_recent : ℕ → ℕ → Option Entry → Option Entry
keep_recent idle_ttl now none = none
keep_recent idle_ttl now (some e) = if ltb (e.seen + idle_ttl) now then none else some e

-- In a map without double keys, a round of the janitor drops exactly the entries that were last seen
-- before its cutoff, and keeps the others as they are.
pub lookup-evict :
    (idle_ttl now : ℕ) (key : String) (m : Buckets)
    → AreDistinct m
    → lookup key (evict idle_ttl now m) ≡ keep_recent idle_ttl now (lookup key m)
unfolding lookup evict
lookup-evict idle_ttl now key [] h = refl
lookup-evict idle_ttl now key ((k, e) ∷ m) h =
    ground (arith, lookup-evict idle_ttl now key m h.1, eq_iff k key)

new_is_full :
    (rps burst : ℤ) (now : ℕ)
    → ((new_bucket rps burst now).tokens ≡ (new_bucket rps burst now).capacity)
      × ((new_bucket rps burst now).last ≡ now)
unfolding new_bucket
new_is_full rps burst now = (refl, refl)

-- If the idle time refills a whole bucket, a bucket of the same settings that was idle for that long
-- answers a request, and is left by it, as a new bucket would: its eviction changes no answer.
pub evict_harmless :
    (rps burst : ℤ) (idle_ttl now : ℕ) (b : Bucket)
    → b.capacity ≡ (new_bucket rps burst now).capacity
    → b.refill_per_sec ≡ (new_bucket rps burst now).refill_per_sec
    → b.last + idle_ttl ≤ now
    → b.capacity ≤ idle_ttl * b.refill_per_sec
    → allow now b ≡ allow now (new_bucket rps burst now)
unfolding allow
evict_harmless rps burst idle_ttl now b size rate idle full =
    let new = new_is_full rps burst now in
    let long : idle_ttl ≤ now - b.last = omega arith in
    let enough : idle_ttl * b.refill_per_sec ≤ (now - b.last) * b.refill_per_sec = grind arith in
    ground (arith, new, enough)
