-- ===== src/RateLimiter/Keyed.antt =====
-- internal/ratelimiter/limiter.go: the global limiter, and a bucket for each key with a janitor.
-- A call of `Allow` reads the clock for a new bucket, for `seen`, and in the bucket's own `Allow`.
use ingress_api_gateway.Prelude.{
  ℕ, ◌+◌, ◌≡◌, refl, Bool, false, String, Option, none, some, List, [], ◌∷◌, length, arith, ltb,
  ◌==◌, eq_iff, if◌then◌else◌,
}
use ingress_api_gateway.Prelude.Int.{ℤ, is_positive, pos_part}
use ingress_api_gateway.RateLimiter.Bucket
use ingress_api_gateway.RateLimiter.Bucket.{Bucket, new_bucket}

pub record GlobalLimiter : Type 0 where
  pub bucket : Bucket

unfoldable pub new_global_limiter : ℤ → ℤ → ℕ → GlobalLimiter
new_global_limiter rps burst now = record { bucket = new_bucket rps burst now }

-- The key is ignored.
unfoldable pub allow_global : String → ℕ → GlobalLimiter → Bool × GlobalLimiter
allow_global key now g =
    let (allowed, b) = Bucket.allow now g.bucket in (allowed, record { bucket = b })

pub record Entry : Type 0 where
  pub bucket : Bucket
  pub seen : ℕ

-- The map of buckets as a list in which each key stands once.
abbrev pub Buckets : Type 0
Buckets = List (String × Entry)

pub record KeyedLimiter : Type 0 where
  pub buckets : Buckets
  pub rps : ℤ
  pub burst : ℤ
  pub idle_ttl : ℕ

-- An idle time of at most 0 is 10 minutes.
unfoldable pub new_keyed_limiter : ℤ → ℤ → ℤ → KeyedLimiter
new_keyed_limiter rps burst idle_ttl = record {
  buckets = [];
  rps = rps;
  burst = burst;
  idle_ttl = if is_positive idle_ttl then pos_part idle_ttl else 600000000000;
}

unfoldable pub lookup : String → Buckets → Option Entry
lookup key [] = none
lookup key ((k, e) ∷ rest) = if k == key then some e else lookup key rest

unfoldable pub insert : String → Entry → Buckets → Buckets
insert key e [] = (key, e) ∷ []
insert key e ((k, old) ∷ rest) = if k == key then (key, e) ∷ rest else (k, old) ∷ insert key e rest

abbrev pub bucket_or_new : KeyedLimiter → ℕ → Option Entry → Bucket
bucket_or_new k created none = new_bucket k.rps k.burst created
bucket_or_new k created (some e) = e.bucket

-- The times are those of the three readings of the clock.
unfoldable pub allow_key : String → ℕ → ℕ → ℕ → KeyedLimiter → Bool × KeyedLimiter
allow_key key created seen now k =
    let (allowed, b) = Bucket.allow now (bucket_or_new k created (lookup key k.buckets)) in
    (allowed, record k { buckets = insert key (record { bucket = b; seen = seen }) k.buckets })

-- One round of the janitor: it drops what was last seen before `now - idle_ttl`.
unfoldable pub evict : ℕ → ℕ → Buckets → Buckets
evict idle_ttl now [] = []
evict idle_ttl now ((key, e) ∷ rest) =
    let rest' = evict idle_ttl now rest in
    if ltb (e.seen + idle_ttl) now then rest' else (key, e) ∷ rest'

unfoldable pub janitor_round : ℕ → KeyedLimiter → KeyedLimiter
janitor_round now k = record k { buckets = evict k.idle_ttl now k.buckets }

unfoldable pub size : KeyedLimiter → ℕ
size k = length k.buckets

pub lookup-insert :
    (key j : String) (e : Entry) (m : Buckets)
    → lookup j (insert key e m) ≡ (if key == j then some e else lookup j m)
unfolding lookup insert
lookup-insert key j e [] = refl
lookup-insert key j e ((k, old) ∷ m) =
    ground (arith, eq_iff key j, eq_iff k key, eq_iff k j, lookup-insert key j e m)

-- For two different keys: the limiter answers the first by its own bucket, or a new one, and leaves the
-- other's entry and the settings as they are.
pub allow_key_isolated :
    (key other : String) (created seen now : ℕ) (k : KeyedLimiter)
    → (key == other) ≡ false
    → let out = allow_key key created seen now k in
      (out.0 ≡ (Bucket.allow now (bucket_or_new k created (lookup key k.buckets))).0)
      × (lookup other out.1.buckets ≡ lookup other k.buckets)
      × (out.1.rps ≡ k.rps)
      × (out.1.burst ≡ k.burst)
unfolding allow_key
allow_key_isolated key other created seen now k ne = (refl, rw lookup-insert (rw ne), refl, refl)
