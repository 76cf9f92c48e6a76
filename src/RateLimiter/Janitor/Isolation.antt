-- ===== src/RateLimiter/Janitor/Isolation.antt =====
-- internal/ratelimiter/limiter.go: a client's answers do not depend on the others or on the janitor.
use mathlib.Core.Path.{subst}
use ingress_api_gateway.Prelude.{
  ℕ, ◌+◌, ◌-◌, ◌*◌, ◌≤◌, ◌<◌, ◌≡◌, refl, ap, sym, ◌∙◌, ◌⊎◌, inl, inr, true, false, not, ◌&&◌,
  String, Option, none, some, List, [], ◌∷◌, arith, ltb, leb, ◌==◌, eq_iff, Bool-cases,
  Option-cases,
}
use ingress_api_gateway.Prelude.Int.{ℤ}
use ingress_api_gateway.RateLimiter.Bucket
use ingress_api_gateway.RateLimiter.Bucket.{Bucket, allow, new_bucket}
use ingress_api_gateway.RateLimiter.Keyed.{
  Entry, Buckets, KeyedLimiter, lookup, insert, evict, janitor_round, allow_key, bucket_or_new,
  lookup-insert,
}
use ingress_api_gateway.RateLimiter.Eviction.{
  AreDistinct, keep_recent, lookup-evict, evict_harmless,
}
use ingress_api_gateway.RateLimiter.Janitor.{
  Guarded, Event, call, close, tick, leave, step, run, is_foreign, all_foreign,
}

AreDistinct-insert :
    (key : String) (e : Entry) (m : Buckets) → AreDistinct m → AreDistinct (insert key e m)
unfolding insert lookup
AreDistinct-insert key e [] h = (refl, tt)
AreDistinct-insert key e ((k, old) ∷ m) (fresh, rest) = elim (Bool-cases (k == key)) [
  | inl p ↦
      let same : k ≡ key = (eq_iff k key).0 p in
      rw p (ap (λ u. lookup u m) (sym same) ∙ fresh, rest)
  | inr n ↦
      let absent : lookup k (insert key e m) ≡ none =
        ground (arith, lookup-insert key k e m, eq_iff key k, eq_iff k key) in
      rw n (absent, AreDistinct-insert key e m rest)
]

AreDistinct-evict :
    (idle_ttl now : ℕ) (m : Buckets) → AreDistinct m → AreDistinct (evict idle_ttl now m)
unfolding evict
AreDistinct-evict idle_ttl now [] h = tt
AreDistinct-evict idle_ttl now ((k, e) ∷ m) (fresh, rest) =
    elim (Bool-cases (ltb (e.seen + idle_ttl) now)) [
      | inl p ↦ rw p (AreDistinct-evict idle_ttl now m rest)
      | inr n ↦
          let absent : lookup k (evict idle_ttl now m) ≡ none =
            ground (arith, lookup-evict idle_ttl now k m rest) in
          rw n (absent, AreDistinct-evict idle_ttl now m rest)
    ]

-- The limiter's map where a key had an entry: the entry stands in it untouched, or was evicted by the
-- time given, and the settings are those of before.
pub record IsKept (key : String) (e : Entry) (now : ℕ) (before after : KeyedLimiter) : Type 0 where
  pub distinct : AreDistinct after.buckets
  pub rps : after.rps ≡ before.rps
  pub burst : after.burst ≡ before.burst
  pub idle_ttl : after.idle_ttl ≡ before.idle_ttl
  pub entry :
      (lookup key after.buckets ≡ some e)
      ⊎ ((lookup key after.buckets ≡ none) × (e.seen + before.idle_ttl < now))

abbrev limiter_or : Guarded → Option Guarded → KeyedLimiter
limiter_or g none = g.limiter
limiter_or g (some h) = h.limiter

module _ (key : String) (e : Entry) (now : ℕ) (before : KeyedLimiter) where
  insert-entry :
      (other : String) (f : Entry) (m : Buckets)
      → (other == key) ≡ false
      → lookup key (insert other f m) ≡ lookup key m
  insert-entry other f m ne = rw (lookup-insert other key f m) (rw ne refl)

  call-IsKept :
      (other : String) (created seen called : ℕ) (k : KeyedLimiter)
      → (other == key) ≡ false
      → IsKept key e now before k
      → IsKept key e now before (allow_key other created seen called k).1
  unfolding allow_key
  call-IsKept other created seen called k ne h =
      let f : Entry = record {
        bucket = (Bucket.allow called (bucket_or_new k created (lookup other k.buckets))).1;
        seen = seen;
      } in
      let same = insert-entry other f k.buckets ne in
      record {
        distinct = AreDistinct-insert other f k.buckets h.distinct;
        rps = h.rps;
        burst = h.burst;
        idle_ttl = h.idle_ttl;
        entry = elim h.entry [
          | inl p ↦ inl (same ∙ p)
          | inr (absent, late) ↦ inr (same ∙ absent, late)
        ];
      }

  evicted :
      (t : ℕ) (k : KeyedLimiter)
      → leb t now ≡ true
      → IsKept key e now before k
      → (lookup key (evict k.idle_ttl t k.buckets) ≡ some e)
        ⊎ ((lookup key (evict k.idle_ttl t k.buckets) ≡ none) × (e.seen + before.idle_ttl < now))
  evicted t k le h =
      let round = lookup-evict k.idle_ttl t key k.buckets h.distinct in
      elim h.entry [
        | inr (absent, late) ↦ inr (round ∙ ap (keep_recent k.idle_ttl t) absent, late)
        | inl p ↦ elim (Bool-cases (ltb (e.seen + k.idle_ttl) t)) [
          | inl old ↦
              let late : e.seen + before.idle_ttl < now = ground (arith, h.idle_ttl) in
              inr (round ∙ ap (keep_recent k.idle_ttl t) p ∙ rw old refl, late)
          | inr recent ↦ inl (round ∙ ap (keep_recent k.idle_ttl t) p ∙ rw recent refl)
        ]
      ]

  janitor_round-IsKept :
      (t : ℕ) (k : KeyedLimiter)
      → leb t now ≡ true
      → IsKept key e now before k
      → IsKept key e now before (janitor_round t k)
  unfolding janitor_round
  janitor_round-IsKept t k le h = record {
    distinct = AreDistinct-evict k.idle_ttl t k.buckets h.distinct;
    rps = h.rps;
    burst = h.burst;
    idle_ttl = h.idle_ttl;
    entry = evicted t k le h;
  }

  moved :
      (g h g' : Guarded)
      → some h ≡ some g'
      → IsKept key e now before h.limiter
      → IsKept key e now before g'.limiter
  moved g h g' same kept = subst (IsKept key e now before) (ap (limiter_or g) same) kept

  step-IsKept :
      (ev : Event) (g g' : Guarded)
      → is_foreign key now ev ≡ true
      → step ev g ≡ some g'
      → IsKept key e now before g.limiter
      → IsKept key e now before g'.limiter
  unfolding step
  step-IsKept (call k created seen called) g g' f h kept =
      let ne : (k == key) ≡ false = ground arith in
      moved g _ g' h (call-IsKept k created seen called g.limiter ne kept)
  step-IsKept close g g' f h kept = moved g _ g' h kept
  step-IsKept (tick t) g g' f h kept = elim (Bool-cases g.returned) [
    | inl p ↦ ground arith
    | inr n ↦
        moved g (record g { limiter = janitor_round t g.limiter }) g' (rw n refl ∙ h)
          (janitor_round-IsKept t g.limiter f kept)
  ]
  step-IsKept leave g g' f h kept = elim (Bool-cases (g.closed && not g.returned)) [
    | inl p ↦ moved g (record g { returned = true }) g' (rw p refl ∙ h) kept
    | inr n ↦ ground arith
  ]

  run-IsKept :
      (es : List Event) (g g' : Guarded)
      → all_foreign key now es ≡ true
      → run es g ≡ some g'
      → IsKept key e now before g.limiter
      → IsKept key e now before g'.limiter
  unfolding run
  run-IsKept [] g g' f h kept = moved g g g' h kept
  run-IsKept (ev ∷ es) g g' f h kept = elim (Option-cases (step ev g)) [
    | inl p ↦ ground arith
    | inr (next, p) ↦
        let here : is_foreign key now ev ≡ true = ground arith in
        let later : all_foreign key now es ≡ true = ground arith in
        let ran : run es next ≡ some g' = ground arith in
        run-IsKept es next g' later ran (step-IsKept ev g next here p kept)
  ]

-- A new bucket is full, whenever it was made.
allow-new_bucket :
    (rps burst : ℤ) (created now : ℕ)
    → (Bucket.allow now (new_bucket rps burst created)).0
      ≡ (Bucket.allow now (new_bucket rps burst now)).0
unfolding allow new_bucket
allow-new_bucket rps burst created now = ground arith

-- Whatever other clients call and whenever the janitor runs: a client is answered by its own bucket as
-- it left it, also if the janitor has evicted it in between, provided the ticks are not later than the
-- call, the bucket has the settings of the limiter, and the idle time, less what passed between the two
-- readings of the clock at the client's last call, refills a whole bucket.
pub allow_key-run :
    (key : String) (es : List Event) (g g' : Guarded) (e : Entry) (gap created seen now : ℕ)
    → run es g ≡ some g'
    → all_foreign key now es ≡ true
    → AreDistinct g.limiter.buckets
    → lookup key g.limiter.buckets ≡ some e
    → e.bucket.capacity ≡ (new_bucket g.limiter.rps g.limiter.burst now).capacity
    → e.bucket.refill_per_sec ≡ (new_bucket g.limiter.rps g.limiter.burst now).refill_per_sec
    → e.bucket.last ≤ e.seen + gap
    → gap ≤ g.limiter.idle_ttl
    → e.bucket.capacity ≤ (g.limiter.idle_ttl - gap) * e.bucket.refill_per_sec
    → (allow_key key created seen now g'.limiter).0 ≡ (Bucket.allow now e.bucket).0
unfolding allow_key
allow_key-run key es g g' e gap created seen now ran foreign distinct found size rate near small
      full =
    let start : IsKept key e now g.limiter g.limiter = record {
      distinct = distinct;
      rps = refl;
      burst = refl;
      idle_ttl = refl;
      entry = inl found;
    } in
    let kept = run-IsKept key e now g.limiter es g g' foreign ran start in
    elim kept.entry [
      | inl p ↦ rw p refl
      | inr (absent, late) ↦
          let idle : e.bucket.last + (g.limiter.idle_ttl - gap) ≤ now = omega arith in
          ap (λ o. (Bucket.allow now (bucket_or_new g'.limiter created o)).0) absent
          ∙ rw (kept.rps, kept.burst) (allow-new_bucket g.limiter.rps g.limiter.burst created now)
          ∙ ap (λ r. r.0)
              (sym (
                evict_harmless g.limiter.rps g.limiter.burst (g.limiter.idle_ttl - gap) now e.bucket
                  size rate idle full))
    ]
