-- ===== src/RateLimiter/Janitor.antt =====
-- internal/ratelimiter/limiter.go: the limiter with its janitor goroutine, as the steps that callers,
-- the ticker and Close take.
pub mod Isolation
use mathlib.Core.Path.{subst}
use ingress_api_gateway.Prelude.{
  ℕ, ◌+◌, ◌-◌, ◌*◌, ◌≤◌, ◌<◌, ◌≡◌, refl, ap, sym, ◌∙◌, ◌⊎◌, inl, inr, Bool, true, false, not, ◌&&◌,
  String, Option, none, some, List, [], ◌∷◌, arith, ltb, leb, ◌==◌, eq_iff, if◌then◌else◌,
  Bool-cases, Option-cases,
}
use ingress_api_gateway.Prelude.Int.{ℤ}
use ingress_api_gateway.RateLimiter.Bucket
use ingress_api_gateway.RateLimiter.Bucket.{Bucket, allow, new_bucket}
use ingress_api_gateway.RateLimiter.Keyed.{
  Entry, Buckets, KeyedLimiter, lookup, insert, evict, janitor_round, allow_key, bucket_or_new,
  lookup-insert,
}
use ingress_api_gateway.RateLimiter.Eviction.{
  AreDistinct, keep_recent, lookup-evict, evict_harmless,
}

-- `closed` is the stop channel, `returned` says that the janitor has left its loop.
pub record Guarded : Type 0 where
  pub limiter : KeyedLimiter
  pub closed : Bool
  pub returned : Bool

-- A call of Allow with its three readings of the clock, Close, a tick of the janitor at a time, and the
-- janitor's return.
pub data Event : Type 0 where
  call : String → ℕ → ℕ → ℕ → Event
  close : Event
  tick : ℕ → Event
  leave : Event

-- `none` where the step is not possible. A second Close does nothing; a tick may still be taken after
-- Close, as the select picks either.
unfoldable pub step : Event → Guarded → Option Guarded
step (call key created seen now) g =
    some (record g { limiter = (allow_key key created seen now g.limiter).1 })
step close g = some (record g { closed = true })
step (tick now) g =
    if g.returned then none else some (record g { limiter = janitor_round now g.limiter })
step leave g = if g.closed && not g.returned then some (record g { returned = true }) else none

abbrev pub and_then : (Guarded → Option Guarded) → Option Guarded → Option Guarded
and_then k none = none
and_then k (some g) = k g

unfoldable pub run : List Event → Guarded → Option Guarded
run [] g = some g
run (e ∷ es) g = and_then (run es) (step e g)

-- A step that is no call of the key, and no tick later than a time.
abbrev pub is_foreign : String → ℕ → Event → Bool
is_foreign key now (call k created seen called) = not (k == key)
is_foreign key now (tick t) = leb t now
is_foreign key now other = true

abbrev pub all_foreign : String → ℕ → List Event → Bool
all_foreign key now [] = true
all_foreign key now (e ∷ es) = is_foreign key now e && all_foreign key now es
