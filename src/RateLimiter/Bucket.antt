-- ===== src/RateLimiter/Bucket.antt =====
-- internal/ratelimiter/token_bucket.go
use ingress_api_gateway.Prelude.{ℕ, ◌+◌, ◌-◌, ◌*◌, min, Bool, true, false, leb, if◌then◌else◌}
use ingress_api_gateway.Prelude.Int.{ℤ, is_positive, pos_part}

pub record Bucket : Type 0 where
  pub capacity : ℕ
  pub tokens : ℕ
  pub refill_per_sec : ℕ
  pub last : ℕ

-- One token.
abbrev pub token : ℕ
token = 1000000000000

-- A rate of at most 0 counts as one request per second, a burst of at most 0 as one.
unfoldable pub new_bucket : ℤ → ℤ → ℕ → Bucket
new_bucket rps burst now =
    let size = if is_positive burst then pos_part burst * token else token in
    record {
      capacity = size;
      tokens = size;
      refill_per_sec = if is_positive rps then pos_part rps else 1000;
      last = now;
    }

unfoldable pub refill : ℕ → Bucket → Bucket
refill now b = record b {
  last = now;
  tokens = min b.capacity (b.tokens + (now - b.last) * b.refill_per_sec);
}

-- `Allow`
unfoldable pub allow : ℕ → Bucket → Bool × Bucket
unfolding refill
allow now b =
    let b' = refill now b in
    if leb token b'.tokens then (true, record b' { tokens = b'.tokens - token }) else (false, b')

-- `Tokens`
unfoldable pub tokens_now : ℕ → Bucket → ℕ × Bucket
unfolding refill
tokens_now now b = let b' = refill now b in (b'.tokens, b')
