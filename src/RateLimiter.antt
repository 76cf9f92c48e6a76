-- ===== src/RateLimiter.antt =====
-- internal/ratelimiter: the token bucket, the global limiter and the limiter with a bucket for each
-- key. A time is a number of nanoseconds of the monotonic clock, passed in where the source reads
-- it. The float64 tokens are exact here: a token is 10^12 units and a rate counts thousandths of a
-- request per second, so that a nanosecond refills as many units as the rate says. The rounding of
-- the source's doubles is not modelled.
pub mod Bucket
pub mod Keyed
pub mod Admission
pub mod Eviction
pub mod Janitor
