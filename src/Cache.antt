-- ===== src/Cache.antt =====
-- internal/cache/redis_cache.go: the cache port over the Redis client, and the client's options.
use ingress_api_gateway.Prelude.{ℕ, String, Option, none, some}
use ingress_api_gateway.Domain.Error.{Error, foreign}
use ingress_api_gateway.Domain.Result.{Result, ok, err, Act}
use ingress_api_gateway.Domain.Ports.{Cache}
use ingress_api_gateway.Prelude.Int.{ℤ}
use ingress_api_gateway.Config.{RedisConfig}
use ingress_api_gateway.Redis.{Redis, Reply, value, nil, cancelled, failed}

-- The text of `context.Canceled`.
abbrev pub context_canceled : Error
context_canceled = foreign "context canceled"

-- `redis.Nil` is no error: the key is absent.
abbrev pub found_or_absent : Reply String → Result (Option String)
found_or_absent (value v) = ok (some v)
found_or_absent nil = ok none
found_or_absent cancelled = err context_canceled
found_or_absent (failed e) = err e

unfoldable pub cache_get : {R : Type 0} → Redis R → String → Act R (Option String)
cache_get redis key r = let (reply, r') = redis.get key r in (found_or_absent reply, r')

abbrev pub redis_cache : {R : Type 0} → Redis R → Cache R
redis_cache redis = record {
  set_nx = redis.set_nx;
  get = cache_get redis;
  set = redis.set;
  incr = redis.incr;
  del = redis.del;
  ping = redis.ping;
}

-- The redis.Options that the code sets; durations are nanoseconds.
pub record RedisOptions : Type 0 where
  pub addr : String
  pub password : String
  pub db : ℤ
  pub pool_size : ℕ
  pub min_idle_conns : ℕ
  pub dial_timeout : ℕ
  pub read_timeout : ℕ
  pub write_timeout : ℕ

-- `NewRedisClient`; `new_client` is `redis.NewClient`.
unfoldable pub new_redis_client : {L : Type 0} → (RedisOptions → L) → RedisConfig → L
new_redis_client new_client cfg = new_client (record {
  addr = cfg.addr;
  password = cfg.password;
  db = cfg.db;
  pool_size = 20;
  min_idle_conns = 4;
  dial_timeout = 3000000000;
  read_timeout = 3000000000;
  write_timeout = 3000000000;
})
