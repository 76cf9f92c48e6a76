-- ===== src/Repository/Connect.antt =====
-- internal/repository/postgres.go: the connection pool. The pool library is a parameter.
use ingress_api_gateway.Prelude.{String, if◌then◌else◌}
use ingress_api_gateway.Prelude.Int.{ℤ, is_positive}
use ingress_api_gateway.Domain.Error.{wrap}
use ingress_api_gateway.Domain.Result.{Result, ok, err, Act, map_error, ◌>>=◌}
use ingress_api_gateway.Config.{DbConfig}

-- The limits of a pgxpool.Config that the code sets.
pub record PoolConfig : Type 0 where
  pub max_conns : ℤ
  pub min_conns : ℤ
  pub max_conn_lifetime : ℤ

-- pgxpool over a state of open pools.
pub record PoolLib (W P : Type 0) : Type 0 where
  pub parse_config : String → Act W PoolConfig
  pub new_with_config : PoolConfig → Act W P
  pub ping : P → Act W Unit
  pub close : P → W → W

-- A limit that is not positive leaves the library's.
unfoldable pub pool_config : DbConfig → PoolConfig → PoolConfig
pool_config cfg c = record {
  max_conns = if is_positive cfg.max_conns then cfg.max_conns else c.max_conns;
  min_conns = if is_positive cfg.min_conns then cfg.min_conns else c.min_conns;
  max_conn_lifetime =
      if is_positive cfg.max_conn_life then cfg.max_conn_life else c.max_conn_lifetime;
}

module _ {W P : Type 0} (lib : PoolLib W P) where
  -- A pool that does not answer is closed.
  abbrev pub pinged : P → Result (Unit {0}) × W → Result P × W
  pinged pool (ok _, w) = (ok pool, w)
  pinged pool (err e, w) = (err (wrap "ping database: " e ""), lib.close pool w)

  unfoldable pub new_pool : DbConfig → Act W P
  unfolding pool_config
  new_pool cfg = do
    parsed ← map_error (λ e. wrap "parse database url: " e "") (lib.parse_config cfg.url)
    pool ← map_error (λ e. wrap "create pool: " e "") (lib.new_with_config (pool_config cfg parsed))
    λ w. pinged pool (lib.ping pool w)
