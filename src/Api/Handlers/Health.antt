-- ===== src/Api/Handlers/Health.antt =====
-- internal/api/handlers/health_handler.go: the probes. The two seconds that a ping may take are the
-- pings' own.
use ingress_api_gateway.Prelude.{
  ℕ, ◌-◌, ◌/◌, String, ◌≡◌, ◌↔◌, true, false, ◌&&◌, [], ◌∷◌, arith, if◌then◌else◌, not,
}
use ingress_api_gateway.Domain.Result.{Result, ok, err, Act, is_ok}
use ingress_api_gateway.Api.Http.{Request, Handler, write_json, health, alive, readiness}

-- `redis` and `db` are the pings of the two Pingers.
pub record HealthHandler (W : Type 0) : Type 0 where
  pub redis : Act W (Unit {0})
  pub db : Act W (Unit {0})
  pub started : ℕ
  pub version : String

abbrev pub up_or_down : Result (Unit {0}) → String
up_or_down (ok _) = "up"
up_or_down (err e) = "down"

module _ {W : Type 0} (h : HealthHandler W) (now : W → ℕ × W) where
  -- The uptime is in whole seconds.
  unfoldable pub health_probe : Handler W
  health_probe r w =
      let (t, w) = now w in (write_json 200 (health h.version ((t - h.started) / 1000000000)), w)

module _ {W : Type 0} where
  unfoldable pub live : Handler W
  live r w = (write_json 200 alive, w)

  unfoldable pub ready : HealthHandler W → Handler W
  ready h r w =
      let (redis, w) = h.redis w in
      let (db, w) = h.db w in
      let checks = ("redis", up_or_down redis) ∷ ("postgres", up_or_down db) ∷ [] in
      let is_ready = is_ok redis && is_ok db in
      let status = if not is_ready then 503 else 200 in
      let state = if not is_ready then "not_ready" else "ready" in
      (write_json status (readiness state checks), w)

  -- The readiness probe asks both dependencies, the database also after Redis failed, and answers 200
  -- exactly if both answer; otherwise it answers 503, and the check of each that failed reads "down".
  pub ready_iff :
      (h : HealthHandler W) (r : Request) (w : W)
      → let redis = h.redis w in
        let db = h.db redis.1 in
        (((ready h r w).0.status ≡ 200) ↔ ((is_ok redis.0 && is_ok db.0) ≡ true))
        × (((ready h r w).0.status ≡ 503) ↔ ((is_ok redis.0 && is_ok db.0) ≡ false))
        × ((ready h r w).1 ≡ db.1)
  unfolding ready write_json
  ready_iff h r w = ground arith
