-- ===== src/Api/Middleware/Pressure.antt =====
-- internal/api/middleware/backpressure.go in several goroutines at once: between the look at the depth
-- of the queue and the handler, other requests are let through.
use ingress_api_gateway.Prelude.{
  ℕ, ◌+◌, ◌≤◌, ◌<◌, ◌≡◌, refl, ap, inl, inr, if◌then◌else◌, arith, Bool-cases, total,
}
use ingress_api_gateway.Prelude.Int.{ℤ, pos, is_positive}
use ingress_api_gateway.Interleaving.{System, State, Reach, Reach-count}
use ingress_api_gateway.Interleaving.Potential.{Reach-spends}
use ingress_api_gateway.Domain.Result.{ok, Act}
use ingress_api_gateway.Domain.Ports.{Metric, load_shed}
use ingress_api_gateway.Api.Http.{Request, Response, Handler, write_error}
use ingress_api_gateway.Api.Middleware.{backpressure, is_saturated}

-- Where a request stands: before the look at the depth, before the handler, or behind both.
pub data Admission : Type 0 where
  incoming admitted : Request → Admission
  answered : Response → Admission

module _ {W : Type 0} (total_depth : Act W ℕ) (threshold : ℤ) (count : Metric → W → W)
    (next : Handler W) where
  abbrev pub shed : Request → Response
  unfolding write_error
  shed r =
      record (write_error r 503 "service_unavailable" "queue saturated, please retry shortly") {
        retry_after = "2";
      }

  -- The next step of a request.
  unfoldable pub advance : Admission → W → Admission × W
  advance (incoming r) w =
      if is_positive threshold
      then (let (depth, w) = total_depth w in
          if is_saturated threshold depth
          then (answered (shed r), count load_shed w)
          else (admitted r, w))
      else (admitted r, w)
  advance (admitted r) w = let (resp, w) = next r w in (answered resp, w)
  advance (answered resp) w = (answered resp, w)

  -- A request that nothing interrupts is answered in two steps as by the middleware.
  pub advance-advance :
      (r : Request) (w : W)
      → advance (advance (incoming r) w).0 (advance (incoming r) w).1 ≡ (
        answered (backpressure total_depth threshold count next r w).0,
        (backpressure total_depth threshold count next r w).1,
      )
  unfolding advance backpressure write_error
  advance-advance r w = elim (Bool-cases (is_positive threshold)) [
    | inr n ↦ rw n refl
    | inl p ↦ elim (Bool-cases (is_saturated threshold (total_depth w).0)) [
      | inl q ↦ rw (p, q) refl
      | inr m ↦ rw (p, m) refl
    ]
  ]

-- Let through, and not yet through the handler.
abbrev pub past : Admission → ℕ
past (admitted r) = 1
past other = 0

-- A queue that answers its depth, a probe and a metric that leave it alone, and a handler that adds one
-- job at most and takes none.
pub record IsGauged {W : Type 0} (waiting : W → ℕ) (total_depth : Act W ℕ) (count : Metric → W → W)
    (next : Handler W) : Type 0 where
  pub probed : (w : W) → (total_depth w).0 ≡ ok (waiting w)
  pub probe_keeps : (w : W) → waiting (total_depth w).1 ≡ waiting w
  pub count_keeps : (m : Metric) (w : W) → waiting (count m w) ≡ waiting w
  pub takes_none : (r : Request) (w : W) → waiting w ≤ waiting (next r w).1
  pub adds_one : (r : Request) (w : W) → waiting (next r w).1 ≤ waiting w + 1

module _ {W : Type 0} (waiting : W → ℕ) (total_depth : Act W ℕ) (count : Metric → W → W)
    (next : Handler W) (gauged : IsGauged waiting total_depth count next) (limit : ℕ)
    (set : 0 < limit) where
  -- The system of the requests, while the queue is at the limit or above: the workers may take jobs off
  -- it, as long as it stays there. No key runs out.
  abbrev pub admissions : System W Admission
  admissions = record {
    advance = advance total_depth (pos limit) count next;
    counts = λ p. 0;
    Start = λ p. (r : Request) × (p ≡ incoming r);
    Frame = λ w v. (limit ≤ waiting v) × (waiting v ≤ waiting w);
    Expiry = λ w v. (limit ≤ waiting v) × (waiting v ≤ waiting w);
  }

  advance-spends :
      (p : Admission) (w : W)
      → Unit {0}
      → limit ≤ waiting w
      → let (p', w') = advance total_depth (pos limit) count next p w in
        (limit ≤ waiting w') × (waiting w' + 0 + past p' ≤ waiting w + past p)
  unfolding advance
  advance-spends (incoming r) w u full =
      grind (arith, gauged.probed, gauged.probe_keeps, gauged.count_keeps)
  advance-spends (admitted r) w u full = ground (arith, gauged.takes_none r w, gauged.adds_one r w)
  advance-spends (answered resp) w u full = (full, omega arith)

  -- On a queue that answers its depth, with a positive limit and a handler that adds one job at most: from
  -- a state in which the queue is at the limit or above, while it stays there and nothing else adds to it,
  -- however many requests arrive and in whatever order they go on, the queue grows by no more than one
  -- job for each request that had passed the check and not the handler in that state.
  pub Reach-waiting :
      (s t : State W Admission)
      → limit ≤ waiting s.world
      → Reach admissions s t
      → waiting t.world + total past t.places ≤ waiting s.world + total past s.places
  Reach-waiting s t full r =
      let h =
        Reach-spends admissions (λ p. Unit {0}) (λ p here. tt) (λ p w u. tt)
          (λ w. limit ≤ waiting w) waiting past (λ p (r, e). ap past e) advance-spends
          (λ w v f m. f) (λ w v f m. f) s t (λ i p e. tt) full r in
      omega (arith, h.0, Reach-count admissions s t r)
