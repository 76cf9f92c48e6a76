-- ===== src/Worker/Processors/QrScan.antt =====
-- internal/worker/qrscan_processor.go
use ingress_api_gateway.Prelude.{ℕ, String, not, ◌<>◌, ◌==◌, if◌then◌else◌}
use ingress_api_gateway.Prelude.Int.{ℤ, pos, is_positive}
use ingress_api_gateway.Domain.Error.{wrap}
use ingress_api_gateway.Domain.Result.{
  Result, ok, err, Act, pure, fail, map_error, ignore, ◌>>=◌, ◌>>◌,
}
use ingress_api_gateway.Domain.Job.{Job, job_type_qr_scan}
use ingress_api_gateway.Domain.Event.{QrScanPayload, QrScanEvent, AuditLog}
use ingress_api_gateway.Domain.Ports.{
  Cache, Store, Env, Runtime, World, on_store, on_cache, on_env, Processor,
}
use ingress_api_gateway.Worker.Processors.{non_retryable, undecodable}

-- The default of `NewQRScanProcessor`: 10 s.
unfoldable pub dedup_ttl_or_default : ℤ → ℤ
dedup_ttl_or_default ttl = if is_positive ttl then ttl else pos 10000000000

unfoldable pub dedup_key : QrScanPayload → String
dedup_key p = "qr:seen:" <> p.event_id <> ":" <> p.qr_code

unfoldable pub new_qr_scan_event : String → ℕ → Job → QrScanPayload → QrScanEvent
new_qr_scan_event id now job p = record {
  id = id;
  job_id = job.id;
  qr_code = p.qr_code;
  event_id = p.event_id;
  gate_id = p.gate_id;
  scanned_by = p.scanned_by;
  created_at = now;
}

abbrev pub scan_audit : ℕ → Job → QrScanEvent → AuditLog
scan_audit now job event = record {
  entity_type = "qr_scan";
  entity_id = event.id;
  action = "SCANNED";
  detail = job.payload;
  trace_id = job.trace_id;
  created_at = now;
}

module _ {Q S C E : Type 0} (store : Store S) (cache : Cache C) (env : Env E) (rt : Runtime)
    (dedup_ttl : ℤ) where
  -- A counter that cannot be written is only logged.
  abbrev pub count_attendance : QrScanPayload → World Q S C E → World Q S C E
  count_attendance p w =
      if not (p.event_id == "")
      then ignore (on_cache (cache.incr ("attendance:" <> p.event_id))) w
      else w

  unfoldable pub store_scan : Job → QrScanPayload → Act (World Q S C E) (Unit {0})
  unfolding new_qr_scan_event
  store_scan job p = do
    now ← on_env env.now
    id ← on_env env.new_uuid
    let event = new_qr_scan_event id now job p
    map_error (λ e. wrap "store qr scan: " e "") (on_store (store.create_qr_scan_event event))
    λ w. (
      ok tt,
      ignore (on_store (store.create_audit_log (scan_audit now job event))) (count_attendance p w),
    )

  -- A code that was seen inside the window is a success without a second row.
  unfoldable pub scan : Job → QrScanPayload → Act (World Q S C E) (Unit {0})
  unfolding store_scan dedup_key
  scan job p = do
    fresh ←
        map_error (λ e. wrap "qr dedup check: " e "")
          (on_cache (cache.set_nx (dedup_key p) "1" dedup_ttl))
    λ w. if fresh then store_scan job p w else pure tt w

  abbrev pub process_decoded : Job → Result QrScanPayload → Act (World Q S C E) (Unit {0})
  process_decoded job (err e) w = fail (undecodable rt.quote "decode qr payload" e) w
  process_decoded job (ok p) w =
      if p.qr_code == "" then fail (non_retryable "qr_code is required") w else scan job p w

  unfoldable pub process_qr_scan : Job → Act (World Q S C E) (Unit {0})
  unfolding scan
  process_qr_scan job w = process_decoded job (rt.decode_qr_scan job.payload) w

  abbrev pub qr_scan_processor : Processor (World Q S C E)
  qr_scan_processor = record { type = job_type_qr_scan; process = process_qr_scan }
