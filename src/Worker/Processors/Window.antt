-- ===== src/Worker/Processors/Window.antt =====
-- internal/worker/qrscan_processor.go: the window in which a scanned code is not taken again.
use text.Mathlib.TextLemmas.{append_assoc}
use ingress_api_gateway.Prelude.{
  String, ◌≡◌, refl, false, Option, none, some, arith, ◌<>◌, ◌==◌, eq_refl, ne_prefix, ap, ◌∙◌,
}
use ingress_api_gateway.Prelude.Int.{ℤ}
use ingress_api_gateway.Domain.Result.{ok}
use ingress_api_gateway.Domain.Job.{Job}
use ingress_api_gateway.Domain.Event.{QrScanPayload}
use ingress_api_gateway.Domain.Ports.{Cache, Store, Env, Runtime, World}
use ingress_api_gateway.Domain.Laws.{IsReliable}
use ingress_api_gateway.Worker.Processors.QrScan.{process_qr_scan, dedup_key}

seen-ne-attendance : (s t : String) → (("attendance:" <> s) == ("qr:seen:" <> t)) ≡ false
seen-ne-attendance s t =
    ap (λ (u : String). u == ("qr:seen:" <> t)) (append_assoc "attendan" "ce:" s)
    ∙ ne_prefix "attendan" "qr:seen:" ("ce:" <> s) t refl refl

module _ {Q S C E : Type 0} (store : Store S) (cache : Cache C) (env : Env E) (rt : Runtime)
    (ttl : ℤ) (view : C → String → Option String) (reliable : IsReliable cache view) where
  -- The first scan of a code marks it, whatever becomes of its row.
  scan_marks :
      (job : Job) (p : QrScanPayload) (w : World Q S C E)
      → rt.decode_qr_scan job.payload ≡ ok p
      → (p.qr_code == "") ≡ false
      → view w.cache (dedup_key p) ≡ none
      → view (process_qr_scan store cache env rt ttl job w).1.cache (dedup_key p) ≡ some "1"
  unfolding process_qr_scan
  scan_marks job p w decoded named free = grind (
    arith, reliable.set_nx_reply, reliable.set_nx_view, reliable.incr_view, eq_refl,
    seen-ne-attendance,
  )

  -- A scan of a code that is marked succeeds and stores and counts nothing.
  scan_marked :
      (job : Job) (p : QrScanPayload) (w : World Q S C E)
      → rt.decode_qr_scan job.payload ≡ ok p
      → (p.qr_code == "") ≡ false
      → view w.cache (dedup_key p) ≡ some "1"
      → let out = process_qr_scan store cache env rt ttl job w in
        (out.0 ≡ ok tt) × (out.1.store ≡ w.store) × (out.1.env ≡ w.env)
  unfolding process_qr_scan
  scan_marked job p w decoded named marked = grind (arith, reliable.set_nx_reply)

  -- With a reliable cache: after a scan of a code that was not marked, whether its row could be stored
  -- or not, and while the mark is as that scan left it, a second scan with the same event and code is a
  -- success that changes nothing of the store. So the retry of a scan that failed stores no row.
  pub scan-scan :
      (first second : Job) (p q : QrScanPayload) (w v : World Q S C E)
      → rt.decode_qr_scan first.payload ≡ ok p
      → rt.decode_qr_scan second.payload ≡ ok q
      → (p.qr_code == "") ≡ false
      → (q.qr_code == "") ≡ false
      → dedup_key q ≡ dedup_key p
      → view w.cache (dedup_key p) ≡ none
      → view v.cache (dedup_key p)
        ≡ view (process_qr_scan store cache env rt ttl first w).1.cache (dedup_key p)
      → let out = process_qr_scan store cache env rt ttl second v in
        (out.0 ≡ ok tt) × (out.1.store ≡ v.store) × (out.1.env ≡ v.env)
  scan-scan first second p q w v dp dq np nq same free kept =
      scan_marked second q v dq nq (ap (view v.cache) same ∙ kept ∙ scan_marks first p w dp np free)
