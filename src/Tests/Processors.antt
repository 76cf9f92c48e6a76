-- ===== src/Tests/Processors.antt =====
-- The processors of internal/worker at concrete inputs.
use ingress_api_gateway.Prelude.{ℕ, ◌≡◌, refl, List, []}
use ingress_api_gateway.Prelude.Int.{pos}
use ingress_api_gateway.Domain.Error.{foreign}
use ingress_api_gateway.Domain.Result.{ok, err}
use ingress_api_gateway.Domain.Job.{Job, new_job}
use ingress_api_gateway.Domain.Ports.{World, Store}
use ingress_api_gateway.Testutil.{InMemoryStore, new_in_memory_store, memory_store}
use ingress_api_gateway.Worker.Processors.QrScan.{process_qr_scan, dedup_key}
use ingress_api_gateway.Worker.Processors.Window.{scan-scan}
use ingress_api_gateway.Tests.Reference.{
  Memory, memory_cache, memory_cache-IsReliable, view, empty, counter, rt, queued, qr_scan,
}

abbrev W : Type 0
W = World (List Job) InMemoryStore Memory ℕ

abbrev store : Store InMemoryStore
store = memory_store (λ jobs. jobs)

abbrev world : W
world = record { queue = []; store = new_in_memory_store; cache = empty; env = 0 }

-- A store that cannot write a scan.
abbrev broken_store : Store InMemoryStore
broken_store = record store { create_qr_scan_event = λ e s. (err (foreign "down"), s) }

abbrev scanned : W
scanned = (process_qr_scan broken_store memory_cache counter rt (pos 10) queued world).1

scan-scan_example :
    let out = process_qr_scan broken_store memory_cache counter rt (pos 10) queued scanned in
    (out.0 ≡ ok tt) × (out.1.store ≡ scanned.store) × (out.1.env ≡ scanned.env)
unfolding new_job dedup_key
scan-scan_example =
    scan-scan broken_store memory_cache counter rt (pos 10) view memory_cache-IsReliable queued
      queued qr_scan qr_scan world scanned refl refl refl refl refl refl refl
