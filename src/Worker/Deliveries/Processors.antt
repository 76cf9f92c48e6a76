-- ===== src/Worker/Deliveries/Processors.antt =====
-- internal/worker/*_processor.go with internal/service/gateway_service.go: what the processors do to the
-- lock and to the done marker of a job.
use mathlib.Core.Path.{subst}
use ingress_api_gateway.Prelude.{
  String, ◌≡◌, refl, ◌⊎◌, false, Option, none, some, List, [], ◌∷◌, ◌<>◌, ◌==◌, arith, Bool-cases,
  inl, inr,
}
use ingress_api_gateway.Prelude.Int.{ℤ}
use ingress_api_gateway.Domain.Job.{Job, JobType}
use ingress_api_gateway.Domain.Laws.{IsReliable}
use ingress_api_gateway.Domain.Event.{QrScanPayload}
use ingress_api_gateway.Domain.Ports.{Queue, Cache, Store, Env, Runtime, World, Processor}
use ingress_api_gateway.Service.Gateway.Keys.{key-ne-job, job_key_of, enqueue_keeps}
use ingress_api_gateway.Service.Gateway.{GatewayConfig, enqueue}
use ingress_api_gateway.Worker.Pool.{find_processor, registered}
use ingress_api_gateway.Worker.Processors.Registration.{
  registration_processor, process_registration,
}
use ingress_api_gateway.Worker.Processors.Payment.{payment_processor, process_payment}
use ingress_api_gateway.Worker.Processors.QrScan.{qr_scan_processor, process_qr_scan, dedup_key}
use ingress_api_gateway.Worker.Processors.Notification.{
  Sender, notification_processor, process_notification,
}

-- A property of each processor of a list.
abbrev AllOf : {W : Type 0} → (Processor W → Type 0) → List (Processor W) → Type 0
AllOf P [] = Unit
AllOf P (p ∷ ps) = P p × AllOf P ps

registered-cases :
    {W : Type 0} (t : JobType) (q p : Processor W) (o : Option (Processor W))
    → registered t q o ≡ some p
    → (o ≡ some p) ⊎ (q ≡ p)
registered-cases t q p (some r) e = inl e
registered-cases t q p none e = elim (Bool-cases (q.type == t)) [
  | inl same ↦ inr (ground arith)
  | inr other ↦ absurd (ground arith)
]

found-AllOf :
    {W : Type 0} (P : Processor W → Type 0) (ps : List (Processor W)) (t : JobType)
    (p : Processor W)
    → AllOf P ps
    → find_processor ps t ≡ some p
    → P p
unfolding find_processor
found-AllOf P [] t p h e = absurd (ground arith)
found-AllOf P (q ∷ ps) t p (first, rest) e = elim (registered-cases t q p (find_processor ps t) e) [
  | inl found ↦ found-AllOf P ps t p rest found
  | inr same ↦ subst P same first
]

-- A key of a job's lock or done marker, which all start with "job:".
module _ {Q S C E : Type 0} (queue : Queue Q) (store : Store S) (cache : Cache C) (env : Env E)
    (rt : Runtime) (cfg : GatewayConfig) (ttl : ℤ) (sender : Sender (World Q S C E))
    (view : C → String → Option String) (reliable : IsReliable cache view) (rest : String) where
  abbrev guard_of : World Q S C E → Option String
  guard_of w = view w.cache ("job:" <> rest)

  seen-ne-job : (p : QrScanPayload) → (dedup_key p == ("job:" <> rest)) ≡ false
  unfolding dedup_key
  seen-ne-job p = key-ne-job "qr:s" "een:" (p.event_id <> ":" <> p.qr_code) rest refl refl

  attendance-ne-job : (s : String) → (("attendance:" <> s) == ("job:" <> rest)) ≡ false
  attendance-ne-job s = key-ne-job "atte" "ndance:" s rest refl refl

  registration_keeps :
      (job : Job) (w : World Q S C E)
      → guard_of
          (process_registration store env rt (enqueue queue store.jobs cache env rt cfg) job w).1
        ≡ guard_of w
  unfolding process_registration
  registration_keeps job w =
      grind (arith, enqueue_keeps queue store.jobs cache env rt cfg view reliable rest)

  payment_keeps :
      (job : Job) (w : World Q S C E) → guard_of (process_payment store env rt job w).1 ≡ guard_of w
  unfolding process_payment
  payment_keeps job w = ground arith

  notification_keeps :
      ((a b c d : String) (w : World Q S C E) → guard_of (sender a b c d w).1 ≡ guard_of w)
      → (job : Job) (w : World Q S C E)
      → guard_of (process_notification store env rt sender job w).1 ≡ guard_of w
  unfolding process_notification
  notification_keeps quiet job w = grind (arith, quiet)

  qr_scan_keeps :
      (job : Job) (w : World Q S C E)
      → guard_of (process_qr_scan store cache env rt ttl job w).1 ≡ guard_of w
  unfolding process_qr_scan
  qr_scan_keeps job w =
      grind (arith, reliable.set_nx_view, reliable.incr_view, seen-ne-job, attendance-ne-job)

module _ {Q S C E : Type 0} (queue : Queue Q) (store : Store S) (cache : Cache C) (env : Env E)
    (rt : Runtime) (gateway : GatewayConfig) (ttl : ℤ) (sender : Sender (World Q S C E)) where
  -- The processors of the repository, with the gateway service as the enqueuer.
  unfoldable pub processors : List (Processor (World Q S C E))
  processors =
      registration_processor store env rt (enqueue queue store.jobs cache env rt gateway)
      ∷ payment_processor store env rt
      ∷ qr_scan_processor store cache env rt ttl
      ∷ notification_processor store env rt sender
      ∷ []

  module _ (view : C → String → Option String) (reliable : IsReliable cache view)
      (quiet : (rest a b c d : String) (w : World Q S C E)
        → view (sender a b c d w).1.cache ("job:" <> rest) ≡ view w.cache ("job:" <> rest)) where
    processors_keep :
        AllOf
          (λ p.
            (rest : String) (job : Job) (w : World Q S C E)
            → view (p.process job w).1.cache ("job:" <> rest) ≡ view w.cache ("job:" <> rest))
          processors
    unfolding processors
    processors_keep = (
      λ rest. registration_keeps queue store cache env rt gateway ttl sender view reliable rest,
      (
        λ rest. payment_keeps queue store cache env rt gateway ttl sender view reliable rest,
        (
          λ rest. qr_scan_keeps queue store cache env rt gateway ttl sender view reliable rest,
          (
            λ rest.
                notification_keeps queue store cache env rt gateway ttl sender view reliable rest
                  (quiet rest),
            tt,
          ),
        ),
      ),
    )

    -- With a reliable cache and a sender that writes no key "job:...": whichever of the four processors
    -- the pool finds for a job type, with the gateway service as its enqueuer, leaves the lock and the
    -- done marker of every job as they are, whatever job it runs.
    pub processors-keep :
        (id : String) (p : Processor (World Q S C E)) (t : JobType) (job : Job) (w : World Q S C E)
        → find_processor processors t ≡ some p
        → let v = (p.process job w).1 in
          (view v.cache ("job:lock:" <> id) ≡ view w.cache ("job:lock:" <> id))
          × (view v.cache ("job:done:" <> id) ≡ view w.cache ("job:done:" <> id))
    processors-keep id p t job w found =
        let keeps = found-AllOf _ processors t p processors_keep found in
        let v = (p.process job w).1 in
        (
          job_key_of view v.cache w.cache "lock:" id (keeps ("lock:" <> id) job w),
          job_key_of view v.cache w.cache "done:" id (keeps ("done:" <> id) job w),
        )
