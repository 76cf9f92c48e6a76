-- ===== src/Service/Requests/Answers.antt =====
-- internal/service/gateway_service.go: which job the requests with one claim are answered with.
use mathlib.Core.Path.{subst}
use ingress_api_gateway.Prelude.{
  ℕ, ◌≡◌, sym, ◌∙◌, inl, inr, String, false, Option, none, some, ◌==◌, arith, get_elem?,
  get_elem?-set, get_elem?-append,
}
use ingress_api_gateway.Interleaving.{
  State, All, moved, Step, begin, go_on, elsewhere, expire, Reach, Reach-keeps, nobody,
}
use ingress_api_gateway.Domain.Result.{ok}
use ingress_api_gateway.Domain.Job.{Job}
use ingress_api_gateway.Domain.Laws.{IsReliable, FindsById}
use ingress_api_gateway.Domain.Ports.{
  Queue, Cache, JobRepository, Env, Runtime, World, EnqueueResult,
}
use ingress_api_gateway.Service.Gateway.{GatewayConfig}
use ingress_api_gateway.Service.Requests.{Request, replied, advance, claim_of, requests}
use ingress_api_gateway.Service.Requests.Agreement.{Agrees, Agrees-none, IsNamed, advance-agrees}

module _ {Q S C E : Type 0} (queue : Queue Q) (jobs : JobRepository S) (cache : Cache C)
    (env : Env E) (rt : Runtime) (cfg : GatewayConfig) (view : C → String → Option String)
    (reliable : IsReliable cache view) (key : String) (finds : FindsById jobs)
    (stores : (job : Job) (s : S) → (jobs.create job s).0 ≡ ok tt)
    (queues : (job : Job) (q : Q) → (queue.push job q).0 ≡ ok tt)
    (named : (e : E) → ((env.new_uuid e).0 == "") ≡ false) where
  abbrev held_by : World Q S C E → Option String
  held_by = claim_of queue jobs cache env rt cfg view key

  abbrev Run : Type 0
  Run = State (World Q S C E) Request

  -- While the claim has not run out, all its requests agree on one job.
  record AllAgree (s : Run) : Type 0 where
    places : All (Agrees rt key (held_by s.world)) s.places
    is_named : IsNamed (held_by s.world)

  moved_agrees :
      (s : Run) (i : ℕ) (p : Request)
      → get_elem? s.places i ≡ some p
      → AllAgree s
      → AllAgree (moved (requests queue jobs cache env rt cfg view key) i p s)
  moved_agrees s i p at h =
      let (p', w) = advance queue jobs cache env rt cfg p s.world in
      let change =
        advance-agrees queue jobs cache env rt cfg view reliable key finds stores queues named p
          s.world (h.places i p at) h.is_named in
      record {
        places = λ j q e. elim (get_elem?-set s.places i j p' q e) [
          | inl same ↦ subst (Agrees rt key (held_by w)) (sym same) change.agrees
          | inr old ↦ elim change.kept [
            | inl stays ↦ subst (λ o. Agrees rt key o q) (sym stays) (h.places j q old)
            | inr free ↦
                Agrees-none rt key (held_by w) q
                  (subst (λ o. Agrees rt key o q) free (h.places j q old))
          ]
        ];
        is_named = change.is_named;
      }

  Step-AllAgree :
      (s t : Run)
      → Step (requests queue jobs cache env rt cfg view key) s t
      → (s.expiries ≡ 0 → AllAgree s)
      → t.expiries ≡ 0
      → AllAgree t
  Step-AllAgree s t (begin p (req, same, first)) h z = record {
    places = λ i q e. elim (get_elem?-append s.places p i q e) [
      | inl new ↦ subst (Agrees rt key (held_by s.world)) (sym (new ∙ first)) same
      | inr old ↦ (h z).places i q old
    ];
    is_named = (h z).is_named;
  }
  Step-AllAgree s t (go_on i p at) h z = moved_agrees s i p at (h z)
  Step-AllAgree s t (elsewhere w f) h z = record {
    places = λ i q e. subst (λ o. Agrees rt key o q) (sym f) ((h z).places i q e);
    is_named = subst IsNamed (sym f) (h z).is_named;
  }
  Step-AllAgree s t (expire w f) h z = absurd (omega arith)

  -- With a reliable cache, a repository that finds jobs by their id and stores each new one, a queue that
  -- takes each push, uuids that are not empty, and a claim that is free before the first request for it
  -- and has not run out: however the requests for the claim interleave with each other and with the rest
  -- of the system, all that are answered without an error, as fresh or as duplicates, are answered with
  -- one and the same job id.
  pub Reach-answers :
      (w : World Q S C E) (s : Run) (i j : ℕ) (a b : EnqueueResult)
      → held_by w ≡ none
      → Reach (requests queue jobs cache env rt cfg view key) (nobody w) s
      → s.expiries ≡ 0
      → get_elem? s.places i ≡ some (replied (ok a))
      → get_elem? s.places j ≡ some (replied (ok b))
      → a.job.id ≡ b.job.id
  Reach-answers w s i j a b free r unexpired at_i at_j =
      let h =
        Reach-keeps (requests queue jobs cache env rt cfg view key)
          (λ u. u.expiries ≡ 0 → AllAgree u) Step-AllAgree (nobody w) s r
          (λ z. record {
            places = λ k q e. absurd (ground arith);
            is_named = subst IsNamed (sym free) tt;
          })
          unexpired in
      ground (arith, h.places i (replied (ok a)) at_i, h.places j (replied (ok b)) at_j)
