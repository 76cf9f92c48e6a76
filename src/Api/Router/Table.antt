-- ===== src/Api/Router/Table.antt =====
-- internal/api/router.go: what a response of the whole router can depend on.
use ingress_api_gateway.Prelude.{
  ℕ, String, ◌≡◌, refl, ap, Bool, true, false, ◌&&◌, ◌||◌, List, [], ◌∷◌, ◌++◌, starts_with, arith,
  Bool-cases, inl, inr, if◌then◌else◌,
}
use ingress_api_gateway.Domain.Result.{Result, Act}
use ingress_api_gateway.Security.Jwt.{Claims}
use ingress_api_gateway.Api.Http.{Request, Handler}
use ingress_api_gateway.Api.Middleware.{bearer, bearer_token, request_id}
use ingress_api_gateway.Api.Middleware.Observe.{
  Observers, Raw, returned, observed, recovery, logging, metrics,
}
use ingress_api_gateway.Api.Router.{
  RouterDeps, Endpoints, Route, serves, dispatch, total, probes, documents, gateway, admin, routes,
  new_router,
}
use ingress_api_gateway.Api.Router.Guards.{is_admin, admin_route_guards}

if_cong {ℓ} :
    {A : Type ℓ} (b : Bool) {x y u v : A}
    → x ≡ y
    → u ≡ v
    → (if b then x else u) ≡ (if b then y else v)
if_cong true p q = p
if_cong false p q = q

module _ {W : Type 0} where
  -- Two tables of the same methods and patterns whose handlers answer one request alike.
  abbrev pub Alike : Request → List (Route W) → List (Route W) → Type 0
  Alike r [] [] = Unit
  Alike r [] (y ∷ ys) = ⊥
  Alike r (x ∷ xs) [] = ⊥
  Alike r (x ∷ xs) (y ∷ ys) =
      (serves x r ≡ serves y r) × ((w : W) → x.handler r w ≡ y.handler r w) × Alike r xs ys

  dispatch-Alike :
      (not_found : Handler W) (r : Request) (xs ys : List (Route W)) (w : W)
      → Alike r xs ys
      → dispatch not_found xs r w ≡ dispatch not_found ys r w
  unfolding dispatch
  dispatch-Alike not_found r [] [] w h = refl
  dispatch-Alike not_found r [] (y ∷ ys) w h = elim h [ ]
  dispatch-Alike not_found r (x ∷ xs) [] w h = elim h [ ]
  dispatch-Alike not_found r (x ∷ xs) (y ∷ ys) w (same, alike, rest) =
      rw same (if_cong (serves y r) (alike w) (dispatch-Alike not_found r xs ys w rest))

  Alike-self : (r : Request) (xs : List (Route W)) → Alike r xs xs
  Alike-self r [] = tt
  Alike-self r (x ∷ xs) = (refl, λ w. refl, Alike-self r xs)

  Alike-append :
      (r : Request) (xs ys zs : List (Route W)) → Alike r ys zs → Alike r (xs ++ ys) (xs ++ zs)
  Alike-append r [] ys zs h = h
  Alike-append r (x ∷ xs) ys zs h = (refl, λ w. refl, Alike-append r xs ys zs h)

  observed_cong :
      (o : Observers W) (next other : Raw W) (r : Request) (w : W)
      → ((w' : W) → next r w' ≡ other r w')
      → observed o next r w ≡ observed o other r w
  unfolding observed recovery logging metrics
  observed_cong o next other r w h = rw (h _) refl

  request_id_cong :
      (new_uuid : W → String × W) (next other : Handler W) (r : Request) (w : W)
      → ((rid tid : String) (w' : W)
          → next (record r { request_id = rid; trace_id = tid }) w'
            ≡ other (record r { request_id = rid; trace_id = tid }) w')
      → request_id new_uuid next r w ≡ request_id new_uuid other r w
  unfolding request_id
  request_id_cong new_uuid next other r w h = rw (h _ _ _) refl

  -- The endpoints with the admin handlers of others.
  abbrev pub with_admin : Endpoints W → Endpoints W → Endpoints W
  with_admin e f = record e {
    list_jobs = f.list_jobs;
    stats = f.stats;
    get_job = f.get_job;
    retry_job = f.retry_job;
    dead_letter_jobs = f.dead_letter_jobs;
  }

  Alike-with_admin :
      (d : RouterDeps W) (e f : Endpoints W) (r : Request)
      → (starts_with (r.header "Authorization") bearer
          && is_admin (d.verify (bearer_token d.trim_space (r.header "Authorization"))))
        ≡ false
      → Alike r (routes d e) (routes d (with_admin e f))
  unfolding routes
  Alike-with_admin d e f r h =
      let guarded = λ (next other : Handler W) (w : W). (admin_route_guards d next other r w h).0 in
      let old = admin d e in
      let new = admin d (with_admin e f) in
      Alike-append r (probes e ++ documents d e ++ gateway d e) old new (
        refl,
        guarded e.list_jobs f.list_jobs,
        (
          refl,
          guarded e.stats f.stats,
          (
            refl,
            guarded e.get_job f.get_job,
            (
              refl,
              guarded e.retry_job f.retry_job,
              (refl, guarded e.dead_letter_jobs f.dead_letter_jobs, tt),
            ),
          ),
        ),
      )

  -- What two tables decide alike of a request, whatever ids it is given, their routers do.
  served_cong :
      (d : RouterDeps W) (xs ys : List (Route W)) (r : Request) (w : W)
      → ((rid tid : String) (w' : W)
          → let r' = record r { remote_addr = d.real_ip r; request_id = rid; trace_id = tid } in
            dispatch d.not_found xs r' w' ≡ dispatch d.not_found ys r' w')
      → let r' = record r { remote_addr = d.real_ip r } in
        request_id d.new_uuid (observed d.observers (total (dispatch d.not_found xs))) r' w
        ≡ request_id d.new_uuid (observed d.observers (total (dispatch d.not_found ys))) r' w
  served_cong d xs ys r w h = request_id_cong d.new_uuid _ _ _ w (λ rid tid w'.
      observed_cong d.observers _ _ _ w' (λ w''. ap (λ p. (returned p.0, p.1)) (h rid tid w'')))

  -- No request without a bearer token that verifies and has the role admin gets anything from an admin
  -- handler: with any other handlers in their place the router gives the same response and the same
  -- state, on every path.
  pub new_router-with_admin :
      (d : RouterDeps W) (e f : Endpoints W) (r : Request) (w : W)
      → (starts_with (r.header "Authorization") bearer
          && is_admin (d.verify (bearer_token d.trim_space (r.header "Authorization"))))
        ≡ false
      → new_router d e r w ≡ new_router d (with_admin e f) r w
  unfolding new_router routes
  new_router-with_admin d e f r w h =
      served_cong d (routes d e) (routes d (with_admin e f)) r w (λ rid tid w'.
        dispatch-Alike d.not_found _ (routes d e) (routes d (with_admin e f)) w'
          (Alike-with_admin d e f _ h))

  abbrev pub any_serves : List (Route W) → Request → Bool
  any_serves [] r = false
  any_serves (x ∷ xs) r = serves x r || any_serves xs r

  dispatch-append :
      (not_found : Handler W) (xs ys zs : List (Route W)) (r : Request) (w : W)
      → any_serves xs r ≡ true
      → dispatch not_found (xs ++ ys) r w ≡ dispatch not_found (xs ++ zs) r w
  unfolding dispatch
  dispatch-append not_found [] ys zs r w h = ground arith
  dispatch-append not_found (x ∷ xs) ys zs r w h = elim (Bool-cases (serves x r)) [
    | inl p ↦ rw p refl
    | inr n ↦
        let later : any_serves xs r ≡ true = ground arith in
        rw n (dispatch-append not_found xs ys zs r w later)
  ]

  -- What the guards read, replaced.
  abbrev pub guarded_by :
      RouterDeps W
      → (String → W → Bool × W)
      → (String → W → Bool × W)
      → Act W ℕ
      → (String → Result Claims)
      → RouterDeps W
  guarded_by d global_allow client_allow total_depth verify = record d {
    global_allow = global_allow;
    client_allow = client_allow;
    total_depth = total_depth;
    verify = verify;
  }

  -- A request of a probe or of the metrics is answered by its handler whatever the limiters say, however
  -- long the queue is and whatever token it carries: with any others in their place, the router gives
  -- the same response and the same state.
  pub new_router-guarded_by :
      (d : RouterDeps W) (e : Endpoints W) (r : Request) (w : W)
      (global_allow client_allow : String → W → Bool × W) (total_depth : Act W ℕ)
      (verify : String → Result Claims)
      → any_serves (probes e) r ≡ true
      → new_router d e r w
        ≡ new_router (guarded_by d global_allow client_allow total_depth verify) e r w
  unfolding new_router routes
  new_router-guarded_by d e r w global_allow client_allow total_depth verify h =
      let d' = guarded_by d global_allow client_allow total_depth verify in
      served_cong d (routes d e) (routes d' e) r w
        (λ rid tid w'. dispatch-append d.not_found (probes e) _ _ _ w' h)
