-- ===== src/Tests/Interleaving.antt =====
-- Schedules of goroutines, by the numbers of those that take a step.
use ingress_api_gateway.Prelude.{ℕ, ◌≡◌, refl, Option, none, some, List, [], ◌∷◌, get_elem?}
use ingress_api_gateway.Interleaving.{State, System, Reach, later, go_on, moved}

module _ {W P : Type 0} (sys : System W P) where
  abbrev pub step_at :
      (i : ℕ) (s t : State W P) (o : Option P)
      → Reach sys s t
      → get_elem? t.places i ≡ o
      → (u : State W P) × Reach sys s u
  step_at i s t none r e = (t, r)
  step_at i s t (some p) r e = (moved sys i p t, later r (go_on i p e))

  -- The goroutines with these numbers take a step each.
  unfoldable pub walk : List ℕ → (s t : State W P) → Reach sys s t → (u : State W P) × Reach sys s u
  walk [] s t r = (t, r)
  walk (i ∷ is) s t r =
      let next = step_at i s t (get_elem? t.places i) r refl in walk is s next.0 next.1
