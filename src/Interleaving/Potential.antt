-- ===== src/Interleaving/Potential.antt =====
-- What goroutines have yet to spend: a quantity of the world that grows only on account of those that
-- are at certain places.
use ingress_api_gateway.Prelude.{ℕ, ◌+◌, ◌≤◌, ◌≡◌, arith, total, total-set, total-append}
use ingress_api_gateway.Interleaving.{
  State, All, System, Step, begin, go_on, elsewhere, expire, Reach, Reach-keeps, Step-All,
}

module _ {W P : Type 0} (sys : System W P) (Ours : P → Type 0)
    (first : (p : P) → sys.Start p → Ours p)
    (on : (p : P) (w : W) → Ours p → Ours (sys.advance p w).0) (While : W → Type 0) (size : W → ℕ)
    (due : P → ℕ) (nothing_yet : (p : P) → sys.Start p → due p ≡ 0)
    (spends : (p : P) (w : W)
      → Ours p
      → While w
      → While (sys.advance p w).1
        × (size (sys.advance p w).1 + sys.counts p + due (sys.advance p w).0 ≤ size w + due p))
    (framed : (w v : W) → sys.Frame w v → While w → While v × (size v ≤ size w))
    (gone : (w v : W) → sys.Expiry w v → While w → While v × (size v ≤ size w)) where
  record IsSpending (bound : ℕ) (s : State W P) : Type 0 where
    ours : All Ours s.places
    still : While s.world
    bounded : size s.world + s.count + total due s.places ≤ bound

  Step-IsSpending : (n : ℕ) (s t : State W P) → Step sys s t → IsSpending n s → IsSpending n t
  Step-IsSpending n s t (begin p here) h =
      let count = total-append due s.places p in
      let zero_yet = nothing_yet p here in
      record {
        ours = Step-All sys Ours first on s t (begin p here) h.ours;
        still = h.still;
        bounded = omega (arith, h.bounded, count, zero_yet);
      }
  Step-IsSpending n s t (go_on i p at) h =
      let count = total-set due s.places i (sys.advance p s.world).0 p at in
      let (still, spent) = spends p s.world (h.ours i p at) h.still in
      record {
        ours = Step-All sys Ours first on s t (go_on i p at) h.ours;
        still = still;
        bounded = omega (arith, h.bounded, count, spent);
      }
  Step-IsSpending n s t (elsewhere w f) h =
      let (still, less) = framed s.world w f h.still in
      record { ours = h.ours; still = still; bounded = omega (arith, h.bounded, less) }
  Step-IsSpending n s t (expire w f) h =
      let (still, less) = gone s.world w f h.still in
      record { ours = h.ours; still = still; bounded = omega (arith, h.bounded, less) }

  -- From a state in which the condition holds, it goes on to hold, and the quantity, with the steps that
  -- count, grows by no more than is due at the places of that state.
  pub Reach-spends :
      (s t : State W P)
      → All Ours s.places
      → While s.world
      → Reach sys s t
      → (size t.world + t.count + total due t.places ≤ size s.world + s.count + total due s.places)
        × While t.world
  Reach-spends s t ours still r =
      let bound = size s.world + s.count + total due s.places in
      let h : IsSpending bound t =
        Reach-keeps sys (IsSpending bound) (Step-IsSpending bound) s t r
          (record { ours = ours; still = still; bounded = omega arith }) in
      (h.bounded, h.still)
