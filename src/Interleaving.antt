-- ===== src/Interleaving.antt =====
-- Goroutines that run the same code on a shared world, each at a place of it, as steps in any order.
pub mod Semaphore
pub mod Potential
use mathlib.Core.Path.{subst}
use ingress_api_gateway.Prelude.{
  ℕ, suc, ◌+◌, ◌≤◌, ◌≡◌, sym, ◌⊎◌, inl, inr, Option, some, List, [], ◌∷◌, ◌++◌, get_elem?, set,
  get_elem?-set, get_elem?-append, arith,
}

-- The world with the places of the goroutines, how often a step that counts was taken, and how often a
-- key of the cache ran out.
pub record State (W P : Type 0) : Type 0 where
  pub world : W
  pub places : List P
  pub count : ℕ
  pub expiries : ℕ

-- Before any goroutine.
abbrev pub nobody : {W P : Type 0} → W → State W P
nobody w = record { world = w; places = []; count = 0; expiries = 0 }

abbrev pub All : {P : Type 0} → (P → Type 0) → List P → Type 0
All {P} Ours ps = (i : ℕ) (p : P) → get_elem? ps i ≡ some p → Ours p

-- What a system consists of: the step that a goroutine takes at a place, the steps that count, where a
-- goroutine may start, what the rest of the system may do to the world, and what it is for the key to
-- run out.
pub record System (W P : Type 0) : Type 1 where
  pub advance : P → W → P × W
  pub counts : P → ℕ
  pub Start : P → Type 0
  pub Frame : W → W → Type 0
  pub Expiry : W → W → Type 0

module _ {W P : Type 0} (sys : System W P) where
  abbrev pub moved : ℕ → P → State W P → State W P
  moved i p s =
      let (p', w) = sys.advance p s.world in
      record s { world = w; places = set s.places i p'; count = s.count + sys.counts p }

  -- A goroutine begins, one of them goes on, something else happens, or the key runs out.
  pub data Step (s : State W P) : State W P → Type 0 where
    begin : (p : P) → sys.Start p → Step s (record s { places = s.places ++ p ∷ [] })
    go_on : (i : ℕ) (p : P) → get_elem? s.places i ≡ some p → Step s (moved i p s)
    elsewhere : (w : W) → sys.Frame s.world w → Step s (record s { world = w })
    expire :
        (w : W) → sys.Expiry s.world w → Step s (record s { world = w; expiries = suc s.expiries })

  pub data Reach (s : State W P) : State W P → Type 0 where
    stay : Reach s s
    later : {t u : State W P} → Reach s t → Step t u → Reach s u

  -- What each step keeps holds in every state that is reached.
  pub Reach-keeps :
      (I : State W P → Type 0)
      → ((s t : State W P) → Step s t → I s → I t)
      → (s t : State W P) → Reach s t
      → I s
      → I t
  Reach-keeps I kept s t stay h = h
  Reach-keeps I kept s t (later {t = u} r e) h = kept u t e (Reach-keeps I kept s u r h)

  Step-count : (n : ℕ) (s t : State W P) → Step s t → n ≤ s.count → n ≤ t.count
  Step-count n s t (begin p here) h = h
  Step-count n s t (go_on i p at) h = omega (arith, h)
  Step-count n s t (elsewhere w f) h = h
  Step-count n s t (expire w f) h = h

  -- The count never goes down.
  pub Reach-count : (s t : State W P) → Reach s t → s.count ≤ t.count
  Reach-count s t r = Reach-keeps (λ u. s.count ≤ u.count) (Step-count s.count) s t r (omega arith)

  module _ (Ours : P → Type 0) (first : (p : P) → sys.Start p → Ours p)
      (on : (p : P) (w : W) → Ours p → Ours (sys.advance p w).0) where
    either :
        (ps : List P) (p : P)
        → All Ours ps
        → Ours p
        → (i : ℕ) (q : P) → (q ≡ p) ⊎ (get_elem? ps i ≡ some q)
        → Ours q
    either ps p old new i q (inl e) = subst Ours (sym e) new
    either ps p old new i q (inr e) = old i q e

    -- All goroutines stay at places of a kind that they start at and that their steps keep.
    pub Step-All : (s t : State W P) → Step s t → All Ours s.places → All Ours t.places
    Step-All s t (begin p here) h i q e =
        either s.places p h (first p here) i q (get_elem?-append s.places p i q e)
    Step-All s t (go_on i p at) h j q e =
        let p' = (sys.advance p s.world).0 in
        either s.places p' h (on p s.world (h i p at)) j q (get_elem?-set s.places i j p' q e)
    Step-All s t (elsewhere w f) h i q e = h i q e
    Step-All s t (expire w f) h i q e = h i q e
