-- ===== src/Interleaving/Semaphore.antt =====
-- A key of the cache that goroutines take with SETNX: how many of them have it.
use ingress_api_gateway.Prelude.{
  ℕ, ◌+◌, ◌≤◌, ◌≡◌, ◌⊎◌, inl, inr, String, Option, none, some, arith, total, total-set,
  total-append,
}
use ingress_api_gateway.Interleaving.{
  State, nobody, All, System, Step, begin, go_on, elsewhere, expire, Reach, Reach-keeps, Step-All,
}

-- Whether the key is set.
abbrev pub bit : Option String → ℕ
bit none = 0
bit (some v) = 1

-- What a step of a goroutine may do to the key, when it has `before` of it before the step and `after`
-- after it.
abbrev pub IsKeyStep : (before after : ℕ) (old new : Option String) → Type 0
IsKeyStep before after old new =
    (after + bit old ≤ before + bit new) × ((bit new ≡ 0) ⊎ (bit new + before ≡ bit old + after))

pub key_kept : (n : ℕ) {old new : Option String} → new ≡ old → IsKeyStep n n old new
key_kept n same = grind arith

module _ {W P : Type 0} (sys : System W P) (Ours : P → Type 0)
    (first : (p : P) → sys.Start p → Ours p)
    (on : (p : P) (w : W) → Ours p → Ours (sys.advance p w).0) (key : W → Option String)
    (has : P → ℕ) (nothing_yet : (p : P) → sys.Start p → has p ≡ 0)
    (effect : (p : P) (w : W)
      → Ours p
      → IsKeyStep (has p) (has (sys.advance p w).0) (key w) (key (sys.advance p w).1))
    (framed : (w v : W) → sys.Frame w v → key v ≡ key w)
    (gone : (w v : W) → sys.Expiry w v → key v ≡ none) where
  pub record IsCounted (s : State W P) : Type 0 where
    pub ours : All Ours s.places
    pub few : total has s.places ≤ s.expiries + bit (key s.world)
    pub held : bit (key s.world) ≤ total has s.places

  pub Step-IsCounted : (s t : State W P) → Step sys s t → IsCounted s → IsCounted t
  Step-IsCounted s t (begin p here) h =
      let count = total-append has s.places p in
      let zero_yet = nothing_yet p here in
      record {
        ours = Step-All sys Ours first on s t (begin p here) h.ours;
        few = omega (arith, h.few, count, zero_yet);
        held = omega (arith, h.held, count, zero_yet);
      }
  Step-IsCounted s t (go_on i p at) h =
      let count = total-set has s.places i (sys.advance p s.world).0 p at in
      let change = effect p s.world (h.ours i p at) in
      record {
        ours = Step-All sys Ours first on s t (go_on i p at) h.ours;
        few = omega (arith, h.few, count, change.0);
        held = elim change.1 [
          | inl free ↦ omega (arith, free)
          | inr moved ↦ omega (arith, h.held, count, moved)
        ];
      }
  Step-IsCounted s t (elsewhere w f) h = record {
    ours = h.ours;
    few = rw (framed s.world w f) h.few;
    held = rw (framed s.world w f) h.held;
  }
  Step-IsCounted s t (expire w f) h = record {
    ours = h.ours;
    few = ground (arith, h.few, gone s.world w f);
    held = ground (arith, gone s.world w f);
  }

  -- In every state reached from one without a goroutine in which the key is free, the goroutines that have
  -- the key are as many as the key has run out, and one more while it is set, at the most; and one at
  -- least while it is set.
  pub Reach-total :
      (w : W) (s : State W P)
      → key w ≡ none
      → Reach sys (nobody w) s
      → (total has s.places ≤ s.expiries + bit (key s.world))
        × (bit (key s.world) ≤ total has s.places)
  Reach-total w s free r =
      let h : IsCounted s =
        Reach-keeps sys IsCounted Step-IsCounted (nobody w) s r (record {
          ours = λ i p e. ground arith;
          few = omega arith;
          held = ground (arith, free);
        }) in
      (h.few, h.held)
