-- ===== src/Domain/Result.antt =====
-- A Go call that returns `(value, error)` and changes shared state. The state stands beside the
-- error too: what was done before a failure stays done.
use ingress_api_gateway.Prelude.{Bool, true, false, ◌≡◌, ◌⊎◌, inl, inr, refl}
use ingress_api_gateway.Domain.Error.{Error, Sentinel, is_error}

pub data Result {ℓ} (A : Type ℓ) : Type ℓ where
  ok : A → Result A
  err : Error → Result A

abbrev pub Act {ℓ} : Type ℓ → Type ℓ → Type ℓ
Act W A = W → Result A × W

pub Result-cases {ℓ} :
    {A : Type ℓ} (r : Result A) → ((a : A) × (r ≡ ok a)) ⊎ ((e : Error) × (r ≡ err e))
Result-cases (ok a) = inl (a, refl)
Result-cases (err e) = inr (e, refl)

module _ {ℓ} {W A : Type ℓ} where
  abbrev pub pure : A → Act W A
  pure a w = (ok a, w)

  abbrev pub fail : Error → Act W A
  fail e w = (err e, w)

  -- The call with its error as a value: `v, err := m()`.
  abbrev pub catch : Act W A → Act W (Result A)
  catch m w = let (r, w') = m w in (ok r, w')

module _ {ℓ} {A : Type ℓ} where
  abbrev pub relabel : (Error → Error) → Result A → Result A
  relabel f (ok a) = ok a
  relabel f (err e) = err (f e)

-- `if err := m(); err != nil { return f(err) }`.
abbrev pub map_error {ℓ} : {W A : Type ℓ} → (Error → Error) → Act W A → Act W A
map_error f m w = let (r, w') = m w in (relabel f r, w')

-- `_ = m()`: the error is dropped.
abbrev pub ignore {ℓ} : {W A : Type ℓ} → Act W A → W → W
ignore m w = (m w).1

module _ {ℓ} {W A B : Type ℓ} where
  abbrev pub continue : Result A → (A → Act W B) → Act W B
  continue (ok a) f w = f a w
  continue (err e) f w = (err e, w)

  infixl 5 ◌>>=◌ ◌>>◌
  abbrev pub ◌>>=◌ : Act W A → (A → Act W B) → Act W B
  ◌>>=◌ m f w = let (r, w') = m w in continue r f w'

  abbrev pub ◌>>◌ : Act W A → Act W B → Act W B
  m >> n = m >>= λ _. n

-- The call failed with an error that `errors.Is` finds the sentinel in.
abbrev pub fails_with {ℓ} : {A : Type ℓ} → Result A → Sentinel → Bool
fails_with (ok a) s = false
fails_with (err e) s = is_error e s

abbrev pub is_ok {ℓ} : {A : Type ℓ} → Result A → Bool
is_ok (ok a) = true
is_ok (err e) = false
