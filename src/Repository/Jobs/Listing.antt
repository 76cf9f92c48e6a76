-- ===== src/Repository/Jobs/Listing.antt =====
-- internal/repository/job_repository.go: the text and the arguments of the query of List.
use ingress_api_gateway.Prelude.{
  decimal, ℕ, ◌+◌, ◌≤◌, String, ◌≡◌, refl, Bool, true, false, List, [], ◌∷◌, ◌++◌, ◌<>◌, length,
  arith, ◌==◌, if◌then◌else◌,
}
use ingress_api_gateway.Prelude.Int.{ℤ, pos_part}
use ingress_api_gateway.Domain.Job.{JobFilter}
use ingress_api_gateway.Repository.Database.{Value, text, int}
use ingress_api_gateway.Repository.Query.{conditions, list_text, list_args, clamp_limit}

-- Which filters are set decides the text.
text_cases :
    (f g : JobFilter) (a b : Bool)
    → (f.status == "") ≡ a
    → (f.job_type == "") ≡ b
    → (g.status == "") ≡ a
    → (g.job_type == "") ≡ b
    → list_text (conditions f) ≡ list_text (conditions g)
unfolding conditions
text_cases f g true true p q s t = rw (p, q, s, t) refl
text_cases f g true false p q s t = rw (p, q, s, t) refl
text_cases f g false true p q s t = rw (p, q, s, t) refl
text_cases f g false false p q s t = rw (p, q, s, t) refl

-- The text of the query says which filters are set, and nothing of their values: two filters that set
-- the same columns give the same text.
pub list_text-conditions :
    (f g : JobFilter)
    → (f.status == "") ≡ (g.status == "")
    → (f.job_type == "") ≡ (g.job_type == "")
    → list_text (conditions f) ≡ list_text (conditions g)
list_text-conditions f g s t = text_cases f g (g.status == "") (g.job_type == "") s t refl refl

-- The filters that are set, in the order of the query.
abbrev pub set_filters : JobFilter → List (String × String)
set_filters f =
    (if f.status == "" then [] else ("status", f.status) ∷ [])
    ++ (if f.job_type == "" then [] else ("job_type", f.job_type) ∷ [])

abbrev pub numbered : ℕ → List (String × String) → List String
numbered n [] = []
numbered n ((column, value) ∷ rest) = (column <> "=$" <> decimal n) ∷ numbered (n + 1) rest

abbrev pub bound : List (String × String) → List Value
bound [] = []
bound ((column, value) ∷ rest) = text value ∷ bound rest

clamp_limit_bounds :
    (limit : ℤ) → (1 ≤ pos_part (clamp_limit limit)) × (pos_part (clamp_limit limit) ≤ 500)
unfolding clamp_limit
clamp_limit_bounds limit = ground arith

binding_cases :
    (f : JobFilter) (a b : Bool)
    → (f.status == "") ≡ a
    → (f.job_type == "") ≡ b
    → let n = length (set_filters f) in
      ((conditions f).conds ≡ numbered 1 (set_filters f))
      × ((conditions f).i ≡ n + 1)
      × (list_args f ≡ bound (set_filters f) ++ int (clamp_limit f.limit) ∷ int f.offset ∷ [])
      × (length (list_args f) ≡ n + 2)
unfolding conditions list_args
binding_cases f true true p q = rw (p, q) (refl, refl, refl, refl)
binding_cases f true false p q = rw (p, q) (refl, refl, refl, refl)
binding_cases f false true p q = rw (p, q) (refl, refl, refl, refl)
binding_cases f false false p q = rw (p, q) (refl, refl, refl, refl)

-- The n-th condition of the query compares its column with placeholder n, whose argument is the value
-- of that filter; the two placeholders behind them are bound to the limit, which lies between 1 and
-- 500, and to the offset, and there is no further argument.
pub list_args-conditions :
    (f : JobFilter)
    → let n = length (set_filters f) in
      let limit = clamp_limit f.limit in
      ((conditions f).conds ≡ numbered 1 (set_filters f))
      × ((conditions f).i ≡ n + 1)
      × (list_args f ≡ bound (set_filters f) ++ int limit ∷ int f.offset ∷ [])
      × (length (list_args f) ≡ n + 2)
      × (1 ≤ pos_part limit)
      × (pos_part limit ≤ 500)
list_args-conditions f =
    let (conds, next, args, count) =
      binding_cases f (f.status == "") (f.job_type == "") refl refl in
    let (low, high) = clamp_limit_bounds f.limit in (conds, next, args, count, low, high)
