-- ===== src/Prelude/Text.antt =====
-- `%d` of a number that is not negative, and `strings.Join`.
use Prim.Native.Nat.{ℕ, zero, suc, ◌+◌, ◌/◌, ◌%◌}
use Prim.Native.String.{String, slice}
use mathlib.Core.List.{List, [], ◌∷◌}
use ingress_api_gateway.Prelude.Tests.{ltb, if◌then◌else◌, ◌<>◌}

abbrev digit : ℕ → String
digit d = slice "0123456789" d (d + 1)

decimal_in : ℕ → ℕ → String
decimal_in zero n = ""
decimal_in (suc fuel) n =
    let more = decimal_in fuel (n / 10) <> digit (n % 10) in if ltb n 10 then digit n else more

-- `%d` of a number that is not negative.
unfoldable pub decimal : ℕ → String
unfolding decimal_in
decimal n = decimal_in (suc n) n

unfoldable pub join : String → List String → String
join sep [] = ""
join sep (s ∷ []) = s
join sep (s ∷ t ∷ rest) = s <> sep <> join sep (t ∷ rest)
