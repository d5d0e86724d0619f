-- ===== src/Prelude/Decimal.antt =====
-- Numbers as text, for `%d`.
use Prim.Native.Nat.{ℕ, zero, suc, ◌/◌, ◌%◌}
use Prim.Native.String.{String, ◌++◌}
use mathlib.Core.List.{[], ◌∷◌}
use dizzy.Prelude.Tests.{ltb, if◌then◌else◌}
use dizzy.Prelude.Lists.{get_or}

abbrev pub digit : ℕ → String
digit n = get_or ("0" ∷ "1" ∷ "2" ∷ "3" ∷ "4" ∷ "5" ∷ "6" ∷ "7" ∷ "8" ∷ "9" ∷ []) n ""

abbrev pub digits : ℕ → ℕ → String
digits zero n = ""
digits (suc fuel) n =
    let front = digits fuel (n / 10) in if ltb n 10 then digit n else front ++ digit (n % 10)

-- A number has at most as many digits as it counts, and one.
abbrev pub decimal : ℕ → String
decimal n = digits (suc n) n
