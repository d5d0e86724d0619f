-- ===== src/Prelude/Division.antt =====
-- The quotient of natural numbers, and tests on it.
use native.Mathlib.Nat.{div-zero, le-div_iff_mul-le, div-lt_iff_lt-mul, div-mul-le_self, le_trans}
use Prim.Native.Nat.{ℕ, zero, suc, ◌*◌, ◌/◌, ◌≤◌, ◌<◌}
use mathlib.Core.Path.{◌≡◌}
use mathlib.Core.Logic.{◌↔◌}
use native.Mathlib.Omega.{arith}
use dizzy.Prelude.Tests.{ltb, leb}

pub div_mono : (a b k : ℕ) → a ≤ b → a / k ≤ b / k
div_mono a b zero h = rw (div-zero a, div-zero b) (omega arith)
div_mono a b (suc k) h =
    (le-div_iff_mul-le (omega arith)).1 (le_trans (div-mul-le_self a (suc k)) h)

pub leb-div : (w o i : ℕ) → 0 < w → leb i (o / w) ≡ leb (i * w) o
leb-div w o i h =
    let bound : (i ≤ o / w) ↔ (i * w ≤ o) = le-div_iff_mul-le h in ground (arith, bound)

pub ltb-div : (w o i : ℕ) → 0 < w → ltb (o / w) i ≡ ltb o (i * w)
ltb-div w o i h =
    let bound : (o / w < i) ↔ (o < i * w) = div-lt_iff_lt-mul h in ground (arith, bound)
