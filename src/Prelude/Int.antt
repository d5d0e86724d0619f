-- ===== src/Prelude/Int.antt =====
-- Signed integers, for Go's int and time.Duration within their range.
use Prim.Native.Nat.{ℕ, suc, ◌+◌, ◌-◌}
use mathlib.Core.Path.{◌≡◌, refl, ap}
use mathlib.Core.Logic.{◌⊎◌, ◌↔◌, inl, inr}
use mathlib.Core.Bool.{Bool, true, false}
use dizzy.Prelude.Tests.{ltb, leb, ◌==◌, ==_iff, if◌then◌else◌}

-- `negsuc n` is -(n + 1).
pub data ℤ : Type 0 where
  pos : ℕ → ℤ
  negsuc : ℕ → ℤ

abbrev pub ltb_ℤ : ℤ → ℤ → Bool
ltb_ℤ (pos a) (pos b) = ltb a b
ltb_ℤ (pos a) (negsuc b) = false
ltb_ℤ (negsuc a) (pos b) = true
ltb_ℤ (negsuc a) (negsuc b) = ltb b a

pub ℤ-cases : (z : ℤ) → ((n : ℕ) × (z ≡ pos n)) ⊎ ((n : ℕ) × (z ≡ negsuc n))
ℤ-cases (pos n) = inl (n, refl)
ℤ-cases (negsuc n) = inr (n, refl)

abbrev value_of : ℤ → ℕ
value_of (pos n) = n
value_of (negsuc n) = n

pub pos-injective : {m n : ℕ} → pos m ≡ pos n → m ≡ n
pos-injective {m} {n} e = ap value_of e

abbrev pub eq_ℤ : ℤ → ℤ → Bool
eq_ℤ (pos a) (pos b) = a == b
eq_ℤ (pos a) (negsuc b) = false
eq_ℤ (negsuc a) (pos b) = false
eq_ℤ (negsuc a) (negsuc b) = a == b

pub eq_ℤ_iff : (y z : ℤ) → (eq_ℤ y z ≡ true) ↔ (y ≡ z)
eq_ℤ_iff (pos a) (pos b) = (λ h. ap pos ((==_iff a b).0 h), λ e. (==_iff a b).1 (pos-injective e))
eq_ℤ_iff (pos a) (negsuc b) = (λ h. cc, λ e. cc e)
eq_ℤ_iff (negsuc a) (pos b) = (λ h. cc, λ e. cc e)
eq_ℤ_iff (negsuc a) (negsuc b) =
    (λ h. ap negsuc ((==_iff a b).0 h), λ e. (==_iff a b).1 (ap value_of e))

-- The difference of two numbers.
abbrev difference : ℕ → ℕ → ℤ
difference a b = if leb b a then pos (a - b) else negsuc (b - suc a)

abbrev pub minus_ℤ : ℤ → ℤ → ℤ
minus_ℤ (pos a) (pos b) = difference a b
minus_ℤ (pos a) (negsuc b) = pos (a + suc b)
minus_ℤ (negsuc a) (pos b) = negsuc (a + b)
minus_ℤ (negsuc a) (negsuc b) = difference b a
