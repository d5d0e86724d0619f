-- ===== src/Prelude/Names.antt =====
-- Sets of names, and lists of names without repetition.
use Prim.Native.String.{String}
use text.Mathlib.Text.{◌==◌ as str_eq}
use text.Mathlib.TextEquality.{eq_iff}
use mathlib.Core.Path.{◌≡◌}
use mathlib.Core.Logic.{◌↔◌, ◌≢◌, ◌⊎◌, inl, inr}
use mathlib.Core.Bool.{Bool, true, false, not, ◌&&◌, ◌||◌}
use mathlib.Core.List.{List, [], ◌∷◌}
use native.Mathlib.Omega.{arith}
use dizzy.Prelude.Tests.{Bool-cases, if◌then◌else◌}
use dizzy.Prelude.Checks.{valid, refuse_if}

abbrev pub has : String → Bool
has s = not (str_eq s "")

-- The lookup in a set of names.
unfoldable pub knows : List String → String → Bool
knows [] s = false
knows (x ∷ xs) s = str_eq x s || knows xs s

pub data In (s : String) : List String → Type 0 where
  first : {xs : List String} (x : String) → x ≡ s → In s (x ∷ xs)
  later : {x : String} {xs : List String} → In s xs → In s (x ∷ xs)

pub has_iff : (s : String) → (has s ≡ true) ↔ (s ≢ "")
has_iff s = (
  λ h e. ground (arith, eq_iff s ""),
  λ h. elim (Bool-cases (str_eq s "")) [ inl e ↦ absurd (h ((eq_iff s "").0 e)) | inr e ↦ rw e ],
)

pub has-not : (s : String) → (has s ≡ false) ↔ (s ≡ "")
has-not s = (λ h. ground (arith, eq_iff s ""), λ h. ground (arith, eq_iff s ""))

knows→In : (xs : List String) (s : String) → knows xs s ≡ true → In s xs
unfolding knows
knows→In [] s h = cc
knows→In (x ∷ xs) s h = elim (Bool-cases (str_eq x s)) [
  | inl e ↦ In.first x ((eq_iff x s).0 e)
  | inr e ↦ In.later (knows→In xs s (ground arith))
]

In→knows : {s : String} {xs : List String} → In s xs → knows xs s ≡ true
unfolding knows
In→knows {s} (In.first x e) = rw ((eq_iff x s).1 e)
In→knows {s} (In.later {x = x} {xs = xs} m) = ground (arith, In→knows m)

pub knows_iff : (xs : List String) (s : String) → (knows xs s ≡ true) ↔ In s xs
knows_iff xs s = (knows→In xs s, In→knows)

pub knows-not : (xs : List String) (s : String) → (knows xs s ≡ false) ↔ (¬ In s xs)
knows-not xs s = (
  λ h m. cc (In→knows m),
  λ h. elim (Bool-cases (knows xs s)) [ inl e ↦ absurd (h (knows→In xs s e)) | inr e ↦ e ],
)

-- No name occurs among those before it, nor in `seen`.
abbrev pub Fresh : List String → List String → Type 0
Fresh seen [] = Unit
Fresh seen (x ∷ xs) = (¬ In x seen) × Fresh (x ∷ seen) xs

-- The names that are set.
abbrev pub named : List String → List String
named [] = []
named (x ∷ xs) = let rest = named xs in if has x then x ∷ rest else rest

-- An optional reference is empty or resolves.
abbrev pub Resolves : List String → String → Type 0
Resolves names s = (s ≡ "") ⊎ In s names

module _ {E : Type 0} (names : List String) (s : String) (e : E) where
  pub refuse_optional : (refuse_if (has s && not (knows names s)) e ≡ valid) ↔ Resolves names s
  refuse_optional = (
    λ h. elim (Bool-cases (has s)) [
      | inl some_name ↦ inr ((knows_iff names s).0 (ground arith))
      | inr no_name ↦ inl ((has-not s).0 no_name)
    ],
    λ r. elim r [
      | inl e ↦ ground (arith, (has-not s).1 e)
      | inr m ↦ ground (arith, (knows_iff names s).1 m)
    ],
  )

  pub refuse_unknown : (refuse_if (not (knows names s)) e ≡ valid) ↔ In s names
  refuse_unknown =
      (λ h. (knows_iff names s).0 (ground arith), λ m. ground (arith, (knows_iff names s).1 m))
