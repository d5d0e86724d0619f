-- ===== src/Prelude/Checks.antt =====
-- Checks that return an error or nothing, in sequence, and when such a sequence finds nothing.
use mathlib.Core.Path.{◌≡◌, refl}
use mathlib.Core.Logic.{◌↔◌, ◌⊎◌, inl, inr}
use mathlib.Core.Bool.{Bool, true, false}
use mathlib.Core.List.{List, [], ◌∷◌}
use dizzy.Prelude.Lists.{All}

-- Go's nil error is `valid`.
pub data Verdict (E : Type 0) : Type 0 where
  valid : Verdict E
  invalid : E → Verdict E

-- What holds of each entry and those before it.
abbrev pub AllAfter {ℓ κ} : {A : Type ℓ} → (List A → A → Type κ) → List A → List A → Type κ
AllAfter P earlier [] = Unit
AllAfter P earlier (x ∷ xs) = P earlier x × AllAfter P (x ∷ earlier) xs

pub AllAfter-All {ℓ κ} :
    {A : Type ℓ} (P : List A → A → Type κ) (Q : A → Type κ)
    → ((earlier : List A) (x : A) → P earlier x → Q x)
    → (earlier xs : List A) → AllAfter P earlier xs
    → All Q xs
AllAfter-All P Q h earlier [] a = tt
AllAfter-All P Q h earlier (x ∷ xs) a = (h earlier x a.0, AllAfter-All P Q h (x ∷ earlier) xs a.1)

module _ {E : Type 0} where
  -- The next check runs only where this one found nothing.
  infixl 5 ◌>>◌
  abbrev pub ◌>>◌ : Verdict E → Verdict E → Verdict E
  valid >> k = k
  invalid e >> k = invalid e

  abbrev pub refuse_if : Bool → E → Verdict E
  refuse_if true e = invalid e
  refuse_if false e = valid

  abbrev pub each {ℓ} : {A : Type ℓ} → (A → Verdict E) → List A → Verdict E
  each check [] = valid
  each check (x ∷ xs) = check x >> each check xs

  -- A loop whose check reads the entries before the present one, newest first.
  abbrev pub each_after {ℓ} : {A : Type ℓ} → (List A → A → Verdict E) → List A → List A → Verdict E
  each_after check earlier [] = valid
  each_after check earlier (x ∷ xs) = check earlier x >> each_after check (x ∷ earlier) xs

  pub >>-valid : (a b : Verdict E) → ((a >> b) ≡ valid) ↔ ((a ≡ valid) × (b ≡ valid))
  >>-valid valid b = (λ h. (refl, h), λ h. h.1)
  >>-valid (invalid e) b = (λ h. cc, λ h. h.0)

  pub refuse_if-valid : (b : Bool) (e : E) → (refuse_if b e ≡ valid) ↔ (b ≡ false)
  refuse_if-valid true e = (λ h. cc, λ h. cc)
  refuse_if-valid false e = (λ h. refl, λ h. refl)

  pub each-valid {ℓ κ} :
      {A : Type ℓ} (P : A → Type κ) (check : A → Verdict E)
      → ((x : A) → (check x ≡ valid) ↔ P x)
      → (xs : List A) → (each check xs ≡ valid) ↔ All P xs
  each-valid P check h [] = (λ _. tt, λ _. refl)
  each-valid P check h (x ∷ xs) = (
    λ e.
        let parts = (>>-valid (check x) (each check xs)).0 e in
        ((h x).0 parts.0, (each-valid P check h xs).0 parts.1),
    λ a. (>>-valid (check x) (each check xs)).1 ((h x).1 a.0, (each-valid P check h xs).1 a.1),
  )

  pub each_after-valid {ℓ κ} :
      {A : Type ℓ} (P : List A → A → Type κ) (check : List A → A → Verdict E)
      → ((earlier : List A) (x : A) → check earlier x ≡ valid → P earlier x)
      → (earlier xs : List A) → each_after check earlier xs ≡ valid
      → AllAfter P earlier xs
  each_after-valid P check h earlier [] e = tt
  each_after-valid P check h earlier (x ∷ xs) e =
      let parts = (>>-valid (check earlier x) (each_after check (x ∷ earlier) xs)).0 e in
      (h earlier x parts.0, each_after-valid P check h (x ∷ earlier) xs parts.1)

  pub Verdict-cases : (v : Verdict E) → (v ≡ valid) ⊎ ((e : E) × (v ≡ invalid e))
  Verdict-cases valid = inl refl
  Verdict-cases (invalid e) = inr (e, refl)
