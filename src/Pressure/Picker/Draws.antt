-- ===== src/Pressure/Picker/Draws.antt =====
-- What `ValidateOperations` accepts, and how often `picker` (internal/pressure/engine.go) draws.
use dizzy.Prelude.{
  ℕ, zero, suc, ◌+◌, ◌-◌, ◌≤◌, ◌<◌, ◌≡◌, ◌↔◌, refl, sym, ◌∙◌, Bool, true, false, if◌then◌else◌, ltb,
  ◌==◌, Bool-cases, subst, inl, inr, List, [], ◌∷◌, length, ℤ-cases, pos-injective, pos, String, In,
  knows, knows_iff, knows-not, valid, refuse_if-valid, arith,
}
use dizzy.Pressure.Config.{max_int64}
use dizzy.Pressure.Picker.{
  Operation, no_weight, check_operations, validate_operations, weight_of, cums, total_weight,
  search, pick,
}

-- How many of the `n` numbers from `lo` on pass a test.
abbrev pub count_from : (ℕ → Bool) → ℕ → ℕ → ℕ
count_from p lo zero = 0
count_from p lo (suc n) = let rest = count_from p (suc lo) n in if p lo then suc rest else rest

count_from-add :
    (p : ℕ → Bool) (lo a b : ℕ)
    → count_from p lo (a + b) ≡ count_from p lo a + count_from p (lo + a) b
count_from-add p lo zero b = ground arith
count_from-add p lo (suc a) b =
    let rest : count_from p (suc lo) (a + b)
        ≡ count_from p (suc lo) a + count_from p (lo + suc a) b =
      subst (λ m. count_from p (suc lo) (a + b) ≡ count_from p (suc lo) a + count_from p m b)
        (omega arith) (count_from-add p (suc lo) a b) in
    let same : suc (a + b) ≡ suc a + b = omega arith in
    subst (λ m. count_from p lo m ≡ count_from p lo (suc a) + count_from p (lo + suc a) b) same
      (ground (arith, rest))

count_from_none :
    (p : ℕ → Bool) (lo n : ℕ)
    → ((k : ℕ) → lo ≤ k → k < lo + n → p k ≡ false)
    → count_from p lo n ≡ 0
count_from_none p lo zero h = refl
count_from_none p lo (suc n) h =
    rw (h lo (omega arith) (omega arith))
      (count_from_none p (suc lo) n (λ k a b. h k (omega arith) (omega arith)))

count_from_all :
    (p : ℕ → Bool) (lo n : ℕ) → ((k : ℕ) → lo ≤ k → k < lo + n → p k ≡ true) → count_from p lo n ≡ n
count_from_all p lo zero h = refl
count_from_all p lo (suc n) h =
    rw (h lo (omega arith) (omega arith))
      (omega (arith, count_from_all p (suc lo) n (λ k a b. h k (omega arith) (omega arith))))

count_from-eq :
    (p q : ℕ → Bool) (lo n : ℕ)
    → ((k : ℕ) → lo ≤ k → k < lo + n → p k ≡ q k)
    → count_from p lo n ≡ count_from q lo n
count_from-eq p q lo zero h = refl
count_from-eq p q lo (suc n) h =
    rw (h lo (omega arith) (omega arith))
      (ground (arith, count_from-eq p q (suc lo) n (λ k a b. h k (omega arith) (omega arith))))

abbrev pub weight_at : List Operation → ℕ → ℕ
weight_at [] i = 0
weight_at (op ∷ ops) zero = weight_of op
weight_at (op ∷ ops) (suc i) = weight_at ops i

draws_from :
    (acc : ℕ) (ops : List Operation) (i : ℕ)
    → count_from (λ n. search n (cums acc ops) == i) acc (total_weight ops) ≡ weight_at ops i
unfolding search cums total_weight
draws_from acc [] i = refl
draws_from acc (op ∷ ops) zero =
    let w = weight_of op in
    let p = λ (n : ℕ). search n (cums acc (op ∷ ops)) == 0 in
    count_from-add p acc w (total_weight ops)
    ∙ omega (
      arith,
      count_from_all p acc w (λ k a b. ground arith),
      count_from_none p (acc + w) (total_weight ops) (λ k a b. ground arith),
    )
draws_from acc (op ∷ ops) (suc i) =
    let w = weight_of op in
    let p = λ (n : ℕ). search n (cums acc (op ∷ ops)) == suc i in
    count_from-add p acc w (total_weight ops)
    ∙ omega (
      arith,
      count_from_none p acc w (λ k a b. ground arith),
      count_from-eq p (λ n. search n (cums (acc + w) ops) == i) (acc + w) (total_weight ops)
          (λ k a b. ground arith),
      draws_from (acc + w) ops i,
    )

-- Of the numbers below the total of the weights, as many draw the operation at `i` as its
-- weight says.
pub draws-weight :
    (ops : List Operation) (i : ℕ)
    → count_from (λ n. pick ops n == i) 0 (total_weight ops) ≡ weight_at ops i
unfolding pick
draws-weight ops i = draws_from 0 ops i

-- What a worker can draw from: `seen` and `total` are the names and the weights before.
abbrev pub Drawable : List String → ℕ → List Operation → Type 0
Drawable seen total [] = 0 < total
Drawable seen total (op ∷ ops) =
    (op.has_do ≡ true)
    × (¬ In op.name seen)
    × ((w : ℕ) × (op.weight ≡ pos w)
        × (total + w ≤ max_int64)
        × Drawable (op.name ∷ seen) (total + w) ops)

check_operations-valid :
    (seen : List String) (total : ℕ) (ops : List Operation)
    → total ≤ max_int64
    → (check_operations seen total ops ≡ valid) ↔ Drawable seen total ops
unfolding check_operations
check_operations-valid seen total [] b = ground (arith, refuse_if-valid (total == 0) no_weight)
check_operations-valid seen total (op ∷ ops) b = elim (ℤ-cases op.weight) [
  | inl (w, e) ↦ rw e (elim (Bool-cases op.has_do) [
    | inr d ↦ rw d (λ h. cc, λ h. cc)
    | inl d ↦ rw d (elim (Bool-cases (knows seen op.name)) [
      | inl k ↦ rw k (λ h. cc, λ h. absurd (h.1 ((knows_iff seen op.name).0 k)))
      | inr k ↦ rw k (elim (Bool-cases (ltb (max_int64 - total) w)) [
        | inl o ↦
            rw o
              (λ h. cc, λ h. let same = pos-injective h.2.1 in absurd (ground (arith, same, h.2.2)))
        | inr o ↦
            let fits : total + w ≤ max_int64 = ground arith in
            let rest = check_operations-valid (op.name ∷ seen) (total + w) ops fits in
            rw o (
              λ h. (refl, (knows-not seen op.name).0 k, (w, refl, fits, rest.0 h)),
              λ h. rest.1 (
                  subst (λ x. Drawable (op.name ∷ seen) (total + x) ops) (sym (pos-injective h.2.1))
                    h.2.3),
            )
      ])
    ])
  ])
  | inr (n, e) ↦ rw e (elim (Bool-cases op.has_do) [
    | inl d ↦ rw d (λ h. cc, λ h. cc h.2.1)
    | inr d ↦ rw d (λ h. cc, λ h. cc)
  ])
]

-- `ValidateOperations` finds nothing wrong exactly when the list is not empty, each operation
-- has a Do, a weight that is not negative and a name not listed before it, the weights add up
-- to at most the largest int, and their sum is positive.
pub validate_operations-Drawable :
    (ops : List Operation)
    → (validate_operations ops ≡ valid) ↔ ((0 < length ops) × Drawable [] 0 ops)
unfolding validate_operations
validate_operations-Drawable [] = (λ h. cc, λ h. absurd (omega (arith, h.0)))
validate_operations-Drawable (op ∷ ops) =
    let spec = check_operations-valid [] 0 (op ∷ ops) (omega arith) in
    (λ h. (omega arith, spec.0 h), λ h. spec.1 h.1)
