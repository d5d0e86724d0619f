-- ===== src/Prelude/Lists.antt =====
-- Lists measured and indexed by native numbers, under the library's names.
use Prim.Native.Nat.{ℕ, zero, suc, ◌+◌, ◌<◌, ◌≤◌}
use mathlib.Core.Path.{◌≡◌, refl, ap, sym, subst}
use mathlib.Core.Bool.{Bool, true, false, ◌&&◌, ◌||◌}
use mathlib.Core.Logic.{◌⊎◌, inl, inr}
use mathlib.Core.List.{List, [], ◌∷◌, ◌++◌, map}
use native.Mathlib.Omega.{arith}
use dizzy.Prelude.Tests.{◌==◌, if◌then◌else◌, Bool-cases, ==_iff, if_both}

module _ {ℓ} {A : Type ℓ} where
  abbrev pub length : List A → ℕ
  length [] = 0
  length (x ∷ xs) = suc (length xs)

  abbrev pub get_or : List A → ℕ → A → A
  get_or [] i d = d
  get_or (x ∷ xs) zero d = x
  get_or (x ∷ xs) (suc i) d = get_or xs i d

  pub length-append : (xs ys : List A) → length (xs ++ ys) ≡ length xs + length ys
  length-append [] ys = omega arith
  length-append (x ∷ xs) ys = omega (arith, length-append xs ys)

  -- The entries that pass a test, in order.
  abbrev pub select : (A → Bool) → List A → List A
  select p [] = []
  select p (x ∷ xs) = let rest = select p xs in if p x then x ∷ rest else rest

  abbrev pub every : (A → Bool) → List A → Bool
  every p [] = true
  every p (x ∷ xs) = p x && every p xs

  abbrev pub some_of : (A → Bool) → List A → Bool
  some_of p [] = false
  some_of p (x ∷ xs) = p x || some_of p xs

-- Membership of a number.
abbrev pub contains : List ℕ → ℕ → Bool
contains [] a = false
contains (x ∷ xs) a = (x == a) || contains xs a

pub contains-append :
    (xs ys : List ℕ) (a : ℕ) → contains (xs ++ ys) a ≡ (contains xs a || contains ys a)
contains-append [] ys a = refl
contains-append (x ∷ xs) ys a = ground (arith, contains-append xs ys a)

pub every-contains :
    (p : ℕ → Bool) (xs : List ℕ) (a : ℕ) → every p xs ≡ true → contains xs a ≡ true → p a ≡ true
every-contains p [] a h m = cc
every-contains p (x ∷ xs) a h m = ground (arith, every-contains p xs a)

-- The numbers from `i` on, `n` of them.
abbrev pub range_from : ℕ → ℕ → List ℕ
range_from i zero = []
range_from i (suc n) = i ∷ range_from (suc i) n

-- How many numbers below a bound pass a test.
abbrev pub count_below : (ℕ → Bool) → ℕ → ℕ
count_below p zero = 0
count_below p (suc n) = let rest = count_below p n in if p n then suc rest else rest

-- A map with one entry given anew.
abbrev pub update {ℓ} : {A : Type ℓ} → (ℕ → A) → ℕ → A → ℕ → A
update f i v j = if i == j then v else f j

count_below-update_above :
    (p : ℕ → Bool) (i n : ℕ) (b : Bool) → n ≤ i → count_below (update p i b) n ≡ count_below p n
count_below-update_above p i zero b h = refl
count_below-update_above p i (suc n) b h =
    ground (arith, count_below-update_above p i n b (omega arith))

pub count_below-set :
    (p : ℕ → Bool) (i n : ℕ)
    → p i ≡ false
    → i < n
    → count_below (update p i true) n ≡ suc (count_below p n)
count_below-set p i zero a h = elim h [ ]
count_below-set p i (suc n) a h =
    ground (arith, count_below-set p i n a, count_below-update_above p i n true)

pub count_below-clear :
    (p : ℕ → Bool) (i n : ℕ)
    → p i ≡ true
    → i < n
    → count_below p n ≡ suc (count_below (update p i false) n)
count_below-clear p i zero a h = elim h [ ]
count_below-clear p i (suc n) a h =
    ground (arith, count_below-clear p i n a, count_below-update_above p i n false)

pub count_below-le : (p : ℕ → Bool) (n : ℕ) → count_below p n ≤ n
count_below-le p zero = omega arith
count_below-le p (suc n) = ground (arith, count_below-le p n)

pub count_below_mono :
    (p q : ℕ → Bool) (n : ℕ)
    → ((j : ℕ) → j < n → p j ≡ true → q j ≡ true)
    → count_below p n ≤ count_below q n
count_below_mono p q zero h = omega arith
count_below_mono p q (suc n) h =
    let rest = count_below_mono p q n (λ j l. h j (omega arith)) in
    let here = h n (omega arith) in ground (arith, rest, here)

pub count_below-more :
    (p q : ℕ → Bool) (n i : ℕ)
    → ((j : ℕ) → j < n → p j ≡ true → q j ≡ true)
    → i < n
    → p i ≡ false
    → q i ≡ true
    → count_below p n < count_below q n
count_below-more p q zero i h lt a b = elim lt [ ]
count_below-more p q (suc n) i h lt a b = elim (Bool-cases (i == n)) [
  | inl e ↦
      let same : i ≡ n = (==_iff i n).0 e in
      let pn : p n ≡ false = subst (λ j. p j ≡ false) same a in
      let qn : q n ≡ true = subst (λ j. q j ≡ true) same b in
      let rest = count_below_mono p q n (λ j l. h j (omega arith)) in
      rw (pn, qn) (omega (arith, rest))
  | inr e ↦
      let rest = count_below-more p q n i (λ j l. h j (omega arith)) (ground arith) a b in
      let here = h n (omega arith) in ground (arith, rest, here)
]

pub count_below-full : (p : ℕ → Bool) (n : ℕ) → n ≤ count_below p n → (j : ℕ) → j < n → p j ≡ true
count_below-full p n h j lt = elim (Bool-cases (p j)) [
  | inl e ↦ e
  | inr e ↦
      let all : ℕ → Bool = λ _. true in
      absurd (
        omega
          (arith, h, count_below-more p all n j (λ _ _ _. refl) lt e refl, count_below-le all n))
]

pub count_below_none :
    (p : ℕ → Bool) (n : ℕ) → ((j : ℕ) → j < n → p j ≡ false) → count_below p n ≡ 0
count_below_none p zero h = refl
count_below_none p (suc n) h =
    rw (h n (omega arith)) (count_below_none p n (λ j l. h j (omega arith)))

pub count_below_all : (p : ℕ → Bool) (n : ℕ) → ((j : ℕ) → j < n → p j ≡ true) → count_below p n ≡ n
count_below_all p zero h = refl
count_below_all p (suc n) h =
    rw (h n (omega arith)) (ap suc (count_below_all p n (λ j l. h j (omega arith))))

-- Every number below a bound passes, or one that does not is found.
pub all_or_one :
    (p : ℕ → Bool) (n : ℕ) → ((j : ℕ) → j < n → p j ≡ true) ⊎ ((j : ℕ) × (j < n) × (p j ≡ false))
all_or_one p zero = inl (λ j l. elim l [ ])
all_or_one p (suc n) = elim (Bool-cases (p n)) [
  | inr e ↦ inr (n, omega arith, e)
  | inl e ↦ elim (all_or_one p n) [
    | inr (j, l, f) ↦ inr (j, omega arith, f)
    | inl h ↦ inl (λ j l. elim (Bool-cases (j == n)) [
      | inl here ↦ subst (λ k. p k ≡ true) (sym ((==_iff j n).0 here)) e
      | inr other ↦ h j (ground arith)
    ])
  ]
]

-- Every entry has a property.
abbrev pub All {ℓ κ} : {A : Type ℓ} → (A → Type κ) → List A → Type κ
All P [] = Unit
All P (x ∷ xs) = P x × All P xs

pub All-get_or {ℓ κ} :
    {A : Type ℓ} (P : A → Type κ) (xs : List A) (k : ℕ) (d : A)
    → All P xs
    → k < length xs
    → P (get_or xs k d)
All-get_or P [] k d h lt = elim lt [ ]
All-get_or P (x ∷ xs) zero d h lt = h.0
All-get_or P (x ∷ xs) (suc k) d h lt = All-get_or P xs k d h.1 (omega arith)

-- The same beyond the end, where it holds of the default.
pub All-at {ℓ κ} :
    {A : Type ℓ} (P : A → Type κ) (xs : List A) (k : ℕ) (d : A) → All P xs → P d → P (get_or xs k d)
All-at P [] k d h p = p
All-at P (x ∷ xs) zero d h p = h.0
All-at P (x ∷ xs) (suc k) d h p = All-at P xs k d h.1 p

pub All-select {ℓ κ} :
    {A : Type ℓ} (P : A → Type κ) (p : A → Bool) (xs : List A)
    → All P xs
    → All (λ x. P x × (p x ≡ true)) (select p xs)
All-select P p [] h = tt
All-select P p (x ∷ xs) h = elim (Bool-cases (p x)) [
  | inl e ↦ rw e ((h.0, e), All-select P p xs h.1)
  | inr e ↦ rw e (All-select P p xs h.1)
]

pub All-range_from : (n i b : ℕ) → i + n ≤ b → All (λ j. j < b) (range_from i n)
All-range_from zero i b h = tt
All-range_from (suc n) i b h = (omega arith, All-range_from n (suc i) b (omega arith))

pub contains-select :
    (p : ℕ → Bool) (xs : List ℕ) (a : ℕ)
    → contains xs a ≡ true
    → p a ≡ true
    → contains (select p xs) a ≡ true
contains-select p [] a m h = m
contains-select p (x ∷ xs) a m h = elim (Bool-cases (x == a)) [
  | inl e ↦
      let same : x ≡ a = (==_iff x a).0 e in
      let passes : p x ≡ true = subst (λ y. p y ≡ true) (sym same) h in rw passes (ground arith)
  | inr e ↦
      if_both (λ ys. contains ys a ≡ true) (p x) (ground (arith, contains-select p xs a))
        (contains-select p xs a (ground arith) h)
]

pub contains-range_from : (n i a : ℕ) → i ≤ a → a < i + n → contains (range_from i n) a ≡ true
contains-range_from zero i a h lt = absurd (omega arith)
contains-range_from (suc n) i a h lt = elim (Bool-cases (i == a)) [
  | inl e ↦ rw e
  | inr e ↦ ground (arith, contains-range_from n (suc i) a)
]

abbrev pub take {ℓ} : {A : Type ℓ} → ℕ → List A → List A
take zero xs = []
take (suc n) [] = []
take (suc n) (x ∷ xs) = x ∷ take n xs

pub All-map {ℓ κ} :
    {A : Type ℓ} {B : Type ℓ} (P : A → Type κ) (Q : B → Type κ) (f : A → B)
    → ((x : A) → P x → Q (f x))
    → (xs : List A) → All P xs
    → All Q (map f xs)
All-map P Q f h [] a = tt
All-map P Q f h (x ∷ xs) a = (h x a.0, All-map P Q f h xs a.1)

pub All-append {ℓ κ} :
    {A : Type ℓ} (P : A → Type κ) (xs ys : List A) → All P xs → All P ys → All P (xs ++ ys)
All-append P [] ys a b = b
All-append P (x ∷ xs) ys a b = (a.0, All-append P xs ys a.1 b)

pub All-take {ℓ κ} :
    {A : Type ℓ} (P : A → Type κ) (n : ℕ) (xs : List A) → All P xs → All P (take n xs)
All-take P zero xs a = tt
All-take P (suc n) [] a = tt
All-take P (suc n) (x ∷ xs) a = (a.0, All-take P n xs a.1)

pub All-any {ℓ κ} : {A : Type ℓ} (P : A → Type κ) → ((x : A) → P x) → (xs : List A) → All P xs
All-any P h [] = tt
All-any P h (x ∷ xs) = (h x, All-any P h xs)

pub length-map : {A B : Type 0} (f : A → B) (xs : List A) → length (map f xs) ≡ length xs
length-map f [] = refl
length-map f (x ∷ xs) = ap suc (length-map f xs)

pub All-weaken {ℓ κ} :
    {A : Type ℓ} (P Q : A → Type κ) → ((x : A) → P x → Q x) → (xs : List A) → All P xs → All Q xs
All-weaken P Q h [] a = tt
All-weaken P Q h (x ∷ xs) a = (h x a.0, All-weaken P Q h xs a.1)
