-- ===== src/Metrics/Latency/Percentile.antt =====
-- What the percentiles of `ComputeLatency` mean, and their order.
use dizzy.Prelude.{
  ℕ, zero, suc, ◌-◌, ◌*◌, ◌/◌, ◌≤◌, ◌<◌, ◌≡◌, refl, Bool, if◌then◌else◌, leb, ltb, List, [], ◌∷◌,
  length, get_or, arith,
}
use native.Mathlib.Nat.{le-div_iff_mul-le, div-le_of_le-mul}
use dizzy.Metrics.Latency.{
  Latency, insert, sort, sum, rank, percentile, latency_of_sorted, compute_latency,
}

-- How many entries pass a test.
abbrev pub count : (ℕ → Bool) → List ℕ → ℕ
count p [] = 0
count p (x ∷ xs) = let rest = count p xs in if p x then suc rest else rest

abbrev pub IsSorted : List ℕ → Type 0
IsSorted [] = Unit
IsSorted (x ∷ []) = Unit
IsSorted (x ∷ (y ∷ ys)) = (x ≤ y) × IsSorted (y ∷ ys)

length-insert : (x : ℕ) (ys : List ℕ) → length (insert x ys) ≡ suc (length ys)
unfolding insert
length-insert x [] = refl
length-insert x (y ∷ ys) = ground (arith, length-insert x ys)

length-sort : (xs : List ℕ) → length (sort xs) ≡ length xs
unfolding sort
length-sort [] = refl
length-sort (x ∷ xs) = omega (arith, length-insert x (sort xs), length-sort xs)

count-insert : (p : ℕ → Bool) (x : ℕ) (ys : List ℕ) → count p (insert x ys) ≡ count p (x ∷ ys)
unfolding insert
count-insert p x [] = refl
count-insert p x (y ∷ ys) = ground (arith, count-insert p x ys)

count-sort : (p : ℕ → Bool) (xs : List ℕ) → count p (sort xs) ≡ count p xs
unfolding sort
count-sort p [] = refl
count-sort p (x ∷ xs) = ground (arith, count-insert p x (sort xs), count-sort p xs)

insert-IsSorted : (x : ℕ) (ys : List ℕ) → IsSorted ys → IsSorted (insert x ys)
unfolding insert
insert-IsSorted x [] h = tt
insert-IsSorted x (y ∷ []) h = ground arith
insert-IsSorted x (y ∷ (z ∷ zs)) h = ground (arith, insert-IsSorted x (z ∷ zs) h.1)

sort-IsSorted : (xs : List ℕ) → IsSorted (sort xs)
unfolding sort
sort-IsSorted [] = tt
sort-IsSorted (x ∷ xs) = insert-IsSorted x (sort xs) (sort-IsSorted xs)

head-le :
    (x : ℕ) (xs : List ℕ) (j : ℕ)
    → IsSorted (x ∷ xs)
    → j < length (x ∷ xs)
    → x ≤ get_or (x ∷ xs) j 0
head-le x xs zero s h = omega arith
head-le x [] (suc j) s h = absurd (omega arith)
head-le x (y ∷ ys) (suc j) s h = omega (arith, head-le y ys j s.1)

-- In a sorted list later entries are no smaller.
get_or_mono :
    (xs : List ℕ) (i j : ℕ) → IsSorted xs → i ≤ j → j < length xs → get_or xs i 0 ≤ get_or xs j 0
get_or_mono [] i j s h k = absurd (omega arith)
get_or_mono (x ∷ xs) zero j s h k = head-le x xs j s k
get_or_mono (x ∷ xs) (suc i) zero s h k = absurd (omega arith)
get_or_mono (x ∷ []) (suc i) (suc j) s h k = absurd (omega arith)
get_or_mono (x ∷ (y ∷ ys)) (suc i) (suc j) s h k =
    get_or_mono (y ∷ ys) i j s.1 (omega arith) (omega arith)

-- The entry at an index has at least that many entries, and itself, that are no larger.
count-get_or :
    (xs : List ℕ) (i : ℕ)
    → IsSorted xs
    → i < length xs
    → suc i ≤ count (λ x. leb x (get_or xs i 0)) xs
count-get_or [] i s h = absurd (omega arith)
count-get_or (x ∷ xs) zero s h = ground arith
count-get_or (x ∷ []) (suc i) s h = absurd (omega arith)
count-get_or (x ∷ (y ∷ ys)) (suc i) s h =
    ground (arith, count-get_or (y ∷ ys) i s.1, head-le x (y ∷ ys) (suc i) s)

count_lt_head :
    (z x : ℕ) (xs : List ℕ) → IsSorted (x ∷ xs) → z ≤ x → count (λ y. ltb y z) (x ∷ xs) ≡ 0
count_lt_head z x [] s h = ground arith
count_lt_head z x (y ∷ ys) s h = ground (arith, count_lt_head z y ys s.1)

-- And at most as many entries as stand before it are smaller.
count_lt-get_or :
    (xs : List ℕ) (i : ℕ) → IsSorted xs → i < length xs → count (λ x. ltb x (get_or xs i 0)) xs ≤ i
count_lt-get_or [] i s h = absurd (omega arith)
count_lt-get_or (x ∷ xs) zero s h = omega (arith, count_lt_head x x xs s)
count_lt-get_or (x ∷ []) (suc i) s h = absurd (omega arith)
count_lt-get_or (x ∷ (y ∷ ys)) (suc i) s h = ground (arith, count_lt-get_or (y ∷ ys) i s.1)

pub rank_bounds : (p n : ℕ) → 0 < p → p ≤ 100 → 0 < n → (0 < rank p n) × (rank p n ≤ n)
rank_bounds p n a b c = (grind arith, grind arith)

percentile-get_or :
    (xs : List ℕ) (p : ℕ)
    → 0 < p
    → p ≤ 100
    → 0 < length xs
    → percentile xs p ≡ get_or xs (rank p (length xs) - 1) 0
unfolding percentile
percentile-get_or xs p a b c = ground (arith, rank_bounds p (length xs) a b c)

-- The p-th percentile of a list is its nearest-rank one: at least rank p n of the n durations are
-- no larger than it, and fewer than rank p n are smaller, where rank p n is p n / 100 rounded up.
pub percentile-nearest_rank :
    (durs : List ℕ) (p : ℕ)
    → 0 < p
    → p ≤ 100
    → 0 < length durs
    → let v = percentile (sort durs) p in
      (rank p (length durs) ≤ count (λ d. leb d v) durs)
      × (count (λ d. ltb d v) durs < rank p (length durs))
percentile-nearest_rank durs p a b c =
    let xs : List ℕ = sort durs in
    let same : length xs ≡ length durs = length-sort durs in
    let full : 0 < length xs = omega arith in
    let i : ℕ = rank p (length xs) - 1 in
    let bounds = rank_bounds p (length xs) a b full in
    rw (percentile-get_or xs p a b full) (
      rw (← count-sort (λ d. leb d (get_or xs i 0)) durs) (
        rw (← count-sort (λ d. ltb d (get_or xs i 0)) durs) (
          rw (← same) (
            omega (
              arith,
              bounds,
              count-get_or xs i (sort-IsSorted durs) (omega (arith, bounds)),
              count_lt-get_or xs i (sort-IsSorted durs) (omega (arith, bounds)),
            )))))

rank_mono : (p q n : ℕ) → p ≤ q → rank p n ≤ rank q n
rank_mono p q n h = grind arith

percentile_mono :
    (xs : List ℕ) (p q : ℕ)
    → IsSorted xs
    → 0 < p
    → p ≤ q
    → q ≤ 100
    → 0 < length xs
    → percentile xs p ≤ percentile xs q
percentile_mono xs p q s a h b c =
    let low = rank_bounds p (length xs) a (omega arith) c in
    let high = rank_bounds q (length xs) (omega arith) b c in
    rw (percentile-get_or xs p a (omega arith) c) (
      rw (percentile-get_or xs q (omega arith) b c)
        (get_or_mono xs _ _ s (omega (arith, rank_mono p q (length xs) h)) (omega (arith, high))))

sum-lower : (z x : ℕ) (xs : List ℕ) → IsSorted (x ∷ xs) → z ≤ x → z * length (x ∷ xs) ≤ sum (x ∷ xs)
unfolding sum
sum-lower z x [] s h = grind arith
sum-lower z x (y ∷ ys) s h = grind (arith, sum-lower z y ys s.1)

sum-upper :
    (x : ℕ) (xs : List ℕ)
    → IsSorted (x ∷ xs)
    → sum (x ∷ xs) ≤ get_or (x ∷ xs) (length xs) 0 * length (x ∷ xs)
unfolding sum
sum-upper x [] s = grind arith
sum-upper x (y ∷ ys) s = grind (arith, sum-upper y ys s.1, head-le x (y ∷ ys) (length (y ∷ ys)) s)

div_between : (z w t n : ℕ) → z * suc n ≤ t → t ≤ w * suc n → (z ≤ t / suc n) × (t / suc n ≤ w)
div_between z w t n a b =
    ((le-div_iff_mul-le (omega arith)).1 a, div-le_of_le-mul (suc n) (grind arith))

abbrev pub IsOrdered : Latency → Type 0
IsOrdered l =
    (l.min ≤ l.median)
    × (l.median ≤ l.p90)
    × (l.p90 ≤ l.p95)
    × (l.p95 ≤ l.p99)
    × (l.p99 ≤ l.max)
    × (l.min ≤ l.mean)
    × (l.mean ≤ l.max)

latency_of_sorted-IsOrdered :
    (xs : List ℕ) → IsSorted xs → 0 < length xs → IsOrdered (latency_of_sorted xs)
unfolding latency_of_sorted
latency_of_sorted-IsOrdered [] s h = elim h [ ]
latency_of_sorted-IsOrdered (x ∷ xs) s h =
    let low = rank_bounds 50 (length (x ∷ xs)) (omega arith) (omega arith) h in
    let high = rank_bounds 99 (length (x ∷ xs)) (omega arith) (omega arith) h in
    let last : length (x ∷ xs) - 1 ≡ length xs = omega arith in
    let between =
      div_between x _ (sum (x ∷ xs)) (length xs) (sum-lower x x xs s (omega arith))
        (sum-upper x xs s) in
    (
      rw (percentile-get_or (x ∷ xs) 50 (omega arith) (omega arith) h)
          (head-le x xs _ s (omega (arith, low))),
      percentile_mono (x ∷ xs) 50 90 s (omega arith) (omega arith) (omega arith) h,
      percentile_mono (x ∷ xs) 90 95 s (omega arith) (omega arith) (omega arith) h,
      percentile_mono (x ∷ xs) 95 99 s (omega arith) (omega arith) (omega arith) h,
      rw (percentile-get_or (x ∷ xs) 99 (omega arith) (omega arith) h)
          (get_or_mono (x ∷ xs) _ _ s (omega (arith, high)) (omega arith)),
      between.0,
      rw last between.1,
    )

-- The latency distribution of any durations is ordered: the minimum, the median, the 90th, 95th and
-- 99th percentiles and the maximum do not fall, and the mean lies between the two ends.
pub compute_latency-IsOrdered : (durs : List ℕ) → IsOrdered (compute_latency durs)
unfolding compute_latency
compute_latency-IsOrdered [] = omega arith
compute_latency-IsOrdered (d ∷ durs) =
    latency_of_sorted-IsOrdered (sort (d ∷ durs)) (sort-IsSorted (d ∷ durs))
      (omega (arith, length-sort (d ∷ durs)))
