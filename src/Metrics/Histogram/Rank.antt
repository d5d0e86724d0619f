-- ===== src/Metrics/Histogram/Rank.antt =====
-- The percentile estimates of the histogram (internal/metrics/histogram.go) against the exact ones.
use dizzy.Prelude.{
  ℕ, suc, ◌+◌, ◌≤◌, ◌<◌, ◌≡◌, refl, ◌∙◌, ap, subst, Bool, true, false, ◌||◌, if◌then◌else◌, leb,
  ltb, ◌==◌, ==_iff, List, [], ◌∷◌, length, contains, All, All-weaken, Bool-cases, inl, inr, pos,
  arith,
}
use dizzy.Metrics.Latency.{rank, sort}
use dizzy.Metrics.Latency.{percentile as exact}
use dizzy.Metrics.Latency.Percentile.{count, rank_bounds, percentile-nearest_rank}
use dizzy.Metrics.Histogram.{
  Scale, Histogram, new_histogram, count_key, add, walk, clamp, clamped_rank, percentile,
}

-- How many durations are counted under keys smaller than `k`.
abbrev below : ℕ → List (ℕ × ℕ) → ℕ
below k [] = 0
below k ((j, c) ∷ m) = let rest = below k m in if ltb j k then c + rest else rest

-- The keys ascend, from `lo` on.
abbrev Ascending : ℕ → List (ℕ × ℕ) → Type 0
Ascending lo [] = Unit
Ascending lo ((j, c) ∷ m) = (lo ≤ j) × Ascending (suc j) m

Ascending-mono : (lo hi : ℕ) (m : List (ℕ × ℕ)) → lo ≤ hi → Ascending hi m → Ascending lo m
Ascending-mono lo hi [] h a = tt
Ascending-mono lo hi ((j, c) ∷ m) h a = (omega (arith, a.0), a.1)

below-Ascending : (k lo : ℕ) (m : List (ℕ × ℕ)) → k ≤ lo → Ascending lo m → below k m ≡ 0
below-Ascending k lo [] h a = refl
below-Ascending k lo ((j, c) ∷ m) h a = ground (arith, a.0, below-Ascending k (suc j) m)

count_key-Ascending :
    (k lo : ℕ) (m : List (ℕ × ℕ)) → lo ≤ k → Ascending lo m → Ascending lo (count_key k m)
unfolding count_key
count_key-Ascending k lo [] h a = (h, tt)
count_key-Ascending k lo ((j, c) ∷ m) h a = elim (Bool-cases (j == k)) [
  | inl e ↦ rw e a
  | inr e ↦ elim (Bool-cases (ltb k j)) [
    | inl l ↦ rw (e, l) (h, (ground arith, a.1))
    | inr g ↦ rw (e, g) (a.0, count_key-Ascending k (suc j) m (ground arith) a.1)
  ]
]

below-count_key :
    (b k : ℕ) (m : List (ℕ × ℕ)) → below b (count_key k m) ≡ below b m + (if ltb k b then 1 else 0)
unfolding count_key
below-count_key b k [] = ground arith
below-count_key b k ((j, c) ∷ m) = elim (Bool-cases (j == k)) [
  | inl e ↦ let same : j ≡ k = (==_iff j k).0 e in rw (e, same) (ground arith)
  | inr e ↦ rw e (ground (arith, below-count_key b k m))
]

module _ (sc : Scale) where
  walk_done : (r cum : ℕ) (v : sc.Float) (m : List (ℕ × ℕ)) → r ≤ cum → walk sc r cum v m ≡ v
  unfolding walk
  walk_done r cum v [] h = refl
  walk_done r cum v ((j, c) ∷ m) h = ground arith

  -- The walk ends at the key whose durations hold the rank.
  walk-estimate :
      (r cum k : ℕ) (v : sc.Float) (lo : ℕ) (m : List (ℕ × ℕ))
      → Ascending lo m
      → cum + below k m < r
      → r ≤ cum + below (suc k) m
      → walk sc r cum v m ≡ sc.estimate k
  unfolding walk
  walk-estimate r cum k v lo [] a less more = absurd (omega arith)
  walk-estimate r cum k v lo ((j, c) ∷ m) a less more =
      let going : leb r cum ≡ false = ground arith in
      rw going (elim (Bool-cases (ltb j k)) [
        | inl l ↦
            walk-estimate r (cum + c) k (sc.estimate j) (suc j) m a.1 (ground arith) (ground arith)
        | inr g ↦ elim (Bool-cases (j == k)) [
          | inl e ↦
              let none : below (suc k) m ≡ 0 =
                below-Ascending (suc k) (suc j) m (ground arith) a.1 in
              walk_done r (cum + c) (sc.estimate j) m (ground (arith, none))
              ∙ ap sc.estimate ((==_iff j k).0 e)
          | inr d ↦
              let none : below (suc k) m ≡ 0 =
                below-Ascending (suc k) (suc j) m (ground arith) a.1 in
              absurd (ground (arith, none))
        ]
      ])

  -- The histogram of a list of durations.
  abbrev pub histogram_of : List ℕ → Histogram sc.Float
  histogram_of [] = new_histogram sc
  histogram_of (d ∷ ds) = add sc (pos d) (histogram_of ds)

  pub record Counts (h : Histogram sc.Float) (ds : List ℕ) : Type 0 where
    size : h.n ≡ length ds
    zeros : h.zeros ≡ count (λ d. d == 0) ds
    ascending : Ascending 0 h.counts
    keys : (k : ℕ) → h.zeros + below k h.counts ≡ count (λ d. (d == 0) || ltb (sc.key d) k) ds

  histogram_of-Counts : (ds : List ℕ) → Counts (histogram_of ds) ds
  unfolding add
  histogram_of-Counts [] = record { size = refl; zeros = refl; ascending = tt; keys = λ k. refl }
  histogram_of-Counts (d ∷ ds) =
      let c = histogram_of-Counts ds in
      let h = histogram_of ds in
      elim (Bool-cases (d == 0)) [
        | inl e ↦ record {
          size = omega (arith, c.size);
          zeros = rw e (omega (arith, c.zeros));
          ascending = rw e c.ascending;
          keys = λ k. rw e (omega (arith, c.keys k));
        }
        | inr e ↦ record {
          size = omega (arith, c.size);
          zeros = rw e c.zeros;
          ascending = rw e (count_key-Ascending (sc.key d) 0 h.counts (omega arith) c.ascending);
          keys = λ k. rw e (ground (arith, c.keys k, below-count_key k (sc.key d) h.counts));
        }
      ]

-- The least and the greatest of the durations.
abbrev pub IsLeast : ℕ → List ℕ → Type 0
IsLeast lo ds = (contains ds lo ≡ true) × All (λ d. lo ≤ d) ds

abbrev pub IsGreatest : ℕ → List ℕ → Type 0
IsGreatest hi ds = (contains ds hi ≡ true) × All (λ d. d ≤ hi) ds

module _ (sc : Scale) where
  abbrev Spans : Histogram sc.Float → List ℕ → Type 0
  Spans h ds = IsLeast h.min ds × IsGreatest h.max ds

  add-Spans :
      (d : ℕ) (h : Histogram sc.Float) (ds : List ℕ)
      → (h.n == 0) ≡ false
      → Spans h ds
      → Spans (add sc (pos d) h) (d ∷ ds)
  unfolding add
  add-Spans d h ds full ((i, a), (j, b)) = (
    elim (Bool-cases (ltb d h.min)) [
      | inl l ↦
          let new : d ≡ (add sc (pos d) h).min = rw (full, l) refl in
          subst (λ lo. IsLeast lo (d ∷ ds)) new
            (ground arith, (omega arith, All-weaken _ _ (λ e q. ground (arith, q, l)) ds a))
      | inr l ↦
          let old : h.min ≡ (add sc (pos d) h).min = rw (full, l) refl in
          subst (λ lo. IsLeast lo (d ∷ ds)) old (ground (arith, i), (ground (arith, l), a))
    ],
    elim (Bool-cases (ltb h.max d)) [
      | inl l ↦
          let new : d ≡ (add sc (pos d) h).max = rw (full, l) refl in
          subst (λ hi. IsGreatest hi (d ∷ ds)) new
            (ground arith, (omega arith, All-weaken _ _ (λ e q. ground (arith, q, l)) ds b))
      | inr l ↦
          let old : h.max ≡ (add sc (pos d) h).max = rw (full, l) refl in
          subst (λ hi. IsGreatest hi (d ∷ ds)) old (ground (arith, j), (ground (arith, l), b))
    ],
  )

  histogram_of-Spans : (ds : List ℕ) → 0 < length ds → Spans (histogram_of sc ds) ds
  unfolding add
  histogram_of-Spans [] full = absurd (omega arith)
  histogram_of-Spans (d ∷ []) full =
      ((ground arith, (omega arith, tt)), (ground arith, (omega arith, tt)))
  histogram_of-Spans (d ∷ e ∷ ds) full =
      let size = (histogram_of-Counts sc (e ∷ ds)).size in
      add-Spans d (histogram_of sc (e ∷ ds)) (e ∷ ds) (ground (arith, size))
        (histogram_of-Spans (e ∷ ds) (omega arith))

count_mono :
    (p q : ℕ → Bool) (ds : List ℕ) → ((d : ℕ) → p d ≡ true → q d ≡ true) → count p ds ≤ count q ds
count_mono p q [] h = omega arith
count_mono p q (d ∷ ds) h = ground (arith, count_mono p q ds h, h d)

clamped_rank-eq : (p n : ℕ) → 0 < p → p ≤ 100 → 0 < n → clamped_rank p n ≡ rank p n
clamped_rank-eq p n a b c = ground (arith, rank_bounds p n a b c)

abbrev pub estimate_of : (sc : Scale) → ℕ → sc.Float
estimate_of sc d = if d == 0 then sc.of 0 else sc.estimate (sc.key d)

-- `v` as a duration between `lo` and `hi`.
abbrev pub within : (sc : Scale) → ℕ → ℕ → sc.Float → ℕ
within sc lo hi v =
    if sc.le v (sc.of lo) then lo else (if sc.le (sc.of hi) v then hi else sc.trunc v)

module _ (sc : Scale) (mono : (d e : ℕ) → d ≤ e → sc.key d ≤ sc.key e) (ds : List ℕ) (p : ℕ)
    (low : 0 < p) (high : p ≤ 100) (full : 0 < length ds) where
  -- The histogram picks the key of the exact nearest-rank percentile.
  percentile-key :
      percentile sc (histogram_of sc ds) p
      ≡ clamp sc (histogram_of sc ds) (estimate_of sc (exact (sort ds) p))
  unfolding percentile
  percentile-key =
      let h = histogram_of sc ds in
      let c = histogram_of-Counts sc ds in
      let v : ℕ = exact (sort ds) p in
      let (least, most) = percentile-nearest_rank ds p low high full in
      let r : clamped_rank p h.n ≡ rank p (length ds) =
        ap (clamped_rank p) c.size ∙ clamped_rank-eq p (length ds) low high full in
      ap (clamp sc h) (
        ap (λ q. walk sc q h.zeros (sc.of 0) h.counts) r ∙ elim (Bool-cases (v == 0)) [
          | inl e ↦
              let zero_all : (d : ℕ) → leb d v ≡ true → (d == 0) ≡ true = λ d q. ground arith in
              rw e (
                walk_done sc _ _ _ h.counts (
                  omega
                    (arith, least, count_mono (λ d. leb d v) (λ d. d == 0) ds zero_all, c.zeros)))
          | inr e ↦
              let k = sc.key v in
              let fewer : (d : ℕ) → ((d == 0) || ltb (sc.key d) k) ≡ true → ltb d v ≡ true =
                λ d q. ground (arith, mono v d) in
              let most_of : (d : ℕ) → leb d v ≡ true → ((d == 0) || ltb (sc.key d) (suc k)) ≡ true =
                λ d q. ground (arith, mono d v) in
              rw e (
                walk-estimate sc _ _ k (sc.of 0) 0 h.counts c.ascending
                  (omega (
                    arith,
                    c.keys k,
                    most,
                    count_mono (λ d. (d == 0) || ltb (sc.key d) k) (λ d. ltb d v) ds fewer,
                  ))
                  (omega (
                    arith,
                    c.keys (suc k),
                    least,
                    count_mono (λ d. leb d v) (λ d. (d == 0) || ltb (sc.key d) (suc k)) ds most_of,
                  )))
        ])

  -- A percentile of the histogram is the estimate for the key of the exact nearest-rank percentile of
  -- the recorded durations, or 0 where that is 0, clamped to the least and the greatest of the
  -- durations: the histogram never picks another key, in whatever order the durations came. The
  -- logarithm is monotone.
  pub percentile-exact :
      (lo : ℕ) × (hi : ℕ) × IsLeast lo ds
      × IsGreatest hi ds
      × (percentile sc (histogram_of sc ds) p
          ≡ within sc lo hi (estimate_of sc (exact (sort ds) p)))
  percentile-exact =
      let (least, greatest) = histogram_of-Spans sc ds full in
      ((histogram_of sc ds).min, (histogram_of sc ds).max, least, greatest, percentile-key)
