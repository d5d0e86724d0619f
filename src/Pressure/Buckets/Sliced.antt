-- ===== src/Pressure/Buckets/Sliced.antt =====
-- What the buckets of a run hold (internal/pressure/engine.go).
use dizzy.Prelude.{
  ℕ, zero, suc, ◌+◌, ◌*◌, ◌/◌, ◌<◌, ◌≤◌, ◌≡◌, refl, sym, ap, ◌∙◌, Bool, true, false, ◌&&◌, ◌||◌,
  if◌then◌else◌, Bool-cases, inl, inr, ltb, leb, ◌==◌, List, [], ◌∷◌, map, All, range_from, arith,
  leb-div, ltb-div, div_mono,
}
use dizzy.Metrics.Histogram.{Scale}
use dizzy.Metrics.Collector.{Sample, new_collector, collect, record_sample, aggregate}
use dizzy.Metrics.Collector.Family.{
  IsForest, is_above, samples_below, feed, after, collector-samples_below,
}
use dizzy.Pressure.Buckets.{
  Buckets, Bucket, parent, bucket_count, new_buckets, index, append_up_to, extend, slot, Collectors,
  record_offset, snapshot,
}

-- The samples of a log in which each comes with the offset of its operation.
abbrev pub samples : List (ℕ × Sample) → List Sample
samples [] = []
samples ((o, s) ∷ log) = s ∷ samples log

-- Whether an offset lies in the slice of bucket `i`; the last of a bounded run has no end.
abbrev pub in_slice : Buckets → ℕ → ℕ → Bool
in_slice b i offset =
    leb (i * b.width) offset && (ltb offset (suc i * b.width) || (b.fixed && (suc i == b.slots)))

abbrev pub samples_in : Buckets → ℕ → List (ℕ × Sample) → List Sample
samples_in b i [] = []
samples_in b i ((o, s) ∷ log) =
    let rest = samples_in b i log in if in_slice b i o then s ∷ rest else rest

-- The records of a run, the earliest first.
unfoldable pub record_all :
    (sc : Scale) → List (ℕ × Sample) → Buckets × Collectors sc → Buckets × Collectors sc
record_all sc [] r = r
record_all sc ((o, s) ∷ log) r = record_all sc log (record_offset sc o s r)

-- Where `index` is to find the buckets: a bounded run has some.
abbrev HasBuckets : Buckets → Type 0
HasBuckets b = (0 < b.width) × (b.fixed ≡ true → 0 < b.slots)

index-slice :
    (b : Buckets) (i offset : ℕ)
    → HasBuckets b
    → (b.fixed ≡ true → i < b.slots)
    → (index b offset == i) ≡ in_slice b i offset
unfolding index
index-slice b i offset h inside =
    let q = offset / b.width in
    let low = leb-div b.width offset i h.0 in
    let high = ltb-div b.width offset (suc i) h.0 in
    rw (sym low, sym high)
      (elim (Bool-cases b.fixed) [
        | inl e ↦ let lt = inside e in rw (e, index) (ground arith)
        | inr e ↦ rw (e, index) (ground arith)
      ])

index-slot : (b : Buckets) (o p : ℕ) → index (slot o b).1 p ≡ index b p
unfolding index slot
index-slot b o p = elim (Bool-cases b.fixed) [
  | inl e ↦ rw (e, slot) refl
  | inr e ↦ rw (e, slot) refl
]

slot-index : (b : Buckets) (o : ℕ) → (slot o b).0 ≡ index b o
unfolding slot
slot-index b o = elim (Bool-cases b.fixed) [ inl e ↦ rw (e, slot) refl | inr e ↦ rw (e, slot) refl ]

forest : IsForest parent
forest zero p e = cc e
forest (suc i) p e = ground (arith, e)

-- The records by collector: each goes to its bucket's.
abbrev by_bucket : Buckets → List (ℕ × Sample) → List (ℕ × Sample)
by_bucket b [] = []
by_bucket b ((o, s) ∷ log) = (suc (index b o), s) ∷ by_bucket b log

by_bucket-slot :
    (b : Buckets) (o : ℕ) (log : List (ℕ × Sample)) → by_bucket (slot o b).1 log ≡ by_bucket b log
by_bucket-slot b o [] = refl
by_bucket-slot b o ((p, s) ∷ log) = rw (index-slot b o p, by_bucket-slot b o log) refl

append_up_to_le : (fuel i n q : ℕ) → i ≤ q → n ≤ suc q → append_up_to fuel i n ≤ suc q
unfolding append_up_to
append_up_to_le zero i n q h le = le
append_up_to_le (suc fuel) i n q h le = elim (Bool-cases (leb n i)) [
  | inl e ↦ rw (e, append_up_to) (append_up_to_le fuel i (suc n) q h (ground arith))
  | inr e ↦ rw (e, append_up_to) le
]

append_up_to_ge : (fuel i n : ℕ) → i < n + fuel → i < append_up_to fuel i n
unfolding append_up_to
append_up_to_ge zero i n h = omega (arith, h)
append_up_to_ge (suc fuel) i n h = elim (Bool-cases (leb n i)) [
  | inl e ↦ rw (e, append_up_to) (append_up_to_ge fuel i (suc n) (omega (arith, h)))
  | inr e ↦ rw (e, append_up_to) (ground arith)
]

abbrev growing : ℕ → ℕ → Buckets
growing w n = record { width = w; fixed = false; slots = n }

-- How many buckets a snapshot lists.
abbrev count_at : ℕ → Buckets → ℕ
count_at elapsed b = (if b.fixed then b else extend (index b elapsed) b).slots

count_at-growing :
    (elapsed w m : ℕ) → m ≤ suc (elapsed / w) → count_at elapsed (growing w m) ≡ suc (elapsed / w)
unfolding index
count_at-growing elapsed w m le =
    let q = elapsed / w in
    omega (
      arith,
      append_up_to_le (suc q) q m q (omega arith) le,
      append_up_to_ge (suc q) q m (omega arith),
    )

width_positive : (w : ℕ) → 0 < (if leb w 0 then 1 else w)
width_positive w = ground arith

module _ (sc : Scale) where
  record_all-after :
      (log : List (ℕ × Sample)) (b : Buckets) (cells : Collectors sc)
      → (record_all sc log (b, cells)).1 ≡ after sc (collect sc) parent (by_bucket b log) cells
  unfolding record_all record_offset record_sample after
  record_all-after [] b cells = refl
  record_all-after ((o, s) ∷ log) b cells =
      let b' = (slot o b).1 in
      let cells' = record_sample sc parent (suc (slot o b).0) s cells in
      record_all-after log b' cells' ∙ rw (by_bucket-slot b o log, slot-index b o) refl

  below_run :
      (b : Buckets) (log : List (ℕ × Sample))
      → samples_below parent 0 (by_bucket b log) ≡ samples log
  unfolding is_above
  below_run b [] = refl
  below_run b ((o, s) ∷ log) = rw (below_run b log) (ground arith)

  below_bucket :
      (b : Buckets) (i : ℕ) (log : List (ℕ × Sample))
      → HasBuckets b
      → (b.fixed ≡ true → i < b.slots)
      → samples_below parent (suc i) (by_bucket b log) ≡ samples_in b i log
  unfolding is_above
  below_bucket b i [] h inside = refl
  below_bucket b i ((o, s) ∷ log) h inside =
      rw (sym (index-slice b i o h inside), below_bucket b i log h inside) (ground arith)

  -- A bounded run keeps its buckets; an unbounded one has at most those up to the latest offset.
  bounded_kept :
      (w n : ℕ) (log : List (ℕ × Sample)) (cells : Collectors sc)
      → let b : Buckets = record { width = w; fixed = true; slots = n } in
        (record_all sc log (b, cells)).0 ≡ b
  unfolding record_all record_offset slot
  bounded_kept w n [] cells = refl
  bounded_kept w n ((o, s) ∷ log) cells = bounded_kept w n log _

  unbounded_grown :
      (w n elapsed : ℕ) (log : List (ℕ × Sample)) (cells : Collectors sc)
      → All (λ r. r.0 ≤ elapsed) log
      → n ≤ suc (elapsed / w)
      → (m : ℕ) × (m ≤ suc (elapsed / w))
        × ((record_all sc log (growing w n, cells)).0 ≡ growing w m)
  unfolding record_all record_offset slot index
  unbounded_grown w n elapsed [] cells h le = (n, le, refl)
  unbounded_grown w n elapsed ((o, s) ∷ log) cells h le =
      unbounded_grown w (append_up_to (suc (o / w)) (o / w) n) elapsed log _ h.1
        (append_up_to_le (suc (o / w)) (o / w) n (elapsed / w) (div_mono o elapsed w h.0) le)

  -- What the buckets are to hold by the time `elapsed`, one by one.
  abbrev pub slices : Buckets → ℕ → List (ℕ × Sample) → List Bucket
  slices b n log =
      map
        (λ i. record {
          start = i * b.width;
          operations =
              aggregate sc b.width (feed (collect sc) (samples_in b i log) (new_collector sc));
        })
        (range_from 0 n)

  map-range_from :
      {A : Type 0} (f g : ℕ → A) (n i : ℕ)
      → ((j : ℕ) → j < i + n → f j ≡ g j)
      → map f (range_from i n) ≡ map g (range_from i n)
  map-range_from f g zero i h = refl
  map-range_from f g (suc n) i h =
      rw (h i (omega arith), map-range_from f g n (suc i) (λ j l. h j (omega arith))) refl

  module _ (b : Buckets) (log : List (ℕ × Sample)) where
    cell-total :
        (record_all sc log (b, λ _. new_collector sc)).1 0
        ≡ feed (collect sc) (samples log) (new_collector sc)
    cell-total =
        ap (λ f. f 0) (record_all-after log b (λ _. new_collector sc))
        ∙ (collector-samples_below sc parent forest (by_bucket b log) [] 0).0
        ∙ ap (λ ss. feed (collect sc) ss (new_collector sc)) (below_run b log)

    cell-slice :
        (i : ℕ)
        → HasBuckets b
        → (b.fixed ≡ true → i < b.slots)
        → (record_all sc log (b, λ _. new_collector sc)).1 (suc i)
          ≡ feed (collect sc) (samples_in b i log) (new_collector sc)
    cell-slice i h inside =
        ap (λ f. f (suc i)) (record_all-after log b (λ _. new_collector sc))
        ∙ (collector-samples_below sc parent forest (by_bucket b log) [] (suc i)).0
        ∙ ap (λ ss. feed (collect sc) ss (new_collector sc)) (below_bucket b i log h inside)

    snapshot-slices :
        (b' : Buckets) (elapsed n : ℕ)
        → HasBuckets b
        → (b.fixed ≡ true → n ≤ b.slots)
        → b'.width ≡ b.width
        → count_at elapsed b' ≡ n
        → let r = snapshot sc elapsed (b', (record_all sc log (b, λ _. new_collector sc)).1) in
          (r.0.operations
            ≡ aggregate sc elapsed (feed (collect sc) (samples log) (new_collector sc)))
          × (r.0.buckets ≡ slices b n log)
    unfolding snapshot
    snapshot-slices b' elapsed n h inside same count = (
      ap (aggregate sc elapsed) cell-total,
      rw (count, same, snapshot)
          (map-range_from _ _ n 0
            (λ j l. rw (cell-slice j h (λ f. omega (arith, l, inside f))) refl)),
    )

-- After any records, each with the offset of its operation, that were made by `elapsed`: the
-- result of a snapshot has for the run total the aggregate of a collector that was given every
-- sample, in order; and its buckets are, from the first on, the aggregates over the bucket width
-- of collectors that were given the samples whose offset lies in the bucket's slice. There are
-- ten of them in a bounded run, and one more than the whole widths in `elapsed` in an unbounded
-- one, whose width is positive.
pub snapshot-sliced :
    (sc : Scale) (unbounded : Bool) (width duration elapsed : ℕ) (log : List (ℕ × Sample))
    → (unbounded ≡ true → 0 < width)
    → All (λ r. r.0 ≤ elapsed) log
    → let b = new_buckets unbounded width duration in
      let r = snapshot sc elapsed (record_all sc log (b, λ _. new_collector sc)) in
      (r.0.operations ≡ aggregate sc elapsed (feed (collect sc) (samples log) (new_collector sc)))
      × (r.0.buckets ≡ slices sc b (if unbounded then suc (elapsed / width) else bucket_count) log)
unfolding new_buckets
snapshot-sliced sc true width duration elapsed log h by =
    let b = growing width 0 in
    let kept = unbounded_grown sc width 0 elapsed log (λ _. new_collector sc) by (omega arith) in
    snapshot-slices sc b log (record_all sc log (b, λ _. new_collector sc)).0 elapsed
      (suc (elapsed / width)) (h refl, λ e. cc e) (λ e. cc e) (ap (λ x. x.width) kept.2)
      (ap (count_at elapsed) kept.2 ∙ count_at-growing elapsed width kept.0 kept.1)
snapshot-sliced sc false width duration elapsed log h by =
    let b = new_buckets false width duration in
    let kept = bounded_kept sc b.width bucket_count log (λ _. new_collector sc) in
    snapshot-slices sc b log (record_all sc log (b, λ _. new_collector sc)).0 elapsed bucket_count
      (width_positive (duration / bucket_count), λ e. omega arith) (λ e. omega arith)
      (ap (λ x. x.width) kept) (ap (count_at elapsed) kept)
