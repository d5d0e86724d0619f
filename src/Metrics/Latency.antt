-- ===== src/Metrics/Latency.antt =====
-- `ComputeLatency` and `percentile` of internal/metrics/metrics.go: the latency distribution of a
-- list of durations (nanoseconds), with nearest-rank percentiles. The rank ceil(p / 100 * n) is
-- computed exactly here; the code's float64 agrees with it below two million durations at the four
-- percentiles in use.
pub mod Percentile
use dizzy.Prelude.{
  String, ℕ, zero, suc, ◌+◌, ◌-◌, ◌*◌, ◌/◌, ◌≤◌, ◌<◌, ◌≡◌, if◌then◌else◌, leb, List, [], ◌∷◌,
  length, get_or, arith,
}

-- The number of failures of one kind.
pub record ErrorCount : Type 0 where
  pub kind : String
  pub count : ℕ

pub record Latency : Type 0 where
  pub min : ℕ
  pub mean : ℕ
  pub median : ℕ
  pub p90 : ℕ
  pub p95 : ℕ
  pub p99 : ℕ
  pub max : ℕ

abbrev pub no_latency : Latency
no_latency = record { min = 0; mean = 0; median = 0; p90 = 0; p95 = 0; p99 = 0; max = 0 }

-- `sort.Slice` of the package sort, as the sorted list of the same entries.
pub insert : ℕ → List ℕ → List ℕ
insert x [] = x ∷ []
insert x (y ∷ ys) = let rest = insert x ys in if leb x y then x ∷ y ∷ ys else y ∷ rest

pub sort : List ℕ → List ℕ
unfolding insert
sort [] = []
sort (x ∷ xs) = insert x (sort xs)

pub sum : List ℕ → ℕ
sum [] = 0
sum (x ∷ xs) = x + sum xs

-- ceil(p / 100 * n)
abbrev pub rank : ℕ → ℕ → ℕ
rank p n = (p * n + 99) / 100

-- `int(ceil) - 1`, clamped into range; `-` stops at 0, which is the clamp from below.
pub percentile : List ℕ → ℕ → ℕ
percentile sorted p =
    let idx = rank p (length sorted) - 1 in
    let idx = if leb (length sorted) idx then length sorted - 1 else idx in get_or sorted idx 0

pub latency_of_sorted : List ℕ → Latency
unfolding percentile sum
latency_of_sorted sorted = record {
  min = get_or sorted 0 0;
  mean = sum sorted / length sorted;
  median = percentile sorted 50;
  p90 = percentile sorted 90;
  p95 = percentile sorted 95;
  p99 = percentile sorted 99;
  max = get_or sorted (length sorted - 1) 0;
}

unfoldable pub compute_latency : List ℕ → Latency
unfolding sort latency_of_sorted
compute_latency [] = no_latency
compute_latency (d ∷ durs) = latency_of_sorted (sort (d ∷ durs))
