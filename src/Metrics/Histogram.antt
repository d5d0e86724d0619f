-- ===== src/Metrics/Histogram.antt =====
-- The log-bucket histogram of internal/metrics/histogram.go. The floating-point numbers and the
-- logarithm are a parameter. The map `counts` is its entries by ascending key.
pub mod Rank
use dizzy.Prelude.{ℕ, suc, ◌+◌, if◌then◌else◌, ltb, leb, ◌==◌, Bool, List, [], ◌∷◌, ℤ, pos, negsuc}
use dizzy.Metrics.Latency.{Latency, no_latency, rank}

-- `key d` is ceil(log_gamma(d)), `estimate k` is 2 gamma^k / (gamma + 1), `mean s n` is s / n and
-- `trunc` the conversion of a float to a duration.
pub record Scale : Type 1 where
  pub Float : Type 0
  pub of : ℕ → Float
  pub plus : Float → Float → Float
  pub le : Float → Float → Bool
  pub mean : Float → ℕ → ℕ
  pub key : ℕ → ℕ
  pub estimate : ℕ → Float
  pub trunc : Float → ℕ

pub record Histogram (Float : Type 0) : Type 0 where
  pub n : ℕ
  pub sum : Float
  pub min : ℕ
  pub max : ℕ
  pub zeros : ℕ
  pub counts : List (ℕ × ℕ)

-- `counts[k]++`
pub count_key : ℕ → List (ℕ × ℕ) → List (ℕ × ℕ)
count_key k [] = (k, 1) ∷ []
count_key k ((j, c) ∷ counts) =
    let rest = count_key k counts in
    if j == k
    then (j, suc c) ∷ counts
    else (if ltb k j then (k, 1) ∷ (j, c) ∷ counts else (j, c) ∷ rest)

-- A negative duration counts as 0.
abbrev pub magnitude : ℤ → ℕ
magnitude (pos d) = d
magnitude (negsuc d) = 0

-- The rank is computed exactly, as in `percentile`.
abbrev pub clamped_rank : ℕ → ℕ → ℕ
clamped_rank p n = let r = if ltb n (rank p n) then n else rank p n in if ltb r 1 then 1 else r

module _ (sc : Scale) where
  open sc use {Float}

  abbrev pub new_histogram : Histogram Float
  new_histogram = record { n = 0; sum = sc.of 0; min = 0; max = 0; zeros = 0; counts = [] }

  unfoldable pub add : ℤ → Histogram Float → Histogram Float
  unfolding count_key
  add d h =
      let d = magnitude d in
      record h {
        min = if (h.n == 0) then d else (if ltb d h.min then d else h.min);
        max = if (h.n == 0) then d else (if ltb h.max d then d else h.max);
        n = suc h.n;
        sum = sc.plus h.sum (sc.of d);
        zeros = if (d == 0) then suc h.zeros else h.zeros;
        counts = if (d == 0) then h.counts else count_key (sc.key d) h.counts;
      }

  -- The walk over the ascending keys until the count reaches the rank.
  unfoldable pub walk : ℕ → ℕ → Float → List (ℕ × ℕ) → Float
  walk r cum v [] = v
  walk r cum v ((k, c) ∷ counts) =
      let rest = walk r (cum + c) (sc.estimate k) counts in if leb r cum then v else rest

  abbrev pub clamp : Histogram Float → Float → ℕ
  clamp h v =
      if sc.le v (sc.of h.min) then h.min else (if sc.le (sc.of h.max) v then h.max else sc.trunc v)

  unfoldable pub percentile : Histogram Float → ℕ → ℕ
  percentile h p = clamp h (walk (clamped_rank p h.n) h.zeros (sc.of 0) h.counts)

  unfoldable pub latency : Histogram Float → Latency
  latency h = if (h.n == 0) then no_latency else record {
    min = h.min;
    mean = sc.mean h.sum h.n;
    median = percentile h 50;
    p90 = percentile h 90;
    p95 = percentile h 95;
    p99 = percentile h 99;
    max = h.max;
  }
