-- ===== src/Tests/Metrics.antt =====
-- Concrete inputs for the histogram and the collectors (internal/metrics), with natural numbers for
-- the floating-point ones and each duration its own key.
use dizzy.Prelude.{
  ℕ, zero, suc, ◌+◌, ◌/◌, ◌≡◌, Bool, true, false, leb, Option, none, some, String, List, [], ◌∷◌,
  pos, arith,
}
use dizzy.Metrics.Latency.{sort}
use dizzy.Metrics.Latency.{percentile as exact}
use dizzy.Metrics.Histogram.{Scale, percentile}
use dizzy.Metrics.Histogram.Rank.{
  histogram_of, estimate_of, IsLeast, IsGreatest, within, percentile-exact,
}
use dizzy.Metrics.Collector.{Sample, Readiness, new_collector, collect, collect_readiness}
use dizzy.Metrics.Collector.Family.{IsForest, samples_below, feed, after, collector-samples_below}

abbrev pub plain : Scale
plain = record {
  Float = ℕ;
  of = λ n. n;
  plus = λ a b. a + b;
  le = leb;
  mean = λ s n. s / n;
  key = λ d. d;
  estimate = λ k. k;
  trunc = λ x. x;
}

abbrev durations : List ℕ
durations = 40 ∷ 10 ∷ 0 ∷ 30 ∷ []

percentile-exact_example :
    (lo : ℕ) × (hi : ℕ) × IsLeast lo durations
    × IsGreatest hi durations
    × (percentile plain (histogram_of plain durations) 90
        ≡ within plain lo hi (estimate_of plain (exact (sort durations) 90)))
percentile-exact_example =
    percentile-exact plain (λ d e h. h) durations 90 (omega arith) (omega arith) (omega arith)

abbrev sample : String → ℕ → Bool → String → Sample
sample type d ok kind = record { type = type; duration = pos d; success = ok; err_kind = kind }

-- A run's collector with two children.
abbrev family : ℕ → Option ℕ
family zero = none
family (suc i) = some 0

family-IsForest : IsForest family
family-IsForest zero p e = cc e
family-IsForest (suc i) p e = ground (arith, e)

abbrev log : List (ℕ × Sample)
log = (1, sample "port" 2 true "") ∷ (2, sample "port" 4 false "timeout") ∷ []

abbrev ready : List (ℕ × Readiness)
ready = (2, record { type = "port"; duration = pos 7; ok = true }) ∷ []

collector-samples_below_example :
    (after plain (collect plain) family log (λ _. new_collector plain) 0
      ≡ feed (collect plain) (samples_below family 0 log) (new_collector plain))
    × (after plain (collect_readiness plain) family ready (λ _. new_collector plain) 0
        ≡ feed (collect_readiness plain) (samples_below family 0 ready) (new_collector plain))
collector-samples_below_example = collector-samples_below plain family family-IsForest log ready 0
