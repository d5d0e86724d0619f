-- ===== src/Run/Compare.antt =====
-- `Compare` of internal/run/compare.go: two pressure records read side by side. The floating-point
-- numbers are a parameter, as is the throughput of a group of samples.
pub mod Loads
pub mod Rows
use dizzy.Prelude.{
  ℕ, suc, ◌==◌, Bool, true, false, not, ◌&&◌, ◌||◌, if◌then◌else◌, String, str_eq, str_ltb, Option,
  none, some, List, [], ◌∷◌, ◌++◌, map, length, ℤ, pos, eq_ℤ, minus_ℤ,
}
use dizzy.Metrics.Latency.{Latency}
use dizzy.Metrics.Collector.{Stats, Aggregate}
use dizzy.Run.Load.{
  PressureWeight, PressurePropagation, PressureStage, PressureStats, Record, RunSummary, Mismatch,
  load_mismatches, summarize_run,
}

pub record Floats : Type 1 where
  pub Float : Type 0
  pub throughput : Stats → Float
  pub minus : Float → Float → Float

pub record Metric (Float : Type 0) : Type 0 where
  pub p50 : ℤ
  pub p95 : ℤ
  pub p99 : ℤ
  pub throughput : Float

pub record OperationDelta (Float : Type 0) : Type 0 where
  pub operation : String
  pub base : Option (Metric Float)
  pub other : Option (Metric Float)
  pub delta : Option (Metric Float)

pub record DelayMetric : Type 0 where
  pub p50 : ℤ
  pub p95 : ℤ
  pub p99 : ℤ
  pub max : ℤ
  pub probes : ℤ
  pub timed_out : ℤ

pub record PropagationDelta : Type 0 where
  pub base : Option DelayMetric
  pub other : Option DelayMetric
  pub delta : Option DelayMetric

pub record StageDelta (Float : Type 0) : Type 0 where
  pub index : ℕ
  pub fan_assignments : ℕ
  pub operations : List (OperationDelta Float)

pub record Comparison (Float : Type 0) : Type 0 where
  pub base : RunSummary
  pub other : RunSummary
  pub mismatches : List Mismatch
  pub operations : List (OperationDelta Float)
  pub probes : List (OperationDelta Float)
  pub bad_tokens : List (OperationDelta Float)
  pub propagation : Option PropagationDelta
  pub stages : List (StageDelta Float)

pub data CompareError : Type 0 where
  no_pressure : String → CompareError
  different_loads : List Mismatch → CompareError

pub data Compared (Float : Type 0) : Type 0 where
  compared : Comparison Float → Compared Float
  refused : CompareError → Compared Float

abbrev delay_of : Option PressurePropagation → Option DelayMetric
delay_of none = none
delay_of (some p) =
    if p.probes == 0
    then none
    else some (record {
      p50 = pos p.delay.median;
      p95 = pos p.delay.p95;
      p99 = pos p.delay.p99;
      max = pos p.delay.max;
      probes = pos p.probes;
      timed_out = pos p.timed_out;
    })

abbrev delay_delta : Option DelayMetric → Option DelayMetric → Option DelayMetric
delay_delta none o = none
delay_delta (some b) none = none
delay_delta (some b) (some o) = some (record {
  p50 = minus_ℤ o.p50 b.p50;
  p95 = minus_ℤ o.p95 b.p95;
  p99 = minus_ℤ o.p99 b.p99;
  max = minus_ℤ o.max b.max;
  probes = minus_ℤ o.probes b.probes;
  timed_out = minus_ℤ o.timed_out b.timed_out;
})

abbrev both_delays : Option PressurePropagation → Option PressurePropagation → PropagationDelta
both_delays b o = record {
  base = delay_of b;
  other = delay_of o;
  delta = delay_delta (delay_of b) (delay_of o);
}

abbrev pub compare_propagation :
    Option PressurePropagation → Option PressurePropagation → Option PropagationDelta
compare_propagation none none = none
compare_propagation none (some o) = some (both_delays none (some o))
compare_propagation (some b) o = some (both_delays (some b) o)

-- The group of a name: the first in the list.
abbrev pub type_stats : List Stats → String → Option Stats
type_stats [] name = none
type_stats (s ∷ ss) name =
    let rest = type_stats ss name in if str_eq s.type name then some s else rest

-- `slices.Sort` and `slices.Compact`
abbrev pub insert_name : String → List String → List String
insert_name x [] = x ∷ []
insert_name x (y ∷ ys) = let rest = insert_name x ys in if str_ltb y x then y ∷ rest else x ∷ y ∷ ys

abbrev pub sort_names : List String → List String
sort_names [] = []
sort_names (x ∷ xs) = insert_name x (sort_names xs)

abbrev pub compact_after : String → List String → List String
compact_after x [] = []
compact_after x (y ∷ ys) =
    let same = compact_after x ys in
    let other = compact_after y ys in if str_eq x y then same else y ∷ other

abbrev pub compact : List String → List String
compact [] = []
compact (x ∷ xs) = x ∷ compact_after x xs

abbrev pub names_of : List Stats → List String
names_of ss = map (λ s. s.type) ss

abbrev pub is_some_of : List Mismatch → Bool
is_some_of [] = false
is_some_of (m ∷ ms) = true

module _ (fl : Floats) where
  open fl use {Float}

  abbrev pub metric_of : Option Stats → Option (Metric Float)
  metric_of none = none
  metric_of (some s) =
      if s.attempted == 0
      then none
      else some (record {
        p50 = pos s.latency.median;
        p95 = pos s.latency.p95;
        p99 = pos s.latency.p99;
        throughput = fl.throughput s;
      })

  abbrev metric_delta : Option (Metric Float) → Option (Metric Float) → Option (Metric Float)
  metric_delta none o = none
  metric_delta (some b) none = none
  metric_delta (some b) (some o) = some (record {
    p50 = minus_ℤ o.p50 b.p50;
    p95 = minus_ℤ o.p95 b.p95;
    p99 = minus_ℤ o.p99 b.p99;
    throughput = fl.minus o.throughput b.throughput;
  })

  abbrev pub operation_delta : String → Option Stats → Option Stats → OperationDelta Float
  operation_delta name b o = record {
    operation = name;
    base = metric_of b;
    other = metric_of o;
    delta = metric_delta (metric_of b) (metric_of o);
  }

  unfoldable pub compare_by_type : List Stats → List Stats → List (OperationDelta Float)
  compare_by_type b o =
      map (λ name. operation_delta name (type_stats b name) (type_stats o name))
        (compact (sort_names (names_of b ++ names_of o)))

  -- An aggregate that is missing stands for a record without the stage.
  abbrev overall_stats : Option Aggregate → Option Stats
  overall_stats none = none
  overall_stats (some a) = some a.overall

  abbrev by_type_stats : Option Aggregate → List Stats
  by_type_stats none = []
  by_type_stats (some a) = a.by_type

  unfoldable pub compare_aggregates :
      Option Aggregate → Option Aggregate → List (OperationDelta Float)
  compare_aggregates b o =
      operation_delta "all" (overall_stats b) (overall_stats o)
      ∷ compare_by_type (by_type_stats b) (by_type_stats o)

  abbrev stage_delta : ℕ → ℕ → Option Aggregate → Option Aggregate → StageDelta Float
  stage_delta i fan b o = record {
    index = suc i;
    fan_assignments = fan;
    operations = compare_aggregates b o;
  }

  -- The loop up to the longer list; the base's override wins.
  unfoldable pub compare_stages :
      ℕ → List PressureStage → List PressureStage → List (StageDelta Float)
  compare_stages i [] [] = []
  compare_stages i [] (o ∷ os) =
      stage_delta i o.fan_assignments none (some o.operations) ∷ compare_stages (suc i) [] os
  compare_stages i (b ∷ bs) [] =
      stage_delta i b.fan_assignments (some b.operations) none ∷ compare_stages (suc i) bs []
  compare_stages i (b ∷ bs) (o ∷ os) =
      stage_delta i b.fan_assignments (some b.operations) (some o.operations)
      ∷ compare_stages (suc i) bs os

  abbrev both_compared : Record → PressureStats → Record → PressureStats → Comparison Float
  both_compared base bp other op =
      let b = summarize_run base bp in
      let o = summarize_run other op in
      record {
        base = b;
        other = o;
        mismatches = load_mismatches b o;
        operations = compare_aggregates (some bp.operations) (some op.operations);
        probes = compare_by_type bp.probes op.probes;
        bad_tokens = compare_by_type bp.bad_tokens op.bad_tokens;
        propagation = compare_propagation bp.propagation op.propagation;
        stages = compare_stages 0 bp.stages op.stages;
      }

  -- `Compare` of two records that have pressure statistics.
  unfoldable pub compare_pressure :
      Record → PressureStats → Record → PressureStats → Bool → Compared Float
  compare_pressure base bp other op allow_mismatch =
      let ms = load_mismatches (summarize_run base bp) (summarize_run other op) in
      if is_some_of ms && not allow_mismatch
      then refused (different_loads ms)
      else compared (both_compared base bp other op)

  unfoldable pub compare : Record → Record → Bool → Compared Float
  compare base other allow_mismatch = elim base.pressure [
    | none ↦ refused (no_pressure base.run_id)
    | some bp ↦ elim other.pressure [
      | none ↦ refused (no_pressure other.run_id)
      | some op ↦ compare_pressure base bp other op allow_mismatch
    ]
  ]
