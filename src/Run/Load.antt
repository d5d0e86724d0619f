-- ===== src/Run/Load.antt =====
-- The load of a pressure run and what differs between two (`summarizeRun` and `loadMismatches` of
-- internal/run/compare.go), and the parts of a record that they and the comparison read
-- (internal/run/run.go).
use dizzy.Prelude.{
  ℕ, suc, ◌==◌, Bool, true, false, not, ◌&&◌, ◌||◌, if◌then◌else◌, String, str_eq, Option, none,
  some, List, [], ◌∷◌, ◌++◌, map, length, ℤ, eq_ℤ,
}
use dizzy.Metrics.Latency.{Latency}
use dizzy.Metrics.Collector.{Stats, Aggregate}

pub record PressureWeight : Type 0 where
  pub operation : String
  pub weight : ℕ

pub record PressurePropagation : Type 0 where
  pub every : ℕ
  pub timeout : ℕ
  pub probes : ℕ
  pub timed_out : ℕ
  pub delay : Latency

pub record PressureStage : Type 0 where
  pub fan_assignments : ℕ
  pub operations : Aggregate

-- The statistics that a comparison reads.
pub record PressureStats : Type 0 where
  pub workers : ℕ
  pub tokens : ℕ
  pub mix : List PressureWeight
  pub operations : Aggregate
  pub stages : List PressureStage
  pub probes : List Stats
  pub bad_tokens : List Stats
  pub propagation : Option PressurePropagation

-- The parts of a record that a comparison reads.
pub record Record : Type 0 where
  pub run_id : String
  pub scenario : String
  pub seed : ℤ
  pub incomplete : Bool
  pub pressure : Option PressureStats

pub record RunSummary : Type 0 where
  pub run_id : String
  pub scenario : String
  pub seed : ℤ
  pub incomplete : Bool
  pub workers : ℕ
  pub tokens : ℕ
  pub mix : List PressureWeight
  pub propagation_every : ℕ
  pub propagation_timeout : ℕ
  pub stages : List ℕ

-- The differences by what their texts name.
pub data Mismatch : Type 0 where
  scenario_differs : Mismatch
  seed_differs : Mismatch
  workers_differ : Mismatch
  tokens_differ : Mismatch
  mix_differs : Mismatch
  propagation_differs : Mismatch
  stage_count_differs : Mismatch
  stage_differs : ℕ → Mismatch

abbrev pub same_weight : PressureWeight → PressureWeight → Bool
same_weight a b = str_eq a.operation b.operation && (a.weight == b.weight)

-- `slices.Equal`
abbrev pub same_mix : List PressureWeight → List PressureWeight → Bool
same_mix [] [] = true
same_mix [] (b ∷ bs) = false
same_mix (a ∷ as_) [] = false
same_mix (a ∷ as_) (b ∷ bs) = same_weight a b && same_mix as_ bs

abbrev pub note_if : Bool → Mismatch → List Mismatch
note_if b m = if b then m ∷ [] else []

-- The stages that both records have; `i` stages are done.
abbrev pub stage_mismatches : ℕ → List ℕ → List ℕ → List Mismatch
stage_mismatches i [] os = []
stage_mismatches i (b ∷ bs) [] = []
stage_mismatches i (b ∷ bs) (o ∷ os) =
    note_if (not (b == o)) (stage_differs (suc i)) ++ stage_mismatches (suc i) bs os

unfoldable pub load_mismatches : RunSummary → RunSummary → List Mismatch
load_mismatches b o =
    note_if (not (str_eq b.scenario o.scenario)) scenario_differs
    ++ note_if (not (eq_ℤ b.seed o.seed)) seed_differs
    ++ note_if (not (b.workers == o.workers)) workers_differ
    ++ note_if (not (b.tokens == o.tokens)) tokens_differ
    ++ note_if (not (same_mix b.mix o.mix)) mix_differs
    ++ note_if
        (not (b.propagation_every == o.propagation_every)
          || not (b.propagation_timeout == o.propagation_timeout))
        propagation_differs
    ++ note_if (not (length b.stages == length o.stages)) stage_count_differs
    ++ stage_mismatches 0 b.stages o.stages

unfoldable pub summarize_run : Record → PressureStats → RunSummary
summarize_run r p = record {
  run_id = r.run_id;
  scenario = r.scenario;
  seed = r.seed;
  incomplete = r.incomplete;
  workers = p.workers;
  tokens = p.tokens;
  mix = p.mix;
  propagation_every = elim p.propagation [ none ↦ 0 | some q ↦ q.every ];
  propagation_timeout = elim p.propagation [ none ↦ 0 | some q ↦ q.timeout ];
  stages = map (λ st. st.fan_assignments) p.stages;
}
