-- ===== src/Tests/Run.antt =====
-- Concrete inputs for the comparison of two run records (internal/run/compare.go).
use dizzy.Prelude.{ℕ, ◌-◌, ◌≡◌, ◌↔◌, refl, false, String, some, List, [], ◌∷◌, map, pos}
use dizzy.Metrics.Latency.{no_latency}
use dizzy.Metrics.Collector.{Stats, Aggregate}
use dizzy.Run.Load.{PressureStats, Record, tokens_differ, load_mismatches, summarize_run}
use dizzy.Run.Compare.{Floats, compare, refused, different_loads, compare_by_type, compare_pressure}
use dizzy.Run.Compare.Loads.{HasResult, Comparable, compare-Comparable}

abbrev whole : Floats
whole = record { Float = ℕ; throughput = λ s. s.succeeded; minus = λ a b. a - b }

abbrev stats : String → ℕ → Stats
stats type n = record {
  type = type;
  attempted = n;
  succeeded = n;
  failed = 0;
  wall = 60;
  latency = record { min = 1; mean = n; median = n; p90 = n; p95 = n; p99 = n; max = n };
}

abbrev no_operations : Aggregate
no_operations = record { wall = 0; overall = stats "" 0; by_type = []; errors = []; readiness = [] }

abbrev pressed : ℕ → PressureStats
pressed tokens = record {
  workers = 8;
  tokens = tokens;
  mix = record { operation = "token"; weight = 3 } ∷ [];
  operations = record {
    wall = 60;
    overall = stats "" 5;
    by_type = stats "token" 5 ∷ [];
    errors = [];
    readiness = [];
  };
  stages = record { fan_assignments = 3; operations = no_operations } ∷ [];
  probes = [];
  bad_tokens = [];
  propagation =
      some (record { every = 5; timeout = 1000; probes = 0; timed_out = 0; delay = no_latency });
}

abbrev run_of : String → ℕ → Record
run_of id tokens = record {
  run_id = id;
  scenario = "small";
  seed = pos 42;
  incomplete = false;
  pressure = some (pressed tokens);
}

compare-Comparable_example :
    HasResult whole
      (run_of "a" 100)
      (run_of "b" 100)
      false
      (compare whole (run_of "a" 100) (run_of "b" 100) false)
    ↔ Comparable whole (run_of "a" 100) (run_of "b" 100) false
compare-Comparable_example = compare-Comparable whole (run_of "a" 100) (run_of "b" 100) false

-- The token pools differ.
refused_run :
    compare whole (run_of "a" 100) (run_of "b" 200) false
    ≡ refused (different_loads (tokens_differ ∷ []))
unfolding compare compare_pressure load_mismatches summarize_run
refused_run = refl

abbrev before : List Stats
before = stats "token" 5 ∷ stats "list" 2 ∷ []

abbrev later : List Stats
later = stats "revoke" 1 ∷ stats "token" 0 ∷ []

-- The rows are sorted, and a name in both lists has one.
names_run :
    map (λ d. d.operation) (compare_by_type whole before later) ≡ "list" ∷ "revoke" ∷ "token" ∷ []
unfolding compare_by_type
names_run = refl
