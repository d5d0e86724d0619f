-- ===== src/Metrics/Collector.antt =====
-- `Collector` (internal/metrics/metrics.go): samples added up by group, and the collectors that are
-- children of others. A map is its entries by ascending key, which is how `Aggregate` lists them.
pub mod Balance
pub mod Family
use dizzy.Prelude.{
  ℕ, zero, suc, ◌-◌, Bool, true, false, if◌then◌else◌, String, str_eq, str_ltb, has, Option, none,
  some, List, [], ◌∷◌, map, ℤ, update,
}
use dizzy.Metrics.Latency.{Latency, ErrorCount}
use dizzy.Metrics.Histogram.{Scale, Histogram, new_histogram}
use dizzy.Metrics.Histogram

pub record Sample : Type 0 where
  pub type : String
  pub duration : ℤ
  pub success : Bool
  pub err_kind : String

pub record Readiness : Type 0 where
  pub type : String
  pub duration : ℤ
  pub ok : Bool

pub record Group (Float : Type 0) : Type 0 where
  pub attempted : ℕ
  pub succeeded : ℕ
  pub latency : Histogram Float

pub record Collector (Float : Type 0) : Type 0 where
  pub overall : Group Float
  pub by_type : List (String × Group Float)
  pub errors : List (String × ℕ)
  pub readiness : List (String × Group Float)

-- The throughput is the quotient of `succeeded` and `wall`, where `wall` is positive.
pub record Stats : Type 0 where
  pub type : String
  pub attempted : ℕ
  pub succeeded : ℕ
  pub failed : ℕ
  pub wall : ℕ
  pub latency : Latency

pub record ReadinessStats : Type 0 where
  pub type : String
  pub count : ℕ
  pub ok : ℕ
  pub latency : Latency

pub record Aggregate : Type 0 where
  pub wall : ℕ
  pub overall : Stats
  pub by_type : List Stats
  pub errors : List ErrorCount
  pub readiness : List ReadinessStats

-- The entry of a key changes, or a new one is made from `d`.
unfoldable pub change : {A : Type 0} → String → A → (A → A) → List (String × A) → List (String × A)
change k d f [] = (k, f d) ∷ []
change k d f ((j, a) ∷ m) =
    let rest = change k d f m in
    if str_eq j k
    then (j, f a) ∷ m
    else (if str_ltb k j then (k, f d) ∷ (j, a) ∷ m else (j, a) ∷ rest)

module _ (sc : Scale) where
  open sc use {Float}

  abbrev pub new_group : Group Float
  new_group = record { attempted = 0; succeeded = 0; latency = new_histogram sc }

  abbrev pub new_collector : Collector Float
  new_collector = record { overall = new_group; by_type = []; errors = []; readiness = [] }

  -- `group.add`
  unfoldable pub add : Bool → ℤ → Group Float → Group Float
  add ok d g = record {
    attempted = suc g.attempted;
    succeeded = if ok then suc g.succeeded else g.succeeded;
    latency = Histogram.add sc d g.latency;
  }

  -- `Record` on one collector.
  unfoldable pub collect : Sample → Collector Float → Collector Float
  collect s c = record c {
    overall = add s.success s.duration c.overall;
    by_type = change s.type new_group (add s.success s.duration) c.by_type;
    errors = if has s.err_kind then change s.err_kind 0 suc c.errors else c.errors;
  }

  -- `RecordReadiness` on one collector.
  unfoldable pub collect_readiness : Readiness → Collector Float → Collector Float
  collect_readiness r c = record c {
    readiness = change r.type new_group (add r.ok r.duration) c.readiness;
  }

  -- A record on a collector and on those above it, before another begins: the code releases a
  -- collector's lock before it takes its parent's, so that records made at the same time can reach
  -- the parent in another order. The collectors go by number; `parent` is set when one is made,
  -- after its parent, and never changes.
  unfoldable pub record_at :
      {S : Type 0}
      → (S → Collector Float → Collector Float)
      → (ℕ → Option ℕ)
      → ℕ
      → ℕ
      → S
      → (ℕ → Collector Float)
      → ℕ
      → Collector Float
  record_at one parent zero i s cells = cells
  record_at one parent (suc fuel) i s cells =
      let cells' = update cells i (one s (cells i)) in
      elim (parent i) [ none ↦ cells' | some p ↦ record_at one parent fuel p s cells' ]

  -- A collector's ancestors have smaller numbers, so that its own bounds the calls.
  unfoldable pub record_sample :
      (ℕ → Option ℕ) → ℕ → Sample → (ℕ → Collector Float) → ℕ → Collector Float
  record_sample parent i = record_at collect parent (suc i) i

  unfoldable pub record_readiness :
      (ℕ → Option ℕ) → ℕ → Readiness → (ℕ → Collector Float) → ℕ → Collector Float
  record_readiness parent i = record_at collect_readiness parent (suc i) i

  unfoldable pub snapshot : Collector Float → ℕ × ℕ × ℕ
  snapshot c = (c.overall.attempted, c.overall.succeeded, c.overall.attempted - c.overall.succeeded)

  unfoldable pub stats : String → ℕ → Group Float → Stats
  stats type wall g = record {
    type = type;
    attempted = g.attempted;
    succeeded = g.succeeded;
    failed = g.attempted - g.succeeded;
    wall = wall;
    latency = Histogram.latency sc g.latency;
  }

  abbrev readiness_stats : String → Group Float → ReadinessStats
  readiness_stats type g = record {
    type = type;
    count = g.attempted;
    ok = g.succeeded;
    latency = Histogram.latency sc g.latency;
  }

  unfoldable pub aggregate : ℕ → Collector Float → Aggregate
  unfolding stats
  aggregate wall c = record {
    wall = wall;
    overall = stats "" wall c.overall;
    by_type = map (λ e. stats e.0 wall e.1) c.by_type;
    errors = map (λ e. record { kind = e.0; count = e.1 }) c.errors;
    readiness = map (λ e. readiness_stats e.0 e.1) c.readiness;
  }
