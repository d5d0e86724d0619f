-- ===== src/Pressure/Buckets.antt =====
-- `buckets` of internal/pressure/engine.go: one collector for the run, and one for each time bucket,
-- a child of the run's. Collector 0 is the run's and collector `suc i` is bucket `i`'s. Offsets are
-- measured from the run's start and never negative.
pub mod Sliced
use dizzy.Prelude.{
  ℕ, zero, suc, ◌-◌, ◌*◌, ◌/◌, Bool, true, false, ◌&&◌, if◌then◌else◌, leb, Option, none, some,
  List, [], ◌∷◌, map, range_from,
}
use dizzy.Metrics.Histogram.{Scale}
use dizzy.Metrics.Collector.{Sample, Collector, Aggregate, record_sample, aggregate}

-- `slots` is how many bucket collectors there are.
pub record Buckets : Type 0 where
  pub width : ℕ
  pub fixed : Bool
  pub slots : ℕ

pub record Bucket : Type 0 where
  pub start : ℕ
  pub operations : Aggregate

-- Without the workers and the stages, which the engine's own `snapshot` adds.
pub record Result : Type 0 where
  pub operations : Aggregate
  pub buckets : List Bucket
  pub bucket_width : ℕ

abbrev pub bucket_count : ℕ
bucket_count = 10

abbrev pub parent : ℕ → Option ℕ
parent zero = none
parent (suc i) = some 0

unfoldable pub new_buckets : Bool → ℕ → ℕ → Buckets
new_buckets unbounded bucket_width duration =
    let width = duration / bucket_count in
    if unbounded
    then record { width = bucket_width; fixed = false; slots = 0 }
    else record { width = if leb width 0 then 1 else width; fixed = true; slots = bucket_count }

unfoldable pub index : Buckets → ℕ → ℕ
index b offset = let i = offset / b.width in if b.fixed && leb b.slots i then b.slots - 1 else i

-- The loop appends at most `i + 1` buckets, its fuel.
unfoldable pub append_up_to : ℕ → ℕ → ℕ → ℕ
append_up_to zero i slots = slots
append_up_to (suc fuel) i slots =
    let more = append_up_to fuel i (suc slots) in if leb slots i then more else slots

abbrev pub extend : ℕ → Buckets → Buckets
extend i b = record b { slots = append_up_to (suc i) i b.slots }

-- The bucket of an offset, after those up to it are appended in an unbounded run.
unfoldable pub slot : ℕ → Buckets → ℕ × Buckets
slot offset b = let i = index b offset in if b.fixed then (i, b) else (i, extend i b)

module _ (sc : Scale) where
  abbrev pub Collectors : Type 0
  Collectors = ℕ → Collector sc.Float

  unfoldable pub record_offset : ℕ → Sample → Buckets × Collectors → Buckets × Collectors
  record_offset offset s (b, cells) =
      let found = slot offset b in (found.1, record_sample sc parent (suc found.0) s cells)

  -- The buckets, up to `elapsed` in an unbounded run, and the result they make.
  unfoldable pub snapshot : ℕ → Buckets × Collectors → Result × Buckets
  snapshot elapsed (b, cells) =
      let b' = if b.fixed then b else extend (index b elapsed) b in
      (
        record {
          operations = aggregate sc elapsed (cells 0);
          buckets =
              map
                (λ i. record {
                  start = i * b.width;
                  operations = aggregate sc b.width (cells (suc i));
                })
                (range_from 0 b'.slots);
          bucket_width = if b.fixed then 0 else b.width;
        },
        b',
      )
