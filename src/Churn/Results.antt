-- ===== src/Churn/Results.antt =====
-- `results` of internal/chaos/engine.go: the time buckets of a churn run. Durations are natural
-- numbers, since an offset is measured from the run's start; the mutex is not modelled, since each
-- function holds it from its first line to its last.
pub mod Sealing
pub mod History
use dizzy.Prelude.{
  ℕ, zero, suc, ◌+◌, ◌-◌, ◌*◌, ◌/◌, Bool, true, false, not, ◌&&◌, ◌||◌, if◌then◌else◌, ltb, leb,
  ◌==◌, String, str_eq, List, [], ◌∷◌, ◌++◌, length, get_or, some_of, str_ltb, map,
}
use dizzy.Metrics.Latency.{ErrorCount, Latency, compute_latency}

-- `Throughput` is `float64(succeeded) / width.Seconds()`: the quotient is kept as its two parts.
pub record Rate : Type 0 where
  pub succeeded : ℕ
  pub width : ℕ

pub record Bucket : Type 0 where
  pub start : ℕ
  pub attempted : ℕ
  pub succeeded : ℕ
  pub failed : ℕ
  pub throughput : Rate
  pub latency : Latency
  pub errors : List ErrorCount

pub record Outcome : Type 0 where
  pub offset : ℕ
  pub latency : ℕ
  pub success : Bool
  pub err_kind : String

-- `inFlight` is above 0 where it is counted down, so `-` is exact.
pub record Slot : Type 0 where
  pub latencies : List ℕ
  pub succeeded : ℕ
  pub errs : List ErrorCount
  pub in_flight : ℕ
  pub sealed : Bool
  pub bucket : Bucket

pub record Results : Type 0 where
  pub width : ℕ
  pub fixed : Bool
  pub slots : List Slot
  pub first_open : ℕ
  pub cycles : ℕ

abbrev pub no_bucket : Bucket
no_bucket = record {
  start = 0;
  attempted = 0;
  succeeded = 0;
  failed = 0;
  throughput = record { succeeded = 0; width = 0 };
  latency = record { min = 0; mean = 0; median = 0; p90 = 0; p95 = 0; p99 = 0; max = 0 };
  errors = [];
}

abbrev pub empty_slot : Slot
empty_slot = record {
  latencies = [];
  succeeded = 0;
  errs = [];
  in_flight = 0;
  sealed = false;
  bucket = no_bucket;
}

abbrev pub bucket_count : ℕ
bucket_count = 10

abbrev pub empty_slots : ℕ → List Slot
empty_slots zero = []
empty_slots (suc n) = empty_slot ∷ empty_slots n

unfoldable pub new_results : Bool → ℕ → ℕ → Results
new_results unbounded bucket_width duration =
    let width = if leb (duration / bucket_count) 0 then 1 else duration / bucket_count in
    if unbounded
    then record { width = bucket_width; fixed = false; slots = []; first_open = 0; cycles = 0 }
    else record {
      width = width;
      fixed = true;
      slots = empty_slots bucket_count;
      first_open = 0;
      cycles = 0;
    }

-- An offset is never negative, so the clamp at 0 has no case here.
unfoldable pub index : Results → ℕ → ℕ
index r offset =
    let i = offset / r.width in if r.fixed && leb (length r.slots) i then length r.slots - 1 else i

-- An entry of a tally gains one, and a new one starts at one.
pub bump : String → List ErrorCount → List ErrorCount
bump k [] = record { kind = k; count = 1 } ∷ []
bump k (e ∷ es) =
    let rest = bump k es in
    if str_eq e.kind k then record { kind = k; count = suc e.count } ∷ es else e ∷ rest

insert_count : ErrorCount → List ErrorCount → List ErrorCount
insert_count e [] = e ∷ []
insert_count e (f ∷ fs) =
    let rest = insert_count e fs in if str_ltb f.kind e.kind then f ∷ rest else e ∷ f ∷ fs

pub sorted_error_counts : List ErrorCount → List ErrorCount
unfolding insert_count
sorted_error_counts [] = []
sorted_error_counts (e ∷ es) = insert_count e (sorted_error_counts es)

pub bucket_of : ℕ → ℕ → Slot → Bucket
bucket_of width i s = if s.sealed then s.bucket else record {
  start = i * width;
  attempted = length s.latencies;
  succeeded = s.succeeded;
  failed = length s.latencies - s.succeeded;
  throughput = record { succeeded = s.succeeded; width = width };
  latency = compute_latency s.latencies;
  errors = sorted_error_counts s.errs;
}

-- Sealing computes the slot's bucket and releases its raw data.
abbrev pub seal_slot : ℕ → ℕ → Slot → Slot
seal_slot width i s =
    if not s.sealed && (s.in_flight == 0)
    then record s { latencies = []; errs = []; sealed = true; bucket = bucket_of width i s }
    else s

-- The loop of `advance` over the slots from `open` up to the current one; `i` counts the slots.
pub seal_range : ℕ → ℕ → ℕ → ℕ → List Slot → List Slot
seal_range width lo cur i [] = []
seal_range width lo cur i (s ∷ ss) =
    (if leb lo i && ltb i cur then seal_slot width i s else s) ∷ seal_range width lo cur (suc i) ss

-- `for r.open < cur && r.slots[r.open].sealed { r.open++ }`, in at most `cur - open` rounds.
pub raise_open : ℕ → List Slot → ℕ → ℕ
raise_open zero slots open_at = open_at
raise_open (suc rounds) slots open_at =
    let rest = raise_open rounds slots (suc open_at) in
    if (get_or slots open_at empty_slot).sealed then rest else open_at

unfoldable pub advance : Results → ℕ → Results
unfolding index seal_range raise_open bucket_of
advance r offset =
    let cur = index r offset in
    let grown = r.slots ++ empty_slots (suc cur - length r.slots) in
    let slots = seal_range r.width r.first_open cur 0 grown in
    record r { slots = slots; first_open = raise_open (cur - r.first_open) slots r.first_open }

-- A write out of range is a panic in the code; `advance` has made the slot.
abbrev pub modify : (Slot → Slot) → ℕ → List Slot → List Slot
modify f i [] = []
modify f zero (s ∷ ss) = f s ∷ ss
modify f (suc i) (s ∷ ss) = s ∷ modify f i ss

abbrev pub begin_slot : Slot → Slot
begin_slot s = record s { in_flight = suc s.in_flight }

abbrev pub end_slot : Slot → Slot
end_slot s = record s { in_flight = s.in_flight - 1 }

pub add_to_slot : Outcome → Slot → Slot
unfolding bump
add_to_slot o s =
    let t = record s { latencies = s.latencies ++ o.latency ∷ [] } in
    if o.success
    then record t { succeeded = suc s.succeeded }
    else record t { errs = bump o.err_kind s.errs }

unfoldable pub begin : Results → ℕ → Results
unfolding index
begin r offset = record r { slots = modify begin_slot (index r offset) r.slots }

unfoldable pub end : Results → ℕ → Results
unfolding index
end r offset = record r { slots = modify end_slot (index r offset) r.slots }

unfoldable pub add : Results → Outcome → Results
unfolding index add_to_slot
add r o = record r { slots = modify (add_to_slot o) (index r o.offset) r.slots }

unfoldable pub cycle : Results → Results
cycle r = record r { cycles = suc r.cycles }

abbrev drop : ℕ → List Slot → List Slot
drop zero ss = ss
drop (suc n) [] = []
drop (suc n) (s ∷ ss) = drop n ss

unfoldable pub in_flight : Results → Bool
in_flight r = some_of (λ s. ltb 0 s.in_flight) (drop r.first_open r.slots)

abbrev pub buckets_from : ℕ → ℕ → List Slot → List Bucket
buckets_from width i [] = []
buckets_from width i (s ∷ ss) = bucket_of width i s ∷ buckets_from width (suc i) ss

unfoldable pub buckets : Results → List Bucket
buckets r = buckets_from r.width 0 r.slots
