-- ===== src/Churn/Results/Sealing.antt =====
-- Sealing a slot of `results` changes no report, and no outcome is lost to a sealed slot.
use dizzy.Prelude.{
  ℕ, zero, suc, ◌+◌, ◌-◌, ◌≤◌, ◌<◌, ◌≡◌, refl, ◌∙◌, true, List, [], ◌∷◌, ◌++◌, length,
  length-append, get_or, arith,
}
use dizzy.Churn.Results.{
  Bucket, Outcome, Slot, Results, empty_slot, empty_slots, index, bucket_of, seal_slot, seal_range,
  advance, modify, begin_slot, end_slot, add_to_slot, buckets_from, buckets,
}

bucket_of-seal_slot :
    (width i : ℕ) (s : Slot) → bucket_of width i (seal_slot width i s) ≡ bucket_of width i s
unfolding bucket_of
bucket_of-seal_slot width i s = ground arith

pub seal_range-buckets :
    (width lo cur i : ℕ) (ss : List Slot)
    → buckets_from width i (seal_range width lo cur i ss) ≡ buckets_from width i ss
unfolding seal_range
seal_range-buckets width lo cur i [] = refl
seal_range-buckets width lo cur i (s ∷ ss) =
    ground (arith, bucket_of-seal_slot width i s, seal_range-buckets width lo cur (suc i) ss)

buckets_from-append :
    (width i : ℕ) (xs ys : List Slot)
    → buckets_from width i (xs ++ ys)
      ≡ buckets_from width i xs ++ buckets_from width (i + length xs) ys
buckets_from-append width i [] ys = ground arith
buckets_from-append width i (x ∷ xs) ys =
    let e : suc i + length xs ≡ i + suc (length xs) = omega arith in
    ground (arith, e, buckets_from-append width (suc i) xs ys)

-- Moving the series on never changes a bucket that a report already shows: the buckets after
-- `advance` are those before it, followed by those of the empty slots that it appends.
pub buckets-advance :
    (r : Results) (offset : ℕ)
    → buckets (advance r offset)
      ≡ buckets r
        ++ buckets_from r.width
            (length r.slots)
            (empty_slots (suc (index r offset) - length r.slots))
unfolding buckets advance
buckets-advance r offset =
    seal_range-buckets r.width r.first_open (index r offset) 0 _
    ∙ ground (
      arith,
      buckets_from-append r.width 0 r.slots (empty_slots (suc (index r offset) - length r.slots)),
    )

-- How many outcomes the buckets report.
abbrev pub attempted_in : List Bucket → ℕ
attempted_in [] = 0
attempted_in (b ∷ bs) = b.attempted + attempted_in bs

abbrev pub total_attempted : Results → ℕ
total_attempted r = attempted_in (buckets r)

abbrev pub in_flight_at : Results → ℕ → ℕ
in_flight_at r offset = (get_or r.slots (index r offset) empty_slot).in_flight

-- A sealed slot lies below the current one and has nothing in flight.
abbrev pub Safe : ℕ → ℕ → List Slot → Type 0
Safe cur i [] = Unit
Safe cur i (s ∷ ss) =
    (s.sealed ≡ true → s.in_flight ≡ 0) × (s.sealed ≡ true → i < cur) × Safe cur (suc i) ss

pub seal_range-Safe :
    (width lo old cur i : ℕ) (ss : List Slot)
    → old ≤ cur
    → Safe old i ss
    → Safe cur i (seal_range width lo cur i ss)
unfolding seal_range
seal_range-Safe width lo old cur i [] h s = tt
seal_range-Safe width lo old cur i (x ∷ xs) h s =
    (ground arith, ground arith, seal_range-Safe width lo old cur (suc i) xs h s.2)

pub append-Safe : (cur i n : ℕ) (ss : List Slot) → Safe cur i ss → Safe cur i (ss ++ empty_slots n)
append-Safe cur i zero [] s = tt
append-Safe cur i (suc n) [] s = (λ e. cc, λ e. cc, append-Safe cur (suc i) n [] tt)
append-Safe cur i n (x ∷ xs) s = (s.0, s.1, append-Safe cur (suc i) n xs s.2)

pub begin-Safe :
    (cur i k : ℕ) (ss : List Slot)
    → cur ≤ i + k
    → Safe cur i ss
    → Safe cur i (modify begin_slot k ss)
begin-Safe cur i k [] h s = tt
begin-Safe cur i zero (x ∷ xs) h s = (λ e. absurd (omega (arith, s.1 e)), s.1, s.2)
begin-Safe cur i (suc k) (x ∷ xs) h s = (s.0, s.1, begin-Safe cur (suc i) k xs (omega arith) s.2)

pub end-Safe : (cur i k : ℕ) (ss : List Slot) → Safe cur i ss → Safe cur i (modify end_slot k ss)
end-Safe cur i k [] s = tt
end-Safe cur i zero (x ∷ xs) s = (λ e. omega (arith, s.0 e), s.1, s.2)
end-Safe cur i (suc k) (x ∷ xs) s = (s.0, s.1, end-Safe cur (suc i) k xs s.2)

pub add-Safe :
    (o : Outcome) (cur i k : ℕ) (ss : List Slot)
    → Safe cur i ss
    → Safe cur i (modify (add_to_slot o) k ss)
unfolding add_to_slot
add-Safe o cur i k [] s = tt
add-Safe o cur i zero (x ∷ xs) s = (ground (arith, s.0), ground (arith, s.1), s.2)
add-Safe o cur i (suc k) (x ∷ xs) s = (s.0, s.1, add-Safe o cur (suc i) k xs s.2)

-- An outcome added to a slot with an operation in flight is reported.
pub add-attempted :
    (o : Outcome) (width cur i k : ℕ) (ss : List Slot)
    → Safe cur i ss
    → 0 < (get_or ss k empty_slot).in_flight
    → attempted_in (buckets_from width i (modify (add_to_slot o) k ss))
      ≡ suc (attempted_in (buckets_from width i ss))
unfolding add_to_slot bucket_of
add-attempted o width cur i k [] s h = elim h [ ]
add-attempted o width cur i zero (x ∷ xs) s h =
    ground (arith, s.0, length-append x.latencies (o.latency ∷ []))
add-attempted o width cur i (suc k) (x ∷ xs) s h =
    omega (arith, add-attempted o width cur (suc i) k xs s.2 h)

pub begin-attempted :
    (width i k : ℕ) (ss : List Slot)
    → attempted_in (buckets_from width i (modify begin_slot k ss))
      ≡ attempted_in (buckets_from width i ss)
unfolding bucket_of
begin-attempted width i k [] = refl
begin-attempted width i zero (x ∷ xs) = ground arith
begin-attempted width i (suc k) (x ∷ xs) = omega (arith, begin-attempted width (suc i) k xs)

pub end-attempted :
    (width i k : ℕ) (ss : List Slot)
    → attempted_in (buckets_from width i (modify end_slot k ss))
      ≡ attempted_in (buckets_from width i ss)
unfolding bucket_of
end-attempted width i k [] = refl
end-attempted width i zero (x ∷ xs) = ground arith
end-attempted width i (suc k) (x ∷ xs) = omega (arith, end-attempted width (suc i) k xs)

pub append-attempted :
    (width i n : ℕ) (ss : List Slot)
    → attempted_in (buckets_from width i (ss ++ empty_slots n))
      ≡ attempted_in (buckets_from width i ss)
unfolding bucket_of
append-attempted width i zero [] = refl
append-attempted width i (suc n) [] = omega (arith, append-attempted width (suc i) n [])
append-attempted width i n (x ∷ xs) = omega (arith, append-attempted width (suc i) n xs)
