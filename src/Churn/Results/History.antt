-- ===== src/Churn/Results/History.antt =====
-- The calls that the engine makes on its `results`, in the order in which the mutex lets them in.
use dizzy.Prelude.{
  div_mono, ℕ, zero, suc, ◌+◌, ◌-◌, ◌≤◌, ◌<◌, ◌≡◌, refl, ◌∙◌, ap, Bool, true, false, List, [], ◌∷◌,
  ◌++◌, length, length-append, arith, Bool-cases, inl, inr,
}
use dizzy.Churn.Results.{
  Outcome, Slot, Results, empty_slots, new_results, index, bucket_of, seal_range, advance, modify,
  begin_slot, end_slot, add_to_slot, begin, end, add, cycle, buckets_from, buckets,
}
use dizzy.Churn.Results.Sealing.{
  Safe, attempted_in, total_attempted, in_flight_at, seal_range-Safe, append-Safe, begin-Safe,
  end-Safe, add-Safe, add-attempted, begin-attempted, end-attempted, append-attempted,
  seal_range-buckets,
}

-- The scheduler advances to an offset that never falls and begins operations at it; a task adds the
-- outcome of an operation in flight, or ends it. `now` is the scheduler's offset, `n` the number of
-- outcomes added.
pub data History (unbounded : Bool) (width duration : ℕ) : Results → ℕ → ℕ → Type 0 where
  start : History unbounded width duration (new_results unbounded width duration) 0 0
  tick :
      {r : Results} {now n : ℕ} (offset : ℕ)
      → History unbounded width duration r now n
      → now ≤ offset
      → History unbounded width duration (advance r offset) offset n
  launch :
      {r : Results} {now n : ℕ}
      → History unbounded width duration r now n
      → History unbounded width duration (begin r now) now n
  record_outcome :
      {r : Results} {now n : ℕ} (o : Outcome)
      → History unbounded width duration r now n
      → 0 < in_flight_at r o.offset
      → History unbounded width duration (add r o) now (suc n)
  finish :
      {r : Results} {now n : ℕ} (offset : ℕ)
      → History unbounded width duration r now n
      → 0 < in_flight_at r offset
      → History unbounded width duration (end r offset) now n
  count_cycle :
      {r : Results} {now n : ℕ}
      → History unbounded width duration r now n
      → History unbounded width duration (cycle r) now n

record Inv (r : Results) (now n : ℕ) : Type 0 where
  safe : Safe (index r now) 0 r.slots
  counted : total_attempted r ≡ n
  not_empty : r.fixed ≡ true → 0 < length r.slots

length-seal_range :
    (width lo cur i : ℕ) (ss : List Slot) → length (seal_range width lo cur i ss) ≡ length ss
unfolding seal_range
length-seal_range width lo cur i [] = refl
length-seal_range width lo cur i (s ∷ ss) = ap suc (length-seal_range width lo cur (suc i) ss)

length-modify : (f : Slot → Slot) (k : ℕ) (ss : List Slot) → length (modify f k ss) ≡ length ss
length-modify f k [] = refl
length-modify f zero (s ∷ ss) = refl
length-modify f (suc k) (s ∷ ss) = ap suc (length-modify f k ss)

length-empty_slots : (n : ℕ) → length (empty_slots n) ≡ n
length-empty_slots zero = refl
length-empty_slots (suc n) = ap suc (length-empty_slots n)

start-Inv : (unbounded : Bool) (width duration : ℕ) → Inv (new_results unbounded width duration) 0 0
unfolding new_results buckets bucket_of index
start-Inv true width duration = record { safe = tt; counted = refl; not_empty = λ e. cc }
start-Inv false width duration = record {
  safe = append-Safe _ 0 10 [] tt;
  counted = refl;
  not_empty = λ e. omega arith;
}

index_mono : (r : Results) (a b : ℕ) → a ≤ b → index r a ≤ index r b
unfolding index
index_mono r a b h = ground (arith, div_mono a b r.width h)

length-advance :
    (r : Results) (offset : ℕ)
    → length (advance r offset).slots ≡ length r.slots + (suc (index r offset) - length r.slots)
unfolding advance
length-advance r offset =
    length-seal_range _ _ _ 0 (r.slots ++ empty_slots (suc (index r offset) - length r.slots))
    ∙ length-append r.slots _
    ∙ ap (λ k. length r.slots + k) (length-empty_slots _)

index-lt :
    (r : Results) (offset : ℕ)
    → r.fixed ≡ true
    → 0 < length r.slots
    → index r offset < length r.slots
unfolding index
index-lt r offset f h = ground arith

index-eq :
    (r t : Results) (offset : ℕ)
    → t.width ≡ r.width
    → t.fixed ≡ r.fixed
    → (r.fixed ≡ true → length t.slots ≡ length r.slots)
    → index t offset ≡ index r offset
unfolding index
index-eq r t offset w f l = elim (Bool-cases r.fixed) [
  | inl e ↦ ground (arith, l e)
  | inr e ↦ ground arith
]

index-advance :
    (r : Results) (offset : ℕ)
    → (r.fixed ≡ true → 0 < length r.slots)
    → index (advance r offset) offset ≡ index r offset
index-advance r offset h =
    index-eq r (advance r offset) offset (unfold advance in refl) (unfold advance in refl)
      λ e. omega (arith, length-advance r offset, index-lt r offset e (h e))

tick-Inv :
    (r : Results) (now offset n : ℕ) → now ≤ offset → Inv r now n → Inv (advance r offset) offset n
unfolding advance
tick-Inv r now offset n h v = record {
  safe = rw (index-advance r offset v.not_empty) (
      seal_range-Safe r.width r.first_open (index r now) (index r offset) 0 _
        (index_mono r now offset h) (append-Safe _ 0 _ r.slots v.safe));
  counted =
      unfold buckets in
      ap attempted_in (seal_range-buckets r.width r.first_open (index r offset) 0 _)
      ∙ append-attempted r.width 0 _ r.slots
      ∙ v.counted;
  not_empty = λ e. omega (arith, length-advance r offset, v.not_empty e);
}

modify-Inv :
    (f : Slot → Slot) (r : Results) (now n m k : ℕ)
    → Inv r now n
    → Safe (index r now) 0 (modify f k r.slots)
    → attempted_in (buckets_from r.width 0 (modify f k r.slots)) ≡ m
    → Inv (record r { slots = modify f k r.slots }) now m
modify-Inv f r now n m k v s e = record {
  safe =
      rw
        (index-eq r (record r { slots = modify f k r.slots }) now refl refl
          (λ _. length-modify f k r.slots))
        s;
  counted = unfold buckets in e;
  not_empty = λ x. omega (arith, v.not_empty x, length-modify f k r.slots);
}

History-Inv :
    (unbounded : Bool) (width duration : ℕ) {r : Results} {now n : ℕ}
    → History unbounded width duration r now n
    → Inv r now n
unfolding begin end add cycle buckets
History-Inv u w d start = start-Inv u w d
History-Inv u w d (tick offset h le) = tick-Inv _ _ offset _ le (History-Inv u w d h)
History-Inv u w d (launch {r = r} {now = now} {n = n} h) =
    let v = History-Inv u w d h in
    modify-Inv begin_slot r now n n _ v (begin-Safe _ 0 _ r.slots (omega arith) v.safe)
      (begin-attempted r.width 0 _ r.slots ∙ v.counted)
History-Inv u w d (record_outcome {r = r} {now = now} {n = n} o h busy) =
    let v = History-Inv u w d h in
    modify-Inv (add_to_slot o) r now n (suc n) _ v (add-Safe o _ 0 _ r.slots v.safe)
      (add-attempted o r.width _ 0 _ r.slots v.safe busy ∙ ap suc v.counted)
History-Inv u w d (finish {r = r} {now = now} {n = n} offset h busy) =
    let v = History-Inv u w d h in
    modify-Inv end_slot r now n n _ v (end-Safe _ 0 _ r.slots v.safe)
      (end-attempted r.width 0 _ r.slots ∙ v.counted)
History-Inv u w d (count_cycle {r = r} {now = now} h) =
    let v = History-Inv u w d h in
    record {
      safe = rw (index-eq r (record r { cycles = suc r.cycles }) now refl refl (λ _. refl)) v.safe;
      counted = v.counted;
      not_empty = v.not_empty;
    }

-- After any history in which the scheduler's offset never falls and outcomes are added to operations
-- in flight only, in a bounded run or an unbounded one, the attempts that all buckets report
-- together are as many as the outcomes that were added.
pub total_attempted-History :
    (unbounded : Bool) (width duration : ℕ) {r : Results} {now n : ℕ}
    → History unbounded width duration r now n
    → total_attempted r ≡ n
total_attempted-History u w d h = (History-Inv u w d h).counted
