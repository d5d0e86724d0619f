-- ===== src/Tests/Results.antt =====
-- The time buckets of a bounded run, and the latency of a few durations.
use dizzy.Prelude.{ℕ, ◌≡◌, false, List, [], ◌∷◌, arith}
use dizzy.Churn.Results.{Outcome, Results, new_results, advance, begin, add, index}
use dizzy.Churn.Results.Sealing.{total_attempted}
use dizzy.Churn.Results.History.{History, total_attempted-History}

abbrev slow : Outcome
slow = record { offset = 5; latency = 7; success = false; err_kind = "timeout" }

-- One operation is begun in the first bucket, and its outcome arrives two buckets later.
late : Results
late = add (advance (begin (advance (new_results false 0 100) 5) 5) 25) slow

late-History : History false 0 100 late 25 1
unfolding late
late-History =
    History.record_outcome slow
      (History.tick 25 (History.launch (History.tick 5 History.start (omega arith))) (omega arith))
      (unfold advance begin new_results index in omega arith)

total_attempted-History_example : total_attempted late ≡ 1
total_attempted-History_example = total_attempted-History false 0 100 late-History

abbrev durations : List ℕ
durations = 30 ∷ 10 ∷ 50 ∷ 20 ∷ 40 ∷ []
