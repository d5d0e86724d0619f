-- ===== src/Tests/Pressure.antt =====
-- Concrete inputs for the pressure engine (internal/pressure/engine.go): a run of one worker over two
-- stages, the second of which has an Enter; a mix of three operations; and a log of three samples.
use dizzy.Prelude.{
  pos-injective, invalid, String, ℕ, ◌<◌, ◌≡◌, ◌≢◌, ◌↔◌, ◌⊎◌, refl, Bool, true, false, ◌==◌, List,
  [], ◌∷◌, length, All, pos, arith, valid,
}
use dizzy.Metrics.Collector.{Sample, new_collector, collect, aggregate}
use dizzy.Metrics.Collector.Family.{feed}
use dizzy.Tests.Metrics.{plain}
use dizzy.Pressure.Config.{Stage, Config, validate, check_stages, saturated, stages_do_not_add_up}
use dizzy.Pressure.Config.Accepted.{IsRunnable, validate-IsRunnable}
use dizzy.Pressure.Picker.{Operation, validate_operations, total_weight, pick}
use dizzy.Pressure.Picker.Draws.{
  count_from, weight_at, draws-weight, Drawable, validate_operations-Drawable,
}
use dizzy.Pressure.Buckets.{new_buckets, snapshot}
use dizzy.Pressure.Buckets.Sliced.{record_all, samples, slices, snapshot-sliced}
use dizzy.Pressure.Stages.{
  Setup, System, checking, admitting, calling, put, admit, finish, slept, gathered, enter_stage,
  entered_stage, launch, check, admitted, finished, slept_until, all_gathered, move, pass,
  Reachable, starts_at, goes_on, initial, begin, admission, park_one, end_of, has_enter,
  window_start,
}
use dizzy.Pressure.Stages.Invariant.{Within}
use dizzy.Pressure.Stages.Quiet.{entering-quiet, recorded-Within}
use dizzy.Pressure.Stages.Deadlock.{Finished, CanMove, Reachable-CanMove}

abbrev stage : ℕ → Bool → Stage
stage d enter = record { duration = pos d; has_enter = enter }

abbrev two_stages : Setup
two_stages = record { cfg = stage 10 false ∷ stage 10 true ∷ []; workers = 1 }

-- The run, one step after the other.
abbrev begun : System
begun = enter_stage two_stages 0 (initial two_stages 0)

abbrev launched : System
launched = put two_stages 0 admitting (put two_stages 0 checking begun)

abbrev in_call : System
in_call = admit two_stages 0 (record launched { now = 3 })

abbrev sampled : System
sampled = put two_stages 0 admitting (finish two_stages 0 0 3 in_call)

abbrev past_window : System
past_window = record sampled { now = 10 }

abbrev all_waiting : System
all_waiting = admit two_stages 0 past_window

abbrev second_entry : System
second_entry = gathered two_stages 1 (slept two_stages 1 all_waiting)

launched-Reachable : Reachable two_stages launched
unfolding enter_stage begin end_of has_enter window_start
launched-Reachable =
    goes_on
      (goes_on (goes_on (starts_at 0) (move (entered_stage 0 refl)))
        (move (launch 0 (omega arith) refl (omega arith))))
      (move (check 0 (omega arith) refl))

in_call-Reachable : Reachable two_stages in_call
unfolding enter_stage begin end_of has_enter window_start
in_call-Reachable =
    goes_on (goes_on launched-Reachable (pass 3 (omega arith)))
      (move (admitted 0 (omega arith) refl))

sampled-Reachable : Reachable two_stages sampled
unfolding enter_stage begin end_of has_enter window_start admit admission finish
sampled-Reachable =
    goes_on (goes_on in_call-Reachable (move (finished 0 0 3 (omega arith) refl)))
      (move (check 0 (omega arith) refl))

past_window-Reachable : Reachable two_stages past_window
unfolding enter_stage begin end_of has_enter window_start admit admission finish
past_window-Reachable = goes_on sampled-Reachable (pass 10 (omega arith))

second_entry-Reachable : Reachable two_stages second_entry
unfolding enter_stage begin end_of has_enter window_start admit admission finish park_one slept
    gathered
second_entry-Reachable =
    goes_on
      (goes_on (goes_on past_window-Reachable (move (admitted 0 (omega arith) refl)))
        (move (slept_until 1 refl refl)))
      (move (all_gathered 1 refl refl))

entering-quiet_example : second_entry.workers 0 ≢ calling 0 3
unfolding enter_stage begin end_of has_enter window_start admit admission finish park_one slept
    gathered
entering-quiet_example =
    entering-quiet two_stages second_entry 1 0 0 3 second_entry-Reachable refl refl (omega arith)

recorded-Within_example :
    All (λ r. Within two_stages past_window.stages r.0 r.1) past_window.recorded
recorded-Within_example = recorded-Within two_stages past_window past_window-Reachable

Reachable-CanMove_example : Finished two_stages second_entry ⊎ CanMove two_stages second_entry
Reachable-CanMove_example =
    Reachable-CanMove two_stages second_entry (omega arith) (omega arith) second_entry-Reachable

abbrev operation : String → ℕ → Operation
operation name weight = record { name = name; weight = pos weight; has_do = true }

abbrev mix : List Operation
mix = operation "token" 3 ∷ operation "idle" 0 ∷ operation "list" 2 ∷ []

draws-weight_example : count_from (λ n. pick mix n == 2) 0 (total_weight mix) ≡ weight_at mix 2
draws-weight_example = draws-weight mix 2

validate_operations-Drawable_example :
    (validate_operations mix ≡ valid) ↔ ((0 < length mix) × Drawable [] 0 mix)
validate_operations-Drawable_example = validate_operations-Drawable mix

abbrev staged : Config
staged = record {
  duration = pos 20;
  unbounded = false;
  bucket_width = pos 0;
  workers = pos 1;
  op_timeout = pos 5;
  checkpoint_interval = pos 0;
  has_checkpoint = false;
  stages = two_stages.cfg;
}

validate-IsRunnable_example : (validate staged ≡ valid) ↔ IsRunnable staged
validate-IsRunnable_example =
    validate-IsRunnable staged (λ d e. let same = pos-injective e in omega (arith, same))

staged_run : validate staged ≡ valid
unfolding validate check_stages saturated
staged_run = refl

-- The second stage is a nanosecond short.
short_run :
    validate (record staged { stages = stage 10 false ∷ stage 9 true ∷ [] })
    ≡ invalid stages_do_not_add_up
unfolding validate check_stages saturated
short_run = refl

abbrev sample : String → ℕ → Bool → String → Sample
sample type d ok kind = record { type = type; duration = pos d; success = ok; err_kind = kind }

abbrev log : List (ℕ × Sample)
log =
    (5, sample "token" 2 true "")
    ∷ (25, sample "list" 4 false "timeout")
    ∷ (9, sample "token" 3 true "")
    ∷ []

snapshot-sliced_example :
    let b = new_buckets true 10 0 in
    let r = snapshot plain 30 (record_all plain log (b, λ _. new_collector plain)) in
    (r.0.operations ≡ aggregate plain 30 (feed (collect plain) (samples log) (new_collector plain)))
    × (r.0.buckets ≡ slices plain b 4 log)
snapshot-sliced_example =
    snapshot-sliced plain true 10 0 30 log (λ _. omega arith)
      (omega arith, (omega arith, (omega arith, tt)))
