-- ===== src/Pressure/Stages/Invariant.antt =====
-- What holds of a staged run whatever its workers and its controller do (internal/pressure/engine.go).
pub mod Workers
pub mod Controller
pub mod Kept
use dizzy.Prelude.{
  ℕ, zero, suc, ◌+◌, ◌-◌, ◌<◌, ◌≤◌, ◌≡◌, refl, sym, subst, ◌⊎◌, inl, inr, Bool, true, false, ◌||◌,
  if◌then◌else◌, if_both, if_cases, Bool-cases, ltb, ltb→lt, leb, leb→le, ◌==◌, ==_iff, List, [],
  ◌∷◌, All, All-weaken, length, update, count_below, count_below_mono, count_below-more, arith,
}
use dizzy.Pressure.Stages.{
  Setup, Stages, Worker, unstarted, checking, admitting, calling, waiting, stopped, Control,
  sleeping, gathering, entering, returned, System, new_stages, end_of, has_enter, window_start,
  admission, park_one, begin, put, admit, finish, slept, gathered, enter_stage, fail_stage, Move,
  launch, check, admitted, finished, woken, slept_until, all_gathered, entered_stage, failed_stage,
  Step, move, pass, end_run, initial, Reachable, starts_at, goes_on,
}

-- The worker draws nothing more before the next generation.
abbrev pub is_settled : Bool → ℕ → Worker → Bool
is_settled done g unstarted = false
is_settled done g checking = done
is_settled done g admitting = false
is_settled done g (calling i offset) = false
is_settled done g (waiting h) = h == g
is_settled done g stopped = true

abbrev pub settled_at : System → ℕ → Bool
settled_at s w = is_settled s.done s.stages.generation (s.workers w)

module _ (run : Setup) where
  -- An operation of stage `i` at `offset` lies in the part of the window that the stage reports.
  abbrev pub Within : Stages → ℕ → ℕ → Type 0
  Within s i offset = (i < s.entered) × (s.starts i ≤ offset) × (offset < end_of run i)

  abbrev pub WorkerOk : Stages → Worker → Type 0
  WorkerOk s unstarted = Unit
  WorkerOk s checking = 0 < s.entered
  WorkerOk s admitting = 0 < s.entered
  WorkerOk s (calling i offset) = Within s i offset
  WorkerOk s (waiting g) = (0 < s.entered) × (g ≤ s.generation)
  WorkerOk s stopped = 0 < s.entered

  abbrev pub ControlOk : Stages → ℕ → Control → Type 0
  ControlOk s now (sleeping i) = (i ≡ s.entered) × (0 < i)
  ControlOk s now (gathering i) = (i ≡ s.entered) × (0 < i) × (window_start run i ≤ now)
  ControlOk s now (entering i) =
      (i ≡ s.entered)
      × ((0 < i) → has_enter run i ≡ true → s.all_parked ≡ true)
      × (window_start run i ≤ now)
  ControlOk s now returned = Unit

  pub record Inv (s : System) : Type 0 where
    pub workers : (w : ℕ) → w < run.workers → WorkerOk s.stages (s.workers w)
    pub control : ControlOk s.stages s.now s.control
    pub parked : s.stages.parked ≤ count_below (settled_at s) run.workers
    pub released : s.stages.released ≤ s.now
    pub full : s.stages.all_parked ≡ true → run.workers ≤ s.stages.parked
    pub begun :
        (i : ℕ)
        → i < s.stages.entered
        → (s.stages.starts i ≤ s.now) × (s.stages.starts i ≤ end_of run i)
    pub recorded : All (λ r. Within s.stages r.0 r.1) s.recorded
    pub unlaunched : s.stages.entered ≡ 0 → (w : ℕ) → w < run.workers → s.workers w ≡ unstarted
