-- ===== src/Pressure/Stages.antt =====
-- A staged run: `stages`, `work`, `control` and `enterStage` (internal/pressure/engine.go). Every
-- offset is a number of nanoseconds since the engine's start.
pub mod Invariant
pub mod Quiet
pub mod Progress
pub mod Deadlock
use dizzy.Prelude.{
  ℕ, zero, suc, ◌+◌, ◌-◌, ◌<◌, ◌≤◌, ◌≡◌, Bool, true, false, ◌||◌, if◌then◌else◌, ltb, leb, ◌==◌,
  List, [], ◌∷◌, length, get_or, update, pos, negsuc,
}
use dizzy.Pressure.Config.{Stage}

-- `Enter` of a stage is the cloud's: when it returns, and with what, is a step's choice.
pub record Setup : Type 0 where
  pub cfg : List Stage
  pub workers : ℕ

-- The ends of the windows and the number of workers are those of the setup, and the samples of the
-- collectors are `recorded` in the system. `generation` counts the channels made: `resume` of an earlier generation is closed, and
-- `all_parked` says whether the present `allParked` is.
pub record Stages : Type 0 where
  pub entered : ℕ
  pub starts : ℕ → ℕ
  pub released : ℕ
  pub parked : ℕ
  pub all_parked : Bool
  pub generation : ℕ

pub data Admission : Type 0 where
  drawn : ℕ → Admission
  past_last : Admission
  park : Admission

-- Where a worker's goroutine stands: `checking` reads `runCtx.Err()`, `admitting` is before the
-- lock, `waiting` is in the select on the `resume` of a generation.
pub data Worker : Type 0 where
  unstarted : Worker
  checking : Worker
  admitting : Worker
  calling : ℕ → ℕ → Worker
  waiting : ℕ → Worker
  stopped : Worker

-- Where the controller stands with stage `i`; `Run` itself enters the first.
pub data Control : Type 0 where
  sleeping : ℕ → Control
  gathering : ℕ → Control
  entering : ℕ → Control
  returned : Control

-- `recorded` is what the stages' collectors were given: the stage and the offset of each sample.
pub record System : Type 0 where
  pub now : ℕ
  pub done : Bool
  pub stages : Stages
  pub workers : ℕ → Worker
  pub control : Control
  pub recorded : List (ℕ × ℕ)

-- The loop of `newStages`, for durations whose sum is a time.Duration.
abbrev pub window_ends : ℕ → List Stage → List ℕ
window_ends end [] = []
window_ends end (st ∷ cfg) =
    let end' : ℕ = elim st.duration [ pos d ↦ end + d | negsuc d ↦ end ] in
    end' ∷ window_ends end' cfg

abbrev enter_at : List Stage → ℕ → Bool
enter_at [] i = false
enter_at (st ∷ cfg) zero = st.has_enter
enter_at (st ∷ cfg) (suc i) = enter_at cfg i

abbrev pub new_stages : Stages
new_stages = record {
  entered = 0;
  starts = λ _. 0;
  released = 0;
  parked = 0;
  all_parked = false;
  generation = 0;
}

module _ (run : Setup) where
  unfoldable pub end_of : ℕ → ℕ
  end_of i = get_or (window_ends 0 run.cfg) i 0

  unfoldable pub has_enter : ℕ → Bool
  has_enter i = enter_at run.cfg i

  unfoldable pub window_start : ℕ → ℕ
  window_start zero = 0
  window_start (suc i) = end_of i

  -- `admit` under the lock: what becomes of a worker at this offset.
  unfoldable pub admission : Stages → ℕ → Admission
  admission s offset =
      let cur = s.entered - 1 in
      if ltb offset (end_of cur)
      then drawn cur
      else (if suc cur == length run.cfg then past_last else park)

  unfoldable pub park_one : Stages → Stages
  park_one s = record s {
    parked = suc s.parked;
    all_parked = if suc s.parked == run.workers then true else s.all_parked;
  }

  -- `begin`, where `offset` is when it runs; the caller reads it just before the lock.
  unfoldable pub begin : ℕ → ℕ → Stages → Stages
  begin i offset s =
      let floor = if ltb (window_start i) s.released then s.released else window_start i in
      let start = if has_enter i then offset else floor in
      record s {
        entered = suc i;
        starts = update s.starts i (if leb (end_of i) start then end_of i else start);
        released = offset;
        parked = 0;
        all_parked = false;
        generation = suc s.generation;
      }

  -- `snapshot` of the stages: the start and the end of stage `i`, where `elapsed` is the offset now.
  unfoldable pub stage_result : Stages → ℕ → ℕ → ℕ × ℕ
  stage_result s elapsed i = (s.starts i, if ltb (end_of i) elapsed then end_of i else elapsed)

  abbrev pub put : ℕ → Worker → System → System
  put w x s = record s { workers = update s.workers w x }

  -- `admit` of worker `w`: it draws, stops, or parks.
  unfoldable pub admit : ℕ → System → System
  admit w s = elim (admission s.stages s.now) [
    | drawn i ↦ put w (calling i s.now) s
    | past_last ↦ put w stopped s
    | park ↦ record s {
      stages = park_one s.stages;
      workers = update s.workers w (waiting s.stages.generation);
    }
  ]

  -- The call returned, and its sample is recorded.
  unfoldable pub finish : ℕ → ℕ → ℕ → System → System
  finish w i offset s = record s {
    workers = update s.workers w checking;
    recorded = (i, offset) ∷ s.recorded;
  }

  -- `sleepUntil` returned.
  unfoldable pub slept : ℕ → System → System
  slept i s = record s {
    control = if s.done then returned else (if has_enter i then gathering i else entering i);
  }

  -- `waitParked` returned.
  unfoldable pub gathered : ℕ → System → System
  gathered i s = record s { control = if s.done then returned else entering i }

  -- `enterStage` where `Enter` succeeded or there is none.
  unfoldable pub enter_stage : ℕ → System → System
  enter_stage i s = record s {
    stages = begin i s.now s.stages;
    control = if suc i == length run.cfg then returned else sleeping (suc i);
  }

  -- `enterStage` where `Enter` failed.
  unfoldable pub fail_stage : System → System
  fail_stage s = record s { done = true; control = returned }

  -- One step of a worker or of the controller.
  pub data Move (s : System) : System → Type 0 where
    launch :
        (w : ℕ)
        → w < run.workers
        → s.workers w ≡ unstarted
        → 0 < s.stages.entered
        → Move s (put w checking s)
    check :
        (w : ℕ)
        → w < run.workers
        → s.workers w ≡ checking
        → Move s (put w (if s.done then stopped else admitting) s)
    admitted : (w : ℕ) → w < run.workers → s.workers w ≡ admitting → Move s (admit w s)
    finished :
        (w i offset : ℕ)
        → w < run.workers
        → s.workers w ≡ calling i offset
        → Move s (finish w i offset s)
    woken :
        (w g : ℕ)
        → w < run.workers
        → s.workers w ≡ waiting g
        → (s.done || ltb g s.stages.generation) ≡ true
        → Move s (put w checking s)
    slept_until :
        (i : ℕ)
        → s.control ≡ sleeping i
        → (s.done || leb (window_start i) s.now) ≡ true
        → Move s (slept i s)
    all_gathered :
        (i : ℕ)
        → s.control ≡ gathering i
        → (s.done || s.stages.all_parked) ≡ true
        → Move s (gathered i s)
    entered_stage : (i : ℕ) → s.control ≡ entering i → Move s (enter_stage i s)
    failed_stage : (i : ℕ) → s.control ≡ entering i → has_enter i ≡ true → Move s (fail_stage s)

  pub data Step (s : System) : System → Type 0 where
    move : {t : System} → Move s t → Step s t
    pass : (later : ℕ) → s.now ≤ later → Step s (record s { now = later })
    end_run : Step s (record s { done = true })

  -- Before the first stage is entered.
  abbrev pub initial : ℕ → System
  initial now = record {
    now = now;
    done = false;
    stages = new_stages;
    workers = λ _. unstarted;
    control = entering 0;
    recorded = [];
  }

  pub data Reachable : System → Type 0 where
    starts_at : (now : ℕ) → Reachable (initial now)
    goes_on : {s t : System} → Reachable s → Step s t → Reachable t
