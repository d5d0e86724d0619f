-- ===== src/Pressure/Stages/Deadlock.antt =====
-- A staged run never stands still (internal/pressure/engine.go).
use dizzy.Prelude.{
  ℕ, ◌+◌, ◌<◌, ◌≤◌, ◌≡◌, refl, subst, ◌⊎◌, inl, inr, Bool, true, false, ◌||◌, Bool-cases, ltb, leb,
  length, all_or_one, count_below_all, arith,
}
use dizzy.Pressure.Stages.{
  Setup, Worker, unstarted, checking, admitting, calling, waiting, stopped, Control, sleeping,
  gathering, entering, returned, System, window_start, Move, launch, check, admitted, finished,
  woken, slept_until, all_gathered, entered_stage, Reachable,
}
use dizzy.Pressure.Stages.Invariant.{is_settled, settled_at, ControlOk, WorkerOk, Inv}
use dizzy.Pressure.Stages.Invariant.Kept.{Reachable-Inv}
use dizzy.Pressure.Stages.Progress.{Parkable, ControlLive, Underway, Live, Reachable-Live}

-- Each worker of the run stopped, or none was started since the first stage was not entered.
abbrev pub Finished : Setup → System → Type 0
Finished run s =
    (s.control ≡ returned)
    × ((w : ℕ)
        → w < run.workers
        → (s.workers w ≡ stopped) ⊎ ((s.stages.entered ≡ 0) × (s.workers w ≡ unstarted)))

-- A worker or the controller can move, at once or when some time has passed.
abbrev pub CanMove : Setup → System → Type 0
CanMove run s =
    (later : ℕ) × (s.now ≤ later) × ((t : System) × Move run (record s { now = later }) t)

abbrev is_stopped : Worker → Bool
is_stopped unstarted = false
is_stopped checking = false
is_stopped admitting = false
is_stopped (calling i offset) = false
is_stopped (waiting g) = false
is_stopped stopped = true

stopped_iff : (x : Worker) → is_stopped x ≡ true → x ≡ stopped
stopped_iff unstarted h = cc
stopped_iff checking h = cc
stopped_iff admitting h = cc
stopped_iff (calling i offset) h = cc
stopped_iff (waiting g) h = cc
stopped_iff stopped h = refl

-- The worker is in a select that nothing has ended.
abbrev Stuck : System → Worker → Type 0
Stuck s (waiting g) = (s.done || ltb g s.stages.generation) ≡ false
Stuck s stopped = Unit
Stuck s x = ⊥

module _ (run : Setup) (s : System) where
  at_once : (t : System) → Move run s t → CanMove run s
  at_once t m = (s.now, omega arith, (t, m))

  moved_or_Stuck :
      (w : ℕ) (x : Worker)
      → w < run.workers
      → 0 < s.stages.entered
      → s.workers w ≡ x
      → CanMove run s ⊎ Stuck s x
  moved_or_Stuck w unstarted lt ok e = inl (at_once _ (launch w lt e ok))
  moved_or_Stuck w checking lt ok e = inl (at_once _ (check w lt e))
  moved_or_Stuck w admitting lt ok e = inl (at_once _ (admitted w lt e))
  moved_or_Stuck w (calling i offset) lt ok e = inl (at_once _ (finished w i offset lt e))
  moved_or_Stuck w (waiting g) lt ok e = elim (Bool-cases (s.done || ltb g s.stages.generation)) [
    | inl h ↦ inl (at_once _ (woken w g lt e h))
    | inr h ↦ inr h
  ]
  moved_or_Stuck w stopped lt ok e = inr tt

  Stuck-settled :
      (x : Worker)
      → WorkerOk run s.stages x
      → Stuck s x
      → is_settled s.done s.stages.generation x ≡ true
  Stuck-settled unstarted ok h = absurd h
  Stuck-settled checking ok h = absurd h
  Stuck-settled admitting ok h = absurd h
  Stuck-settled (calling i offset) ok h = absurd h
  Stuck-settled (waiting g) ok h = ground (arith, ok.1, h)
  Stuck-settled stopped ok h = refl

  Stuck-returned :
      Live run s
      → s.control ≡ returned
      → (x : Worker) → Parkable run x
      → Stuck s x
      → is_stopped x ≡ true
  Stuck-returned live e unstarted ok h = absurd h
  Stuck-returned live e checking ok h = absurd h
  Stuck-returned live e admitting ok h = absurd h
  Stuck-returned live e (calling i offset) ok h = absurd h
  Stuck-returned live e (waiting g) ok h =
      elim (subst (ControlLive run s.done s.stages.entered) e live.control) [
        | inl d ↦ absurd (ground (arith, d, h))
        | inr last ↦ absurd (ground (arith, last, h, ok, live.numbered))
      ]
  Stuck-returned live e stopped ok h = refl

  gathering-moves : (i : ℕ) → Inv run s → Live run s → s.control ≡ gathering i → CanMove run s
  gathering-moves i inv live e =
      let ok = subst (ControlOk run s.stages s.now) e inv.control in
      let more : i < length run.cfg =
        subst (ControlLive run s.done s.stages.entered) e live.control in
      elim (Bool-cases (s.done || s.stages.all_parked)) [
        | inl h ↦ at_once _ (all_gathered i e h)
        | inr h ↦
            let underway : Underway run s = (ground (arith, h), omega (arith, more, ok.0)) in
            elim (all_or_one (settled_at s) run.workers) [
              | inl all ↦
                  let full : run.workers ≤ s.stages.parked = omega (
                    arith,
                    count_below_all (settled_at s) run.workers all,
                    live.counted underway,
                  ) in
                  absurd (ground (arith, live.flagged full, h))
              | inr (w, lt, unsettled) ↦
                  elim (moved_or_Stuck w (s.workers w) lt (omega (arith, ok.0, ok.1)) refl) [
                    | inl m ↦ m
                    | inr stuck ↦
                        absurd
                          (cc (Stuck-settled (s.workers w) (inv.workers w lt) stuck, unsettled))
                  ]
            ]
      ]

  returned-moves : Inv run s → Live run s → s.control ≡ returned → Finished run s ⊎ CanMove run s
  returned-moves inv live e = elim (Bool-cases (ltb 0 s.stages.entered)) [
    | inr none ↦
        let zero : s.stages.entered ≡ 0 = ground arith in
        inl (e, λ w lt. inr (zero, inv.unlaunched zero w lt))
    | inl some ↦ elim (all_or_one (λ w. is_stopped (s.workers w)) run.workers) [
      | inl all ↦ inl (e, λ w lt. inl (stopped_iff (s.workers w) (all w lt)))
      | inr (w, lt, awake) ↦ elim (moved_or_Stuck w (s.workers w) lt (ground arith) refl) [
        | inl m ↦ inr m
        | inr stuck ↦
            absurd (cc (Stuck-returned live e (s.workers w) (live.parkable w) stuck, awake))
      ]
    ]
  ]

  control-moves :
      (c : Control) → Inv run s → Live run s → s.control ≡ c → Finished run s ⊎ CanMove run s
  control-moves (sleeping i) inv live e =
      let later : ℕ = s.now + window_start run i in
      let opened : leb (window_start run i) later ≡ true = ground arith in
      let over : (s.done || leb (window_start run i) later) ≡ true = ground (arith, opened) in
      inr (later, omega arith, (_, slept_until i e over))
  control-moves (gathering i) inv live e = inr (gathering-moves i inv live e)
  control-moves (entering i) inv live e = inr (at_once _ (entered_stage i e))
  control-moves returned inv live e = returned-moves inv live e

-- A staged run of at least one worker and one stage does not deadlock: from whatever state its
-- workers, its controller and its end can bring it to, either the controller has returned and each
-- worker has stopped, or was never started since no stage was entered; or the controller or a
-- worker can take a step, at once or after some time.
pub Reachable-CanMove :
    (run : Setup) (s : System)
    → 0 < run.workers
    → 0 < length run.cfg
    → Reachable run s
    → Finished run s ⊎ CanMove run s
Reachable-CanMove run s some staged r =
    control-moves run s s.control (Reachable-Inv run s r) (Reachable-Live run some staged s r) refl
