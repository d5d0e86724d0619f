-- ===== src/Pressure/Stages/Invariant/Controller.antt =====
-- The invariant over the steps of the controller, the clock and the run's end
-- (internal/pressure/engine.go).
use dizzy.Prelude.{
  ℕ, suc, ◌≤◌, ◌≡◌, refl, subst, inl, inr, Bool, true, false, ◌||◌, if◌then◌else◌, if_both,
  if_cases, Bool-cases, ltb, leb, leb→le, ◌==◌, ==_iff, All-weaken, length, count_below_mono, arith,
}
use dizzy.Pressure.Stages.{
  Setup, Stages, Worker, unstarted, checking, admitting, calling, waiting, stopped, Control,
  sleeping, gathering, entering, returned, System, end_of, has_enter, window_start, begin, slept,
  gathered, enter_stage, fail_stage,
}
use dizzy.Pressure.Stages.Invariant.{is_settled, Within, WorkerOk, ControlOk, Inv}

module _ (run : Setup) where
  WorkerOk-begin :
      (st : Stages) (i now : ℕ) (w : Worker)
      → i ≡ st.entered
      → WorkerOk run st w
      → WorkerOk run (begin run i now st) w
  unfolding begin
  WorkerOk-begin st i now unstarted e h = tt
  WorkerOk-begin st i now checking e h = omega arith
  WorkerOk-begin st i now admitting e h = omega arith
  WorkerOk-begin st i now (calling k offset) e h = (
    omega (arith, h.0),
    let other : (i == k) ≡ false = ground (arith, e, h.0) in rw other h.1,
    h.2,
  )
  WorkerOk-begin st i now (waiting g) e h = (omega arith, omega (arith, h.1))
  WorkerOk-begin st i now stopped e h = omega arith

  module _ (s : System) (inv : Inv run s) where
    control-Inv :
        (c : Control) → ControlOk run s.stages s.now c → Inv run (record s { control = c })
    control-Inv c ok = record {
      workers = inv.workers;
      control = ok;
      parked = inv.parked;
      released = inv.released;
      full = inv.full;
      begun = inv.begun;
      recorded = inv.recorded;
      unlaunched = inv.unlaunched;
    }

    is_settled-done :
        (g : ℕ) (w : Worker) (b : Bool) → is_settled b g w ≡ true → is_settled true g w ≡ true
    is_settled-done g unstarted b h = h
    is_settled-done g checking b h = refl
    is_settled-done g admitting b h = h
    is_settled-done g (calling i offset) b h = h
    is_settled-done g (waiting k) b h = h
    is_settled-done g stopped b h = h

    pub end_run-Inv : Inv run (record s { done = true })
    end_run-Inv =
        let g = s.stages.generation in
        record {
          workers = inv.workers;
          control = inv.control;
          parked = omega (
            arith,
            inv.parked,
            count_below_mono (λ j. is_settled s.done g (s.workers j))
                (λ j. is_settled true g (s.workers j)) run.workers
                (λ j l. is_settled-done g (s.workers j) s.done),
          );
          released = inv.released;
          full = inv.full;
          begun = inv.begun;
          recorded = inv.recorded;
          unlaunched = inv.unlaunched;
        }

    ControlOk-later :
        (now : ℕ) (c : Control)
        → s.now ≤ now
        → ControlOk run s.stages s.now c
        → ControlOk run s.stages now c
    ControlOk-later now (sleeping i) le h = h
    ControlOk-later now (gathering i) le h = (h.0, h.1, omega (arith, h.2, le))
    ControlOk-later now (entering i) le h = (h.0, h.1, omega (arith, h.2, le))
    ControlOk-later now returned le h = h

    pub pass-Inv : (later : ℕ) → s.now ≤ later → Inv run (record s { now = later })
    pass-Inv later le = record {
      workers = inv.workers;
      control = ControlOk-later later s.control le inv.control;
      parked = inv.parked;
      released = omega (arith, inv.released, le);
      full = inv.full;
      begun = λ i lt. (omega (arith, (inv.begun i lt).0, le), (inv.begun i lt).1);
      recorded = inv.recorded;
      unlaunched = inv.unlaunched;
    }

    pub slept-Inv :
        (i : ℕ)
        → s.control ≡ sleeping i
        → (s.done || leb (window_start run i) s.now) ≡ true
        → Inv run (slept run i s)
    unfolding slept
    slept-Inv i e h =
        let ok = subst (ControlOk run s.stages s.now) e inv.control in
        if_cases (λ c. Inv run (record s { control = c })) s.done (λ _. control-Inv returned tt)
          (λ live.
            let opened : window_start run i ≤ s.now =
              leb→le (window_start run i) s.now
                (subst (λ b. (b || leb (window_start run i) s.now) ≡ true) live h) in
            if_cases (λ c. Inv run (record s { control = c })) (has_enter run i)
              (λ has. control-Inv (gathering i) (ok.0, ok.1, opened))
              (λ none. control-Inv (entering i) (ok.0, λ _ b. cc (none, b), opened)))

    pub gathered-Inv :
        (i : ℕ)
        → s.control ≡ gathering i
        → (s.done || s.stages.all_parked) ≡ true
        → Inv run (gathered run i s)
    unfolding gathered
    gathered-Inv i e h =
        let ok = subst (ControlOk run s.stages s.now) e inv.control in
        if_cases (λ c. Inv run (record s { control = c })) s.done (λ _. control-Inv returned tt)
          (λ live.
            let all : s.stages.all_parked ≡ true =
              subst (λ b. (b || s.stages.all_parked) ≡ true) live h in
            control-Inv (entering i) (ok.0, λ _ _. all, ok.2))

    begin-start :
        (i : ℕ)
        → window_start run i ≤ s.now
        → ((begin run i s.now s.stages).starts i ≤ s.now)
          × ((begin run i s.now s.stages).starts i ≤ end_of run i)
    unfolding begin
    begin-start i opened =
        let here : (i == i) ≡ true = ground arith in
        let floor =
          if ltb (window_start run i) s.stages.released
          then s.stages.released
          else window_start run i in
        let start = if has_enter run i then s.now else floor in
        let floor_le : floor ≤ s.now =
          if_both (λ x. x ≤ s.now) (ltb (window_start run i) s.stages.released) inv.released
            opened in
        let start_le : start ≤ s.now =
          if_both (λ x. x ≤ s.now) (has_enter run i) (omega arith) floor_le in
        rw here (elim (Bool-cases (leb (end_of run i) start)) [
          | inl past ↦
              rw past (omega (arith, start_le, leb→le (end_of run i) start past), omega arith)
          | inr inside ↦ rw inside (start_le, ground arith)
        ])

    pub enter_stage-Inv : (i : ℕ) → s.control ≡ entering i → Inv run (enter_stage run i s)
    unfolding enter_stage begin
    enter_stage-Inv i e =
        let ok = subst (ControlOk run s.stages s.now) e inv.control in
        record {
          workers = λ j l. WorkerOk-begin s.stages i s.now (s.workers j) ok.0 (inv.workers j l);
          control =
              if_both (ControlOk run (begin run i s.now s.stages) s.now) (suc i == length run.cfg)
                tt (refl, omega arith);
          parked = omega arith;
          released = omega arith;
          full = λ z. cc;
          begun = λ k lt. elim (Bool-cases (i == k)) [
            | inl e ↦
                subst
                  (λ k.
                    ((begin run i s.now s.stages).starts k ≤ s.now)
                    × ((begin run i s.now s.stages).starts k ≤ end_of run k))
                  ((==_iff i k).0 e) (begin-start i ok.2)
            | inr e ↦ rw e (inv.begun k (ground arith))
          ];
          recorded =
              All-weaken (λ r. Within run s.stages r.0 r.1)
                (λ r. Within run (begin run i s.now s.stages) r.0 r.1)
                (λ r. WorkerOk-begin s.stages i s.now (calling r.0 r.1) ok.0) s.recorded
                inv.recorded;
          unlaunched = λ z. absurd (omega (arith, z));
        }

    pub fail_stage-Inv : Inv run (fail_stage run s)
    unfolding fail_stage
    fail_stage-Inv =
        let over = end_run-Inv in
        record {
          workers = over.workers;
          control = tt;
          parked = over.parked;
          released = over.released;
          full = over.full;
          begun = over.begun;
          recorded = over.recorded;
          unlaunched = over.unlaunched;
        }
