-- ===== src/Pressure/Stages/Progress.antt =====
-- What keeps a staged run from standing still (internal/pressure/engine.go).
use dizzy.Prelude.{
  ℕ, suc, ◌-◌, ◌<◌, ◌≤◌, ◌≡◌, ◌≢◌, refl, sym, subst, ◌⊎◌, inl, inr, Bool, true, false,
  if◌then◌else◌, if_both, if_cases, Bool-cases, ltb, ◌==◌, ==_iff, length, update, count_below,
  count_below_mono, count_below-set, count_below_none, arith,
}
use dizzy.Pressure.Stages.{
  Setup, Stages, Worker, unstarted, checking, admitting, calling, waiting, stopped, Control,
  sleeping, gathering, entering, returned, System, end_of, has_enter, admission, park_one, begin,
  put, admit, finish, slept, gathered, enter_stage, fail_stage, Move, launch, check, admitted,
  finished, woken, slept_until, all_gathered, entered_stage, failed_stage, Step, move, pass,
  end_run, initial, Reachable, starts_at, goes_on,
}
use dizzy.Pressure.Stages.Invariant.{is_settled, settled_at, ControlOk, WorkerOk, Inv}
use dizzy.Pressure.Stages.Invariant.Kept.{Reachable-Inv}

module _ (run : Setup) where
  -- A worker parks before the last stage only.
  abbrev pub Parkable : Worker → Type 0
  Parkable unstarted = Unit
  Parkable checking = Unit
  Parkable admitting = Unit
  Parkable (calling i offset) = Unit
  Parkable (waiting g) = g < length run.cfg
  Parkable stopped = Unit

  abbrev pub ControlLive : Bool → ℕ → Control → Type 0
  ControlLive done entered (sleeping i) = i < length run.cfg
  ControlLive done entered (gathering i) = i < length run.cfg
  ControlLive done entered (entering i) = i < length run.cfg
  ControlLive done entered returned = (done ≡ true) ⊎ (entered ≡ length run.cfg)

  abbrev pub Underway : System → Type 0
  Underway s = (s.done ≡ false) × (s.stages.entered < length run.cfg)

  pub record Live (s : System) : Type 0 where
    pub numbered : s.stages.generation ≡ s.stages.entered
    pub within : s.stages.entered ≤ length run.cfg
    pub parkable : (w : ℕ) → Parkable (s.workers w)
    pub control : ControlLive s.done s.stages.entered s.control
    pub flagged : run.workers ≤ s.stages.parked → s.stages.all_parked ≡ true
    pub counted : Underway s → count_below (settled_at s) run.workers ≤ s.stages.parked
    pub running : Underway s → (w : ℕ) → s.workers w ≢ stopped

  module _ (s : System) (live : Live s) where
    put-Live :
        (w : ℕ) (x : Worker)
        → Parkable x
        → (Underway s → is_settled false s.stages.generation x ≡ false)
        → Live (put run w x s)
    put-Live w x ok h = record {
      numbered = live.numbered;
      within = live.within;
      parkable = λ j. if_both Parkable (w == j) ok (live.parkable j);
      control = live.control;
      flagged = live.flagged;
      counted = λ u. omega (
        arith,
        live.counted u,
        count_below_mono (settled_at (put run w x s)) (settled_at s) run.workers (λ j l.
            if_cases (λ y. is_settled s.done s.stages.generation y ≡ true → settled_at s j ≡ true)
              (w == j)
              (λ _ b.
                absurd (cc (h u, subst (λ d. is_settled d s.stages.generation x ≡ true) u.0 b)))
              (λ _ b. b)),
      );
      running = λ u j.
          if_cases (λ y. y ≢ stopped) (w == j)
            (λ _ e. cc (subst (λ y. is_settled false s.stages.generation y ≡ false) e (h u)))
            (λ _. live.running u j);
    }

    park-Live :
        (w : ℕ)
        → s.workers w ≡ admitting
        → w < run.workers
        → s.stages.entered < length run.cfg
        → Live (record s {
          stages = park_one run s.stages;
          workers = update s.workers w (waiting s.stages.generation);
        })
    unfolding park_one
    park-Live w e lt more = record {
      numbered = live.numbered;
      within = live.within;
      parkable =
          λ j. if_both Parkable (w == j) (omega (arith, live.numbered, more)) (live.parkable j);
      control = live.control;
      flagged = λ z.
          if_cases (λ b. b ≡ true) (suc s.stages.parked == run.workers) (λ _. refl)
            (λ more. live.flagged (ground arith));
      counted = λ u.
          let t : System = record s {
            stages = park_one run s.stages;
            workers = update s.workers w (waiting s.stages.generation);
          } in
          let unsettled : settled_at s w ≡ false = rw e refl in
          omega (
            arith,
            live.counted u,
            count_below-set (settled_at s) w run.workers unsettled lt,
            count_below_mono (settled_at t) (update (settled_at s) w true) run.workers (λ j l.
                elim (Bool-cases (w == j)) [
                  | inl here ↦ rw here (λ _. refl)
                  | inr other ↦ rw other (λ b. b)
                ]),
          );
      running = λ u j. if_cases (λ y. y ≢ stopped) (w == j) (λ _ y. cc y) (λ _. live.running u j);
    }

    admit-Live :
        (w : ℕ)
        → s.workers w ≡ admitting
        → w < run.workers
        → 0 < s.stages.entered
        → Live (admit run w s)
    unfolding admit admission
    admit-Live w e lt ok = elim (Bool-cases (ltb s.now (end_of run (s.stages.entered - 1)))) [
      | inl inside ↦
          rw (inside, admit, admission)
            (put-Live w (calling (s.stages.entered - 1) s.now) tt (λ _. refl))
      | inr past ↦ elim (Bool-cases (suc (s.stages.entered - 1) == length run.cfg)) [
        | inl last ↦
            rw (past, last, admit, admission)
              (put-Live w stopped tt (λ u. absurd (ground (arith, u.1))))
        | inr more ↦
            rw (past, more, admit, admission) (park-Live w e lt (ground (arith, live.within)))
      ]
    ]

  Live-control :
      (s : System) (c : Control)
      → Live s
      → ControlLive s.done s.stages.entered c
      → Live (record s { control = c })
  Live-control s c live ok = record {
    numbered = live.numbered;
    within = live.within;
    parkable = live.parkable;
    control = ok;
    flagged = live.flagged;
    counted = live.counted;
    running = live.running;
  }

  ControlLive-done :
      (b : Bool) (entered : ℕ) (c : Control) → ControlLive b entered c → ControlLive true entered c
  ControlLive-done b entered (sleeping i) h = h
  ControlLive-done b entered (gathering i) h = h
  ControlLive-done b entered (entering i) h = h
  ControlLive-done b entered returned h = inl refl

  Live-over : (s : System) → Live s → Live (record s { done = true })
  Live-over s live = record {
    numbered = live.numbered;
    within = live.within;
    parkable = live.parkable;
    control = ControlLive-done s.done s.stages.entered s.control live.control;
    flagged = live.flagged;
    counted = λ u. cc u.0;
    running = λ u. cc u.0;
  }

  unsettled_anew :
      (st : Stages) (x : Worker)
      → WorkerOk run st x
      → x ≢ stopped
      → is_settled false (suc st.generation) x ≡ false
  unsettled_anew st unstarted ok h = refl
  unsettled_anew st checking ok h = refl
  unsettled_anew st admitting ok h = refl
  unsettled_anew st (calling i offset) ok h = refl
  unsettled_anew st (waiting g) ok h = ground (arith, ok.1)
  unsettled_anew st stopped ok h = absurd (h refl)

  enter_stage-Live :
      (s : System) (i : ℕ)
      → 0 < run.workers
      → Inv run s
      → Live s
      → s.control ≡ entering i
      → Live (enter_stage run i s)
  unfolding enter_stage begin
  enter_stage-Live s i some inv live e =
      let ok = subst (ControlOk run s.stages s.now) e inv.control in
      let more : i < length run.cfg = subst (ControlLive s.done s.stages.entered) e live.control in
      record {
        numbered = omega (arith, live.numbered, ok.0);
        within = omega (arith, more);
        parkable = live.parkable;
        control =
            if_cases (ControlLive s.done (suc i)) (suc i == length run.cfg)
              (λ b. inr ((==_iff (suc i) (length run.cfg)).0 b)) (λ b. ground arith);
        flagged = λ z. absurd (omega (arith, z, some));
        counted = λ u. omega (
          arith,
          count_below_none (settled_at (enter_stage run i s)) run.workers (λ j l.
              let over = live.running (u.0, omega (arith, more, ok.0)) j in
              subst (λ d. is_settled d (suc s.stages.generation) (s.workers j) ≡ false) (sym u.0)
                (unsettled_anew s.stages (s.workers j) (inv.workers j l) over)),
        );
        running = λ u. live.running (u.0, omega (arith, more, ok.0));
      }

  module _ (some : 0 < run.workers) where
    move-Live : (s t : System) → Inv run s → Live s → Move run s t → Live t
    unfolding finish slept gathered fail_stage
    move-Live s _ inv live (launch w lt e ok) = put-Live s live w checking tt (λ u. refl)
    move-Live s _ inv live (check w lt e) =
        put-Live s live w (if s.done then stopped else admitting) (if_both Parkable s.done tt tt)
          (λ u.
            if_cases (λ y. is_settled false s.stages.generation y ≡ false) s.done (λ d. cc (d, u.0))
              (λ _. refl))
    move-Live s _ inv live (admitted w lt e) =
        admit-Live s live w e lt (subst (WorkerOk run s.stages) e (inv.workers w lt))
    move-Live s _ inv live (finished w i offset lt e) =
        let base = put-Live s live w checking tt (λ u. refl) in
        record {
          numbered = base.numbered;
          within = base.within;
          parkable = base.parkable;
          control = base.control;
          flagged = base.flagged;
          counted = base.counted;
          running = base.running;
        }
    move-Live s _ inv live (woken w g lt e h) = put-Live s live w checking tt (λ u. refl)
    move-Live s _ inv live (slept_until i e h) =
        let more : i < length run.cfg =
          subst (ControlLive s.done s.stages.entered) e live.control in
        if_cases (λ c. Live (record s { control = c })) s.done
          (λ d. Live-control s returned live (inl d))
          (λ _.
            if_both (λ c. Live (record s { control = c })) (has_enter run i)
              (Live-control s (gathering i) live more) (Live-control s (entering i) live more))
    move-Live s _ inv live (all_gathered i e h) =
        let more : i < length run.cfg =
          subst (ControlLive s.done s.stages.entered) e live.control in
        if_cases (λ c. Live (record s { control = c })) s.done
          (λ d. Live-control s returned live (inl d)) (λ _. Live-control s (entering i) live more)
    move-Live s _ inv live (entered_stage i e) = enter_stage-Live s i some inv live e
    move-Live s _ inv live (failed_stage i e h) =
        Live-control (record s { done = true }) returned (Live-over s live) (inl refl)

    Step-Live : (s t : System) → Inv run s → Live s → Step run s t → Live t
    Step-Live s t inv live (move m) = move-Live s t inv live m
    Step-Live s _ inv live (pass later le) = record {
      numbered = live.numbered;
      within = live.within;
      parkable = live.parkable;
      control = live.control;
      flagged = live.flagged;
      counted = live.counted;
      running = live.running;
    }
    Step-Live s _ inv live end_run = Live-over s live

    pub Reachable-Live : 0 < length run.cfg → (s : System) → Reachable run s → Live s
    Reachable-Live staged _ (starts_at now) = record {
      numbered = refl;
      within = omega arith;
      parkable = λ w. tt;
      control = staged;
      flagged = λ z. absurd (omega (arith, z, some));
      counted = λ u.
          omega (arith, count_below_none (settled_at (initial run now)) run.workers (λ j l. refl));
      running = λ u w e. cc e;
    }
    Reachable-Live staged t (goes_on {s = s} r st) =
        Step-Live s t (Reachable-Inv run s r) (Reachable-Live staged s r) st
