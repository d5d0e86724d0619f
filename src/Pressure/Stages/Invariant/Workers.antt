-- ===== src/Pressure/Stages/Invariant/Workers.antt =====
-- The invariant over the steps of a worker (internal/pressure/engine.go).
use dizzy.Prelude.{
  ℕ, suc, ◌-◌, ◌<◌, ◌≡◌, refl, sym, subst, inl, inr, true, false, if◌then◌else◌, if_both,
  Bool-cases, ltb, ltb→lt, ◌==◌, ==_iff, length, update, count_below_mono, count_below-more, arith,
}
use dizzy.Pressure.Stages.{
  Setup, Stages, Worker, unstarted, checking, admitting, calling, waiting, stopped, Control,
  sleeping, gathering, entering, returned, System, end_of, admission, park_one, put, admit, finish,
}
use dizzy.Pressure.Stages.Invariant.{is_settled, Within, WorkerOk, ControlOk, Inv}

module _ (run : Setup) where
  WorkerOk-park_one :
      (st : Stages) (w : Worker) → WorkerOk run st w → WorkerOk run (park_one run st) w
  unfolding park_one
  WorkerOk-park_one st unstarted h = h
  WorkerOk-park_one st checking h = h
  WorkerOk-park_one st admitting h = h
  WorkerOk-park_one st (calling i offset) h = h
  WorkerOk-park_one st (waiting g) h = h
  WorkerOk-park_one st stopped h = h

  ControlOk-park_one :
      (st : Stages) (now : ℕ) (c : Control)
      → ControlOk run st now c
      → ControlOk run (park_one run st) now c
  unfolding park_one
  ControlOk-park_one st now (sleeping i) h = h
  ControlOk-park_one st now (gathering i) h = h
  ControlOk-park_one st now (entering i) h =
      (h.0, λ a b. if_both (λ y. y ≡ true) (suc st.parked == run.workers) refl (h.1 a b), h.2)
  ControlOk-park_one st now returned h = tt

  module _ (s : System) (inv : Inv run s) where
    put_moved :
        (w : ℕ) (x : Worker)
        → (is_settled s.done s.stages.generation (s.workers w) ≡ true
            → is_settled s.done s.stages.generation x ≡ true)
        → (j : ℕ) → is_settled s.done s.stages.generation (s.workers j) ≡ true
        → is_settled s.done s.stages.generation (update s.workers w x j) ≡ true
    put_moved w x h j b = elim (Bool-cases (w == j)) [
      | inl e ↦
          let at_w =
            subst (λ k. is_settled s.done s.stages.generation (s.workers k) ≡ true)
              (sym ((==_iff w j).0 e)) b in
          rw e (h at_w)
      | inr e ↦ rw e b
    ]

    pub put-Inv :
        (w : ℕ) (x : Worker)
        → 0 < s.stages.entered
        → WorkerOk run s.stages x
        → (is_settled s.done s.stages.generation (s.workers w) ≡ true
            → is_settled s.done s.stages.generation x ≡ true)
        → Inv run (put run w x s)
    put-Inv w x e ok h = record {
      workers = λ j l. if_both (WorkerOk run s.stages) (w == j) ok (inv.workers j l);
      control = inv.control;
      parked = omega (
        arith,
        inv.parked,
        count_below_mono (λ j. is_settled s.done s.stages.generation (s.workers j))
            (λ j. is_settled s.done s.stages.generation (update s.workers w x j)) run.workers
            (λ j l. put_moved w x h j),
      );
      released = inv.released;
      full = inv.full;
      begun = inv.begun;
      recorded = inv.recorded;
      unlaunched = λ z. absurd (omega (arith, e, z));
    }

    park-Inv :
        (w : ℕ)
        → w < run.workers
        → s.workers w ≡ admitting
        → Inv run (record s {
          stages = park_one run s.stages;
          workers = update s.workers w (waiting s.stages.generation);
        })
    unfolding park_one
    park-Inv w lt e =
        let ok : 0 < s.stages.entered = subst (WorkerOk run s.stages) e (inv.workers w lt) in
        let g = s.stages.generation in
        let same : (g == g) ≡ true = ground arith in
        let unsettled : is_settled s.done g (s.workers w) ≡ false = rw e refl in
        record {
          workers = λ j l.
              if_both (WorkerOk run (park_one run s.stages)) (w == j) (ok, omega arith)
                (WorkerOk-park_one s.stages (s.workers j) (inv.workers j l));
          control = ControlOk-park_one s.stages s.now s.control inv.control;
          parked = omega (
            arith,
            inv.parked,
            count_below-more (λ j. is_settled s.done g (s.workers j))
                (λ j. is_settled s.done g (update s.workers w (waiting g) j)) run.workers w
                (λ j l. put_moved w (waiting g) (λ x. same) j) lt unsettled
                (let here : (w == w) ≡ true = ground arith in rw here same),
          );
          released = inv.released;
          full = λ z. elim (Bool-cases (suc s.stages.parked == run.workers)) [
            | inl e ↦ omega (arith, (==_iff (suc s.stages.parked) run.workers).0 e)
            | inr e ↦ omega (
              arith,
              inv.full (subst (λ b. (if b then true else s.stages.all_parked) ≡ true) e z),
            )
          ];
          begun = inv.begun;
          recorded = inv.recorded;
          unlaunched = λ z. absurd (omega (arith, ok, z));
        }

    pub admit-Inv : (w : ℕ) → w < run.workers → s.workers w ≡ admitting → Inv run (admit run w s)
    unfolding admit admission
    admit-Inv w lt e =
        let ok : 0 < s.stages.entered = subst (WorkerOk run s.stages) e (inv.workers w lt) in
        elim (Bool-cases (ltb s.now (end_of run (s.stages.entered - 1)))) [
          | inl inside ↦
              rw (inside, admit, admission)
                (put-Inv w (calling (s.stages.entered - 1) s.now) ok
                  (
                    omega (arith, ok),
                    (inv.begun (s.stages.entered - 1) (omega (arith, ok))).0,
                    ltb→lt s.now (end_of run (s.stages.entered - 1)) inside,
                  )
                  (λ x. subst (λ y. is_settled s.done s.stages.generation y ≡ true) e x))
          | inr past ↦ elim (Bool-cases (suc (s.stages.entered - 1) == length run.cfg)) [
            | inl last ↦ rw (past, last, admit, admission) (put-Inv w stopped ok ok (λ x. refl))
            | inr more ↦ rw (past, more, admit, admission) (park-Inv w lt e)
          ]
        ]

    pub finish-Inv :
        (w i offset : ℕ)
        → w < run.workers
        → s.workers w ≡ calling i offset
        → Inv run (finish run w i offset s)
    unfolding finish
    finish-Inv w i offset lt e =
        let ok : Within run s.stages i offset =
          subst (WorkerOk run s.stages) e (inv.workers w lt) in
        let base =
          put-Inv w checking (omega (arith, ok.0)) (omega (arith, ok.0))
            (λ x. cc (subst (λ y. is_settled s.done s.stages.generation y ≡ true) e x)) in
        record {
          workers = base.workers;
          control = base.control;
          parked = base.parked;
          released = base.released;
          full = base.full;
          begun = base.begun;
          recorded = (ok, inv.recorded);
          unlaunched = base.unlaunched;
        }
