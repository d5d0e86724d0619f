-- ===== src/Pressure/Stages/Invariant/Kept.antt =====
-- What is reachable keeps the invariant (internal/pressure/engine.go).
use dizzy.Prelude.{◌≡◌, refl, subst, true, if◌then◌else◌, if_both, if_cases, ◌==◌, arith}
use dizzy.Pressure.Stages.{
  Setup, checking, admitting, stopped, System, window_start, Move, launch, check, admitted,
  finished, woken, slept_until, all_gathered, entered_stage, failed_stage, Step, move, pass,
  end_run, Reachable, starts_at, goes_on,
}
use dizzy.Pressure.Stages.Invariant.{is_settled, WorkerOk, Inv}
use dizzy.Pressure.Stages.Invariant.Workers.{put-Inv, admit-Inv, finish-Inv}
use dizzy.Pressure.Stages.Invariant.Controller.{
  end_run-Inv, pass-Inv, slept-Inv, gathered-Inv, enter_stage-Inv, fail_stage-Inv,
}

module _ (run : Setup) where
  module _ (s : System) (inv : Inv run s) where
    move-Inv : (t : System) → Move run s t → Inv run t
    move-Inv _ (launch w lt e ok) =
        put-Inv run s inv w checking ok ok
          (λ x. cc (subst (λ y. is_settled s.done s.stages.generation y ≡ true) e x))
    move-Inv _ (check w lt e) =
        let ok = subst (WorkerOk run s.stages) e (inv.workers w lt) in
        put-Inv run s inv w (if s.done then stopped else admitting) ok
          (if_both (WorkerOk run s.stages) s.done ok ok)
          (λ x.
            let over : s.done ≡ true =
              subst (λ y. is_settled s.done s.stages.generation y ≡ true) e x in
            if_cases (λ y. is_settled s.done s.stages.generation y ≡ true) s.done (λ _. refl)
              (λ live. cc (live, over)))
    move-Inv _ (admitted w lt e) = admit-Inv run s inv w lt e
    move-Inv _ (finished w i offset lt e) = finish-Inv run s inv w i offset lt e
    move-Inv _ (woken w g lt e h) =
        let ok = subst (WorkerOk run s.stages) e (inv.workers w lt) in
        put-Inv run s inv w checking ok.0 ok.0 (λ x.
          let same : (g == s.stages.generation) ≡ true =
            subst (λ y. is_settled s.done s.stages.generation y ≡ true) e x in
          ground (arith, same, h))
    move-Inv _ (slept_until i e h) = slept-Inv run s inv i e h
    move-Inv _ (all_gathered i e h) = gathered-Inv run s inv i e h
    move-Inv _ (entered_stage i e) = enter_stage-Inv run s inv i e
    move-Inv _ (failed_stage i e h) = fail_stage-Inv run s inv

    Step-Inv : (t : System) → Step run s t → Inv run t
    Step-Inv t (move m) = move-Inv t m
    Step-Inv _ (pass later le) = pass-Inv run s inv later le
    Step-Inv _ end_run = end_run-Inv run s inv

  pub Reachable-Inv : (s : System) → Reachable run s → Inv run s
  unfolding window_start
  Reachable-Inv _ (starts_at now) = record {
    workers = λ w lt. tt;
    control = (refl, λ z. absurd (omega (arith, z)), omega arith);
    parked = omega arith;
    released = omega arith;
    full = λ e. cc;
    begun = λ i lt. absurd (omega (arith, lt));
    recorded = tt;
    unlaunched = λ _ w lt. refl;
  }
  Reachable-Inv t (goes_on {s = s} r st) = Step-Inv s (Reachable-Inv s r) t st
