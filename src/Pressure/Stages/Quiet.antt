-- ===== src/Pressure/Stages/Quiet.antt =====
-- No operation is in flight while a stage is entered, and each lies in its stage's part of the
-- run (internal/pressure/engine.go).
use dizzy.Prelude.{
  ℕ, ◌<◌, ◌≤◌, ◌≡◌, ◌≢◌, subst, inl, inr, true, false, if_cases, Bool-cases, ltb, All,
  count_below-full, arith,
}
use dizzy.Pressure.Stages.{
  Setup, Worker, calling, entering, System, end_of, has_enter, stage_result, Reachable,
}
use dizzy.Pressure.Stages.Invariant.{is_settled, settled_at, ControlOk, Inv, Within}
use dizzy.Pressure.Stages.Invariant.Kept.{Reachable-Inv}

module _ (run : Setup) where
  all_parked-settled :
      (s : System)
      → Inv run s
      → s.stages.all_parked ≡ true
      → (w : ℕ) → w < run.workers
      → settled_at s w ≡ true
  all_parked-settled s inv all =
      count_below-full (settled_at s) run.workers (omega (arith, inv.full all, inv.parked))

  -- In whatever order the workers and the controller of a staged run move, and whenever the run
  -- ends: while stage `i`, which has an Enter, is being entered, no worker is in a call.
  pub entering-quiet :
      (s : System) (i w k offset : ℕ)
      → Reachable run s
      → s.control ≡ entering i
      → has_enter run i ≡ true
      → w < run.workers
      → s.workers w ≢ calling k offset
  entering-quiet s i w k offset r e has lt called =
      let inv = Reachable-Inv run s r in
      let ok = subst (ControlOk run s.stages s.now) e inv.control in
      elim (Bool-cases (ltb 0 i)) [
        | inl later ↦
            let settled = all_parked-settled s inv (ok.1 (ground arith) has) w lt in
            cc (subst (λ x. is_settled s.done s.stages.generation x ≡ true) called settled)
        | inr zero ↦ cc (inv.unlaunched (ground (arith, ok.0)) w lt, called)
      ]

  -- Each sample that a stage was given is of an operation that started in [Start, End of the
  -- window) of that stage, which was entered.
  pub recorded-Within :
      (s : System) → Reachable run s → All (λ r. Within run s.stages r.0 r.1) s.recorded
  recorded-Within s r = (Reachable-Inv run s r).recorded

  -- Each stage that was entered is reported with a start that is not after its end.
  pub stage_result-ordered :
      (s : System) (i : ℕ)
      → Reachable run s
      → i < s.stages.entered
      → (stage_result run s.stages s.now i).0 ≤ (stage_result run s.stages s.now i).1
  unfolding stage_result
  stage_result-ordered s i r lt =
      let b = (Reachable-Inv run s r).begun i lt in
      if_cases (λ x. s.stages.starts i ≤ x) (ltb (end_of run i) s.now) (λ _. b.1) (λ _. b.0)

  -- Whenever a worker of a staged run is before the lock of `admit`, where it may park as the last
  -- one, the `allParked` that it would close is still open.
  pub park-open :
      (s : System) (w : ℕ)
      → Reachable run s
      → w < run.workers
      → s.workers w ≡ Worker.admitting
      → s.stages.all_parked ≡ false
  park-open s w r lt e =
      let inv = Reachable-Inv run s r in
      elim (Bool-cases s.stages.all_parked) [
        | inl all ↦ cc (
            subst (λ x. is_settled s.done s.stages.generation x ≡ true) e
              (all_parked-settled s inv all w lt))
        | inr unclosed ↦ unclosed
      ]
