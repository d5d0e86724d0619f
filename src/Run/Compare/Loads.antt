-- ===== src/Run/Compare/Loads.antt =====
-- When two pressure records may be compared (`Compare` of internal/run/compare.go).
use dizzy.Prelude.{
  ℕ, suc, ◌≡◌, ◌↔◌, ◌⊎◌, refl, ap, sym, ◌∙◌, subst, ◌==◌, ==_iff, Bool, Bool-cases, true, false,
  not, ◌&&◌, ◌||◌, inl, inr, str_eq, eq_iff, Option-cases, Option, none, some, map, List, [], ◌∷◌,
  ◌++◌, length, eq_ℤ_iff, arith,
}
use dizzy.Run.Load.{
  PressureWeight, PressurePropagation, PressureStats, Record, RunSummary, Mismatch, same_mix,
  note_if, stage_mismatches, stage_differs, stage_count_differs, scenario_differs, seed_differs,
  workers_differ, tokens_differ, mix_differs, propagation_differs, load_mismatches, summarize_run,
}
use dizzy.Run.Compare.{
  is_some_of, Floats, Comparison, Compared, compared, compare_pressure, compare, both_compared,
}

-- The probe's interval and its timeout in milliseconds, 0 without a probe.
abbrev pub probe_every : Option PressurePropagation → ℕ
probe_every none = 0
probe_every (some q) = q.every

abbrev pub probe_timeout : Option PressurePropagation → ℕ
probe_timeout none = 0
probe_timeout (some q) = q.timeout

-- What two runs have in common for their records to be comparable.
pub record SameLoad (b o : Record) (bp op : PressureStats) : Type 0 where
  pub scenario : b.scenario ≡ o.scenario
  pub seed : b.seed ≡ o.seed
  pub workers : bp.workers ≡ op.workers
  pub tokens : bp.tokens ≡ op.tokens
  pub mix : bp.mix ≡ op.mix
  pub every : probe_every bp.propagation ≡ probe_every op.propagation
  pub timeout : probe_timeout bp.propagation ≡ probe_timeout op.propagation
  pub stages : map (λ st. st.fan_assignments) bp.stages ≡ map (λ st. st.fan_assignments) op.stages

-- The same of their summaries.
record SameSummary (b o : RunSummary) : Type 0 where
  scenario : b.scenario ≡ o.scenario
  seed : b.seed ≡ o.seed
  workers : b.workers ≡ o.workers
  tokens : b.tokens ≡ o.tokens
  mix : b.mix ≡ o.mix
  every : b.propagation_every ≡ o.propagation_every
  timeout : b.propagation_timeout ≡ o.propagation_timeout
  stages : b.stages ≡ o.stages

weight_eq : (a b : PressureWeight) → a.operation ≡ b.operation → a.weight ≡ b.weight → a ≡ b
weight_eq a b e f = cc

same_mix_iff : (as_ bs : List PressureWeight) → (same_mix as_ bs ≡ true) ↔ (as_ ≡ bs)
same_mix_iff [] [] = (λ h. refl, λ e. refl)
same_mix_iff [] (b ∷ bs) = (λ h. cc, λ e. cc e)
same_mix_iff (a ∷ as_) [] = (λ h. cc, λ e. cc e)
same_mix_iff (a ∷ as_) (b ∷ bs) =
    let op = eq_iff a.operation b.operation in
    let wt = ==_iff a.weight b.weight in
    let rest = same_mix_iff as_ bs in
    (
      λ h.
          let parts : (str_eq a.operation b.operation ≡ true)
              × ((a.weight == b.weight) ≡ true)
              × (same_mix as_ bs ≡ true) =
            ground (arith, h) in
          cc (weight_eq a b (op.0 parts.0) (wt.0 parts.1), rest.0 parts.2),
      λ e.
          let first : a ≡ b = cc e in
          let others : as_ ≡ bs = cc e in
          ground (
            arith,
            op.1 (ap (λ w. w.operation) first),
            wt.1 (ap (λ w. w.weight) first),
            rest.1 others,
          ),
    )

note_if-nil : (b : Bool) (m : Mismatch) → (note_if b m ≡ []) ↔ (b ≡ false)
note_if-nil true m = (λ h. cc, λ h. cc)
note_if-nil false m = (λ h. refl, λ h. refl)

-- Two lists of differences are empty together.
append-nil :
    (P Q : Type 0) (xs ys : List Mismatch)
    → ((xs ≡ []) ↔ P)
    → ((ys ≡ []) ↔ Q)
    → ((xs ++ ys) ≡ []) ↔ (P × Q)
append-nil P Q [] ys p q = (λ h. (p.0 refl, q.0 h), λ h. q.1 h.1)
append-nil P Q (x ∷ xs) ys p q = (λ h. cc h, λ h. cc (p.1 h.0))

note_unless :
    (P : Type 0) (b : Bool) (m : Mismatch) → ((b ≡ true) ↔ P) → (note_if (not b) m ≡ []) ↔ P
note_unless P true m h = (λ _. h.0 refl, λ _. refl)
note_unless P false m h = (λ e. cc e, λ p. cc (h.1 p))

stage_mismatches-nil :
    (i : ℕ) (bs os : List ℕ)
    → ((length bs ≡ length os) × (stage_mismatches i bs os ≡ [])) ↔ (bs ≡ os)
stage_mismatches-nil i [] [] = (λ h. refl, λ e. (refl, refl))
stage_mismatches-nil i [] (o ∷ os) = (λ h. cc h.0, λ e. cc e)
stage_mismatches-nil i (b ∷ bs) [] = (λ h. cc h.0, λ e. cc e)
stage_mismatches-nil i (b ∷ bs) (o ∷ os) =
    let here = note_unless (b ≡ o) (b == o) (stage_differs (suc i)) (==_iff b o) in
    let both =
      append-nil (b ≡ o) (stage_mismatches (suc i) bs os ≡ []) _ (stage_mismatches (suc i) bs os)
        here (λ h. h, λ h. h) in
    let rest = stage_mismatches-nil (suc i) bs os in
    (
      λ h. let same = both.0 h.1 in cc (same.0, rest.0 (omega (arith, h.0), same.1)),
      λ e.
          let first : b ≡ o = cc e in
          let others : bs ≡ os = cc e in
          let r = rest.1 others in (omega (arith, r.0), both.1 (first, r.1)),
    )

propagation-nil :
    (e f t u : ℕ)
    → (note_if (not (e == f) || not (t == u)) propagation_differs ≡ []) ↔ ((e ≡ f) × (t ≡ u))
propagation-nil e f t u = (
  λ h. ground (arith, (note_if-nil (not (e == f) || not (t == u)) propagation_differs).0 h),
  λ h.
      (note_if-nil (not (e == f) || not (t == u)) propagation_differs).1
        (ground (arith, (==_iff e f).1 h.0, (==_iff t u).1 h.1)),
)

-- No difference is named exactly where the loads agree in everything that is compared.
load_mismatches-SameSummary : (b o : RunSummary) → (load_mismatches b o ≡ []) ↔ SameSummary b o
unfolding load_mismatches
load_mismatches-SameSummary b o =
    let n1 =
      note_unless (b.scenario ≡ o.scenario) _ scenario_differs (eq_iff b.scenario o.scenario) in
    let n2 = note_unless (b.seed ≡ o.seed) _ seed_differs (eq_ℤ_iff b.seed o.seed) in
    let n3 = note_unless (b.workers ≡ o.workers) _ workers_differ (==_iff b.workers o.workers) in
    let n4 = note_unless (b.tokens ≡ o.tokens) _ tokens_differ (==_iff b.tokens o.tokens) in
    let n5 = note_unless (b.mix ≡ o.mix) _ mix_differs (same_mix_iff b.mix o.mix) in
    let n6 =
      propagation-nil b.propagation_every o.propagation_every b.propagation_timeout
        o.propagation_timeout in
    let n7 =
      note_unless (length b.stages ≡ length o.stages) _ stage_count_differs
        (==_iff (length b.stages) (length o.stages)) in
    let a2 = append-nil _ _ _ _ n1 n2 in
    let a3 = append-nil _ _ _ _ a2 n3 in
    let a4 = append-nil _ _ _ _ a3 n4 in
    let a5 = append-nil _ _ _ _ a4 n5 in
    let a6 = append-nil _ _ _ _ a5 n6 in
    let a7 = append-nil _ _ _ _ a6 n7 in
    let a8 = append-nil _ _ _ (stage_mismatches 0 b.stages o.stages) a7 (λ h. h, λ h. h) in
    let st = stage_mismatches-nil 0 b.stages o.stages in
    (
      λ h.
          let (((((((s, se), w), t), m), p), l), r) = a8.0 h in
          record {
            scenario = s;
            seed = se;
            workers = w;
            tokens = t;
            mix = m;
            every = p.0;
            timeout = p.1;
            stages = st.0 (l, r);
          },
      λ same.
          let q = st.1 same.stages in
          a8.1 (
            (
              (
                ((((same.scenario, same.seed), same.workers), same.tokens), same.mix),
                (same.every, same.timeout),
              ),
              q.0,
            ),
            q.1,
          ),
    )

is_some_of-nil : (ms : List Mismatch) → (is_some_of ms ≡ false) ↔ (ms ≡ [])
is_some_of-nil [] = (λ _. refl, λ _. refl)
is_some_of-nil (m ∷ ms) = (λ h. cc h, λ e. cc e)

every_eq : (p : Option PressurePropagation) → elim p [ none ↦ 0 | some q ↦ q.every ] ≡ probe_every p
every_eq none = refl
every_eq (some q) = refl

timeout_eq :
    (p : Option PressurePropagation) → elim p [ none ↦ 0 | some q ↦ q.timeout ] ≡ probe_timeout p
timeout_eq none = refl
timeout_eq (some q) = refl

summary-SameLoad :
    (b o : Record) (bp op : PressureStats)
    → SameSummary (summarize_run b bp) (summarize_run o op) ↔ SameLoad b o bp op
unfolding summarize_run
summary-SameLoad b o bp op =
    let e0 = every_eq bp.propagation in
    let e1 = every_eq op.propagation in
    let t0 = timeout_eq bp.propagation in
    let t1 = timeout_eq op.propagation in
    (
      λ s. record {
        scenario = s.scenario;
        seed = s.seed;
        workers = s.workers;
        tokens = s.tokens;
        mix = s.mix;
        every = sym e0 ∙ s.every ∙ e1;
        timeout = sym t0 ∙ s.timeout ∙ t1;
        stages = s.stages;
      },
      λ s. record {
        scenario = s.scenario;
        seed = s.seed;
        workers = s.workers;
        tokens = s.tokens;
        mix = s.mix;
        every = e0 ∙ s.every ∙ sym e1;
        timeout = t0 ∙ s.timeout ∙ sym t1;
        stages = s.stages;
      },
    )

module _ (fl : Floats) (base other : Record) (allow : Bool) where
  -- What it needs of two records, on their summaries.
  abbrev Summed : Type 0
  Summed =
      (bp : PressureStats) × (op : PressureStats) × (base.pressure ≡ some bp)
      × (other.pressure ≡ some op)
      × ((allow ≡ true) ⊎ SameSummary (summarize_run base bp) (summarize_run other op))

  abbrev pub HasResult : Compared fl.Float → Type 0
  HasResult c = (r : Comparison fl.Float) × (c ≡ compared r)

  pressure_lem :
      (bp op : PressureStats)
      → HasResult (compare_pressure fl base bp other op allow)
        ↔ ((allow ≡ true) ⊎ SameSummary (summarize_run base bp) (summarize_run other op))
  unfolding compare_pressure
  pressure_lem bp op =
      let ms = load_mismatches (summarize_run base bp) (summarize_run other op) in
      let same = load_mismatches-SameSummary (summarize_run base bp) (summarize_run other op) in
      let empty = is_some_of-nil ms in
      elim (Bool-cases allow) [
        | inl a ↦
            let pass : (is_some_of ms && false) ≡ false = ground arith in
            rw (a, compare_pressure)
              (rw pass (λ _. inl refl, λ _. (both_compared fl base bp other op, refl)))
        | inr a ↦ elim (Bool-cases (is_some_of ms)) [
          | inl some_ms ↦
              rw (a, some_ms, compare_pressure)
                (
                  λ h. cc h.1,
                  λ h. elim h [ inl f ↦ cc f | inr s ↦ cc (empty.1 (same.1 s), some_ms) ],
                )
          | inr none_ms ↦
              rw (a, none_ms, compare_pressure)
                (
                  λ _. inr (same.0 (empty.0 none_ms)),
                  λ _. (both_compared fl base bp other op, refl),
                )
        ]
      ]

  compare-Summed : HasResult (compare fl base other allow) ↔ Summed
  unfolding compare summarize_run
  compare-Summed = elim (Option-cases base.pressure) [
    | inl e ↦ rw (e, compare) (λ h. cc h.1, λ h. cc (h.2))
    | inr (bp, e) ↦ elim (Option-cases other.pressure) [
      | inl f ↦ rw (e, f, compare) (λ h. cc h.1, λ h. cc h.3)
      | inr (op, f) ↦
          let lem = pressure_lem bp op in
          rw (e, f, compare)
            (
              λ h. (bp, op, refl, refl, lem.0 h),
              λ h.
                  let b : h.0 ≡ bp = cc h.2 in
                  let o : h.1 ≡ op = cc h.3 in
                  elim h.4 [
                    | inl a ↦ lem.1 (inl a)
                    | inr same ↦
                        let same_op =
                          subst (λ q. SameSummary (summarize_run base h.0) (summarize_run other q))
                            o same in
                        lem.1 (
                          inr (
                            subst (λ q. SameSummary (summarize_run base q) (summarize_run other op))
                              b same_op))
                  ],
            )
    ]
  ]

  -- What `Compare` needs of two records.
  abbrev pub Comparable : Type 0
  Comparable =
      (bp : PressureStats) × (op : PressureStats) × (base.pressure ≡ some bp)
      × (other.pressure ≡ some op)
      × ((allow ≡ true) ⊎ SameLoad base other bp op)

  Summed-Comparable : Summed ↔ Comparable
  Summed-Comparable = (
    λ (bp, op, e, f, h). (
      bp,
      op,
      e,
      f,
      elim h [ inl a ↦ inl a | inr s ↦ inr ((summary-SameLoad base other bp op).0 s) ],
    ),
    λ (bp, op, e, f, h). (
      bp,
      op,
      e,
      f,
      elim h [ inl a ↦ inl a | inr s ↦ inr ((summary-SameLoad base other bp op).1 s) ],
    ),
  )

  -- `Compare` returns a comparison exactly where both records have pressure statistics and a
  -- mismatch is allowed or the loads agree in the scenario, the seed, the workers, the token pool,
  -- the mix, the probe's settings and the overrides of the stages.
  pub compare-Comparable : HasResult (compare fl base other allow) ↔ Comparable
  compare-Comparable =
      (λ h. Summed-Comparable.0 (compare-Summed.0 h), λ h. compare-Summed.1 (Summed-Comparable.1 h))
