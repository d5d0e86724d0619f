-- ===== src/Metrics/Collector/Family.antt =====
-- Collectors and their children (`Child`, `Record` and `RecordReadiness` of internal/metrics/metrics.go).
use dizzy.Prelude.{
  ℕ, zero, suc, ◌<◌, ◌≡◌, refl, ◌∙◌, ap, Bool, true, false, if◌then◌else◌, ◌==◌, ==_iff, Bool-cases,
  inl, inr, Option, Option-cases, none, some, List, [], ◌∷◌, update, arith,
}
use dizzy.Metrics.Histogram.{Scale}
use dizzy.Metrics.Collector.{
  Sample, Readiness, Collector, new_collector, collect, collect_readiness, record_at,
}

-- `Child` makes a collector after its parent.
abbrev pub IsForest : (ℕ → Option ℕ) → Type 0
IsForest parent = (i p : ℕ) → parent i ≡ some p → p < i

-- Whether collector `c` is `i` or one of its ancestors, on fuel.
unfoldable pub is_above : (ℕ → Option ℕ) → ℕ → ℕ → ℕ → Bool
is_above parent zero c i = false
is_above parent (suc fuel) c i =
    let rest : Bool = elim (parent i) [ none ↦ false | some p ↦ is_above parent fuel c p ] in
    if i == c then true else rest

-- The samples recorded on `c` or on a collector below it.
abbrev pub samples_below : {S : Type 0} → (ℕ → Option ℕ) → ℕ → List (ℕ × S) → List S
samples_below parent c [] = []
samples_below parent c ((i, s) ∷ log) =
    let rest = samples_below parent c log in if is_above parent (suc i) c i then s ∷ rest else rest

abbrev pub feed : {A S : Type 0} → (S → A → A) → List S → A → A
feed one [] a = a
feed one (s ∷ ss) a = feed one ss (one s a)

-- The collectors after a log of records, the earliest first.
unfoldable pub after :
    (sc : Scale) {S : Type 0}
    → (S → Collector sc.Float → Collector sc.Float)
    → (ℕ → Option ℕ)
    → List (ℕ × S)
    → (ℕ → Collector sc.Float)
    → ℕ
    → Collector sc.Float
after sc one parent [] cells = cells
after sc one parent ((i, s) ∷ log) cells =
    after sc one parent log (record_at sc one parent (suc i) i s cells)

module _ (parent : ℕ → Option ℕ) (forest : IsForest parent) where
  is_above-lt : (fuel c i : ℕ) → i < c → is_above parent fuel c i ≡ false
  unfolding is_above
  is_above-lt zero c i h = refl
  is_above-lt (suc fuel) c i h = elim (Option-cases (parent i)) [
    | inl e ↦ rw e (ground arith)
    | inr (p, e) ↦
        let below : p < c = omega (arith, forest i p e) in
        rw e (ground (arith, is_above-lt fuel c p below))
  ]

  module _ (sc : Scale) {S : Type 0} (one : S → Collector sc.Float → Collector sc.Float) where
    update_lem :
        (i c : ℕ) (s : S) (cells : ℕ → Collector sc.Float)
        → update cells i (one s (cells i)) c
          ≡ (if (if i == c then true else false) then one s (cells c) else cells c)
    update_lem i c s cells = elim (Bool-cases (i == c)) [
      | inl e ↦ rw e (ap (λ j. one s (cells j)) ((==_iff i c).0 e))
      | inr e ↦ rw e refl
    ]

    record_at_lem :
        (fuel i c : ℕ) (s : S) (cells : ℕ → Collector sc.Float)
        → record_at sc one parent fuel i s cells c
          ≡ (if is_above parent fuel c i then one s (cells c) else cells c)
    unfolding record_at is_above
    record_at_lem zero i c s cells = refl
    record_at_lem (suc fuel) i c s cells = elim (Option-cases (parent i)) [
      | inl e ↦ rw (e, record_at) (update_lem i c s cells)
      | inr (p, e) ↦
          let later = record_at_lem fuel p c s (update cells i (one s (cells i))) in
          rw (e, record_at)
            (elim (Bool-cases (i == c)) [
              | inl here ↦
                  let same : i ≡ c = (==_iff i c).0 here in
                  let above : is_above parent fuel c p ≡ false =
                    is_above-lt fuel c p (omega (arith, forest i p e)) in
                  rw here (later ∙ rw (above, here) (ap (λ j. one s (cells j)) same))
              | inr other ↦ rw other (later ∙ rw other refl)
            ])
    ]

    after-feed :
        (log : List (ℕ × S)) (cells : ℕ → Collector sc.Float) (c : ℕ)
        → after sc one parent log cells c ≡ feed one (samples_below parent c log) (cells c)
    unfolding after
    after-feed [] cells c = refl
    after-feed ((i, s) ∷ log) cells c =
        let first = record_at_lem (suc i) i c s cells in
        after-feed log (record_at sc one parent (suc i) i s cells) c
        ∙ (elim (Bool-cases (is_above parent (suc i) c i)) [
          | inl e ↦ rw (first, e) refl
          | inr e ↦ rw (first, e) refl
        ])

-- Every collector holds the exact aggregate of its children: after any records of samples, one
-- after another on any collectors of a forest, a collector is what a fresh one is after the samples
-- that were recorded on it or below it, in their order; and so for the time-to-ready records.
pub collector-samples_below :
    (sc : Scale) (parent : ℕ → Option ℕ)
    → IsForest parent
    → (log : List (ℕ × Sample)) (ready : List (ℕ × Readiness)) (c : ℕ)
    → let fresh : ℕ → Collector sc.Float = λ _. new_collector sc in
      (after sc (collect sc) parent log fresh c
        ≡ feed (collect sc) (samples_below parent c log) (new_collector sc))
      × (after sc (collect_readiness sc) parent ready fresh c
          ≡ feed (collect_readiness sc) (samples_below parent c ready) (new_collector sc))
collector-samples_below sc parent forest log ready c = (
  after-feed parent forest sc (collect sc) log (λ _. new_collector sc) c,
  after-feed parent forest sc (collect_readiness sc) ready (λ _. new_collector sc) c,
)
