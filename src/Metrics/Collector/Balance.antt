-- ===== src/Metrics/Collector/Balance.antt =====
-- The groups of a collector (internal/metrics/metrics.go) add up.
use dizzy.Prelude.{
  ℕ, suc, ◌+◌, ◌≤◌, ◌≡◌, refl, Bool, if◌then◌else◌, String, has, List, [], ◌∷◌, map, ◌∙◌, ap,
  length, Bool-cases, inl, inr, arith,
}
use dizzy.Metrics.Latency.{ErrorCount}
use dizzy.Metrics.Histogram.{Scale, Histogram}
use dizzy.Metrics.Collector.{
  Sample, Group, Collector, new_group, new_collector, add, collect, change, aggregate, stats, Stats,
}
use dizzy.Metrics.Collector.Family.{feed}

-- A measure summed over the entries of a map.
abbrev pub total : {A : Type 0} → (A → ℕ) → List (String × A) → ℕ
total f [] = 0
total f ((k, a) ∷ m) = f a + total f m

-- One entry changes by `n`, where a new one counts nothing.
total-change :
    {A : Type 0} (f : A → ℕ) (n : ℕ) (k : String) (d : A) (g : A → A) (m : List (String × A))
    → f d ≡ 0
    → ((a : A) → f (g a) ≡ f a + n)
    → total f (change k d g m) ≡ total f m + n
unfolding change
total-change f n k d g [] z h = omega (arith, h d)
total-change f n k d g ((j, a) ∷ m) z h = ground (arith, total-change f n k d g m, h a, h d)

-- How many samples pass a test.
abbrev pub count_of : (Sample → Bool) → List Sample → ℕ
count_of p [] = 0
count_of p (s ∷ ss) = let rest = count_of p ss in if p s then suc rest else rest

abbrev pub tally : List ErrorCount → ℕ
tally [] = 0
tally (e ∷ es) = e.count + tally es

module _ (sc : Scale) where
  -- The groups of a collector of `n` samples, `k` of them successes and `e` with a kind of error.
  pub record IsBalanced (c : Collector sc.Float) (n k e : ℕ) : Type 0 where
    pub attempted : c.overall.attempted ≡ n
    pub succeeded : c.overall.succeeded ≡ k
    pub failed : total (λ m. m) c.errors ≡ e
    pub types_attempted : total (λ g. g.attempted) c.by_type ≡ n
    pub types_succeeded : total (λ g. g.succeeded) c.by_type ≡ k
    pub measured : c.overall.latency.n ≡ n

  abbrev one_if : Bool → ℕ
  one_if b = if b then 1 else 0

  collect-IsBalanced :
      (s : Sample) (c : Collector sc.Float) (n k e : ℕ)
      → IsBalanced c n k e
      → IsBalanced (collect sc s c) (n + 1) (k + one_if s.success) (e + one_if (has s.err_kind))
  unfolding collect add dizzy.Metrics.Histogram.add
  collect-IsBalanced s c n k e b = record {
    attempted = omega (arith, b.attempted);
    succeeded = ground (arith, b.succeeded);
    failed = elim (Bool-cases (has s.err_kind)) [
      | inl kind ↦ rw kind (
          total-change (λ m. m) 1 s.err_kind 0 (λ m. suc m) c.errors refl (λ m. omega arith)
          ∙ ap (λ m. m + 1) b.failed)
      | inr none ↦ rw none (omega (arith, b.failed))
    ];
    types_attempted =
        total-change (λ g. g.attempted) 1 s.type (new_group sc) (add sc s.success s.duration)
          c.by_type refl (λ g. omega arith)
        ∙ ap (λ m. m + 1) b.types_attempted;
    types_succeeded =
        total-change (λ g. g.succeeded) (one_if s.success) s.type (new_group sc)
          (add sc s.success s.duration) c.by_type refl (λ g. ground arith)
        ∙ ap (λ m. m + one_if s.success) b.types_succeeded;
    measured = omega (arith, b.measured);
  }

  IsBalanced-eq :
      (c : Collector sc.Float) {n k e n' k' e' : ℕ}
      → IsBalanced c n k e
      → n ≡ n'
      → k ≡ k'
      → e ≡ e'
      → IsBalanced c n' k' e'
  IsBalanced-eq c b p q r = record {
    attempted = b.attempted ∙ p;
    succeeded = b.succeeded ∙ q;
    failed = b.failed ∙ r;
    types_attempted = b.types_attempted ∙ p;
    types_succeeded = b.types_succeeded ∙ q;
    measured = b.measured ∙ p;
  }

  feed-IsBalanced :
      (ss : List Sample) (c : Collector sc.Float) (n k e : ℕ)
      → IsBalanced c n k e
      → IsBalanced
          (feed (collect sc) ss c)
          (n + length ss)
          (k + count_of (λ s. s.success) ss)
          (e + count_of (λ s. has s.err_kind) ss)
  feed-IsBalanced [] c n k e b = IsBalanced-eq c b (omega arith) (omega arith) (omega arith)
  feed-IsBalanced (s ∷ ss) c n k e b =
      let later =
        feed-IsBalanced ss (collect sc s c) (n + 1) (k + one_if s.success)
          (e + one_if (has s.err_kind)) (collect-IsBalanced s c n k e b) in
      IsBalanced-eq (feed (collect sc) ss (collect sc s c)) later (omega arith) (ground arith)
        (ground arith)

  count_of-le : (p : Sample → Bool) (ss : List Sample) → count_of p ss ≤ length ss
  count_of-le p [] = omega arith
  count_of-le p (s ∷ ss) = ground (arith, count_of-le p ss)

  -- The sum of a column over the rows of a report.
  abbrev pub column : (Stats → ℕ) → List Stats → ℕ
  column f [] = 0
  column f (s ∷ ss) = f s + column f ss

  column-stats :
      (wall : ℕ) (f : Stats → ℕ) (g : Group sc.Float → ℕ) (m : List (String × Group sc.Float))
      → ((type : String) (a : Group sc.Float) → f (stats sc type wall a) ≡ g a)
      → column f (map (λ e. stats sc e.0 wall e.1) m) ≡ total g m
  column-stats wall f g [] h = refl
  column-stats wall f g ((k, a) ∷ m) h = omega (arith, h k a, column-stats wall f g m h)

  tally-errors :
      (m : List (String × ℕ))
      → tally (map (λ e. record { kind = e.0; count = e.1 }) m) ≡ total (λ n. n) m
  tally-errors [] = refl
  tally-errors ((k, n) ∷ m) = omega (arith, tally-errors m)

  -- The report of a collector adds up, whatever samples it holds: the overall row counts each of them
  -- once, as a success or a failure; the rows of the types sum to it in each of these columns; and the
  -- error breakdown sums to the number of samples with a kind of error.
  pub aggregate-totals :
      (wall : ℕ) (ss : List Sample)
      → let a = aggregate sc wall (feed (collect sc) ss (new_collector sc)) in
        (a.overall.attempted ≡ length ss)
        × (a.overall.succeeded ≡ count_of (λ s. s.success) ss)
        × (a.overall.succeeded + a.overall.failed ≡ a.overall.attempted)
        × (column (λ r. r.attempted) a.by_type ≡ a.overall.attempted)
        × (column (λ r. r.succeeded) a.by_type ≡ a.overall.succeeded)
        × (tally a.errors ≡ count_of (λ s. has s.err_kind) ss)
  unfolding aggregate
  aggregate-totals wall ss =
      let b = feed-IsBalanced ss (new_collector sc) 0 0 0 (record {
        attempted = refl;
        succeeded = refl;
        failed = refl;
        types_attempted = refl;
        types_succeeded = refl;
        measured = refl;
      }) in
      (
        omega (arith, b.attempted),
        omega (arith, b.succeeded),
        omega (arith, b.attempted, b.succeeded, count_of-le (λ s. s.success) ss),
        omega (
          arith,
          column-stats wall (λ r. r.attempted) (λ g. g.attempted) _ (λ k a. refl),
          b.types_attempted,
          b.attempted,
        ),
        omega (
          arith,
          column-stats wall (λ r. r.succeeded) (λ g. g.succeeded) _ (λ k a. refl),
          b.types_succeeded,
          b.succeeded,
        ),
        omega (arith, tally-errors _, b.failed),
      )
