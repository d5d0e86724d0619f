-- ===== src/Pressure/Config/Accepted.antt =====
-- All the checks of `Config.Validate` (internal/pressure/engine.go).
use dizzy.Prelude.{
  ℕ, suc, ◌≤◌, ◌≡◌, ◌≢◌, ◌↔◌, ◌⊎◌, refl, sym, subst, Bool, Bool-cases, true, false, not, ◌&&◌, ◌||◌,
  inl, inr, ltb, List, [], ◌∷◌, All, ℤ, pos, negsuc, pos-injective, ltb_ℤ, Verdict, valid, ◌>>◌,
  >>-valid, refuse_if, refuse_if-valid, arith,
}
use dizzy.Pressure.Config.{
  Stage, Config, ConfigError, min_bucket_width, max_workers, max_int64, is_zero, is_positive,
  check_staging, is_staged, validate, duration_not_zero, duration_not_positive,
  bucket_width_not_set, bucket_width_too_small, checkpoint_interval_not_positive,
  workers_out_of_range, op_timeout_not_positive, stages_unbounded,
}
use dizzy.Pressure.Config.Runnable.{
  AtLeast, AddUp, total_duration, is_positive_iff, check_staging_lem,
}

-- The stages of a run, for whichever duration.
abbrev pub Staged : ℤ → List Stage → Type 0
Staged duration stages =
    (d : ℕ) × (duration ≡ pos d)
    × ((stages ≡ []) ⊎ (All (λ st. AtLeast 1 st.duration) stages × AddUp (total_duration stages) d))

pub record IsRunnable (c : Config) : Type 0 where
  pub endless : c.unbounded ≡ true → c.duration ≡ pos 0
  pub bounded : not c.unbounded ≡ true → AtLeast 1 c.duration
  pub sliced : c.unbounded ≡ true → c.bucket_width ≢ pos 0
  pub wide : (c.bucket_width ≡ pos 0) ⊎ AtLeast min_bucket_width c.bucket_width
  pub checkpointed : c.has_checkpoint ≡ true → AtLeast 1 c.checkpoint_interval
  pub workers : AtLeast 1 c.workers × (¬ AtLeast (suc max_workers) c.workers)
  pub op_timeout : AtLeast 1 c.op_timeout
  pub unstaged : c.unbounded ≡ true → c.stages ≡ []
  pub staged : Staged c.duration c.stages

is_zero_iff : (z : ℤ) → (is_zero z ≡ true) ↔ (z ≡ pos 0)
is_zero_iff (pos n) = (λ h. ground (arith, h), λ e. let f = pos-injective e in ground (arith, f))
is_zero_iff (negsuc n) = (λ h. cc h, λ e. cc e)

AtLeast-iff : (b : ℕ) (z : ℤ) → (ltb_ℤ z (pos b) ≡ false) ↔ AtLeast b z
AtLeast-iff b (pos n) =
    (λ h. (n, refl, ground (arith, h)), λ h. let e = pos-injective h.1 in ground (arith, e, h.2))
AtLeast-iff b (negsuc n) = (λ h. cc h, λ h. cc h.1)

above_iff : (b : ℕ) (z : ℤ) → (ltb_ℤ (pos b) z ≡ false) ↔ (¬ AtLeast (suc b) z)
above_iff b (pos n) = (
  λ h m. let e = pos-injective m.1 in absurd (ground (arith, e, h, m.2)),
  λ h. elim (Bool-cases (ltb b n)) [ inl e ↦ absurd (h (n, refl, ground (arith, e))) | inr e ↦ e ],
)
above_iff b (negsuc n) = (λ h m. cc m.1, λ h. refl)

positive_iff : (z : ℤ) → (is_positive z ≡ true) ↔ AtLeast 1 z
positive_iff z =
    let spec = is_positive_iff z in (λ h. spec.0 (ground (arith, h)), λ m. ground (arith, spec.1 m))

-- A check that asks for something where a flag is set.
guarded :
    (b t : Bool) (P : Type 0) (e : ConfigError)
    → ((t ≡ true) ↔ P)
    → (refuse_if (b && not t) e ≡ valid) ↔ (b ≡ true → P)
guarded true true P e h = (λ _ _. h.0 refl, λ _. refl)
guarded true false P e h = (λ v. cc v, λ f. cc (h.1 (f refl)))
guarded false t P e h = (λ _ f. cc f, λ _. refl)

both-valid :
    (P Q : Type 0) (a b : Verdict ConfigError)
    → ((a ≡ valid) ↔ P)
    → ((b ≡ valid) ↔ Q)
    → ((a >> b) ≡ valid) ↔ (P × Q)
both-valid P Q a b p q =
    let spec = >>-valid a b in
    (λ h. (p.0 (spec.0 h).0, q.0 (spec.0 h).1), λ h. spec.1 (p.1 h.0, q.1 h.1))

width_set :
    (b : Bool) (z : ℤ)
    → (refuse_if (b && is_zero z) bucket_width_not_set ≡ valid) ↔ (b ≡ true → z ≢ pos 0)
width_set true z = elim (Bool-cases (is_zero z)) [
  | inl e ↦ rw e (λ v. cc v, λ f. absurd (f refl ((is_zero_iff z).0 e)))
  | inr e ↦ rw e (λ _ _ q. cc ((is_zero_iff z).1 q, e), λ _. refl)
]
width_set false z = (λ _ f. cc f, λ _. refl)

width_enough :
    (z : ℤ)
    → (refuse_if (not (is_zero z) && ltb_ℤ z (pos min_bucket_width)) bucket_width_too_small ≡ valid)
      ↔ ((z ≡ pos 0) ⊎ AtLeast min_bucket_width z)
width_enough z =
    let spec = AtLeast-iff min_bucket_width z in
    elim (Bool-cases (is_zero z)) [
      | inl e ↦ rw e (λ _. inl ((is_zero_iff z).0 e), λ _. refl)
      | inr e ↦ elim (Bool-cases (ltb_ℤ z (pos min_bucket_width))) [
        | inl s ↦
            rw (e, s)
              (
                λ v. cc v,
                λ h. elim h [ inl q ↦ cc ((is_zero_iff z).1 q, e) | inr m ↦ cc (spec.1 m, s) ],
              )
        | inr s ↦ rw (e, s) (λ _. inr (spec.0 s), λ _. refl)
      ]
    ]

workers_valid :
    (z : ℤ)
    → (refuse_if (ltb_ℤ z (pos 1) || ltb_ℤ (pos max_workers) z) workers_out_of_range ≡ valid)
      ↔ (AtLeast 1 z × (¬ AtLeast (suc max_workers) z))
workers_valid z =
    let low = AtLeast-iff 1 z in
    let high = above_iff max_workers z in
    let spec =
      refuse_if-valid (ltb_ℤ z (pos 1) || ltb_ℤ (pos max_workers) z) workers_out_of_range in
    (
      λ v. let h = spec.0 v in (low.0 (ground (arith, h)), high.0 (ground (arith, h))),
      λ m. spec.1 (ground (arith, low.1 m.0, high.1 m.1)),
    )

stages_allowed :
    (stages : List Stage) (b : Bool)
    → (refuse_if (is_staged stages && b) stages_unbounded ≡ valid) ↔ (b ≡ true → stages ≡ [])
stages_allowed [] b = (λ _ _. refl, λ _. refl)
stages_allowed (st ∷ stages) true = (λ v. cc v, λ f. cc (f refl))
stages_allowed (st ∷ stages) false = (λ _ f. cc f, λ _. refl)

staging_valid :
    (duration : ℤ) (stages : List Stage)
    → ((d : ℕ) → duration ≡ pos d → d ≤ max_int64)
    → (check_staging duration stages ≡ valid) ↔ Staged duration stages
staging_valid (pos d) stages fits =
    let spec = check_staging_lem d stages (fits d refl) in
    (
      λ v. (d, refl, spec.0 v),
      λ h.
          let same : h.0 ≡ d = pos-injective (sym h.1) in
          spec.1 (
            subst
              (λ x.
                (stages ≡ [])
                ⊎ (All (λ st. AtLeast 1 st.duration) stages × AddUp (total_duration stages) x))
              same h.2),
    )
staging_valid (negsuc d) stages fits = (λ v. cc v, λ h. cc h.1)

-- `Config.Validate`, for a duration that is a `time.Duration`, accepts exactly the runnable
-- configurations: an endless run has the duration 0, a bucket width and no stages, a bounded one
-- lasts for a positive time; a bucket width that is set is at least a minute, a checkpoint has a
-- positive interval, there are 1 to 1024 workers, an operation's timeout is positive, and the
-- stages, if any, are positive and add up to the duration or, with it, to the largest one or more.
pub validate-IsRunnable :
    (c : Config)
    → ((d : ℕ) → c.duration ≡ pos d → d ≤ max_int64)
    → (validate c ≡ valid) ↔ IsRunnable c
unfolding validate
validate-IsRunnable c fits =
    let n1 =
      guarded c.unbounded (is_zero c.duration) (c.duration ≡ pos 0) duration_not_zero
        (is_zero_iff c.duration) in
    let n2 =
      guarded (not c.unbounded) (is_positive c.duration) (AtLeast 1 c.duration)
        duration_not_positive (positive_iff c.duration) in
    let n3 = width_set c.unbounded c.bucket_width in
    let n4 = width_enough c.bucket_width in
    let n5 =
      guarded c.has_checkpoint (is_positive c.checkpoint_interval) (AtLeast 1 c.checkpoint_interval)
        checkpoint_interval_not_positive (positive_iff c.checkpoint_interval) in
    let n6 = workers_valid c.workers in
    let n7 =
      guarded true (is_positive c.op_timeout) (AtLeast 1 c.op_timeout) op_timeout_not_positive
        (positive_iff c.op_timeout) in
    let n8 = stages_allowed c.stages c.unbounded in
    let n9 = staging_valid c.duration c.stages fits in
    let a2 = both-valid _ _ _ _ n1 n2 in
    let a3 = both-valid _ _ _ _ a2 n3 in
    let a4 = both-valid _ _ _ _ a3 n4 in
    let a5 = both-valid _ _ _ _ a4 n5 in
    let a6 = both-valid _ _ _ _ a5 n6 in
    let a7 = both-valid _ _ _ _ a6 n7 in
    let a8 = both-valid _ _ _ _ a7 n8 in
    let a9 = both-valid _ _ _ _ a8 n9 in
    (
      λ h.
          let ((((((((e, b), s), w), k), wo), t), u), st) = a9.0 h in
          record {
            endless = e;
            bounded = b;
            sliced = s;
            wide = w;
            checkpointed = k;
            workers = wo;
            op_timeout = t refl;
            unstaged = u;
            staged = st;
          },
      λ r. a9.1 (
        (
          (
            (((((r.endless, r.bounded), r.sliced), r.wide), r.checkpointed), r.workers),
            λ _. r.op_timeout,
          ),
          r.unstaged,
        ),
        r.staged,
      ),
    )
