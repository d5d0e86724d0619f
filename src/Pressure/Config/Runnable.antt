-- ===== src/Pressure/Config/Runnable.antt =====
-- What `Config.Validate` (internal/pressure/engine.go) accepts.
use dizzy.Prelude.{
  ℕ, suc, ◌+◌, ◌-◌, ◌≤◌, ◌≡◌, ◌↔◌, ◌⊎◌, refl, subst, false, not, if_cases, Bool-cases, inl, inr,
  ltb, ◌==◌, List, [], ◌∷◌, All, ℤ, ℤ-cases, pos, negsuc, pos-injective, valid, refuse_if-valid,
  arith,
}
use dizzy.Pressure.Config.{
  Stage, stages_do_not_add_up, max_int64, is_positive, saturated, check_stages, check_staging,
}

abbrev pub AtLeast : ℕ → ℤ → Type 0
AtLeast b z = (n : ℕ) × (z ≡ pos n) × (b ≤ n)

-- The sum of the durations, none of which is negative.
abbrev pub total_duration : List Stage → ℕ
total_duration [] = 0
total_duration (st ∷ stages) =
    let d : ℕ = elim st.duration [ pos d ↦ d | negsuc d ↦ 0 ] in d + total_duration stages

-- The stages add up to the duration, or both are past the largest `time.Duration`.
abbrev pub AddUp : ℕ → ℕ → Type 0
AddUp total duration = (total ≡ duration) ⊎ ((max_int64 ≤ total) × (duration ≡ max_int64))

pub is_positive_iff : (z : ℤ) → (not (is_positive z) ≡ false) ↔ AtLeast 1 z
is_positive_iff (pos n) =
    (λ h. (n, refl, ground arith), λ h. let e = pos-injective h.1 in ground (arith, e, h.2))
is_positive_iff (negsuc n) = (λ h. cc, λ h. cc h.1)

saturated_le : (sum d : ℕ) → sum ≤ max_int64 → saturated sum d ≤ max_int64
unfolding saturated
saturated_le sum d b =
    if_cases (λ x. x ≤ max_int64) (ltb (max_int64 - sum) d) (λ _. omega arith) (λ h. ground arith)

AddUp-saturated :
    (sum d total duration : ℕ)
    → sum ≤ max_int64
    → duration ≤ max_int64
    → AddUp (saturated sum d + total) duration ↔ AddUp (sum + (d + total)) duration
unfolding saturated
AddUp-saturated sum d total duration b c = elim (Bool-cases (ltb (max_int64 - sum) d)) [
  | inl over ↦
      rw (over, saturated)
        (
          λ h. elim h [
            | inl e ↦ inr (ground arith, ground arith)
            | inr (a, e) ↦ inr (ground arith, e)
          ],
          λ h. elim h [ inl e ↦ absurd (ground arith) | inr (a, e) ↦ inr (omega arith, e) ],
        )
  | inr fits ↦
      rw (fits, saturated)
        (
          λ h. elim h [ inl e ↦ inl (omega arith) | inr (a, e) ↦ inr (omega arith, e) ],
          λ h. elim h [ inl e ↦ inl (omega arith) | inr (a, e) ↦ inr (omega arith, e) ],
        )
]

check_stages_lem :
    (duration i sum : ℕ) (stages : List Stage)
    → sum ≤ max_int64
    → duration ≤ max_int64
    → (check_stages duration i sum stages ≡ valid)
      ↔ (All (λ st. AtLeast 1 st.duration) stages × AddUp (sum + total_duration stages) duration)
unfolding check_stages
check_stages_lem duration i sum [] b c = (
  λ h. (
    tt,
    inl (ground (arith, (refuse_if-valid (not (sum == duration)) stages_do_not_add_up).0 h)),
  ),
  λ h. elim h.1 [
    | inl e ↦ (refuse_if-valid (not (sum == duration)) stages_do_not_add_up).1 (ground (arith, e))
    | inr (over, e) ↦
        (refuse_if-valid (not (sum == duration)) stages_do_not_add_up).1 (ground (arith, over, e))
  ],
)
check_stages_lem duration i sum (st ∷ stages) b c = elim (ℤ-cases st.duration) [
  | inl (d, e) ↦
      let next : saturated sum d ≤ max_int64 = saturated_le sum d b in
      let rest = check_stages_lem duration (suc i) (saturated sum d) stages next c in
      let same = AddUp-saturated sum d (total_duration stages) duration b c in
      rw e (elim (Bool-cases (d == 0)) [
        | inl none ↦
            rw none
              (λ h. cc, λ h. let n = pos-injective h.0.0.1 in absurd (ground (arith, n, h.0.0.2)))
        | inr more ↦ rw more (
          λ h. let r = rest.0 h in (((d, refl, ground arith), r.0), same.0 r.1),
          λ h. rest.1 (h.0.1, same.1 h.1),
        )
      ])
  | inr (n, e) ↦ rw e (λ h. cc, λ h. cc h.0.0.1)
]

-- For a duration that is a `time.Duration`, the check of a run's stages passes exactly when there
-- are none, or each lasts for a positive time and together they last for the duration, or for the
-- largest `time.Duration` or more where the duration is the largest.
pub check_staging_lem :
    (duration : ℕ) (stages : List Stage)
    → duration ≤ max_int64
    → (check_staging (pos duration) stages ≡ valid) ↔ (
        (stages ≡ [])
        ⊎ (All (λ st. AtLeast 1 st.duration) stages × AddUp (total_duration stages) duration))
check_staging_lem duration [] c = (λ _. inl refl, λ _. refl)
check_staging_lem duration (st ∷ stages) c =
    let all = st ∷ stages in
    let same : 0 + total_duration all ≡ total_duration all = omega arith in
    let spec =
      subst
        (λ x.
          (check_stages duration 0 0 all ≡ valid)
          ↔ (All (λ s. AtLeast 1 s.duration) all × AddUp x duration))
        same (check_stages_lem duration 0 0 all (omega arith) c) in
    (λ h. inr (spec.0 h), λ h. elim h [ inl e ↦ cc e | inr a ↦ spec.1 a ])
