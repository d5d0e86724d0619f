-- ===== src/Pressure/Config.antt =====
-- `Config.Validate` (internal/pressure/engine.go). Durations are nanoseconds.
pub mod Runnable
pub mod Accepted
use dizzy.Prelude.{
  ℕ, suc, ◌+◌, ◌-◌, Bool, true, false, not, ◌&&◌, ◌||◌, if◌then◌else◌, ltb, leb, ◌==◌, List, [],
  ◌∷◌, ℤ, pos, negsuc, ltb_ℤ, Verdict, valid, invalid, ◌>>◌, refuse_if,
}

-- A stage by its duration, and whether it has an `Enter`.
pub record Stage : Type 0 where
  pub duration : ℤ
  pub has_enter : Bool

-- The knobs that are checked: any seed and any classification of errors passes.
pub record Config : Type 0 where
  pub duration : ℤ
  pub unbounded : Bool
  pub bucket_width : ℤ
  pub workers : ℤ
  pub op_timeout : ℤ
  pub checkpoint_interval : ℤ
  pub has_checkpoint : Bool
  pub stages : List Stage

pub data ConfigError : Type 0 where
  duration_not_zero : ConfigError
  duration_not_positive : ConfigError
  bucket_width_not_set : ConfigError
  bucket_width_too_small : ConfigError
  checkpoint_interval_not_positive : ConfigError
  workers_out_of_range : ConfigError
  op_timeout_not_positive : ConfigError
  stages_unbounded : ConfigError
  stage_not_positive : ℕ → ConfigError
  stages_do_not_add_up : ConfigError

abbrev pub min_bucket_width : ℕ
min_bucket_width = 60_000_000_000

abbrev pub max_workers : ℕ
max_workers = 1024

abbrev pub max_int64 : ℕ
max_int64 = 9_223_372_036_854_775_807

abbrev pub is_zero : ℤ → Bool
is_zero (pos n) = n == 0
is_zero (negsuc n) = false

abbrev pub is_positive : ℤ → Bool
is_positive z = ltb_ℤ (pos 0) z

-- The sum saturates.
unfoldable pub saturated : ℕ → ℕ → ℕ
saturated sum d = if ltb (max_int64 - sum) d then max_int64 else sum + d

-- The loop over the stages: `i` stages are done.
unfoldable pub check_stages : ℕ → ℕ → ℕ → List Stage → Verdict ConfigError
unfolding saturated
check_stages duration i sum [] = refuse_if (not (sum == duration)) stages_do_not_add_up
check_stages duration i sum (st ∷ stages) = elim st.duration [
  | pos d ↦
      refuse_if (d == 0) (stage_not_positive (suc i))
      >> check_stages duration (suc i) (saturated sum d) stages
  | negsuc d ↦ invalid (stage_not_positive (suc i))
]

-- Without stages the sum is not compared.
abbrev pub check_staging : ℤ → List Stage → Verdict ConfigError
check_staging (negsuc d) stages = invalid duration_not_positive
check_staging (pos d) [] = valid
check_staging (pos d) (st ∷ stages) = check_stages d 0 0 (st ∷ stages)

abbrev pub is_staged : List Stage → Bool
is_staged [] = false
is_staged (st ∷ stages) = true

unfoldable pub validate : Config → Verdict ConfigError
unfolding check_stages
validate c =
    refuse_if (c.unbounded && not (is_zero c.duration)) duration_not_zero
    >> refuse_if (not c.unbounded && not (is_positive c.duration)) duration_not_positive
    >> refuse_if (c.unbounded && is_zero c.bucket_width) bucket_width_not_set
    >> refuse_if (not (is_zero c.bucket_width) && ltb_ℤ c.bucket_width (pos min_bucket_width))
        bucket_width_too_small
    >> refuse_if (c.has_checkpoint && not (is_positive c.checkpoint_interval))
        checkpoint_interval_not_positive
    >> refuse_if (ltb_ℤ c.workers (pos 1) || ltb_ℤ (pos max_workers) c.workers) workers_out_of_range
    >> refuse_if (not (is_positive c.op_timeout)) op_timeout_not_positive
    >> refuse_if (is_staged c.stages && c.unbounded) stages_unbounded
    >> check_staging c.duration c.stages
