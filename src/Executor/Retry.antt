-- ===== src/Executor/Retry.antt =====
-- `WithRetry` (internal/executor/executor.go), and the classes of errors it tells apart
-- (internal/neutron/client.go). Errors are gophercloud's: `Errors` says what is read of one.
pub mod Outcome
use dizzy.Prelude.{
  ℕ, zero, suc, ◌*◌, Bool, true, false, not, ◌&&◌, ◌||◌, if◌then◌else◌, ltb, leb, ◌==◌, Option,
  none, some, List, [], ◌∷◌, some_of,
}

pub record Errors : Type 1 where
  pub E : Type 0
  pub is_quota : E → Bool
  pub code_is : E → ℕ → Bool

-- In milliseconds.
abbrev pub retry_base_delay : ℕ
retry_base_delay = 250

abbrev pub retry_max_delay : ℕ
retry_max_delay = 5000

abbrev pub max_attempts : ℕ
max_attempts = 5

abbrev pub conflict_max_attempts : ℕ
conflict_max_attempts = 2

abbrev transient_codes : List ℕ
transient_codes = 500 ∷ 502 ∷ 503 ∷ 504 ∷ 429 ∷ 409 ∷ []

-- What the retries leave: the error, the calls that were made, and the waits between them.
pub record Attempts (E : Type 0) : Type 0 where
  pub err : Option E
  pub calls : ℕ
  pub waits : List ℕ

module _ (errors : Errors) where
  unfoldable pub is_retryable : errors.E → Bool
  is_retryable e = not (errors.is_quota e) && some_of (errors.code_is e) transient_codes

  unfoldable pub is_conflict : errors.E → Bool
  is_conflict e = not (errors.is_quota e) && errors.code_is e 409

  -- The `switch`, on an error: whether the attempt is the last one.
  unfoldable pub gives_up : ℕ → errors.E → Bool
  gives_up attempt e =
      errors.is_quota e
      || not (is_retryable e)
      || (attempt == max_attempts)
      || (is_conflict e && leb conflict_max_attempts attempt)

  abbrev pub next_backoff : ℕ → ℕ
  next_backoff b = if ltb retry_max_delay (b * 2) then retry_max_delay else b * 2

  -- `fn attempt` is the outcome of a call, `cancelled attempt` is `ctx.Err()` where the run is
  -- cancelled in the wait behind it.
  module _ (fn : ℕ → Option errors.E) (cancelled : ℕ → Option errors.E) where
    abbrev pub wait : ℕ → ℕ → Option errors.E → Attempts errors.E → Attempts errors.E
    wait attempt backoff (some e) rest = record {
      err = some e;
      calls = attempt;
      waits = backoff ∷ [];
    }
    wait attempt backoff none rest = record rest { waits = backoff ∷ rest.waits }

    abbrev pub decide : ℕ → ℕ → Option errors.E → Attempts errors.E → Attempts errors.E
    decide attempt backoff none rest = record { err = none; calls = attempt; waits = [] }
    decide attempt backoff (some e) rest =
        if gives_up attempt e
        then record { err = some e; calls = attempt; waits = [] }
        else wait attempt backoff (cancelled attempt) rest

    -- `n` attempts are left after this one; the loop ends with the last error.
    unfoldable pub attempt_from : ℕ → ℕ → ℕ → Attempts errors.E
    attempt_from zero attempt backoff =
        decide attempt backoff (fn attempt)
          (record { err = fn attempt; calls = attempt; waits = [] })
    attempt_from (suc n) attempt backoff =
        decide attempt backoff (fn attempt) (attempt_from n (suc attempt) (next_backoff backoff))

    unfoldable pub with_retry : Attempts errors.E
    unfolding attempt_from
    with_retry = attempt_from 4 1 retry_base_delay
