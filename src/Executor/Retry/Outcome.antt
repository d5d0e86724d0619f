-- ===== src/Executor/Retry/Outcome.antt =====
-- What `WithRetry` (internal/executor/executor.go) returns, and how often it calls and waits.
use dizzy.Prelude.{
  ℕ, zero, suc, ◌+◌, ◌≤◌, ◌<◌, ◌≡◌, ◌≢◌, ◌⊎◌, inl, inr, refl, true, false, Option, none, some, List,
  [], ◌∷◌, ◌++◌, ap, if_both, arith, Bool-cases, Option-cases, ◌==◌, ==_iff, subst,
}
use dizzy.Executor.Retry.{
  Errors, Attempts, is_retryable, is_conflict, gives_up, decide, wait, attempt_from, with_retry,
  next_backoff, max_attempts,
}

module _ (errors : Errors) where
  open errors use {E, is_quota, code_is}

  -- An error of one of the status codes that are worth a retry.
  abbrev pub Transient : E → Type 0
  Transient e =
      (code_is e 500 ≡ true)
      ⊎ (code_is e 502 ≡ true)
      ⊎ (code_is e 503 ≡ true)
      ⊎ (code_is e 504 ≡ true)
      ⊎ (code_is e 429 ≡ true)
      ⊎ (code_is e 409 ≡ true)

  -- Attempt `k` is worth another one after the error: it is no quota error, its status is transient,
  -- the attempt is not the fifth, and a conflict is not the second one.
  abbrev pub Worth : ℕ → E → Type 0
  Worth k e = (is_quota e ≡ false) × Transient e × (k ≢ 5) × (code_is e 409 ≡ true → k < 2)

  -- Why it is not.
  abbrev pub Final : ℕ → E → Type 0
  Final k e = (is_quota e ≡ true) ⊎ (¬ Transient e) ⊎ (k ≡ 5) ⊎ ((code_is e 409 ≡ true) × (2 ≤ k))

  Worth-gives_up : (k : ℕ) (e : E) → gives_up errors k e ≡ false → Worth k e
  unfolding gives_up is_retryable is_conflict
  Worth-gives_up k e h = (
    ground (arith, h),
    ground (arith, h),
    λ five. ground (arith, h, five),
    λ conflict. ground (arith, h, conflict),
  )

  Final-gives_up : (k : ℕ) (e : E) → gives_up errors k e ≡ true → Final k e
  unfolding gives_up is_retryable is_conflict
  Final-gives_up k e h = elim (Bool-cases (is_quota e)) [
    | inl q ↦ inl q
    | inr q ↦ elim (Bool-cases (is_retryable errors e)) [
      | inr r ↦ inr (inl (λ t. ground (arith, t, q, r)))
      | inl r ↦ elim (Bool-cases (k == max_attempts)) [
        | inl five ↦ inr (inr (inl ((==_iff k 5).0 five)))
        | inr other ↦ inr (inr (inr (ground (arith, h, q, r, other))))
      ]
    ]
  ]

module _ (errors : Errors) (fn cancelled : ℕ → Option errors.E) where
  -- An attempt that failed in a way worth a retry, with the run still on after the wait.
  abbrev pub Retried : ℕ → Type 0
  Retried k = (e : errors.E) × (fn k ≡ some e) × Worth errors k e × (cancelled k ≡ none)

  -- How the last attempt ends.
  pub data Ends (k : ℕ) : Option errors.E → Type 0 where
    succeeded : fn k ≡ none → Ends k none
    refused : (e : errors.E) → fn k ≡ some e → Final errors k e → Ends k (some e)
    interrupted : (e c : errors.E) → fn k ≡ some e → cancelled k ≡ some c → Ends k (some c)

  -- An account of the attempts from `k` on, `n` at most behind it.
  abbrev Account : ℕ → ℕ → ℕ → Option errors.E → Type 0
  Account n k calls err =
      (k ≤ calls) × (calls ≤ k + n) × ((j : ℕ) → k ≤ j → j < calls → Retried j) × Ends calls err

  abbrev Told : ℕ → ℕ → Attempts errors.E → Type 0
  Told n k a = Account n k a.calls a.err

  Told-now : (n k : ℕ) {o : Option errors.E} → Ends k o → Account n k k o
  Told-now n k h = (omega arith, omega arith, λ j le lt. absurd (omega arith), h)

  Told-later : (n k : ℕ) (a : Attempts errors.E) → Retried k → Told n (suc k) a → Told (suc n) k a
  Told-later n k a r (low, high, before, end) = (
    omega arith,
    omega arith,
    λ j le lt. elim (Bool-cases (k == j)) [
      | inl e ↦ subst Retried ((==_iff k j).0 e) r
      | inr e ↦ before j (ground arith) lt
    ],
    end,
  )

  wait-Told :
      (n k b : ℕ) (e : errors.E) (rest : Attempts errors.E)
      → fn k ≡ some e
      → gives_up errors k e ≡ false
      → Told n (suc k) rest
      → Told (suc n) k (wait errors fn cancelled k b (cancelled k) rest)
  wait-Told n k b e rest f g t = elim (Option-cases (cancelled k)) [
    | inl c ↦ rw c (Told-later n k rest (e, f, Worth-gives_up errors k e g, c) t)
    | inr (c, h) ↦ rw h (Told-now (suc n) k (interrupted e c f h))
  ]

  decide-Told :
      (n k b : ℕ) (rest : Attempts errors.E)
      → Told n (suc k) rest
      → Told (suc n) k (decide errors fn cancelled k b (fn k) rest)
  decide-Told n k b rest t = elim (Option-cases (fn k)) [
    | inl f ↦ rw f (Told-now (suc n) k (succeeded f))
    | inr (e, f) ↦ rw f (elim (Bool-cases (gives_up errors k e)) [
      | inl g ↦ rw g (Told-now (suc n) k (refused e f (Final-gives_up errors k e g)))
      | inr g ↦ rw g (wait-Told n k b e rest f g t)
    ])
  ]

  gives_up-max : (e : errors.E) → gives_up errors max_attempts e ≡ true
  unfolding gives_up
  gives_up-max e = ground arith

  told : (n k b : ℕ) → k + n ≡ max_attempts → Told n k (attempt_from errors fn cancelled n k b)
  unfolding attempt_from
  told zero k b h = elim (Option-cases (fn k)) [
    | inl f ↦ rw f (Told-now 0 k (succeeded f))
    | inr (e, f) ↦
        let five : gives_up errors k e ≡ true =
          subst (λ j. gives_up errors j e ≡ true) (omega arith) (gives_up-max e) in
        rw (f, five) (Told-now 0 k (refused e f (Final-gives_up errors k e five)))
  ]
  told (suc n) k b h = decide-Told n k b _ (told n (suc k) (next_backoff errors b) (omega arith))

  -- The waits of `n` attempts and the one before them.
  abbrev backoffs : ℕ → ℕ → List ℕ
  backoffs zero b = []
  backoffs (suc n) b = b ∷ backoffs n (next_backoff errors b)

  abbrev Prefix : List ℕ → List ℕ → Type 0
  Prefix xs ys = (rest : List ℕ) × (xs ++ rest ≡ ys)

  wait-Prefix :
      (k b : ℕ) (c : Option errors.E) (rest : Attempts errors.E) (ys : List ℕ)
      → Prefix rest.waits ys
      → Prefix (wait errors fn cancelled k b c rest).waits (b ∷ ys)
  wait-Prefix k b none rest ys h = (h.0, ap (λ zs. b ∷ zs) h.1)
  wait-Prefix k b (some c) rest ys h = (ys, refl)

  decide-Prefix :
      (k b : ℕ) (o : Option errors.E) (rest : Attempts errors.E) (ys : List ℕ)
      → Prefix rest.waits ys
      → Prefix (decide errors fn cancelled k b o rest).waits (b ∷ ys)
  decide-Prefix k b none rest ys h = (b ∷ ys, refl)
  decide-Prefix k b (some e) rest ys h =
      if_both (λ (a : Attempts errors.E). Prefix a.waits (b ∷ ys)) (gives_up errors k e)
        (b ∷ ys, refl) (wait-Prefix k b (cancelled k) rest ys h)

  waits-Prefix :
      (n k b : ℕ)
      → k + n ≡ max_attempts
      → Prefix (attempt_from errors fn cancelled n k b).waits (backoffs n b)
  unfolding attempt_from
  waits-Prefix zero k b h = elim (Option-cases (fn k)) [
    | inl f ↦ rw f ([], refl)
    | inr (e, f) ↦
        let five : gives_up errors k e ≡ true =
          subst (λ j. gives_up errors j e ≡ true) (omega arith) (gives_up-max e) in
        rw (f, five) ([], refl)
  ]
  waits-Prefix (suc n) k b h =
      decide-Prefix k b (fn k) _ (backoffs n (next_backoff errors b))
        (waits-Prefix n (suc k) (next_backoff errors b) (omega arith))

-- `WithRetry` calls its function at least once and at most five times. Each call but the last failed
-- with a 500, 502, 503, 504, 429 or 409 that is no quota error, no second conflict and not in the
-- fifth attempt, and the run was not cancelled in the wait behind it. The result is nil where the
-- last call succeeded, the last call's error where that is none of these or one of the exceptions,
-- or the cancellation's error.
pub with_retry-Ends :
    (errors : Errors) (fn cancelled : ℕ → Option errors.E)
    → let r = with_retry errors fn cancelled in
      (1 ≤ r.calls)
      × (r.calls ≤ 5)
      × ((k : ℕ) → 1 ≤ k → k < r.calls → Retried errors fn cancelled k)
      × Ends errors fn cancelled r.calls r.err
unfolding with_retry
with_retry-Ends errors fn cancelled = told errors fn cancelled 4 1 250 refl

-- The waits between the calls of `WithRetry` are the first ones of 250, 500, 1000 and 2000
-- milliseconds, in this order.
pub with_retry-waits :
    (errors : Errors) (fn cancelled : ℕ → Option errors.E)
    → (rest : List ℕ) × ((with_retry errors fn cancelled).waits ++ rest
        ≡ 250 ∷ 500 ∷ 1000 ∷ 2000 ∷ [])
unfolding with_retry
with_retry-waits errors fn cancelled = waits-Prefix errors fn cancelled 4 1 250 refl
