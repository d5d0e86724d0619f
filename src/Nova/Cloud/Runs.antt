-- ===== src/Nova/Cloud/Runs.antt =====
-- What holds after a step on the cloud, with an error and without
-- (internal/chaos/novagraph/graph.go).
use dizzy.Prelude.{ℕ, zero, suc, Bool, true, false, if◌then◌else◌, ◌||◌, not}
use dizzy.Nova.Cloud.{
  Answer, failed, answered, Exec, ◌>>=◌, on_error, handle, fail, Cloud, St, Get, done, request,
  when_not_found, retry_from, with_retry, next_backoff,
}

module _ {S E : Type 0} where
  abbrev pub Outcome : {A : Type 0} → (A → S → Type 0) → (S → Type 0) → Answer E A × S → Type 0
  Outcome Q R (a, s) = elim a [ failed e ↦ R s | answered v ↦ Q v s ]

  -- Where `P` holds before, `Q` holds after a value and `R` after an error.
  abbrev pub Runs :
      {A : Type 0} → (S → Type 0) → Exec S E A → (A → S → Type 0) → (S → Type 0) → Type 0
  Runs P m Q R = (s : S) → P s → Outcome Q R (m s)

  handle_answer :
      {A B : Type 0} (a : Answer E A) (f : E → Exec S E B) (g : A → Exec S E B) (M : A → S → Type 0)
      (N : S → Type 0) (Q : B → S → Type 0) (R : S → Type 0) (s : S)
      → Outcome M N (a, s)
      → ((e : E) → Runs N (f e) Q R)
      → ((u : A) → Runs (M u) (g u) Q R)
      → Outcome Q R (elim a [ failed e ↦ f e s | answered u ↦ g u s ])
  handle_answer (failed e) f g M N Q R s o h k = h e s o
  handle_answer (answered u) f g M N Q R s o h k = k u s o

  pub Runs-handle :
      {A B : Type 0} (P : S → Type 0) (M : A → S → Type 0) (N : S → Type 0) (Q : B → S → Type 0)
      (R : S → Type 0) (m : Exec S E A) (f : E → Exec S E B) (g : A → Exec S E B)
      → Runs P m M N
      → ((e : E) → Runs N (f e) Q R)
      → ((u : A) → Runs (M u) (g u) Q R)
      → Runs P (handle m f g) Q R
  unfolding handle
  Runs-handle P M N Q R m f g r h k s p = handle_answer (m s).0 f g M N Q R (m s).1 (r s p) h k

  pub Runs-bind :
      {A B : Type 0} (P : S → Type 0) (M : A → S → Type 0) (Q : B → S → Type 0) (R : S → Type 0)
      (m : Exec S E A) (g : A → Exec S E B)
      → Runs P m M R
      → ((u : A) → Runs (M u) (g u) Q R)
      → Runs P (m >>= g) Q R
  unfolding handle ◌>>=◌ fail
  Runs-bind P M Q R m g r k = Runs-handle P M R Q R m fail g r (λ e s n. n) k

  pub Runs-on_error :
      {A : Type 0} (P : S → Type 0) (N : S → Type 0) (Q : A → S → Type 0) (R : S → Type 0)
      (m : Exec S E A) (f : E → Exec S E A)
      → Runs P m Q N
      → ((e : E) → Runs N (f e) Q R)
      → Runs P (on_error m f) Q R
  unfolding handle on_error
  Runs-on_error P N Q R m f r h =
      Runs-handle P Q N Q R m f (λ v s. (answered v, s)) r h (λ u s q. q)

  pub Runs-if :
      {A : Type 0} (b : Bool) (P : S → Type 0) (Q : A → S → Type 0) (R : S → Type 0)
      (m n : Exec S E A)
      → Runs P m Q R
      → Runs P n Q R
      → Runs P (if b then m else n) Q R
  Runs-if true P Q R m n h k = h
  Runs-if false P Q R m n h k = k

module _ (c : Cloud) (I : St c → Type 0) where
  pub Runs-not_found : (e : c.E) → Runs I (when_not_found c (done c) e) (λ _. I) I
  unfolding when_not_found done fail
  Runs-not_found e = Runs-if (c.is_not_found e) I (λ _. I) I (done c) (fail e) (λ s i. i) (λ s i. i)

  module _ {A : Type 0} (Q : A → St c → Type 0) (fn : Get c A) (h : Runs I fn Q I)
      (pauses : (b : ℕ) → Runs I (request c (c.pause b)) (λ _. I) I) where
    retry_from-Runs : (left backoff : ℕ) → Runs I (retry_from c left backoff fn) Q I
    unfolding retry_from fail
    retry_from-Runs zero backoff = h
    retry_from-Runs (suc left) backoff =
        let rest = retry_from-Runs left (next_backoff backoff) in
        Runs-on_error I I Q I fn _ h (λ e.
          Runs-if (c.is_quota e || not (c.is_retryable e)) I Q I (fail e) _ (λ s i. i)
            (Runs-bind I (λ _. I) Q I (request c (c.pause backoff)) _ (pauses backoff) (λ _. rest)))

    pub with_retry-Runs : Runs I (with_retry c fn) Q I
    unfolding with_retry
    with_retry-Runs = retry_from-Runs 4 _
