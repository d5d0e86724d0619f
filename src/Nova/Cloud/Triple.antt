-- ===== src/Nova/Cloud/Triple.antt =====
-- What holds where a step on the cloud returns no error (internal/chaos/novagraph/graph.go).
use dizzy.Prelude.{ℕ, zero, suc, ◌≡◌, refl, Bool, true, false, if◌then◌else◌, ◌||◌, not}
use dizzy.Nova.Cloud.{
  Answer, failed, answered, Exec, ◌>>=◌, on_error, fail, Cloud, St, Get, request, retry_from,
  with_retry, next_backoff,
}

-- Where `P` holds before and a value is returned, `Q` holds of it afterwards.
abbrev pub Triple : {S E A : Type 0} → (S → Type 0) → Exec S E A → (A → S → Type 0) → Type 0
Triple {S} {E} {A} P m Q = (s : S) → P s → (v : A) → (m s).0 ≡ answered v → Q v (m s).1

-- It holds of the state whatever is returned.
abbrev pub Always : {S : Type 0} → S → Type 0
Always s = Unit

-- It stays, error or not.
abbrev pub Keeps : {S E A : Type 0} → (S → Type 0) → Exec S E A → Type 0
Keeps {S} {E} {A} P m = (s : S) → P s → P (m s).1

module _ {S E : Type 0} where
  bind_answer :
      {A B : Type 0} (a : Answer E A) (f : A → Exec S E B) (R : A → S → Type 0) (Q : B → S → Type 0)
      (s : S)
      → ((u : A) → a ≡ answered u → R u s)
      → ((u : A) → Triple (R u) (f u) Q)
      → let out : Answer E B × S = elim a [ failed e ↦ (failed e, s) | answered u ↦ f u s ] in
        (v : B) → out.0 ≡ answered v → Q v out.1
  bind_answer (failed x) f R Q s h k v e = cc
  bind_answer (answered u) f R Q s h k v e = k u s (h u refl) v e

  pub Triple-bind :
      {A B : Type 0} (P : S → Type 0) (R : A → S → Type 0) (Q : B → S → Type 0) (m : Exec S E A)
      (f : A → Exec S E B)
      → Triple P m R
      → ((u : A) → Triple (R u) (f u) Q)
      → Triple P (m >>= f) Q
  unfolding ◌>>=◌
  Triple-bind P R Q m f h k s p v e = bind_answer (m s).0 f R Q (m s).1 (h s p) k v e

  rescue_answer :
      {A : Type 0} (P : S → Type 0) (a : Answer E A) (f : E → Exec S E A) (Q : A → S → Type 0)
      (s : S)
      → P s
      → ((u : A) → a ≡ answered u → Q u s)
      → ((x : E) → Triple P (f x) Q)
      → let out : Answer E A × S = elim a [ failed x ↦ f x s | answered u ↦ (answered u, s) ] in
        (v : A) → out.0 ≡ answered v → Q v out.1
  rescue_answer P (failed x) f Q s p h k v e = k x s p v e
  rescue_answer P (answered u) f Q s p h k v e = h v e

  pub Triple-on_error :
      {A : Type 0} (P : S → Type 0) (Q : A → S → Type 0) (m : Exec S E A) (f : E → Exec S E A)
      → Triple P m Q
      → Keeps P m
      → ((x : E) → Triple P (f x) Q)
      → Triple P (on_error m f) Q
  unfolding on_error
  Triple-on_error P Q m f h keeps k s p v e =
      rescue_answer P (m s).0 f Q (m s).1 (keeps s p) (h s p) k v e

  pub Triple-fail : {A : Type 0} (P : S → Type 0) (Q : A → S → Type 0) (x : E) → Triple P (fail x) Q
  unfolding fail
  Triple-fail P Q x s p v e = cc

  pub Triple-if :
      {A : Type 0} (b : Bool) (P : S → Type 0) (Q : A → S → Type 0) (m n : Exec S E A)
      → Triple P m Q
      → Triple P n Q
      → Triple P (if b then m else n) Q
  Triple-if true P Q m n h k = h
  Triple-if false P Q m n h k = k

module _ (c : Cloud) {A : Type 0} (P : St c → Type 0) (Q : A → St c → Type 0) (fn : Get c A)
    (h : Triple P fn Q) (keeps : Keeps P fn)
    (pauses : (b : ℕ) → Keeps P (request c (c.pause b))) where
  retry_from-Triple : (left backoff : ℕ) → Triple P (retry_from c left backoff fn) Q
  unfolding retry_from
  retry_from-Triple zero backoff = h
  retry_from-Triple (suc left) backoff =
      let rest = retry_from-Triple left (next_backoff backoff) in
      Triple-on_error P Q fn _ h keeps (λ x.
        Triple-if (c.is_quota x || not (c.is_retryable x)) P Q (fail x) _ (Triple-fail P Q x) (
          Triple-bind P (λ _. P) Q (request c (c.pause backoff)) _ (λ s p v e. pauses backoff s p)
            (λ _. rest)))

  -- What the retries return without an error, an attempt returned.
  pub with_retry-Triple : Triple P (with_retry c fn) Q
  unfolding with_retry
  with_retry-Triple = retry_from-Triple 4 _
