-- ===== src/Churn/Record.antt =====
-- The run record's `Created` list (internal/chaos/engine.go): an instance that may still be in the cloud
-- stays with its node, as the present one or among the retired ones, whatever is decided.
pub mod Kept
pub mod Listed
use dizzy.Prelude.{
  ℕ, suc, ◌≡◌, ◌⊎◌, inl, inr, refl, sym, ◌∙◌, subst, Bool, true, false, not, ◌||◌, ◌&&◌, ◌==◌,
  ==_iff, if◌then◌else◌, if_both, Bool-cases, Option, none, some, List, [], ◌∷◌, ◌++◌, length,
  update, arith,
}
use dizzy.Churn.Graph.{Graph, node_at, is_rolling}
use dizzy.Churn.State.{
  Action, create, delete, mutate, noop, Decision, Op, new_op, retry_work, Retired, NodeState, Sched,
  is_present, is_unsettled, keep_unsettled, retire, retry_deletes,
}
use dizzy.Churn.Dispatch.{
  launch, dispatch_create, dispatch_delete, dispatch_mutate, record_decision, count_action,
  sample_population, idle,
}
use dizzy.Churn.Choice.{Source, Knobs, Choice, creates, deletes, mutates, nothing, choose}
use dizzy.Churn.Step.{visit_children, visit, roll, perform, step}
use dizzy.Churn.Population.{decide_create, decide_delete, decide_mutate}
use dizzy.Churn.Allowed.{Allowed, IsFair, choose-Allowed}

-- A delete that is still under way or has failed has not confirmed the removal.
abbrev pub Pending : Op → Type 0
Pending o = (o.done ≡ false) ⊎ (o.delete_failed ≡ true)

pub Pending-is_unsettled :
    (ops : ℕ → Op) (r : Retired) → Pending (ops r.del) → is_unsettled ops r ≡ true
Pending-is_unsettled ops r (inl d) = ground (arith, d)
Pending-is_unsettled ops r (inr f) = ground (arith, f)

-- The instance of create `c` is retired and its removal not confirmed.
abbrev pub Held : (ℕ → Op) → List Retired → Option ℕ → Type 0
Held ops [] c = true ≡ false
Held ops (r ∷ rs) c = ((r.create ≡ c) × Pending (ops r.del)) ⊎ Held ops rs c

abbrev pub OwedAt : (ℕ → Op) → NodeState → Option ℕ → Type 0
OwedAt ops st c = ((st.present ≡ true) × (st.create ≡ c)) ⊎ Held ops st.retired c

-- The instance of create `c` at node `i` may still be in the cloud, as far as the scheduler knows.
abbrev pub Owed : Sched → ℕ → Option ℕ → Type 0
Owed s i c = OwedAt s.ops (s.states i) c

abbrev pub Grows : (ℕ → Op) → (ℕ → Op) → Type 0
Grows ops ops' = (n : ℕ) → Pending (ops n) → Pending (ops' n)

pub update-Grows : (ops : ℕ → Op) (n : ℕ) (o : Op) → o.done ≡ false → Grows ops (update ops n o)
update-Grows ops n o d k h = elim (Bool-cases (n == k)) [ inl e ↦ rw e (inl d) | inr e ↦ rw e h ]

pub update-Pending : (ops : ℕ → Op) (n : ℕ) (o : Op) → o.done ≡ false → Pending (update ops n o n)
update-Pending ops n o d = let e : (n == n) ≡ true = (==_iff n n).1 refl in rw e (inl d)

pub Held-Grows :
    (ops ops' : ℕ → Op) (rs : List Retired) (c : Option ℕ)
    → Grows ops ops'
    → Held ops rs c
    → Held ops' rs c
Held-Grows ops ops' [] c g h = cc
Held-Grows ops ops' (r ∷ rs) c g (inl (e, u)) = inl (e, g r.del u)
Held-Grows ops ops' (r ∷ rs) c g (inr h) = inr (Held-Grows ops ops' rs c g h)

pub Held-append :
    (ops : ℕ → Op) (rs qs : List Retired) (c : Option ℕ)
    → Held ops rs c ⊎ Held ops qs c
    → Held ops (rs ++ qs) c
Held-append ops [] qs c (inl h) = cc
Held-append ops [] qs c (inr h) = h
Held-append ops (r ∷ rs) qs c (inl (inl h)) = inl h
Held-append ops (r ∷ rs) qs c (inl (inr h)) = inr (Held-append ops rs qs c (inl h))
Held-append ops (r ∷ rs) qs c (inr h) = inr (Held-append ops rs qs c (inr h))

pub Held-keep_unsettled :
    (ops : ℕ → Op) (rs : List Retired) (c : Option ℕ)
    → Held ops rs c
    → Held ops (keep_unsettled ops rs) c
Held-keep_unsettled ops [] c h = h
Held-keep_unsettled ops (r ∷ rs) c (inl (e, u)) = rw (Pending-is_unsettled ops r u) (inl (e, u))
Held-keep_unsettled ops (r ∷ rs) c (inr h) =
    let rest = Held-keep_unsettled ops rs c h in
    if_both (λ (qs : List Retired). Held ops qs c) (is_unsettled ops r) (inr rest) rest

pub retry_deletes-Grows :
    (ops : ℕ → Op) (n offset : ℕ) (rs : List Retired)
    → Grows ops (retry_deletes ops n offset rs).ops
unfolding retry_deletes
retry_deletes-Grows ops n offset [] k h = h
retry_deletes-Grows ops n offset (r ∷ rs) k h = elim (Bool-cases (is_unsettled ops r)) [
  | inl e ↦
      let fresh = new_op true [] retry_work offset in
      rw e (
        retry_deletes-Grows (update ops n fresh) (suc n) offset rs k
          (update-Grows ops n fresh refl k h))
  | inr e ↦ rw e (retry_deletes-Grows ops n offset rs k h)
]

pub retry_deletes-Held :
    (ops : ℕ → Op) (n offset : ℕ) (rs : List Retired) (c : Option ℕ)
    → Held ops rs c
    → Held (retry_deletes ops n offset rs).ops (retry_deletes ops n offset rs).retired c
unfolding retry_deletes
retry_deletes-Held ops n offset [] c h = h
retry_deletes-Held ops n offset (r ∷ rs) c h = elim (Bool-cases (is_unsettled ops r)) [
  | inl e ↦
      let fresh = new_op true [] retry_work offset in
      rw e (elim h [
        | inl (same, u) ↦ inl (
          same,
          retry_deletes-Grows (update ops n fresh) (suc n) offset rs n
              (update-Pending ops n fresh refl),
        )
        | inr later ↦ inr (
            retry_deletes-Held (update ops n fresh) (suc n) offset rs c
              (Held-Grows ops (update ops n fresh) rs c (update-Grows ops n fresh refl) later))
      ])
  | inr e ↦ rw e (elim h [
    | inl (same, u) ↦ cc (e, Pending-is_unsettled ops r u)
    | inr later ↦ inr (retry_deletes-Held ops n offset rs c later)
  ])
]
