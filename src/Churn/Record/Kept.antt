-- ===== src/Churn/Record/Kept.antt =====
-- No decision of the scheduler (internal/chaos/engine.go) drops an instance from the run record.
use dizzy.Prelude.{
  ℕ, zero, suc, ◌≡◌, inl, inr, refl, sym, ◌∙◌, subst, Bool, true, false, ◌==◌, ==_iff, Bool-cases,
  if_both, Option, List, [], ◌∷◌, length, update, arith,
}
use dizzy.Churn.Graph.{Graph, node_at, is_rolling}
use dizzy.Churn.State.{
  Action, create, delete, mutate, noop, Decision, NodeState, Sched, is_present, keep_unsettled,
  retire, retry_deletes,
}
use dizzy.Churn.Dispatch.{
  launch, dispatch_create, dispatch_delete, dispatch_mutate, record_decision, count_action,
  sample_population, idle,
}
use dizzy.Churn.Choice.{Source, Knobs, Choice, creates, deletes, mutates, nothing}
use dizzy.Churn.Step.{visit_children, visit, roll, perform, step}
use dizzy.Churn.Allowed.{Allowed, IsFair, choose-Allowed}
use dizzy.Churn.Record.{
  OwedAt, Owed, Grows, update-Grows, update-Pending, Held-Grows, Held-append, Held-keep_unsettled,
  retry_deletes-Grows, retry_deletes-Held,
}

-- A change of one node's state that keeps what it owes, with new operations only.
place-Owed :
    (s t : Sched) (i j : ℕ) (c : Option ℕ) (new : NodeState)
    → ((k : ℕ) → t.states k ≡ update s.states i new k)
    → Grows s.ops t.ops
    → (Owed s i c → OwedAt t.ops new c)
    → Owed s j c
    → Owed t j c
place-Owed s t i j c new same g keep o = elim (Bool-cases (i == j)) [
  | inl e ↦
      let q : t.states j ≡ new = same j ∙ (rw e refl) in
      subst (λ st. OwedAt t.ops st c) (sym q)
        (keep (subst (λ k. Owed s k c) (sym ((==_iff i j).0 e)) o))
  | inr e ↦
      let q : t.states j ≡ s.states j = same j ∙ (rw e refl) in
      subst (λ st. OwedAt t.ops st c) (sym q)
        (elim o [ inl p ↦ inl p | inr h ↦ inr (Held-Grows s.ops t.ops _ c g h) ])
]

dispatch_create-Owed :
    (g : Graph) (offset i j : ℕ) (c : Option ℕ) (s : Sched)
    → is_present s i ≡ false
    → Owed s j c
    → Owed (dispatch_create g i offset s) j c
unfolding dispatch_create launch
dispatch_create-Owed g offset i j c s absent =
    let out = retry_deletes s.ops (suc s.next_op) offset (s.states i).retired in
    let t = dispatch_create g i offset s in
    let grows : Grows out.ops t.ops = update-Grows out.ops s.next_op _ refl in
    place-Owed s t i j c _ (λ k. refl)
      (λ k h. grows k (retry_deletes-Grows s.ops (suc s.next_op) offset (s.states i).retired k h))
      (λ o. elim o [
        | inl (p, _) ↦ cc
        | inr h ↦ inr (
            Held-Grows out.ops t.ops out.retired c grows
              (retry_deletes-Held s.ops (suc s.next_op) offset (s.states i).retired c h))
      ])

dispatch_delete-Owed :
    (g : Graph) (offset : ℕ) (extra : List (Option ℕ)) (i j : ℕ) (c : Option ℕ) (s : Sched)
    → Owed s j c
    → Owed (dispatch_delete g i offset extra s) j c
unfolding dispatch_delete launch retire
dispatch_delete-Owed g offset extra i j c s =
    let t = dispatch_delete g i offset extra s in
    place-Owed s t i j c _ (λ k. refl) (update-Grows s.ops s.next_op _ refl)
      (λ o. elim o [
        | inl (_, same) ↦ inr (
            Held-append t.ops (keep_unsettled s.ops (s.states i).retired) _ c
              (inr (inl (same, update-Pending s.ops s.next_op _ refl))))
        | inr h ↦ inr (
            Held-append t.ops (keep_unsettled s.ops (s.states i).retired) _ c (
              inl (
                Held-Grows s.ops t.ops _ c (update-Grows s.ops s.next_op _ refl)
                  (Held-keep_unsettled s.ops (s.states i).retired c h))))
      ])

dispatch_mutate-Owed :
    (g : Graph) (offset i j : ℕ) (c : Option ℕ) (s : Sched)
    → Owed s j c
    → Owed (dispatch_mutate g i offset s) j c
unfolding dispatch_mutate launch
dispatch_mutate-Owed g offset i j c s =
    let t = dispatch_mutate g i offset s in
    place-Owed s t i j c _ (λ k. refl) (update-Grows s.ops s.next_op _ refl)
      (λ o. elim o [
        | inl p ↦ inl p
        | inr h ↦ inr (Held-Grows s.ops t.ops _ c (update-Grows s.ops s.next_op _ refl) h)
      ])

count_action-states : (a : Action) (s : Sched) → (count_action a s).states ≡ s.states
count_action-states create s = refl
count_action-states delete s = refl
count_action-states mutate s = refl
count_action-states noop s = refl

count_action-ops : (a : Action) (s : Sched) → (count_action a s).ops ≡ s.ops
count_action-ops create s = refl
count_action-ops delete s = refl
count_action-ops mutate s = refl
count_action-ops noop s = refl

record_decision-Owed :
    (u : Bool) (d : Decision) (j : ℕ) (c : Option ℕ) (s : Sched)
    → Owed s j c
    → Owed (record_decision u d s) j c
unfolding record_decision
record_decision-Owed true d j c s o =
    rw (count_action-states d.action s, count_action-ops d.action s) o
record_decision-Owed false d j c s o =
    rw (count_action-states d.action s, count_action-ops d.action s) o

record_decision-states :
    (u : Bool) (d : Decision) (s : Sched) → (record_decision u d s).states ≡ s.states
unfolding record_decision
record_decision-states true d s = count_action-states d.action s
record_decision-states false d s = count_action-states d.action s

visit_children-Owed :
    (go : ℕ → Sched → Sched) (cs : List ℕ) (j : ℕ) (c : Option ℕ) (s : Sched)
    → ((k : ℕ) (t : Sched) → Owed t j c → Owed (go k t) j c)
    → Owed s j c
    → Owed (visit_children go cs s) j c
visit_children-Owed go [] j c s h o = o
visit_children-Owed go (k ∷ ks) j c s h o =
    visit_children-Owed go ks j c _ h
      (if_both (λ (t : Sched). Owed t j c) (is_present s k) (h k s o) o)

visit-Owed :
    (g : Graph) (u : Bool) (offset : ℕ) (extra : List (Option ℕ)) (fuel i j : ℕ) (c : Option ℕ)
    (s : Sched)
    → Owed s j c
    → Owed (visit g u offset extra fuel i s) j c
unfolding visit
visit-Owed g u offset extra zero i j c s o = o
visit-Owed g u offset extra (suc fuel) i j c s o = dispatch_delete-Owed g offset extra i j c _ (
    record_decision-Owed u _ j c _ (
      visit_children-Owed (visit g u offset extra fuel) (g.children i) j c s
        (λ k t. visit-Owed g u offset extra fuel k j c t) o))

perform-Owed :
    (g : Graph) (u : Bool) (offset : ℕ) (choice : Choice) (j : ℕ) (c : Option ℕ) (s : Sched)
    → Allowed g (is_present s) (λ i. (s.states i).mutated) choice
    → Owed s j c
    → Owed (perform g u offset choice s) j c
unfolding perform roll
perform-Owed g u offset nothing j c s a o = record_decision-Owed u (idle offset) j c s o
perform-Owed g u offset (creates i) j c s a o =
    let absent : is_present s i ≡ false = ground (arith, a.1) in
    dispatch_create-Owed g offset i j c _ (rw (record_decision-states u _ s) absent)
      (record_decision-Owed u _ j c s o)
perform-Owed g u offset (mutates i) j c s a o =
    dispatch_mutate-Owed g offset i j c _ (record_decision-Owed u _ j c s o)
perform-Owed g u offset (deletes i) j c s a o =
    if_both (λ (t : Sched). Owed t j c) (is_rolling (node_at g.nodes i))
      (visit-Owed g u offset _ (length g.nodes) i j c s o)
      (dispatch_delete-Owed g offset [] i j c _ (record_decision-Owed u _ j c s o))

-- No decision loses an instance: where the scheduler holds the instance of a create as present, or
-- as retired with a delete that is under way or has failed, it still does so after a step, with a
-- generator that draws indices in range.
pub step-Owed :
    (src : Source)
    → IsFair src
    → (g : Graph) (k : Knobs src.Float) (offset j : ℕ) (c : Option ℕ) (s : Sched) (r : src.Rng)
    → Owed s j c
    → Owed (step src g k offset (s, r)).0 j c
unfolding step sample_population
step-Owed src fair g k offset j c s r o =
    perform-Owed g k.unbounded offset _ j c s
      (choose-Allowed src fair g (is_present s) (λ i. (s.states i).mutated) k s.present r) o
