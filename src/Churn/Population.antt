-- ===== src/Churn/Population.antt =====
-- The logical inventory under the scheduler's decisions: the population counter, the dependencies
-- of the present nodes, and the ledger of creates and deletes.
use dizzy.Prelude.{
  ℕ, suc, ◌+◌, ◌-◌, ◌<◌, ◌≡◌, refl, fun_ext, Bool, true, false, not, Option, List, length, contains,
  every, every-contains, count_below, count_below-set, count_below-clear, update, arith,
}
use dizzy.Churn.Graph.{Graph}
use dizzy.Churn.State.{create, delete, mutate, Sched, is_present}
use dizzy.Churn.Dispatch.{
  dispatch_create, dispatch_delete, dispatch_mutate, record_decision, decision, idle,
  sample_population,
}

abbrev pub IsDual : Graph → Type 0
IsDual g = (i j : ℕ) → contains (g.parents i) j ≡ contains (g.children j) i

abbrev pub IsClosed : Graph → (ℕ → Bool) → Type 0
IsClosed g here = (i j : ℕ) → contains (g.parents i) j ≡ true → here i ≡ true → here j ≡ true

-- The population counter counts the present nodes, every parent of a present node is present, and
-- the population is the creates less the deletes.
pub record IsSound (g : Graph) (s : Sched) : Type 0 where
  pub counted : s.present ≡ count_below (is_present s) (length g.nodes)
  pub closed : IsClosed g (is_present s)
  pub ledger : s.present + s.deletes ≡ s.creates

-- What a change of the inventory at one node, with its counters, does to soundness.
set-IsSound :
    (g : Graph) (s t : Sched) (i : ℕ)
    → i < length g.nodes
    → is_present s i ≡ false
    → every (is_present s) (g.parents i) ≡ true
    → (is_present t ≡ update (is_present s) i true)
    → t.present ≡ suc s.present
    → t.creates ≡ suc s.creates
    → t.deletes ≡ s.deletes
    → IsSound g s
    → IsSound g t
set-IsSound g s t i lt absent parents flags p c d v = record {
  counted =
      rw flags
        (omega (arith, count_below-set (is_present s) i (length g.nodes) absent lt, v.counted));
  closed = rw flags (λ a b m h.
      ground (arith, v.closed a b m, every-contains (is_present s) (g.parents i) b parents));
  ledger = omega (arith, v.ledger);
}

clear-IsSound :
    (g : Graph) (s t : Sched) (i : ℕ)
    → IsDual g
    → i < length g.nodes
    → is_present s i ≡ true
    → every (λ c. not (is_present s c)) (g.children i) ≡ true
    → (is_present t ≡ update (is_present s) i false)
    → t.present ≡ s.present - 1
    → t.creates ≡ s.creates
    → t.deletes ≡ suc s.deletes
    → IsSound g s
    → IsSound g t
clear-IsSound g s t i dual lt there children flags p c d v = record {
  counted =
      rw flags
        (omega (arith, count_below-clear (is_present s) i (length g.nodes) there lt, v.counted));
  closed = rw flags (λ a b m h. ground (
    arith,
    v.closed a b m,
    dual a i,
    every-contains (λ c. not (is_present s c)) (g.children i) a children,
  ));
  ledger =
      omega
        (arith, v.ledger, v.counted, count_below-clear (is_present s) i (length g.nodes) there lt);
}

-- The decisions of one node, with their record.
abbrev pub decide_create : Graph → Bool → ℕ → ℕ → Sched → Sched
decide_create g u offset i s =
    dispatch_create g i offset (record_decision u (decision g offset create i) s)

abbrev pub decide_delete : Graph → Bool → ℕ → List (Option ℕ) → ℕ → Sched → Sched
decide_delete g u offset extra i s =
    dispatch_delete g i offset extra (record_decision u (decision g offset delete i) s)

abbrev pub decide_mutate : Graph → Bool → ℕ → ℕ → Sched → Sched
decide_mutate g u offset i s =
    dispatch_mutate g i offset (record_decision u (decision g offset mutate i) s)

pub decide_create-present :
    (g : Graph) (u : Bool) (offset i : ℕ) (s : Sched)
    → is_present (decide_create g u offset i s) ≡ update (is_present s) i true
unfolding dispatch_create record_decision
decide_create-present g u offset i s = fun_ext λ j. ground arith

pub decide_delete-present :
    (g : Graph) (u : Bool) (offset : ℕ) (extra : List (Option ℕ)) (i : ℕ) (s : Sched)
    → is_present (decide_delete g u offset extra i s) ≡ update (is_present s) i false
unfolding dispatch_delete record_decision
decide_delete-present g u offset extra i s = fun_ext λ j. ground arith

pub decide_mutate-present :
    (g : Graph) (u : Bool) (offset i : ℕ) (s : Sched)
    → is_present (decide_mutate g u offset i s) ≡ is_present s
unfolding dispatch_mutate record_decision
decide_mutate-present g u offset i s = fun_ext λ j. ground arith

pub decide_create-IsSound :
    (g : Graph) (u : Bool) (offset i : ℕ) (s : Sched)
    → i < length g.nodes
    → is_present s i ≡ false
    → every (is_present s) (g.parents i) ≡ true
    → IsSound g s
    → IsSound g (decide_create g u offset i s)
decide_create-IsSound g u offset i s lt absent parents v =
    set-IsSound g s (decide_create g u offset i s) i lt absent parents
      (decide_create-present g u offset i s)
      (unfold dispatch_create record_decision in ground arith)
      (unfold dispatch_create record_decision in ground arith)
      (unfold dispatch_create record_decision in ground arith) v

pub decide_delete-IsSound :
    (g : Graph) (u : Bool) (offset : ℕ) (extra : List (Option ℕ)) (i : ℕ) (s : Sched)
    → IsDual g
    → i < length g.nodes
    → is_present s i ≡ true
    → every (λ c. not (is_present s c)) (g.children i) ≡ true
    → IsSound g s
    → IsSound g (decide_delete g u offset extra i s)
decide_delete-IsSound g u offset extra i s dual lt there children v =
    clear-IsSound g s (decide_delete g u offset extra i s) i dual lt there children
      (decide_delete-present g u offset extra i s)
      (unfold dispatch_delete record_decision in ground arith)
      (unfold dispatch_delete record_decision in ground arith)
      (unfold dispatch_delete record_decision in ground arith) v

same-IsSound :
    (g : Graph) (s t : Sched)
    → is_present t ≡ is_present s
    → t.present ≡ s.present
    → t.creates ≡ s.creates
    → t.deletes ≡ s.deletes
    → IsSound g s
    → IsSound g t
same-IsSound g s t flags p c d v = record {
  counted = rw flags (omega (arith, v.counted));
  closed = rw flags v.closed;
  ledger = omega (arith, v.ledger);
}

pub decide_mutate-IsSound :
    (g : Graph) (u : Bool) (offset i : ℕ) (s : Sched)
    → IsSound g s
    → IsSound g (decide_mutate g u offset i s)
decide_mutate-IsSound g u offset i s v =
    same-IsSound g s (decide_mutate g u offset i s) (decide_mutate-present g u offset i s)
      (unfold dispatch_mutate record_decision in ground arith)
      (unfold dispatch_mutate record_decision in ground arith)
      (unfold dispatch_mutate record_decision in ground arith) v

pub idle-IsSound :
    (g : Graph) (u : Bool) (offset : ℕ) (s : Sched)
    → IsSound g s
    → IsSound g (record_decision u (idle offset) s)
unfolding record_decision
idle-IsSound g true offset s v = v
idle-IsSound g false offset s v = same-IsSound g s _ refl refl refl refl v

pub sample-IsSound : (g : Graph) (s : Sched) → IsSound g s → IsSound g (sample_population s)
unfolding sample_population
sample-IsSound g s v = same-IsSound g s _ refl refl refl refl v
