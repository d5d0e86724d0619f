-- ===== src/Churn/Record/Listed.antt =====
-- The result's `Created` list (`liveResources`, internal/chaos/engine.go) holds what the scheduler owes.
use dizzy.Prelude.{
  ℕ, ◌≡◌, ◌⊎◌, inl, inr, refl, sym, subst, true, false, ◌<◌, ◌&&◌, ◌==◌, ==_iff, has, if_both,
  Bool-cases, Option, List, [], ◌∷◌, ◌++◌, length, contains, contains-range_from, arith,
}
use dizzy.Churn.Graph.{Graph}
use dizzy.Churn.State.{Resource, Op, Retired, NodeState, Sched, is_unsettled}
use dizzy.Churn.Task.{op_at, retired_resources, present_resource, live_of, live_resources}
use dizzy.Churn.Record.{Pending-is_unsettled, Held, Owed}

abbrev pub Lists : List Resource → Resource → Type 0
Lists [] r = true ≡ false
Lists (x ∷ xs) r = (x ≡ r) ⊎ Lists xs r

Lists-append : (xs ys : List Resource) (r : Resource) → Lists xs r ⊎ Lists ys r → Lists (xs ++ ys) r
Lists-append [] ys r (inl h) = cc
Lists-append [] ys r (inr h) = h
Lists-append (x ∷ xs) ys r (inl (inl h)) = inl h
Lists-append (x ∷ xs) ys r (inl (inr h)) = inr (Lists-append xs ys r (inl h))
Lists-append (x ∷ xs) ys r (inr h) = inr (Lists-append xs ys r (inr h))

-- The create has finished and left an id.
abbrev pub Made : (ℕ → Op) → Option ℕ → Type 0
Made ops c = ((op_at ops c).done ≡ true) × (has (op_at ops c).res.id ≡ true)

retired_resources-Lists :
    (ops : ℕ → Op) (rs : List Retired) (c : Option ℕ)
    → Made ops c
    → Held ops rs c
    → Lists (retired_resources ops rs) (op_at ops c).res
retired_resources-Lists ops [] c m h = h
retired_resources-Lists ops (r ∷ rs) c m (inl (e, u)) =
    subst (λ d. Made ops d → Lists (retired_resources ops (r ∷ rs)) (op_at ops d).res) e
      (λ n. rw (n.0, n.1, Pending-is_unsettled ops r u) (inl refl)) m
retired_resources-Lists ops (r ∷ rs) c m (inr h) =
    let rest = retired_resources-Lists ops rs c m h in
    if_both (λ (xs : List Resource). Lists xs (op_at ops c).res)
      ((op_at ops r.create).done && has (op_at ops r.create).res.id && is_unsettled ops r)
      (inr rest) rest

present_resource-Lists :
    (ops : ℕ → Op) (st : NodeState) (c : Option ℕ)
    → Made ops c
    → st.present ≡ true
    → st.create ≡ c
    → Lists (present_resource ops st) (op_at ops c).res
present_resource-Lists ops st c m p e =
    subst (λ d. Made ops d → Lists (present_resource ops st) (op_at ops d).res) e
      (λ n. rw (p, n.0, n.1) (inl refl)) m

live_of-Lists :
    (s : Sched) (is : List ℕ) (i : ℕ) (c : Option ℕ)
    → contains is i ≡ true
    → Made s.ops c
    → Owed s i c
    → Lists (live_of s is) (op_at s.ops c).res
unfolding live_of
live_of-Lists s [] i c h m o = cc
live_of-Lists s (k ∷ ks) i c h m o =
    Lists-append (retired_resources s.ops (s.states k).retired) _ _ (elim (Bool-cases (k == i)) [
      | inl e ↦ elim (subst (λ l. Owed s l c) (sym ((==_iff k i).0 e)) o) [
        | inl (p, q) ↦ inr (
            Lists-append _ (live_of s ks) _
              (inl (present_resource-Lists s.ops (s.states k) c m p q)))
        | inr held ↦ inl (retired_resources-Lists s.ops _ c m held)
      ]
      | inr e ↦ inr (
          Lists-append (present_resource s.ops (s.states k)) _ _
            (inr (live_of-Lists s ks i c (ground arith) m o)))
    ])

-- The result lists the resource of every instance that the scheduler holds at a node of the graph
-- as present, or as retired with a delete that is under way or has failed, once its create has
-- finished with an id.
pub live_resources-Lists :
    (g : Graph) (s : Sched) (i : ℕ) (c : Option ℕ)
    → i < length g.nodes
    → Made s.ops c
    → Owed s i c
    → Lists (live_resources g s) (op_at s.ops c).res
unfolding live_resources
live_resources-Lists g s i c lt m o =
    live_of-Lists s _ i c (contains-range_from (length g.nodes) 0 i (omega arith) (omega arith)) m o
