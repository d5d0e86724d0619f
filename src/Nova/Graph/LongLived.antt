-- ===== src/Nova/Graph/LongLived.antt =====
-- The long-lived graph of a Nova plan (`BuildLongLived` of internal/chaos/novagraph/graph.go).
use dizzy.Prelude.{
  ℕ, zero, suc, ◌≡◌, refl, sym, ◌∙◌, ap, subst, Bool, true, if◌then◌else◌, if_both, String, inl,
  inr, Verdict-cases, List, [], ◌∷◌, map, All, All-map, valid, arith,
}
use dizzy.Nova.Plan.{Plan, validate}
use dizzy.Nova.Graph.{
  Resolved, built, plan_nodes, build, pinned_node, set_mutate, set_where, set_mutations,
  has_mutation, index_of, build_long_lived,
}
use dizzy.Nova.Graph.Ordered.{build-nodes, plan_nodes-All}
use dizzy.Nova.Graph.Rolled.{nodes_of}
use dizzy.Churn.Graph.{Node, index_keys}
use dizzy.Churn.Layered.{IsOrdered}
use dizzy.Builder.Shape.{outline, shape, shape-map, shape-IsOrdered}

-- A node that is never deleted nor rolled.
abbrev pub Stays : Node → Type 0
Stays nd = (nd.pinned ≡ true) × (nd.roll ≡ "")

-- The list keeps its outline, and its nodes stay.
abbrev Same : List Node → List Node → Type 0
Same xs ys = (shape ys ≡ shape xs) × All Stays ys

set_mutate-Same : (i : ℕ) (nds : List Node) → All Stays nds → Same nds (set_mutate i nds)
unfolding set_mutate
set_mutate-Same i [] a = (refl, tt)
set_mutate-Same zero (nd ∷ nds) a = (refl, a)
set_mutate-Same (suc i) (nd ∷ nds) a =
    let rest = set_mutate-Same i nds a.1 in (ap (λ x. outline nd ∷ x) rest.0, (a.0, rest.1))

set_where-Same :
    {A : Type 0} (test : A → Bool) (name : A → String) (index : List (String × ℕ)) (xs : List A)
    (nds : List Node)
    → All Stays nds
    → Same nds (set_where test name index xs nds)
unfolding set_where
set_where-Same test name index [] nds a = (refl, a)
set_where-Same test name index (x ∷ xs) nds a =
    let marked = set_mutate (index_of index (name x)) nds in
    let one : Same nds (if test x then marked else nds) =
      if_both (Same nds) (test x) (set_mutate-Same (index_of index (name x)) nds a) (refl, a) in
    let rest = set_where-Same test name index xs (if test x then marked else nds) one.1 in
    (rest.0 ∙ one.0, rest.1)

set_mutations-Same :
    (p : Plan) (r : Resolved) (nds : List Node) → All Stays nds → Same nds (set_mutations p r nds)
set_mutations-Same p r nds a =
    let index = index_keys 0 nds [] in
    let servers = set_where-Same (has_mutation r) (λ s. s.name) index p.servers nds a in
    let volumes = set_where-Same (λ v. v.detach) (λ v. v.name) index p.volumes _ servers.1 in
    let ports = set_where-Same (λ pt. pt.detach) (λ pt. pt.name) index p.ports _ volumes.1 in
    (ports.0 ∙ volumes.0 ∙ servers.0, ports.1)

-- What a long-lived graph was built of.
pub record Lives (p : Plan) (nodes : List Node) : Type 0 where
  pub passes : validate p ≡ valid
  pub ordered : IsOrdered [] nodes
  pub stays : All Stays nodes

pub build_long_lived-Lives :
    (p : Plan) (r : Resolved) (nodes : List Node)
    → build_long_lived p r ≡ built nodes
    → Lives p nodes
unfolding build_long_lived build
build_long_lived-Lives p r nodes h = elim (Verdict-cases (validate p)) [
  | inr (err, e) ↦ absurd (ground (arith, e, h))
  | inl e ↦
      let pinned = map pinned_node (plan_nodes p r) in
      let made = set_mutations p r pinned in
      let whole : build_long_lived p r ≡ built made = rw (e, build_long_lived, build) refl in
      let same : made ≡ nodes = ap nodes_of (sym whole ∙ h) in
      let stays =
        All-map (λ nd. Stays (pinned_node nd)) Stays pinned_node (λ nd q. q) (plan_nodes p r)
          (plan_nodes-All p r (λ nd. Stays (pinned_node nd)) (λ g. (refl, refl)) (λ n. (refl, refl))
            (λ s _. (refl, refl)) (λ v _. (refl, refl)) (λ pt _. (refl, refl))) in
      let set = set_mutations-Same p r pinned stays in
      let keeps = set.0 ∙ shape-map pinned_node (λ nd. refl) (plan_nodes p r) in
      record {
        passes = e;
        ordered =
            subst (IsOrdered []) same
              (shape-IsOrdered [] (plan_nodes p r) made (sym keeps) (build-nodes p r e).1);
        stays = subst (All Stays) same set.1;
      }
]
