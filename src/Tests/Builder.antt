-- ===== src/Tests/Builder.antt =====
-- Concrete inputs for the builders of churn graphs (internal/chaos/neutrongraph/graph.go).
use dizzy.Prelude.{
  suc, ◌-◌, ◌≤◌, ◌≡◌, refl, Bool, true, false, not, ◌&&◌, String, All, every, knows, knows_iff,
  knows-not, In, Fresh, List, [], ◌∷◌, length, map, valid, arith, Bool-cases, inl, inr,
}
use dizzy.Plan.{Subnet, Plan, validate}
use dizzy.Churn.Graph.{
  Node, new_graph, new_links, index_keys, find_key, link, link_parents, link_nodes,
}
use dizzy.Churn.Results.{new_results}
use dizzy.Churn.State.{new_sched}
use dizzy.Churn.Step.{run}
use dizzy.Churn.Population.{IsSound}
use dizzy.Churn.Rolling.{IsLayered}
use dizzy.Churn.Layered.{IsOrdered, keys, new_graph-IsLayered}
use dizzy.Builder.Neutron.{built, build, plan_nodes}
use dizzy.Builder.Neutron.Ordered.{build-IsOrdered, build-run}
use dizzy.Tests.Validation.{topology, topology_passes}
use dizzy.Tests.Churn.{counting, counting-IsFair, knobs, clock}

abbrev pub is_fresh : List String → List String → Bool
is_fresh seen [] = true
is_fresh seen (x ∷ xs) = not (knows seen x) && is_fresh (x ∷ seen) xs

pub is_fresh-Fresh : (seen xs : List String) → is_fresh seen xs ≡ true → Fresh seen xs
is_fresh-Fresh seen [] h = tt
is_fresh-Fresh seen (x ∷ xs) h = elim (Bool-cases (knows seen x)) [
  | inl e ↦ absurd (ground (arith, e, h))
  | inr e ↦ ((knows-not seen x).0 e, is_fresh-Fresh (x ∷ seen) xs (ground (arith, e, h)))
]

abbrev nodes : List Node
nodes = plan_nodes topology "external"

nodes-built : build topology "external" ≡ built nodes
unfolding build validate knows
nodes-built = refl

nodes-Fresh : Fresh [] (keys nodes)
unfolding knows
nodes-Fresh = is_fresh-Fresh [] (keys nodes) refl

nodes_count : length nodes ≡ 5
nodes_count = refl

build-IsOrdered_example :
    (ns : List Node) × (build topology "external" ≡ built ns) × IsOrdered [] ns
build-IsOrdered_example = build-IsOrdered topology "external" topology_passes

build-run_example :
    let g = new_graph nodes 3 2 in
    let s = (run counting g knobs clock (new_sched (new_results false 0 100), 0)).0 in
    IsSound g s × (s.present ≤ 5)
build-run_example =
    build-run topology "external" nodes 3 2 counting nodes-built nodes-Fresh (omega arith)
      counting-IsFair knobs clock (new_results false 0 100) 0

All-known : (seen refs : List String) → every (knows seen) refs ≡ true → All (λ r. In r seen) refs
All-known seen [] h = tt
All-known seen (r ∷ refs) h = elim (Bool-cases (knows seen r)) [
  | inl e ↦ ((knows_iff seen r).0 e, All-known seen refs (ground (arith, e, h)))
  | inr e ↦ absurd (ground (arith, e, h))
]

abbrev is_ordered : List String → List Node → Bool
is_ordered seen [] = true
is_ordered seen (nd ∷ nds) = every (knows seen) nd.parents && is_ordered (nd.key ∷ seen) nds

is_ordered-IsOrdered :
    (seen : List String) (nds : List Node) → is_ordered seen nds ≡ true → IsOrdered seen nds
is_ordered-IsOrdered seen [] h = tt
is_ordered-IsOrdered seen (nd ∷ nds) h = elim (Bool-cases (every (knows seen) nd.parents)) [
  | inl e ↦
      (All-known seen nd.parents e, is_ordered-IsOrdered (nd.key ∷ seen) nds (ground (arith, e, h)))
  | inr e ↦ absurd (ground (arith, e, h))
]

nodes-IsOrdered : IsOrdered [] nodes
unfolding knows
nodes-IsOrdered = is_ordered-IsOrdered [] nodes refl

new_graph-IsLayered_example : IsLayered (new_graph nodes 3 2) (λ i. 5 - suc i)
new_graph-IsLayered_example =
    new_graph-IsLayered nodes 3 2 (omega arith) nodes-Fresh nodes-IsOrdered

abbrev rename : Subnet → Subnet
rename s = record s { network = "subnet-0001" }

-- A subnet with the name of its network.
abbrev same_name : Plan
same_name = record topology {
  networks = record { name = "subnet-0001" } ∷ [];
  subnets = map rename topology.subnets;
}

same_name_passes : validate same_name ≡ valid
unfolding validate knows
same_name_passes = refl

-- Its node is its own parent.
same_name_parents : (new_graph (plan_nodes same_name "external") 3 2).parents 2 ≡ 2 ∷ []
unfolding new_graph new_links index_keys find_key link link_parents link_nodes
same_name_parents = refl
