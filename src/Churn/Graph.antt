-- ===== src/Churn/Graph.antt =====
-- The static part of the churn engine (internal/chaos/engine.go): `Node`, and the indices that
-- `newEngine` computes from the node list. A slice indexed by node is a function of the index.
use dizzy.Prelude.{
  ℕ, suc, ◌≡◌, refl, Bool, false, not, ◌&&◌, ◌||◌, if◌then◌else◌, ltb, String, str_eq, Option, none,
  some, List, [], ◌∷◌, ◌++◌, get_or, contains, contains-append, some_of, update, arith,
}

-- The closures `Create`, `Delete` and `Mutate` are the cloud's: only whether `Mutate` is given
-- matters to the schedule. `gate` names the channel that a family of nodes shares.
pub record Node : Type 0 where
  pub key : String
  pub kind : String
  pub parents : List String
  pub gate : Option ℕ
  pub pinned : Bool
  pub roll : String
  pub has_mutate : Bool

abbrev pub no_node : Node
no_node = record {
  key = "";
  kind = "";
  parents = [];
  gate = none;
  pinned = false;
  roll = "";
  has_mutate = false;
}

pub record Graph : Type 0 where
  pub nodes : List Node
  pub parents : ℕ → List ℕ
  pub children : ℕ → List ℕ
  pub has_mutable : Bool
  pub eager : Bool
  pub sets : String → List ℕ
  pub roll_root : ℕ → Bool
  pub limit : ℕ

abbrev pub node_at : List Node → ℕ → Node
node_at nodes i = get_or nodes i no_node

abbrev pub is_rolling : Node → Bool
is_rolling nd = not (str_eq nd.roll "")

-- `index[nd.Key] = i`: the last node of a key wins.
unfoldable pub index_keys : ℕ → List Node → List (String × ℕ) → List (String × ℕ)
index_keys i [] index = index
index_keys i (nd ∷ nds) index = index_keys (suc i) nds ((nd.key, i) ∷ index)

unfoldable pub find_key : String → List (String × ℕ) → Option ℕ
find_key k [] = none
find_key k ((j, i) ∷ index) = if str_eq j k then some i else find_key k index

pub record Links : Type 0 where
  pub parents : ℕ → List ℕ
  pub children : ℕ → List ℕ

-- `parents[i] = append(parents[i], pi); children[pi] = append(children[pi], i)`
unfoldable pub link : ℕ → ℕ → Links → Links
link i pi l = record {
  parents = update l.parents i (l.parents i ++ pi ∷ []);
  children = update l.children pi (l.children pi ++ i ∷ []);
}

-- The loop over `nd.Parents`: an unknown key is skipped.
unfoldable pub link_parents : List (String × ℕ) → ℕ → List String → Links → Links
link_parents index i [] l = l
link_parents index i (pk ∷ pks) l =
    link_parents index i pks (elim (find_key pk index) [ none ↦ l | some pi ↦ link i pi l ])

unfoldable pub link_nodes : List (String × ℕ) → ℕ → List Node → Links → Links
link_nodes index i [] l = l
link_nodes index i (nd ∷ nds) l = link_nodes index (suc i) nds (link_parents index i nd.parents l)

-- The nodes of a rolling set, in index order.
pub set_members : String → ℕ → List Node → List ℕ
set_members roll i [] = []
set_members roll i (nd ∷ nds) =
    let rest = set_members roll (suc i) nds in
    if is_rolling nd && str_eq nd.roll roll then i ∷ rest else rest

-- A rolling node none of whose parents is in the same set.
pub is_root : List Node → List ℕ → Node → Bool
is_root nodes ps nd =
    is_rolling nd && not (some_of (λ pi. str_eq (node_at nodes pi).roll nd.roll) ps)

-- `limit` in `newEngine`: the size of `sem` and of `pending`.
pub op_limit : ℕ → ℕ → ℕ
op_limit max_parallel concurrency =
    let limit = if ltb concurrency max_parallel then concurrency else max_parallel in
    if ltb limit 1 then 1 else limit

unfoldable pub new_links : List Node → Links
unfolding index_keys find_key link link_parents link_nodes
new_links nodes =
    link_nodes (index_keys 0 nodes []) 0 nodes (record { parents = λ _. []; children = λ _. [] })

unfoldable pub new_graph : List Node → ℕ → ℕ → Graph
unfolding new_links set_members is_root op_limit
new_graph nodes max_parallel concurrency =
    let links = new_links nodes in
    record {
      nodes = nodes;
      parents = links.parents;
      children = links.children;
      has_mutable = some_of (λ nd. nd.has_mutate) nodes;
      eager = some_of (λ nd. nd.pinned || is_rolling nd) nodes;
      sets = λ roll. set_members roll 0 nodes;
      roll_root = λ i. is_root nodes (links.parents i) (node_at nodes i);
      limit = op_limit max_parallel concurrency;
    }

-- Lemmas on the links.
abbrev IsDual : Links → Type 0
IsDual l = (i j : ℕ) → contains (l.parents i) j ≡ contains (l.children j) i

link-IsDual : (i pi : ℕ) (l : Links) → IsDual l → IsDual (link i pi l)
unfolding link
link-IsDual i pi l d a b = ground (
  arith,
  d a b,
  contains-append (l.parents i) (pi ∷ []) b,
  contains-append (l.children pi) (i ∷ []) a,
)

link_parents-IsDual :
    (index : List (String × ℕ)) (i : ℕ) (pks : List String) (l : Links)
    → IsDual l
    → IsDual (link_parents index i pks l)
unfolding link_parents
link_parents-IsDual index i [] l d = d
link_parents-IsDual index i (pk ∷ pks) l d =
    link_parents-IsDual index i pks _
      (elim (find_key pk index) as (λ o. IsDual (elim o [ none ↦ l | some pi ↦ link i pi l ])) [
        | none ↦ d
        | some pi ↦ link-IsDual i pi l d
      ])

link_nodes-IsDual :
    (index : List (String × ℕ)) (i : ℕ) (nds : List Node) (l : Links)
    → IsDual l
    → IsDual (link_nodes index i nds l)
unfolding link_nodes
link_nodes-IsDual index i [] l d = d
link_nodes-IsDual index i (nd ∷ nds) l d =
    link_nodes-IsDual index (suc i) nds _ (link_parents-IsDual index i nd.parents l d)

-- In the graph that `newEngine` builds, `j` is listed among the parents of `i` exactly when `i` is
-- listed among the children of `j`.
pub new_graph-dual :
    (nodes : List Node) (m c i j : ℕ)
    → contains ((new_graph nodes m c).parents i) j ≡ contains ((new_graph nodes m c).children j) i
unfolding new_graph
new_graph-dual nodes m c i j = link_nodes-IsDual (index_keys 0 nodes []) 0 nodes _ (λ _ _. refl) i j
