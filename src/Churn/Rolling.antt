-- ===== src/Churn/Rolling.antt =====
-- `roll` (internal/chaos/engine.go): one step takes a root and everything below it out of the
-- inventory, children before parents.
use dizzy.Prelude.{
  ℕ, zero, suc, ◌≤◌, ◌<◌, ◌≡◌, refl, ◌∙◌, subst, ==_iff, ◌⊎◌, inl, inr, Bool, ◌==◌, true, false,
  not, Option, List, [], ◌∷◌, length, contains, every, arith, Bool-cases,
}
use dizzy.Churn.Graph.{Graph, node_at}
use dizzy.Churn.State.{Sched, is_present}
use dizzy.Churn.Step.{visit_children, visit, roll, set_ops}
use dizzy.Churn.Population.{IsDual, IsClosed, IsSound, decide_delete-present, decide_delete-IsSound}

-- `j` is `i` or depends on it.
pub data Below (g : Graph) : ℕ → ℕ → Type 0 where
  itself : {i : ℕ} → Below g i i
  under : {i j : ℕ} (c : ℕ) → contains (g.children i) c ≡ true → Below g c j → Below g i j

-- The graph has no cycle: its nodes have ranks that fall from parent to child.
pub record IsLayered (g : Graph) (rank : ℕ → ℕ) : Type 0 where
  pub dual : IsDual g
  pub lower : (i c : ℕ) → contains (g.children i) c ≡ true → rank c < rank i
  pub in_range : (i c : ℕ) → contains (g.children i) c ≡ true → c < length g.nodes
  pub shallow : (i : ℕ) → rank i < length g.nodes

Below-eq : (g : Graph) {i j : ℕ} → (i == j) ≡ true → Below g i j
Below-eq g {i} {j} e = subst (λ k. Below g i k) ((==_iff i j).0 e) Below.itself

module _ (g : Graph) (rank : ℕ → ℕ) where
  record Visited (s t : Sched) (i : ℕ) : Type 0 where
    sound : IsSound g t
    gone : is_present t i ≡ false
    shrinks : (j : ℕ) → is_present t j ≡ true → is_present s j ≡ true
    above : (j : ℕ) → rank i < rank j → is_present t j ≡ is_present s j
    only : (j : ℕ) → (is_present t j ≡ is_present s j) ⊎ Below g i j

  record Swept (s t : Sched) (i b : ℕ) (cs : List ℕ) : Type 0 where
    sound : IsSound g t
    gone : (c : ℕ) → contains cs c ≡ true → is_present t c ≡ false
    shrinks : (j : ℕ) → is_present t j ≡ true → is_present s j ≡ true
    above : (j : ℕ) → b ≤ rank j → is_present t j ≡ is_present s j
    only : (j : ℕ) → (is_present t j ≡ is_present s j) ⊎ Below g i j

  head-contains : (c : ℕ) (cs : List ℕ) → contains (c ∷ cs) c ≡ true
  head-contains c cs = ground arith

  tail-contains : (c d : ℕ) (cs : List ℕ) → contains cs d ≡ true → contains (c ∷ cs) d ≡ true
  tail-contains c d cs h = ground arith

  sweep-Swept :
      (go : ℕ → Sched → Sched) (i b : ℕ) (cs : List ℕ)
      → ((c : ℕ) → contains cs c ≡ true → contains (g.children i) c ≡ true)
      → ((c : ℕ) → contains cs c ≡ true → rank c < b)
      → ((c : ℕ) (s : Sched)
          → contains cs c ≡ true
          → IsSound g s
          → is_present s c ≡ true
          → Visited s (go c s) c)
      → (s : Sched) → IsSound g s
      → Swept s (visit_children go cs s) i b cs
  sweep-Swept go i b [] sub low visits s v = record {
    sound = v;
    gone = λ c m. cc;
    shrinks = λ j h. h;
    above = λ j h. refl;
    only = λ j. inl refl;
  }
  sweep-Swept go i b (c ∷ cs) sub low visits s v = elim (Bool-cases (is_present s c)) [
    | inl there ↦
        let first = visits c s (head-contains c cs) v there in
        let rest =
          sweep-Swept go i b cs (λ d m. sub d (tail-contains c d cs m))
            (λ d m. low d (tail-contains c d cs m)) (λ d t m. visits d t (tail-contains c d cs m))
            (go c s) first.sound in
        rw there (record {
          sound = rest.sound;
          gone = λ d m. ground (arith, rest.gone d, rest.shrinks c, first.gone);
          shrinks = λ j h. first.shrinks j (rest.shrinks j h);
          above = λ j h. rest.above j h ∙ first.above j (omega (arith, low c (head-contains c cs)));
          only = λ j. elim (rest.only j) [
            | inl e ↦ elim (first.only j) [
              | inl e' ↦ inl (e ∙ e')
              | inr below ↦ inr (Below.under c (sub c (head-contains c cs)) below)
            ]
            | inr below ↦ inr below
          ];
        })
    | inr absent ↦
        let rest =
          sweep-Swept go i b cs (λ d m. sub d (tail-contains c d cs m))
            (λ d m. low d (tail-contains c d cs m)) (λ d t m. visits d t (tail-contains c d cs m)) s
            v in
        rw absent (record {
          sound = rest.sound;
          gone = λ d m. ground (arith, rest.gone d, rest.shrinks c);
          shrinks = rest.shrinks;
          above = rest.above;
          only = rest.only;
        })
  ]

  every_absent :
      (p : ℕ → Bool) (cs : List ℕ)
      → ((c : ℕ) → contains cs c ≡ true → p c ≡ false)
      → every (λ c. not (p c)) cs ≡ true
  every_absent p [] h = refl
  every_absent p (c ∷ cs) h =
      ground
        (arith, h c (head-contains c cs), every_absent p cs (λ d m. h d (tail-contains c d cs m)))

  visit-Visited :
      (u : Bool) (offset : ℕ) (extra : List (Option ℕ)) (fuel i : ℕ) (s : Sched)
      → IsLayered g rank
      → rank i < fuel
      → i < length g.nodes
      → IsSound g s
      → is_present s i ≡ true
      → Visited s (visit g u offset extra fuel i s) i
  unfolding visit
  visit-Visited u offset extra zero i s l h lt v there = absurd (omega arith)
  visit-Visited u offset extra (suc fuel) i s l h lt v there =
      let cs = g.children i in
      let t = visit_children (visit g u offset extra fuel) cs s in
      let swept : Swept s t i (rank i) cs =
        sweep-Swept (visit g u offset extra fuel) i (rank i) cs (λ c m. m) (l.lower i)
          (λ c s' m v' there'.
            visit-Visited u offset extra fuel c s' l (omega (arith, l.lower i c m))
              (l.in_range i c m) v' there')
          s v in
      let still : is_present t i ≡ true = swept.above i (omega arith) ∙ there in
      let flags = decide_delete-present g u offset extra i t in
      record {
        sound =
            decide_delete-IsSound g u offset extra i t l.dual lt still
              (every_absent (is_present t) cs swept.gone) swept.sound;
        gone = rw flags (ground arith);
        shrinks = λ j. rw flags (λ e. ground (arith, swept.shrinks j));
        above = λ j b. rw flags (ground (arith, swept.above j (omega arith)));
        only = λ j. rw flags (elim (Bool-cases (i == j)) [
          | inl e ↦ inr (Below-eq g e)
          | inr e ↦ rw e (swept.only j)
        ]);
      }

-- Where the inventory is closed, nothing below an absent node is present.
absent-Below :
    (g : Graph) (here : ℕ → Bool) {i j : ℕ}
    → IsDual g
    → IsClosed g here
    → here i ≡ false
    → Below g i j
    → here j ≡ false
absent-Below g here dual closed e Below.itself = e
absent-Below g here {i} dual closed e (Below.under c m b) =
    absent-Below g here dual closed (ground (arith, closed c i, dual c i)) b

module _ (g : Graph) (rank : ℕ → ℕ) (u : Bool) (offset i : ℕ) (s : Sched)
    (layered : IsLayered g rank) (lt : i < length g.nodes) (sound : IsSound g s)
    (there : is_present s i ≡ true) where
  roll-Visited : Visited g rank s (roll g u offset i s) i
  unfolding roll
  roll-Visited =
      visit-Visited g rank u offset (set_ops s.states (g.sets (node_at g.nodes i).roll))
        (length g.nodes) i s layered (layered.shallow i) lt sound there

  pub roll-IsSound : IsSound g (roll g u offset i s)
  roll-IsSound = roll-Visited.sound

  -- In an acyclic graph with a sound inventory, a roll of a present node leaves neither the node nor
  -- anything that depends on it, however indirectly, in the inventory.
  pub roll-Below : (j : ℕ) → Below g i j → is_present (roll g u offset i s) j ≡ false
  roll-Below j b =
      absent-Below g (is_present (roll g u offset i s)) layered.dual roll-Visited.sound.closed
        roll-Visited.gone b

  -- In an acyclic graph with a sound inventory, a roll of a present node leaves every node that
  -- neither is that node nor depends on it as it was in the inventory.
  pub roll-not_Below : (j : ℕ) → ¬ Below g i j → is_present (roll g u offset i s) j ≡ is_present s j
  roll-not_Below j away = elim (roll-Visited.only j) [ inl e ↦ e | inr b ↦ absurd (away b) ]
