-- ===== src/Churn/Choice.antt =====
-- Choosing one decision (internal/chaos/engine.go): the candidate lists, the controller, and the
-- draws of `step`. The candidates are functions of the present flags, which is what they read of
-- the state. math/rand and the floating-point numbers are parameters.
use dizzy.Prelude.{
  ℕ, Bool, not, ◌&&◌, ◌||◌, if◌then◌else◌, String, List, [], ◌∷◌, length, get_or, every, select,
  range_from,
}
use dizzy.Churn.Graph.{Graph, node_at, is_rolling}

-- `intn r n` is `rng.Intn(n)`, `int63n r n` is `rng.Int63n(n)`, `float64 r` is `rng.Float64()`; `ratio a b` is
-- `float64(a) / float64(b)`.
pub record Source : Type 1 where
  pub Rng : Type 0
  pub Float : Type 0
  pub intn : Rng → ℕ → ℕ × Rng
  pub int63n : Rng → ℕ → ℕ × Rng
  pub float64 : Rng → Float × Rng
  pub float_lt : Float → Float → Bool
  pub plus : Float → Float → Float
  pub minus : Float → Float → Float
  pub ratio : ℕ → ℕ → Float
  pub nought : Float
  pub one : Float

-- The knobs that the scheduler reads, validated: no duration is negative and min_interval does not
-- exceed max_interval.
pub record Knobs (F : Type 0) : Type 0 where
  pub duration : ℕ
  pub min_interval : ℕ
  pub max_interval : ℕ
  pub max_parallel : ℕ
  pub churn_ratio : F
  pub target_fill : F
  pub resize_ratio : F
  pub unbounded : Bool

abbrev pub indices : Graph → List ℕ
indices g = range_from 0 (length g.nodes)

abbrev pub can_create : Graph → (ℕ → Bool) → ℕ → Bool
can_create g here i = not (here i) && every here (g.parents i)

unfoldable pub create_candidates : Graph → (ℕ → Bool) → List ℕ
create_candidates g here = select (can_create g here) (indices g)

abbrev pub is_eager : Graph → ℕ → Bool
is_eager g i = (node_at g.nodes i).pinned || is_rolling (node_at g.nodes i)

unfoldable pub eager_create_candidates : Graph → (ℕ → Bool) → List ℕ
eager_create_candidates g here =
    if g.eager then select (is_eager g) (create_candidates g here) else []

unfoldable pub set_whole : Graph → (ℕ → Bool) → String → Bool
set_whole g here roll = every here (g.sets roll)

abbrev pub can_delete : Graph → (ℕ → Bool) → ℕ → Bool
can_delete g here i =
    let nd = node_at g.nodes i in
    here i
    && not nd.pinned
    && (if is_rolling nd
        then g.roll_root i && set_whole g here nd.roll
        else every (λ c. not (here c)) (g.children i))

unfoldable pub delete_candidates : Graph → (ℕ → Bool) → List ℕ
unfolding set_whole
delete_candidates g here = select (can_delete g here) (indices g)

abbrev pub can_mutate : Graph → (ℕ → Bool) → (ℕ → Bool) → ℕ → Bool
can_mutate g here mutated i =
    let nd = node_at g.nodes i in here i && nd.has_mutate && (not (mutated i) || nd.pinned)

unfoldable pub mutate_candidates : Graph → (ℕ → Bool) → (ℕ → Bool) → List ℕ
mutate_candidates g here mutated = select (can_mutate g here mutated) (indices g)

pub data Choice : Type 0 where
  creates deletes mutates : ℕ → Choice
  nothing : Choice

module _ (src : Source) where
  open src use {Rng, Float, intn, float64, float_lt, plus, minus, ratio, nought, one}

  -- The controller's create probability, clamped.
  unfoldable pub p_create : Knobs Float → ℕ → ℕ → Float
  p_create k present nodes =
      let p = plus k.churn_ratio (minus k.target_fill (ratio present nodes)) in
      if float_lt p nought then nought else (if float_lt one p then one else p)

  -- `cands[rng.Intn(len(cands))]`
  abbrev pub draw : (ℕ → Choice) → List ℕ → Rng → Choice × Rng
  draw pick cands r = let (k, r') = intn r (length cands) in (pick (get_or cands k 0), r')

  -- The `switch` over the create and delete candidates.
  unfoldable pub choose_churn : Float → List ℕ → List ℕ → Rng → Choice × Rng
  choose_churn p [] [] r = (nothing, r)
  choose_churn p (c ∷ cs) [] r = draw creates (c ∷ cs) r
  choose_churn p [] (d ∷ ds) r = draw deletes (d ∷ ds) r
  choose_churn p (c ∷ cs) (d ∷ ds) r =
      let (x, r') = float64 r in
      if float_lt x p then draw creates (c ∷ cs) r' else draw deletes (d ∷ ds) r'

  unfoldable pub choose_mutate : List ℕ → (Rng → Choice × Rng) → Rng → Choice × Rng
  choose_mutate [] otherwise r = otherwise r
  choose_mutate (m ∷ ms) otherwise r = draw mutates (m ∷ ms) r

  unfoldable pub choose_eager : List ℕ → (Rng → Choice × Rng) → Rng → Choice × Rng
  choose_eager [] otherwise r = otherwise r
  choose_eager (c ∷ cs) otherwise r = draw creates (c ∷ cs) r

  -- The draws of `step`, in their order.
  unfoldable pub choose : Graph → Knobs Float → (ℕ → Bool) → (ℕ → Bool) → ℕ → Rng → Choice × Rng
  unfolding choose_churn choose_mutate choose_eager
  choose g k here mutated present r =
      let churn =
        choose_churn (p_create k present (length g.nodes)) (create_candidates g here)
          (delete_candidates g here) in
      choose_eager (eager_create_candidates g here)
        (λ r1.
          if g.has_mutable && float_lt nought k.resize_ratio
          then (let (x, r2) = float64 r1 in
              if float_lt x k.resize_ratio
              then choose_mutate (mutate_candidates g here mutated) churn r2
              else churn r2)
          else churn r1)
        r
