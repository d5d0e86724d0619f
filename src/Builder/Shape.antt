-- ===== src/Builder/Shape.antt =====
-- What the order of a node list depends on: the keys and the parents.
use dizzy.Prelude.{◌≡◌, refl, sym, ap, ◌∙◌, subst, String, List, [], ◌∷◌, map, In, All}
use dizzy.Churn.Graph.{Node}
use dizzy.Churn.Layered.{IsOrdered, keys}

abbrev pub outline : Node → String × List String
outline nd = (nd.key, nd.parents)

abbrev pub shape : List Node → List (String × List String)
shape nds = map outline nds

pub shape-map :
    (f : Node → Node)
    → ((nd : Node) → outline (f nd) ≡ outline nd)
    → (nds : List Node) → shape (map f nds) ≡ shape nds
shape-map f h [] = refl
shape-map f h (nd ∷ nds) = rw (h nd, shape-map f h nds) refl

abbrev AreOrdered : List String → List (String × List String) → Type 0
AreOrdered seen [] = Unit
AreOrdered seen ((key, parents) ∷ xs) = All (λ pk. In pk seen) parents × AreOrdered (key ∷ seen) xs

IsOrdered→are :
    (seen : List String) (nds : List Node) → IsOrdered seen nds → AreOrdered seen (shape nds)
IsOrdered→are seen [] o = tt
IsOrdered→are seen (nd ∷ nds) o = (o.0, IsOrdered→are (nd.key ∷ seen) nds o.1)

are→IsOrdered :
    (seen : List String) (nds : List Node) → AreOrdered seen (shape nds) → IsOrdered seen nds
are→IsOrdered seen [] o = tt
are→IsOrdered seen (nd ∷ nds) o = (o.0, are→IsOrdered (nd.key ∷ seen) nds o.1)

pub shape-IsOrdered :
    (seen : List String) (xs ys : List Node)
    → shape xs ≡ shape ys
    → IsOrdered seen xs
    → IsOrdered seen ys
shape-IsOrdered seen xs ys e o =
    are→IsOrdered seen ys (subst (AreOrdered seen) e (IsOrdered→are seen xs o))

map-shape : (xs : List Node) → map (λ x. x.0) (shape xs) ≡ keys xs
map-shape [] = refl
map-shape (x ∷ xs) = rw (map-shape xs) refl

pub shape-keys : (xs ys : List Node) → shape xs ≡ shape ys → keys xs ≡ keys ys
shape-keys xs ys e = sym (map-shape xs) ∙ ap (map (λ x. x.0)) e ∙ map-shape ys
