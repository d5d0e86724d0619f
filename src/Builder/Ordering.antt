-- ===== src/Builder/Ordering.antt =====
-- Node lists that are put together of groups, each of which refers to the groups before it.
use dizzy.Prelude.{◌≡◌, refl, String, In, All, All-weaken, List, [], ◌∷◌, ◌++◌, map}
use dizzy.Churn.Graph.{Node}
use dizzy.Churn.Layered.{IsOrdered, keys}

-- The names are all among the keys.
abbrev pub Known : List String → List String → Type 0
Known names ks = (k : String) → In k names → In k ks

-- Every parent of the nodes is among the keys.
abbrev pub ParentsIn : List String → List Node → Type 0
ParentsIn ks nds = All (λ nd. All (λ pk. In pk ks) nd.parents) nds

pub In-left : (k : String) (xs ys : List Node) → In k (keys xs) → In k (keys (xs ++ ys))
In-left k [] ys m = elim m [ ]
In-left k (x ∷ xs) ys (In.first y e) = In.first y e
In-left k (x ∷ xs) ys (In.later m) = In.later (In-left k xs ys m)

pub In-right : (k : String) (xs ys : List Node) → In k (keys ys) → In k (keys (xs ++ ys))
In-right k [] ys m = m
In-right k (x ∷ xs) ys m = In.later (In-right k xs ys m)

-- What is ordered stays so when nodes follow whose parents came before.
IsOrdered-append_from :
    (seen : List String) (xs ys : List Node)
    → IsOrdered seen xs
    → ((more : List String) → Known seen more → Known (keys xs) more → IsOrdered more ys)
    → IsOrdered seen (xs ++ ys)
IsOrdered-append_from seen [] ys o h = h seen (λ k m. m) (λ k m. elim m [ ])
IsOrdered-append_from seen (x ∷ xs) ys o h = (
  o.0,
  IsOrdered-append_from (x.key ∷ seen) xs ys o.1 (λ more a b.
      h more (λ k m. a k (In.later m))
        (λ k m. elim m [ In.first y e ↦ a k (In.first y e) | In.later n ↦ b k n ])),
)

ParentsIn-IsOrdered :
    (ks seen : List String) (ys : List Node) → Known ks seen → ParentsIn ks ys → IsOrdered seen ys
ParentsIn-IsOrdered ks seen [] h a = tt
ParentsIn-IsOrdered ks seen (y ∷ ys) h a = (
  All-weaken (λ pk. In pk ks) (λ pk. In pk seen) h y.parents a.0,
  ParentsIn-IsOrdered ks (y.key ∷ seen) ys (λ k m. In.later (h k m)) a.1,
)

pub IsOrdered-append :
    (xs ys : List Node) → IsOrdered [] xs → ParentsIn (keys xs) ys → IsOrdered [] (xs ++ ys)
IsOrdered-append xs ys o a =
    IsOrdered-append_from [] xs ys o (λ more _ h. ParentsIn-IsOrdered (keys xs) more ys h a)

pub Known-map :
    {A : Type 0} (f : A → Node) (xs : List A) → Known (map (λ x. (f x).key) xs) (keys (map f xs))
Known-map f [] k m = m
Known-map f (x ∷ xs) k (In.first y e) = In.first y e
Known-map f (x ∷ xs) k (In.later m) = In.later (Known-map f xs k m)

-- Each entry's name is among the names.
pub In-names :
    {A : Type 0} (name : A → String) (xs : List A) → All (λ x. In (name x) (map name xs)) xs
In-names name [] = tt
In-names name (x ∷ xs) = (
  In.first (name x) refl,
  All-weaken (λ y. In (name y) (map name xs)) (λ y. In (name y) (name x ∷ map name xs))
      (λ y m. In.later m) xs (In-names name xs),
)

pub All-both {κ} :
    {A : Type 0} (P Q : A → Type κ) (xs : List A) → All P xs → All Q xs → All (λ x. P x × Q x) xs
All-both P Q [] a b = tt
All-both P Q (x ∷ xs) a b = ((a.0, b.0), All-both P Q xs a.1 b.1)

pub leaf-ParentsIn :
    {A : Type 0} (ks : List String) (f : A → Node)
    → ((x : A) → (f x).parents ≡ [])
    → (xs : List A) → ParentsIn ks (map f xs)
leaf-ParentsIn ks f h [] = tt
leaf-ParentsIn ks f h (x ∷ xs) = (rw (h x) tt, leaf-ParentsIn ks f h xs)

-- A group's names are keys of any list that it ends, and of any that follows.
pub last-Known :
    {A : Type 0} (xs : List Node) (f : A → Node) (items : List A)
    → Known (map (λ a. (f a).key) items) (keys (xs ++ map f items))
last-Known xs f items k m = In-right k xs (map f items) (Known-map f items k m)

pub later-Known :
    (names : List String) (xs ys : List Node)
    → Known names (keys xs)
    → Known names (keys (xs ++ ys))
later-Known names xs ys h k m = In-left k xs ys (h k m)
