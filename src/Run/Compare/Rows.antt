-- ===== src/Run/Compare/Rows.antt =====
-- The rows of a comparison (`compareByType` of internal/run/compare.go).
use dizzy.Prelude.{
  ◌≡◌, ◌↔◌, ◌⊎◌, refl, sym, ap, subst, ◌∙◌, inl, inr, Bool-cases, String, str_eq, str_ltb, eq_iff,
  In, List, [], ◌∷◌, ◌++◌, map, All, All-map, All-any,
}
use dizzy.Metrics.Collector.{Stats}
use dizzy.Run.Compare.{
  Floats, OperationDelta, operation_delta, compare_by_type, type_stats, names_of, insert_name,
  sort_names, compact_after, compact,
}

In-insert_name : (n x : String) (ys : List String) → In n (insert_name x ys) ↔ In n (x ∷ ys)
In-insert_name n x [] = (λ m. m, λ m. m)
In-insert_name n x (y ∷ ys) = elim (Bool-cases (str_ltb y x)) [
  | inl e ↦
      let rest = In-insert_name n x ys in
      rw e (
        λ m. elim m [
          | In.first z q ↦ In.later (In.first z q)
          | In.later k ↦ elim (rest.0 k) [
            | In.first z q ↦ In.first z q
            | In.later j ↦ In.later (In.later j)
          ]
        ],
        λ m. elim m [
          | In.first z q ↦ In.later (rest.1 (In.first z q))
          | In.later k ↦ elim k [
            | In.first z q ↦ In.first z q
            | In.later j ↦ In.later (rest.1 (In.later j))
          ]
        ],
      )
  | inr e ↦ rw e (λ m. m, λ m. m)
]

In-sort_names : (n : String) (xs : List String) → In n (sort_names xs) ↔ In n xs
In-sort_names n [] = (λ m. m, λ m. m)
In-sort_names n (x ∷ xs) =
    let here = In-insert_name n x (sort_names xs) in
    let rest = In-sort_names n xs in
    (
      λ m. elim (here.0 m) [ In.first z q ↦ In.first z q | In.later k ↦ In.later (rest.0 k) ],
      λ m. here.1 (elim m [ In.first z q ↦ In.first z q | In.later k ↦ In.later (rest.1 k) ]),
    )

-- What follows a name in the compacted list, with the name itself.
In-compact_after : (n x : String) (ys : List String) → In n (x ∷ compact_after x ys) ↔ In n (x ∷ ys)
In-compact_after n x [] = (λ m. m, λ m. m)
In-compact_after n x (y ∷ ys) = elim (Bool-cases (str_eq x y)) [
  | inl e ↦
      let same : x ≡ y = (eq_iff x y).0 e in
      let rest = In-compact_after n x ys in
      rw e (
        λ m. elim (rest.0 m) [ In.first z q ↦ In.first z q | In.later k ↦ In.later (In.later k) ],
        λ m. elim m [
          | In.first z q ↦ In.first z q
          | In.later k ↦ elim k [
            | In.first z q ↦ In.first x (same ∙ q)
            | In.later j ↦ rest.1 (In.later j)
          ]
        ],
      )
  | inr e ↦
      let rest = In-compact_after n y ys in
      rw e (
        λ m. elim m [ In.first z q ↦ In.first z q | In.later k ↦ In.later (rest.0 k) ],
        λ m. elim m [ In.first z q ↦ In.first z q | In.later k ↦ In.later (rest.1 k) ],
      )
]

In-compact : (n : String) (xs : List String) → In n (compact xs) ↔ In n xs
In-compact n [] = (λ m. m, λ m. m)
In-compact n (x ∷ xs) = In-compact_after n x xs

In-append : (n : String) (xs ys : List String) → In n (xs ++ ys) ↔ (In n xs ⊎ In n ys)
In-append n [] ys = (λ m. inr m, λ m. elim m [ inl a ↦ elim a [ ] | inr b ↦ b ])
In-append n (x ∷ xs) ys =
    let rest = In-append n xs ys in
    (
      λ m. elim m [
        | In.first z q ↦ inl (In.first z q)
        | In.later k ↦ elim (rest.0 k) [ inl a ↦ inl (In.later a) | inr b ↦ inr b ]
      ],
      λ m. elim m [
        | inl a ↦ elim a [ In.first z q ↦ In.first z q | In.later k ↦ In.later (rest.1 (inl k)) ]
        | inr b ↦ In.later (rest.1 (inr b))
      ],
    )

module _ (fl : Floats) (b o : List Stats) where
  abbrev row : String → OperationDelta fl.Float
  row name = operation_delta fl name (type_stats b name) (type_stats o name)

  rows_named : (names : List String) → map (λ d. d.operation) (map row names) ≡ names
  rows_named [] = refl
  rows_named (n ∷ names) = ap (λ ns. n ∷ ns) (rows_named names)

  -- A comparison by type has a row for a name exactly where one of the two lists has a group of it,
  -- and each row compares the first group of its name in the one with that in the other.
  pub compare_by_type-In :
      ((n : String)
        → In n (map (λ d. d.operation) (compare_by_type fl b o))
          ↔ (In n (names_of b) ⊎ In n (names_of o)))
      × All
          (λ d.
            d
            ≡ operation_delta fl d.operation (type_stats b d.operation) (type_stats o d.operation))
          (compare_by_type fl b o)
  unfolding compare_by_type
  compare_by_type-In =
      let names = compact (sort_names (names_of b ++ names_of o)) in
      (
        λ n.
            let sorted = In-sort_names n (names_of b ++ names_of o) in
            let once = In-compact n (sort_names (names_of b ++ names_of o)) in
            let both = In-append n (names_of b) (names_of o) in
            let named = rows_named names in
            (
              λ m. both.0 (sorted.0 (once.0 (subst (In n) named m))),
              λ m. subst (In n) (sym named) (once.1 (sorted.1 (both.1 m))),
            ),
        All-map (λ _. Unit)
            (λ d.
              d
              ≡ operation_delta fl d.operation (type_stats b d.operation)
                  (type_stats o d.operation))
            row (λ n _. refl) names (All-any (λ _. Unit) (λ _. tt) names),
      )
