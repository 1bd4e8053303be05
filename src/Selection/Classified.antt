-- ===== src/Selection/Classified.antt =====
-- What `classify` of scripts/run_architecture_selection.py writes into the rows.
use rv32im_so_c_performance.Base.{
  ℕ, suc, ◌≡◌, refl, ap, ◌↔◌, inl, inr, true, List, [], ◌∷◌, map, Bool-cases, keep_if, arith,
}
use rv32im_so_c_performance.Dominance.{
  In, here, there, dominators-keep_if, Suffix, Suffix-refl, Suffix-tail, Suffix-self, Undominated,
  NoWorse,
}
use rv32im_so_c_performance.Dominance.Frontier.{undominated_sound, undominated_complete}
use rv32im_so_c_performance.Selection.{
  Floats, Architecture, Classification, dominates, Costs, classified, classify_from, classify,
}

module _ {F : Type 0} (floats : Floats F) where
  -- A row with the rows that dominate it, whichever index it has.
  abbrev pub label : List (Architecture F) → Architecture F → Classification F
  label rows r = classified r (keep_if (λ x. dominates floats x r) rows)

  classify_from-map :
      (rows : List (Architecture F)) (i : ℕ) (xs : List (Architecture F))
      → Suffix (Costs floats) i xs rows
      → classify_from floats rows i xs ≡ map (label rows) xs
  unfolding classify_from
  classify_from-map rows i [] s = refl
  classify_from-map rows i (r ∷ rs) s = rw (
    dominators-keep_if (Costs floats) i r 0 rows (Suffix-self (Costs floats) i r rs rows s),
    classify_from-map rows (suc i) rs (Suffix-tail (Costs floats) i r rs rows s),
  )

  classify-map : (rows : List (Architecture F)) → classify floats rows ≡ map (label rows) rows
  unfolding classify
  classify-map rows = classify_from-map rows 0 rows (Suffix-refl (Costs floats) rows)

  none_left :
      (r : Architecture F) (xs : List (Architecture F))
      → Undominated (Costs floats) r xs
      → keep_if (λ x. dominates floats x r) xs ≡ []
  none_left r [] h = refl
  none_left r (x ∷ xs) h = rw (h.0) (none_left r xs h.1)

  none_dominates :
      (r : Architecture F) (xs : List (Architecture F))
      → (classified r (keep_if (λ x. dominates floats x r) xs)).pareto_efficient ≡ true
      → Undominated (Costs floats) r xs
  none_dominates r [] h = tt
  none_dominates r (x ∷ xs) h = elim (Bool-cases (dominates floats x r)) [
    | inl e ↦ absurd (ground (arith, rw e at h))
    | inr e ↦ (e, none_dominates r xs (rw e at h))
  ]

  In-map :
      (rows : List (Architecture F)) (q : Architecture F) (xs : List (Architecture F))
      → In q xs
      → In (label rows q) (map (label rows) xs)
  In-map rows q [] m = elim m [ ]
  In-map rows q (x ∷ xs) (here e) = here (ap (label rows) e)
  In-map rows q (x ∷ xs) (there m) = there (In-map rows q xs m)

  -- An architecture that nothing dominates, as `classify` marks it.
  abbrev pub efficient : Architecture F → Classification F
  efficient q = record { row = q; pareto_efficient = true; dominated_by = [] }

  efficient-In :
      (rows : List (Architecture F)) (q : Architecture F)
      → In q rows
      → Undominated (Costs floats) q rows
      → In (efficient q) (classify floats rows)
  efficient-In rows q m h =
      rw (classify-map rows) (same (none_left q rows h) (In-map rows q rows m))
    where
      same :
          keep_if (λ x. dominates floats x q) rows ≡ []
          → In (label rows q) (map (label rows) rows)
          → In (efficient q) (map (label rows) rows)
      same e n = rw (ap (classified q) e) at n

  -- Each row gets, in order, the names of exactly the rows that dominate it; it is marked efficient
  -- exactly when no row dominates it; and for every row there is an efficient one that is that row or
  -- dominates it.
  pub classify-label :
      (rows : List (Architecture F))
      → (classify floats rows ≡ map (label rows) rows)
        × ((r : Architecture F)
            → ((label rows r).pareto_efficient ≡ true) ↔ Undominated (Costs floats) r rows)
        × ((p : Architecture F)
            → In p rows
            → (q : Architecture F) × In (efficient q) (classify floats rows)
              × NoWorse (Costs floats) q p)
  classify-label rows =
      (classify-map rows, λ r. (none_dominates r rows, λ h. rw (none_left r rows h)), covered)
    where
      covered :
          (p : Architecture F)
          → In p rows
          → (q : Architecture F) × In (efficient q) (classify floats rows)
            × NoWorse (Costs floats) q p
      covered p m =
          let (q, kept, better) = undominated_complete (Costs floats) rows p m in
          let (n, free) = undominated_sound (Costs floats) rows q kept in
          (q, efficient-In rows q n free, better)
