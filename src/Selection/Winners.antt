-- ===== src/Selection/Winners.antt =====
-- `max` and `min` with a key, as `write_reports` of scripts/run_architecture_selection.py takes them
-- over the rows. A key may be None, whose comparison raises a TypeError; `above x y` is the comparison
-- that lets an element with the key `x` replace one with the key `y`: `y < x` for max, `x < y` for min.
use rv32im_so_c_performance.Base.{
  ◌≡◌, ap, sym, subst, ◌∙◌, ◌⊎◌, inl, inr, Bool, true, false, Option, none, some, List, [], ◌∷◌,
  if◌then◌else◌, Bool-cases, All, type_error, value_error, Result, ok, err, ◌>>=◌, >>=-eq-ok, arith,
}
use rv32im_so_c_performance.Dominance.{In, here, there}

module _ {A F : Type 0} (above : F → F → Bool) (key : A → Option F) where
  abbrev compared : Option F → Option F → Result Bool
  compared none y = err type_error
  compared (some x) none = err type_error
  compared (some x) (some y) = ok (above x y)

  -- `key(r) > key(best)` of max, or `<` of min
  unfoldable pub beats : A → A → Result Bool
  beats r best = compared (key r) (key best)

  unfoldable pub best_from : A → List A → Result A
  unfolding beats
  best_from best [] = ok best
  best_from best (r ∷ rs) = do better ← beats r best; best_from (if better then r else best) rs

  unfoldable pub best_of : List A → Result A
  unfolding best_from
  best_of [] = err value_error
  best_of (r ∷ rs) = best_from r rs

  -- The winner is a row, and no other row beats it; every comparison was possible.
  abbrev pub Wins : A → List A → Type 0
  Wins w rows = In w rows × All (λ r. (r ≡ w) ⊎ (beats r w ≡ ok false)) rows

  module _ (irrefl : (x : F) → above x x ≡ false)
      (trans : (x y z : F) → above x y ≡ true → above y z ≡ true → above x z ≡ true) where
    above-asym : (x y : F) → above x y ≡ true → above y x ≡ false
    above-asym x y h = ground (arith, trans x y x h, irrefl x)

    compared-asym : (x y : Option F) → compared x y ≡ ok true → compared y x ≡ ok false
    compared-asym none y h = cc
    compared-asym (some x) none h = cc
    compared-asym (some x) (some y) h = ground (arith, above-asym x y)

    compared_trans :
        (x y z : Option F)
        → compared x y ≡ ok true
        → compared y z ≡ ok true
        → compared x z ≡ ok true
    compared_trans none y z h k = cc
    compared_trans (some x) none z h k = cc
    compared_trans (some x) (some y) none h k = cc
    compared_trans (some x) (some y) (some z) h k = ground (arith, trans x y z)

    -- What does not beat `y` does not beat what beats `y`.
    compared_below :
        (x y w : Option F)
        → compared x y ≡ ok false
        → compared w y ≡ ok true
        → compared x w ≡ ok false
    compared_below none y w h k = cc
    compared_below (some x) none w h k = cc
    compared_below (some x) (some y) none h k = cc
    compared_below (some x) (some y) (some w) h k = ground (arith, trans x w y)

    -- What `best_from` returns, against the best so far and the rows to come.
    abbrev Ends : A → A → List A → Type 0
    Ends w best rs =
        In w (best ∷ rs)
        × ((best ≡ w) ⊎ (beats w best ≡ ok true))
        × All (λ r. (r ≡ w) ⊎ (beats r w ≡ ok false)) rs

    best_from-replaced :
        (w best r : A) (rs : List A) → beats r best ≡ ok true → Ends w r rs → Ends w best (r ∷ rs)
    unfolding beats
    best_from-replaced w best r rs b (m, first, others) = (
      there m,
      inr (elim first [
        | inl e ↦ subst (λ x. beats x best ≡ ok true) e b
        | inr c ↦ compared_trans (key w) (key r) (key best) c b
      ]),
      (elim first [ inl e ↦ inl e | inr c ↦ inr (compared-asym (key w) (key r) c) ], others),
    )

    best_from-kept :
        (w best r : A) (rs : List A)
        → beats r best ≡ ok false
        → Ends w best rs
        → Ends w best (r ∷ rs)
    unfolding beats
    best_from-kept w best r rs b (m, first, others) = (
      elim m [ here e ↦ here e | there n ↦ there (there n) ],
      first,
      (
        inr (elim first [
          | inl e ↦ subst (λ x. beats r x ≡ ok false) e b
          | inr c ↦ compared_below (key r) (key best) (key w) b c
        ]),
        others,
      ),
    )

    best_from-Ends : (best : A) (rs : List A) (w : A) → best_from best rs ≡ ok w → Ends w best rs
    unfolding best_from
    best_from-Ends best [] w h = let e : best ≡ w = cc in (here (sym e), inl e, tt)
    best_from-Ends best (r ∷ rs) w h =
        let (better, b, rest) = >>=-eq-ok (beats r best) _ h in
        elim (Bool-cases better) [
          | inl t ↦ best_from-replaced w best r rs (b ∙ ap ok t) (
              best_from-Ends r rs w
                (subst (λ x. best_from (if x then r else best) rs ≡ ok w) t rest))
          | inr f ↦ best_from-kept w best r rs (b ∙ ap ok f) (
              best_from-Ends best rs w
                (subst (λ x. best_from (if x then r else best) rs ≡ ok w) f rest))
        ]

    -- What max and min return wins: no other row beats it.
    pub best_of-Wins : (rows : List A) (w : A) → best_of rows ≡ ok w → Wins w rows
    unfolding best_of beats
    best_of-Wins [] w h = cc
    best_of-Wins (r ∷ rs) w h =
        let (m, first, others) = best_from-Ends r rs w h in
        (m, (elim first [ inl e ↦ inl e | inr c ↦ inr (compared-asym (key w) (key r) c) ], others))
