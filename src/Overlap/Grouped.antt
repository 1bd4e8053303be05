-- ===== src/Overlap/Grouped.antt =====
-- What the grouping of the overlap cycles into episodes keeps.
use rv32im_so_c_performance.Base.{
  ℕ, suc, ◌≡◌, refl, ap, ◌∙◌, inl, inr, false, ◌&&◌, List, [], ◌∷◌, ◌++◌, length, Result, ok,
  >>=-eq-ok, All, Bool-cases, arith,
}
use rv32im_so_c_performance.Base.Int.{ℤ, pos, negsuc, ◌+ℤ◌, ◌==ℤ◌, ==ℤ_iff}
use rv32im_so_c_performance.Trace.{Row}
use rv32im_so_c_performance.Overlap.{Key, key_eq, Episode, add_row, key_of, cycle_of, group}

-- All rows, from the last to the first.
abbrev pub flatten : List Episode → List Row
flatten [] = []
flatten (e ∷ eps) = e.rows ++ flatten eps

abbrev pub reverse_onto : List Row → List Row → List Row
reverse_onto [] acc = acc
reverse_onto (r ∷ rs) acc = reverse_onto rs (r ∷ acc)

-- An episode lasts as many cycles as it has rows.
abbrev pub Lasts : Episode → Type 0
Lasts e = e.end +ℤ pos 1 ≡ e.start +ℤ pos (length e.rows)

-- An episode does not continue the one before it.
abbrev pub Apart : List Episode → Type 0
Apart [] = Unit
Apart (e ∷ []) = Unit
Apart (e ∷ f ∷ eps) =
    ((e.start ==ℤ (f.end +ℤ pos 1)) && key_eq e.key f.key ≡ false) × Apart (f ∷ eps)

+ℤ-suc : (a : ℤ) (n : ℕ) → a +ℤ pos n +ℤ pos 1 ≡ a +ℤ pos (suc n)
unfolding ◌+ℤ◌
+ℤ-suc (pos a) n = ground arith
+ℤ-suc (negsuc a) n = ground arith

add_row-flatten :
    (c : ℤ) (key : Key) (row : Row) (eps : List Episode)
    → flatten (add_row c key row eps) ≡ row ∷ flatten eps
unfolding add_row
add_row-flatten c key row [] = refl
add_row-flatten c key row (e ∷ eps) = ground arith

add_row-Lasts :
    (c : ℤ) (key : Key) (row : Row) (eps : List Episode)
    → All Lasts eps
    → All Lasts (add_row c key row eps)
unfolding add_row
add_row-Lasts c key row [] h = (refl, tt)
add_row-Lasts c key row (e ∷ eps) h =
    elim (Bool-cases (c ==ℤ (e.end +ℤ pos 1) && key_eq key e.key)) [
      | inl y ↦ rw y (
        ap (λ x. x +ℤ pos 1) ((==ℤ_iff c (e.end +ℤ pos 1)).0 (ground arith) ∙ h.0)
            ∙ +ℤ-suc e.start (length e.rows),
        h.1,
      )
      | inr n ↦ rw n (refl, h)
    ]

add_row-Apart :
    (c : ℤ) (key : Key) (row : Row) (eps : List Episode) → Apart eps → Apart (add_row c key row eps)
unfolding add_row
add_row-Apart c key row [] h = tt
add_row-Apart c key row (e ∷ []) h =
    elim (Bool-cases (c ==ℤ (e.end +ℤ pos 1) && key_eq key e.key)) [
      | inl y ↦ rw y tt
      | inr n ↦ rw n (n, tt)
    ]
add_row-Apart c key row (e ∷ f ∷ eps) h =
    elim (Bool-cases (c ==ℤ (e.end +ℤ pos 1) && key_eq key e.key)) [
      | inl y ↦ rw y h
      | inr n ↦ rw n (n, h)
    ]

group_from :
    (eps : List Episode) (rows : List Row) (grouped : List Episode)
    → group eps rows ≡ ok grouped
    → All Lasts eps
    → Apart eps
    → (flatten grouped ≡ reverse_onto rows (flatten eps)) × All Lasts grouped × Apart grouped
unfolding group
group_from eps [] grouped h l a = rw (← done h) (refl, l, a)
  where
    done : ◌≡◌ {A = Result (List Episode)} (ok eps) (ok grouped) → eps ≡ grouped
    done h = cc
group_from eps (row ∷ rows) grouped h l a =
    let (c, _, h1) = >>=-eq-ok (cycle_of row) _ h in
    let (key, _, h2) = >>=-eq-ok (key_of row) _ h1 in
    let (flat, lasts, apart) =
      group_from (add_row c key row eps) rows grouped h2 (add_row-Lasts c key row eps l)
        (add_row-Apart c key row eps a) in
    (flat ∙ ap (reverse_onto rows) (add_row-flatten c key row eps), lasts, apart)

-- When the grouping returns, its episodes hold all rows in their order, each episode lasts as many
-- cycles as it has rows, and no episode continues the one before it.
group-flatten :
    (rows : List Row) (grouped : List Episode)
    → group [] rows ≡ ok grouped
    → (flatten grouped ≡ reverse_onto rows []) × All Lasts grouped × Apart grouped
group-flatten rows grouped h = group_from [] rows grouped h tt tt
