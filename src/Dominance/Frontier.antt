-- ===== src/Dominance/Frontier.antt =====
-- The scan of all rows for those that nothing dominates, as a filter.
use rv32im_so_c_performance.Base.{
  ℕ, suc, ◌≡◌, refl, ◌⊎◌, inl, inr, Bool, true, false, not, List, [], ◌∷◌, if◌then◌else◌,
  Bool-cases, All, keep_if, any_of, arith,
}
use rv32im_so_c_performance.Dominance.{
  Dominance, In, here, there, dominated, dominated-any, Suffix, Suffix-refl, Suffix-tail,
  Suffix-self, Undominated, descend, NoWorse, descend-NoWorse, descend-Undominated,
}

not-eq_true : (b : Bool) → not b ≡ true → b ≡ false
not-eq_true b h = ground arith

module _ {ℓ} {A : Type ℓ} where
  pub All-In {κ} : (P : A → Type κ) (x : A) (xs : List A) → All P xs → In x xs → P x
  All-In P x [] h m = elim m [ ]
  All-In P x (y ∷ ys) h (here e) = rw e h.0
  All-In P x (y ∷ ys) h (there m) = All-In P x ys h.1 m

  pub any_of-false : (p : A → Bool) (xs : List A) → any_of p xs ≡ false → All (λ x. p x ≡ false) xs
  any_of-false p [] h = tt
  any_of-false p (x ∷ xs) h = ground (arith, any_of-false p xs)

  pub All-any_of : (p : A → Bool) (xs : List A) → All (λ x. p x ≡ false) xs → any_of p xs ≡ false
  All-any_of p [] h = refl
  All-any_of p (x ∷ xs) h = ground (arith, All-any_of p xs h.1)

  pub keep_if-In : (p : A → Bool) (x : A) (xs : List A) → In x xs → p x ≡ true → In x (keep_if p xs)
  keep_if-In p x [] m h = m
  keep_if-In p x (y ∷ ys) (here e) h = rw (rw e at h) (here e)
  keep_if-In p x (y ∷ ys) (there m) h = elim (Bool-cases (p y)) [
    | inl k ↦ rw k (there (keep_if-In p x ys m h))
    | inr k ↦ rw k (keep_if-In p x ys m h)
  ]

  pub All-keep_if : (p : A → Bool) (xs : List A) → All (λ x. p x ≡ true) (keep_if p xs)
  All-keep_if p [] = tt
  All-keep_if p (x ∷ xs) = elim (Bool-cases (p x)) [
    | inl k ↦ rw k (k, All-keep_if p xs)
    | inr k ↦ rw k (All-keep_if p xs)
  ]

  In-cons : {x y : A} {xs ys : List A} → (In x xs → In x ys) → In x (y ∷ xs) → In x (y ∷ ys)
  In-cons f (here e) = here e
  In-cons f (there n) = there (f n)

  pub In-keep_if : (p : A → Bool) (x : A) (xs : List A) → In x (keep_if p xs) → In x xs
  In-keep_if p x [] m = m
  In-keep_if p x (y ∷ ys) m = elim (Bool-cases (p y)) [
    | inl k ↦ In-cons (λ n. In-keep_if p x ys n) (rw k at m)
    | inr k ↦ there (In-keep_if p x ys (rw k at m))
  ]

module _ {ℓ} {A : Type ℓ} (d : Dominance A) where
  open d use {dominates}

  -- The outer loop over the rows from index `i` on: a row that some other row dominates is left out.
  unfoldable pub undominated_from : List A → ℕ → List A → List A
  undominated_from rows i [] = []
  undominated_from rows i (a ∷ xs) =
      let rest = undominated_from rows (suc i) xs in
      if dominated d i a 0 rows then rest else a ∷ rest

  abbrev pub is_undominated : List A → A → Bool
  is_undominated rows a = not (any_of (λ b. dominates b a) rows)

  -- Which index a row has makes no difference: the scan is a filter.
  undominated_from-keep_if :
      (rows : List A) (i : ℕ) (xs : List A)
      → Suffix d i xs rows
      → undominated_from rows i xs ≡ keep_if (is_undominated rows) xs
  unfolding undominated_from
  undominated_from-keep_if rows i [] s = refl
  undominated_from-keep_if rows i (a ∷ xs) s =
      let ih = undominated_from-keep_if rows (suc i) xs (Suffix-tail d i a xs rows s) in
      let test = dominated-any d i a 0 rows (Suffix-self d i a xs rows s) in
      rw (test, ih)
        (swap (any_of (λ b. dominates b a) rows) (a ∷ keep_if (is_undominated rows) xs) _)
    where
      swap : (t : Bool) (x y : List A) → (if t then y else x) ≡ (if not t then x else y)
      swap true x y = refl
      swap false x y = refl

  unfoldable pub undominated : List A → List A
  undominated rows = undominated_from rows 0 rows

  pub undominated-keep_if : (rows : List A) → undominated rows ≡ keep_if (is_undominated rows) rows
  unfolding undominated
  undominated-keep_if rows = undominated_from-keep_if rows 0 rows (Suffix-refl d rows)

  descend-In : (c : A) (rows : List A) → (descend d c rows ≡ c) ⊎ In (descend d c rows) rows
  unfolding descend
  descend-In c [] = inl refl
  descend-In c (b ∷ bs) = step (dominates b c) (descend-In (if dominates b c then b else c) bs)
    where
      step : (t : Bool) {q : A} → (q ≡ (if t then b else c)) ⊎ In q bs → (q ≡ c) ⊎ In q (b ∷ bs)
      step t (inr m) = inr (there m)
      step true (inl e) = inr (here e)
      step false (inl e) = inl e

  descend-In_all : (p : A) (rows : List A) → In p rows → In (descend d p rows) rows
  descend-In_all p rows m = elim (descend-In p rows) [ inl e ↦ rw e m | inr n ↦ n ]

  -- What the scan keeps is a row, and no row dominates it.
  pub undominated_sound :
      (rows : List A) (q : A) → In q (undominated rows) → In q rows × Undominated d q rows
  undominated_sound rows q m =
      let kept = rw (undominated-keep_if rows) at m in
      (
        In-keep_if (is_undominated rows) q rows kept,
        any_of-false (λ b. dominates b q) rows
            (not-eq_true _ (
              All-In (λ x. is_undominated rows x ≡ true) q _
                (All-keep_if (is_undominated rows) rows) kept)),
      )

  -- Every row has a kept row that is the row itself or dominates it.
  pub undominated_complete :
      (rows : List A) (p : A) → In p rows → (q : A) × In q (undominated rows) × NoWorse d q p
  undominated_complete rows p m = (
    descend d p rows,
    rw (undominated-keep_if rows) (
        keep_if-In (is_undominated rows) (descend d p rows) rows (descend-In_all p rows m) (
          rw (
            All-any_of (λ b. dominates b (descend d p rows)) rows (descend-Undominated d p rows)))),
    descend-NoWorse d p rows,
  )
