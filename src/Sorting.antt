-- ===== src/Sorting.antt =====
-- Python's stable `sorted`: `le x y` tells that `x` need not move behind a later `y`. A reversed sort
-- is the same with the order turned round, since it keeps equal elements in their places too.
use mathlib.Core.List.Perm
use mathlib.Core.List.{Perm}
use rv32im_so_c_performance.Base.{
  ◌≡◌, inl, inr, Bool, true, false, List, [], ◌∷◌, if◌then◌else◌, Bool-cases, All, arith,
}
use rv32im_so_c_performance.Dominance.{In, here, there}

module _ {ℓ} {A : Type ℓ} (le : A → A → Bool) where
  unfoldable pub insert_sorted : A → List A → List A
  insert_sorted x [] = x ∷ []
  insert_sorted x (y ∷ ys) = if le x y then x ∷ y ∷ ys else y ∷ insert_sorted x ys

  unfoldable pub sorted : List A → List A
  unfolding insert_sorted
  sorted [] = []
  sorted (x ∷ xs) = insert_sorted x (sorted xs)

  insert_sorted-perm : (x : A) (xs : List A) → Perm (insert_sorted x xs) (x ∷ xs)
  unfolding insert_sorted
  insert_sorted-perm x [] = Perm.rfl
  insert_sorted-perm x (y ∷ ys) = elim (Bool-cases (le x y)) [
    | inl e ↦ rw e Perm.rfl
    | inr e ↦ rw e (Perm.trans (Perm.cons y (insert_sorted-perm x ys)) (Perm.swap x y ys))
  ]

  pub sorted-perm : (xs : List A) → Perm (sorted xs) xs
  unfolding sorted
  sorted-perm [] = Perm.rfl
  sorted-perm (x ∷ xs) =
      Perm.trans (insert_sorted-perm x (sorted xs)) (Perm.cons x (sorted-perm xs))

  -- Each element is at most those behind it.
  abbrev pub IsSorted : List A → Type 0
  IsSorted [] = Unit
  IsSorted (x ∷ xs) = All (λ y. ◌≡◌ {A = Bool} (le x y) true) xs × IsSorted xs

  module _ (total : (x y : A) → le x y ≡ false → le y x ≡ true)
      (trans : (x y z : A) → le x y ≡ true → le y z ≡ true → le x z ≡ true) where
    All-le :
        (x y : A) (xs : List A)
        → le x y ≡ true
        → All (λ z. le y z ≡ true) xs
        → All (λ z. le x z ≡ true) xs
    All-le x y [] e h = tt
    All-le x y (z ∷ zs) e h = (trans x y z e h.0, All-le x y zs e h.1)

    All-insert_sorted :
        (y x : A) (xs : List A)
        → le y x ≡ true
        → All (λ z. le y z ≡ true) xs
        → All (λ z. le y z ≡ true) (insert_sorted x xs)
    unfolding insert_sorted
    All-insert_sorted y x [] e h = (e, tt)
    All-insert_sorted y x (z ∷ zs) e h = ground (arith, All-insert_sorted y x zs e h.1)

    insert_sorted-IsSorted : (x : A) (xs : List A) → IsSorted xs → IsSorted (insert_sorted x xs)
    unfolding insert_sorted
    insert_sorted-IsSorted x [] h = (tt, tt)
    insert_sorted-IsSorted x (y ∷ ys) h = elim (Bool-cases (le x y)) [
      | inl e ↦ rw e ((e, All-le x y ys e h.0), h)
      | inr e ↦ rw e (All-insert_sorted y x ys (total x y e) h.0, insert_sorted-IsSorted x ys h.1)
    ]

    pub sorted-IsSorted : (xs : List A) → IsSorted (sorted xs)
    unfolding sorted
    sorted-IsSorted [] = tt
    sorted-IsSorted (x ∷ xs) = insert_sorted-IsSorted x (sorted xs) (sorted-IsSorted xs)

  -- Sorting keeps the elements.
  insert_sorted-In : (y x : A) (xs : List A) → In y (insert_sorted x xs) → In y (x ∷ xs)
  unfolding insert_sorted
  insert_sorted-In y x [] m = m
  insert_sorted-In y x (z ∷ zs) m = elim (Bool-cases (le x z)) [
    | inl e ↦ rw e at m
    | inr e ↦ behind (rw e at m) (insert_sorted-In y x zs)
  ]
    where
      behind :
          In y (z ∷ insert_sorted x zs)
          → (In y (insert_sorted x zs) → In y (x ∷ zs))
          → In y (x ∷ z ∷ zs)
      behind (here e) f = there (here e)
      behind (there n) f = past (f n)
        where
          past : In y (x ∷ zs) → In y (x ∷ z ∷ zs)
          past (here e) = here e
          past (there k) = there (there k)

  In-insert_sorted : (y x : A) (xs : List A) → In y (x ∷ xs) → In y (insert_sorted x xs)
  unfolding insert_sorted
  In-insert_sorted y x [] m = m
  In-insert_sorted y x (z ∷ zs) (here e) = elim (Bool-cases (le x z)) [
    | inl t ↦ rw t (here e)
    | inr t ↦ rw t (there (In-insert_sorted y x zs (here e)))
  ]
  In-insert_sorted y x (z ∷ zs) (there (here e)) = elim (Bool-cases (le x z)) [
    | inl t ↦ rw t (there (here e))
    | inr t ↦ rw t (here e)
  ]
  In-insert_sorted y x (z ∷ zs) (there (there n)) = elim (Bool-cases (le x z)) [
    | inl t ↦ rw t (there (there n))
    | inr t ↦ rw t (there (In-insert_sorted y x zs (there n)))
  ]

  pub sorted-In : (y : A) (xs : List A) → In y (sorted xs) → In y xs
  unfolding sorted
  sorted-In y [] m = m
  sorted-In y (x ∷ xs) m = step (insert_sorted-In y x (sorted xs) m) (sorted-In y xs)
    where
      step : In y (x ∷ sorted xs) → (In y (sorted xs) → In y xs) → In y (x ∷ xs)
      step (here e) f = here e
      step (there n) f = there (f n)

  pub In-sorted : (y : A) (xs : List A) → In y xs → In y (sorted xs)
  unfolding sorted
  In-sorted y [] m = m
  In-sorted y (x ∷ xs) (here e) = In-insert_sorted y x (sorted xs) (here e)
  In-sorted y (x ∷ xs) (there n) = In-insert_sorted y x (sorted xs) (there (In-sorted y xs n))
