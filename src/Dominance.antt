-- ===== src/Dominance.antt =====
-- Dominance between points of several costs: the interface that `pareto` of
-- scripts/run_milestone6a.py and `classify` of scripts/run_architecture_selection.py share, and the
-- scans of a list that they make. A row is told from the others (`a is b`) by its index.
pub mod Frontier
use mathlib.Core.Bool.{false≢true}
use rv32im_so_c_performance.Base.{
  ℕ, zero, suc, ◌+◌, ◌≡◌, ◌≢◌, refl, sym, ap, ◌∙◌, ◌↔◌, ◌⊎◌, inl, inr, Bool, true, false, not, ◌&&◌,
  ◌||◌, Option, none, some, List, [], ◌∷◌, ◌==◌, if◌then◌else◌, Bool-cases, All, keep_if, any_of,
  get_elem?, arith,
}

pub record Dominance {ℓ} (A : Type ℓ) : Type ℓ where
  pub dominates : A → A → Bool
  pub irrefl : (a : A) → dominates a a ≡ false
  pub trans : (a b c : A) → dominates a b ≡ true → dominates b c ≡ true → dominates a c ≡ true

some-eq {ℓ} : {A : Type ℓ} {a b : A} → some a ≡ some b → a ≡ b
some-eq h = cc

-- `x` is an element of the list.
pub data In {ℓ} {A : Type ℓ} (x : A) : List A → Type ℓ where
  here : {y : A} {ys : List A} → x ≡ y → In x (y ∷ ys)
  there : {y : A} {ys : List A} → In x ys → In x (y ∷ ys)

module _ {ℓ} {A : Type ℓ} (d : Dominance A) where
  open d use {dominates, irrefl, trans}

  -- The rows, from index `j` on, that are not row `i` and dominate it.
  unfoldable pub dominators : ℕ → A → ℕ → List A → List A
  dominators i a j [] = []
  dominators i a j (b ∷ bs) =
      let rest = dominators i a (suc j) bs in
      if not (i == j) && dominates b a then b ∷ rest else rest

  -- The same scan with a flag and a `break`.
  unfoldable pub dominated : ℕ → A → ℕ → List A → Bool
  dominated i a j [] = false
  dominated i a j (b ∷ bs) =
      let rest = dominated i a (suc j) bs in
      if i == j then rest else if dominates b a then true else rest

  abbrev pub Undominated : A → List A → Type 0
  Undominated a rows = All (λ b. ◌≡◌ {A = Bool} (dominates b a) false) rows

  -- Nothing dominates itself, so leaving out the row itself changes nothing.
  abbrev pub AtMostSelf : ℕ → A → ℕ → List A → Type ℓ
  AtMostSelf i a j rows = (k : ℕ) → i ≡ j + k → (b : A) → get_elem? rows k ≡ some b → a ≡ b

  AtMostSelf-tail :
      (i : ℕ) (a : A) (j : ℕ) (b : A) (bs : List A)
      → AtMostSelf i a j (b ∷ bs)
      → AtMostSelf i a (suc j) bs
  AtMostSelf-tail i a j b bs h k e c at = h (suc k) (omega arith) c at

  self_irrefl :
      (i : ℕ) (a : A) (j : ℕ) (b : A) (bs : List A)
      → AtMostSelf i a j (b ∷ bs)
      → (i == j) ≡ true
      → dominates b a ≡ false
  self_irrefl i a j b bs s e = rw (← s 0 (ground arith) b refl) (irrefl a)

  pub dominated-any :
      (i : ℕ) (a : A) (j : ℕ) (rows : List A)
      → AtMostSelf i a j rows
      → dominated i a j rows ≡ any_of (λ b. dominates b a) rows
  unfolding dominated
  dominated-any i a j [] s = refl
  dominated-any i a j (b ∷ bs) s =
      let ih = dominated-any i a (suc j) bs (AtMostSelf-tail i a j b bs s) in
      elim (Bool-cases (i == j)) [
        | inl e ↦ rw (e, self_irrefl i a j b bs s e) ih
        | inr n ↦ rw n (ground arith)
      ]

  pub dominators-keep_if :
      (i : ℕ) (a : A) (j : ℕ) (rows : List A)
      → AtMostSelf i a j rows
      → dominators i a j rows ≡ keep_if (λ b. dominates b a) rows
  unfolding dominators
  dominators-keep_if i a j [] s = refl
  dominators-keep_if i a j (b ∷ bs) s =
      let ih = dominators-keep_if i a (suc j) bs (AtMostSelf-tail i a j b bs s) in
      elim (Bool-cases (i == j)) [
        | inl e ↦ rw (e, self_irrefl i a j b bs s e) ih
        | inr n ↦ rw n (ground arith)
      ]

  -- Where `xs` are the rows from index `i` on, each is told from the others by its index.
  abbrev pub Suffix : ℕ → List A → List A → Type ℓ
  Suffix i xs rows = (k : ℕ) (a : A) → get_elem? xs k ≡ some a → get_elem? rows (i + k) ≡ some a

  pub Suffix-refl : (rows : List A) → Suffix 0 rows rows
  Suffix-refl rows k a h = rw (zero_add k) h
    where
      zero_add : (k : ℕ) → 0 + k ≡ k
      zero_add k = omega arith

  pub Suffix-tail :
      (i : ℕ) (a : A) (xs rows : List A) → Suffix i (a ∷ xs) rows → Suffix (suc i) xs rows
  Suffix-tail i a xs rows s k b h = rw (shift i k) (s (suc k) b h)
    where
      shift : (i k : ℕ) → suc i + k ≡ i + suc k
      shift i k = omega arith

  pub Suffix-self :
      (i : ℕ) (a : A) (xs rows : List A) → Suffix i (a ∷ xs) rows → AtMostSelf i a 0 rows
  Suffix-self i a xs rows s k e b h =
      some-eq (sym (s 0 a refl) ∙ ap (get_elem? rows) (index i k e) ∙ h)
    where
      index : (i k : ℕ) → i ≡ 0 + k → i + 0 ≡ k
      index i k e = omega arith

  -- One pass that moves to every better row ends at a row that nothing dominates.
  unfoldable pub descend : A → List A → A
  descend c [] = c
  descend c (b ∷ bs) = descend (if dominates b c then b else c) bs

  abbrev pub NoWorse : A → A → Type ℓ
  NoWorse q p = (q ≡ p) ⊎ (dominates q p ≡ true)

  NoWorse-trans : (q b c : A) → NoWorse q b → dominates b c ≡ true → NoWorse q c
  NoWorse-trans q b c (inl same) e = inr (rw same e)
  NoWorse-trans q b c (inr better) e = inr (trans q b c better e)

  NoWorse-step : (q b c : A) → NoWorse q (if dominates b c then b else c) → NoWorse q c
  NoWorse-step q b c h = elim (Bool-cases (dominates b c)) [
    | inl e ↦ NoWorse-trans q b c (rw e at h) e
    | inr n ↦ rw n at h
  ]

  descend-NoWorse : (c : A) (rows : List A) → NoWorse (descend c rows) c
  unfolding descend
  descend-NoWorse c [] = inl refl
  descend-NoWorse c (b ∷ bs) =
      NoWorse-step _ b c (descend-NoWorse (if dominates b c then b else c) bs)

  step-undominated :
      (q b c : A) → NoWorse q (if dominates b c then b else c) → dominates b q ≡ false
  step-undominated q b c h = elim (Bool-cases (dominates b q)) [
    | inl e ↦ elim (Bool-cases (dominates b c)) [
      | inl t ↦ absurd (cycle q b (rw t at h) e)
      | inr n ↦ absurd (false≢true (sym n ∙ beats (rw n at h) e))
    ]
    | inr n ↦ n
  ]
    where
      beats : NoWorse q c → dominates b q ≡ true → dominates b c ≡ true
      beats (inl same) e = rw same at e
      beats (inr better) e = trans b q c e better

      cycle : (q b : A) → NoWorse q b → dominates b q ≡ true → ⊥
      cycle q b (inl same) e = false≢true (sym (irrefl b) ∙ rw same at e)
      cycle q b (inr better) e = false≢true (sym (irrefl b) ∙ trans b q b e better)

  descend-Undominated : (c : A) (rows : List A) → Undominated (descend c rows) rows
  unfolding descend
  descend-Undominated c [] = tt
  descend-Undominated c (b ∷ bs) = (
    step-undominated _ b c (descend-NoWorse (if dominates b c then b else c) bs),
    descend-Undominated (if dominates b c then b else c) bs,
  )
