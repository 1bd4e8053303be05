-- ===== src/Base/Lists.antt =====
-- Lists measured by native numbers, and Python's `all`, `any`, `count` and `filter` on them.
use Prim.Native.Nat.{ℕ, zero, suc, ◌+◌, ◌≤◌, ◌<◌}
use mathlib.Core.Path.{◌≡◌, refl, ap}
use mathlib.Core.Logic.{◌⊎◌, inl, inr}
use mathlib.Core.Bool.{Bool, true, false, ◌&&◌, ◌||◌}
use mathlib.Core.Option.{Option, none, some}
use mathlib.Core.List.{List, [], ◌∷◌, ◌++◌, map}
use native.Mathlib.Omega.{arith}
use rv32im_so_c_performance.Base.Exceptions.{Result, ok, ◌>>=◌, >>=-eq-ok}
use rv32im_so_c_performance.Base.Tests.{◌==◌, if◌then◌else◌}

module _ {ℓ} {A : Type ℓ} where
  abbrev pub length : List A → ℕ
  length [] = 0
  length (x ∷ xs) = suc (length xs)

  abbrev pub get_elem? : List A → ℕ → Option A
  get_elem? [] i = none
  get_elem? (x ∷ xs) zero = some x
  get_elem? (x ∷ xs) (suc i) = get_elem? xs i

  abbrev pub take : ℕ → List A → List A
  take zero xs = []
  take (suc n) [] = []
  take (suc n) (x ∷ xs) = x ∷ take n xs

  abbrev pub get_or : A → List A → ℕ → A
  get_or d [] i = d
  get_or d (x ∷ xs) zero = x
  get_or d (x ∷ xs) (suc i) = get_or d xs i

  -- A write out of bounds changes nothing.
  abbrev pub set : List A → ℕ → A → List A
  set [] i v = []
  set (x ∷ xs) zero v = v ∷ xs
  set (x ∷ xs) (suc i) v = x ∷ set xs i v

  abbrev pub replicate : ℕ → A → List A
  replicate zero x = []
  replicate (suc n) x = x ∷ replicate n x

  -- `xs[-1]`, when there is one
  abbrev pub get_last? : List A → Option A
  get_last? [] = none
  get_last? (x ∷ []) = some x
  get_last? (x ∷ y ∷ xs) = get_last? (y ∷ xs)

  abbrev pub keep_if : (A → Bool) → List A → List A
  keep_if p [] = []
  keep_if p (x ∷ xs) = if p x then x ∷ keep_if p xs else keep_if p xs

  abbrev pub all_of : (A → Bool) → List A → Bool
  all_of p [] = true
  all_of p (x ∷ xs) = p x && all_of p xs

  abbrev pub any_of : (A → Bool) → List A → Bool
  any_of p [] = false
  any_of p (x ∷ xs) = p x || any_of p xs

  -- A predicate on every element, and on some element.
  abbrev pub All {κ} : (A → Type κ) → List A → Type κ
  All P [] = Unit
  All P (x ∷ xs) = P x × All P xs

  pub List-cases : (xs : List A) → (xs ≡ []) ⊎ ((y : A) × (ys : List A) × (xs ≡ y ∷ ys))
  List-cases [] = inl refl
  List-cases (y ∷ ys) = inr (y, ys, refl)

  pub length-set : (xs : List A) (i : ℕ) (v : A) → length (set xs i v) ≡ length xs
  length-set [] i v = refl
  length-set (x ∷ xs) zero v = refl
  length-set (x ∷ xs) (suc i) v = ap suc (length-set xs i v)

  pub length-replicate : (n : ℕ) (x : A) → length (replicate n x) ≡ n
  length-replicate zero x = refl
  length-replicate (suc n) x = ap suc (length-replicate n x)

  pub get_or-replicate : (n : ℕ) (x : A) (i : ℕ) → get_or x (replicate n x) i ≡ x
  get_or-replicate zero x i = refl
  get_or-replicate (suc n) x zero = refl
  get_or-replicate (suc n) x (suc i) = get_or-replicate n x i

  pub get_or-set :
      (d : A) (xs : List A) (i j : ℕ) (v : A)
      → i < length xs
      → get_or d (set xs i v) j ≡ (if i == j then v else get_or d xs j)
  get_or-set d [] i j v h = absurd (omega arith)
  get_or-set d (x ∷ xs) zero zero v h = refl
  get_or-set d (x ∷ xs) zero (suc j) v h = ground arith
  get_or-set d (x ∷ xs) (suc i) zero v h = ground arith
  get_or-set d (x ∷ xs) (suc i) (suc j) v h = ground (arith, get_or-set d xs i j v)

  pub length-append : (xs ys : List A) → length (xs ++ ys) ≡ length xs + length ys
  length-append [] ys = omega arith
  length-append (x ∷ xs) ys = omega (arith, length-append xs ys)

  pub length-keep_if-le : (p : A → Bool) (xs : List A) → length (keep_if p xs) ≤ length xs
  length-keep_if-le p [] = omega arith
  length-keep_if-le p (x ∷ xs) = ground (arith, length-keep_if-le p xs)

  pub All-append {κ} : (P : A → Type κ) (xs ys : List A) → All P xs → All P ys → All P (xs ++ ys)
  All-append P [] ys hx hy = hy
  All-append P (x ∷ xs) ys hx hy = (hx.0, All-append P xs ys hx.1 hy)

  pub All-all_of : (p : A → Bool) (xs : List A) → all_of p xs ≡ true → All (λ x. p x ≡ true) xs
  All-all_of p [] h = tt
  All-all_of p (x ∷ xs) h = (ground arith, All-all_of p xs (ground arith))

  pub All-set {κ} :
      (P : A → Type κ) (xs : List A) (i : ℕ) (v : A) → All P xs → P v → All P (set xs i v)
  All-set P [] i v h p = h
  All-set P (x ∷ xs) zero v h p = (p, h.1)
  All-set P (x ∷ xs) (suc i) v h p = (h.0, All-set P xs i v h.1 p)

  pub All-get_or {κ} :
      (P : A → Type κ) (d : A) (xs : List A) (i : ℕ) → All P xs → P d → P (get_or d xs i)
  All-get_or P d [] i h p = p
  All-get_or P d (x ∷ xs) zero h p = h.0
  All-get_or P d (x ∷ xs) (suc i) h p = All-get_or P d xs i h.1 p

  pub All-replicate {κ} : (P : A → Type κ) (n : ℕ) (x : A) → P x → All P (replicate n x)
  All-replicate P zero x p = tt
  All-replicate P (suc n) x p = (p, All-replicate P n x p)

pub length-map {ℓ κ} :
    {A : Type ℓ} {B : Type κ} (xs : List A) (f : A → B) → length (map f xs) ≡ length xs
length-map [] f = refl
length-map (x ∷ xs) f = ap suc (length-map xs f)

-- A loop that collects what its body returns, up to the first exception.
unfoldable pub traverse {ℓ κ} :
    {A : Type ℓ} {B : Type κ} → (A → Result B) → List A → Result (List B)
traverse f [] = ok []
traverse f (x ∷ xs) = do y ← f x; ys ← traverse f xs; ok (y ∷ ys)

pub traverse-All {ℓ κ μ} :
    {A : Type ℓ} {B : Type κ} (f : A → Result B) (test : B → Bool) (P : A → Type μ) (xs : List A)
    (ys : List B)
    → traverse f xs ≡ ok ys
    → all_of test ys ≡ true
    → ((x : A) (y : B) → f x ≡ ok y → test y ≡ true → P x)
    → All P xs
unfolding traverse
traverse-All f test P [] ys e h each = tt
traverse-All {A} {B} f test P (x ∷ xs) ys e h each =
    let (y, first, e1) = >>=-eq-ok (f x) _ e in
    let (rest, those, e2) = >>=-eq-ok (traverse f xs) _ e1 in
    let (passes, others) = split y rest e2 in
    (each x y first passes, traverse-All f test P xs rest those others each)
  where
    split :
        (y : B) (rest : List B)
        → ok (y ∷ rest) ≡ ok ys
        → (test y ≡ true) × (all_of test rest ≡ true)
    split y rest same = ground arith
