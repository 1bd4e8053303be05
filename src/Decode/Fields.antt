-- ===== src/Decode/Fields.antt =====
-- Bit operations on numbers that are cut at the same digit, and what they mean for the masks, the
-- joined fields and the flipped sign bit of the decoders.
use Prim.Native.Nat.{differ, bit_and, bit_or, bit_xor, bit_or-bitwise}
use native.Mathlib.Nat.{pow-suc, one-le-pow, mod-lt, div-add-mod'}
use rv32im_so_c_performance.Base.{
  ℕ, zero, suc, ◌+◌, ◌-◌, ◌*◌, ◌/◌, ◌%◌, ◌^◌, ◌≤◌, ◌<◌, min, max, ◌≡◌, refl, sym, ap, ◌∙◌, arith,
}
use rv32im_so_c_performance.Decode.Digits.{and_lowest, or_lowest, xor_lowest}

halve : (q p r : ℕ) → (q * (p * 2) + r) / 2 ≡ q * p + r / 2
halve q p r = omega arith

parity : (q p r : ℕ) → (q * (p * 2) + r) % 2 ≡ r % 2
parity q p r = omega arith

below_one : (r : ℕ) → r < 1 → r ≡ 0
below_one r h = omega arith

times_one : (q : ℕ) → q * 1 + 0 ≡ q
times_one q = omega arith

module _ (op f : ℕ → ℕ → ℕ)
    (lowest : (a b : ℕ) → op a b ≡ op (a / 2) (b / 2) * 2 + f (a % 2) (b % 2))
    (f_zero : f 0 0 ≡ 0) where
  op_zero : op 0 0 ≡ 0
  op_zero = omega (arith, lowest 0 0, f_zero)

  cut_step :
      (p q r s t high low : ℕ)
      → op (q * p + r / 2) (s * p + t / 2) ≡ high * p + low
      → op (q * (p * 2) + r) (s * (p * 2) + t) ≡ high * (p * 2) + (low * 2 + f (r % 2) (t % 2))
  cut_step p q r s t high low h =
      rw
        (
          lowest (q * (p * 2) + r) (s * (p * 2) + t),
          halve q p r,
          halve s p t,
          parity q p r,
          parity s p t,
          h,
        )
        (omega arith)

  cut :
      (k q r s t : ℕ)
      → r < 2 ^ k
      → t < 2 ^ k
      → op (q * 2 ^ k + r) (s * 2 ^ k + t) ≡ op q s * 2 ^ k + op r t
  cut zero q r s t h k =
      rw (below_one r h, below_one t k, times_one q, times_one s, op_zero) (omega arith)
  cut (suc k) q r s t h i =
      rw (pow-suc 2 k, lowest r t)
        (cut_step (2 ^ k) q r s t (op q s) (op (r / 2) (t / 2))
          (cut k q (r / 2) s (t / 2) (omega (arith, pow-suc 2 k)) (omega (arith, pow-suc 2 k))))

or_zero_fuel : (n a : ℕ) → a ≤ n → bit_or a 0 ≡ a
or_zero_fuel n zero h = refl
or_zero_fuel zero (suc a) h = absurd (omega arith)
or_zero_fuel (suc n) (suc a) h =
    omega (arith, or_lowest (suc a) 0, or_zero_fuel n (suc a / 2) (omega arith))

zero_or : (a : ℕ) → bit_or 0 a ≡ a
zero_or a = simp bit_or-bitwise

differ_zero : (d : ℕ) → differ d 0 ≡ d
differ_zero zero = refl
differ_zero (suc d) = refl

xor_zero : (k a : ℕ) → a < 2 ^ k → bit_xor a 0 ≡ a
xor_zero zero a h = rw (below_one a h)
xor_zero (suc k) a h = omega (
  arith,
  xor_lowest a 0,
  differ_zero (a % 2),
  pow-suc 2 k,
  xor_zero k (a / 2) (omega (arith, pow-suc 2 k)),
)

and_zero_fuel : (n a : ℕ) → a ≤ n → bit_and a 0 ≡ 0
and_zero_fuel n zero h = refl
and_zero_fuel zero (suc a) h = absurd (omega arith)
and_zero_fuel (suc n) (suc a) h =
    omega (arith, and_lowest (suc a) 0, and_zero_fuel n (suc a / 2) (omega arith))

and_all : (k r : ℕ) → r < 2 ^ k → bit_and r (2 ^ k - 1) ≡ r
and_all zero r h = rw (below_one r h)
and_all (suc k) r h =
    rw (and_lowest r (2 ^ suc k - 1), halved, odd, and_all k (r / 2) (omega (arith, pow-suc 2 k)))
      (omega arith)
  where
    halved : (2 ^ suc k - 1) / 2 ≡ 2 ^ k - 1
    halved = omega (arith, pow-suc 2 k)

    odd : (2 ^ suc k - 1) % 2 ≡ 1
    odd = omega (arith, pow-suc 2 k, one-le-pow k 2)

plus_zero : (n : ℕ) → n ≡ n + 0
plus_zero n = omega arith

zero_plus : (p n : ℕ) → n ≡ 0 * p + n
zero_plus p n = omega arith

and_cut : (k q r : ℕ) → r < 2 ^ k → bit_and (q * 2 ^ k + r) (2 ^ k - 1) ≡ r
and_cut k q r h =
    ap (bit_and (q * 2 ^ k + r)) (zero_plus (2 ^ k) (2 ^ k - 1))
    ∙ cut bit_and min and_lowest refl k q r 0 (2 ^ k - 1) h (omega (arith, one-le-pow k 2))
    ∙ rw (and_zero_fuel q q (omega arith), and_all k r h) (omega arith)

-- `a & (2 ^ k - 1)` is the remainder by `2 ^ k`.
pub and_ones : (k a : ℕ) → bit_and a (2 ^ k - 1) ≡ a % 2 ^ k
and_ones k a =
    ap (λ x. bit_and x (2 ^ k - 1)) (sym (div-add-mod' a (2 ^ k)))
    ∙ and_cut k (a / 2 ^ k) (a % 2 ^ k) (mod-lt a (one-le-pow k 2 (omega arith)))

-- Two fields that do not overlap are joined by adding them.
pub or_join : (k q r : ℕ) → r < 2 ^ k → bit_or (q * 2 ^ k) r ≡ q * 2 ^ k + r
or_join k q r h =
    ap (λ x. bit_or x r) (plus_zero (q * 2 ^ k))
    ∙ ap (bit_or (q * 2 ^ k + 0)) (zero_plus (2 ^ k) r)
    ∙ cut bit_or max or_lowest refl k q 0 0 r (one-le-pow k 2 (omega arith)) h
    ∙ rw (or_zero_fuel q q (omega arith), zero_or r)

-- Flipping the sign bit, `2 ^ k`, of a number that has it clear, and of one that has it set.
xor_cut : (k q v : ℕ) → v < 2 ^ k → bit_xor (q * 2 ^ k + v) (2 ^ k) ≡ bit_xor q 1 * 2 ^ k + v
xor_cut k q v h =
    ap (bit_xor (q * 2 ^ k + v)) (one_times (2 ^ k))
    ∙ cut bit_xor differ xor_lowest refl k q v 1 0 h (one-le-pow k 2 (omega arith))
    ∙ rw (xor_zero k v h)
  where
    one_times : (p : ℕ) → p ≡ 1 * p + 0
    one_times p = omega arith

pub xor_low : (k v : ℕ) → v < 2 ^ k → bit_xor v (2 ^ k) ≡ v + 2 ^ k
xor_low k v h = ap (λ x. bit_xor x (2 ^ k)) (zero_plus (2 ^ k) v) ∙ xor_cut k 0 v h ∙ omega arith

pub xor_high : (k v : ℕ) → v < 2 ^ k → bit_xor (2 ^ k + v) (2 ^ k) ≡ v
xor_high k v h = ap (λ x. bit_xor x (2 ^ k)) (one_plus (2 ^ k) v) ∙ xor_cut k 1 v h ∙ omega arith
  where
    one_plus : (p v : ℕ) → p + v ≡ 1 * p + v
    one_plus p v = omega arith
