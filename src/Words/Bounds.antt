-- ===== src/Words/Bounds.antt =====
-- The bit operations on words stay words, and join fields in either order.
use Prim.Native.Nat.{differ, bit_and, bit_or, bit_xor}
use native.Mathlib.Nat.{pow-suc}
use rv32im_so_c_performance.Base.{
  ℕ, zero, suc, ◌+◌, ◌*◌, ◌/◌, ◌%◌, ◌^◌, ◌≤◌, ◌<◌, min, max, ◌≡◌, refl, ◌∙◌, arith,
}
use rv32im_so_c_performance.Decode.Digits.{and_lowest, or_lowest, xor_lowest}
use rv32im_so_c_performance.Decode.Fields.{or_join}

below_one : (r : ℕ) → r < 1 → r ≡ 0
below_one r h = omega arith

module _ (op f : ℕ → ℕ → ℕ)
    (lowest : (a b : ℕ) → op a b ≡ op (a / 2) (b / 2) * 2 + f (a % 2) (b % 2))
    (digit : (d e : ℕ) → d < 2 → e < 2 → f d e < 2) (zeros : op 0 0 ≡ 0) where
  op-lt : (k a b : ℕ) → a < 2 ^ k → b < 2 ^ k → op a b < 2 ^ k
  op-lt zero a b h i = rw (below_one a h, below_one b i, zeros) (omega arith)
  op-lt (suc k) a b h i = omega (
    arith,
    pow-suc 2 k,
    lowest a b,
    digit (a % 2) (b % 2) (omega arith) (omega arith),
    op-lt k (a / 2) (b / 2) (omega (arith, pow-suc 2 k)) (omega (arith, pow-suc 2 k)),
  )

differ-lt : (d e : ℕ) → d < 2 → e < 2 → differ d e < 2
differ-lt zero e h i = i
differ-lt (suc zero) zero h i = h
differ-lt (suc zero) (suc zero) h i = omega arith
differ-lt (suc zero) (suc (suc e)) h i = absurd (omega arith)
differ-lt (suc (suc d)) e h i = absurd (omega arith)

pub and-lt : (k a b : ℕ) → a < 2 ^ k → b < 2 ^ k → bit_and a b < 2 ^ k
and-lt = op-lt bit_and min and_lowest (λ d e h i. omega arith) refl

pub or-lt : (k a b : ℕ) → a < 2 ^ k → b < 2 ^ k → bit_or a b < 2 ^ k
or-lt = op-lt bit_or max or_lowest (λ d e h i. omega arith) refl

pub xor-lt : (k a b : ℕ) → a < 2 ^ k → b < 2 ^ k → bit_xor a b < 2 ^ k
xor-lt = op-lt bit_xor differ xor_lowest differ-lt refl

or_comm_fuel : (n a b : ℕ) → a ≤ n → b ≤ n → bit_or a b ≡ bit_or b a
or_comm_fuel zero zero zero h i = refl
or_comm_fuel zero (suc a) b h i = absurd (omega arith)
or_comm_fuel zero zero (suc b) h i = absurd (omega arith)
or_comm_fuel (suc n) a b h i = omega (
  arith,
  or_lowest a b,
  or_lowest b a,
  or_comm_fuel n (a / 2) (b / 2) (omega arith) (omega arith),
)

-- A field above another one is joined by adding it.
pub or_above : (k q r : ℕ) → r < 2 ^ k → bit_or r (q * 2 ^ k) ≡ q * 2 ^ k + r
or_above k q r h =
    or_comm_fuel (r + q * 2 ^ k) r (q * 2 ^ k) (omega arith) (omega arith) ∙ or_join k q r h
