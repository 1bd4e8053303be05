-- ===== src/Decode/Digits.antt =====
-- One equation for the lowest digit of each bit operation.
use Prim.Native.Nat.{
  digits, bitwise, differ, bit_and, bit_or, bit_xor, bit_and-bitwise, bit_or-bitwise,
  bit_xor-bitwise,
}
use rv32im_so_c_performance.Base.{ℕ, zero, suc, ◌+◌, ◌*◌, ◌/◌, ◌%◌, ◌≤◌, min, max, ◌≡◌, refl, arith}

module _ (rest : ℕ → ℕ) (op : ℕ → ℕ → ℕ) where
  -- More digits to go than the first number has make no difference.
  more_digits : (a b n m : ℕ) → a ≤ m → a ≤ n → digits rest op n a b ≡ digits rest op m a b
  more_digits zero b zero zero h k = refl
  more_digits zero b zero (suc m) h k = refl
  more_digits zero b (suc n) zero h k = refl
  more_digits zero b (suc n) (suc m) h k = refl
  more_digits (suc a) b n zero h k = absurd (omega arith)
  more_digits (suc a) b zero (suc m) h k = absurd (omega arith)
  more_digits (suc a) b (suc n) (suc m) h k =
      rw (more_digits (suc a / 2) (b / 2) n m (omega arith) (omega arith))

  lowest :
      (a b : ℕ)
      → bitwise rest op (suc a) b ≡ bitwise rest op (suc a / 2) (b / 2) * 2 + op (suc a % 2) (b % 2)
  lowest a b =
      omega (arith, more_digits (suc a / 2) (b / 2) a (suc a / 2) (omega arith) (omega arith))

pub and_lowest : (a b : ℕ) → bit_and a b ≡ bit_and (a / 2) (b / 2) * 2 + min (a % 2) (b % 2)
and_lowest zero b = simp bit_and-bitwise (omega arith)
and_lowest (suc a) b = simp bit_and-bitwise (lowest (λ _. 0) min a b)

pub or_lowest : (a b : ℕ) → bit_or a b ≡ bit_or (a / 2) (b / 2) * 2 + max (a % 2) (b % 2)
or_lowest zero b = simp bit_or-bitwise (omega arith)
or_lowest (suc a) b = simp bit_or-bitwise (lowest (λ y. y) max a b)

pub xor_lowest : (a b : ℕ) → bit_xor a b ≡ bit_xor (a / 2) (b / 2) * 2 + differ (a % 2) (b % 2)
xor_lowest zero b = simp bit_xor-bitwise (omega arith)
xor_lowest (suc a) b = simp bit_xor-bitwise (lowest (λ y. y) differ a b)
