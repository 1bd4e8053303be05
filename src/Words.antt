-- ===== src/Words.antt =====
-- The 32-bit words of src/CpuModel.cpp. A uint32_t is a number below 2 ^ 32; an int32_t is kept as its
-- bit pattern, and `as_i32` is the integer that the pattern stands for. int64_t values are integers.
pub mod Bounds
use Prim.Native.Nat.{bit_and, bit_xor}
use rv32im_so_c_performance.Base.{
  ℕ, zero, suc, ◌+◌, ◌-◌, ◌*◌, ◌/◌, ◌%◌, ◌^◌, ltb, ◌==◌, if◌then◌else◌,
}
use rv32im_so_c_performance.Base.Int.{ℤ, pos, negsuc, pos_part, neg_part, sub_ℕ, neg_ℤ}

abbrev pub as_i32 : ℕ → ℤ
as_i32 value = if ltb value (2 ^ 31) then pos value else negsuc (2 ^ 32 - value - 1)

-- `static_cast<std::uint32_t>(value)`
abbrev pub as_u32 : ℤ → ℕ
as_u32 (pos n) = n % 2 ^ 32
as_u32 (negsuc n) = 2 ^ 32 - 1 - n % 2 ^ 32

-- `a - b` on uint32_t, of a word b
abbrev pub sub32 : ℕ → ℕ → ℕ
sub32 a b = (a + 2 ^ 32 - b) % 2 ^ 32

unfoldable pub sign_extend : ℕ → ℕ → ℕ
sign_extend value width =
    let sign = 2 ^ (width - 1) in
    let mask = if width == 32 then 0xffffffff else 2 ^ width - 1 in
    sub32 (bit_xor (bit_and value mask) sign) sign

-- `a << k` and `a >> k` on uint32_t
abbrev pub shl32 : ℕ → ℕ → ℕ
shl32 a k = a * 2 ^ k % 2 ^ 32

abbrev pub shr32 : ℕ → ℕ → ℕ
shr32 a k = a / 2 ^ k

-- `a >> k` on a signed type, which keeps the sign
abbrev pub shr_ℤ : ℤ → ℕ → ℤ
shr_ℤ (pos n) k = pos (n / 2 ^ k)
shr_ℤ (negsuc n) k = negsuc (n / 2 ^ k)

infixl 70 ◌*ℤ◌
unfoldable pub ◌*ℤ◌ : ℤ → ℤ → ℤ
a *ℤ b =
    sub_ℕ (pos_part a * pos_part b + neg_part a * neg_part b)
      (pos_part a * neg_part b + neg_part a * pos_part b)

abbrev pub magnitude : ℤ → ℕ
magnitude a = pos_part a + neg_part a

-- `a / b` and `a % b` on a signed type, which round towards zero
unfoldable pub quot_ℤ : ℤ → ℤ → ℤ
quot_ℤ (pos a) (pos b) = pos (a / b)
quot_ℤ (pos a) (negsuc b) = neg_ℤ (pos (a / suc b))
quot_ℤ (negsuc a) (pos b) = neg_ℤ (pos (suc a / b))
quot_ℤ (negsuc a) (negsuc b) = pos (suc a / suc b)

unfoldable pub rem_ℤ : ℤ → ℤ → ℤ
rem_ℤ (pos a) b = pos (a % magnitude b)
rem_ℤ (negsuc a) b = neg_ℤ (pos (suc a % magnitude b))
