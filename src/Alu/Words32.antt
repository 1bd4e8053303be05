-- ===== src/Alu/Words32.antt =====
-- Every value that the switch of src/CpuModel.cpp computes from words is a word again.
use native.Mathlib.Nat.{div-le_self, mod-le}
use rv32im_so_c_performance.Base.{ℕ, ◌^◌, ◌<◌, Ensures, arith}
use rv32im_so_c_performance.Base.Int.{ℤ, pos, negsuc}
use rv32im_so_c_performance.Words.{as_i32, as_u32, shl32, shr_ℤ, ◌*ℤ◌, quot_ℤ, rem_ℤ}
use rv32im_so_c_performance.Words.Bounds.{and-lt, or-lt, xor-lt}
use rv32im_so_c_performance.Alu.{
  shamt, op_imm, op, mul, mulh, mulhsu, mulhu, div, divu, rem, remu, muldiv,
}

pub as_u32-lt : (z : ℤ) → as_u32 z < 2 ^ 32
as_u32-lt (pos n) = omega arith
as_u32-lt (negsuc n) = omega arith

shl32-lt : (a k : ℕ) → shl32 a k < 2 ^ 32
shl32-lt a k = omega arith

abbrev pub IsWord : ℕ → Type 0
IsWord n = n < 2 ^ 32

module _ (funct3 funct7 rs2 a b : ℕ) (wa : a < 2 ^ 32) (wb : b < 2 ^ 32) where
  pub op_imm-IsWord : Ensures IsWord (op_imm funct3 funct7 rs2 a b)
  unfolding op_imm
  op_imm-IsWord = ground (
    arith,
    xor-lt 32 a b wa wb,
    or-lt 32 a b wa wb,
    and-lt 32 a b wa wb,
    div-le_self a (2 ^ shamt rs2),
    as_u32-lt (shr_ℤ (as_i32 a) (shamt rs2)),
    shl32-lt a (shamt rs2),
  )

  pub op-IsWord : Ensures IsWord (op funct3 funct7 a b)
  unfolding op
  op-IsWord = ground (
    arith,
    xor-lt 32 a b wa wb,
    or-lt 32 a b wa wb,
    and-lt 32 a b wa wb,
    div-le_self a (2 ^ shamt b),
    as_u32-lt (shr_ℤ (as_i32 a) (shamt b)),
    shl32-lt a (shamt b),
  )

  div-IsWord : IsWord (div a b)
  unfolding div
  div-IsWord = ground (arith, as_u32-lt (quot_ℤ (as_i32 a) (as_i32 b)))

  rem-IsWord : IsWord (rem a b)
  unfolding rem
  rem-IsWord = ground (arith, as_u32-lt (rem_ℤ (as_i32 a) (as_i32 b)))

  divu-IsWord : IsWord (divu a b)
  unfolding divu
  divu-IsWord = ground (arith, div-le_self a b)

  remu-IsWord : IsWord (remu a b)
  unfolding remu
  remu-IsWord = ground (arith, mod-le a b)

  mul-IsWord : IsWord (mul a b)
  unfolding mul
  mul-IsWord = as_u32-lt (as_i32 a *ℤ as_i32 b)

  mulh-IsWord : IsWord (mulh a b)
  unfolding mulh
  mulh-IsWord = as_u32-lt (shr_ℤ (as_i32 a *ℤ as_i32 b) 32)

  mulhsu-IsWord : IsWord (mulhsu a b)
  unfolding mulhsu
  mulhsu-IsWord = as_u32-lt (shr_ℤ (as_i32 a *ℤ pos b) 32)

  mulhu-IsWord : IsWord (mulhu a b)
  unfolding mulhu
  mulhu-IsWord = omega arith

  pub muldiv-IsWord : Ensures IsWord (muldiv funct3 a b)
  unfolding muldiv
  muldiv-IsWord = ground (
    arith, mul-IsWord, mulh-IsWord, mulhsu-IsWord, mulhu-IsWord, div-IsWord, divu-IsWord,
    rem-IsWord, remu-IsWord,
  )
