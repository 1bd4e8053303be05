-- ===== src/Alu.antt =====
-- The values that src/CpuModel.cpp computes in the switch of `step`: OP-IMM, OP, the M extension, and
-- the conditions of the branches. An illegal instruction is a runtime error, of whose message the
-- reason is kept.
pub mod Words32
pub mod Division
pub mod Product
use Prim.Native.Nat.{bit_and, bit_or, bit_xor}
use rv32im_so_c_performance.Base.{
  ℕ, ◌*◌, ◌/◌, ◌%◌, ◌^◌, String, Bool, not, ◌&&◌, ltb, ◌==◌, if◌then◌else◌, runtime_error, Result,
  ok, err,
}
use rv32im_so_c_performance.Base.Int.{ℤ, pos, pos_part, neg_part, leb_ℤ}
use rv32im_so_c_performance.Cache.{add32}
use rv32im_so_c_performance.Words.{as_i32, as_u32, sub32, shl32, shr32, shr_ℤ, ◌*ℤ◌, quot_ℤ, rem_ℤ}

abbrev pub illegal {ℓ} : {A : Type ℓ} → String → Result A
illegal reason = err (runtime_error reason)

-- `as_i32(a) < as_i32(b)`
abbrev pub less_signed : ℕ → ℕ → Bool
less_signed a b = not (leb_ℤ (as_i32 b) (as_i32 a))

-- `test ? 1u : 0u`
abbrev pub flag : Bool → ℕ
flag b = if b then 1 else 0

-- `static_cast<std::uint32_t>(as_i32(a) >> k)`
abbrev pub sra : ℕ → ℕ → ℕ
sra a k = as_u32 (shr_ℤ (as_i32 a) k)

-- `x & 0x1fu`
abbrev pub shamt : ℕ → ℕ
shamt x = bit_and x 0x1f

-- A value under a condition on funct7.
abbrev pub when : Bool → String → ℕ → Result ℕ
when b reason value = if b then ok value else illegal reason

unfoldable pub branch_test : ℕ → ℕ → ℕ → Result Bool
branch_test funct3 a b =
    if funct3 == 0x0
    then ok (a == b)
    else if funct3 == 0x1
    then ok (not (a == b))
    else if funct3 == 0x4
    then ok (less_signed a b)
    else if funct3 == 0x5
    then ok (not (less_signed a b))
    else if funct3 == 0x6
    then ok (ltb a b)
    else if funct3 == 0x7
    then ok (not (ltb a b))
    else illegal "branch funct3"

unfoldable pub op_imm : ℕ → ℕ → ℕ → ℕ → ℕ → Result ℕ
op_imm funct3 funct7 rs2 a imm_i =
    if funct3 == 0x0
    then ok (add32 a imm_i)
    else if funct3 == 0x2
    then ok (flag (less_signed a imm_i))
    else if funct3 == 0x3
    then ok (flag (ltb a imm_i))
    else if funct3 == 0x4
    then ok (bit_xor a imm_i)
    else if funct3 == 0x6
    then ok (bit_or a imm_i)
    else if funct3 == 0x7
    then ok (bit_and a imm_i)
    else if funct3 == 0x1
    then when (funct7 == 0x00) "SLLI funct7" (shl32 a (shamt rs2))
    else if funct3 == 0x5
    then (if funct7 == 0x00
        then ok (shr32 a (shamt rs2))
        else when (funct7 == 0x20) "SRLI/SRAI funct7" (sra a (shamt rs2)))
    else illegal "OP-IMM funct3"

unfoldable pub op : ℕ → ℕ → ℕ → ℕ → Result ℕ
op funct3 funct7 a b =
    if funct3 == 0x0
    then (if funct7 == 0x00
        then ok (add32 a b)
        else when (funct7 == 0x20) "ADD/SUB funct7" (sub32 a b))
    else if funct3 == 0x1
    then when (funct7 == 0x00) "SLL funct7" (shl32 a (shamt b))
    else if funct3 == 0x2
    then when (funct7 == 0x00) "SLT funct7" (flag (less_signed a b))
    else if funct3 == 0x3
    then when (funct7 == 0x00) "SLTU funct7" (flag (ltb a b))
    else if funct3 == 0x4
    then when (funct7 == 0x00) "XOR funct7" (bit_xor a b)
    else if funct3 == 0x5
    then (if funct7 == 0x00
        then ok (shr32 a (shamt b))
        else when (funct7 == 0x20) "SRL/SRA funct7" (sra a (shamt b)))
    else if funct3 == 0x6
    then when (funct7 == 0x00) "OR funct7" (bit_or a b)
    else if funct3 == 0x7
    then when (funct7 == 0x00) "AND funct7" (bit_and a b)
    else illegal "OP funct3"

unfoldable pub mul : ℕ → ℕ → ℕ
unfolding ◌*ℤ◌
mul a b = as_u32 (as_i32 a *ℤ as_i32 b)

unfoldable pub mulh : ℕ → ℕ → ℕ
unfolding ◌*ℤ◌
mulh a b = as_u32 (shr_ℤ (as_i32 a *ℤ as_i32 b) 32)

unfoldable pub mulhsu : ℕ → ℕ → ℕ
unfolding ◌*ℤ◌
mulhsu a b = as_u32 (shr_ℤ (as_i32 a *ℤ pos b) 32)

unfoldable pub mulhu : ℕ → ℕ → ℕ
mulhu a b = a * b / 2 ^ 32 % 2 ^ 32

-- The quotient of the least integer by -1 does not fit.
abbrev pub overflows : ℕ → ℕ → Bool
overflows a b = a == 0x80000000 && b == 0xffffffff

unfoldable pub div : ℕ → ℕ → ℕ
unfolding quot_ℤ
div a b =
    if b == 0
    then 0xffffffff
    else if overflows a b
    then 0x80000000
    else as_u32 (quot_ℤ (as_i32 a) (as_i32 b))

unfoldable pub divu : ℕ → ℕ → ℕ
divu a b = if b == 0 then 0xffffffff else a / b

unfoldable pub rem : ℕ → ℕ → ℕ
unfolding rem_ℤ
rem a b = if b == 0 then a else if overflows a b then 0 else as_u32 (rem_ℤ (as_i32 a) (as_i32 b))

unfoldable pub remu : ℕ → ℕ → ℕ
remu a b = if b == 0 then a else a % b

unfoldable pub muldiv : ℕ → ℕ → ℕ → Result ℕ
unfolding mul mulh mulhsu mulhu div divu rem remu
muldiv funct3 a b =
    if funct3 == 0x0
    then ok (mul a b)
    else if funct3 == 0x1
    then ok (mulh a b)
    else if funct3 == 0x2
    then ok (mulhsu a b)
    else if funct3 == 0x3
    then ok (mulhu a b)
    else if funct3 == 0x4
    then ok (div a b)
    else if funct3 == 0x5
    then ok (divu a b)
    else if funct3 == 0x6
    then ok (rem a b)
    else if funct3 == 0x7
    then ok (remu a b)
    else illegal "M-extension funct3"

-- The case of OP, M extension included.
abbrev pub op_or_muldiv : ℕ → ℕ → ℕ → ℕ → Result ℕ
op_or_muldiv funct3 funct7 a b = if funct7 == 0x01 then muldiv funct3 a b else op funct3 funct7 a b
