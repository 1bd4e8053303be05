-- ===== src/Decode.antt =====
-- The immediate decoders of scripts/analyze_branch_fetch.py and scripts/analyze_jump_fetch.py. A word
-- is a number; `x << k` is `x * 2 ^ k` and `x >> k` is `x / 2 ^ k`.
pub mod Digits
pub mod Fields
pub mod Targets
pub mod Jumps
use Prim.Native.Nat.{bit_and, bit_or, bit_xor}
use rv32im_so_c_performance.Base.{
  ℕ, ◌-◌, ◌*◌, ◌/◌, ◌^◌, Bool, not, Option, none, some, ◌==◌, if◌then◌else◌,
}
use rv32im_so_c_performance.Base.Int.{ℤ, pos, sub_ℕ, ◌+ℤ◌}
use rv32im_so_c_performance.PyText.Hex.{low32}

abbrev pub shl : ℕ → ℕ → ℕ
shl x k = x * 2 ^ k

abbrev pub shr : ℕ → ℕ → ℕ
shr x k = x / 2 ^ k

-- Sign extension: the sign bit is flipped, and its weight taken off again.
unfoldable pub sx : ℕ → ℕ → ℤ
sx value bits = sub_ℕ (bit_xor value (shl 1 (bits - 1))) (shl 1 (bits - 1))

-- The immediate of a conditional branch.
unfoldable pub branch_imm : ℕ → ℕ
branch_imm insn =
    bit_or
      (bit_or (bit_or (shl (bit_and (shr insn 31) 1) 12) (shl (bit_and (shr insn 7) 1) 11))
        (shl (bit_and (shr insn 25) 0x3f) 5))
      (shl (bit_and (shr insn 8) 0xf) 1)

unfoldable pub branch_target : ℕ → ℕ → Option ℕ
unfolding branch_imm sx ◌+ℤ◌ low32
branch_target pc insn =
    if not (bit_and insn 0x7f == 0x63)
    then none
    else some (low32 (pos pc +ℤ sx (branch_imm insn) 13))

-- The immediate of JAL.
unfoldable pub jal_imm : ℕ → ℕ
jal_imm insn =
    bit_or
      (bit_or (bit_or (shl (bit_and (shr insn 31) 1) 20) (shl (bit_and (shr insn 12) 0xff) 12))
        (shl (bit_and (shr insn 20) 1) 11))
      (shl (bit_and (shr insn 21) 0x3ff) 1)

unfoldable pub jal_target : ℕ → ℕ → Option ℕ
unfolding jal_imm sx ◌+ℤ◌ low32
jal_target pc insn =
    if not (bit_and insn 0x7f == 0x6f) then none else some (low32 (pos pc +ℤ sx (jal_imm insn) 21))

-- The fields that the JAL/JALR report prints: rd, rs1 and the immediate of JALR.
unfoldable pub rd_of : ℕ → ℕ
rd_of insn = bit_and (shr insn 7) 0x1f

unfoldable pub rs1_of : ℕ → ℕ
rs1_of insn = bit_and (shr insn 15) 0x1f

unfoldable pub jalr_imm : ℕ → ℤ
unfolding sx
jalr_imm insn = sx (bit_and (shr insn 20) 0xfff) 12
