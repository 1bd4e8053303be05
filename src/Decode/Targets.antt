-- ===== src/Decode/Targets.antt =====
-- Sign extension, and the decoder of scripts/analyze_branch_fetch.py against the encoding of the
-- conditional branches.
use Prim.Native.Nat.{bit_and, bit_or, bit_xor}
use rv32im_so_c_performance.Base.{
  ℕ, suc, ◌+◌, ◌-◌, ◌*◌, ◌/◌, ◌%◌, ◌^◌, ◌≤◌, ◌<◌, ◌≡◌, ap, ◌∙◌, inl, inr, some, ltb, if◌then◌else◌,
  Bool-cases, arith,
}
use rv32im_so_c_performance.Base.Int.{ℤ, pos, sub_ℕ, ◌+ℤ◌}
use rv32im_so_c_performance.PyText.Hex.{low32}
use rv32im_so_c_performance.Decode.{shr, sx, branch_imm, branch_target}
use rv32im_so_c_performance.Decode.Fields.{and_ones, or_join, xor_low, xor_high}

-- The two's complement number of `k + 1` bits.
abbrev pub signed : ℕ → ℕ → ℤ
signed k u = if ltb u (2 ^ k) then pos u else sub_ℕ u (2 * 2 ^ k)

one_times : (k : ℕ) → 1 * 2 ^ (suc k - 1) ≡ 2 ^ k
one_times k = ap (λ n. 1 * 2 ^ n) (pred k) ∙ one (2 ^ k)
  where
    pred : (k : ℕ) → suc k - 1 ≡ k
    pred k = omega arith

    one : (p : ℕ) → 1 * p ≡ p
    one p = omega arith

flip_clear :
    (p u x : ℕ) → u < p → x ≡ u + p → sub_ℕ x p ≡ (if ltb u p then pos u else sub_ℕ u (2 * p))
flip_clear p u x h e = ground arith

flip_set :
    (p u x : ℕ)
    → p ≤ u
    → u < 2 * p
    → x ≡ u - p
    → sub_ℕ x p ≡ (if ltb u p then pos u else sub_ℕ u (2 * p))
flip_set p u x h l e = ground arith

split : (p u : ℕ) → p ≤ u → u ≡ p + (u - p)
split p u h = omega arith

-- `sx` reads a number of `k + 1` bits in two's complement.
pub sx-signed : (k u : ℕ) → u < 2 * 2 ^ k → sx u (suc k) ≡ signed k u
unfolding sx
sx-signed k u h = rw (one_times k) (elim (Bool-cases (ltb u (2 ^ k))) [
  | inl e ↦ flip_clear (2 ^ k) u _ (ground arith) (xor_low k u (ground arith))
  | inr e ↦ flip_set (2 ^ k) u _ (ground arith) h (
      ap (λ x. bit_xor x (2 ^ k)) (split (2 ^ k) u (ground arith))
      ∙ xor_high k (u - 2 ^ k) (ground arith))
])

-- A conditional branch with the offset `u` in 13 bits, from its operands.
abbrev pub encode_branch : ℕ → ℕ → ℕ → ℕ → ℕ
encode_branch u rs1 rs2 funct3 =
    u / 4096 * 0x80000000
    + u / 32 % 64 * 0x2000000
    + rs2 * 0x100000
    + rs1 * 0x8000
    + funct3 * 0x1000
    + u / 2 % 16 * 0x100
    + u / 2048 % 2 * 0x80
    + 0x63

join_branch :
    (a b c e : ℕ)
    → b < 2
    → c < 64
    → e < 16
    → bit_or (bit_or (bit_or (a * 4096) (b * 2048)) (c * 32)) (e * 2)
      ≡ a * 4096 + b * 2048 + c * 32 + e * 2
join_branch a b c e h i j =
    ap (λ x. bit_or (bit_or x (c * 32)) (e * 2)) (or_join 12 a (b * 2048) (omega arith))
    ∙ ap (λ x. bit_or (bit_or x (c * 32)) (e * 2)) (as_multiple a b)
    ∙ ap (λ x. bit_or x (e * 2)) (or_join 11 (a * 2 + b) (c * 32) (omega arith))
    ∙ ap (λ x. bit_or x (e * 2)) (as_multiple_5 a b c)
    ∙ or_join 5 (a * 128 + b * 64 + c) (e * 2) (omega arith)
    ∙ omega arith
  where
    as_multiple : (a b : ℕ) → a * 2 ^ 12 + b * 2048 ≡ (a * 2 + b) * 2 ^ 11
    as_multiple a b = omega arith

    as_multiple_5 : (a b c : ℕ) → (a * 2 + b) * 2 ^ 11 + c * 32 ≡ (a * 128 + b * 64 + c) * 2 ^ 5
    as_multiple_5 a b c = omega arith

module _ (u rs1 rs2 funct3 : ℕ) (fits : u < 8192) (even : u % 2 ≡ 0) (r1 : rs1 < 32) (r2 : rs2 < 32)
    (f3 : funct3 < 8) where
  abbrev word : ℕ
  word = encode_branch u rs1 rs2 funct3

  bit_31 : bit_and (shr word 31) 1 ≡ u / 4096
  bit_31 = and_ones 1 (shr word 31) ∙ omega arith

  bit_7 : bit_and (shr word 7) 1 ≡ u / 2048 % 2
  bit_7 = and_ones 1 (shr word 7) ∙ omega arith

  bits_25 : bit_and (shr word 25) 0x3f ≡ u / 32 % 64
  bits_25 = and_ones 6 (shr word 25) ∙ omega arith

  bits_8 : bit_and (shr word 8) 0xf ≡ u / 2 % 16
  bits_8 = and_ones 4 (shr word 8) ∙ omega arith

  opcode : bit_and word 0x7f ≡ 0x63
  opcode = and_ones 7 word ∙ omega arith

  branch_imm-word : branch_imm word ≡ u
  unfolding branch_imm
  branch_imm-word =
      rw (bit_31, bit_7, bits_25, bits_8)
        (join_branch (u / 4096) (u / 2048 % 2) (u / 32 % 64) (u / 2 % 16) (omega arith)
            (omega arith) (omega arith)
          ∙ omega arith)

  -- A branch word, built from register numbers, a function code and an even offset that fits in 13
  -- bits, is decoded to the low 32 bits of the program counter plus the signed offset.
  pub branch_target-encode :
      (pc : ℕ)
      → branch_target pc (encode_branch u rs1 rs2 funct3) ≡ some (low32 (pos pc +ℤ signed 12 u))
  unfolding branch_target
  branch_target-encode pc = rw (opcode, branch_imm-word, sx-signed 12 u fits)
