-- ===== src/Decode/Jumps.antt =====
-- The decoders of scripts/analyze_jump_fetch.py against the encoding of JAL.
use Prim.Native.Nat.{bit_and, bit_or}
use rv32im_so_c_performance.Base.{ℕ, ◌+◌, ◌*◌, ◌/◌, ◌%◌, ◌^◌, ◌<◌, ◌≡◌, ap, ◌∙◌, some, arith}
use rv32im_so_c_performance.Base.Int.{pos, ◌+ℤ◌}
use rv32im_so_c_performance.PyText.Hex.{low32}
use rv32im_so_c_performance.Decode.{shr, jal_imm, jal_target, rd_of}
use rv32im_so_c_performance.Decode.Fields.{and_ones, or_join}
use rv32im_so_c_performance.Decode.Targets.{signed, sx-signed}

-- JAL with the offset `u` in 21 bits, and the register that it links.
abbrev pub encode_jal : ℕ → ℕ → ℕ
encode_jal u rd =
    u / 0x100000 * 0x80000000
    + u / 2 % 1024 * 0x200000
    + u / 2048 % 2 * 0x100000
    + u / 4096 % 256 * 0x1000
    + rd * 0x80
    + 0x6f

join_jal :
    (a b c e : ℕ)
    → b < 256
    → c < 2
    → e < 1024
    → bit_or (bit_or (bit_or (a * 0x100000) (b * 0x1000)) (c * 0x800)) (e * 2)
      ≡ a * 0x100000 + b * 0x1000 + c * 0x800 + e * 2
join_jal a b c e h i j =
    ap (λ x. bit_or (bit_or x (c * 0x800)) (e * 2)) (or_join 20 a (b * 0x1000) (omega arith))
    ∙ ap (λ x. bit_or (bit_or x (c * 0x800)) (e * 2)) (multiple_12 a b)
    ∙ ap (λ x. bit_or x (e * 2)) (or_join 12 (a * 256 + b) (c * 0x800) (omega arith))
    ∙ ap (λ x. bit_or x (e * 2)) (multiple_11 a b c)
    ∙ or_join 11 (a * 512 + b * 2 + c) (e * 2) (omega arith)
    ∙ omega arith
  where
    multiple_12 : (a b : ℕ) → a * 2 ^ 20 + b * 0x1000 ≡ (a * 256 + b) * 2 ^ 12
    multiple_12 a b = omega arith

    multiple_11 : (a b c : ℕ) → (a * 256 + b) * 2 ^ 12 + c * 0x800 ≡ (a * 512 + b * 2 + c) * 2 ^ 11
    multiple_11 a b c = omega arith

module _ (u rd : ℕ) (fits : u < 0x200000) (even : u % 2 ≡ 0) (register : rd < 32) where
  abbrev word : ℕ
  word = encode_jal u rd

  bit_31 : bit_and (shr word 31) 1 ≡ u / 0x100000
  bit_31 = and_ones 1 (shr word 31) ∙ omega arith

  bits_12 : bit_and (shr word 12) 0xff ≡ u / 4096 % 256
  bits_12 = and_ones 8 (shr word 12) ∙ omega arith

  bit_20 : bit_and (shr word 20) 1 ≡ u / 2048 % 2
  bit_20 = and_ones 1 (shr word 20) ∙ omega arith

  bits_21 : bit_and (shr word 21) 0x3ff ≡ u / 2 % 1024
  bits_21 = and_ones 10 (shr word 21) ∙ omega arith

  opcode : bit_and word 0x7f ≡ 0x6f
  opcode = and_ones 7 word ∙ omega arith

  jal_imm-word : jal_imm word ≡ u
  unfolding jal_imm
  jal_imm-word =
      rw (bit_31, bits_12, bit_20, bits_21)
        (join_jal (u / 0x100000) (u / 4096 % 256) (u / 2048 % 2) (u / 2 % 1024) (omega arith)
            (omega arith) (omega arith)
          ∙ omega arith)

  rd_of-word : rd_of word ≡ rd
  unfolding rd_of
  rd_of-word = and_ones 5 (shr word 7) ∙ omega arith

  target : (pc : ℕ) → jal_target pc word ≡ some (low32 (pos pc +ℤ signed 20 u))
  unfolding jal_target
  target pc = rw (opcode, jal_imm-word, sx-signed 20 u fits)

  -- A JAL word, built from a register number and an even offset that fits in 21 bits, is decoded to
  -- the low 32 bits of the program counter plus the signed offset, and its link register is read back.
  jal_target-encode :
      (pc : ℕ)
      → (jal_target pc (encode_jal u rd) ≡ some (low32 (pos pc +ℤ signed 20 u)))
        × (rd_of (encode_jal u rd) ≡ rd)
  jal_target-encode pc = (target pc, rd_of-word)
