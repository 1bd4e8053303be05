-- ===== src/Memory/ReadBack.antt =====
-- What src/Memory.cpp reads back: the word that was written, its halves and its lowest byte.
use Prim.Native.Nat.{bit_or}
use rv32im_so_c_performance.Base.{
  ℕ, ◌+◌, ◌*◌, ◌/◌, ◌%◌, ◌^◌, ◌≤◌, ◌<◌, ◌≡◌, refl, ap, ◌∙◌, false, ltb, ok, length, arith,
}
use rv32im_so_c_performance.Words.Bounds.{or_above}
use rv32im_so_c_performance.Memory.{Memory, byte, read8, read16, read32, write32}
use rv32im_so_c_performance.Memory.Written.{IsWritten, write32-IsWritten}

join_half : (a b : ℕ) → a < 256 → bit_or a (b * 2 ^ 8) ≡ a + b * 256
join_half a b h = or_above 8 b a (omega arith) ∙ omega arith

-- Four bytes, the lowest first.
join_word :
    (a b c d : ℕ)
    → a < 256
    → b < 256
    → c < 256
    → bit_or (bit_or (bit_or a (b * 2 ^ 8)) (c * 2 ^ 16)) (d * 2 ^ 24)
      ≡ a + b * 256 + c * 65536 + d * 16777216
join_word a b c d h i j =
    ap (λ x. bit_or (bit_or x (c * 2 ^ 16)) (d * 2 ^ 24)) (or_above 8 b a (omega arith))
    ∙ ap (λ x. bit_or x (d * 2 ^ 24)) (or_above 16 c (b * 2 ^ 8 + a) (omega arith))
    ∙ or_above 24 d (c * 2 ^ 16 + (b * 2 ^ 8 + a)) (omega arith)
    ∙ omega arith

byte_fits : (n : ℕ) → n % 256 < 256
byte_fits n = omega arith

module _ {m : Memory} {addr value : ℕ} {m' : Memory} (w : IsWritten 4 m addr value m')
    (fits : value < 2 ^ 32) where
  -- The byte in the place `i`, at an address that is written in another way.
  at_place : (i j : ℕ) → i < 4 → j ≡ addr + i → byte m' j ≡ value / 2 ^ (8 * i) % 256
  at_place i j h e = ap (byte m') e ∙ w.bytes i h

  in_bounds : (j k : ℕ) → j + k ≤ addr + 4 → ltb (length m') (j + k) ≡ false
  in_bounds j k h = ground (arith, w.in_range, w.same_size)

  read32_back : read32 m' addr ≡ ok value
  unfolding read32
  read32_back =
      rw
        (
          in_bounds addr 4 (omega arith),
          at_place 0 addr (omega arith) (omega arith),
          at_place 1 (addr + 1) (omega arith) refl,
          at_place 2 (addr + 2) (omega arith) refl,
          at_place 3 (addr + 3) (omega arith) refl,
        )
        (ap ok (
          join_word (value / 1 % 256) (value / 256 % 256) (value / 65536 % 256)
            (value / 16777216 % 256) (byte_fits _) (byte_fits _) (byte_fits _)
          ∙ omega arith))

  read16_back : (read16 m' addr ≡ ok (value % 65536)) × (read16 m' (addr + 2) ≡ ok (value / 65536))
  unfolding read16
  read16_back = (
    rw
        (
          in_bounds addr 2 (omega arith),
          at_place 0 addr (omega arith) (omega arith),
          at_place 1 (addr + 1) (omega arith) refl,
        )
        (ap ok (join_half (value / 1 % 256) (value / 256 % 256) (byte_fits _) ∙ omega arith)),
    rw
        (
          in_bounds (addr + 2) 2 (omega arith),
          at_place 2 (addr + 2) (omega arith) refl,
          at_place 3 (addr + 2 + 1) (omega arith) (omega arith),
        )
        (ap ok
          (join_half (value / 65536 % 256) (value / 16777216 % 256) (byte_fits _) ∙ omega arith)),
  )

  read8_back : read8 m' addr ≡ ok (value % 256)
  unfolding read8
  read8_back =
      rw (in_bounds addr 1 (omega arith), at_place 0 addr (omega arith) (omega arith))
        (ap ok (one value))
    where
      one : (v : ℕ) → v / 1 % 256 ≡ v % 256
      one v = omega arith

-- A word that was written is read back, also by halves and by its lowest byte; the size of the memory
-- and its other bytes are as before.
pub write32-read32 :
    (m : Memory) (addr value : ℕ) (m' : Memory)
    → value < 2 ^ 32
    → write32 m addr value ≡ ok m'
    → (read32 m' addr ≡ ok value)
      × (read16 m' addr ≡ ok (value % 65536))
      × (read16 m' (addr + 2) ≡ ok (value / 65536))
      × (read8 m' addr ≡ ok (value % 256))
      × IsWritten 4 m addr value m'
write32-read32 m addr value m' fits h =
    let w = write32-IsWritten m addr value m' h in
    (read32_back w fits, (read16_back w fits).0, (read16_back w fits).1, read8_back w fits, w)
