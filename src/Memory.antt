-- ===== src/Memory.antt =====
-- src/Memory.cpp and include/rv32im/Memory.hpp: a little-endian memory of bytes. The addresses are
-- 32-bit words, and check_range adds the width to them in 64 bits.
pub mod Written
pub mod ReadBack
pub mod Bytes
use Prim.Native.Nat.{bit_and, bit_or}
use rv32im_so_c_performance.Base.{
  ℕ, ◌+◌, ◌*◌, ◌/◌, ◌^◌, List, ltb, if◌then◌else◌, out_of_range, Result, ok, err, ◌>>=◌, ◌>>◌,
  get_or, set, length, replicate,
}

abbrev pub Memory : Type 0
Memory = List ℕ

-- The constructor.
abbrev pub zeroed : ℕ → Memory
zeroed size_bytes = replicate size_bytes 0

abbrev pub check_range : Memory → ℕ → ℕ → Result (Unit {0})
check_range m addr width = if ltb (length m) (addr + width) then err out_of_range else ok tt

abbrev pub byte : Memory → ℕ → ℕ
byte m addr = get_or 0 m addr

unfoldable pub read8 : Memory → ℕ → Result ℕ
read8 m addr = do check_range m addr 1; ok (byte m addr)

unfoldable pub read16 : Memory → ℕ → Result ℕ
read16 m addr = do check_range m addr 2; ok (bit_or (byte m addr) (byte m (addr + 1) * 2 ^ 8))

unfoldable pub read32 : Memory → ℕ → Result ℕ
read32 m addr = do
  check_range m addr 4
  ok (
      bit_or
        (bit_or (bit_or (byte m addr) (byte m (addr + 1) * 2 ^ 8)) (byte m (addr + 2) * 2 ^ 16))
        (byte m (addr + 3) * 2 ^ 24))

unfoldable pub write8 : Memory → ℕ → ℕ → Result Memory
write8 m addr value = do check_range m addr 1; ok (set m addr value)

unfoldable pub write16 : Memory → ℕ → ℕ → Result Memory
write16 m addr value = do
  check_range m addr 2
  let m = set m addr (bit_and value 0xff)
  ok (set m (addr + 1) (bit_and (value / 2 ^ 8) 0xff))

unfoldable pub write32 : Memory → ℕ → ℕ → Result Memory
write32 m addr value = do
  check_range m addr 4
  let m = set m addr (bit_and value 0xff)
  let m = set m (addr + 1) (bit_and (value / 2 ^ 8) 0xff)
  let m = set m (addr + 2) (bit_and (value / 2 ^ 16) 0xff)
  ok (set m (addr + 3) (bit_and (value / 2 ^ 24) 0xff))
