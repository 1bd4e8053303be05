-- ===== src/Memory/Bytes.antt =====
-- The memory of src/Memory.cpp holds bytes, and reads words of its width.
use Prim.Native.Nat.{bit_and, bit_or}
use rv32im_so_c_performance.Base.{
  ℕ, ◌+◌, ◌*◌, ◌/◌, ◌^◌, ◌<◌, ◌≡◌, Ensures, Ensures->>=, Ensures-any, set, length, length-set, ◌∙◌,
  refl, All, All-set, All-get_or, arith,
}
use rv32im_so_c_performance.Decode.Fields.{and_ones}
use rv32im_so_c_performance.Words.Bounds.{or-lt}
use rv32im_so_c_performance.Memory.{
  Memory, byte, check_range, read8, read16, read32, write8, write16, write32,
}

-- Every cell is a byte.
abbrev pub IsBytes : Memory → Type 0
IsBytes m = All (λ (b : ℕ). b < 256) m

byte-lt : (m : Memory) (addr : ℕ) → IsBytes m → byte m addr < 256
byte-lt m addr h = All-get_or (λ b. b < 256) 0 m addr h (omega arith)

module _ (m : Memory) (addr : ℕ) (h : IsBytes m) where
  pub read8-lt : Ensures (λ v. v < 2 ^ 8) (read8 m addr)
  unfolding read8
  read8-lt =
      Ensures->>= (λ _. Unit {0}) _ (check_range m addr 1) _ (Ensures-any (check_range m addr 1))
        (λ _ _. byte-lt m addr h)

  half-lt : bit_or (byte m addr) (byte m (addr + 1) * 2 ^ 8) < 2 ^ 16
  half-lt =
      or-lt 16 (byte m addr) (byte m (addr + 1) * 2 ^ 8) (omega (arith, byte-lt m addr h))
        (omega (arith, byte-lt m (addr + 1) h))

  pub read16-lt : Ensures (λ v. v < 2 ^ 16) (read16 m addr)
  unfolding read16
  read16-lt =
      Ensures->>= (λ _. Unit {0}) _ (check_range m addr 2) _ (Ensures-any (check_range m addr 2))
        (λ _ _. half-lt)

  pub read32-lt : Ensures (λ v. v < 2 ^ 32) (read32 m addr)
  unfolding read32
  read32-lt =
      Ensures->>= (λ _. Unit {0}) _ (check_range m addr 4) _ (Ensures-any (check_range m addr 4))
        (λ _ _.
          or-lt 32 _ (byte m (addr + 3) * 2 ^ 24)
            (or-lt 32 _ (byte m (addr + 2) * 2 ^ 16) (omega (arith, half-lt))
              (omega (arith, byte-lt m (addr + 2) h)))
            (omega (arith, byte-lt m (addr + 3) h)))

low_byte-lt : (v : ℕ) → bit_and v 0xff < 256
low_byte-lt v = omega (arith, and_ones 8 v)

-- A memory of bytes, of the same size.
abbrev pub Kept : Memory → Memory → Type 0
Kept m m' = IsBytes m' × (length m' ≡ length m)

module _ (m : Memory) (addr value : ℕ) (h : IsBytes m) where
  kept : Kept m m
  kept = (h, refl)

  set-IsBytes : (x : Memory) (i v : ℕ) → Kept m x → v < 256 → Kept m (set x i v)
  set-IsBytes x i v k b = (All-set (λ b. b < 256) x i v k.0 b, length-set x i v ∙ k.1)

  byte-IsBytes : (x : Memory) (i v : ℕ) → Kept m x → Kept m (set x i (bit_and v 0xff))
  byte-IsBytes x i v k = set-IsBytes x i (bit_and v 0xff) k (low_byte-lt v)

  pub write8-IsBytes : value < 2 ^ 8 → Ensures (Kept m) (write8 m addr value)
  unfolding write8
  write8-IsBytes fits =
      Ensures->>= (λ _. Unit {0}) (Kept m) (check_range m addr 1) _
        (Ensures-any (check_range m addr 1)) (λ _ _. set-IsBytes m addr value kept fits)

  pub write16-IsBytes : Ensures (Kept m) (write16 m addr value)
  unfolding write16
  write16-IsBytes =
      Ensures->>= (λ _. Unit {0}) (Kept m) (check_range m addr 2) _
        (Ensures-any (check_range m addr 2))
        (λ _ _. byte-IsBytes _ (addr + 1) (value / 2 ^ 8) (byte-IsBytes m addr value kept))

  pub write32-IsBytes : Ensures (Kept m) (write32 m addr value)
  unfolding write32
  write32-IsBytes =
      Ensures->>= (λ _. Unit {0}) (Kept m) (check_range m addr 4) _
        (Ensures-any (check_range m addr 4))
        (λ _ _. byte-IsBytes _ (addr + 3) (value / 2 ^ 24) (
          byte-IsBytes _ (addr + 2) (value / 2 ^ 16)
            (byte-IsBytes _ (addr + 1) (value / 2 ^ 8) (byte-IsBytes m addr value kept))))
