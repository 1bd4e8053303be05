-- ===== src/Memory/Written.antt =====
-- What src/Memory.cpp reads of what it has written.
use Prim.Native.Nat.{bit_and}
use rv32im_so_c_performance.Base.{
  ℕ, zero, suc, ◌+◌, ◌*◌, ◌/◌, ◌%◌, ◌^◌, ◌≤◌, ◌<◌, ◌≡◌, refl, ap, subst, ◌∙◌, List, [], ◌∷◌, ltb,
  ◌==◌, if◌then◌else◌, inl, inr, Bool-cases, ◌⊎◌, Result, out_of_range, ok, err, get_or, set,
  length, length-set, get_or-set, arith,
}
use rv32im_so_c_performance.Decode.Fields.{and_ones}
use rv32im_so_c_performance.Memory.{Memory, byte, write8, write16, write32}

low_byte : (v : ℕ) → bit_and v 0xff ≡ v % 256
low_byte v = and_ones 8 v

byte-set :
    (m : Memory) (i j v : ℕ) → i < length m → byte (set m i v) j ≡ (if i == j then v else byte m j)
byte-set m i j v h = get_or-set 0 m i j v h

-- The memory after the bytes are stored from an address on.
stored : Memory → ℕ → List ℕ → Memory
stored m addr [] = m
stored m addr (b ∷ bs) = stored (set m addr b) (addr + 1) bs

length-stored : (m : Memory) (addr : ℕ) (bs : List ℕ) → length (stored m addr bs) ≡ length m
unfolding stored
length-stored m addr [] = refl
length-stored m addr (b ∷ bs) = length-stored (set m addr b) (addr + 1) bs ∙ length-set m addr b

stored_outside :
    (m : Memory) (addr : ℕ) (bs : List ℕ) (j : ℕ)
    → addr + length bs ≤ length m
    → (j < addr) ⊎ (addr + length bs ≤ j)
    → byte (stored m addr bs) j ≡ byte m j
unfolding stored
stored_outside m addr [] j room out = refl
stored_outside m addr (b ∷ bs) j room out =
    stored_outside (set m addr b) (addr + 1) bs j (omega (arith, length-set m addr b)) (beyond out)
    ∙ ground (arith, byte-set m addr j b (omega arith))
  where
    beyond : (j < addr) ⊎ (addr + suc (length bs) ≤ j) → (j < addr + 1) ⊎ (addr + 1 + length bs ≤ j)
    beyond (inl h) = inl (omega arith)
    beyond (inr h) = inr (omega arith)

stored_inside :
    (m : Memory) (addr : ℕ) (bs : List ℕ) (i : ℕ)
    → addr + length bs ≤ length m
    → i < length bs
    → byte (stored m addr bs) (addr + i) ≡ get_or 0 bs i
unfolding stored
stored_inside m addr [] i room h = absurd (omega arith)
stored_inside m addr (b ∷ bs) zero room h =
    stored_outside (set m addr b) (addr + 1) bs (addr + 0) (omega (arith, length-set m addr b))
      (inl (omega arith))
    ∙ ground (arith, byte-set m addr (addr + 0) b (omega arith))
stored_inside m addr (b ∷ bs) (suc i) room h =
    ap (byte (stored (set m addr b) (addr + 1) bs)) (next addr i)
    ∙ stored_inside (set m addr b) (addr + 1) bs i (omega (arith, length-set m addr b))
        (omega arith)
  where
    next : (addr i : ℕ) → addr + suc i ≡ addr + 1 + i
    next addr i = omega arith

-- What a write of a value has done: the bytes are those of the value, the others are as before.
pub record IsWritten (width : ℕ) (m : Memory) (addr value : ℕ) (m' : Memory) : Type 0 where
  pub in_range : addr + width ≤ length m
  pub same_size : length m' ≡ length m
  pub bytes : (i : ℕ) → i < width → byte m' (addr + i) ≡ value / 2 ^ (8 * i) % 256
  pub others : (j : ℕ) → (j < addr) ⊎ (addr + width ≤ j) → byte m' j ≡ byte m j

add_two : (n : ℕ) → n + 1 + 1 ≡ n + 2
add_two n = omega arith

add_three : (n : ℕ) → n + 2 + 1 ≡ n + 3
add_three n = omega arith

-- Where the bytes to store are those of the value, the write is one.
stored-IsWritten :
    (m : Memory) (addr value : ℕ) (bs : List ℕ) (m' : Memory)
    → ((i : ℕ) → i < length bs → get_or 0 bs i ≡ value / 2 ^ (8 * i) % 256)
    → (if ltb (length m) (addr + length bs) then err out_of_range else ok (stored m addr bs))
      ≡ ok m'
    → IsWritten (length bs) m addr value m'
stored-IsWritten m addr value bs m' same h = elim (Bool-cases (ltb (length m) (addr + length bs))) [
  | inl e ↦ absurd (failed (rw e at h))
  | inr e ↦
      let room : addr + length bs ≤ length m = ground (arith, e) in
      subst (IsWritten (length bs) m addr value) (returned (rw e at h)) (record {
        in_range = room;
        same_size = length-stored m addr bs;
        bytes = λ i below. stored_inside m addr bs i room below ∙ same i below;
        others = λ j out. stored_outside m addr bs j room out;
      })
]
  where
    failed : ◌≡◌ {A = Result Memory} (err out_of_range) (ok m') → ⊥
    failed h = cc

    returned : ok (stored m addr bs) ≡ ok m' → stored m addr bs ≡ m'
    returned h = cc

pub write8-IsWritten :
    (m : Memory) (addr value : ℕ) (m' : Memory)
    → value < 256
    → write8 m addr value ≡ ok m'
    → IsWritten 1 m addr value m'
unfolding write8 stored
write8-IsWritten m addr value m' fits h =
    stored-IsWritten m addr value (value ∷ []) m' same (rw (unguarded) at h)
  where
    same : (i : ℕ) → i < 1 → get_or 0 (value ∷ []) i ≡ value / 2 ^ (8 * i) % 256
    same zero h = omega arith
    same (suc i) h = absurd (omega arith)

    unguarded :
        write8 m addr value
        ≡ (if ltb (length m) (addr + 1) then err out_of_range else ok (set m addr value))
    unguarded = ground arith

pub write16-IsWritten :
    (m : Memory) (addr value : ℕ) (m' : Memory)
    → write16 m addr value ≡ ok m'
    → IsWritten 2 m addr value m'
unfolding write16 stored
write16-IsWritten m addr value m' h =
    stored-IsWritten m addr value (bit_and value 0xff ∷ bit_and (value / 2 ^ 8) 0xff ∷ []) m' same
      (rw (unguarded) at h)
  where
    same :
        (i : ℕ)
        → i < 2
        → get_or 0 (bit_and value 0xff ∷ bit_and (value / 2 ^ 8) 0xff ∷ []) i
          ≡ value / 2 ^ (8 * i) % 256
    same zero h = omega (arith, low_byte value)
    same (suc zero) h = low_byte (value / 2 ^ 8)
    same (suc (suc i)) h = absurd (omega arith)

    unguarded : write16 m addr value ≡ (
        if ltb (length m) (addr + 2)
        then err out_of_range
        else ok (set (set m addr (bit_and value 0xff)) (addr + 1) (bit_and (value / 2 ^ 8) 0xff)))
    unguarded = ground arith

abbrev bytes_of : ℕ → List ℕ
bytes_of value =
    bit_and value 0xff
    ∷ bit_and (value / 2 ^ 8) 0xff
    ∷ bit_and (value / 2 ^ 16) 0xff
    ∷ bit_and (value / 2 ^ 24) 0xff
    ∷ []

pub write32-IsWritten :
    (m : Memory) (addr value : ℕ) (m' : Memory)
    → write32 m addr value ≡ ok m'
    → IsWritten 4 m addr value m'
unfolding write32 stored
write32-IsWritten m addr value m' h =
    stored-IsWritten m addr value (bytes_of value) m' same (rw (unguarded) at h)
  where
    same : (i : ℕ) → i < 4 → get_or 0 (bytes_of value) i ≡ value / 2 ^ (8 * i) % 256
    same zero h = omega (arith, low_byte value)
    same (suc zero) h = low_byte (value / 2 ^ 8)
    same (suc (suc zero)) h = low_byte (value / 2 ^ 16)
    same (suc (suc (suc zero))) h = low_byte (value / 2 ^ 24)
    same (suc (suc (suc (suc i)))) h = absurd (omega arith)

    unguarded : write32 m addr value ≡ (
        if ltb (length m) (addr + 4) then err out_of_range else ok (stored m addr (bytes_of value)))
    unguarded = elim (Bool-cases (ltb (length m) (addr + 4))) [
      | inl e ↦ rw e
      | inr e ↦ rw (e, add_two addr, add_three addr)
    ]
