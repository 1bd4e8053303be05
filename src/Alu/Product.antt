-- ===== src/Alu/Product.antt =====
-- The two halves of the products of src/CpuModel.cpp against the products of integers.
use native.Mathlib.Nat.{mul-le-mul}
use rv32im_so_c_performance.Base.{
  ℕ, ◌+◌, ◌-◌, ◌*◌, ◌/◌, ◌%◌, ◌^◌, ◌<◌, ◌≤◌, ◌≡◌, refl, ap, sym, ◌∙◌, Bool-cases, inl, inr, ltb,
  arith,
}
use rv32im_so_c_performance.Base.Int.{ℤ, pos, negsuc, ◌+ℤ◌}
use rv32im_so_c_performance.Words.{as_i32, as_u32, magnitude, shr_ℤ, ◌*ℤ◌}
use rv32im_so_c_performance.Alu.{mul, mulh, mulhsu, mulhu}
use rv32im_so_c_performance.Alu.Division.{IsI32, as_i32-as_u32}

-- A word below, and the other digits above.
halves : (z : ℤ) → pos (as_u32 z) +ℤ shr_ℤ z 32 *ℤ pos (2 ^ 32) ≡ z
unfolding ◌+ℤ◌ ◌*ℤ◌
halves (pos n) = ground arith
halves (negsuc n) = ground arith

high_fits : (z : ℤ) → magnitude z < 2 ^ 63 → IsI32 (shr_ℤ z 32)
high_fits (pos n) h = omega arith
high_fits (negsuc n) h = omega arith

magnitude-*ℤ : (x y : ℤ) → magnitude (x *ℤ y) ≡ magnitude x * magnitude y
unfolding ◌*ℤ◌
magnitude-*ℤ (pos a) (pos b) = ground arith
magnitude-*ℤ (pos a) (negsuc b) = ground arith
magnitude-*ℤ (negsuc a) (pos b) = ground arith
magnitude-*ℤ (negsuc a) (negsuc b) = ground arith

product_fits : (x y : ℤ) → magnitude x ≤ 2 ^ 31 → magnitude y < 2 ^ 32 → magnitude (x *ℤ y) < 2 ^ 63
product_fits x y h i =
    let at_most : magnitude y ≤ 2 ^ 32 - 1 = omega arith in
    omega (arith, magnitude-*ℤ x y, mul-le-mul h at_most)

negated_once : (a c b : ℕ) → a + c ≡ 2 ^ 32 → c * b + a * b ≡ 2 ^ 32 * b
negated_once a c b e = omega (arith, ap (λ (t : ℕ). t * b) e)

negated_twice :
    (a c b d : ℕ)
    → a + c ≡ 2 ^ 32
    → b + d ≡ 2 ^ 32
    → c * d + 2 ^ 32 * a + 2 ^ 32 * b ≡ 2 ^ 64 + a * b
negated_twice a c b d e f = omega (arith, ap (λ (t : ℕ). t * d) e, ap (λ (t : ℕ). a * t) f)

-- The lower half of a product does not depend on the signs.
low-pos : (a b : ℕ) → a < 2 ^ 32 → as_u32 (as_i32 a *ℤ pos b) ≡ a * b % 2 ^ 32
unfolding ◌*ℤ◌
low-pos a b h = elim (Bool-cases (ltb a (2 ^ 31))) [
  | inl e ↦ rw e (ground arith)
  | inr e ↦ rw e (ground (arith, negated_once a (2 ^ 32 - a) b (omega arith)))
]

low-signed : (a b : ℕ) → a < 2 ^ 32 → b < 2 ^ 32 → as_u32 (as_i32 a *ℤ as_i32 b) ≡ a * b % 2 ^ 32
unfolding ◌*ℤ◌
low-signed a b h i = elim (Bool-cases (ltb b (2 ^ 31))) [
  | inl f ↦ rw f (low-pos a b h)
  | inr f ↦ elim (Bool-cases (ltb a (2 ^ 31))) [
    | inl e ↦ rw (e, f) (ground (arith, negated_once b (2 ^ 32 - b) a (omega arith)))
    | inr e ↦
        rw (e, f)
          (ground (arith, negated_twice a (2 ^ 32 - a) b (2 ^ 32 - b) (omega arith) (omega arith)))
  ]
]

signed_magnitude : (a : ℕ) → a < 2 ^ 32 → magnitude (as_i32 a) ≤ 2 ^ 31
signed_magnitude a h = ground arith

-- A product, from its lower half and the signed value of its upper half.
joined :
    (z : ℤ) (low : ℕ)
    → as_u32 z ≡ low
    → magnitude z < 2 ^ 63
    → pos low +ℤ as_i32 (as_u32 (shr_ℤ z 32)) *ℤ pos (2 ^ 32) ≡ z
joined z low e h = rw (← e, as_i32-as_u32 (shr_ℤ z 32) (high_fits z h)) (halves z)

whole : (t l : ℕ) → l ≡ t % 2 ^ 32 → t < 2 ^ 64 → l + t / 2 ^ 32 % 2 ^ 32 * 2 ^ 32 ≡ t
whole t l e h = omega arith

unsigned_fits : (a b : ℕ) → a < 2 ^ 32 → b < 2 ^ 32 → a * b < 2 ^ 64
unsigned_fits a b h i =
    let x : a ≤ 2 ^ 32 - 1 = omega arith in
    let y : b ≤ 2 ^ 32 - 1 = omega arith in omega (arith, mul-le-mul x y)

-- For words, MUL is the lower half of the product of the two numbers, whatever their signs, and MULHU,
-- MULH and MULHSU are its upper half for unsigned, signed and mixed operands.
pub mul-halves :
    (a b : ℕ)
    → a < 2 ^ 32
    → b < 2 ^ 32
    → (mul a b + mulhu a b * 2 ^ 32 ≡ a * b)
      × (pos (mul a b) +ℤ as_i32 (mulh a b) *ℤ pos (2 ^ 32) ≡ as_i32 a *ℤ as_i32 b)
      × (pos (mul a b) +ℤ as_i32 (mulhsu a b) *ℤ pos (2 ^ 32) ≡ as_i32 a *ℤ pos b)
unfolding mul mulh mulhsu mulhu
mul-halves a b h i =
    let low = low-signed a b h i in
    let x = signed_magnitude a h in
    (
      whole (a * b) (mul a b) low (unsigned_fits a b h i),
      joined (as_i32 a *ℤ as_i32 b) (as_u32 (as_i32 a *ℤ as_i32 b)) refl
          (product_fits (as_i32 a) (as_i32 b) x (omega (arith, signed_magnitude b i))),
      joined (as_i32 a *ℤ pos b) (as_u32 (as_i32 a *ℤ as_i32 b)) (low-pos a b h ∙ sym low)
          (product_fits (as_i32 a) (pos b) x (omega arith)),
    )
