-- ===== src/Alu/Division.antt =====
-- DIV and REM of src/CpuModel.cpp against the division of integers that rounds towards zero.
use native.Mathlib.Nat.{div-le_self, div-lt_self, mod-lt, mod-le, div-add-mod}
use rv32im_so_c_performance.Base.{
  ℕ, zero, suc, ◌-◌, ◌/◌, ◌%◌, ◌^◌, ◌<◌, ◌≡◌, ◌≢◌, false, ◌⊎◌, Bool-cases, inl, inr, ltb, ◌==◌,
  arith,
}
use rv32im_so_c_performance.Base.Int.{ℤ, pos, negsuc, ◌+ℤ◌, ◌≤ℤ◌}
use rv32im_so_c_performance.Words.{as_i32, as_u32, magnitude, ◌*ℤ◌, quot_ℤ, rem_ℤ}
use rv32im_so_c_performance.Alu.{overflows, div, rem}

quot_rem_sum : (x y : ℤ) → x ≡ y *ℤ quot_ℤ x y +ℤ rem_ℤ x y
unfolding ◌*ℤ◌ ◌+ℤ◌ quot_ℤ rem_ℤ
quot_rem_sum (pos a) (pos b) = ground (arith, div-add-mod a b)
quot_rem_sum (pos a) (negsuc b) = ground (arith, div-add-mod a (suc b))
quot_rem_sum (negsuc a) (pos b) = ground (arith, div-add-mod (suc a) b)
quot_rem_sum (negsuc a) (negsuc b) = ground (arith, div-add-mod (suc a) (suc b))

-- Division with remainder that rounds towards zero: the remainder has the sign of the dividend.
pub record IsQuotRem (x y q r : ℤ) : Type 0 where
  pub sum : x ≡ y *ℤ q +ℤ r
  pub smaller : magnitude r < magnitude y
  pub not_negative : pos 0 ≤ℤ x → pos 0 ≤ℤ r
  pub not_positive : x ≤ℤ pos 0 → r ≤ℤ pos 0

abbrev pub IsI32 : ℤ → Type 0
IsI32 z = (negsuc (2 ^ 31 - 1) ≤ℤ z) × (z ≤ℤ pos (2 ^ 31 - 1))

pub as_i32-IsI32 : (a : ℕ) → a < 2 ^ 32 → IsI32 (as_i32 a)
as_i32-IsI32 a h = ground arith

pub as_i32-as_u32 : (z : ℤ) → IsI32 z → as_i32 (as_u32 z) ≡ z
as_i32-as_u32 (pos n) h = ground arith
as_i32-as_u32 (negsuc n) h = ground arith

-- Every quotient fits, but that of the least integer by -1.
abbrev QuotientFits : ℤ → ℤ → Type 0
QuotientFits (negsuc a) (negsuc b) = (suc a < 2 ^ 31) ⊎ (0 < b)
QuotientFits _ _ = Unit

quotient_fits :
    (a b : ℕ) → a < 2 ^ 32 → b < 2 ^ 32 → overflows a b ≡ false → QuotientFits (as_i32 a) (as_i32 b)
quotient_fits a b wa wb h = elim (Bool-cases (ltb a (2 ^ 31))) [
  | inl e ↦ rw e tt
  | inr e ↦ elim (Bool-cases (ltb b (2 ^ 31))) [
    | inl f ↦ rw (e, f) tt
    | inr f ↦
        rw (e, f)
          (elim (Bool-cases (b == 0xffffffff)) [
            | inl g ↦ inl (ground arith)
            | inr g ↦ inr (ground arith)
          ])
  ]
]

quot_ℤ-IsI32 : (x y : ℤ) → magnitude y ≢ 0 → QuotientFits x y → IsI32 x → IsI32 (quot_ℤ x y)
unfolding quot_ℤ
quot_ℤ-IsI32 (pos a) (pos b) n f h = ground (arith, div-le_self a b)
quot_ℤ-IsI32 (pos a) (negsuc b) n f h = ground (arith, div-le_self a (suc b))
quot_ℤ-IsI32 (negsuc a) (pos b) n f h = ground (arith, div-le_self (suc a) b)
quot_ℤ-IsI32 (negsuc a) (negsuc b) n (inl f) h = ground (arith, div-le_self (suc a) (suc b))
quot_ℤ-IsI32 (negsuc a) (negsuc b) n (inr f) h =
    let below : suc a / suc b < suc a = div-lt_self (omega arith) (omega arith) in ground arith

rem_ℤ-IsI32 : (x y : ℤ) → IsI32 x → IsI32 (rem_ℤ x y)
unfolding rem_ℤ
rem_ℤ-IsI32 (pos a) y h = ground (arith, mod-le a (magnitude y))
rem_ℤ-IsI32 (negsuc a) y h = ground (arith, mod-le (suc a) (magnitude y))

quot_rem : (x y : ℤ) → magnitude y ≢ 0 → IsQuotRem x y (quot_ℤ x y) (rem_ℤ x y)
unfolding rem_ℤ
quot_rem x y n = record {
  sum = quot_rem_sum x y;
  smaller = rem-smaller x y n;
  not_negative = rem-not_negative x y;
  not_positive = rem-not_positive x y;
}
  where
    rem-smaller : (x y : ℤ) → magnitude y ≢ 0 → magnitude (rem_ℤ x y) < magnitude y
    rem-smaller (pos a) y n =
        let below : a % magnitude y < magnitude y = mod-lt a (omega arith) in ground arith
    rem-smaller (negsuc a) y n =
        let below : suc a % magnitude y < magnitude y = mod-lt (suc a) (omega arith) in ground arith

    rem-not_negative : (x y : ℤ) → pos 0 ≤ℤ x → pos 0 ≤ℤ rem_ℤ x y
    rem-not_negative (pos a) y n = omega arith
    rem-not_negative (negsuc a) y n = absurd (omega arith)

    rem-not_positive : (x y : ℤ) → x ≤ℤ pos 0 → rem_ℤ x y ≤ℤ pos 0
    rem-not_positive (pos zero) y n = ground (arith, mod-le 0 (magnitude y))
    rem-not_positive (pos (suc a)) y n = absurd (omega arith)
    rem-not_positive (negsuc a) y n = ground arith

-- For words with a divisor that is not 0, and other than the least integer by -1, DIV and REM are the
-- quotient and the remainder of the signed integers.
pub div-IsQuotRem :
    (a b : ℕ)
    → a < 2 ^ 32
    → b < 2 ^ 32
    → b ≢ 0
    → overflows a b ≡ false
    → IsQuotRem (as_i32 a) (as_i32 b) (as_i32 (div a b)) (as_i32 (rem a b))
unfolding div rem
div-IsQuotRem a b wa wb n h =
    let x = as_i32 a in
    let y = as_i32 b in
    let divides : magnitude y ≢ 0 = λ e. n (ground arith) in
    let q =
      as_i32-as_u32 (quot_ℤ x y)
        (quot_ℤ-IsI32 x y divides (quotient_fits a b wa wb h) (as_i32-IsI32 a wa)) in
    let r = as_i32-as_u32 (rem_ℤ x y) (rem_ℤ-IsI32 x y (as_i32-IsI32 a wa)) in
    let nonzero : (b == 0) ≡ false = ground arith in rw (nonzero, h, q, r) (quot_rem x y divides)
