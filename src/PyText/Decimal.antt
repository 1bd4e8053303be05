-- ===== src/PyText/Decimal.antt =====
-- `str(n)` of a number, and its reading back by `int(text, 0)`.
use rv32im_so_c_performance.Base.{
  ℕ, zero, suc, ◌+◌, ◌*◌, ◌/◌, ◌%◌, ◌≤◌, ◌<◌, ◌≡◌, refl, ap, sym, ◌∙◌, inl, inr, Bool, true, false,
  Option, none, some, [], ◌∷◌, ◌++◌, ◌==◌, if◌then◌else◌, Bool-cases, ok, All, All-append, arith,
}
use mathlib.Core.List.{append_assoc, append-nil}
use rv32im_so_c_performance.Base.Int.{pos}
use rv32im_so_c_performance.PyText.Plain.{IsPlain, strip_plain}
use rv32im_so_c_performance.PyText.{Text, digit_step, digits, literal_0, signed, plus, int_0}

unfoldable pub decimal_fuel : ℕ → ℕ → Text
decimal_fuel zero n = []
decimal_fuel (suc fuel) n =
    let front = decimal_fuel fuel (n / 10) in
    if n / 10 == 0 then (b'0' + n) ∷ [] else front ++ (b'0' + n % 10) ∷ []

-- One digit needs at most one unit of fuel, so `suc n` is enough.
unfoldable pub decimal : ℕ → Text
unfolding decimal_fuel
decimal n = decimal_fuel (suc n) n

abbrev pub IsDigit : ℕ → Type 0
IsDigit c = (48 ≤ c) × (c ≤ 57)

IsDigit-IsPlain : (c : ℕ) → IsDigit c → IsPlain c
IsDigit-IsPlain c h = ground arith

pub decimal_fuel-IsDigit : (f n : ℕ) → All IsDigit (decimal_fuel f n)
unfolding decimal_fuel
decimal_fuel-IsDigit zero n = tt
decimal_fuel-IsDigit (suc f) n = elim (Bool-cases (n / 10 == 0)) [
  | inl e ↦ rw e ((omega arith, ground arith), tt)
  | inr e ↦ rw e (
      All-append IsDigit (decimal_fuel f (n / 10)) _ (decimal_fuel-IsDigit f (n / 10))
        ((omega arith, omega arith), tt))
]

All-IsPlain : (s : Text) → All IsDigit s → All IsPlain s
All-IsPlain [] h = tt
All-IsPlain (c ∷ s) h = (IsDigit-IsPlain c h.0, All-IsPlain s h.1)

pub decimal-IsPlain : (n : ℕ) → All IsPlain (decimal n)
unfolding decimal
decimal-IsPlain n = All-IsPlain (decimal_fuel (suc n) n) (decimal_fuel-IsDigit (suc n) n)

digit_step-decimal :
    (b : Bool) (acc d : ℕ) → d < 10 → digit_step 10 b acc (48 + d) ≡ some (true, acc * 10 + d)
unfolding digit_step
digit_step-decimal b acc d h = ground arith

digits-decimal_char :
    (b : Bool) (acc d : ℕ) (s : Text)
    → d < 10
    → digits 10 b acc ((48 + d) ∷ s) ≡ digits 10 true (acc * 10 + d) s
unfolding digits
digits-decimal_char b acc d s h =
    ap {B = Option ℕ}
      (λ (o : Option (Bool × ℕ)). elim o as (λ _. Option ℕ) [
        | none ↦ none
        | some (after, acc') ↦ digits 10 after acc' s
      ])
      (digit_step-decimal b acc d h)

digits-decimal_fuel :
    (f n : ℕ) (s : Text) → n < f → digits 10 false 0 (decimal_fuel f n ++ s) ≡ digits 10 true n s
unfolding decimal_fuel
digits-decimal_fuel zero n s h = elim h [ ]
digits-decimal_fuel (suc f) n s h = elim (Bool-cases (n / 10 == 0)) [
  | inl e ↦
      rw e (
        digits-decimal_char false 0 n s (ground arith) ∙ ap (λ v. digits 10 true v s) (omega arith))
  | inr e ↦ rw e (
      rw (append_assoc (decimal_fuel f (n / 10)) ((48 + n % 10) ∷ []) s) (
        digits-decimal_fuel f (n / 10) ((48 + n % 10) ∷ s) (ground arith)
        ∙ digits-decimal_char true (n / 10) (n % 10) s (omega arith)
        ∙ ap (λ v. digits 10 true v s) (omega arith)))
]

-- The first digit is not 0.
abbrev Leads : Text → Type 0
Leads [] = ⊥
Leads (a ∷ s) = 48 < a

Leads-append : (s t : Text) → Leads s → Leads (s ++ t)
Leads-append [] t h = elim h [ ]
Leads-append (a ∷ s) t h = h

decimal_fuel-Leads : (f n : ℕ) → n < f → 0 < n → Leads (decimal_fuel f n)
unfolding decimal_fuel
decimal_fuel-Leads zero n h p = elim h [ ]
decimal_fuel-Leads (suc f) n h p = elim (Bool-cases (n / 10 == 0)) [
  | inl e ↦ rw e (omega arith)
  | inr e ↦ rw e (
      Leads-append (decimal_fuel f (n / 10)) _
        (decimal_fuel-Leads f (n / 10) (ground arith) (ground arith)))
]

plain_tests :
    (a : ℕ) → 48 < a → a ≤ 57 → ((a == 45) ≡ false) × ((a == 43) ≡ false) × ((a == 48) ≡ false)
plain_tests a h k = (ground arith, ground arith, ground arith)

literal_0-Leads :
    (s : Text) → Leads s → All IsDigit s → signed literal_0 s ≡ plus (digits 10 false 0 s)
unfolding literal_0
literal_0-Leads [] l h = elim l [ ]
literal_0-Leads (a ∷ []) l h = let t = plain_tests a l h.0.1 in rw (t.0, t.1)
literal_0-Leads (a ∷ b ∷ s) l h = let t = plain_tests a l h.0.1 in rw (t.0, t.1, t.2)

decimal-literal : (n : ℕ) → signed literal_0 (decimal n) ≡ ok (pos n)
unfolding decimal
decimal-literal zero = unfold literal_0 in refl
decimal-literal (suc n) =
    literal_0-Leads (decimal_fuel (suc (suc n)) (suc n))
      (decimal_fuel-Leads (suc (suc n)) (suc n) (omega arith) (omega arith))
      (decimal_fuel-IsDigit (suc (suc n)) (suc n))
    ∙ ap plus (
        ap (digits 10 false 0) (sym (append-nil _))
        ∙ digits-decimal_fuel (suc (suc n)) (suc n) [] (omega arith)
        ∙ read (suc n))
  where
    read : (m : ℕ) → digits 10 true m [] ≡ some m
    read m = unfold digits in refl

-- Reading a printed number gives the number.
pub int_0-decimal : (n : ℕ) → int_0 (decimal n) ≡ ok (pos n)
unfolding int_0
int_0-decimal n =
    ap (signed literal_0) (strip_plain (decimal n) (decimal-IsPlain n)) ∙ decimal-literal n
