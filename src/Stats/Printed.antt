-- ===== src/Stats/Printed.antt =====
-- The statistics lines that the simulator prints, `label : number`, read by `parse_stats`.
use rv32im_so_c_performance.Base.{
  ℕ, zero, suc, ◌+◌, ◌-◌, ◌*◌, ◌/◌, ◌%◌, ◌<◌, ◌≡◌, refl, ap, ◌∙◌, inl, inr, true, false, some, [],
  ◌∷◌, ◌++◌, ◌==◌, if◌then◌else◌, Bool-cases, All, String, arith,
}
use rv32im_so_c_performance.Base.Int.{pos}
use rv32im_so_c_performance.Base.Dict.{get, get-put, str_eq}
use rv32im_so_c_performance.PyText.{Text, strip}
use rv32im_so_c_performance.PyText.Decimal.{IsDigit, decimal_fuel, decimal_fuel-IsDigit, decimal}
use rv32im_so_c_performance.Stats.{
  Keys, Stats, split_colon, is_digit, read_digits, find_int, column_of, parse_line,
}

is_digit-IsDigit : (c : ℕ) → IsDigit c → is_digit c ≡ true
is_digit-IsDigit c h = ground arith

read_digits-append :
    (acc : ℕ) (xs ys : Text)
    → All IsDigit xs
    → read_digits acc (xs ++ ys) ≡ read_digits (read_digits acc xs) ys
unfolding read_digits
read_digits-append acc [] ys h = refl
read_digits-append acc (c ∷ xs) ys h =
    rw (is_digit-IsDigit c h.0, read_digits) (read_digits-append (acc * 10 + (c - b'0')) xs ys h.1)

read_digits-one : (acc d : ℕ) → d < 10 → read_digits acc ((b'0' + d) ∷ []) ≡ acc * 10 + d
unfolding read_digits
read_digits-one acc d h =
    rw (is_digit-IsDigit (b'0' + d) (omega arith, omega arith), read_digits) (omega arith)

read_digits-decimal_fuel : (f n : ℕ) → n < f → read_digits 0 (decimal_fuel f n) ≡ n
unfolding decimal_fuel
read_digits-decimal_fuel zero n h = absurd (omega arith)
read_digits-decimal_fuel (suc f) n h = elim (Bool-cases (n / 10 == 0)) [
  | inl e ↦ rw e (read_digits-one 0 n (ground arith) ∙ zero_first n)
  | inr e ↦ rw e (
      read_digits-append 0 (decimal_fuel f (n / 10)) ((b'0' + n % 10) ∷ [])
        (decimal_fuel-IsDigit f (n / 10))
      ∙ ap (λ acc. read_digits acc ((b'0' + n % 10) ∷ []))
          (read_digits-decimal_fuel f (n / 10) (ground arith))
      ∙ read_digits-one (n / 10) (n % 10) (omega arith)
      ∙ omega arith)
]
  where
    zero_first : (n : ℕ) → 0 * 10 + n ≡ n
    zero_first n = omega arith

nonempty : (xs : Text) (y : ℕ) → (c : ℕ) × (s : Text) × (xs ++ y ∷ [] ≡ c ∷ s)
nonempty [] y = (y, [], refl)
nonempty (x ∷ xs) y = (x, xs ++ y ∷ [], refl)

decimal_fuel-nonempty : (f n : ℕ) → (c : ℕ) × (s : Text) × (decimal_fuel (suc f) n ≡ c ∷ s)
unfolding decimal_fuel
decimal_fuel-nonempty f n = elim (Bool-cases (n / 10 == 0)) [
  | inl e ↦ rw e (b'0' + n, [], refl)
  | inr e ↦ rw e (nonempty (decimal_fuel f (n / 10)) (b'0' + n % 10))
]

find_int-digits :
    (s : Text) (c : ℕ) (t : Text)
    → s ≡ c ∷ t
    → All IsDigit s
    → find_int s ≡ some (pos (read_digits 0 s))
unfolding find_int
find_int-digits [] c t e h = cc
find_int-digits (d ∷ s) c t e h = rw (is_digit-IsDigit d h.0)

find_int-decimal : (n : ℕ) → find_int (b' ' ∷ decimal n) ≡ some (pos n)
unfolding find_int decimal
find_int-decimal n =
    let (c, s, e) = decimal_fuel-nonempty n n in
    find_int-digits (decimal_fuel (suc n) n) c s e (decimal_fuel-IsDigit (suc n) n)
    ∙ ap (λ m. some (pos m)) (read_digits-decimal_fuel (suc n) n (omega arith))

split_colon-append :
    (label v : Text)
    → All (λ c. (c == b':') ≡ false) label
    → split_colon (label ++ b':' ∷ v) ≡ some (label, v)
unfolding split_colon
split_colon-append [] v h = refl
split_colon-append (c ∷ label) v h = rw (h.0, split_colon-append label v h.1)

-- A printed line, whose label has no colon and, without the spaces around it, is one of the keys, is
-- read as its number, under the column of the key; the other columns keep what they had.
pub parse_line-get :
    (keys : Keys) (label : Text) (column : String) (n : ℕ) (out : Stats) (j : String)
    → All (λ c. (c == b':') ≡ false) label
    → column_of keys (strip label) ≡ some column
    → get j (parse_line keys (label ++ b':' ∷ b' ' ∷ decimal n) out)
      ≡ (if str_eq column j then some (pos n) else get j out)
unfolding parse_line
parse_line-get keys label column n out j h k =
    rw (split_colon-append label (b' ' ∷ decimal n) h, k, find_int-decimal n)
      (get-put column j (pos n) out)
