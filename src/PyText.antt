-- ===== src/PyText.antt =====
-- Python text as code points: `str.strip`, `int(text, base)` with its literal syntax, and the three
-- `num` functions of the scripts. Whitespace and digits are the ASCII ones.
pub mod Plain
pub mod Hex
pub mod Decimal
pub mod Lower
use Prim.Native.Char.{code}
use rv32im_so_c_performance.Base.{
  ℕ, zero, suc, ◌+◌, ◌-◌, ◌*◌, String, ◌≡◌, refl, Bool, true, false, ◌&&◌, ◌||◌, Option, none, some,
  List, [], ◌∷◌, leb, ltb, ◌==◌, if◌then◌else◌, Error, value_error, Result, ok, err,
}
use rv32im_so_c_performance.Base.Int.{ℤ, pos, neg_ℤ}

abbrev pub Text : Type 0
Text = List ℕ

abbrev pub codes : String → Text
codes String.[] = []
codes (String.◌∷◌ c s) = code c ∷ codes s

abbrev pub text_eq : Text → Text → Bool
text_eq [] [] = true
text_eq (a ∷ s) (b ∷ t) = a == b && text_eq s t
text_eq _ _ = false

abbrev pub is_space : ℕ → Bool
is_space c = leb 9 c && leb c 13 || leb 28 c && leb c 32

unfoldable pub lstrip : Text → Text
lstrip [] = []
lstrip (c ∷ s) = if is_space c then lstrip s else c ∷ s

abbrev pub cons_rstrip : ℕ → Text → Text
cons_rstrip c [] = if is_space c then [] else c ∷ []
cons_rstrip c (d ∷ s) = c ∷ d ∷ s

unfoldable pub rstrip : Text → Text
rstrip [] = []
rstrip (c ∷ s) = cons_rstrip c (rstrip s)

unfoldable pub strip : Text → Text
unfolding lstrip rstrip
strip s = rstrip (lstrip s)

-- The value of a digit in the bases up to 36.
unfoldable pub digit_value : ℕ → Option ℕ
digit_value c =
    if leb b'0' c && leb c b'9'
    then some (c - b'0')
    else if leb b'a' c && leb c b'z'
    then some (c - b'a' + 10)
    else if leb b'A' c && leb c b'Z'
    then some (c - b'A' + 10)
    else none

-- One character of a literal: `after_digit` says whether an underscore may stand here.
unfoldable pub digit_step : ℕ → Bool → ℕ → ℕ → Option (Bool × ℕ)
unfolding digit_value
digit_step base after_digit acc c =
    if c == b'_' then (if after_digit then some (false, acc) else none) else elim (digit_value c) [
      | none ↦ none
      | some v ↦ if ltb v base then some (true, acc * base + v) else none
    ]

unfoldable pub digits : ℕ → Bool → ℕ → Text → Option ℕ
unfolding digit_step
digits base after_digit acc [] = if after_digit then some acc else none
digits base after_digit acc (c ∷ s) = elim (digit_step base after_digit acc c) [
  | none ↦ none
  | some (after_digit', acc') ↦ digits base after_digit' acc' s
]

-- One underscore is allowed between a base prefix and the digits.
unfoldable pub skip_underscore : Text → Text
skip_underscore [] = []
skip_underscore (c ∷ s) = if c == b'_' then s else c ∷ s

abbrev pub only_zero : Option ℕ → Option ℕ
only_zero (some zero) = some 0
only_zero _ = none

-- The unsigned part of `int(text, 0)`. After a leading 0 with no prefix only 0 is allowed.
unfoldable pub literal_0 : Text → Option ℕ
unfolding digits skip_underscore
literal_0 (a ∷ b ∷ s) =
    if a == b'0'
    then if b == b'x' || b == b'X'
      then digits 16 false 0 (skip_underscore s)
      else if b == b'o' || b == b'O'
      then digits 8 false 0 (skip_underscore s)
      else if b == b'b' || b == b'B'
      then digits 2 false 0 (skip_underscore s)
      else only_zero (digits 10 false 0 (a ∷ b ∷ s))
    else digits 10 false 0 (a ∷ b ∷ s)
literal_0 s = digits 10 false 0 s

-- The unsigned part of `int(text, 16)`, with an optional prefix.
unfoldable pub literal_16 : Text → Option ℕ
unfolding digits skip_underscore
literal_16 (a ∷ b ∷ s) =
    if a == b'0' && (b == b'x' || b == b'X')
    then digits 16 false 0 (skip_underscore s)
    else digits 16 false 0 (a ∷ b ∷ s)
literal_16 s = digits 16 false 0 s

abbrev pub plus : Option ℕ → Result ℤ
plus none = err value_error
plus (some n) = ok (pos n)

abbrev pub minus : Option ℕ → Result ℤ
minus none = err value_error
minus (some n) = ok (neg_ℤ (pos n))

abbrev pub signed : (Text → Option ℕ) → Text → Result ℤ
signed literal [] = err value_error
signed literal (c ∷ s) =
    if c == b'-'
    then minus (literal s)
    else if c == b'+'
    then plus (literal s)
    else plus (literal (c ∷ s))

unfoldable pub int_0 : Text → Result ℤ
unfolding strip literal_0
int_0 s = signed literal_0 (strip s)

unfoldable pub int_16 : Text → Result ℤ
unfolding strip literal_16
int_16 s = signed literal_16 (strip s)

-- `int(text)`, in base 10: leading zeros are fine here
unfoldable pub int_10 : Text → Result ℤ
unfolding strip digits
int_10 s = signed (digits 10 false 0) (strip s)

-- `text or "0"`: a missing and an empty text are both false.
abbrev pub or_zero : Option Text → Text
or_zero none = codes "0"
or_zero (some []) = codes "0"
or_zero (some (c ∷ s)) = c ∷ s

abbrev pub otherwise : Result ℤ → Result ℤ → Result ℤ
otherwise (ok n) m = ok n
otherwise (err e) m = m

-- `int(text, 0)`, and `int(text, 16)` where that raises ValueError
unfoldable pub int_0_or_16 : Text → Result ℤ
unfolding int_0 int_16
int_0_or_16 s = otherwise (int_0 s) (int_16 s)
