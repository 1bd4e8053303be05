-- ===== src/PyText/Lower.antt =====
-- `str.lower` on ASCII, and the texts that it leaves alone.
use rv32im_so_c_performance.Base.{
  ℕ, ◌+◌, ◌%◌, ◌/◌, zero, suc, ◌<◌, ◌≡◌, ◌↔◌, refl, true, ◌&&◌, [], ◌∷◌, leb, if◌then◌else◌, All,
  All-append, arith,
}
use rv32im_so_c_performance.PyText.{Text, text_eq}
use rv32im_so_c_performance.PyText.Decimal.{IsDigit, decimal, decimal_fuel-IsDigit}
use rv32im_so_c_performance.PyText.Hex.{hex_char, hex_pad}

abbrev pub lower_char : ℕ → ℕ
lower_char c = if leb b'A' c && leb c b'Z' then c + 32 else c

unfoldable pub lower : Text → Text
lower [] = []
lower (c ∷ s) = lower_char c ∷ lower s

abbrev IsLower : ℕ → Type 0
IsLower c = lower_char c ≡ c

lower-All : (s : Text) → All IsLower s → lower s ≡ s
unfolding lower
lower-All [] h = refl
lower-All (c ∷ s) h = rw (h.0, lower-All s h.1)

digits-IsLower : (s : Text) → All IsDigit s → All IsLower s
digits-IsLower [] h = tt
digits-IsLower (c ∷ s) h = (ground arith, digits-IsLower s h.1)

hex_char-IsLower : (d : ℕ) → d < 16 → IsLower (hex_char d)
hex_char-IsLower d h = ground arith

hex_pad-IsLower : (k n : ℕ) → All IsLower (hex_pad k n)
unfolding hex_pad
hex_pad-IsLower zero n = tt
hex_pad-IsLower (suc k) n =
    All-append IsLower (hex_pad k (n / 16)) _ (hex_pad-IsLower k (n / 16))
      (hex_char-IsLower (n % 16) (omega arith), tt)

pub lower-decimal : (n : ℕ) → lower (decimal n) ≡ decimal n
unfolding decimal
lower-decimal n = lower-All (decimal n) (digits-IsLower _ (decimal_fuel-IsDigit (suc n) n))

pub lower-word : (n : ℕ) → lower (b'0' ∷ b'x' ∷ hex_pad 8 n) ≡ b'0' ∷ b'x' ∷ hex_pad 8 n
lower-word n =
    lower-All (b'0' ∷ b'x' ∷ hex_pad 8 n)
      (hex_char-IsLower 0 (omega arith), (refl, hex_pad-IsLower 8 n))

pub text_eq_iff : (s t : Text) → (text_eq s t ≡ true) ↔ (s ≡ t)
text_eq_iff [] [] = ground arith
text_eq_iff [] (d ∷ t) = ground arith
text_eq_iff (c ∷ s) [] = ground arith
text_eq_iff (c ∷ s) (d ∷ t) = ground (arith, text_eq_iff s t)
