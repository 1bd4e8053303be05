-- ===== src/PyText/Hex.antt =====
-- `"0x{:08x}".format(x & 0xFFFFFFFF)`, as compare_traces.py prints a word, and its reading back.
use native.Mathlib.Nat.{pow-suc}
use mathlib.Core.List.{append_assoc, append-nil}
use rv32im_so_c_performance.Base.{
  Bool, Option, sym, none, ◌∙◌, ℕ, zero, suc, ◌+◌, ◌-◌, ◌*◌, ◌/◌, ◌%◌, ◌^◌, ◌<◌, ◌≡◌, refl, ap,
  true, false, some, [], ◌∷◌, ◌++◌, ltb, if◌then◌else◌, ok, All, All-append, arith,
}
use rv32im_so_c_performance.Base.Int.{ℤ, pos, negsuc}
use rv32im_so_c_performance.PyText.Plain.{IsPlain, strip_plain, skip_underscore_plain}
use rv32im_so_c_performance.PyText.{Text, digit_step, digits, literal_0, int_0, signed, plus}

abbrev pub hex_char : ℕ → ℕ
hex_char d = if ltb d 10 then b'0' + d else b'a' + d - 10

-- the last `k` hexadecimal digits
unfoldable pub hex_pad : ℕ → ℕ → Text
hex_pad zero n = []
hex_pad (suc k) n = hex_pad k (n / 16) ++ hex_char (n % 16) ∷ []

-- `x & 0xFFFFFFFF`, on Python's signed integers
unfoldable pub low32 : ℤ → ℕ
low32 (pos n) = n % 2 ^ 32
low32 (negsuc n) = 2 ^ 32 - 1 - n % 2 ^ 32

-- `fmt` of compare_traces.py
unfoldable pub fmt : ℤ → Text
unfolding hex_pad low32
fmt x = b'0' ∷ b'x' ∷ hex_pad 8 (low32 x)

hex_char-IsPlain : (d : ℕ) → d < 16 → IsPlain (hex_char d)
hex_char-IsPlain d h = ground arith

hex_pad-IsPlain : (k n : ℕ) → All IsPlain (hex_pad k n)
unfolding hex_pad
hex_pad-IsPlain zero n = tt
hex_pad-IsPlain (suc k) n =
    All-append IsPlain (hex_pad k (n / 16)) _ (hex_pad-IsPlain k (n / 16))
      (hex_char-IsPlain (n % 16) (omega arith), tt)

digit_step-hex_char :
    (b : Bool) (acc d : ℕ) → d < 16 → digit_step 16 b acc (hex_char d) ≡ some (true, acc * 16 + d)
unfolding digit_step
digit_step-hex_char b acc d h = ground arith

digits-hex_char :
    (b : Bool) (acc d : ℕ) (s : Text)
    → d < 16
    → digits 16 b acc (hex_char d ∷ s) ≡ digits 16 true (acc * 16 + d) s
unfolding digits
digits-hex_char b acc d s h =
    ap {B = Option ℕ}
      (λ (o : Option (Bool × ℕ)). elim o as (λ _. Option ℕ) [
        | none ↦ none
        | some (after, acc') ↦ digits 16 after acc' s
      ])
      (digit_step-hex_char b acc d h)

-- Reading `k` padded digits multiplies by `16 ^ k` and adds the number.
digits-hex_pad :
    (k n acc : ℕ) (b : Bool) (s : Text)
    → n < 16 ^ suc k
    → digits 16 b acc (hex_pad (suc k) n ++ s) ≡ digits 16 true (acc * 16 ^ suc k + n) s
unfolding hex_pad
digits-hex_pad zero n acc b s h =
    digits-hex_char b acc (n % 16) s (omega arith) ∙ ap (λ v. digits 16 true v s) (omega arith)
digits-hex_pad (suc k) n acc b s h =
    rw (append_assoc (hex_pad (suc k) (n / 16)) (hex_char (n % 16) ∷ []) s) (
      digits-hex_pad k (n / 16) acc b (hex_char (n % 16) ∷ s) (omega (arith, pow-suc 16 (suc k)))
      ∙ digits-hex_char true (acc * 16 ^ suc k + n / 16) (n % 16) s (omega arith)
      ∙ ap (λ v. digits 16 true v s) (shift acc n _ _ (pow-suc 16 (suc k))))
  where
    shift : (acc n p q : ℕ) → q ≡ p * 16 → (acc * p + n / 16) * 16 + n % 16 ≡ acc * q + n
    shift acc n p q e = rw e (omega arith)

low32-lt : (x : ℤ) → low32 x < 2 ^ 32
unfolding low32
low32-lt (pos n) = omega arith
low32-lt (negsuc n) = omega arith

pub word-IsPlain : (n : ℕ) → All IsPlain (b'0' ∷ b'x' ∷ hex_pad 8 n)
word-IsPlain n = (hex_char-IsPlain 0 (omega arith), ((refl, refl), hex_pad-IsPlain 8 n))

int_0_plain : (s : Text) → All IsPlain s → int_0 (b'0' ∷ b'x' ∷ s) ≡ plus (digits 16 false 0 s)
unfolding int_0
int_0_plain s h =
    ap (signed literal_0) (strip_plain (b'0' ∷ b'x' ∷ s) ((refl, refl), ((refl, refl), h)))
    ∙ ap (λ t. plus (digits 16 false 0 t)) (skip_underscore_plain s h)

-- Reading eight padded digits behind `0x` gives the number.
pub int_0-word : (n : ℕ) → n < 2 ^ 32 → int_0 (b'0' ∷ b'x' ∷ hex_pad 8 n) ≡ ok (pos n)
int_0-word n h =
    int_0_plain (hex_pad 8 n) (hex_pad-IsPlain 8 n)
    ∙ ap plus (ap (digits 16 false 0) (sym (append-nil _)) ∙ read ∙ ap some zero_add)
  where
    zero_add : 0 * 16 ^ 8 + n ≡ n
    zero_add = omega arith

    read : digits 16 false 0 (hex_pad 8 n ++ []) ≡ some (0 * 16 ^ 8 + n)
    read = unfold digits in digits-hex_pad 7 n 0 false [] h

-- `fmt` prints a number as a word of eight hexadecimal digits, and `int(text, 0)` reads the low 32 bits
-- of the number back.
int_0-fmt : (x : ℤ) → int_0 (fmt x) ≡ ok (pos (low32 x))
unfolding fmt
int_0-fmt x = int_0-word (low32 x) (low32-lt x)
