-- ===== src/PyText/Plain.antt =====
-- Texts with neither whitespace nor underscores: stripping leaves them alone.
use rv32im_so_c_performance.Base.{ℕ, ◌≡◌, refl, false, [], ◌∷◌, ◌==◌, All, arith}
use rv32im_so_c_performance.PyText.{Text, is_space, rstrip, strip, skip_underscore}

abbrev pub IsPlain : ℕ → Type 0
IsPlain c = (is_space c ≡ false) × ((c == b'_') ≡ false)

rstrip_plain : (s : Text) → All IsPlain s → rstrip s ≡ s
unfolding rstrip
rstrip_plain [] h = refl
rstrip_plain (c ∷ []) h = ground arith
rstrip_plain (c ∷ d ∷ s) h = rw (rstrip_plain (d ∷ s) h.1)

pub strip_plain : (s : Text) → All IsPlain s → strip s ≡ s
unfolding strip
strip_plain [] h = refl
strip_plain (c ∷ s) h = rw h.0.0 (rstrip_plain (c ∷ s) h)

pub skip_underscore_plain : (s : Text) → All IsPlain s → skip_underscore s ≡ s
unfolding skip_underscore
skip_underscore_plain [] h = refl
skip_underscore_plain (c ∷ s) h = rw h.0.1
