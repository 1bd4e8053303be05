-- ===== src/Stats/Signature.antt =====
-- `parse_stats` of scripts/run_milestone4.py, which also reads the register dump: the search for
-- `^x05\s*=\s*0x([0-9a-fA-F]+)` at the starts of lines. Whitespace is the ASCII one.
use rv32im_so_c_performance.Base.{
  ℕ, ◌+◌, ◌*◌, Bool, true, Option, none, some, [], ◌∷◌, ◌==◌, ltb, if◌then◌else◌,
}
use rv32im_so_c_performance.Base.Int.{pos}
use rv32im_so_c_performance.Base.Dict.{put}
use rv32im_so_c_performance.PyText.{Text, codes, lstrip, digit_value}
use rv32im_so_c_performance.Stats.{Stats, parse_with}
use rv32im_so_c_performance.Stats.Keys.{milestone4_keys}

-- A pattern's literal part at the front of a text, and what follows it.
unfoldable pub after_literal : Text → Text → Option Text
after_literal [] s = some s
after_literal (p ∷ ps) [] = none
after_literal (p ∷ ps) (c ∷ s) = if p == c then after_literal ps s else none

abbrev pub hex_value : ℕ → Option ℕ
hex_value c = elim (digit_value c) [ none ↦ none | some v ↦ if ltb v 16 then some v else none ]

-- The longest run of hexadecimal digits at the front, after `acc`.
unfoldable pub read_hex : ℕ → Text → ℕ
unfolding digit_value
read_hex acc [] = acc
read_hex acc (c ∷ s) = elim (hex_value c) [ none ↦ acc | some v ↦ read_hex (acc * 16 + v) s ]

-- `[0-9a-fA-F]+`
unfoldable pub hex_group : Text → Option ℕ
unfolding read_hex digit_value
hex_group [] = none
hex_group (c ∷ s) = elim (hex_value c) [ none ↦ none | some v ↦ some (read_hex v s) ]

abbrev pub and_then : Option Text → (Text → Option ℕ) → Option ℕ
and_then none next = none
and_then (some s) next = next s

-- The pattern at the front of a text. No part of it can match a character of the part behind it, so it
-- never backtracks.
unfoldable pub match_x05 : Text → Option ℕ
unfolding after_literal lstrip hex_group
match_x05 s = and_then (after_literal (codes "x05") s) (λ s1.
    and_then (after_literal (codes "=") (lstrip s1))
      (λ s2. and_then (after_literal (codes "0x") (lstrip s2)) hex_group))

-- The leftmost match at the start of a line.
unfoldable pub search_x05 : Bool → Text → Option ℕ
unfolding match_x05
search_x05 line_start [] = none
search_x05 line_start (c ∷ s) =
    let rest = search_x05 (c == 10) s in
    elim (if line_start then match_x05 (c ∷ s) else none) [ none ↦ rest | some n ↦ some n ]

abbrev put_x5 : Option ℕ → Stats → Stats
put_x5 none out = out
put_x5 (some n) out = put "x5" (pos n) out

unfoldable pub parse_stats : Text → Stats
unfolding search_x05
parse_stats text = put_x5 (search_x05 true text) (parse_with milestone4_keys text)
