-- ===== src/Stats.antt =====
-- The statistics that the scripts read from the model's standard output: `parse_stats` of
-- scripts/run_milestone3.py, run_milestone3c.py, run_milestone3d.py and run_milestone4.py, and `parse`
-- of scripts/run_sensitivity_sweep.py and run_milestone6a.py.
pub mod Keys
pub mod Printed
pub mod Signature
use rv32im_so_c_performance.Base.{
  ℕ, zero, suc, ◌+◌, ◌-◌, ◌*◌, String, Bool, true, false, ◌&&◌, ◌||◌, Option, none, some, List, [],
  ◌∷◌, leb, ◌==◌, if◌then◌else◌,
}
use mathlib.Core.List.{reverse}
use rv32im_so_c_performance.Base.Int.{ℤ, pos, neg_ℤ}
use rv32im_so_c_performance.Base.Dict.{Dict, put}
use rv32im_so_c_performance.PyText.{Text, text_eq, strip}

-- The ASCII characters at which `str.splitlines` ends a line.
abbrev pub is_break : ℕ → Bool
is_break c = leb 10 c && leb c 13 || leb 28 c && leb c 30

pub data Cut : Type 0 where
  skip cut keep : Cut

-- A line feed right after a carriage return belongs to the same line end.
abbrev pub cut_at : Bool → ℕ → Cut
cut_at after_cr c =
    if after_cr && c == 10 then Cut.skip else if is_break c then Cut.cut else Cut.keep

abbrev pub last_line : Text → List Text
last_line [] = []
last_line (c ∷ s) = reverse (c ∷ s) ∷ []

-- `current` holds the line so far, backwards.
unfoldable pub lines_from : Bool → Text → Text → List Text
lines_from after_cr current [] = last_line current
lines_from after_cr current (c ∷ s) = elim (cut_at after_cr c) [
  | skip ↦ lines_from false current s
  | cut ↦ reverse current ∷ lines_from (c == 13) [] s
  | keep ↦ lines_from false (c ∷ current) s
]

unfoldable pub split_lines : Text → List Text
split_lines s = lines_from false [] s

abbrev cons_left : ℕ → Option (Text × Text) → Option (Text × Text)
cons_left c none = none
cons_left c (some (k, v)) = some (c ∷ k, v)

-- `line.split(':', 1)`, where there is a colon
unfoldable pub split_colon : Text → Option (Text × Text)
split_colon [] = none
split_colon (c ∷ s) = if c == b':' then some ([], s) else cons_left c (split_colon s)

abbrev pub is_digit : ℕ → Bool
is_digit c = leb b'0' c && leb c b'9'

-- The longest run of digits at the front, after `acc`.
unfoldable pub read_digits : ℕ → Text → ℕ
read_digits acc [] = acc
read_digits acc (c ∷ s) = elim (is_digit c) [
  | true ↦ read_digits (acc * 10 + (c - b'0')) s
  | false ↦ acc
]

abbrev pub starts_digit : Text → Bool
starts_digit [] = false
starts_digit (c ∷ s) = is_digit c

-- `int(re.search(r'-?\d+', v).group(0))`: the leftmost match, as long as it gets
unfoldable pub find_int : Text → Option ℤ
unfolding read_digits
find_int [] = none
find_int (c ∷ s) =
    if is_digit c
    then some (pos (read_digits 0 (c ∷ s)))
    else if c == b'-' && starts_digit s
    then some (neg_ℤ (pos (read_digits 0 s)))
    else find_int s

-- The printed labels, with the names under which the scripts keep their numbers.
abbrev pub Keys : Type 0
Keys = List (Text × String)

unfoldable pub column_of : Keys → Text → Option String
column_of [] k = none
column_of ((label, column) ∷ keys) k = if text_eq label k then some column else column_of keys k

abbrev pub Stats : Type 0
Stats = Dict ℤ

abbrev pub put_found : String → Option ℤ → Stats → Stats
put_found column none out = out
put_found column (some n) out = put column n out

abbrev pub put_column : Option String → Text → Stats → Stats
put_column none v out = out
put_column (some column) v out = put_found column (find_int v) out

abbrev pub put_pair : Keys → Option (Text × Text) → Stats → Stats
put_pair keys none out = out
put_pair keys (some (k, v)) out = put_column (column_of keys (strip k)) v out

-- The body of the loop over the lines.
unfoldable pub parse_line : Keys → Text → Stats → Stats
parse_line keys line out = put_pair keys (split_colon line) out

unfoldable pub parse_lines : Keys → List Text → Stats → Stats
parse_lines keys [] out = out
parse_lines keys (line ∷ lines) out = parse_lines keys lines (parse_line keys line out)

unfoldable pub parse_with : Keys → Text → Stats
parse_with keys text = parse_lines keys (split_lines text) []
