-- ===== src/TraceReport.antt =====
-- scripts/analyze_trace.py: the counts that it prints of a retirement trace. The CPI and the percentages
-- are quotients of these numbers, which are guarded against an empty trace, and are left out.
pub mod Mix
use rv32im_so_c_performance.Base.{
  ℕ, suc, ◌+◌, ◌-◌, ◌%◌, String, Bool, Option, some, List, [], ◌∷◌, leb, ◌==◌, if◌then◌else◌,
  Result, ok, ◌>>=◌,
}
use rv32im_so_c_performance.Base.Int.{ℤ, pos, negsuc, leb_ℤ}
use rv32im_so_c_performance.Base.Dict.{Dict, get_default, str_eq}
use rv32im_so_c_performance.PyText.{Text, codes, strip, or_zero, int_0_or_16}
use rv32im_so_c_performance.Trace.{Row, Files, cell, open_file}
use rv32im_so_c_performance.Sorting.{sorted}

-- `num`: unlike that of compare_traces.py, it raises a ValueError for a blank cell.
unfoldable pub num : Option Text → Result ℤ
unfolding strip int_0_or_16
num text = int_0_or_16 (strip (or_zero text))

-- `insn & 0x7F`, of an int of either sign
abbrev pub opcode : ℤ → ℕ
opcode (pos n) = n % 128
opcode (negsuc n) = 127 - n % 128

abbrev pub opcodes : List (ℕ × String)
opcodes =
    (0x03, "load")
    ∷ (0x0F, "fence")
    ∷ (0x13, "op_imm")
    ∷ (0x17, "auipc")
    ∷ (0x23, "store")
    ∷ (0x33, "op")
    ∷ (0x37, "lui")
    ∷ (0x63, "branch")
    ∷ (0x67, "jalr")
    ∷ (0x6F, "jal")
    ∷ (0x73, "system")
    ∷ []

-- `OPCODES.get(key, "other")`
unfoldable pub kind_in : List (ℕ × String) → ℕ → String
kind_in [] key = "other"
kind_in ((code, k) ∷ codes) key = if code == key then k else kind_in codes key

-- `counts[kind] += 1`, on a Counter in insertion order
unfoldable pub count_kind : String → Dict ℕ → Dict ℕ
count_kind k [] = (k, 1) ∷ []
count_kind k ((j, n) ∷ counts) =
    if str_eq j k then (j, suc n) ∷ counts else (j, n) ∷ count_kind k counts

abbrev pub max_ℤ : ℤ → ℤ → ℤ
max_ℤ a b = if leb_ℤ b a then a else b

pub record Totals : Type 0 where
  pub rows : ℕ
  pub last_cycle : ℤ
  pub counts : Dict ℕ

-- One round of the loop.
unfoldable pub count_row : Totals → Row → Result Totals
unfolding num kind_in count_kind
count_row t r = do
  cycle ← num (get_default "cycle" (some (codes "0")) r)
  insn ← num (← cell "insn" r)
  ok (record {
    rows = suc t.rows;
    last_cycle = max_ℤ t.last_cycle cycle;
    counts = count_kind (kind_in opcodes (opcode insn)) t.counts;
  })

unfoldable pub count_rows : Totals → List Row → Result Totals
unfolding count_row
count_rows t [] = ok t
count_rows t (r ∷ rs) = do t ← count_row t r; count_rows t rs

abbrev pub zero_totals : Totals
zero_totals = record { rows = 0; last_cycle = pos 0; counts = [] }

-- The order of `most_common`.
abbrev pub more_common : String × ℕ → String × ℕ → Bool
more_common (j, m) (k, n) = leb n m

pub record Summary : Type 0 where
  pub retired : ℕ
  pub cycles : ℤ
  pub mix : Dict ℕ

unfoldable pub main : Files → String → Result Summary
unfolding count_rows sorted
main files path = do
  table ← open_file files path
  t ← count_rows zero_totals table.rows
  ok (record { retired = t.rows; cycles = t.last_cycle; mix = sorted more_common t.counts })
