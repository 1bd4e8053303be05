-- ===== src/Trace.antt =====
-- Retirement traces as `csv.DictReader` gives them, and the loader of scripts/compare_traces.py.
pub mod Commits
pub mod Writer
use rv32im_so_c_performance.Base.{
  ℕ, zero, suc, ◌+◌, ◌-◌, ◌/◌, ◌%◌, String, Bool, true, false, ◌&&◌, ◌||◌, Option, none, some, List,
  [], ◌∷◌, ◌++◌, ◌==◌, if◌then◌else◌, Error, value_error, key_error, file_not_found_error, Result,
  ok, err, ◌>>=◌, or_raise, all_of, any_of,
}
use rv32im_so_c_performance.Base.Int.{ℤ, pos}
use rv32im_so_c_performance.Base.Dict.{Dict, get, get_default, str_eq}
use rv32im_so_c_performance.PyText.Decimal.{decimal}
use rv32im_so_c_performance.PyText.{Text, codes, strip, or_zero, int_0, int_0_or_16}

-- A cell is none where the line of the file is too short (DictReader's `restval`).
abbrev pub Row : Type 0
Row = Dict (Option Text)

pub record Table : Type 0 where
  pub fieldnames : List String
  pub rows : List Row

-- The CSV files that exist, by path.
abbrev pub Files : Type 0
Files = String → Option Table

-- `r[column]`
abbrev pub cell : String → Row → Result (Option Text)
cell column r = or_raise (key_error column) (get column r)

abbrev pub open_file : Files → String → Result Table
open_file files path = or_raise (file_not_found_error path) (files path)

-- `num` of compare_traces.py
abbrev pub num_stripped : Text → Result ℤ
num_stripped [] = ok (pos 0)
num_stripped (c ∷ s) = int_0_or_16 (c ∷ s)

unfoldable pub num : Option Text → Result ℤ
unfolding strip int_0_or_16
num text = num_stripped (strip (or_zero text))

pub record Retirement : Type 0 where
  pub row : ℕ
  pub cycle : ℤ
  pub retired : ℤ
  pub pc : ℤ
  pub insn : ℤ
  pub rd : ℤ
  pub wdata : ℤ
  pub reg_write : ℤ

abbrev pub required : List String
required = "pc" ∷ "insn" ∷ "rd" ∷ "wdata" ∷ "reg_write" ∷ []

-- One round of the loop of `load`: line `i` of the file, after `loaded` rows.
unfoldable pub load_row : ℕ → ℕ → Row → Result Retirement
unfolding get
load_row i loaded r = do
  cycle ← num (get_default "cycle" (some (codes "0")) r)
  retired ← num (get_default "retired" (some (decimal (loaded + 1))) r)
  pc ← num (← cell "pc" r)
  insn ← num (← cell "insn" r)
  rd ← num (← cell "rd" r)
  wdata ← num (← cell "wdata" r)
  reg_write ← num (← cell "reg_write" r)
  ok (record {
    row = i;
    cycle = cycle;
    retired = retired;
    pc = pc;
    insn = insn;
    rd = rd;
    wdata = wdata;
    reg_write = reg_write;
  })

unfoldable pub load_rows : ℕ → ℕ → List Row → Result (List Retirement)
unfolding num decimal load_row
load_rows i loaded [] = ok []
load_rows i loaded (r ∷ rs) = do
  x ← load_row i loaded r
  xs ← load_rows (i + 1) (loaded + 1) rs
  ok (x ∷ xs)

unfoldable pub load : Files → String → Result (List Retirement)
unfolding load_rows
load files path = do
  table ← open_file files path
  if all_of (λ column. any_of (str_eq column) table.fieldnames) required
      then load_rows 2 0 table.rows
      else err value_error
