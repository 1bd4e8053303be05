-- ===== src/Suite/Reading.antt =====
-- How the milestone scripts read CSV files and the model's statistics (scripts/run_milestone3c.py;
-- run_milestone3d.py and run_milestone4.py repeat these functions).
use rv32im_so_c_performance.Base.{
  String, Option, none, some, List, [], ◌∷◌, if◌then◌else◌, type_error, key_error, Result, ok, err,
  ◌>>=◌, or_raise, get_last?,
}
use rv32im_so_c_performance.Base.Int.{ℤ, pos, truthy}
use rv32im_so_c_performance.Base.Dict.{get, get_default}
use rv32im_so_c_performance.PyText.{Text, int_10}
use rv32im_so_c_performance.Trace.{Row, Files, cell, open_file}
use rv32im_so_c_performance.Stats.{Stats}
use rv32im_so_c_performance.Suite.{Ratio, zero_ratio, cycle_error}

-- `list(csv.DictReader(f))`
unfoldable pub read_trace : Files → String → Result (List Row)
read_trace files path = do table ← open_file files path; ok table.rows

abbrev first_row : List Row → Row
first_row [] = []
first_row (r ∷ rs) = r

-- The first row, or `{}`.
unfoldable pub read_one_csv : Files → String → Result Row
read_one_csv files path = do table ← open_file files path; ok (first_row table.rows)

-- `int(x)` of a cell; `int(None)` is a TypeError
abbrev pub int_cell : Option Text → Result ℤ
int_cell none = err type_error
int_cell (some s) = int_10 s

-- `int(row.get(column, 0))`
unfoldable pub int_or_zero : String → Row → Result ℤ
int_or_zero column r = elim (get column r) [ none ↦ ok (pos 0) | some c ↦ int_cell c ]

-- `int(rows[-1]['cycle']) if rows else 0`
unfoldable pub last_cycle : List Row → Result ℤ
last_cycle rows = elim (get_last? rows) [
  | none ↦ ok (pos 0)
  | some r ↦ do c ← cell "cycle" r; int_cell c
]

-- `row[column]` and `row.get(column, 0)`, of the parsed statistics
unfoldable pub stat : String → Stats → Result ℤ
stat column stats = or_raise (key_error column) (get column stats)

unfoldable pub stat_or_zero : String → Stats → ℤ
unfolding get
stat_or_zero column stats = get_default column (pos 0) stats

-- The cycle error, computed only where the RTL ran.
unfoldable pub error_if_run : ℤ → Stats → Result Ratio
unfolding cycle_error
error_if_run rtl_cycles stats =
    if truthy rtl_cycles
    then (do cycles ← stat "cycles" stats; ok (cycle_error cycles rtl_cycles))
    else ok zero_ratio
