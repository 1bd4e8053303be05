-- ===== src/RtlSummary.antt =====
-- scripts/compare_milestone5b.py and scripts/compare_milestone6b.py: the model's predictions against
-- the summaries of the RTL runs. What they print is left out, but not the exceptions of printing it.
pub mod Passed
use rv32im_so_c_performance.Base.{
  ℕ, String, Bool, true, false, not, ◌&&◌, ◌||◌, Option, none, some, List, [], ◌∷◌, if◌then◌else◌,
  ◌==◌, length, type_error, key_error, runtime_error, Result, ok, err, ◌>>=◌, ◌>>◌, or_raise,
}
use rv32im_so_c_performance.Base.Int.{ℤ, pos, ◌==ℤ◌}
use rv32im_so_c_performance.Base.Dict.{get_default}
use rv32im_so_c_performance.PyText.{Text, codes, text_eq}
use rv32im_so_c_performance.Trace.{Row, Table, Files, cell, open_file}
use rv32im_so_c_performance.Suite.Reading.{int_cell}

abbrev pub cell_eq : Option Text → Option Text → Bool
cell_eq none none = true
cell_eq (some s) (some t) = text_eq s t
cell_eq _ _ = false

-- A dict from names to rows, in insertion order.
abbrev pub ByName : Type 0
ByName = List (Option Text × Row)

unfoldable pub look_up : Option Text → ByName → Option Row
look_up name [] = none
look_up name ((key, r) ∷ m) = if cell_eq key name then some r else look_up name m

unfoldable pub store : Option Text → Row → ByName → ByName
store name r [] = (name, r) ∷ []
store name r ((key, old) ∷ m) =
    if cell_eq key name then (key, r) ∷ m else (key, old) ∷ store name r m

-- `{r['name']: r for r in csv.DictReader(...)}`, on what was stored before
unfoldable pub by_name : ByName → List Row → Result ByName
unfolding store
by_name m [] = ok m
by_name m (r ∷ rs) = do name ← cell "name" r; by_name (store name r m) rs

-- `'{:10s}'.format(x)` raises on None
abbrev pub shown : Option Text → Result Text
shown c = or_raise type_error c

abbrev pub is_pass : Option Text → Bool
is_pass status = cell_eq status (some (codes "PASS"))

-- A file that must exist.
abbrev pub existing : Files → String → String → Result Table
existing files message path = or_raise (runtime_error message) (files path)

-- compare_milestone5b.py, with Python's `float` of a cell as a parameter
module _ {F : Type 0} (float_of : Option Text → Result F) where
  -- The row of a table, with its status; the rest is read to be printed.
  unfoldable pub print_5b : ByName → Row → Result (Option Text)
  unfolding look_up
  print_5b pred r = do
    name ← cell "name" r
    p ← or_raise (key_error "name") (look_up name pred)
    status ← cell "status" r
    icache_lines ← cell "icache_lines" r
    dcache_lines ← cell "dcache_lines" r
    model_cycles ← cell "model_cycles" r
    rtl_cycles ← cell "rtl_cycles" r
    delta ← int_cell (← cell "cycle_delta" r)
    reduction ← float_of (← cell "cycle_reduction_pct" p)
    s1 ← shown name
    s2 ← shown icache_lines
    s3 ← shown dcache_lines
    s4 ← shown model_cycles
    s5 ← shown rtl_cycles
    s6 ← shown status
    ok status

  unfoldable pub loop_5b : ByName → Bool → List Row → Result Bool
  unfolding print_5b
  loop_5b pred allpass [] = ok allpass
  loop_5b pred allpass (r ∷ rs) = do
    status ← print_5b pred r
    loop_5b pred (allpass && is_pass status) rs

  unfoldable pub main_5b : Files → Result ℤ
  unfolding by_name loop_5b
  main_5b files = do
    predictions ←
        existing files
          "Missing sensitivity predictions; run python scripts/run_sensitivity_sweep.py"
          "results/milestone5/sensitivity_sweep.csv"
    summary ←
        existing files
          "Missing Milestone 5B VCS summary. Extract RV32IM_VCS_Milestone5B_Results.zip at the project root."
          "results/milestone5b/milestone5b_vcs_summary.csv"
    pred ← by_name [] predictions.rows
    allpass ← loop_5b pred true summary.rows
    ok (if allpass then pos 0 else pos 1)

-- compare_milestone6b.py: what the loop does with a row that the reference has, and without.
unfoldable pub compare_6b : Option Text → Row → Row → Result Bool
compare_6b name ref row = do
  mc ← int_cell (← cell "cycles" ref)
  rc ← int_cell (← cell "rtl_cycles" row)
  s1 ← shown name
  icache_lines ← int_cell (← cell "icache_lines" ref)
  dcache_lines ← int_cell (← cell "dcache_lines" ref)
  memory_latency ← int_cell (← cell "memory_latency" ref)
  s2 ← shown (get_default "status" (some []) row)
  ok (mc ==ℤ rc && is_pass (get_default "status" (some []) row))

unfoldable pub judge_6b : ByName → Row → Result Bool
unfolding look_up compare_6b
judge_6b refs row = do
  name ← cell "name" row
  elim (look_up name refs) [
    | none ↦ do s ← shown name; ok false
    | some ref ↦ compare_6b name ref row
  ]

unfoldable pub loop_6b : ByName → Bool → List Row → Result Bool
unfolding judge_6b
loop_6b refs good [] = ok good
loop_6b refs good (row ∷ rows) = do passed ← judge_6b refs row; loop_6b refs (good && passed) rows

unfoldable pub main_6b : Files → Result ℤ
unfolding by_name loop_6b
main_6b files = elim (files "results/milestone6b/milestone6b_vcs_summary.csv") [
  | none ↦ ok (pos 2)
  | some summary ↦ do
    reference ← open_file files "reference/milestone6b/selected_model_predictions.csv"
    refs ← by_name [] reference.rows
    good ← loop_6b refs true summary.rows
    ok (if good && length summary.rows == length refs then pos 0 else pos 1)
]
