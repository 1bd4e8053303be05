-- ===== src/Examples/Tables.antt =====
-- RTL summaries and overlap rows.
use rv32im_so_c_performance.Dominance.{In}
use rv32im_so_c_performance.Sorting.{IsSorted}
use rv32im_so_c_performance.FetchReports.{pair_le, repeated}
use rv32im_so_c_performance.FetchReports.Repeated.{occurrences, repeated-occurrences}
use rv32im_so_c_performance.Base.{
  ℕ, ◌↔◌, ◌<◌, ◌++◌, ◌≡◌, refl, true, ok, none, some, List, [], ◌∷◌, String, Option, Result,
  if◌then◌else◌, All, ◌==◌, length, err, value_error,
}
use rv32im_so_c_performance.Base.Int.{ℤ, pos, ◌==ℤ◌}
use rv32im_so_c_performance.Base.Dict.{get, str_eq}
use rv32im_so_c_performance.PyText.Decimal.{decimal}
use rv32im_so_c_performance.Stats.{column_of, parse_line}
use rv32im_so_c_performance.Stats.Keys.{milestone4_keys}
use rv32im_so_c_performance.Stats.Printed.{parse_line-get}
use rv32im_so_c_performance.PyText.{strip, Text, codes, int_10}
use rv32im_so_c_performance.Trace.{Row, Table, Files, open_file}
use rv32im_so_c_performance.RtlSummary.{
  ByName, by_name, look_up, store, main_6b, loop_6b, judge_6b, compare_6b,
}
use rv32im_so_c_performance.RtlSummary.Passed.{
  Confirmed, summary_path, reference_path, main_6b-Confirmed,
}
use rv32im_so_c_performance.Overlap.{Episode, group}

abbrev column : String → String → String × Option Text
column name value = (name, some (codes value))

abbrev table : List Row → Option Table
table rows = some (record { fieldnames = []; rows = rows })

abbrev reference_rows : List Row
reference_rows =
    (column "name" "I64D64L1"
      ∷ column "icache_lines" "64"
      ∷ column "dcache_lines" "64"
      ∷ column "memory_latency" "1"
      ∷ column "cycles" "1200000"
      ∷ [])
    ∷ []

abbrev summary_rows : List Row
summary_rows =
    (column "name" "I64D64L1" ∷ column "rtl_cycles" "1200000" ∷ column "status" "PASS" ∷ []) ∷ []

abbrev files_6b : Files
files_6b path =
    if str_eq path summary_path
    then table summary_rows
    else if str_eq path reference_path
    then table reference_rows
    else none

passed_6b : main_6b files_6b ≡ ok (pos 0)
unfolding main_6b by_name store loop_6b judge_6b look_up compare_6b get int_10 ◌==ℤ◌
passed_6b = refl

main_6b-Confirmed_example :
    (summary : Table) × (reference : Table) × (refs : ByName) × (files_6b summary_path
      ≡ some summary)
    × (open_file files_6b reference_path ≡ ok reference)
    × (by_name [] reference.rows ≡ ok refs)
    × All (Confirmed refs) summary.rows
    × ((length summary.rows == length refs) ≡ true)
main_6b-Confirmed_example = main_6b-Confirmed files_6b passed_6b

abbrev files_5b : Files
files_5b path =
    if str_eq path "results/milestone5/sensitivity_sweep.csv"
    then table ((column "name" "I128" ∷ column "cycle_reduction_pct" "3.5" ∷ []) ∷ [])
    else if str_eq path "results/milestone5b/milestone5b_vcs_summary.csv"
    then table (
        (column "name" "I128"
          ∷ column "status" "PASS"
          ∷ column "icache_lines" "128"
          ∷ column "dcache_lines" "64"
          ∷ column "model_cycles" "1300000"
          ∷ column "rtl_cycles" "1300000"
          ∷ column "cycle_delta" "0"
          ∷ [])
        ∷ [])
    else none

-- A reader of floats that keeps their text.
abbrev float_of : Option Text → Result Text
float_of none = err value_error
float_of (some s) = ok s

abbrev overlap_row : String → String → Row
overlap_row cycle pc =
    column "cycle" cycle
    ∷ column "ex_mem_pc" pc
    ∷ column "dmem_addr" "0x00001000"
    ∷ column "redirect_pc" "0x00000040"
    ∷ []

abbrev overlap_rows : List Row
overlap_rows =
    overlap_row "10" "0x00000020"
    ∷ overlap_row "11" "0x00000020"
    ∷ overlap_row "20" "0x00000030"
    ∷ []

abbrev episodes_of : Result (List Episode) → List Episode
episodes_of (ok eps) = eps
episodes_of (err e) = []

abbrev episodes : List Episode
episodes = episodes_of (group [] overlap_rows)

parse_line-get_example :
    get "cycles" (
      parse_line milestone4_keys
        (codes "retired " ++ b':' ∷ b' ' ∷ decimal 312)
        (("cycles", pos 9) ∷ []))
    ≡ (if str_eq "retired" "cycles" then some (pos 312) else get "cycles" (("cycles", pos 9) ∷ []))
unfolding column_of strip
parse_line-get_example =
    parse_line-get milestone4_keys (codes "retired ") "retired" 312 (("cycles", pos 9) ∷ [])
      "cycles" (refl, (refl, (refl, (refl, (refl, (refl, (refl, (refl, tt)))))))) refl

-- The address 4 is fetched twice.
repeated-occurrences_example :
    IsSorted pair_le (repeated (pos 4 ∷ pos 0 ∷ pos 4 ∷ []))
    × ((pc : ℤ) (n : ℕ)
        → In (pc, n) (repeated (pos 4 ∷ pos 0 ∷ pos 4 ∷ []))
          ↔ ((n ≡ occurrences pc (pos 4 ∷ pos 0 ∷ pos 4 ∷ [])) × (1 < n)))
repeated-occurrences_example = repeated-occurrences (pos 4 ∷ pos 0 ∷ pos 4 ∷ [])
