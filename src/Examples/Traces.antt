-- ===== src/Examples/Traces.antt =====
-- The comparisons and the loaders on two short traces.
use rv32im_so_c_performance.Base.{
  ◌≡◌, refl, ◌↔◌, true, ok, some, value_error, err, List, [], ◌∷◌, map, take, length, arith,
}
use rv32im_so_c_performance.Base.Int.{pos, negsuc}
use rv32im_so_c_performance.Trace.{Retirement, Table, Files, open_file, load_rows}
use rv32im_so_c_performance.Base.Dict.{get}
use rv32im_so_c_performance.PyText.{codes, strip, int_0, int_16, int_0_or_16}
use rv32im_so_c_performance.PyText.Hex.{hex_pad}
use rv32im_so_c_performance.PyText.Decimal.{decimal}
use rv32im_so_c_performance.Sorting.{IsSorted}
use rv32im_so_c_performance.Trace.Writer.{write, committed, numbered, load_rows-write}
use rv32im_so_c_performance.CompareTraces.{compare_traces}
use rv32im_so_c_performance.CompareTraces.Verdict.{Agree, compare_traces-exit_code}
use rv32im_so_c_performance.CompareTraces.Reports.{all_mismatches, limit, compare_traces-printed}
use rv32im_so_c_performance.ArchCompare.{arch_compare_stream, arch_equal, compare_arch}
use rv32im_so_c_performance.ArchCompare.Commits
use rv32im_so_c_performance.ArchCompare.Commits.{compare_arch-Agree}
use rv32im_so_c_performance.ArchCompare.Written.{
  AllFit, passes, stream-compare_arch, arch_equal-compare_arch,
}
use rv32im_so_c_performance.Suite.Caches
use rv32im_so_c_performance.Suite.Caches.Written.{arch_equal-texts}
use rv32im_so_c_performance.TraceReport
use rv32im_so_c_performance.TraceReport.{count_rows, count_row, kind_in, count_kind}
use rv32im_so_c_performance.TraceReport.Mix.{total, main-total}
use rv32im_so_c_performance.Examples.{model_events, rtl_events, wrong_events}

model_fits : AllFit model_events
model_fits =
    ((omega arith, omega arith, omega arith), ((omega arith, omega arith, omega arith), tt))

wrong_fits : AllFit wrong_events
wrong_fits =
    ((omega arith, omega arith, omega arith), ((omega arith, omega arith, omega arith), tt))

abbrev model : List Retirement
model = numbered 2 model_events

abbrev rtl : List Retirement
rtl = numbered 2 rtl_events

compare_traces-exit_code_example :
    ((compare_traces true (pos 10) model rtl).exit_code ≡ 0) ↔ Agree true model rtl
compare_traces-exit_code_example = compare_traces-exit_code true (pos 10) model rtl

compare_traces-printed_example :
    (compare_traces true (negsuc 0) model rtl).printed
    ≡ take (limit (negsuc 0)) (all_mismatches true 0 model rtl)
compare_traces-printed_example = compare_traces-printed true (negsuc 0) model rtl

compare_arch-Agree_example :
    ((compare_arch (map committed model_events) (map committed rtl_events)).0 ≡ true)
    ↔ Commits.Agree (map committed model_events) (map committed rtl_events)
compare_arch-Agree_example =
    compare_arch-Agree (map committed model_events) (map committed rtl_events)

load_rows-write_example : load_rows 2 0 (map write model_events) ≡ ok (numbered 2 model_events)
load_rows-write_example = load_rows-write 2 0 model_events model_fits

stream-compare_arch_example :
    passes (arch_compare_stream (map write model_events) (map write wrong_events))
    ≡ ok (compare_arch (map committed model_events) (map committed wrong_events)).0
stream-compare_arch_example = stream-compare_arch model_events wrong_events model_fits wrong_fits

arch_equal-compare_arch_example :
    passes (arch_equal (map write model_events) (map write wrong_events))
    ≡ ok (compare_arch (map committed model_events) (map committed wrong_events)).0
arch_equal-compare_arch_example =
    arch_equal-compare_arch model_events wrong_events model_fits wrong_fits

arch_equal-texts_example :
    Caches.arch_equal (map write model_events) (map write wrong_events)
    ≡ ok (compare_arch (map committed model_events) (map committed wrong_events)).0
arch_equal-texts_example = arch_equal-texts model_events wrong_events model_fits wrong_fits

-- The file of the model's trace.
abbrev written : Files
written path = some (record { fieldnames = []; rows = map write model_events })

abbrev summary : TraceReport.Summary
summary = record { retired = 2; cycles = pos 6; mix = ("op_imm", 2) ∷ [] }

summarized : TraceReport.main written "trace.csv" ≡ ok summary
unfolding TraceReport.main count_rows count_row kind_in count_kind TraceReport.num write decimal
    hex_pad get int_0
summarized = refl

-- A blank cell raises a ValueError in this script alone.
blank : TraceReport.num (some (codes " ")) ≡ err value_error
unfolding TraceReport.num strip int_0_or_16 int_0 int_16
blank = refl

main-total_example :
    (t : Table) × (open_file written "trace.csv" ≡ ok t)
    × (summary.retired ≡ length t.rows)
    × (total summary.mix ≡ length t.rows)
    × IsSorted TraceReport.more_common summary.mix
main-total_example = main-total written "trace.csv" summary summarized
