-- ===== src/Examples/Gates.antt =====
-- A host on which milestones 3 and 4 pass, and one on which the model prints nothing.
use rv32im_so_c_performance.Base.{
  ◌≡◌, refl, String, Bool, true, ok, err, some, none, [], ◌∷◌, map, Result, All, if◌then◌else◌,
  all_of, any_of, traverse,
}
use rv32im_so_c_performance.Base.Int.{pos, ◌==ℤ◌}
use rv32im_so_c_performance.Base.Dict.{get, put, str_eq}
use rv32im_so_c_performance.PyText.{Text, lstrip, codes, int_0, int_10, digit_value}
use rv32im_so_c_performance.PyText.Hex.{hex_pad}
use rv32im_so_c_performance.PyText.Decimal.{decimal}
use rv32im_so_c_performance.PyText.Lower.{lower}
use rv32im_so_c_performance.Trace.{Row}
use rv32im_so_c_performance.Trace.Writer.{write}
use rv32im_so_c_performance.ArchCompare.{
  arch_compare_stream, stream_from, compare_rows, differ, ival,
}
use rv32im_so_c_performance.Stats.{
  Stats, parse_with, parse_lines, parse_line, split_lines, lines_from, split_colon, read_digits,
  find_int, column_of,
}
use rv32im_so_c_performance.Stats.Signature
use rv32im_so_c_performance.Stats.Signature.{
  search_x05, match_x05, after_literal, hex_group, read_hex,
}
use rv32im_so_c_performance.Suite.{Host, executable_path, cycle_error, run_capture, check_call}
use rv32im_so_c_performance.Suite.Reading.{
  read_trace, read_one_csv, int_or_zero, last_cycle, stat, stat_or_zero,
}
use rv32im_so_c_performance.Suite.ControlFlow.{require_rtl}
use rv32im_so_c_performance.Suite.Caches
use rv32im_so_c_performance.Suite.Caches.{
  cases, lower_cell, same_text, writes, same_row, same_rows, read_cache_stats, values_of,
  counter_differs, correlate, run_case,
}
use rv32im_so_c_performance.Suite.Caches.Pass.{Validated, row_pass, main-Cached}
use rv32im_so_c_performance.Suite.Bottleneck.{Report, bottleneck_report}
use rv32im_so_c_performance.Suite.Dhrystone
use rv32im_so_c_performance.Suite.Dhrystone.{command, has_signature, read_cycles, read_rtl, finish}
use rv32im_so_c_performance.Suite.Dhrystone.Gate.{Passed, main-Passed}
use rv32im_so_c_performance.Examples.{lines, model_events}

abbrev printed : Text
printed = lines (
    "retired: 2" ∷ "predicted cycles: 6" ∷ "I-cache accesses: 3" ∷ "I-cache hits: 2"
    ∷ "I-cache misses: 1" ∷ "D-cache accesses: 0" ∷ "D-cache hits: 0" ∷ "D-cache misses: 0"
    ∷ "D-cache writebacks: 0" ∷ "x05 = 0x003fffff" ∷ [])

abbrev counters : Row
counters =
    ("icache_accesses", some (codes "3"))
    ∷ ("icache_hits", some (codes "2"))
    ∷ ("icache_misses", some (codes "1"))
    ∷ ("dcache_accesses", some (codes "0"))
    ∷ ("dcache_hits", some (codes "0"))
    ∷ ("dcache_misses", some (codes "0"))
    ∷ ("dcache_writebacks", some (codes "0"))
    ∷ []

abbrev is_stats : String → Bool
is_stats path =
    any_of (str_eq path)
      (Dhrystone.rtl_stats ∷ Dhrystone.rtl_events ∷ map Caches.rtl_stats_of cases)

abbrev host : Host
host = record {
  call = λ command. pos 0;
  output = λ command. printed;
  is_file = λ path. true;
  exists = λ path. true;
  files = λ path. some (record {
    fieldnames = [];
    rows = if is_stats path then counters ∷ [] else map write model_events;
  });
}

abbrev cache_outcome : Result Caches.Outcome → Caches.Outcome
cache_outcome (ok o) = o
cache_outcome (err e) = record { exit_code = pos 1; rows = [] }

abbrev cached : Caches.Outcome
cached = cache_outcome (Caches.main host require_rtl)

cached_returns : (Caches.main host require_rtl ≡ ok cached) × (all_of row_pass cached.rows ≡ true)
unfolding Caches.main run_case correlate Caches.parse_stats Caches.arch_equal same_rows same_row
    same_text lower_cell lower writes Caches.same_counters counter_differs read_cache_stats
    values_of traverse executable_path check_call run_capture parse_with parse_lines parse_line
    split_lines lines_from split_colon read_digits find_int column_of get put read_trace last_cycle
    stat_or_zero cycle_error write decimal hex_pad int_10 ◌==ℤ◌
cached_returns = (refl, refl)

main-Cached_example :
    (exe : String) × (executable_path host ≡ ok exe) × All (Validated host exe) cases
main-Cached_example = main-Cached host cached cached_returns.0 cached_returns.1

abbrev report_of : Stats → Report
report_of stats = record { cycles = pos 0; retired = pos 0; total = pos 0; attributed = [] }

abbrev gate_outcome : Result Dhrystone.Outcome → Dhrystone.Outcome
gate_outcome (ok o) = o
gate_outcome (err e) =
    Dhrystone.conclude require_rtl [] (record { num = 0; den = pos 1 }) none (report_of [])

abbrev gated : Dhrystone.Outcome
gated = gate_outcome (Dhrystone.main host require_rtl)

gated_returns : (Dhrystone.main host require_rtl ≡ ok gated) × (gated.result ≡ some true)
unfolding Dhrystone.main has_signature finish read_rtl Dhrystone.correlate read_cycles
    Dhrystone.same_counters bottleneck_report arch_compare_stream stream_from compare_rows differ
    ival Signature.parse_stats search_x05 match_x05 after_literal hex_group read_hex lstrip
    digit_value values_of traverse executable_path check_call run_capture parse_with parse_lines
    parse_line split_lines lines_from split_colon read_digits find_int column_of get put read_trace
    read_one_csv int_or_zero stat stat_or_zero cycle_error write decimal hex_pad int_0 int_10 ◌==ℤ◌
gated_returns = (refl, refl)

main-Passed_example : Passed host
main-Passed_example = main-Passed host gated gated_returns.0 gated_returns.1
