-- ===== src/Examples/Jumps.antt =====
-- A host on which milestone 3D passes, and on which the sweep of milestone 6A returns: the model
-- always prints the same statistics.
use rv32im_so_c_performance.Base.{
  ◌≡◌, refl, ◌↔◌, String, Bool, true, ok, err, some, none, List, [], ◌∷◌, map, Result, All,
  if◌then◌else◌,
}
use rv32im_so_c_performance.Base.Int.{pos, ◌==ℤ◌}
use rv32im_so_c_performance.Base.Dict.{get, put, str_eq}
use rv32im_so_c_performance.PyText.{Text, strip, codes, int_0, int_10}
use rv32im_so_c_performance.PyText.Hex.{hex_pad}
use rv32im_so_c_performance.PyText.Decimal.{decimal}
use rv32im_so_c_performance.Trace.{Row}
use rv32im_so_c_performance.Trace.Writer.{write}
use rv32im_so_c_performance.ArchCompare.{arch_equal, arch_equal_from, compare_rows, differ, ival}
use rv32im_so_c_performance.Stats.{
  parse_with, parse_lines, parse_line, split_lines, lines_from, split_colon, read_digits, find_int,
  column_of,
}
use rv32im_so_c_performance.Suite.{Host, executable_path, cycle_error, run_capture, check_call}
use rv32im_so_c_performance.Suite.Reading.{
  read_trace, read_one_csv, int_or_zero, last_cycle, stat, stat_or_zero, error_if_run,
}
use rv32im_so_c_performance.Suite.Branches
use rv32im_so_c_performance.Suite.Branches.{Case, read_counters, same_counters}
use rv32im_so_c_performance.Suite.Jumps
use rv32im_so_c_performance.Suite.Jumps.{cases}
use rv32im_so_c_performance.Suite.Jumps.Pass.{Validated, main-Validated}
use rv32im_so_c_performance.Suite.ControlFlow.{controlflow_validation, require_rtl}
use rv32im_so_c_performance.Suite.ControlFlow.Exits.{Returns, controlflow-Returns}
use rv32im_so_c_performance.DesignSpace
use rv32im_so_c_performance.DesignSpace.{
  Point, exe_path, simulate, simulate_all, configs, unique, next_with, baseline, select,
}
use rv32im_so_c_performance.DesignSpace.Points.{}
use rv32im_so_c_performance.DesignSpace.Sweep
use rv32im_so_c_performance.DesignSpace.Sound.{IsExplored, main-IsExplored}
use rv32im_so_c_performance.Examples.{lines, model_events}

abbrev printed : Text
printed = lines (
    "retired             : 2" ∷ "predicted cycles    : 6" ∷ "I-cache accesses    : 3"
    ∷ "I-cache hits        : 2" ∷ "I-cache misses      : 1" ∷ "D-cache accesses    : 0"
    ∷ "D-cache hits        : 0" ∷ [])

abbrev counters : Row
counters =
    ("icache_accesses", some (codes "3"))
    ∷ ("icache_hits", some (codes "2"))
    ∷ ("icache_misses", some (codes "1"))
    ∷ []

abbrev is_stats : Case → String → Bool
is_stats case path = str_eq path (Jumps.rtl_stats_of case)

abbrev rows_of : List Case → String → List Row
rows_of [] path = map write model_events
rows_of (c ∷ cs) path = if is_stats c path then counters ∷ [] else rows_of cs path

abbrev host : Host
host = record {
  call = λ command. pos 0;
  output = λ command. printed;
  is_file = λ path. true;
  exists = λ path. true;
  files = λ path. some (record { fieldnames = []; rows = rows_of cases path });
}

abbrev outcome : Result Jumps.Outcome → Jumps.Outcome
outcome (ok o) = o
outcome (err e) = record { exit_code = pos 1; rows = []; result = none }

abbrev validated : Jumps.Outcome
validated = outcome (Jumps.main host require_rtl)

validated_returns : (Jumps.main host require_rtl ≡ ok validated) × (validated.result ≡ some true)
unfolding Jumps.main Jumps.run_cases Jumps.run_case Jumps.correlate Jumps.all_pass Jumps.parse_stats
    executable_path check_call run_capture parse_with parse_lines parse_line split_lines lines_from
    split_colon read_digits find_int column_of get put read_trace read_one_csv int_or_zero
    last_cycle stat stat_or_zero error_if_run cycle_error read_counters same_counters arch_equal
    arch_equal_from compare_rows differ ival write decimal hex_pad int_0 int_10 ◌==ℤ◌
validated_returns = (refl, refl)

main-Validated_example :
    (exe : String) × (executable_path host ≡ ok exe) × All (Validated host exe) cases
main-Validated_example = main-Validated host validated validated_returns.0 validated_returns.1

controlflow-Returns_example :
    (controlflow_validation host ≡ pos 0)
    ↔ (Returns (Branches.main host require_rtl) × Returns (Jumps.main host require_rtl))
controlflow-Returns_example = controlflow-Returns host

abbrev points_of : Result (List Point) → List Point
points_of (ok ps) = ps
points_of (err e) = []

abbrev exe : String
exe = "build/rv32im_model"

abbrev swept : List Point
swept = points_of (simulate_all host exe configs)

simulated : simulate_all host exe configs ≡ ok swept
unfolding simulate_all simulate DesignSpace.parse strip run_capture stat parse_with parse_lines
    parse_line split_lines lines_from split_colon read_digits find_int column_of get put
simulated = refl

-- The model prints the same cycles for each configuration.
abbrev empty_point : Point
empty_point = record {
  config = baseline;
  cache_data_bytes = 0;
  retired = pos 0;
  cycles = pos 0;
  icache_hits = pos 0;
  icache_accesses = pos 0;
  dcache_hits = pos 0;
  dcache_accesses = pos 0;
}

abbrev sweep_outcome : Result Sweep.Outcome → Sweep.Outcome
sweep_outcome (ok o) = o
sweep_outcome (err e) = Sweep.explored [] empty_point [] []

abbrev exploration : Sweep.Outcome
exploration = sweep_outcome (Sweep.main host)

explored : Sweep.main host ≡ ok exploration
unfolding Sweep.main Sweep.explore Sweep.differences unique DesignSpace.unique_from next_with select
    exe_path check_call simulate_all simulate DesignSpace.parse strip run_capture stat parse_with
    parse_lines parse_line split_lines lines_from split_colon read_digits find_int column_of get put
explored = refl

main-IsExplored_example :
    (exe : String) × (exe_path host ≡ ok exe) × IsExplored host exe exploration
main-IsExplored_example = main-IsExplored host exploration explored
