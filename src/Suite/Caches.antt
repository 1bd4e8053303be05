-- ===== src/Suite/Caches.antt =====
-- scripts/run_milestone3.py: the directed cache workloads, with its own comparison of the cells' texts.
pub mod Written
pub mod Pass
use Prim.Native.String.{◌++◌ as join}
use rv32im_so_c_performance.Base.{
  ℕ, String, Bool, true, false, not, ◌&&◌, ◌||◌, Option, none, some, List, [], ◌∷◌, ◌++◌, map,
  length, ◌==◌, if◌then◌else◌, runtime_error, type_error, attribute_error, Result, ok, err, ◌>>=◌,
  ◌>>◌, traverse,
}
use rv32im_so_c_performance.Base.Int.{ℤ, pos, ◌==ℤ◌}
use rv32im_so_c_performance.Base.Dict.{Dict, get, put, str_eq}
use rv32im_so_c_performance.PyText.{Text, codes, text_eq, int_10}
use rv32im_so_c_performance.PyText.Lower.{lower}
use rv32im_so_c_performance.Trace.{Row, Files, open_file}
use rv32im_so_c_performance.Stats.{Stats, parse_with}
use rv32im_so_c_performance.Stats.Keys.{milestone3_keys}
use rv32im_so_c_performance.Suite.{
  Host, Status, pass, fail, wait, measure, status, Flags, configure, build, executable_path,
  run_capture, check_call, Ratio, zero_ratio, csv_path, cycle_error,
}
use rv32im_so_c_performance.Suite.Reading.{read_trace, last_cycle, int_cell, stat_or_zero}

pub record Case : Type 0 where
  pub name : String
  pub mode : String
  pub program : String
  pub args : List String

abbrev dcache_args : List String
dcache_args = "--enable-dcache" ∷ "--dcache-lines" ∷ "4" ∷ "--memory-latency" ∷ "3" ∷ []

abbrev pub cases : List Case
cases =
    record {
      name = "dcache_repeat";
      mode = "validate";
      program = "workloads/milestone3/dcache_repeat.hex";
      args = dcache_args;
    }
    ∷ record {
      name = "dcache_cache_test";
      mode = "validate";
      program = "workloads/milestone3/cache_test.hex";
      args = dcache_args;
    }
    ∷ record {
      name = "icache_linear";
      mode = "validate";
      program = "workloads/milestone3/icache_linear.hex";
      args = "--enable-icache" ∷ "--icache-lines" ∷ "4" ∷ "--memory-latency" ∷ "3" ∷ [];
    }
    ∷ record {
      name = "split_cache";
      mode = "validate";
      program = "workloads/milestone3/cache_test.hex";
      args =
          "--enable-caches" ∷ "--icache-lines" ∷ "4" ∷ "--dcache-lines" ∷ "4" ∷ "--memory-latency"
          ∷ "3" ∷ [];
    }
    ∷ []

unfoldable pub parse_stats : Text → Stats
parse_stats = parse_with milestone3_keys

-- `row.get(column, '').lower()`; None has no method `lower`
abbrev lower_found : Option (Option Text) → Result Text
lower_found none = ok []
lower_found (some none) = err attribute_error
lower_found (some (some s)) = ok (lower s)

unfoldable pub lower_cell : String → Row → Result Text
unfolding lower
lower_cell column r = lower_found (get column r)

-- Whether two rows have the same text in a column, up to case.
unfoldable pub same_text : String → Row → Row → Result Bool
same_text column a b = do x ← lower_cell column a; y ← lower_cell column b; ok (text_eq x y)

-- `a_wr not in ('0', '', 'false')`
unfoldable pub writes : Text → Bool
writes a_wr =
    not (text_eq a_wr (codes "0") || text_eq a_wr (codes "") || text_eq a_wr (codes "false"))

-- Python's `and` of two tests, each of which returns False from the loop.
abbrev pub and_then : Result Bool → Result Bool → Result Bool
and_then x y = do b ← x; if b then y else ok false

-- One round of the loop of `arch_equal`.
unfoldable pub same_row : Row → Row → Result Bool
same_row a b = and_then (same_text "pc" a b) (
    and_then (same_text "insn" a b) (do
      a_wr ← lower_cell "reg_write" a
      b_wr ← lower_cell "reg_write" b
      if not (text_eq a_wr b_wr)
          then ok false
          else if writes a_wr
          then and_then (same_text "rd" a b) (same_text "wdata" a b)
          else ok true))

unfoldable pub same_rows : List Row → List Row → Result Bool
same_rows [] rtl = ok true
same_rows (a ∷ model) [] = ok true
same_rows (a ∷ model) (b ∷ rtl) = let rest = same_rows model rtl in and_then (same_row a b) rest

unfoldable pub arch_equal : List Row → List Row → Result Bool
arch_equal model rtl = if not (length model == length rtl) then ok false else same_rows model rtl

-- A value of `read_cache_stats`: what `int` makes of a cell, or the cell where it raises.
pub data Value : Type 0 where
  number : ℤ → Value
  raw : Option Text → Value

abbrev value_or : Option Text → Result ℤ → Value
value_or c (ok n) = number n
value_or c (err e) = raw c

abbrev pub value_of : Option Text → Value
value_of c = value_or c (int_cell c)

unfoldable pub values_of : Row → Dict Value
values_of [] = []
values_of ((k, c) ∷ r) = (k, value_of c) ∷ values_of r

abbrev first_values : List Row → Option (Dict Value)
first_values [] = none
first_values (r ∷ rs) = some (values_of r)

unfoldable pub read_cache_stats : Host → String → Result (Option (Dict Value))
unfolding values_of
read_cache_stats host path =
    if not (host.exists path)
    then ok none
    else do table ← open_file host.files path; ok (first_values table.rows)

-- `int(rtlc[rk])`
abbrev pub int_value : Value → Result ℤ
int_value (number n) = ok n
int_value (raw c) = int_cell c

-- `rk in rtlc and int(row[mk]) != int(rtlc[rk])`, with the number of the model; `in` of None is a
-- TypeError
abbrev other_value : ℤ → Option Value → Result Bool
other_value n none = ok false
other_value n (some v) = do x ← int_value v; ok (not (n ==ℤ x))

abbrev pub other_reported : String → ℤ → Option (Dict Value) → Result Bool
other_reported rk n none = err type_error
other_reported rk n (some rtlc) = other_value n (get rk rtlc)

abbrev other_counted : String → Option ℤ → Option (Dict Value) → Result Bool
other_counted column none rtlc = ok false
other_counted column (some n) rtlc = other_reported column n rtlc

-- The test of one pair of counters, which have the same name on both sides.
unfoldable pub counter_differs : String → Stats → Option (Dict Value) → Result Bool
counter_differs column stats rtlc = other_counted column (get column stats) rtlc

-- `expected_pairs`
abbrev pub counters : List String
counters =
    "icache_accesses" ∷ "icache_hits" ∷ "icache_misses" ∷ "dcache_accesses" ∷ "dcache_hits"
    ∷ "dcache_misses" ∷ "dcache_writebacks" ∷ []

-- The loop over the pairs: `same` of the counters from here on.
unfoldable pub same_counters : List String → Stats → Option (Dict Value) → Result Bool
same_counters [] stats rtlc = ok true
same_counters (column ∷ columns) stats rtlc = do
  d ← counter_differs column stats rtlc
  same ← same_counters columns stats rtlc
  ok (not d && same)

pub record CaseRow : Type 0 where
  pub case : Case
  pub parsed : Stats
  pub arch : Status
  pub timing : Status
  pub cache_stats : Status
  pub rtl_cycles : ℤ
  pub cycle_error : Ratio

abbrev pub waiting : Case → Stats → CaseRow
waiting case parsed = record {
  case = case;
  parsed = parsed;
  arch = wait;
  timing = wait;
  cache_stats = wait;
  rtl_cycles = pos 0;
  cycle_error = zero_ratio;
}

-- The row of a case, from what was read.
abbrev pub judged : Case → Stats → Bool → ℤ → Bool → CaseRow
judged case parsed equal rtl_cycles same =
    let model_cycles = stat_or_zero "cycles" parsed in
    record {
      case = case;
      parsed = parsed;
      arch = status equal;
      timing =
          if str_eq case.mode "validate" then status (model_cycles ==ℤ rtl_cycles) else measure;
      cache_stats = if same then pass else if str_eq case.mode "measure" then measure else fail;
      rtl_cycles = rtl_cycles;
      cycle_error = cycle_error model_cycles rtl_cycles;
    }

abbrev pub model_trace_of : Case → String
model_trace_of case = csv_path "results/milestone3/model_" case.name

abbrev pub rtl_trace_of : Case → String
rtl_trace_of case = csv_path "results/milestone3/rtl_" case.name

abbrev pub rtl_stats_of : Case → String
rtl_stats_of case = csv_path "results/milestone3/cache_" case.name

abbrev pub case_command : String → Case → List String
case_command exe case = exe ∷ case.program ∷ "--trace" ∷ model_trace_of case ∷ case.args

-- The branch under `if args.require_rtl`, once the files are known to be there.
unfoldable pub correlate : Host → Case → Stats → Result CaseRow
correlate host case parsed = do
  mr ← read_trace host.files (model_trace_of case)
  rr ← read_trace host.files (rtl_trace_of case)
  equal ← arch_equal mr rr
  rtl_cycles ← last_cycle rr
  rtlc ← read_cache_stats host (rtl_stats_of case)
  same ← same_counters counters parsed rtlc
  ok (judged case parsed equal rtl_cycles same)

-- The body of the loop over `CASES`.
unfoldable pub run_case : Host → Bool → String → Case → Result CaseRow
run_case host require_rtl exe case = do
  out ← run_capture host (case_command exe case)
  if require_rtl
      then (if not (host.exists (rtl_trace_of case)) || not (host.exists (rtl_stats_of case))
          then err (runtime_error "Missing RTL result(s)")
          else correlate host case (parse_stats out))
      else ok (waiting case (parse_stats out))

-- What main returns, with the rows of its summary.
pub record Outcome : Type 0 where
  pub exit_code : ℤ
  pub rows : List CaseRow

unfoldable pub main : Host → Flags → Result Outcome
main host flags = do
  check_call host configure
  check_call host build
  exe ← executable_path host
  rows ← traverse (run_case host flags.require_rtl exe) cases
  ok (record { exit_code = pos 0; rows = rows })
