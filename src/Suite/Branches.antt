-- ===== src/Suite/Branches.antt =====
-- scripts/run_milestone3c.py: the directed branch workloads on the I-cache model.
use Prim.Native.String.{◌++◌ as join}
use rv32im_so_c_performance.Base.{
  String, Bool, not, ◌&&◌, ◌||◌, Option, none, some, List, [], ◌∷◌, if◌then◌else◌, runtime_error,
  Result, ok, err, ◌>>=◌, ◌>>◌,
}
use rv32im_so_c_performance.Base.Int.{ℤ, pos, ◌==ℤ◌}
use rv32im_so_c_performance.Base.Dict.{str_eq}
use rv32im_so_c_performance.PyText.{Text}
use rv32im_so_c_performance.Trace.{Row}
use rv32im_so_c_performance.ArchCompare.{arch_equal}
use rv32im_so_c_performance.Stats.{Stats, parse_with}
use rv32im_so_c_performance.Stats.Keys.{milestone3c_keys}
use rv32im_so_c_performance.Suite.{
  Host, Status, wait, measure, status, Flags, configure, build, executable_path, run_capture,
  check_call, Ratio, zero_ratio, csv_path,
}
use rv32im_so_c_performance.Suite.Reading.{
  read_trace, read_one_csv, int_or_zero, last_cycle, stat, stat_or_zero, error_if_run,
}

pub record Case : Type 0 where
  pub name : String
  pub mode : String
  pub purpose : String

abbrev pub cases : List Case
cases =
    record {
      name = "branch_not_taken";
      mode = "validate";
      purpose = "not-taken branch; sequential fetch control";
    }
    ∷ record {
      name = "branch_taken_forward";
      mode = "validate";
      purpose = "forward taken branch; two wrong-path fetches before redirect";
    }
    ∷ record {
      name = "branch_backward_loop";
      mode = "validate";
      purpose = "backward redirect into resident I-cache lines";
    }
    ∷ record {
      name = "branch_conflict_loop";
      mode = "validate";
      purpose = "backward redirect with 5-line loop on 4-line I-cache";
    }
    ∷ []

unfoldable pub parse_stats : Text → Stats
parse_stats = parse_with milestone3c_keys

-- The counters of the RTL, where they were read.
pub record Counters : Type 0 where
  pub rtl_i_access : ℤ
  pub rtl_i_hits : ℤ
  pub rtl_i_misses : ℤ

pub record CaseRow : Type 0 where
  pub case : Case
  pub parsed : Stats
  pub arch : Status
  pub timing : Status
  pub stats : Status
  pub rtl_cycles : ℤ
  pub cycle_error : Ratio
  pub counters : Option Counters

abbrev pub waiting : Case → Stats → CaseRow
waiting case parsed = record {
  case = case;
  parsed = parsed;
  arch = wait;
  timing = wait;
  stats = wait;
  rtl_cycles = pos 0;
  cycle_error = zero_ratio;
  counters = none;
}

unfoldable pub read_counters : Row → Result Counters
read_counters rs = do
  access ← int_or_zero "icache_accesses" rs
  hits ← int_or_zero "icache_hits" rs
  misses ← int_or_zero "icache_misses" rs
  ok (record { rtl_i_access = access; rtl_i_hits = hits; rtl_i_misses = misses })

-- The local `same`.
unfoldable pub same_counters : Stats → Counters → Bool
same_counters parsed c =
    stat_or_zero "icache_accesses" parsed ==ℤ c.rtl_i_access
    && stat_or_zero "icache_hits" parsed ==ℤ c.rtl_i_hits
    && stat_or_zero "icache_misses" parsed ==ℤ c.rtl_i_misses

-- The branch under `if args.require_rtl`, once the files are known to be there.
unfoldable pub correlate : Host → Case → Stats → String → String → String → Result CaseRow
correlate host case parsed model_trace rtl_trace rtl_stats = do
  mr ← read_trace host.files model_trace
  rr ← read_trace host.files rtl_trace
  verdict ← arch_equal mr rr
  rtl_cycles ← last_cycle rr
  error ← error_if_run rtl_cycles parsed
  rs ← read_one_csv host.files rtl_stats
  counters ← read_counters rs
  if str_eq case.mode "validate"
      then (do
        cycles ← stat "cycles" parsed
        ok (record {
          case = case;
          parsed = parsed;
          arch = status verdict.0;
          timing = status (cycles ==ℤ rtl_cycles);
          stats = status (same_counters parsed counters);
          rtl_cycles = rtl_cycles;
          cycle_error = error;
          counters = some counters;
        }))
      else ok (record {
        case = case;
        parsed = parsed;
        arch = status verdict.0;
        timing = measure;
        stats = measure;
        rtl_cycles = rtl_cycles;
        cycle_error = error;
        counters = some counters;
      })

abbrev pub command : String → String → String → List String
command exe prog model_trace =
    exe ∷ prog ∷ "--trace" ∷ model_trace ∷ "--enable-icache" ∷ "--icache-lines" ∷ "4"
    ∷ "--memory-latency" ∷ "3" ∷ []

abbrev pub model_trace_of : Case → String
model_trace_of case = csv_path "results/milestone3c/model_" case.name

abbrev pub rtl_trace_of : Case → String
rtl_trace_of case = csv_path "results/milestone3c/rtl_" case.name

abbrev pub rtl_stats_of : Case → String
rtl_stats_of case = csv_path "results/milestone3c/cache_" case.name

-- The body of the loop over `CASES`.
unfoldable pub run_case : Host → Bool → String → Case → Result CaseRow
run_case host require_rtl exe case = do
  out ←
      run_capture host
        (command exe (join "workloads/milestone3c/" (join case.name ".hex")) (model_trace_of case))
  if require_rtl
      then (if not (host.exists (rtl_trace_of case)) || not (host.exists (rtl_stats_of case))
          then err (runtime_error "Missing RTL results")
          else correlate host case (parse_stats out) (model_trace_of case) (rtl_trace_of case)
              (rtl_stats_of case))
      else ok (waiting case (parse_stats out))

unfoldable pub run_cases : Host → Bool → String → List Case → Result (List CaseRow)
run_cases host require_rtl exe [] = ok []
run_cases host require_rtl exe (c ∷ cs) = do
  row ← run_case host require_rtl exe c
  rows ← run_cases host require_rtl exe cs
  ok (row ∷ rows)

pub record Outcome : Type 0 where
  pub exit_code : ℤ
  pub rows : List CaseRow

-- `--model-only` only chooses the closing message, which is left out.
unfoldable pub main : Host → Flags → Result Outcome
main host flags = do
  check_call host configure
  check_call host build
  exe ← executable_path host
  rows ← run_cases host flags.require_rtl exe cases
  ok (record { exit_code = pos 0; rows = rows })
