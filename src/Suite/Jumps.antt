-- ===== src/Suite/Jumps.antt =====
-- scripts/run_milestone3d.py: the directed JAL and JALR workloads on the I-cache model.
pub mod Pass
use Prim.Native.String.{◌++◌ as join}
use rv32im_so_c_performance.Base.{
  ℕ, String, Bool, true, false, not, ◌&&◌, ◌||◌, Option, none, some, List, [], ◌∷◌, if◌then◌else◌,
  runtime_error, Result, ok, err, ◌>>=◌, ◌>>◌, all_of,
}
use rv32im_so_c_performance.Base.Int.{ℤ, pos, ◌==ℤ◌}
use rv32im_so_c_performance.PyText.{Text}
use rv32im_so_c_performance.Trace.{Row}
use rv32im_so_c_performance.ArchCompare.{Note, arch_equal}
use rv32im_so_c_performance.Stats.{Stats, parse_with}
use rv32im_so_c_performance.Stats.Keys.{milestone3d_keys}
use rv32im_so_c_performance.Suite.{
  Host, Status, pass, fail, wait, measure, status, Flags, configure, build, executable_path,
  run_capture, check_call, Ratio, zero_ratio, csv_path,
}
use rv32im_so_c_performance.Suite.Branches.{Case, Counters, read_counters, same_counters}
use rv32im_so_c_performance.Suite.Reading.{
  read_trace, read_one_csv, int_or_zero, last_cycle, stat, stat_or_zero, error_if_run,
}

abbrev pub cases : List Case
cases =
    record {
      name = "jal_forward_link";
      mode = "validate";
      purpose = "forward JAL with link-register write";
    }
    ∷ record {
      name = "jal_backward_loop";
      mode = "validate";
      purpose = "backward JAL x0 redirect plus calibrated branch exit";
    }
    ∷ record {
      name = "jalr_forward";
      mode = "validate";
      purpose = "register-indirect forward JALR redirect";
    }
    ∷ record {
      name = "call_return";
      mode = "validate";
      purpose = "JAL call + JALR return + JAL exit sequence";
    }
    ∷ []

unfoldable pub parse_stats : Text → Stats
parse_stats = parse_with milestone3d_keys

pub record CaseRow : Type 0 where
  pub case : Case
  pub parsed : Stats
  pub arch : Status
  pub timing : Status
  pub stats : Status
  pub rtl_cycles : ℤ
  pub cycle_error : Ratio
  pub counters : Counters

abbrev pub waiting : Case → Stats → CaseRow
waiting case parsed = record {
  case = case;
  parsed = parsed;
  arch = wait;
  timing = wait;
  stats = wait;
  rtl_cycles = pos 0;
  cycle_error = zero_ratio;
  counters = record { rtl_i_access = pos 0; rtl_i_hits = pos 0; rtl_i_misses = pos 0 };
}

-- The row of a case, from what was read.
abbrev pub judged : Case → Stats → Bool × Note → ℤ → ℤ → Counters → Ratio → CaseRow
judged case parsed verdict cycles rtl_cycles counters error = record {
  case = case;
  parsed = parsed;
  arch = status verdict.0;
  timing = status (cycles ==ℤ rtl_cycles);
  stats = status (same_counters parsed counters);
  rtl_cycles = rtl_cycles;
  cycle_error = error;
  counters = counters;
}

-- The branch under `if args.require_rtl`, once the files are known to be there.
unfoldable pub correlate : Host → Case → Stats → String → String → String → Result CaseRow
correlate host case parsed model_trace rtl_trace rtl_stats = do
  mr ← read_trace host.files model_trace
  rr ← read_trace host.files rtl_trace
  verdict ← arch_equal mr rr
  rtl_cycles ← last_cycle rr
  error ← error_if_run rtl_cycles parsed
  rs ← read_one_csv host.files rtl_stats
  counters ← read_counters rs
  cycles ← stat "cycles" parsed
  ok (judged case parsed verdict cycles rtl_cycles counters error)

abbrev pub command : String → String → String → List String
command exe prog model_trace =
    exe ∷ prog ∷ "--trace" ∷ model_trace ∷ "--enable-icache" ∷ "--icache-lines" ∷ "4"
    ∷ "--memory-latency" ∷ "3" ∷ []

abbrev pub model_trace_of : Case → String
model_trace_of case = csv_path "results/milestone3d/model_" case.name

abbrev pub rtl_trace_of : Case → String
rtl_trace_of case = csv_path "results/milestone3d/rtl_" case.name

abbrev pub rtl_stats_of : Case → String
rtl_stats_of case = csv_path "results/milestone3d/cache_" case.name

abbrev pub case_command : String → Case → List String
case_command exe case =
    command exe (join "workloads/milestone3d/" (join case.name ".hex")) (model_trace_of case)

-- The body of the loop over `CASES`.
unfoldable pub run_case : Host → Bool → String → Case → Result CaseRow
run_case host require_rtl exe case = do
  out ← run_capture host (case_command exe case)
  if require_rtl
      then (if not (host.exists (rtl_trace_of case)) || not (host.exists (rtl_stats_of case))
          then err (runtime_error "Missing RTL results")
          else correlate host case (parse_stats out) (model_trace_of case) (rtl_trace_of case)
              (rtl_stats_of case))
      else ok (waiting case (parse_stats out))

unfoldable pub run_cases : Host → Bool → String → List Case → Result (List CaseRow)
run_cases host require_rtl exe [] = ok []
run_cases host require_rtl exe (c ∷ cs) = do
  row ← run_case host require_rtl exe c
  rows ← run_cases host require_rtl exe cs
  ok (row ∷ rows)

abbrev pub is_pass : Status → Bool
is_pass pass = true
is_pass _ = false

-- `all(r['arch'] == 'PASS' and r['timing'] == 'PASS' and r['stats'] == 'PASS' for r in rows)`
unfoldable pub all_pass : List CaseRow → Bool
all_pass rows = all_of (λ r. is_pass r.arch && is_pass r.timing && is_pass r.stats) rows

-- `result` is what the closing line says, which is not printed with `--model-only`.
pub record Outcome : Type 0 where
  pub exit_code : ℤ
  pub rows : List CaseRow
  pub result : Option Bool

-- Neither flag means `--model-only`.
abbrev pub model_only : Flags → Bool
model_only flags = flags.model_only || not flags.require_rtl

abbrev pub outcome : Flags → List CaseRow → Outcome
outcome flags rows = record {
  exit_code = pos 0;
  rows = rows;
  result = if model_only flags then none else some (all_pass rows);
}

unfoldable pub main : Host → Flags → Result Outcome
main host flags = do
  check_call host configure
  check_call host build
  exe ← executable_path host
  rows ← run_cases host flags.require_rtl exe cases
  ok (outcome flags rows)
