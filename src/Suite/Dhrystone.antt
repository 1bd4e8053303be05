-- ===== src/Suite/Dhrystone.antt =====
-- scripts/run_milestone4.py: the Dhrystone workload, its signature, and its gate against the RTL. The
-- model's reference summary and the summary CSV are written and not read again, and are left out.
pub mod Gate
use rv32im_so_c_performance.Base.{
  ℕ, suc, String, Bool, true, false, not, ◌&&◌, ◌||◌, Option, none, some, List, [], ◌∷◌, ◌++◌,
  length, ◌==◌, if◌then◌else◌, any_of, runtime_error, Result, ok, err, ◌>>=◌, ◌>>◌, traverse,
}
use rv32im_so_c_performance.Base.Int.{ℤ, pos, ◌==ℤ◌, ◌-ℤ◌}
use rv32im_so_c_performance.Base.Dict.{Dict, get}
use rv32im_so_c_performance.PyText.{Text}
use rv32im_so_c_performance.Trace.{Row, cell}
use rv32im_so_c_performance.ArchCompare.{Note, arch_compare_stream}
use rv32im_so_c_performance.Stats.{Stats}
use rv32im_so_c_performance.Stats.Signature.{parse_stats}
use rv32im_so_c_performance.Suite.{
  Host, Status, pass, fail, wait, measure, status, Flags, configure, build, executable_path,
  run_capture, check_call, Ratio, cycle_error,
}
use rv32im_so_c_performance.Suite.Reading.{read_trace, read_one_csv, int_cell, int_or_zero, stat}
use rv32im_so_c_performance.Suite.Jumps.{is_pass, model_only}
use rv32im_so_c_performance.Suite.Caches.{Value, values_of}
use rv32im_so_c_performance.Suite.Bottleneck.{Report, bottleneck_report}

abbrev pub expected_x5 : ℤ
expected_x5 = pos 0x003fffff

-- The cycles of `HISTORICAL_RTL`; its counters are only printed.
abbrev pub historical_cycles : ℤ
historical_cycles = pos 1365926

abbrev pub model_trace : String
model_trace = "results/milestone4/model_dhrystone.csv"

abbrev pub rtl_trace : String
rtl_trace = "results/milestone4/rtl_dhrystone.csv"

abbrev pub rtl_stats : String
rtl_stats = "results/milestone4/cache_dhrystone.csv"

abbrev pub rtl_events : String
rtl_events = "results/milestone4/events_dhrystone.csv"

abbrev pub command : String → List String
command exe =
    exe ∷ "workloads/milestone4/dhrystone_imem.hex" ∷ "--dmem-hex"
    ∷ "workloads/milestone4/dhrystone_dmem.hex" ∷ "--trace" ∷ model_trace ∷ "--enable-caches"
    ∷ "--icache-lines" ∷ "64" ∷ "--dcache-lines" ∷ "64" ∷ "--memory-latency" ∷ "3" ∷ "--max-insns"
    ∷ "1000000" ∷ "--dump-regs" ∷ []

-- `stats.get('x5') != EXPECTED_X5`, the other way round
abbrev pub signed_by : Option ℤ → Bool
signed_by none = false
signed_by (some x5) = x5 ==ℤ expected_x5

unfoldable pub has_signature : Stats → Bool
unfolding ◌==ℤ◌
has_signature stats = signed_by (get "x5" stats)

-- `read_last_cycle`: the cycle of the last row, each of which is read, and the number of rows
unfoldable pub read_cycles : ℤ → ℕ → List Row → Result (ℤ × ℕ)
read_cycles last rows [] = ok (last, rows)
read_cycles last rows (r ∷ rs) = do
  c ← cell "cycle" r
  cycle ← int_cell c
  read_cycles cycle (suc rows) rs

abbrev pub counters : List String
counters =
    "icache_accesses" ∷ "icache_hits" ∷ "icache_misses" ∷ "dcache_accesses" ∷ "dcache_hits"
    ∷ "dcache_misses" ∷ "dcache_writebacks" ∷ []

abbrev pub reported_counter : Row → String → Result (String × ℤ)
reported_counter rs column = do n ← int_or_zero column rs; ok (column, n)

-- The chain of `and`: a counter is looked up only if those before it are equal.
unfoldable pub same_counters : List (String × ℤ) → Stats → Result Bool
same_counters [] stats = ok true
same_counters ((column, reported) ∷ rest) stats =
    let others = same_counters rest stats in
    do n ← stat column stats; if n ==ℤ reported then others else ok false

-- What the RTL's files say of the run.
pub record Rtl : Type 0 where
  pub equal : Bool
  pub note : Note
  pub cycles : ℤ
  pub retired : ℕ
  pub reported : List (String × ℤ)
  pub events : Dict Value
  pub same_cycles : Bool
  pub same_counters : Bool

abbrev pub judged : Bool × Note → ℤ × ℕ → List (String × ℤ) → Row → ℤ → Bool → Rtl
judged verdict last reported ev cycles same = record {
  equal = verdict.0;
  note = verdict.1;
  cycles = last.0;
  retired = last.1;
  reported = reported;
  events = values_of ev;
  same_cycles = cycles ==ℤ last.0;
  same_counters = same;
}

-- The branch under `if args.require_rtl`, once the files are known to be there.
unfoldable pub correlate : Host → Stats → Result Rtl
correlate host stats = do
  mr ← read_trace host.files model_trace
  rr ← read_trace host.files rtl_trace
  verdict ← arch_compare_stream mr rr
  last ← read_cycles (pos 0) 0 rr
  rs ← read_one_csv host.files rtl_stats
  ev ← read_one_csv host.files rtl_events
  reported ← traverse (reported_counter rs) counters
  cycles ← stat "cycles" stats
  same ← same_counters reported stats
  ok (judged verdict last reported ev cycles same)

-- The statistics that the banner prints: a missing one is a KeyError.
abbrev pub printed : List String
printed =
    "retired" ∷ "icache_misses" ∷ "dcache_misses" ∷ "dcache_writebacks" ∷ "icache_accesses"
    ∷ "dcache_accesses" ∷ []

pub record Outcome : Type 0 where
  pub exit_code : ℤ
  pub stats : Stats
  pub historical_error : Ratio
  pub arch : Status
  pub timing : Status
  pub cache : Status
  pub rtl : Option Rtl
  pub report : Report
  -- what the closing line says, where it is a result
  pub result : Option Bool

abbrev measured : Bool → Status
measured b = if b then pass else measure

abbrev arch_of : Option Rtl → Status
arch_of none = wait
arch_of (some r) = status r.equal

abbrev timing_of : Option Rtl → Status
timing_of none = measure
timing_of (some r) = measured r.same_cycles

abbrev cache_of : Option Rtl → Status
cache_of none = measure
cache_of (some r) = measured r.same_counters

abbrev pub conclude : Flags → Stats → Ratio → Option Rtl → Report → Outcome
conclude flags stats historical_error rtl report = record {
  exit_code = pos 0;
  stats = stats;
  historical_error = historical_error;
  arch = arch_of rtl;
  timing = timing_of rtl;
  cache = cache_of rtl;
  rtl = rtl;
  report = report;
  result =
      if model_only flags
      then none
      else some (is_pass (arch_of rtl) && is_pass (timing_of rtl) && is_pass (cache_of rtl));
}

abbrev pub missing : Host → Bool
missing host = any_of (λ path. not (host.exists path)) (rtl_trace ∷ rtl_stats ∷ rtl_events ∷ [])

unfoldable pub read_rtl : Host → Flags → Stats → Result (Option Rtl)
read_rtl host flags stats =
    if not flags.require_rtl
    then ok none
    else if missing host
    then err (runtime_error "Missing fresh VCS result")
    else do rtl ← correlate host stats; ok (some rtl)

-- main, after the check of the signature.
unfoldable pub finish : Host → Flags → Stats → Result Outcome
finish host flags stats = do
  cycles ← stat "cycles" stats
  values ← traverse (λ column. stat column stats) printed
  rtl ← read_rtl host flags stats
  report ← bottleneck_report stats
  ok (conclude flags stats (cycle_error cycles historical_cycles) rtl report)

unfoldable pub main : Host → Flags → Result Outcome
main host flags = do
  check_call host configure
  check_call host build
  exe ← executable_path host
  out ← run_capture host (command exe)
  if has_signature (parse_stats out)
      then finish host flags (parse_stats out)
      else err (runtime_error "Dhrystone model signature failed")
