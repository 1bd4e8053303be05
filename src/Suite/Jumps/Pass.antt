-- ===== src/Suite/Jumps/Pass.antt =====
-- What the closing line "RESULT: PASS" of milestone 3D says.
use rv32im_so_c_performance.Base.{
  ◌≡◌, sym, ap, ◌∙◌, inl, inr, String, Bool, true, false, not, ◌&&◌, ◌||◌, List, [], ◌∷◌, some, ok,
  >>=-eq-ok, Bool-cases, All, all_of, arith,
}
use rv32im_so_c_performance.Base.Int.{ℤ, ◌==ℤ◌, ==ℤ_iff}
use rv32im_so_c_performance.PyText.{Text}
use rv32im_so_c_performance.Trace.{Row}
use rv32im_so_c_performance.ArchCompare.{Note, arch_equal}
use rv32im_so_c_performance.Stats.{Stats}
use rv32im_so_c_performance.Suite.{
  Host, status, configure, build, executable_path, run_capture, check_call, Ratio,
}
use rv32im_so_c_performance.Suite.Reading.{
  read_trace, read_one_csv, last_cycle, stat, stat_or_zero, error_if_run,
}
use rv32im_so_c_performance.Suite.Branches.{Case, Counters, read_counters, same_counters}
use rv32im_so_c_performance.Suite.Jumps.{
  CaseRow, cases, parse_stats, judged, correlate, run_case, run_cases, is_pass, all_pass, Outcome,
  main, rtl_trace_of, rtl_stats_of, model_trace_of, outcome, case_command,
}

-- Both traces commit the same, the model's cycles are the RTL's last cycle, and the I-cache counters
-- of the statistics are those that the RTL reported.
pub record Correlated (host : Host) (case : Case) (parsed : Stats) : Type 0 where
  pub model : List Row
  pub model_read : read_trace host.files (model_trace_of case) ≡ ok model
  pub rtl : List Row
  pub rtl_read : read_trace host.files (rtl_trace_of case) ≡ ok rtl
  pub note : Note
  pub equal : arch_equal model rtl ≡ ok (true, note)
  pub cycles : ℤ
  pub model_cycles : stat "cycles" parsed ≡ ok cycles
  pub rtl_cycles : last_cycle rtl ≡ ok cycles
  pub reported : Row
  pub reported_read : read_one_csv host.files (rtl_stats_of case) ≡ ok reported
  pub counters : Counters
  pub counters_read : read_counters reported ≡ ok counters
  pub accesses : stat_or_zero "icache_accesses" parsed ≡ counters.rtl_i_access
  pub hits : stat_or_zero "icache_hits" parsed ≡ counters.rtl_i_hits
  pub misses : stat_or_zero "icache_misses" parsed ≡ counters.rtl_i_misses

abbrev pub row_pass : CaseRow → Bool
row_pass r = is_pass r.arch && is_pass r.timing && is_pass r.stats

same_counters-eq :
    (parsed : Stats) (c : Counters)
    → same_counters parsed c ≡ true
    → (stat_or_zero "icache_accesses" parsed ≡ c.rtl_i_access)
      × (stat_or_zero "icache_hits" parsed ≡ c.rtl_i_hits)
      × (stat_or_zero "icache_misses" parsed ≡ c.rtl_i_misses)
unfolding same_counters
same_counters-eq parsed c h = ground (
  arith,
  ==ℤ_iff (stat_or_zero "icache_accesses" parsed) c.rtl_i_access,
  ==ℤ_iff (stat_or_zero "icache_hits" parsed) c.rtl_i_hits,
  ==ℤ_iff (stat_or_zero "icache_misses" parsed) c.rtl_i_misses,
)

status-pass : (b : Bool) → is_pass (status b) ≡ true → b ≡ true
status-pass b h = ground arith

and3 : (a b c : Bool) → a && b && c ≡ true → (a ≡ true) × (b ≡ true) × (c ≡ true)
and3 a b c h = ground arith

pub correlate-Correlated :
    (host : Host) (case : Case) (parsed : Stats) (row : CaseRow)
    → correlate host case parsed (model_trace_of case) (rtl_trace_of case) (rtl_stats_of case)
      ≡ ok row
    → row_pass row ≡ true
    → Correlated host case parsed
unfolding correlate
correlate-Correlated host case parsed row h p =
    let (mr, model_read, h1) = >>=-eq-ok (read_trace host.files (model_trace_of case)) _ h in
    let (rr, rtl_read, h2) = >>=-eq-ok (read_trace host.files (rtl_trace_of case)) _ h1 in
    let (verdict, equal, h3) = >>=-eq-ok (arch_equal mr rr) _ h2 in
    let (rtl_cycles, last, h4) = >>=-eq-ok (last_cycle rr) _ h3 in
    let (error, _, h5) = >>=-eq-ok (error_if_run rtl_cycles parsed) _ h4 in
    let (rs, reported_read, h6) = >>=-eq-ok (read_one_csv host.files (rtl_stats_of case)) _ h5 in
    let (c, counters_read, h7) = >>=-eq-ok (read_counters rs) _ h6 in
    let (cycles, model_cycles, h8) = >>=-eq-ok (stat "cycles" parsed) _ h7 in
    let (arch, timing, stats) = passed verdict cycles rtl_cycles c error h8 in
    let (accesses, hits, misses) = same_counters-eq parsed c stats in
    record {
      model = mr;
      model_read = model_read;
      rtl = rr;
      rtl_read = rtl_read;
      note = verdict.1;
      equal = equal ∙ ap (λ b. ok (b, verdict.1)) arch;
      cycles = cycles;
      model_cycles = model_cycles;
      rtl_cycles = last ∙ ap ok (sym ((==ℤ_iff cycles rtl_cycles).0 timing));
      reported = rs;
      reported_read = reported_read;
      counters = c;
      counters_read = counters_read;
      accesses = accesses;
      hits = hits;
      misses = misses;
    }
  where
    passed :
        (verdict : Bool × Note) (cycles rtl_cycles : ℤ) (c : Counters) (error : Ratio)
        → ok (judged case parsed verdict cycles rtl_cycles c error) ≡ ok row
        → (verdict.0 ≡ true) × ((cycles ==ℤ rtl_cycles) ≡ true) × (same_counters parsed c ≡ true)
    passed verdict cycles rtl_cycles c error e = ground arith

-- The model ran on the case, and its statistics and trace correlate with the RTL's files.
pub record Validated (host : Host) (exe : String) (case : Case) : Type 0 where
  pub out : Text
  pub ran : run_capture host (case_command exe case) ≡ ok out
  pub correlated : Correlated host case (parse_stats out)

run_case-Validated :
    (host : Host) (exe : String) (case : Case) (row : CaseRow)
    → run_case host true exe case ≡ ok row
    → row_pass row ≡ true
    → Validated host exe case
unfolding run_case
run_case-Validated host exe case row h p =
    let (out, ran, rest) = >>=-eq-ok (run_capture host (case_command exe case)) _ h in
    elim (Bool-cases
      (not (host.exists (rtl_trace_of case)) || not (host.exists (rtl_stats_of case)))) [
        | inl missing ↦ absurd (ground (arith, missing, rest))
        | inr there ↦ record {
          out = out;
          ran = ran;
          correlated = correlate-Correlated host case (parse_stats out) row (rw there at rest) p;
        }
      ]

run_cases-Validated :
    (host : Host) (exe : String) (cs : List Case) (rows : List CaseRow)
    → run_cases host true exe cs ≡ ok rows
    → all_of row_pass rows ≡ true
    → All (Validated host exe) cs
unfolding run_cases
run_cases-Validated host exe [] rows h p = tt
run_cases-Validated host exe (c ∷ cs) rows h p =
    let (row, ran, rest) = >>=-eq-ok (run_case host true exe c) _ h in
    let (others, those, last) = >>=-eq-ok (run_cases host true exe cs) _ rest in
    let passing = split row others rows last p in
    (
      run_case-Validated host exe c row ran passing.0,
      run_cases-Validated host exe cs others those passing.1,
    )
  where
    split :
        (row : CaseRow) (others rows : List CaseRow)
        → ok (row ∷ others) ≡ ok rows
        → all_of row_pass rows ≡ true
        → (row_pass row ≡ true) × (all_of row_pass others ≡ true)
    split row others rows e p = ground arith

-- If milestone 3D, run with `--require-rtl`, reports PASS, every case was validated: the traces commit
-- the same, and the cycles and the I-cache counters are those of the RTL.
pub main-Validated :
    (host : Host) (o : Outcome)
    → main host (record { model_only = false; require_rtl = true }) ≡ ok o
    → o.result ≡ some true
    → (exe : String) × (executable_path host ≡ ok exe) × All (Validated host exe) cases
unfolding main all_pass
main-Validated host o h p =
    let (_, _, h1) = >>=-eq-ok (check_call host configure) _ h in
    let (_, _, h2) = >>=-eq-ok (check_call host build) _ h1 in
    let (exe, found, h3) = >>=-eq-ok (executable_path host) _ h2 in
    let (rows, ran, h4) = >>=-eq-ok (run_cases host true exe cases) _ h3 in
    (exe, found, run_cases-Validated host exe cases rows ran (reported rows h4))
  where
    reported :
        (rows : List CaseRow)
        → ok (outcome (record { model_only = false; require_rtl = true }) rows) ≡ ok o
        → all_of row_pass rows ≡ true
    reported rows e = ground arith
