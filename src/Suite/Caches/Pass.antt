-- ===== src/Suite/Caches/Pass.antt =====
-- What PASS in every row of the summary of milestone 3 says.
use rv32im_so_c_performance.Base.{
  ◌≡◌, sym, ap, ◌∙◌, inl, inr, String, Bool, true, false, not, ◌&&◌, ◌||◌, List, [], ◌∷◌, Option,
  some, ok, ◌>>=◌, >>=-eq-ok, Bool-cases, All, all_of, traverse, traverse-All, arith,
}
use rv32im_so_c_performance.Base.Int.{ℤ, pos, ◌==ℤ◌, ==ℤ_iff}
use rv32im_so_c_performance.Base.Dict.{Dict, get}
use rv32im_so_c_performance.PyText.{Text}
use rv32im_so_c_performance.Trace.{Row}
use rv32im_so_c_performance.Stats.{Stats}
use rv32im_so_c_performance.Suite.{Host, configure, build, executable_path, run_capture, check_call}
use rv32im_so_c_performance.Suite.Reading.{read_trace, last_cycle, stat_or_zero}
use rv32im_so_c_performance.Suite.Jumps.{is_pass}
use rv32im_so_c_performance.Suite.Caches.{
  Case, CaseRow, Value, Outcome, cases, parse_stats, arch_equal, read_cache_stats, int_value,
  counter_differs, counters, same_counters, judged, model_trace_of, rtl_trace_of, rtl_stats_of,
  case_command, correlate, run_case, main,
}

-- A counter that the model printed and the RTL reported has the same number on both sides.
pub record Agrees (parsed : Stats) (reported : Option (Dict Value)) (column : String) : Type 0 where
  pub values :
      (n : ℤ) (table : Dict Value) (v : Value)
      → get column parsed ≡ some n
      → reported ≡ some table
      → get column table ≡ some v
      → int_value v ≡ ok n

-- Both traces commit the same, the model's cycles are the RTL's last cycle, and the cache counters that
-- both sides have are equal.
pub record Correlated (host : Host) (case : Case) (parsed : Stats) : Type 0 where
  pub model : List Row
  pub model_read : read_trace host.files (model_trace_of case) ≡ ok model
  pub rtl : List Row
  pub rtl_read : read_trace host.files (rtl_trace_of case) ≡ ok rtl
  pub equal : arch_equal model rtl ≡ ok true
  pub cycles : last_cycle rtl ≡ ok (stat_or_zero "cycles" parsed)
  pub reported : Option (Dict Value)
  pub reported_read : read_cache_stats host (rtl_stats_of case) ≡ ok reported
  pub agree : All (Agrees parsed reported) counters

-- The model ran on the case, and its statistics and trace correlate with the RTL's files.
pub record Validated (host : Host) (exe : String) (case : Case) : Type 0 where
  pub out : Text
  pub ran : run_capture host (case_command exe case) ≡ ok out
  pub correlated : Correlated host case (parse_stats out)

abbrev pub row_pass : CaseRow → Bool
row_pass r = is_pass r.arch && is_pass r.timing && is_pass r.cache_stats

counter_differs-Agrees :
    (column : String) (parsed : Stats) (reported : Option (Dict Value))
    → counter_differs column parsed reported ≡ ok false
    → Agrees parsed reported column
unfolding counter_differs
counter_differs-Agrees column parsed reported h = record {
  values = λ n table v printed there found. agree n v (rw (printed, there, found) at h);
}
  where
    agree :
        (n : ℤ) (v : Value)
        → int_value v >>= (λ x. ok (not (n ==ℤ x))) ≡ ok false
        → int_value v ≡ ok n
    agree n v e =
        let (x, read, same) = >>=-eq-ok (int_value v) _ e in
        let equal : (n ==ℤ x) ≡ true = ground arith in read ∙ ap ok (sym ((==ℤ_iff n x).0 equal))

same_counters-Agrees :
    (columns : List String) (parsed : Stats) (reported : Option (Dict Value))
    → same_counters columns parsed reported ≡ ok true
    → All (Agrees parsed reported) columns
unfolding same_counters
same_counters-Agrees [] parsed reported h = tt
same_counters-Agrees (column ∷ columns) parsed reported h =
    let (d, first, h1) = >>=-eq-ok (counter_differs column parsed reported) _ h in
    let (same, rest, h2) = >>=-eq-ok (same_counters columns parsed reported) _ h1 in
    let (equal, others) = both d same h2 in
    (
      counter_differs-Agrees column parsed reported (first ∙ ap ok equal),
      same_counters-Agrees columns parsed reported (rest ∙ ap ok others),
    )
  where
    both : (d same : Bool) → ok (not d && same) ≡ ok true → (d ≡ false) × (same ≡ true)
    both d same e = ground arith

correlate-Correlated :
    (host : Host) (case : Case) (parsed : Stats) (row : CaseRow)
    → correlate host case parsed ≡ ok row
    → row_pass row ≡ true
    → Correlated host case parsed
unfolding correlate
correlate-Correlated host case parsed row h p =
    let (mr, model_read, h1) = >>=-eq-ok (read_trace host.files (model_trace_of case)) _ h in
    let (rr, rtl_read, h2) = >>=-eq-ok (read_trace host.files (rtl_trace_of case)) _ h1 in
    let (equal, compared, h3) = >>=-eq-ok (arch_equal mr rr) _ h2 in
    let (rtl_cycles, last, h4) = >>=-eq-ok (last_cycle rr) _ h3 in
    let (rtlc, reported_read, h5) = >>=-eq-ok (read_cache_stats host (rtl_stats_of case)) _ h4 in
    let (same, counted, h6) = >>=-eq-ok (same_counters counters parsed rtlc) _ h5 in
    let (arch, timing, stats) = passed equal rtl_cycles same h6 in
    record {
      model = mr;
      model_read = model_read;
      rtl = rr;
      rtl_read = rtl_read;
      equal = compared ∙ ap ok arch;
      cycles = last ∙ ap ok (sym ((==ℤ_iff (stat_or_zero "cycles" parsed) rtl_cycles).0 timing));
      reported = rtlc;
      reported_read = reported_read;
      agree = same_counters-Agrees counters parsed rtlc (counted ∙ ap ok stats);
    }
  where
    passed :
        (equal : Bool) (rtl_cycles : ℤ) (same : Bool)
        → ok (judged case parsed equal rtl_cycles same) ≡ ok row
        → (equal ≡ true) × ((stat_or_zero "cycles" parsed ==ℤ rtl_cycles) ≡ true) × (same ≡ true)
    passed equal rtl_cycles same e = ground arith

run_case-Validated :
    (host : Host) (exe : String) (case : Case) (row : CaseRow)
    → run_case host true exe case ≡ ok row
    → row_pass row ≡ true
    → Validated host exe case
unfolding run_case
run_case-Validated host exe case row h p =
    let (out, ran, rest) = >>=-eq-ok (run_capture host (case_command exe case)) _ h in
    elim (Bool-cases
      (not (host.exists (rtl_trace_of case)) || not (host.exists (rtl_stats_of case)))) [
        | inl missing ↦ absurd (ground (arith, missing, rest))
        | inr there ↦ record {
          out = out;
          ran = ran;
          correlated = correlate-Correlated host case (parse_stats out) row (rw there at rest) p;
        }
      ]

-- If milestone 3, run with `--require-rtl`, returns and every row of its summary says PASS three times,
-- then for each of the four cases the model ran, its trace commits what the RTL's does, its cycles are
-- the RTL's last cycle, and each cache counter that both sides have is the same number.
pub main-Cached :
    (host : Host) (o : Outcome)
    → main host (record { model_only = false; require_rtl = true }) ≡ ok o
    → all_of row_pass o.rows ≡ true
    → (exe : String) × (executable_path host ≡ ok exe) × All (Validated host exe) cases
unfolding main
main-Cached host o h p =
    let (_, _, h1) = >>=-eq-ok (check_call host configure) _ h in
    let (_, _, h2) = >>=-eq-ok (check_call host build) _ h1 in
    let (exe, found, h3) = >>=-eq-ok (executable_path host) _ h2 in
    let (rows, ran, h4) = >>=-eq-ok (traverse (run_case host true exe) cases) _ h3 in
    (
      exe,
      found,
      traverse-All (run_case host true exe) row_pass (Validated host exe) cases rows ran
          (reported rows h4) (run_case-Validated host exe),
    )
  where
    reported :
        (rows : List CaseRow)
        → ok (record { exit_code = pos 0; rows = rows }) ≡ ok o
        → all_of row_pass rows ≡ true
    reported rows e = ground arith
