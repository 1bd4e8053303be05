-- ===== src/Suite/Dhrystone/Gate.antt =====
-- What "RESULT: PASS" of the Dhrystone milestone says, and what a wrong signature does.
use rv32im_so_c_performance.Base.{
  ℕ, ◌≡◌, sym, subst, ap, ◌∙◌, inl, inr, String, Bool, true, false, ◌&&◌, List, [], ◌∷◌, Option,
  some, none, ok, Result, >>=-eq-ok, Bool-cases, All, length, traverse, arith, if◌then◌else◌,
}
use rv32im_so_c_performance.Base.Int.{ℤ, pos, ◌==ℤ◌, ==ℤ_iff}
use rv32im_so_c_performance.Base.Dict.{get}
use rv32im_so_c_performance.PyText.{Text}
use rv32im_so_c_performance.Trace.{Row}
use rv32im_so_c_performance.ArchCompare.{Note, arch_compare_stream}
use rv32im_so_c_performance.ArchCompare.Streams.{stream-lengths}
use rv32im_so_c_performance.Stats.{Stats}
use rv32im_so_c_performance.Stats.Signature.{parse_stats}
use rv32im_so_c_performance.Suite.{
  Host, Flags, configure, build, executable_path, run_capture, check_call, cycle_error,
}
use rv32im_so_c_performance.Suite.Bottleneck.{Report, bottleneck_report}
use rv32im_so_c_performance.Suite.Reading.{read_trace, read_one_csv, int_or_zero, stat}
use rv32im_so_c_performance.Suite.Dhrystone.{
  Outcome, Rtl, judged, model_trace, rtl_trace, rtl_stats, rtl_events, counters, expected_x5,
  has_signature, read_cycles, reported_counter, same_counters, correlate, read_rtl, conclude,
  command, finish, main, printed, missing, historical_cycles, signed_by,
}

-- A counter has the same number in the model's statistics and in the RTL's row.
pub record Agrees (stats : Stats) (rs : Row) (column : String) : Type 0 where
  pub number : ℤ
  pub counted : stat column stats ≡ ok number
  pub reported : int_or_zero column rs ≡ ok number

-- The traces commit the same, the cycles are the RTL's last cycle, and the seven counters are equal.
pub record Correlated (host : Host) (stats : Stats) : Type 0 where
  pub model : List Row
  pub model_read : read_trace host.files model_trace ≡ ok model
  pub rtl : List Row
  pub rtl_read : read_trace host.files rtl_trace ≡ ok rtl
  pub note : Note
  pub equal : arch_compare_stream model rtl ≡ ok (true, note)
  pub cycles : ℤ
  pub retired : ℕ
  pub model_cycles : stat "cycles" stats ≡ ok cycles
  pub rtl_cycles : read_cycles (pos 0) 0 rtl ≡ ok (cycles, retired)
  pub rs : Row
  pub rs_read : read_one_csv host.files rtl_stats ≡ ok rs
  pub agree : All (Agrees stats rs) counters

same_counters-Agrees :
    (columns : List String) (reported : List (String × ℤ)) (stats : Stats) (rs : Row)
    → traverse (reported_counter rs) columns ≡ ok reported
    → same_counters reported stats ≡ ok true
    → All (Agrees stats rs) columns
unfolding traverse same_counters
same_counters-Agrees [] reported stats rs h k = tt
same_counters-Agrees (column ∷ columns) reported stats rs h k =
    let (pair, first, h1) = >>=-eq-ok (reported_counter rs column) _ h in
    let (rest, others, h2) = >>=-eq-ok (traverse (reported_counter rs) columns) _ h1 in
    let (m, read, h3) = >>=-eq-ok (int_or_zero column rs) _ first in
    let k1 = unpack m pair rest h3 h2 in
    let (n, counted, k2) = >>=-eq-ok (stat column stats) _ k1 in
    let (same, later) = both n m (same_counters rest stats) k2 in
    (
      record {
        number = n;
        counted = counted;
        reported = read ∙ ap ok (sym ((==ℤ_iff n m).0 same));
      },
      same_counters-Agrees columns rest stats rs others later,
    )
  where
    unpack :
        (m : ℤ) (pair : String × ℤ) (rest : List (String × ℤ))
        → ok (column, m) ≡ ok pair
        → ok (pair ∷ rest) ≡ ok reported
        → same_counters ((column, m) ∷ rest) stats ≡ ok true
    unpack m pair rest e f =
        let e1 : (column, m) ≡ pair = cc in
        let f1 : (column, m) ∷ rest ≡ reported = cc in
        subst (λ l. same_counters l stats ≡ ok true) (sym f1) k

    both :
        (n m : ℤ) (others : Result Bool)
        → (if n ==ℤ m then others else ok false) ≡ ok true
        → ((n ==ℤ m) ≡ true) × (others ≡ ok true)
    both n m others e = ground arith

and3 : (a b c : Bool) → a && b && c ≡ true → (a ≡ true) × (b ≡ true) × (c ≡ true)
and3 a b c h = ground arith

correlate-Correlated :
    (host : Host) (stats : Stats) (r : Rtl)
    → correlate host stats ≡ ok r
    → r.equal && r.same_cycles && r.same_counters ≡ true
    → Correlated host stats
unfolding correlate
correlate-Correlated host stats r h p =
    let (mr, model_read, h1) = >>=-eq-ok (read_trace host.files model_trace) _ h in
    let (rr, rtl_read, h2) = >>=-eq-ok (read_trace host.files rtl_trace) _ h1 in
    let (verdict, compared, h3) = >>=-eq-ok (arch_compare_stream mr rr) _ h2 in
    let (last, ended, h4) = >>=-eq-ok (read_cycles (pos 0) 0 rr) _ h3 in
    let (rs, rs_read, h5) = >>=-eq-ok (read_one_csv host.files rtl_stats) _ h4 in
    let (ev, _, h6) = >>=-eq-ok (read_one_csv host.files rtl_events) _ h5 in
    let (reported, reads, h7) = >>=-eq-ok (traverse (reported_counter rs) counters) _ h6 in
    let (cycles, model_cycles, h8) = >>=-eq-ok (stat "cycles" stats) _ h7 in
    let (same, counted, h9) = >>=-eq-ok (same_counters reported stats) _ h8 in
    let (equal, timing, cache) = passed verdict last reported ev cycles same h9 in
    record {
      model = mr;
      model_read = model_read;
      rtl = rr;
      rtl_read = rtl_read;
      note = verdict.1;
      equal = compared ∙ ap (λ b. ok (b, verdict.1)) equal;
      cycles = cycles;
      retired = last.1;
      model_cycles = model_cycles;
      rtl_cycles = ended ∙ ap (λ c. ok (c, last.1)) (sym ((==ℤ_iff cycles last.0).0 timing));
      rs = rs;
      rs_read = rs_read;
      agree = same_counters-Agrees counters reported stats rs reads (counted ∙ ap ok cache);
    }
  where
    passed :
        (verdict : Bool × Note) (last : ℤ × ℕ) (reported : List (String × ℤ)) (ev : Row)
        (cycles : ℤ) (same : Bool)
        → ok (judged verdict last reported ev cycles same) ≡ ok r
        → (verdict.0 ≡ true) × ((cycles ==ℤ last.0) ≡ true) × (same ≡ true)
    passed verdict last reported ev cycles same e =
        let row : judged verdict last reported ev cycles same ≡ r = cc in
        and3 verdict.0 (cycles ==ℤ last.0) same
          (ap (λ x. x.equal && x.same_cycles && x.same_counters) row ∙ p)

has_signature-x5 : (stats : Stats) → has_signature stats ≡ true → get "x5" stats ≡ some expected_x5
unfolding has_signature
has_signature-x5 stats h = signed (get "x5" stats) h
  where
    signed : (x5 : Option ℤ) → signed_by x5 ≡ true → x5 ≡ some expected_x5
    signed none e = cc
    signed (some n) e = ap some ((==ℤ_iff n expected_x5).0 e)

-- The run of the model, its signature, and the correlation with the RTL's files.
pub record Passed (host : Host) : Type 0 where
  pub exe : String
  pub found : executable_path host ≡ ok exe
  pub out : Text
  pub ran : run_capture host (command exe) ≡ ok out
  pub signature : get "x5" (parse_stats out) ≡ some expected_x5
  pub correlated : Correlated host (parse_stats out)
  pub same_length : length correlated.model ≡ length correlated.rtl

abbrev required : Flags
required = record { model_only = false; require_rtl = true }

read_rtl-correlate :
    (host : Host) (stats : Stats) (rtl : Option Rtl)
    → read_rtl host required stats ≡ ok rtl
    → (r : Rtl) × (correlate host stats ≡ ok r) × (rtl ≡ some r)
unfolding read_rtl
read_rtl-correlate host stats rtl h = elim (Bool-cases (missing host)) [
  | inl gone ↦ absurd (ground (arith, gone, h))
  | inr there ↦
      let (r, correlates, e) = >>=-eq-ok (correlate host stats) _ (rw (there) at h) in
      (r, correlates, cc)
]

finish-Correlated :
    (host : Host) (stats : Stats) (o : Outcome)
    → finish host required stats ≡ ok o
    → o.result ≡ some true
    → Correlated host stats
unfolding finish
finish-Correlated host stats o h p =
    let (cycles, _, h1) = >>=-eq-ok (stat "cycles" stats) _ h in
    let (values, _, h2) = >>=-eq-ok (traverse (λ column. stat column stats) printed) _ h1 in
    let (rtl, reads, h3) = >>=-eq-ok (read_rtl host required stats) _ h2 in
    let (report, _, h4) = >>=-eq-ok (bottleneck_report stats) _ h3 in
    let (r, correlates, there) = read_rtl-correlate host stats rtl reads in
    correlate-Correlated host stats r correlates (passed cycles rtl r report there h4)
  where
    passed :
        (cycles : ℤ) (rtl : Option Rtl) (r : Rtl) (report : Report)
        → rtl ≡ some r
        → ok (conclude required stats (cycle_error cycles historical_cycles) rtl report) ≡ ok o
        → r.equal && r.same_cycles && r.same_counters ≡ true
    passed cycles rtl r report there e = ground arith

-- If milestone 4, run with `--require-rtl`, closes with "RESULT: PASS", the model ran to the expected
-- signature in x5, both traces are equally long and commit the same, the model's cycles are the cycle
-- of the RTL's last row, and each of the seven cache counters is the same number on both sides.
pub main-Passed :
    (host : Host) (o : Outcome)
    → main host (record { model_only = false; require_rtl = true }) ≡ ok o
    → o.result ≡ some true
    → Passed host
unfolding main
main-Passed host o h p =
    let (_, _, h1) = >>=-eq-ok (check_call host configure) _ h in
    let (_, _, h2) = >>=-eq-ok (check_call host build) _ h1 in
    let (exe, found, h3) = >>=-eq-ok (executable_path host) _ h2 in
    let (out, ran, h4) = >>=-eq-ok (run_capture host (command exe)) _ h3 in
    elim (Bool-cases (has_signature (parse_stats out))) [
      | inl signed ↦
          let correlated = finish-Correlated host (parse_stats out) o (rw (signed) at h4) p in
          record {
            exe = exe;
            found = found;
            out = out;
            ran = ran;
            signature = has_signature-x5 (parse_stats out) signed;
            correlated = correlated;
            same_length =
                (stream-lengths correlated.model correlated.rtl correlated.note correlated.equal).0;
          }
      | inr unsigned ↦ absurd (ground (arith, unsigned, h4))
    ]
