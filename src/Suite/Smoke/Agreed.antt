-- ===== src/Suite/Smoke/Agreed.antt =====
-- What it says that the smoke correlation returns 0.
use rv32im_so_c_performance.Base.{
  ◌≡◌, refl, String, true, false, List, inl, inr, Bool-cases, Result, ok, err, >>=-eq-ok, arith,
}
use rv32im_so_c_performance.Base.Int.{ℤ, pos, truthy}
use rv32im_so_c_performance.Trace.{Retirement, load}
use rv32im_so_c_performance.CompareTraces
use rv32im_so_c_performance.CompareTraces.{Outcome, compare_traces}
use rv32im_so_c_performance.CompareTraces.Verdict.{Agree, compare_traces-exit_code}
use rv32im_so_c_performance.Suite.{Host, configure, build, find_exe, check_call}
use rv32im_so_c_performance.Suite.ControlFlow.{process}
use rv32im_so_c_performance.Suite.Smoke.{
  main, model_trace, rtl_trace, command, args, comparison_exit, check_script,
}

-- The model ran, and both traces were read and agree at every retirement, the cycles included.
pub record Agreed (host : Host) : Type 0 where
  pub exe : String
  pub found : find_exe host ≡ ok exe
  pub ran : check_call host (command exe) ≡ ok tt
  pub model : List Retirement
  pub model_read : load host.files model_trace ≡ ok model
  pub rtl : List Retirement
  pub rtl_read : load host.files rtl_trace ≡ ok rtl
  pub agree : Agree true model rtl

check_script-zero : (code : ℤ) → check_script code ≡ ok tt → truthy code ≡ false
check_script-zero code h = ground arith

-- A comparison that exits with 0 has returned an outcome.
process-outcome :
    (r : Result Outcome)
    → truthy (process (λ o. pos o.exit_code) r) ≡ false
    → (o : Outcome) × (r ≡ ok o) × (o.exit_code ≡ 0)
process-outcome (err e) h = cc
process-outcome (ok o) h = (o, refl, ground arith)

returned-zero : (o c : Outcome) → ok c ≡ ok o → o.exit_code ≡ 0 → c.exit_code ≡ 0
returned-zero o c same exited = cc

-- If the smoke correlation of milestone 2 returns 0, the model ran, and its trace and the RTL's have the
-- same length and agree at every retirement, the cycles included.
pub main-Agreed : (host : Host) → main host ≡ ok (pos 0) → Agreed host
unfolding main CompareTraces.main
main-Agreed host h = elim (Bool-cases (host.is_file rtl_trace)) [
  | inl there ↦
      let (_, _, h1) = >>=-eq-ok (check_call host configure) _ (rw (there) at h) in
      let (_, _, h2) = >>=-eq-ok (check_call host build) _ h1 in
      let (exe, found, h3) = >>=-eq-ok (find_exe host) _ h2 in
      let (_, ran, h4) = >>=-eq-ok (check_call host (command exe)) _ h3 in
      let (_, compared, _) = >>=-eq-ok (check_script (comparison_exit host)) _ h4 in
      let (o, returns, zero_code) =
        process-outcome (CompareTraces.main host.files args)
          (check_script-zero (comparison_exit host) compared) in
      let (model, model_read, r1) = >>=-eq-ok (load host.files model_trace) _ returns in
      let (rtl, rtl_read, r2) = >>=-eq-ok (load host.files rtl_trace) _ r1 in
      record {
        exe = exe;
        found = found;
        ran = ran;
        model = model;
        model_read = model_read;
        rtl = rtl;
        rtl_read = rtl_read;
        agree =
            (compare_traces-exit_code true (pos 20) model rtl).0 (returned-zero o _ r2 zero_code);
      }
  | inr gone ↦ absurd (ground (arith, gone, h))
]
