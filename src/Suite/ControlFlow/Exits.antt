-- ===== src/Suite/ControlFlow/Exits.antt =====
-- What the exit codes of the two scripts say.
use rv32im_so_c_performance.Base.{
  ◌≡◌, refl, ◌↔◌, String, false, if◌then◌else◌, Result, ok, err, >>=-eq-ok, All, arith,
}
use rv32im_so_c_performance.Base.Int.{ℤ, pos, truthy}
use rv32im_so_c_performance.Suite.{
  Host, Flags, configure, build, find_exe, executable_path, check_call,
}
use rv32im_so_c_performance.Suite.Validation
use rv32im_so_c_performance.Suite.Validation.Exact.{main-Correlates, Correlates}
use rv32im_so_c_performance.Suite.Divider
use rv32im_so_c_performance.Suite.Divider.Exact
use rv32im_so_c_performance.Suite.Branches
use rv32im_so_c_performance.Suite.Jumps
use rv32im_so_c_performance.Suite.ControlFlow.{
  process, require_rtl, branches_exit, jumps_exit, controlflow_validation, validation_exit,
  divider_exit, milestone2_complete,
}

-- The script ran to its end.
abbrev pub Returns {ℓ} : {A : Type ℓ} → Result A → Type ℓ
Returns {A = A} r = (o : A) × (r ≡ ok o)

Branches_main-exit_code :
    (host : Host) (flags : Flags) (o : Branches.Outcome)
    → Branches.main host flags ≡ ok o
    → o.exit_code ≡ pos 0
unfolding Branches.main
Branches_main-exit_code host flags o h =
    let (_, _, h1) = >>=-eq-ok (check_call host configure) _ h in
    let (_, _, h2) = >>=-eq-ok (check_call host build) _ h1 in
    let (exe, _, h3) = >>=-eq-ok (executable_path host) _ h2 in
    let (rows, _, h4) =
      >>=-eq-ok (Branches.run_cases host flags.require_rtl exe Branches.cases) _ h3 in
    ground (arith, h4)

Jumps_main-exit_code :
    (host : Host) (flags : Flags) (o : Jumps.Outcome)
    → Jumps.main host flags ≡ ok o
    → o.exit_code ≡ pos 0
unfolding Jumps.main
Jumps_main-exit_code host flags o h =
    let (_, _, h1) = >>=-eq-ok (check_call host configure) _ h in
    let (_, _, h2) = >>=-eq-ok (check_call host build) _ h1 in
    let (exe, _, h3) = >>=-eq-ok (executable_path host) _ h2 in
    let (rows, _, h4) = >>=-eq-ok (Jumps.run_cases host flags.require_rtl exe Jumps.cases) _ h3 in
    ground (arith, h4)

process-zero {ℓ} :
    {A : Type ℓ} (exit_code : A → ℤ) (r : Result A)
    → ((o : A) → r ≡ ok o → exit_code o ≡ pos 0)
    → (truthy (process exit_code r) ≡ false) ↔ Returns r
process-zero exit_code (ok o) z = (λ _. (o, refl), λ _. rw (z o refl))
process-zero exit_code (err e) z = (λ h. cc, λ (o, h). cc)

-- The control-flow validation prints PASS exactly when both milestone scripts ran to their ends,
-- whatever their rows say: neither script has an exit code for a failed correlation.
pub controlflow-Returns :
    (host : Host)
    → (controlflow_validation host ≡ pos 0)
      ↔ (Returns (Branches.main host require_rtl) × Returns (Jumps.main host require_rtl))
unfolding controlflow_validation
controlflow-Returns host = (forth, back)
  where
    branches : (truthy (branches_exit host) ≡ false) ↔ Returns (Branches.main host require_rtl)
    branches = process-zero _ _ (Branches_main-exit_code host require_rtl)

    jumps : (truthy (jumps_exit host) ≡ false) ↔ Returns (Jumps.main host require_rtl)
    jumps = process-zero _ _ (Jumps_main-exit_code host require_rtl)

    forth :
        controlflow_validation host ≡ pos 0
        → Returns (Branches.main host require_rtl) × Returns (Jumps.main host require_rtl)
    forth h = (branches.0 (ground arith), jumps.0 (ground arith))

    back :
        Returns (Branches.main host require_rtl) × Returns (Jumps.main host require_rtl)
        → controlflow_validation host ≡ pos 0
    back (b, j) = rw (branches.1 b, jumps.1 j)

process_exit {ℓ} :
    {A : Type ℓ} (exit_code : A → ℤ) (r : Result A)
    → process exit_code r ≡ pos 0
    → (o : A) × (r ≡ ok o) × (exit_code o ≡ pos 0)
process_exit exit_code (ok o) h = (o, refl, h)
process_exit exit_code (err e) h = cc

both_zero :
    (a b : ℤ)
    → (if truthy a then a else if truthy b then b else pos 0) ≡ pos 0
    → (a ≡ pos 0) × (b ≡ pos 0)
both_zero a b h = ground arith

-- If run_milestone2_complete.py returns 0, every validation test and every divider test correlates with
-- its RTL trace.
milestone2_complete-Correlates :
    (host : Host)
    → milestone2_complete host ≡ pos 0
    → ((exe : String) × (find_exe host ≡ ok exe) × All (Correlates host exe) Validation.tests)
      × ((exe : String) × (Divider.find_exe host ≡ ok exe)
          × All (Exact.Correlates host exe) Divider.tests)
unfolding milestone2_complete
milestone2_complete-Correlates host h =
    let (v, d) = both_zero (validation_exit host) (divider_exit host) h in
    let (o, ran, z) = process_exit (λ (o : Validation.Outcome). o.exit_code) _ v in
    let (o', ran', z') = process_exit (λ (o : Divider.Outcome). o.exit_code) _ d in
    ((main-Correlates host o ran z).2, (Exact.main-Retires host o' ran' z').2)
