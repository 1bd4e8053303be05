-- ===== src/Suite/ControlFlow.antt =====
-- scripts/run_controlflow_validation.py and scripts/run_milestone2_complete.py: scripts that run other
-- scripts and look only at their exit codes. An exception ends a Python script with exit code 1.
pub mod Exits
use rv32im_so_c_performance.Base.{
  ℕ, ◌≡◌, refl, ◌≢◌, ◌↔◌, Bool, true, false, if◌then◌else◌, Result, ok, err, arith,
}
use rv32im_so_c_performance.Base.Int.{ℤ, pos, truthy}
use rv32im_so_c_performance.Suite.{Host, Flags}
use rv32im_so_c_performance.Suite.Validation
use rv32im_so_c_performance.Suite.Divider
use rv32im_so_c_performance.Suite.Branches
use rv32im_so_c_performance.Suite.Jumps

-- the exit code of a process whose `main` gives `sys.exit` its result
abbrev pub process {ℓ} : {A : Type ℓ} → (A → ℤ) → Result A → ℤ
process exit_code (ok o) = exit_code o
process exit_code (err e) = pos 1

abbrev pub require_rtl : Flags
require_rtl = record { model_only = false; require_rtl = true }

abbrev pub branches_exit : Host → ℤ
branches_exit host = process (λ o. o.exit_code) (Branches.main host require_rtl)

abbrev pub jumps_exit : Host → ℤ
jumps_exit host = process (λ o. o.exit_code) (Jumps.main host require_rtl)

-- `main` of run_controlflow_validation.py
unfoldable pub controlflow_validation : Host → ℤ
controlflow_validation host =
    if truthy (branches_exit host) then pos 1 else if truthy (jumps_exit host) then pos 1 else pos 0

abbrev pub validation_exit : Host → ℤ
validation_exit host = process (λ o. o.exit_code) (Validation.main host require_rtl)

abbrev pub divider_exit : Host → ℤ
divider_exit host = process (λ o. o.exit_code) (Divider.main host require_rtl)

-- `main` of run_milestone2_complete.py
unfoldable pub milestone2_complete : Host → ℤ
milestone2_complete host =
    if truthy (validation_exit host)
    then validation_exit host
    else if truthy (divider_exit host)
    then divider_exit host
    else pos 0
