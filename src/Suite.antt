-- ===== src/Suite.antt =====
-- The scripts that build and run the model on a set of programs and judge its traces. What lies
-- outside of them is a `Host`: the commands' exit codes and outputs, and the files that are there
-- when a script reads them. Each command writes files of its own, so one snapshot of them serves.
pub mod Validation
pub mod Divider
pub mod Reading
pub mod Branches
pub mod Jumps
pub mod ControlFlow
pub mod Caches
pub mod Bottleneck
pub mod Dhrystone
pub mod Smoke
use Prim.Native.String.{◌++◌ as join}
use rv32im_so_c_performance.Base.{
  ℕ, ◌*◌, ◌-◌, ◌+◌, String, Bool, true, false, Option, none, some, List, [], ◌∷◌, if◌then◌else◌,
  Result, ok, err, runtime_error, called_process_error, ◌>>=◌, get_last?,
}
use rv32im_so_c_performance.Base.Int.{ℤ, pos, ◌-ℤ◌, ◌==ℤ◌, pos_part, neg_part, truthy}
use rv32im_so_c_performance.PyText.{Text}
use rv32im_so_c_performance.Trace.{Files}

pub record Host : Type 0 where
  -- the exit code and the output of a command run in the repository's root
  pub call : List String → ℤ
  pub output : List String → Text
  pub is_file : String → Bool
  pub exists : String → Bool
  pub files : Files

pub data Status : Type 0 where
  pass fail wait measure not_applicable : Status

abbrev pub status : Bool → Status
status b = if b then pass else fail

-- `--model-only` and `--require-rtl`
pub record Flags : Type 0 where
  pub model_only : Bool
  pub require_rtl : Bool

abbrev pub configure : List String
configure = "cmake" ∷ "-S" ∷ "." ∷ "-B" ∷ "build" ∷ "-DRV32IM_BUILD_SYSTEMC=OFF" ∷ []

abbrev pub build : List String
build = "cmake" ∷ "--build" ∷ "build" ∷ "--config" ∷ "Release" ∷ []

abbrev pub candidates : List String
candidates =
    "build/Release/rv32im_model.exe" ∷ "build/Debug/rv32im_model.exe" ∷ "build/rv32im_model.exe"
    ∷ "build/rv32im_model" ∷ []

-- The first candidate that passes a test of paths.
unfoldable pub first_path : (String → Bool) → String → List String → Result String
first_path test message [] = err (runtime_error message)
first_path test message (path ∷ paths) =
    if test path then ok path else first_path test message paths

unfoldable pub find_exe : Host → Result String
unfolding first_path
find_exe host = first_path host.is_file "rv32im_model executable not found after build" candidates

-- The milestone scripts look for it with `os.path.exists`.
unfoldable pub executable_path : Host → Result String
unfolding first_path
executable_path host = first_path host.exists "Could not find rv32im_model after build" candidates

-- `run(cmd, capture=True)` of the milestone scripts, which raises when the command fails
unfoldable pub run_capture : Host → List String → Result Text
run_capture host command =
    if truthy (host.call command) then err called_process_error else ok (host.output command)

-- `subprocess.check_call`
unfoldable pub check_call : Host → List String → Result (Unit {0})
check_call host command = if truthy (host.call command) then err called_process_error else ok tt

-- A quotient that the scripts print as a float, left undivided.
pub record Ratio : Type 0 where
  pub num : ℕ
  pub den : ℤ

abbrev pub zero_ratio : Ratio
zero_ratio = record { num = 0; den = pos 1 }

abbrev pub abs_ℤ : ℤ → ℕ
abs_ℤ a = pos_part a + neg_part a

-- `100.0 * abs(model - rtl) / float(rtl)`, and 0.0 where the RTL has no cycles
unfoldable pub cycle_error : ℤ → ℤ → Ratio
unfolding ◌-ℤ◌
cycle_error model rtl =
    if truthy rtl then record { num = 100 * abs_ℤ (model -ℤ rtl); den = rtl } else zero_ratio

-- `prefix + name + ".csv"`
abbrev pub csv_path : String → String → String
csv_path front name = join front (join name ".csv")
