-- ===== src/Suite/Divider.antt =====
-- scripts/run_divider_characterization.py: the divider workloads against frozen retirement cycles.
pub mod Exact
use Prim.Native.String.{◌++◌ as join}
use rv32im_so_c_performance.Base.{
  ◌++◌, ℕ, ◌==◌, String, Bool, true, false, not, ◌&&◌, ◌||◌, Option, none, some, List, [], ◌∷◌, map,
  if◌then◌else◌, Result, ok, err, ◌>>=◌,
}
use rv32im_so_c_performance.Base.Int.{ℤ, pos, ◌==ℤ◌, truthy}
use rv32im_so_c_performance.PyText.{Text}
use rv32im_so_c_performance.Trace.{Row, Files}
use rv32im_so_c_performance.Trace.Commits
use rv32im_so_c_performance.Trace.Commits.{Commit}
use rv32im_so_c_performance.ArchCompare
use rv32im_so_c_performance.ArchCompare.{Note}
use rv32im_so_c_performance.Suite
use rv32im_so_c_performance.Suite.Validation.{last_cycle}
use rv32im_so_c_performance.Suite.{
  Host, Status, wait, status, Flags, configure, build, Ratio, zero_ratio, cycle_error, csv_path,
}

-- The functions that this script repeats from scripts/run_validation_suite.py.
unfoldable pub find_exe : Host → Result String
unfolding Suite.find_exe
find_exe = Suite.find_exe

unfoldable pub num : Option Text → Result ℤ
unfolding Commits.num
num = Commits.num

unfoldable pub load_trace : Files → String → Result (List Commit)
unfolding Commits.load_trace
load_trace = Commits.load_trace

unfoldable pub compare_arch : List Commit → List Commit → Bool × Note
unfolding ArchCompare.compare_arch
compare_arch = ArchCompare.compare_arch

pub record Test : Type 0 where
  pub name : String
  pub expected_cycles : ℕ
  pub expected_retire_cycles : List ℕ
  pub purpose : String

abbrev test : String → ℕ → List ℕ → String → Test
test name cycles retire_cycles purpose = record {
  name = name;
  expected_cycles = cycles;
  expected_retire_cycles = retire_cycles;
  purpose = purpose;
}

abbrev pub tests : List Test
tests =
    test "divider_single" 15 (5 ∷ 6 ∷ 14 ∷ 15 ∷ []) "single DIV latency"
    ∷ test "divider_dependent" 16 (5 ∷ 6 ∷ 14 ∷ 15 ∷ 16 ∷ [])
        "consumer immediately depends on DIV result"
    ∷ test "divider_independent" 17 (5 ∷ 6 ∷ 14 ∷ 15 ∷ 16 ∷ 17 ∷ [])
        "independent instructions follow DIV"
    ∷ test "divider_back_to_back" 18 (5 ∷ 6 ∷ 14 ∷ 15 ∷ 16 ∷ 17 ∷ 18 ∷ [])
        "DIV/DIVU/REM/REMU one per cycle"
    ∷ test "divider_idle_gap" 31 (5 ∷ 6 ∷ 14 ∷ 15 ∷ 16 ∷ 17 ∷ 18 ∷ 19 ∷ 20 ∷ 21 ∷ 22 ∷ 30 ∷ 31 ∷ [])
        "second DIV after eight independent instructions"
    ∷ []

unfoldable pub cycle_values : List Commit → List ℤ
cycle_values rows = map (λ r. r.cycle) rows

-- Equality of two lists of numbers.
abbrev pub same_cycles : List ℤ → List ℤ → Bool
same_cycles [] [] = true
same_cycles (a ∷ xs) (b ∷ ys) = a ==ℤ b && same_cycles xs ys
same_cycles _ _ = false

-- `cycle_list` prints the two lists of cycles; here they stay lists.
pub record SummaryRow : Type 0 where
  pub name : String
  pub arch : Status
  pub timing : Status
  pub model_cycles : ℤ
  pub rtl_cycles : ℤ
  pub error : Ratio
  pub purpose : String
  pub model_retire_cycles : List ℤ
  pub rtl_retire_cycles : List ℤ

abbrev pub model_trace : Test → String
model_trace t = csv_path "results/divider_characterization/model_" t.name

abbrev pub rtl_trace : Test → String
rtl_trace t = csv_path "results/divider_characterization/rtl_" t.name

abbrev pub workload : Test → String
workload t = join "workloads/divider_characterization/" (join t.name ".hex")

abbrev pub command : String → Test → List String
command exe t = exe ∷ workload t ∷ "--trace" ∷ model_trace t ∷ []

unfoldable pub model_frozen_ok : Test → List Commit → Bool
unfolding cycle_values
model_frozen_ok t model =
    last_cycle model ==ℤ pos t.expected_cycles
    && same_cycles (cycle_values model) (map pos t.expected_retire_cycles)

-- The end of the loop body, where both traces are there.
unfoldable pub judge : Test → List Commit → List Commit → Bool × SummaryRow
judge t model rtl =
    let arch_ok = (compare_arch model rtl).0 in
    let exact_timing = same_cycles (cycle_values model) (cycle_values rtl) in
    (
      not (model_frozen_ok t model) || (not arch_ok || not exact_timing),
      record {
        name = t.name;
        arch = status arch_ok;
        timing = status exact_timing;
        model_cycles = last_cycle model;
        rtl_cycles = last_cycle rtl;
        error = cycle_error (last_cycle model) (last_cycle rtl);
        purpose = t.purpose;
        model_retire_cycles = cycle_values model;
        rtl_retire_cycles = cycle_values rtl;
      },
    )

-- The body of the loop over `TESTS`. A model that fails leaves no row.
unfoldable pub run_test : Host → Flags → String → Test → Result (Bool × List SummaryRow)
run_test host flags exe t = if truthy (host.call (command exe t)) then ok (true, []) else do
  model ← load_trace host.files (model_trace t)
  if flags.model_only || not (host.is_file (rtl_trace t))
      then ok (
        not (model_frozen_ok t model) || flags.require_rtl && not flags.model_only,
        record {
          name = t.name;
          arch = wait;
          timing = wait;
          model_cycles = last_cycle model;
          rtl_cycles = pos 0;
          error = zero_ratio;
          purpose = t.purpose;
          model_retire_cycles = cycle_values model;
          rtl_retire_cycles = [];
        }
            ∷ [],
      )
      else do
        rtl ← load_trace host.files (rtl_trace t)
        ok ((judge t model rtl).0, (judge t model rtl).1 ∷ [])

unfoldable pub run_tests : Host → Flags → String → List Test → Result (Bool × List SummaryRow)
run_tests host flags exe [] = ok (false, [])
run_tests host flags exe (t ∷ ts) = do
  x ← run_test host flags exe t
  xs ← run_tests host flags exe ts
  ok (x.0 || xs.0, x.1 ++ xs.1)

pub record Outcome : Type 0 where
  pub exit_code : ℤ
  pub summary : List SummaryRow

abbrev pub conclude : Bool × List SummaryRow → Outcome
conclude (failure, summary) = record {
  exit_code = if failure then pos 1 else pos 0;
  summary = summary;
}

abbrev pub early : ℤ → Outcome
early rc = record { exit_code = rc; summary = [] }

unfoldable pub main : Host → Flags → Result Outcome
main host flags =
    if truthy (host.call configure)
    then ok (early (host.call configure))
    else if truthy (host.call build)
    then ok (early (host.call build))
    else do exe ← find_exe host; judged ← run_tests host flags exe tests; ok (conclude judged)
