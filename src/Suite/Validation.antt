-- ===== src/Suite/Validation.antt =====
-- scripts/run_validation_suite.py: the directed validation workloads against frozen predictions.
pub mod Exact
use rv32im_so_c_performance.Base.{
  ℕ, ◌==◌, String, Bool, true, false, not, ◌&&◌, ◌||◌, Option, none, some, List, [], ◌∷◌,
  if◌then◌else◌, Result, ok, err, ◌>>=◌, length, get_last?,
}
use rv32im_so_c_performance.Base.Int.{ℤ, pos, ◌==ℤ◌, truthy}
use rv32im_so_c_performance.Base.Dict.{str_eq}
use rv32im_so_c_performance.Trace.Commits.{Commit, load_trace}
use rv32im_so_c_performance.ArchCompare.{compare_arch}
use rv32im_so_c_performance.Suite.{
  Host, Status, pass, fail, wait, measure, not_applicable, status, Flags, configure, build,
  find_exe, Ratio, zero_ratio, cycle_error, csv_path,
}

pub record Test : Type 0 where
  pub name : String
  pub workload : String
  pub mode : String
  pub frozen_cycles : ℕ

abbrev test : String → String → ℕ → Test
test name workload frozen = record {
  name = name;
  workload = workload;
  mode = "validate";
  frozen_cycles = frozen;
}

abbrev pub tests : List Test
tests =
    test "smoke" "workloads/smoke.hex" 17
    ∷ test "no_hazards" "workloads/validation/no_hazards.hex" 14
    ∷ test "load_hazards" "workloads/validation/load_hazards.hex" 18
    ∷ test "branches" "workloads/validation/branches.hex" 21
    ∷ test "divider" "workloads/validation/divider.hex" 20
    ∷ []

pub record SummaryRow : Type 0 where
  pub name : String
  pub mode : String
  pub arch : Status
  pub timing : Status
  pub model_cycles : ℤ
  pub rtl_cycles : ℤ
  pub err : Ratio

-- `trace[-1]["cycle"] if trace else 0`
abbrev pub last_cycle : List Commit → ℤ
last_cycle trace = elim (get_last? trace) [ none ↦ pos 0 | some c ↦ c.cycle ]

abbrev pub model_trace : Test → String
model_trace t = csv_path "results/validation/model_" t.name

abbrev pub rtl_trace : Test → String
rtl_trace t = csv_path "results/validation/rtl_" t.name

abbrev pub command : String → Test → List String
command exe t = exe ∷ t.workload ∷ "--trace" ∷ model_trace t ∷ []

-- Whether the test sets `failure`, and its row of the summary.
abbrev pub Judged : Type 0
Judged = Bool × SummaryRow

-- The end of the loop body, where both traces are there.
unfoldable pub judge : Test → List Commit → List Commit → Judged
judge t model rtl =
    let model_cycles = last_cycle model in
    let rtl_cycles = last_cycle rtl in
    let arch_ok = (compare_arch model rtl).0 in
    let timing_ok = model_cycles ==ℤ rtl_cycles && length model == length rtl in
    let validate = str_eq t.mode "validate" in
    (
      not (model_cycles ==ℤ pos t.frozen_cycles) || (not arch_ok || validate && not timing_ok),
      record {
        name = t.name;
        mode = t.mode;
        arch = status arch_ok;
        timing = if validate then status timing_ok else measure;
        model_cycles = model_cycles;
        rtl_cycles = rtl_cycles;
        err = cycle_error model_cycles rtl_cycles;
      },
    )

-- The body of the loop over `TESTS`.
unfoldable pub run_test : Host → Flags → String → Test → Result Judged
run_test host flags exe t =
    if truthy (host.call (command exe t))
    then ok (
      true,
      record {
        name = t.name;
        mode = t.mode;
        arch = fail;
        timing = not_applicable;
        model_cycles = pos 0;
        rtl_cycles = pos 0;
        err = zero_ratio;
      },
    )
    else do
      model ← load_trace host.files (model_trace t)
      if flags.model_only || not (host.is_file (rtl_trace t))
          then ok (
            not (last_cycle model ==ℤ pos t.frozen_cycles)
                || not flags.model_only && flags.require_rtl,
            record {
              name = t.name;
              mode = t.mode;
              arch = wait;
              timing = wait;
              model_cycles = last_cycle model;
              rtl_cycles = pos 0;
              err = zero_ratio;
            },
          )
          else do rtl ← load_trace host.files (rtl_trace t); ok (judge t model rtl)

pub record Outcome : Type 0 where
  pub exit_code : ℤ
  pub summary : List SummaryRow

unfoldable pub run_tests : Host → Flags → String → List Test → Result (Bool × List SummaryRow)
run_tests host flags exe [] = ok (false, [])
run_tests host flags exe (t ∷ ts) = do
  x ← run_test host flags exe t
  xs ← run_tests host flags exe ts
  ok (x.0 || xs.0, x.1 ∷ xs.1)

abbrev pub conclude : Bool × List SummaryRow → Outcome
conclude (failure, summary) = record {
  exit_code = if failure then pos 1 else pos 0;
  summary = summary;
}

abbrev pub early : ℤ → Outcome
early rc = record { exit_code = rc; summary = [] }

unfoldable pub main : Host → Flags → Result Outcome
main host flags =
    if truthy (host.call configure)
    then ok (early (host.call configure))
    else if truthy (host.call build)
    then ok (early (host.call build))
    else do exe ← find_exe host; judged ← run_tests host flags exe tests; ok (conclude judged)
