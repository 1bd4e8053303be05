-- ===== src/Examples/Suites.antt =====
-- A host on which milestone 2 passes: every command succeeds, and the model and the RTL have written
-- the same traces, with the frozen cycles.
use rv32im_so_c_performance.Base.{
  ℕ, ◌≡◌, refl, String, true, ok, err, some, none, Option, List, [], ◌∷◌, map, Result, All,
}
use rv32im_so_c_performance.Base.Int.{pos, ◌==ℤ◌}
use rv32im_so_c_performance.Base.Dict.{Dict, get}
use rv32im_so_c_performance.PyText.{int_0}
use rv32im_so_c_performance.PyText.Hex.{hex_pad}
use rv32im_so_c_performance.PyText.Decimal.{decimal}
use rv32im_so_c_performance.Trace.{Table, required, load, load_rows, load_row}
use rv32im_so_c_performance.Trace
use rv32im_so_c_performance.CompareTraces
use rv32im_so_c_performance.CompareTraces.{compare_traces, compare_from, fields_of}
use rv32im_so_c_performance.Suite.Smoke
use rv32im_so_c_performance.Suite.Smoke.Agreed.{Agreed, main-Agreed}
use rv32im_so_c_performance.Trace.Commits.{load_trace, load_commit, load_commits}
use rv32im_so_c_performance.Trace.Commits
use rv32im_so_c_performance.Trace.Writer.{RetireEvent, write}
use rv32im_so_c_performance.ArchCompare.{compare_arch, commit_differs, first_difference}
use rv32im_so_c_performance.Suite.{Host, configure, build, find_exe, check_call, cycle_error}
use rv32im_so_c_performance.Suite.Validation
use rv32im_so_c_performance.Suite.Validation.Exact.{strict, Correlates, main-Correlates}
use rv32im_so_c_performance.Suite.Divider
use rv32im_so_c_performance.Suite.Divider.Exact
use rv32im_so_c_performance.Suite.Divider.Exact.{main-Retires}
use rv32im_so_c_performance.Examples.{event}

-- One event for each cycle.
abbrev trace : List ℕ → List RetireEvent
trace [] = []
trace (cycle ∷ cycles) = event cycle 1 0 1 5 ∷ trace cycles

abbrev traces : Dict (List ℕ)
traces =
    ("results/validation/model_smoke.csv", 5 ∷ 17 ∷ [])
    ∷ ("results/validation/rtl_smoke.csv", 5 ∷ 17 ∷ [])
    ∷ ("results/validation/model_no_hazards.csv", 14 ∷ [])
    ∷ ("results/validation/rtl_no_hazards.csv", 14 ∷ [])
    ∷ ("results/validation/model_load_hazards.csv", 18 ∷ [])
    ∷ ("results/validation/rtl_load_hazards.csv", 18 ∷ [])
    ∷ ("results/validation/model_branches.csv", 21 ∷ [])
    ∷ ("results/validation/rtl_branches.csv", 21 ∷ [])
    ∷ ("results/validation/model_divider.csv", 20 ∷ [])
    ∷ ("results/validation/rtl_divider.csv", 20 ∷ [])
    ∷ []

abbrev divider_trace : Divider.Test → Dict (List ℕ) → Dict (List ℕ)
divider_trace t rest =
    (Divider.model_trace t, t.expected_retire_cycles)
    ∷ (Divider.rtl_trace t, t.expected_retire_cycles)
    ∷ rest

abbrev divider_traces : List Divider.Test → Dict (List ℕ)
divider_traces [] = traces
divider_traces (t ∷ ts) = divider_trace t (divider_traces ts)

abbrev table : Option (List ℕ) → Option Table
table none = none
table (some cycles) = some (record { fieldnames = []; rows = map write (trace cycles) })

abbrev host : Host
host = record {
  call = λ command. pos 0;
  output = λ command. [];
  is_file = λ path. true;
  exists = λ path. true;
  files = λ path. table (get path (divider_traces Divider.tests));
}

abbrev validation_outcome : Result Validation.Outcome → Validation.Outcome
validation_outcome (ok o) = o
validation_outcome (err e) = Validation.early (pos 1)

abbrev divider_outcome : Result Divider.Outcome → Divider.Outcome
divider_outcome (ok o) = o
divider_outcome (err e) = Divider.early (pos 1)

validation_returns :
    (Validation.main host strict ≡ ok (validation_outcome (Validation.main host strict)))
    × ((validation_outcome (Validation.main host strict)).exit_code ≡ pos 0)
unfolding Validation.main Validation.run_tests Validation.run_test Validation.judge find_exe
    load_trace write decimal hex_pad get commit_differs first_difference ◌==ℤ◌ cycle_error
    compare_arch Commits.num load_commit load_commits int_0
validation_returns = (refl, refl)

abbrev validated : Validation.Outcome
validated = validation_outcome (Validation.main host strict)

main-Correlates_example :
    (host.call configure ≡ pos 0)
    × (host.call build ≡ pos 0)
    × ((exe : String) × (find_exe host ≡ ok exe) × All (Correlates host exe) Validation.tests)
main-Correlates_example = main-Correlates host validated validation_returns.0 validation_returns.1

divider_returns :
    (Divider.main host strict ≡ ok (divider_outcome (Divider.main host strict)))
    × ((divider_outcome (Divider.main host strict)).exit_code ≡ pos 0)
unfolding Divider.main Divider.run_tests Divider.run_test Divider.judge Divider.find_exe
    Divider.load_trace Divider.model_frozen_ok Divider.cycle_values load_trace Divider.compare_arch
    write decimal hex_pad get commit_differs first_difference ◌==ℤ◌ cycle_error compare_arch
    Commits.num load_commit load_commits int_0 find_exe
divider_returns = (refl, refl)

abbrev characterized : Divider.Outcome
characterized = divider_outcome (Divider.main host strict)

main-Retires_example :
    (host.call configure ≡ pos 0)
    × (host.call build ≡ pos 0)
    × ((exe : String) × (Divider.find_exe host ≡ ok exe)
        × All (Exact.Correlates host exe) Divider.tests)
main-Retires_example = main-Retires host characterized divider_returns.0 divider_returns.1

-- A host whose traces have the five columns that compare_traces.py requires, and the cycle.
abbrev smoke : Host
smoke = record {
  call = λ command. pos 0;
  output = λ command. [];
  is_file = λ path. true;
  exists = λ path. true;
  files = λ path.
      some (record { fieldnames = "cycle" ∷ required; rows = map write (trace (5 ∷ 17 ∷ [])) });
}

smoke_returns : Smoke.main smoke ≡ ok (pos 0)
unfolding Smoke.main CompareTraces.main load load_rows load_row Trace.num compare_traces
    compare_from fields_of find_exe check_call write decimal hex_pad get ◌==ℤ◌ int_0
smoke_returns = refl

main-Agreed_example : Agreed smoke
main-Agreed_example = main-Agreed smoke smoke_returns
