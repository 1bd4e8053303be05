-- ===== src/Suite/Smoke.antt =====
-- scripts/run_milestone2.py: the smoke workload, compared with the RTL by scripts/compare_traces.py;
-- scripts/run_milestone3b.py and run_milestone4b.py, which run other scripts. A script that is run is
-- its exit code, and a code that is not 0 is a CalledProcessError of `check_call`.
pub mod Agreed
use rv32im_so_c_performance.Base.{
  ℕ, String, Bool, true, false, not, ◌&&◌, List, [], ◌∷◌, if◌then◌else◌, called_process_error,
  Result, ok, err, ◌>>=◌, ◌>>◌,
}
use rv32im_so_c_performance.Base.Int.{ℤ, pos, truthy}
use rv32im_so_c_performance.CompareTraces
use rv32im_so_c_performance.CompareTraces.{Args}
use rv32im_so_c_performance.FetchReports.Icache.{icache_main}
use rv32im_so_c_performance.Suite.{Host, Flags, configure, build, find_exe, check_call}
use rv32im_so_c_performance.Suite.Caches
use rv32im_so_c_performance.Suite.Dhrystone
use rv32im_so_c_performance.Suite.ControlFlow.{process, require_rtl}

abbrev pub model_trace : String
model_trace = "results/model_trace.csv"

abbrev pub rtl_trace : String
rtl_trace = "results/rtl_trace.csv"

abbrev pub command : String → List String
command exe =
    exe ∷ "workloads/smoke.hex" ∷ "--trace" ∷ model_trace ∷ "--rtl-trace" ∷ rtl_trace
    ∷ "--dump-regs" ∷ []

-- The arguments of compare_traces.py; the limit on printed mismatches is its default.
abbrev pub args : Args
args = record {
  model = model_trace;
  rtl = rtl_trace;
  max_mismatches = pos 20;
  compare_cycle = true;
}

abbrev pub comparison_exit : Host → ℤ
comparison_exit host = process (λ o. pos o.exit_code) (CompareTraces.main host.files args)

-- `subprocess.check_call` of a script
abbrev pub check_script : ℤ → Result (Unit {0})
check_script code = if truthy code then err called_process_error else ok tt

unfoldable pub main : Host → Result ℤ
main host = if not (host.is_file rtl_trace) then ok (pos 2) else do
  check_call host configure
  check_call host build
  exe ← find_exe host
  check_call host (command exe)
  check_script (comparison_exit host)
  ok (pos 0)

-- `main` of run_milestone3b.py
unfoldable pub milestone3b : Host → Result ℤ
milestone3b host = do
  check_script (process (λ o. o.exit_code) (Caches.main host require_rtl))
  if host.exists "results/milestone3/fetch_icache_linear.csv"
        && host.exists "results/milestone3/fetch_split_cache.csv"
      then (do check_script (process (λ o. o.0) (icache_main host.exists host.files)); ok (pos 0))
      else ok (pos 0)

-- run_milestone4b.py, with the flags that it passes on
unfoldable pub milestone4b : Host → Flags → ℤ
milestone4b host flags = process (λ o. o.exit_code) (Dhrystone.main host flags)
