-- ===== src/Lib.antt =====
-- Performance correlation of the RV32IM model with its RTL: the processor of the simulator with its
-- memories, caches, fetch stream and pipeline timing, and the Python scripts of the repository's
-- scripts folder. A script builds the simulator, runs it on workloads, reads the retirement traces
-- and the statistics that it prints, compares them with the CSV files of the RTL runs, and gives a
-- verdict; later scripts sweep the cache sizes and choose among design points.
--
-- The files and what they model:
--   Base: native numbers, Boolean tests, Python's exceptions (Result), int (ℤ) and dict (Dict).
--   PyText: str.strip, int(text, base), the formats of hexadecimal words and decimal numbers.
--   Trace: `load` of scripts/compare_traces.py; Trace.Commits: `load_trace` of
--     scripts/run_validation_suite.py; Trace.Writer: `TraceWriter::write` of
--     include/rv32im/Trace.hpp as the row that csv.DictReader makes of its line.
--   CompareTraces: scripts/compare_traces.py; Verdict and Reports hold its theorems.
--   ArchCompare: compare_arch (scripts/run_validation_suite.py), arch_equal
--     (scripts/run_milestone3c.py, run_milestone3d.py) and arch_compare_stream
--     (scripts/run_milestone4.py); Commits, Streams and Written relate them.
--   Stats, Stats.Keys: parse_stats and its label tables; Stats.Printed: the printed lines.
--   Suite: what the scripts share; Suite.Validation and Suite.Divider: milestone 2; Suite.Branches and
--     Suite.Jumps: scripts/run_milestone3c.py and run_milestone3d.py; Suite.ControlFlow:
--     scripts/run_controlflow_validation.py and run_milestone2_complete.py; Suite.Caches:
--     scripts/run_milestone3.py; Suite.Dhrystone, Suite.Bottleneck and Stats.Signature:
--     scripts/run_milestone4.py; Suite.Smoke: scripts/run_milestone2.py, run_milestone3b.py and
--     run_milestone4b.py.
--   TraceReport: scripts/analyze_trace.py; Mix relates its counts.
--   Sensitivity: scripts/run_sensitivity_sweep.py.
--   Decode: the immediate decoders of scripts/analyze_branch_fetch.py and analyze_jump_fetch.py.
--   FetchReports: the reports of the same scripts (Redirected) and of scripts/analyze_icache_fetch.py
--     (Icache); Repeated is what they count.
--   Dominance, Sorting: the scans for undominated rows and the stable sort that two scripts share.
--   DesignSpace: scripts/run_milestone6a.py, where Sweep is its main and Points, Measured, Compared and
--     Sound tell what it returns. Selection: scripts/run_architecture_selection.py, with
--     Inputs (the merged rows), Metrics (their ratios; Measured tells when they can be computed),
--     Winners (max and min with a key) and Study (main).
--   RtlSummary: scripts/compare_milestone5b.py and compare_milestone6b.py.
--   Overlap: scripts/analyze_milestone4b_probe.py. GapAnalysis: scripts/analyze_milestone4_gaps.py.
--   Cpu: src/CpuModel.cpp. Locals and Execute are the switch of step, Step is step and run; Isa is the
--     instruction set alone, with which Refines, Architecture and Run compare them, and Valid its
--     bounds; Ends and Room show that a step ends; Fixed, Peek and Replay hold the other theorems. Alu
--     and Words: the values that the switch computes. Memory: src/Memory.cpp without the reading of
--     hex files.
--   Cache: src/CacheModel.cpp; Consistent is its invariant, Recent tells its lines and answers from the
--     accesses alone. Fetch: src/IFetchStreamModel.cpp on a cache; Walk and Ends tell of the loop of
--     ensure_through, Synchronized, Reachable and Redirects its hooks. Timing:
--     src/PipelineTimingModel.cpp; Counters and Cycles tell its counters and cycles from the retired
--     instructions alone.
--   Examples: concrete traces, tables and hosts.
--
-- Correspondence: a function keeps its name; main of a script is main of its module. A loop over rows
-- is recursion on the list. An exception is a value of Error, and the order in which cells are read is
-- the order of the binds. Printed sentences are constructors or left out; a percentage is a Ratio that
-- is not divided. Python's float is a parameter where its order matters (Selection) and where a cell
-- is only read (RtlSummary, GapAnalysis), and so is the arithmetic of Selection.Inputs and
-- Selection.Metrics.
--
-- The simulator's objects are records that an operation takes and returns; a counter or a word of w
-- bits is a number below 2 ^ w, with the wrap-around of each operation written out.
--
-- Outside of the model: the RTL, the file system and the commands. They are a Host, with the exit code
-- and the output of each command and the files that a script finds. csv.DictReader is taken to give
-- the rows of a file; whitespace, digits, letters and line ends are the ASCII ones.
--
-- Fuel: decimal and str split off one digit for each unit, and a number has at most as many digits
-- as its value, so the fuel is never used up. The loop of ensure_through spends one unit for each
-- request, and the loop of run one for each instruction; both are err out_of_fuel while they have not
-- ended, and what they need is stated with their theorems. Every other function is structural.
--
-- Not modelled: the simulator's command line and the text of the hex files that it loads, and the
-- SystemC wrapper; the reports, charts and archives that are only written; and
-- scripts/package_selection_results.py, which copies files.
pub mod Base
pub mod PyText
pub mod Trace
pub mod TraceReport
pub mod Words
pub mod Memory
pub mod Alu
pub mod Cpu
pub mod CompareTraces
pub mod ArchCompare
pub mod Dominance
pub mod Sorting
pub mod Stats
pub mod Suite
pub mod Decode
pub mod FetchReports
pub mod DesignSpace
pub mod Selection
pub mod RtlSummary
pub mod Overlap
pub mod Cache
pub mod Timing
pub mod Fetch
pub mod GapAnalysis
pub mod Sensitivity
pub mod Examples
