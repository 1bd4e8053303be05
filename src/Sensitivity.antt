-- ===== src/Sensitivity.antt =====
-- scripts/run_sensitivity_sweep.py: one cache size or latency varied at a time, against a baseline. The
-- hit rates and the CPI are left out of a row, with the divisions that can raise kept; the CSV file and
-- the report only print rows.
pub mod Swept
use Prim.Native.String.{◌++◌ as join}
use rv32im_so_c_performance.Base.{
  ℕ, String, Bool, true, false, ◌&&◌, List, [], ◌∷◌, ◌++◌, map, ◌==◌, if◌then◌else◌, stop_iteration,
  Result, ok, err, ◌>>=◌, ◌>>◌, traverse,
}
use rv32im_so_c_performance.Base.Int.{ℤ, ◌-ℤ◌, leb_ℤ}
use rv32im_so_c_performance.PyText.{Text}
use rv32im_so_c_performance.Stats.{Stats, parse_with}
use rv32im_so_c_performance.Stats.Keys.{sensitivity_keys}
use rv32im_so_c_performance.Suite.{Host, run_capture, check_call, configure, build, first_path}
use rv32im_so_c_performance.Suite.Reading.{stat}
use rv32im_so_c_performance.DesignSpace.{str, divides}
use rv32im_so_c_performance.Sorting.{sorted}

pub record Case : Type 0 where
  pub name : String
  pub icache_lines : ℕ
  pub dcache_lines : ℕ
  pub memory_latency : ℕ

pub record Point : Type 0 where
  pub case : Case
  pub retired : ℤ
  pub cycles : ℤ
  pub icache_accesses : ℤ
  pub icache_misses : ℤ
  pub dcache_accesses : ℤ
  pub dcache_misses : ℤ

unfoldable pub exe_path : Host → Result String
unfolding first_path
exe_path host =
    first_path host.exists "rv32im_model not found"
      ("build/Release/rv32im_model.exe" ∷ "build/rv32im_model.exe" ∷ "build/rv32im_model" ∷ [])

unfoldable pub parse : Text → Stats
parse = parse_with sensitivity_keys

abbrev pub command : String → Case → List String
command exe c =
    exe
    ∷ "workloads/milestone4/dhrystone_imem.hex"
    ∷ "--dmem-hex"
    ∷ "workloads/milestone4/dhrystone_dmem.hex"
    ∷ "--enable-caches"
    ∷ "--icache-lines"
    ∷ str c.icache_lines
    ∷ "--dcache-lines"
    ∷ str c.dcache_lines
    ∷ "--memory-latency"
    ∷ str c.memory_latency
    ∷ "--max-insns"
    ∷ "1000000"
    ∷ []

-- A row, from the statistics of its run.
unfoldable pub point_of : Case → Stats → Result Point
point_of c st = do
  cycles ← stat "cycles" st
  retired ← stat "retired" st
  checked ← divides retired
  icache_accesses ← stat "icache_accesses" st
  icache_misses ← stat "icache_misses" st
  dcache_accesses ← stat "dcache_accesses" st
  dcache_misses ← stat "dcache_misses" st
  ok (record {
    case = c;
    retired = retired;
    cycles = cycles;
    icache_accesses = icache_accesses;
    icache_misses = icache_misses;
    dcache_accesses = dcache_accesses;
    dcache_misses = dcache_misses;
  })

unfoldable pub one : Host → String → Case → Result Point
one host exe c = do out ← run_capture host (command exe c); point_of c (parse out)

abbrev case_of : String → ℕ → ℕ → ℕ → Case
case_of name i d lat = record {
  name = name;
  icache_lines = i;
  dcache_lines = d;
  memory_latency = lat;
}

-- `cases`, in the order of the four loops that append to it.
abbrev pub cases : List Case
cases =
    map (λ n. case_of (join "I$" (str n)) n 64 3) (16 ∷ 32 ∷ 64 ∷ 128 ∷ 256 ∷ 512 ∷ [])
    ++ map (λ n. case_of (join "D$" (str n)) 64 n 3) (16 ∷ 32 ∷ 128 ∷ 256 ∷ 512 ∷ [])
    ++ map (λ lat. case_of (join "LAT" (str lat)) 64 64 lat) (1 ∷ 2 ∷ 4 ∷ 5 ∷ 8 ∷ 12 ∷ [])
    ++ map (λ (i, d). case_of (join "I" (join (str i) (join "D" (str d)))) i d 3)
        ((128, 128) ∷ (256, 128) ∷ (128, 256) ∷ (256, 256) ∷ [])

abbrev pub is_base : Case → Bool
is_base c = c.icache_lines == 64 && c.dcache_lines == 64 && c.memory_latency == 3

-- `next(r for r in rows if ...)`
unfoldable pub base_of : List Point → Result Point
base_of [] = err stop_iteration
base_of (r ∷ rs) = if is_base r.case then ok r else base_of rs

-- What the second loop adds to a row; the speedup and the reduction are left undivided.
pub record Difference : Type 0 where
  pub point : Point
  pub cycle_delta_vs_base : ℤ
  pub cycles_saved : ℤ

abbrev pub difference : Point → Point → Difference
difference base r = record {
  point = r;
  cycle_delta_vs_base = r.cycles -ℤ base.cycles;
  cycles_saved = base.cycles -ℤ r.cycles;
}

unfoldable pub compare_with : Point → Point → Result Difference
unfolding ◌-ℤ◌
compare_with base r = do
  checked ← divides r.cycles
  also ← divides base.cycles
  ok (difference base r)

abbrev pub by_cycles : Difference → Difference → Bool
by_cycles a b = leb_ℤ a.point.cycles b.point.cycles

pub record Outcome : Type 0 where
  pub base : Point
  pub rows : List Difference
  pub ranked : List Difference

unfoldable pub sweep : Host → String → Result Outcome
unfolding sorted
sweep host exe = do
  rows ← traverse (one host exe) cases
  base ← base_of rows
  ds ← traverse (compare_with base) rows
  ok (record { base = base; rows = ds; ranked = sorted by_cycles ds })

unfoldable pub main : Host → Result Outcome
main host = do check_call host configure; check_call host build; exe ← exe_path host; sweep host exe
