-- ===== src/DesignSpace.antt =====
-- scripts/run_milestone6a.py: the sweep of cache sizes and memory latencies. Here: one simulation, the
-- list of the design points and the removal of repeated configurations.
pub mod Pareto
pub mod Points
pub mod Sweep
pub mod Measured
pub mod Compared
pub mod Sound
use Prim.Native.String.{slice, ◌++◌ as join}
use rv32im_so_c_performance.Base.{
  ℕ, zero, suc, ◌+◌, ◌*◌, ◌/◌, ◌%◌, ◌≤◌, String, Bool, true, false, ◌&&◌, ◌||◌, Option, none, some,
  List, [], ◌∷◌, ◌++◌, map, ◌==◌, if◌then◌else◌, zero_division_error, runtime_error, stop_iteration,
  Result, ok, err, ◌>>=◌, or_raise, any_of,
}
use rv32im_so_c_performance.Base.Int.{ℤ, pos, ◌-ℤ◌, truthy}
use rv32im_so_c_performance.PyText.{Text}
use rv32im_so_c_performance.Stats.{Stats, parse_with}
use rv32im_so_c_performance.Stats.Keys.{milestone6a_keys}
use rv32im_so_c_performance.Suite.{Host, run_capture, check_call, configure, build, first_path}
use rv32im_so_c_performance.Suite.Reading.{stat}

-- `str(n)`: `n` has at most `n` digits behind its first
unfoldable str_from : ℕ → ℕ → String
str_from zero n = slice "0123456789" (n % 10) (n % 10 + 1)
str_from (suc fuel) n =
    let rest = str_from fuel (n / 10) in
    let digit = slice "0123456789" (n % 10) (n % 10 + 1) in
    if n / 10 == 0 then digit else join rest digit

unfoldable pub str : ℕ → String
unfolding str_from
str n = str_from n n

pub data Family : Type 0 where
  cache_grid latency_sweep mixed : Family

pub record Config : Type 0 where
  pub icache_lines : ℕ
  pub dcache_lines : ℕ
  pub memory_latency : ℕ
  pub family : Family

-- A row of the sweep. The quotients `cpi` and the hit rates, which no choice depends on, are left out.
pub record Point : Type 0 where
  pub config : Config
  pub cache_data_bytes : ℕ
  pub retired : ℤ
  pub cycles : ℤ
  pub icache_hits : ℤ
  pub icache_accesses : ℤ
  pub dcache_hits : ℤ
  pub dcache_accesses : ℤ

unfoldable pub parse : Text → Stats
parse = parse_with milestone6a_keys

unfoldable pub exe_path : Host → Result String
unfolding first_path
exe_path host =
    first_path host.exists "rv32im_model not found"
      ("build/Release/rv32im_model.exe" ∷ "build/rv32im_model.exe" ∷ "build/rv32im_model" ∷ [])

abbrev pub command : String → Config → List String
command exe c =
    exe
    ∷ "workloads/milestone4/dhrystone_imem.hex"
    ∷ "--dmem-hex"
    ∷ "workloads/milestone4/dhrystone_dmem.hex"
    ∷ "--enable-caches"
    ∷ "--icache-lines"
    ∷ str c.icache_lines
    ∷ "--dcache-lines"
    ∷ str c.dcache_lines
    ∷ "--memory-latency"
    ∷ str c.memory_latency
    ∷ "--max-insns"
    ∷ "1000000"
    ∷ []

abbrev pub data_bytes : Config → ℕ
data_bytes c = 4 * (c.icache_lines + c.dcache_lines)

-- `x / float(d)` raises where d is 0
abbrev pub divides : ℤ → Result (Unit {0})
divides d = if truthy d then ok tt else err zero_division_error

unfoldable pub simulate : Host → String → Config → Result Point
simulate host exe c = do
  out ← run_capture host (command exe c)
  cycles ← stat "cycles" (parse out)
  retired ← stat "retired" (parse out)
  checked ← divides retired
  icache_hits ← stat "icache_hits" (parse out)
  icache_accesses ← stat "icache_accesses" (parse out)
  dcache_hits ← stat "dcache_hits" (parse out)
  dcache_accesses ← stat "dcache_accesses" (parse out)
  ok (record {
    config = c;
    cache_data_bytes = data_bytes c;
    retired = retired;
    cycles = cycles;
    icache_hits = icache_hits;
    icache_accesses = icache_accesses;
    dcache_hits = dcache_hits;
    dcache_accesses = dcache_accesses;
  })

unfoldable pub simulate_all : Host → String → List Config → Result (List Point)
unfolding simulate
simulate_all host exe [] = ok []
simulate_all host exe (c ∷ cs) = do
  p ← simulate host exe c
  ps ← simulate_all host exe cs
  ok (p ∷ ps)

abbrev pub sizes : List ℕ
sizes = 32 ∷ 64 ∷ 128 ∷ 256 ∷ 512 ∷ []

abbrev pub config : Family → ℕ → ℕ → ℕ → Config
config f i d lat = record { icache_lines = i; dcache_lines = d; memory_latency = lat; family = f }

-- `for i in sizes: for d in sizes:`
abbrev pub grid_row : List ℕ → ℕ → List Config
grid_row ds i = map (λ d. config cache_grid i d 3) ds

abbrev pub grid : List ℕ → List Config
grid [] = []
grid (i ∷ is) = grid_row sizes i ++ grid is

abbrev pub latencies : List ℕ
latencies = 1 ∷ 2 ∷ 4 ∷ 5 ∷ 8 ∷ 12 ∷ []

abbrev pub mixed_points : List Config
mixed_points =
    config mixed 128 64 2
    ∷ config mixed 256 64 2
    ∷ config mixed 256 128 2
    ∷ config mixed 256 256 2
    ∷ config mixed 512 64 2
    ∷ config mixed 256 256 5
    ∷ []

-- The configurations in the order in which they are simulated.
abbrev pub configs : List Config
configs = grid sizes ++ map (λ lat. config latency_sweep 64 64 lat) latencies ++ mixed_points

-- Whether two points have the same key `(icache_lines, dcache_lines, memory_latency)`.
abbrev pub same_key : Config → Config → Bool
same_key a b =
    a.icache_lines == b.icache_lines
    && a.dcache_lines == b.dcache_lines
    && a.memory_latency == b.memory_latency

-- The loop that removes repeated configurations, with the keys that it has seen.
unfoldable pub unique_from : List Config → List Point → List Point
unique_from seen [] = []
unique_from seen (r ∷ rs) =
    let old = unique_from seen rs in
    let new = unique_from (r.config ∷ seen) rs in
    if any_of (same_key r.config) seen then old else r ∷ new

unfoldable pub unique : List Point → List Point
unique rows = unique_from [] rows

-- `next(r for r in rows if ...)`
unfoldable pub next_with : Config → List Point → Result Point
next_with c [] = err stop_iteration
next_with c (r ∷ rs) = if same_key r.config c then ok r else next_with c rs

abbrev pub baseline : Config
baseline = config cache_grid 64 64 3

abbrev pub selected_keys : List Config
selected_keys =
    config latency_sweep 64 64 1
    ∷ config latency_sweep 64 64 5
    ∷ config mixed 256 64 2
    ∷ config mixed 256 256 5
    ∷ []

unfoldable pub select : List Config → List Point → Result (List Point)
unfolding next_with
select [] rows = ok []
select (c ∷ cs) rows = do r ← next_with c rows; rs ← select cs rows; ok (r ∷ rs)
