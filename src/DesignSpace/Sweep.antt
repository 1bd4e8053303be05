-- ===== src/DesignSpace/Sweep.antt =====
-- `main` of scripts/run_milestone6a.py: the sweep, the differences to the baseline, the frontier, the
-- validation points and the ranking. The CSV files, the text of the report and its efficiency list are left out.
use rv32im_so_c_performance.Base.{
  suc, Bool, true, false, Option, none, some, List, [], ◌∷◌, keep_if, leb, ◌++◌, Result, ok, ◌>>=◌,
  ◌>>◌,
}
use rv32im_so_c_performance.Base.Int.{ℤ, pos, ◌-ℤ◌, leb_ℤ}
use rv32im_so_c_performance.Sorting.{sorted}
use rv32im_so_c_performance.Suite.{Host, configure, build, check_call}
use rv32im_so_c_performance.DesignSpace.{
  cache_grid, latency_sweep, mixed, Point, configs, divides, exe_path, simulate_all, unique,
  next_with, baseline, select, selected_keys,
}
use rv32im_so_c_performance.DesignSpace.Pareto.{pareto}

-- What the loop adds to a row. The quotients are left undivided, or out.
pub record Difference : Type 0 where
  pub point : Point
  pub cycle_delta_vs_base : ℤ
  pub extra_cache_data_bytes : ℤ
  -- the saved cycles, where bytes were added
  pub cycles_saved : Option ℤ

abbrev pub saved_if_added : ℤ → ℤ → Option ℤ
saved_if_added (pos (suc n)) saved = some saved
saved_if_added _ saved = none

abbrev pub difference : Point → Point → Difference
difference base r =
    let extra = pos r.cache_data_bytes -ℤ pos base.cache_data_bytes in
    record {
      point = r;
      cycle_delta_vs_base = r.cycles -ℤ base.cycles;
      extra_cache_data_bytes = extra;
      cycles_saved = saved_if_added extra (base.cycles -ℤ r.cycles);
    }

unfoldable pub differences : Point → List Point → Result (List Difference)
unfolding ◌-ℤ◌
differences base [] = ok []
differences base (r ∷ rs) = do
  divides base.cycles
  divides r.cycles
  ds ← differences base rs
  ok (difference base r ∷ ds)

abbrev pub in_grid : Point → Bool
in_grid r = elim r.config.family [ cache_grid ↦ true | latency_sweep ↦ false | mixed ↦ false ]

abbrev pub by_cycles : Point → Point → Bool
by_cycles a b = leb_ℤ a.cycles b.cycles

abbrev pub in_latency_sweep : Point → Bool
in_latency_sweep r = elim r.config.family [
  | cache_grid ↦ false
  | latency_sweep ↦ true
  | mixed ↦ false
]

abbrev pub by_latency : Point → Point → Bool
by_latency a b = leb a.config.memory_latency b.config.memory_latency

pub record Outcome : Type 0 where
  pub base : Point
  pub rows : List Difference
  pub frontier : List Point
  pub selected : List Point
  pub ranked : List Point
  -- the rows of the report's latency table
  pub lat_rows : List Point

abbrev pub explored : List Point → Point → List Difference → List Point → Outcome
explored rows base ds selected = record {
  base = base;
  rows = ds;
  frontier = pareto (keep_if in_grid rows);
  selected = selected;
  ranked = sorted by_cycles rows;
  lat_rows = sorted by_latency (keep_if in_latency_sweep rows ++ base ∷ []);
}

-- What `main` does with the simulated rows.
unfoldable pub explore : List Point → Result Outcome
unfolding unique next_with differences pareto select sorted
explore simulated = do
  base ← next_with baseline (unique simulated)
  ds ← differences base (unique simulated)
  selected ← select selected_keys (unique simulated)
  ok (explored (unique simulated) base ds selected)

unfoldable pub main : Host → Result Outcome
unfolding exe_path simulate_all explore
main host = do
  check_call host configure
  check_call host build
  exe ← exe_path host
  rows ← simulate_all host exe configs
  explore rows
