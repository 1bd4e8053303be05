-- ===== src/Examples/Choices.antt =====
-- Design points and architectures.
use rv32im_so_c_performance.Base.{
  ℕ, ◌+◌, ◌-◌, ◌*◌, ◌/◌, ◌==◌, ◌≡◌, ◌↔◌, true, List, [], ◌∷◌, map, ltb, leb, String, some, ok, refl,
  All, traverse, arith,
}
use rv32im_so_c_performance.Base.Int.{pos}
use rv32im_so_c_performance.Dominance.{In, Undominated, NoWorse}
use rv32im_so_c_performance.Sorting.{IsSorted}
use rv32im_so_c_performance.DesignSpace.{cache_grid, config, Point}
use rv32im_so_c_performance.DesignSpace.Pareto
use rv32im_so_c_performance.DesignSpace.Pareto.{by_cost, pareto, pareto-frontier}
use rv32im_so_c_performance.Selection.{Floats, Architecture, classify}
use rv32im_so_c_performance.Selection
use rv32im_so_c_performance.Selection.Inputs.{Merged}
use rv32im_so_c_performance.Selection.Metrics.{
  RatioFloats, Metrics, add_metrics, base_of, metrics_of, divide, safe_ratio,
}
use rv32im_so_c_performance.Selection.Measured.{IsMeasured, HasBase, add_metrics-IsMeasured}
use rv32im_so_c_performance.Selection.Classified.{label, efficient, classify-label}

abbrev point : ℕ → ℕ → ℕ → Point
point i d cycles = record {
  config = config cache_grid i d 3;
  cache_data_bytes = 4 * (i + d);
  retired = pos 1000;
  cycles = pos cycles;
  icache_hits = pos 0;
  icache_accesses = pos 0;
  dcache_hits = pos 0;
  dcache_accesses = pos 0;
}

abbrev points : List Point
points = point 64 64 1500 ∷ point 32 64 1800 ∷ point 64 32 1700 ∷ point 64 64 1500 ∷ []

pareto-frontier_example :
    IsSorted by_cost (pareto points)
    × ((q : Point) → In q (pareto points) ↔ (In q points × Undominated Pareto.Costs q points))
    × ((p : Point) → In p points → (q : Point) × In q (pareto points) × NoWorse Pareto.Costs q p)
pareto-frontier_example = pareto-frontier points

-- Numbers in place of floats.
abbrev pub numbers : Floats ℕ
numbers = record {
  le = λ x y. leb x y;
  lt = λ x y. ltb x y;
  lt_irrefl = λ x. ground arith;
  le_trans = λ x y z h k. ground arith;
  lt_trans = λ x y z h k. ground arith;
  lt_le_trans = λ x y z h k. ground arith;
}

abbrev architecture : String → ℕ → ℕ → ℕ → ℕ → Architecture ℕ
architecture case runtime area power energy = record {
  case = case;
  runtime_us = runtime;
  area = area;
  total_mw = power;
  energy_nj = energy;
}

abbrev architectures : List (Architecture ℕ)
architectures =
    architecture "BASE_64_64" 30 10 5 150
    ∷ architecture "EFF_256_64" 20 14 6 120
    ∷ architecture "PERF_512_64" 20 14 7 140
    ∷ []

classify-label_example :
    (classify numbers architectures ≡ map (label numbers architectures) architectures)
    × ((r : Architecture ℕ)
        → ((label numbers architectures r).pareto_efficient ≡ true)
          ↔ Undominated (Selection.Costs numbers) r architectures)
    × ((p : Architecture ℕ)
        → In p architectures
        → (q : Architecture ℕ) × In (efficient numbers q) (classify numbers architectures)
          × NoWorse (Selection.Costs numbers) q p)
classify-label_example = classify-label numbers architectures

-- Scaled numbers in place of floats.
abbrev pub ratios : RatioFloats ℕ
ratios = record {
  is_zero = λ x. x == 0;
  over = λ a b. 1000 * a / b;
  times = λ a b. a * b;
  reduction = λ x. 1000 - x;
  percent = λ x. 100 * x;
}

abbrev merged : String → ℕ → ℕ → ℕ → ℕ → Merged ℕ
merged case runtime area power energy = record {
  case = case;
  icache_lines = pos 64;
  dcache_lines = pos 64;
  cycles = pos 1000;
  period_ns = some 10;
  fmax_mhz = some 100;
  runtime_us = runtime;
  area = some area;
  total_mw = some power;
  dynamic_mw = some power;
  leakage_mw = some 1;
  energy_nj = some energy;
  from_m7b = true;
  from_m8b = true;
}

abbrev rows : List (Merged ℕ)
rows = merged "BASE_64_64" 10 100 5 50 ∷ merged "PERF_512_64" 6 300 7 42 ∷ []

add_metrics-IsMeasured_example :
    ((ms : List (Metrics ℕ)) × (add_metrics ratios rows ≡ ok ms))
    ↔ ((base : Merged ℕ) × HasBase ratios rows base × All (IsMeasured ratios base) rows)
add_metrics-IsMeasured_example = add_metrics-IsMeasured ratios rows

-- The ratios of the rows are computed.
measured : (ms : List (Metrics ℕ)) × (add_metrics ratios rows ≡ ok ms)
unfolding add_metrics base_of metrics_of divide safe_ratio traverse
measured = (_, refl)
