-- ===== src/Selection/Study.antt =====
-- `main` and the selections of `write_reports` of scripts/run_architecture_selection.py: the merged
-- rows, their ratios, the comparison of their costs, and the cases that the report names as winners.
-- The laid-out tables, charts and CSV text are output only.
pub mod Chosen
use rv32im_so_c_performance.Base.{String, Bool, some, List, Result, ok, ◌>>=◌, traverse}
use rv32im_so_c_performance.Trace.{Files}
use rv32im_so_c_performance.Selection.{Floats, Architecture, Classification, classify}
use rv32im_so_c_performance.Selection.Inputs.{RowFloats, merge_inputs}
use rv32im_so_c_performance.Selection.Metrics.{RatioFloats, Metrics, add_metrics, number}
use rv32im_so_c_performance.Selection.Winners.{best_of}

-- The rows of the `Selection:` part of the report.
pub record Winners (F : Type 0) : Type 0 where
  pub performance : Metrics F
  pub perf_per_watt : Metrics F
  pub perf_per_area : Metrics F
  pub energy : Metrics F
  pub edp : Metrics F

pub record Report (F : Type 0) : Type 0 where
  pub rows : List (Metrics F)
  pub classified : List (Classification F)
  pub winners : Winners F
  -- the case that the report recommends, in a fixed sentence
  pub recommended : String

module _ {F : Type 0} (costs : Floats F) where
  -- The comparison of `max` and that of `min`.
  abbrev pub greater : F → F → Bool
  greater x y = costs.lt y x

  abbrev pub less : F → F → Bool
  less x y = costs.lt x y

  unfoldable pub select_winners : List (Metrics F) → Result (Winners F)
  unfolding best_of
  select_winners rows = do
    perf ← best_of greater (λ r. some r.wall_speedup) rows
    eff ← best_of greater (λ r. r.perf_per_watt_norm) rows
    pa ← best_of greater (λ r. r.perf_per_area_norm) rows
    energy ← best_of less (λ r. some r.energy_nj) rows
    edp ← best_of greater (λ r. some r.edp_efficiency_norm) rows
    ok (record {
      performance = perf;
      perf_per_watt = eff;
      perf_per_area = pa;
      energy = energy;
      edp = edp;
    })

module _ {F : Type 0} (costs : Floats F) (cells : RowFloats F) (ratios : RatioFloats F) where
  -- A row as `dominates` reads it. A missing area raises a TypeError there: of the three rows, each is
  -- compared with another one, and the test of `all` or that of `any` comes to the areas.
  unfoldable pub costs_of : Metrics F → Result (Architecture F)
  costs_of m = do
    area ← number ratios m.area
    ok (record {
      case = m.case;
      runtime_us = m.runtime_us;
      area = area;
      total_mw = m.total_mw;
      energy_nj = m.energy_nj;
    })

  unfoldable pub main :
      (String → Bool) → Files → String → String → String → Bool → Result (Report F)
  unfolding merge_inputs add_metrics costs_of classify select_winners traverse
  main is_file files corner m7b_root m8b_root strict = do
    merged ← merge_inputs cells is_file files corner m7b_root m8b_root strict
    rows ← add_metrics ratios merged
    compared ← traverse costs_of rows
    winners ← select_winners costs rows
    ok (record {
      rows = rows;
      classified = classify costs compared;
      winners = winners;
      recommended = "PERF_512_64";
    })
