-- ===== src/Selection/Metrics.antt =====
-- `safe_ratio` and `add_metrics` of scripts/run_architecture_selection.py: the ratios of each case to the
-- baseline. The arithmetic of Python's floats is a parameter.
use rv32im_so_c_performance.Base.{
  String, Bool, not, ◌&&◌, Option, none, some, List, [], ◌∷◌, if◌then◌else◌, type_error,
  zero_division_error, stop_iteration, Result, ok, err, ◌>>=◌, traverse,
}
use rv32im_so_c_performance.Base.Dict.{str_eq}
use rv32im_so_c_performance.Selection.Inputs.{Merged}

pub record RatioFloats (F : Type 0) : Type 0 where
  -- `x == 0`, which is also `not x`
  pub is_zero : F → Bool
  -- `a / b`, of a `b` that is not 0
  pub over : F → F → F
  pub times : F → F → F
  -- `(1.0 - x) * 100.0` and `x * 100.0`
  pub reduction : F → F
  pub percent : F → F

pub record Metrics (F : Type 0) : Type 0 where
  pub case : String
  pub runtime_us : F
  pub area : Option F
  pub total_mw : F
  pub energy_nj : F
  pub wall_speedup : F
  pub area_ratio : Option F
  pub power_ratio : Option F
  pub energy_ratio : F
  pub energy_reduction_pct : F
  pub perf_per_area_norm : Option F
  pub perf_per_watt_norm : Option F
  pub perf_per_watt_area_norm : Option F
  pub edp_nj_us : F
  pub ed2p_nj_us2 : F
  pub edp_efficiency_norm : F
  pub ed2p_efficiency_norm : F
  pub dynamic_fraction_pct : F
  pub leakage_fraction_pct : F

module _ {F : Type 0} (floats : RatioFloats F) where
  -- `a / b` of floats
  unfoldable pub divide : F → F → Result F
  divide a b = if floats.is_zero b then err zero_division_error else ok (floats.over a b)

  unfoldable pub safe_ratio : Option F → Option F → Option F
  safe_ratio none b = none
  safe_ratio (some a) none = none
  safe_ratio (some a) (some b) = if floats.is_zero b then none else some (floats.over a b)

  -- The use of a value in arithmetic: a TypeError for None.
  abbrev pub number : Option F → Result F
  number none = err type_error
  number (some x) = ok x

  -- `(p * a) if p and a else None`
  abbrev product : Option F → Option F → Option F
  product none a = none
  product (some p) none = none
  product (some p) (some a) =
      if not (floats.is_zero p) && not (floats.is_zero a) then some (floats.times p a) else none

  unfoldable pub base_of : List (Merged F) → Result (Merged F)
  base_of [] = err stop_iteration
  base_of (r ∷ rs) = if str_eq r.case "BASE_64_64" then ok r else base_of rs

  unfoldable pub metrics_of : Merged F → F → F → Merged F → Result (Metrics F)
  unfolding divide safe_ratio
  metrics_of base base_edp base_ed2p r = do
    wall_speedup ← divide base.runtime_us r.runtime_us
    let area_ratio = safe_ratio r.area base.area
    let power_ratio = safe_ratio r.total_mw base.total_mw
    energy_ratio ← number (safe_ratio r.energy_nj base.energy_nj)
    energy_nj ← number r.energy_nj
    let edp = floats.times energy_nj r.runtime_us
    let ed2p = floats.times edp r.runtime_us
    edp_efficiency ← divide base_edp edp
    ed2p_efficiency ← divide base_ed2p ed2p
    dynamic ← number (safe_ratio r.dynamic_mw r.total_mw)
    leakage ← number (safe_ratio r.leakage_mw r.total_mw)
    total_mw ← number r.total_mw
    ok (record {
      case = r.case;
      runtime_us = r.runtime_us;
      area = r.area;
      total_mw = total_mw;
      energy_nj = energy_nj;
      wall_speedup = wall_speedup;
      area_ratio = area_ratio;
      power_ratio = power_ratio;
      energy_ratio = energy_ratio;
      energy_reduction_pct = floats.reduction energy_ratio;
      perf_per_area_norm = safe_ratio (some wall_speedup) area_ratio;
      perf_per_watt_norm = safe_ratio (some wall_speedup) power_ratio;
      perf_per_watt_area_norm = safe_ratio (some wall_speedup) (product power_ratio area_ratio);
      edp_nj_us = edp;
      ed2p_nj_us2 = ed2p;
      edp_efficiency_norm = edp_efficiency;
      ed2p_efficiency_norm = ed2p_efficiency;
      dynamic_fraction_pct = floats.percent dynamic;
      leakage_fraction_pct = floats.percent leakage;
    })

  unfoldable pub add_metrics : List (Merged F) → Result (List (Metrics F))
  unfolding base_of metrics_of
  add_metrics rows = do
    base ← base_of rows
    energy ← number base.energy_nj
    let base_edp = floats.times energy base.runtime_us
    let base_ed2p = floats.times base_edp base.runtime_us
    traverse (metrics_of base base_edp base_ed2p) rows
