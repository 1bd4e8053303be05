-- ===== src/Examples/Study.antt =====
-- The architecture study on a reference table in which EFF_256_64 is the fastest case.
use rv32im_so_c_performance.Base.{
  ℕ, ◌+◌, ◌-◌, ◌*◌, ◌/◌, ◌==◌, ◌≡◌, refl, not, String, Bool, false, some, none, Result, ok, err,
  traverse, [], ◌∷◌, map, if◌then◌else◌,
}
use rv32im_so_c_performance.Base.Int.{pos, pos_part}
use rv32im_so_c_performance.Base.Dict.{get, str_eq}
use rv32im_so_c_performance.PyText.{Text, codes, strip}
use rv32im_so_c_performance.Trace.{Row, Files}
use rv32im_so_c_performance.Selection.{classify, classify_from, dominates, all_pairs, any_pair}
use rv32im_so_c_performance.Selection.Inputs.{
  RowFloats, cases, f, load_csv, add_rows, put_case, get_case, merge_case, merge_inputs,
}
use rv32im_so_c_performance.Selection.Metrics.{
  Metrics, add_metrics, base_of, metrics_of, divide, safe_ratio,
}
use rv32im_so_c_performance.Selection.Winners.{best_of, best_from, beats}
use rv32im_so_c_performance.Selection.Study.{Report, costs_of, select_winners, main}
use rv32im_so_c_performance.Selection.Study.Chosen.{Chosen, main-Chosen}
use rv32im_so_c_performance.Examples.Choices.{numbers, ratios}

abbrev digits : ℕ → Text → ℕ
digits n [] = n
digits n (c ∷ s) = digits (10 * n + (c - b'0')) s

abbrev cells : RowFloats ℕ
cells = record {
  parse = λ t. some (digits 0 t);
  truncate = λ x. ok (pos x);
  truthy = λ x. not (x == 0);
  thousand_over = λ x. 1000 / x;
  times_over_thousand = λ n x. ok (pos_part n * x / 1000);
  times = λ x y. x * y;
}

abbrev reference_row : String → String → String → String → Row
reference_row case cycles area power =
    ("case", some (codes case))
    ∷ ("cycles", some (codes cycles))
    ∷ ("period_ns", some (codes "10"))
    ∷ ("area", some (codes area))
    ∷ ("total_mw", some (codes power))
    ∷ ("dynamic_mw", some (codes power))
    ∷ ("leakage_mw", some (codes "1"))
    ∷ []

abbrev files : Files
files path =
    if str_eq path "reference/validated_reference.csv"
    then some (record {
      fieldnames = [];
      rows =
          reference_row "BASE_64_64" "6000" "100" "5"
          ∷ reference_row "EFF_256_64" "3000" "140" "6"
          ∷ reference_row "PERF_512_64" "4000" "160" "7"
          ∷ [];
    })
    else none

abbrev is_file : String → Bool
is_file path = str_eq path "reference/validated_reference.csv"

abbrev empty : Metrics ℕ
empty = record {
  case = "";
  runtime_us = 0;
  area = none;
  total_mw = 0;
  energy_nj = 0;
  wall_speedup = 0;
  area_ratio = none;
  power_ratio = none;
  energy_ratio = 0;
  energy_reduction_pct = 0;
  perf_per_area_norm = none;
  perf_per_watt_norm = none;
  perf_per_watt_area_norm = none;
  edp_nj_us = 0;
  ed2p_nj_us2 = 0;
  edp_efficiency_norm = 0;
  ed2p_efficiency_norm = 0;
  dynamic_fraction_pct = 0;
  leakage_fraction_pct = 0;
}

abbrev report_or : Result (Report ℕ) → Report ℕ
report_or (ok r) = r
report_or (err e) = record {
  rows = [];
  classified = [];
  winners = record {
    performance = empty;
    perf_per_watt = empty;
    perf_per_area = empty;
    energy = empty;
    edp = empty;
  };
  recommended = "";
}

abbrev report : Report ℕ
report = report_or (main numbers cells ratios is_file files "slow" "m7b" "m8b" false)

studied : main numbers cells ratios is_file files "slow" "m7b" "m8b" false ≡ ok report
unfolding main merge_inputs load_csv add_rows put_case get_case get merge_case f strip add_metrics
    base_of metrics_of divide safe_ratio traverse costs_of classify classify_from dominates
    all_pairs any_pair select_winners best_of best_from beats
studied = refl

-- The fastest case is not the recommended one.
fastest : report.winners.performance.case ≡ "EFF_256_64"
unfolding main merge_inputs load_csv add_rows put_case get_case get merge_case f strip add_metrics
    base_of metrics_of divide safe_ratio traverse costs_of classify classify_from dominates
    all_pairs any_pair select_winners best_of best_from beats
fastest = refl

main-Chosen_example :
    (map (λ m. m.case) report.rows ≡ cases)
    × Chosen numbers cells ratios report.winners report.rows
    × (report.recommended ≡ "PERF_512_64")
main-Chosen_example =
    main-Chosen numbers cells ratios is_file files "slow" "m7b" "m8b" false report studied
