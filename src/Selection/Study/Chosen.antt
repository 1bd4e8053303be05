-- ===== src/Selection/Study/Chosen.antt =====
-- What the architecture study chooses: the winners of the report of scripts/run_architecture_selection.py.
use Prim.Native.String.{◌++◌ as join}
use rv32im_so_c_performance.Base.{
  ◌≡◌, refl, ap, subst, ◌∙◌, String, Bool, true, Option, some, List, [], ◌∷◌, map, Result, ok,
  ◌>>=◌, >>=-eq-ok, traverse, Ensures, Ensures-ok, Ensures-if, Ensures->>=, Ensures-any, ◌&&◌, ◌||◌,
}
use rv32im_so_c_performance.PyText.{codes}
use rv32im_so_c_performance.Trace.{Files}
use rv32im_so_c_performance.Selection.{Floats}
use rv32im_so_c_performance.Selection.Inputs.{
  RowFloats, Merged, ByCase, cases, merge_case, merge_inputs, or_empty, is_empty, get_case,
  first_of, truncated, runtime, load_csv,
}
use rv32im_so_c_performance.Selection.Metrics.{
  RatioFloats, Metrics, metrics_of, add_metrics, number, divide, safe_ratio, base_of,
}
use rv32im_so_c_performance.Selection.Winners.{best_of, best_of-Wins, Wins}
use rv32im_so_c_performance.Selection.Study.{
  Winners, Report, greater, less, costs_of, select_winners, main,
}

module _ {F : Type 0} (costs : Floats F) (cells : RowFloats F) (ratios : RatioFloats F) where
  after :
      {V W : Type 0} (P : W → Type 0) (r : Result V) (next : V → Result W)
      → ((v : V) → Ensures P (next v))
      → Ensures P (r >>= next)
  after P r next h = Ensures->>= (λ _. Unit {0}) P r next (Ensures-any r) (λ v _. h v)

  metrics_of-case :
      (base : Merged F) (base_edp base_ed2p : F) (r : Merged F)
      → Ensures (λ m. m.case ≡ r.case) (metrics_of ratios base base_edp base_ed2p r)
  unfolding metrics_of
  metrics_of-case base base_edp base_ed2p r =
      let P : Metrics F → Type 0 = λ m. m.case ≡ r.case in
      after P (divide ratios base.runtime_us r.runtime_us) _ (λ speedup.
        after P (number ratios (safe_ratio ratios r.energy_nj base.energy_nj)) _ (λ ratio.
          after P (number ratios r.energy_nj) _ (λ energy.
            let edp = ratios.times energy r.runtime_us in
            after P (divide ratios base_edp edp) _ (λ efficiency.
              after P (divide ratios base_ed2p (ratios.times edp r.runtime_us)) _ (λ squared.
                after P (number ratios (safe_ratio ratios r.dynamic_mw r.total_mw)) _ (λ dynamic.
                  after P (number ratios (safe_ratio ratios r.leakage_mw r.total_mw)) _
                    (λ leakage. after P (number ratios r.total_mw) _ (λ total. refl))))))))

  traverse-map :
      {V W : Type 0} (f : V → Result W) (g : W → String) (k : V → String) (xs : List V)
      → ((x : V) → Ensures (λ y. g y ≡ k x) (f x))
      → Ensures (λ ys. map g ys ≡ map k xs) (traverse f xs)
  unfolding traverse
  traverse-map f g k [] h = refl
  traverse-map f g k (x ∷ xs) h =
      Ensures->>= (λ y. g y ≡ k x) _ (f x) _ (h x)
        (λ y e.
          Ensures->>= (λ ys. map g ys ≡ map k xs) _ (traverse f xs) _ (traverse-map f g k xs h)
            (λ ys es. ap (λ z. z ∷ map g ys) e ∙ ap (λ zs. k x ∷ zs) es))

  add_metrics-case :
      (rows : List (Merged F))
      → Ensures
          (λ (ms : List (Metrics F)). map (λ m. m.case) ms ≡ map (λ r. r.case) rows)
          (add_metrics ratios rows)
  unfolding add_metrics
  add_metrics-case rows = after _ (base_of ratios rows) _ (λ base.
      after _ (number ratios base.energy_nj) _ (λ energy.
        let edp = ratios.times energy base.runtime_us in
        let ed2p = ratios.times edp base.runtime_us in
        traverse-map (metrics_of ratios base edp ed2p) (λ m. m.case) (λ r. r.case) rows
          (metrics_of-case base edp ed2p)))

  -- The rows that win, by what the report names them for.
  abbrev pub Chosen : Winners F → List (Metrics F) → Type 0
  Chosen w rows =
      Wins (greater costs) (λ r. some r.wall_speedup) w.performance rows
      × Wins (greater costs) (λ r. r.perf_per_watt_norm) w.perf_per_watt rows
      × Wins (greater costs) (λ r. r.perf_per_area_norm) w.perf_per_area rows
      × Wins (less costs) (λ r. some r.energy_nj) w.energy rows
      × Wins (greater costs) (λ r. some r.edp_efficiency_norm) w.edp rows

  greater_trans :
      (x y z : F) → greater costs x y ≡ true → greater costs y z ≡ true → greater costs x z ≡ true
  greater_trans x y z h k = costs.lt_trans z y x k h

  select_winners-Chosen :
      (rows : List (Metrics F)) (w : Winners F) → select_winners costs rows ≡ ok w → Chosen w rows
  unfolding select_winners
  select_winners-Chosen rows w h =
      let speedup : Metrics F → Option F = λ r. some r.wall_speedup in
      let energy : Metrics F → Option F = λ r. some r.energy_nj in
      let edp : Metrics F → Option F = λ r. some r.edp_efficiency_norm in
      let (a, ea, h1) = >>=-eq-ok (best_of (greater costs) speedup rows) _ h in
      let (b, eb, h2) = >>=-eq-ok (best_of (greater costs) (λ r. r.perf_per_watt_norm) rows) _ h1 in
      let (c, ec, h3) = >>=-eq-ok (best_of (greater costs) (λ r. r.perf_per_area_norm) rows) _ h2 in
      let (d, ed, h4) = >>=-eq-ok (best_of (less costs) energy rows) _ h3 in
      let (e, ee, h5) = >>=-eq-ok (best_of (greater costs) edp rows) _ h4 in
      subst (λ r. Ensures (λ w. Chosen w rows) r) h5
        (
          best_of-Wins (greater costs) speedup costs.lt_irrefl greater_trans rows a ea,
          best_of-Wins (greater costs) _ costs.lt_irrefl greater_trans rows b eb,
          best_of-Wins (greater costs) _ costs.lt_irrefl greater_trans rows c ec,
          best_of-Wins (less costs) energy costs.lt_irrefl costs.lt_trans rows d ed,
          best_of-Wins (greater costs) edp costs.lt_irrefl greater_trans rows e ee,
        )

  merge_case-case :
      (ref m7 m8 : ByCase) (case : String)
      → Ensures (λ m. m.case ≡ case) (merge_case cells ref m7 m8 case)
  unfolding merge_case
  merge_case-case ref m7 m8 case =
      let P : Merged F → Type 0 = λ m. m.case ≡ case in
      let rr = or_empty cells (get_case (codes case) ref) in
      let a = or_empty cells (get_case (codes case) m7) in
      let p = or_empty cells (get_case (codes case) m8) in
      let read : String → String → Option F = λ x y. first_of cells a x p y rr y in
      after P (truncated cells (read "icache_lines" "icache_lines")) _ (λ icache_lines.
        after P (truncated cells (read "dcache_lines" "dcache_lines")) _ (λ dcache_lines.
          after P (truncated cells (read "dhrystone_cycles" "cycles")) _ (λ cycles.
            after P (runtime cells cycles (read "best_met_period_ns" "period_ns")) _
              (λ time. refl))))

  merge_inputs-cases :
      (is_file : String → Bool) (files : Files) (corner m7b_root m8b_root : String) (strict : Bool)
      → Ensures
          (λ (ms : List (Merged F)). map (λ m. m.case) ms ≡ cases)
          (merge_inputs cells is_file files corner m7b_root m8b_root strict)
  unfolding merge_inputs
  merge_inputs-cases is_file files corner m7b_root m8b_root strict =
      let P : List (Merged F) → Type 0 = λ ms. map (λ m. m.case) ms ≡ cases in
      let table : String → Result ByCase = λ path. load_csv is_file files path in
      let m7_path = join m7b_root (join "/results/milestone7b/" (join corner "/best_points.csv")) in
      let m8_path =
        join m8b_root (join "/results/milestone8b/" (join corner "/power_summary.csv")) in
      after P (table "reference/validated_reference.csv") _ (λ ref. after P (table m7_path) _ (λ m7.
        after P (table m8_path) _ (λ m8.
          Ensures-if P (strict && (is_empty cells m7 || is_empty cells m8)) _ _ tt (
            traverse-map (merge_case cells ref m7 m8) (λ m. m.case) (λ c. c) cases
              (merge_case-case ref m7 m8)))))

  -- If the study returns, its rows are the three cases in their order; no row beats the winners that the
  -- report names, on speedup, on speedup for the power, on speedup for the area, on energy and on
  -- the efficiency by energy and time, and the keys that were compared are all there; and the
  -- recommended case is PERF_512_64, whichever rows have won.
  pub main-Chosen :
      (is_file : String → Bool) (files : Files) (corner m7b_root m8b_root : String) (strict : Bool)
      (o : Report F)
      → main costs cells ratios is_file files corner m7b_root m8b_root strict ≡ ok o
      → (map (λ m. m.case) o.rows ≡ cases)
        × Chosen o.winners o.rows
        × (o.recommended ≡ "PERF_512_64")
  unfolding main
  main-Chosen is_file files corner m7b_root m8b_root strict o h =
      let (merged, read, h1) =
        >>=-eq-ok (merge_inputs cells is_file files corner m7b_root m8b_root strict) _ h in
      let (rows, added, h2) = >>=-eq-ok (add_metrics ratios merged) _ h1 in
      let (compared, _, h3) = >>=-eq-ok (traverse (costs_of costs cells ratios) rows) _ h2 in
      let (w, won, h4) = >>=-eq-ok (select_winners costs rows) _ h3 in
      let named : map (λ (m : Merged F). m.case) merged ≡ cases =
        Ensures-ok _ _ merged read
          (merge_inputs-cases is_file files corner m7b_root m8b_root strict) in
      let kept : map (λ (m : Metrics F). m.case) rows ≡ map (λ (m : Merged F). m.case) merged =
        Ensures-ok _ _ rows added (add_metrics-case merged) in
      subst
        (λ r.
          Ensures
            (λ (o : Report F).
              (map (λ m. m.case) o.rows ≡ cases)
              × Chosen o.winners o.rows
              × (o.recommended ≡ "PERF_512_64"))
            r)
        h4 (kept ∙ named, select_winners-Chosen rows w won, refl)
