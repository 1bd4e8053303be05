-- ===== src/DesignSpace/Sound.antt =====
-- What `main` of scripts/run_milestone6a.py returns: the rows, their differences to the baseline, and the
-- lists that it chooses among them.
use rv32im_so_c_performance.Base.{
  ℕ, ◌≡◌, refl, ap, sym, subst, ◌∙◌, ◌↔◌, inl, inr, String, true, false, List, [], ◌∷◌, ◌++◌,
  keep_if, map, Bool-cases, Result, ok, err, >>=-eq-ok, Ensures, Ensures-ok, ◌>>=◌, Ensures->>=,
  All, arith,
}
use rv32im_so_c_performance.Dominance.{In, here, there, Undominated}
use rv32im_so_c_performance.Sorting.{IsSorted, sorted-IsSorted, sorted-In, In-sorted}
use rv32im_so_c_performance.Suite.{Host, configure, build, check_call}
use rv32im_so_c_performance.DesignSpace.{
  Config, Point, configs, exe_path, simulate_all, same_key, next_with, baseline, select,
  selected_keys,
}
use rv32im_so_c_performance.DesignSpace.Pareto.{Costs, pareto-frontier}
use rv32im_so_c_performance.DesignSpace.Points.{configs_of, simulate_all-configs, sweep-lookups}
use rv32im_so_c_performance.DesignSpace.Measured.{IsMeasured, simulate_all-IsMeasured}
use rv32im_so_c_performance.DesignSpace.Sweep.{
  Difference, differences, in_grid, in_latency_sweep, by_cycles, by_latency, Outcome, explored,
  explore, main,
}
use rv32im_so_c_performance.DesignSpace.Compared.{points_of, IsCompared, differences-IsCompared}

-- The sizes of a row's caches, and its latency.
abbrev pub sizes_of : Config → ℕ × ℕ × ℕ
sizes_of c = (c.icache_lines, c.dcache_lines, c.memory_latency)

same_key-sizes_of : (a b : Config) → same_key a b ≡ true → sizes_of a ≡ sizes_of b
same_key-sizes_of a b h =
    let i : a.icache_lines ≡ b.icache_lines = ground (arith, h) in
    let d : a.dcache_lines ≡ b.dcache_lines = ground (arith, h) in
    let l : a.memory_latency ≡ b.memory_latency = ground (arith, h) in rw (i, d, l) refl

Ensures-map {ℓ} :
    {V : Type ℓ} {P Q : V → Type 0} (r : Result V)
    → Ensures P r
    → ((v : V) → P v → Q v)
    → Ensures Q r
Ensures-map (ok v) h k = k v h
Ensures-map (err e) h k = tt

-- A row that a search finds stands in the list, and has the sizes that are looked for.
next_with-Found :
    (c : Config) (rows : List Point)
    → Ensures (λ p. In p rows × (sizes_of p.config ≡ sizes_of c)) (next_with c rows)
unfolding next_with
next_with-Found c [] = tt
next_with-Found c (r ∷ rs) = elim (Bool-cases (same_key r.config c)) [
  | inl e ↦ rw e (here refl, same_key-sizes_of r.config c e)
  | inr e ↦
      rw e (Ensures-map (next_with c rs) (next_with-Found c rs) (λ p (m, same). (there m, same)))
]

select-Found :
    (cs : List Config) (rows : List Point)
    → Ensures
        (λ (ps : List Point).
          (map (λ p. sizes_of p.config) ps ≡ map sizes_of cs) × All (λ p. In p rows) ps)
        (select cs rows)
unfolding select
select-Found [] rows = (refl, tt)
select-Found (c ∷ cs) rows =
    let Found : Config → Point → Type 0 = λ c p. In p rows × (sizes_of p.config ≡ sizes_of c) in
    Ensures->>= (Found c) _ (next_with c rows) _ (next_with-Found c rows) (λ p (m, same).
      Ensures-map (select cs rows >>= λ rs. ok (p ∷ rs))
        (Ensures->>= _
          (λ (ps : List Point).
            (map (λ p. sizes_of p.config) ps ≡ map sizes_of (c ∷ cs)) × All (λ p. In p rows) ps)
          (select cs rows) _ (select-Found cs rows)
          (λ rs (sizes, others). (
            ap (λ x. x ∷ map (λ p. sizes_of p.config) rs) same ∙ ap (λ l. sizes_of c ∷ l) sizes,
            (m, others),
          )))
        (λ ps h. h))

by_cycles-total : (a b : Point) → by_cycles a b ≡ false → by_cycles b a ≡ true
by_cycles-total a b h = ground arith

by_cycles_trans :
    (a b c : Point) → by_cycles a b ≡ true → by_cycles b c ≡ true → by_cycles a c ≡ true
by_cycles_trans a b c h k = ground arith

by_latency-total : (a b : Point) → by_latency a b ≡ false → by_latency b a ≡ true
by_latency-total a b h = ground arith

by_latency_trans :
    (a b c : Point) → by_latency a b ≡ true → by_latency b c ≡ true → by_latency a c ≡ true
by_latency_trans a b c h k = ground arith

-- The points that the outcome's rows hold are those of the sweep, each with the numbers of its own run;
-- all else is made of them.
pub record IsExplored (host : Host) (exe : String) (o : Outcome) : Type 0 where
  pub configurations : configs_of (points_of o.rows) ≡ configs
  pub measured : All (IsMeasured host exe) (points_of o.rows)
  pub base_sizes : sizes_of o.base.config ≡ (64, 64, 3)
  pub base_row : In o.base (points_of o.rows)
  pub compared : All (IsCompared o.base) o.rows
  pub frontier :
      (q : Point)
      → In q o.frontier ↔ (
          In q (keep_if in_grid (points_of o.rows))
          × Undominated Costs q (keep_if in_grid (points_of o.rows)))
  pub selected_sizes :
      map (λ (p : Point). sizes_of p.config) o.selected
      ≡ (64, 64, 1) ∷ (64, 64, 5) ∷ (256, 64, 2) ∷ (256, 256, 5) ∷ []
  pub selected_rows : All (λ (p : Point). In p (points_of o.rows)) o.selected
  pub ranked_sorted : IsSorted by_cycles o.ranked
  pub ranked : (p : Point) → In p o.ranked ↔ In p (points_of o.rows)
  pub lat_rows_sorted : IsSorted by_latency o.lat_rows
  pub lat_rows :
      (p : Point)
      → In p o.lat_rows ↔ In p (keep_if in_latency_sweep (points_of o.rows) ++ o.base ∷ [])

module _ (host : Host) (exe : String) (rows : List Point)
    (ran : simulate_all host exe configs ≡ ok rows) where
  explored-IsExplored :
      (base : Point) (ds : List Difference) (selected : List Point)
      → In base rows × (sizes_of base.config ≡ (64, 64, 3))
      → (points_of ds ≡ rows) × All (IsCompared base) ds
      → (map (λ (p : Point). sizes_of p.config) selected
          ≡ (64, 64, 1) ∷ (64, 64, 5) ∷ (256, 64, 2) ∷ (256, 256, 5) ∷ [])
        × All (λ (p : Point). In p rows) selected
      → IsExplored host exe (explored rows base ds selected)
  explored-IsExplored base ds selected (m, sizes) (same, each) (chosen, all) =
      let late : List Point = keep_if in_latency_sweep rows ++ base ∷ [] in
      record {
        configurations = ap configs_of same ∙ simulate_all-configs host exe configs rows ran;
        measured =
            subst (All (IsMeasured host exe)) (sym same)
              (simulate_all-IsMeasured host exe configs rows ran);
        base_sizes = sizes;
        base_row = subst (In base) (sym same) m;
        compared = each;
        frontier = rw same ((pareto-frontier (keep_if in_grid rows)).1);
        selected_sizes = chosen;
        selected_rows = rw same all;
        ranked_sorted = sorted-IsSorted by_cycles by_cycles-total by_cycles_trans rows;
        ranked = rw same (λ p. (sorted-In by_cycles p rows, In-sorted by_cycles p rows));
        lat_rows_sorted = sorted-IsSorted by_latency by_latency-total by_latency_trans late;
        lat_rows = rw same (λ p. (sorted-In by_latency p late, In-sorted by_latency p late));
      }

  explore-IsExplored : Ensures (IsExplored host exe) (explore rows)
  unfolding explore
  explore-IsExplored =
      let (kept, _, _) = sweep-lookups host exe rows ran in
      rw kept (
        Ensures->>= _ (IsExplored host exe) (next_with baseline rows) _
          (next_with-Found baseline rows)
          (λ base found.
            Ensures->>= _ (IsExplored host exe) (differences base rows) _
              (differences-IsCompared base rows)
              (λ ds compared.
                Ensures->>= _ (IsExplored host exe) (select selected_keys rows) _
                  (select-Found selected_keys rows)
                  (λ selected chosen. explored-IsExplored base ds selected found compared chosen))))

-- If the sweep returns, its rows are the 37 configurations in their order, each with the numbers that the
-- run with its own cache sizes and latency printed, and with its differences to the baseline, the row
-- of 64 and 64 lines at latency 3; the frontier holds exactly the points of the cache grid that no point
-- of the grid dominates; the validation points are the rows of their four keys; the ranking holds the same
-- points as the rows, in the order of their cycles; and the latency table holds the points of the latency
-- sweep and the baseline, in the order of their latencies.
pub main-IsExplored :
    (host : Host) (o : Outcome)
    → main host ≡ ok o
    → (exe : String) × (exe_path host ≡ ok exe) × IsExplored host exe o
unfolding main
main-IsExplored host o h =
    let (_, _, h1) = >>=-eq-ok (check_call host configure) _ h in
    let (_, _, h2) = >>=-eq-ok (check_call host build) _ h1 in
    let (exe, found, h3) = >>=-eq-ok (exe_path host) _ h2 in
    let (rows, ran, h4) = >>=-eq-ok (simulate_all host exe configs) _ h3 in
    (
      exe,
      found,
      Ensures-ok (IsExplored host exe) (explore rows) o h4 (explore-IsExplored host exe rows ran),
    )
