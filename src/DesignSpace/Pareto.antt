-- ===== src/DesignSpace/Pareto.antt =====
-- `pareto` of scripts/run_milestone6a.py: the points of the cache grid that no other point beats on
-- the bytes of the data arrays and on the cycles, in the order of their costs.
use rv32im_so_c_performance.Base.{
  ◌≡◌, ◌↔◌, Bool, true, false, ◌&&◌, ◌||◌, not, List, ltb, leb, arith,
}
use rv32im_so_c_performance.Base.Int.{leb_ℤ}
use rv32im_so_c_performance.Dominance.{Dominance, In, Undominated, NoWorse}
use rv32im_so_c_performance.Dominance.Frontier.{
  is_undominated, undominated, undominated-keep_if, undominated_sound, undominated_complete,
  keep_if-In, All-any_of,
}
use rv32im_so_c_performance.Sorting.{sorted, IsSorted, sorted-IsSorted, sorted-In, In-sorted}
use rv32im_so_c_performance.DesignSpace.{Point}

abbrev pub no_worse : Point → Point → Bool
no_worse b a = leb b.cache_data_bytes a.cache_data_bytes && leb_ℤ b.cycles a.cycles

abbrev pub strict : Point → Point → Bool
strict b a = ltb b.cache_data_bytes a.cache_data_bytes || not (leb_ℤ a.cycles b.cycles)

abbrev pub dominates : Point → Point → Bool
dominates b a = no_worse b a && strict b a

pub dominates_irrefl : (a : Point) → dominates a a ≡ false
dominates_irrefl a = ground arith

pub dominates_trans :
    (a b c : Point) → dominates a b ≡ true → dominates b c ≡ true → dominates a c ≡ true
dominates_trans a b c h k = ground arith

abbrev pub Costs : Dominance Point
Costs = record { dominates = dominates; irrefl = dominates_irrefl; trans = dominates_trans }

-- The key `(cache_data_bytes, cycles)`, as Python compares tuples.
abbrev pub by_cost : Point → Point → Bool
by_cost a b =
    ltb a.cache_data_bytes b.cache_data_bytes
    || leb a.cache_data_bytes b.cache_data_bytes && leb_ℤ a.cycles b.cycles

unfoldable pub pareto : List Point → List Point
unfolding undominated sorted
pareto rows = sorted by_cost (undominated Costs rows)

by_cost-total : (a b : Point) → by_cost a b ≡ false → by_cost b a ≡ true
by_cost-total a b h = ground arith

by_cost_trans : (a b c : Point) → by_cost a b ≡ true → by_cost b c ≡ true → by_cost a c ≡ true
by_cost_trans a b c h k = ground arith

pareto-In :
    (rows : List Point) (q : Point) → In q (pareto rows) ↔ (In q rows × Undominated Costs q rows)
unfolding pareto
pareto-In rows q = (
  λ m. undominated_sound Costs rows q (sorted-In by_cost q (undominated Costs rows) m),
  λ (m, h). In-sorted by_cost q (undominated Costs rows) (
      rw (undominated-keep_if Costs rows) (
        keep_if-In (is_undominated Costs rows) q rows m
          (rw (All-any_of (λ b. dominates b q) rows h)))),
)

pareto-NoWorse :
    (rows : List Point) (p : Point)
    → In p rows
    → (q : Point) × In q (pareto rows) × NoWorse Costs q p
unfolding pareto
pareto-NoWorse rows p m =
    let (q, kept, better) = undominated_complete Costs rows p m in
    (q, In-sorted by_cost q (undominated Costs rows) kept, better)

-- The frontier is sorted by bytes, then cycles; its points are exactly the points that no point
-- dominates; and for every point it holds one that is that point or dominates it.
pub pareto-frontier :
    (rows : List Point)
    → IsSorted by_cost (pareto rows)
      × ((q : Point) → In q (pareto rows) ↔ (In q rows × Undominated Costs q rows))
      × ((p : Point) → In p rows → (q : Point) × In q (pareto rows) × NoWorse Costs q p)
unfolding pareto
pareto-frontier rows = (
  sorted-IsSorted by_cost by_cost-total by_cost_trans (undominated Costs rows),
  pareto-In rows,
  pareto-NoWorse rows,
)
