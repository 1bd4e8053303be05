-- ===== src/Suite/Bottleneck.antt =====
-- `write_bottleneck_report` of scripts/run_milestone4.py: the cycles that each cause costs, the most
-- costly first. The quotients are left undivided; the other lines of the report print numbers as they
-- are.
use mathlib.Core.List.{Perm}
use rv32im_so_c_performance.Base.{
  ◌≡◌, String, Bool, true, false, List, [], ◌∷◌, if◌then◌else◌, zero_division_error, Result, ok,
  err, arith,
}
use rv32im_so_c_performance.Base.Int.{ℤ, pos, neg_ℤ, leb_ℤ, truthy}
use rv32im_so_c_performance.Base.Dict.{get_default, get}
use rv32im_so_c_performance.Stats.{Stats}
use rv32im_so_c_performance.Suite.Reading.{stat_or_zero}
use rv32im_so_c_performance.Sorting.{sorted, IsSorted, sorted-IsSorted, sorted-perm}

pub record Component : Type 0 where
  pub name : String
  pub cycles : ℤ

abbrev pub component : String → ℤ → Component
component name cycles = record { name = name; cycles = cycles }

abbrev pub components : Stats → List Component
components stats =
    component "I-cache miss stalls" (stat_or_zero "icache_stalls" stats)
    ∷ component "base/retired work" (stat_or_zero "base_cycles" stats)
    ∷ component "D-cache miss/writeback stalls" (stat_or_zero "dcache_stalls" stats)
    ∷ component "I$/D$ overlap credit" (neg_ℤ (stat_or_zero "cache_overlap_cycles" stats))
    ∷ component "JAL/JALR redirects" (stat_or_zero "jump_stalls" stats)
    ∷ component "taken-branch redirects" (stat_or_zero "branch_stalls" stats)
    ∷ component "divider startup/drain" (stat_or_zero "divider_stalls" stats)
    ∷ component "load-use hazards" (stat_or_zero "load_use_stalls" stats)
    ∷ component "pipeline fill/drain" (stat_or_zero "fill_drain" stats)
    ∷ []

-- The order of a sort by cycles with `reverse=True`.
abbrev pub costlier : Component → Component → Bool
costlier a b = leb_ℤ b.cycles a.cycles

unfoldable pub attribution : Stats → List Component
unfolding sorted
attribution stats = sorted costlier (components stats)

-- The divisions of the report: the CPI, and the base of its percentages.
pub record Report : Type 0 where
  pub cycles : ℤ
  pub retired : ℤ
  pub total : ℤ
  pub attributed : List Component

unfoldable pub bottleneck_report : Stats → Result Report
unfolding get
bottleneck_report stats =
    let cycles = stat_or_zero "cycles" stats in
    let retired = get_default "retired" (pos 1) stats in
    if truthy retired
    then ok (record {
      cycles = cycles;
      retired = retired;
      total = if truthy cycles then cycles else pos 1;
      attributed = attribution stats;
    })
    else err zero_division_error

costlier-total : (a b : Component) → costlier a b ≡ false → costlier b a ≡ true
costlier-total a b h = ground arith

costlier_trans :
    (a b c : Component) → costlier a b ≡ true → costlier b c ≡ true → costlier a c ≡ true
costlier_trans a b c h k = ground arith

-- The attribution lists each of the nine causes once, with its cycles, the most costly first.
attribution-IsSorted :
    (stats : Stats)
    → IsSorted costlier (attribution stats) × Perm (attribution stats) (components stats)
unfolding attribution
attribution-IsSorted stats = (
  sorted-IsSorted costlier costlier-total costlier_trans (components stats),
  sorted-perm costlier (components stats),
)
