-- ===== src/Selection.antt =====
-- `dominates` and `classify` of scripts/run_architecture_selection.py: the comparison of architectures
-- on runtime, area, power and energy. Python's floats are a parameter: their comparisons, with laws
-- that hold for all of them, NaN included, since a comparison with NaN is false.
pub mod Classified
pub mod Inputs
pub mod Metrics
pub mod Measured
pub mod Study
pub mod Winners
use rv32im_so_c_performance.Base.{
  ℕ, zero, suc, ◌≡◌, refl, String, Bool, true, false, ◌&&◌, ◌||◌, List, [], ◌∷◌, map, if◌then◌else◌,
  all_of, any_of, arith,
}
use rv32im_so_c_performance.Dominance.{Dominance, dominators}

pub record Floats (F : Type 0) : Type 0 where
  pub le : F → F → Bool
  pub lt : F → F → Bool
  pub lt_irrefl : (x : F) → lt x x ≡ false
  pub le_trans : (x y z : F) → le x y ≡ true → le y z ≡ true → le x z ≡ true
  pub lt_trans : (x y z : F) → lt x y ≡ true → lt y z ≡ true → lt x z ≡ true
  pub lt_le_trans : (x y z : F) → lt x y ≡ true → le y z ≡ true → lt x z ≡ true

-- The costs that are compared.
pub record Architecture (F : Type 0) : Type 0 where
  pub case : String
  pub runtime_us : F
  pub area : F
  pub total_mw : F
  pub energy_nj : F

pub record Classification (F : Type 0) : Type 0 where
  pub row : Architecture F
  pub pareto_efficient : Bool
  pub dominated_by : List String

module _ {F : Type 0} where
  -- `[a[k] for k in keys]`
  abbrev pub costs : Architecture F → List F
  costs a = a.runtime_us ∷ a.area ∷ a.total_mw ∷ a.energy_nj ∷ []

  -- `all(a[k] <= b[k] for k in keys)` and `any(a[k] < b[k] for k in keys)`
  unfoldable pub all_pairs : (F → F → Bool) → List F → List F → Bool
  all_pairs test (x ∷ xs) (y ∷ ys) = test x y && all_pairs test xs ys
  all_pairs test _ _ = true

  unfoldable pub any_pair : (F → F → Bool) → List F → List F → Bool
  any_pair test (x ∷ xs) (y ∷ ys) = test x y || any_pair test xs ys
  any_pair test _ _ = false

  unfoldable pub dominates : Floats F → Architecture F → Architecture F → Bool
  unfolding all_pairs any_pair
  dominates floats a b =
      all_pairs floats.le (costs a) (costs b) && any_pair floats.lt (costs a) (costs b)

  pub dominates_irrefl : (floats : Floats F) (a : Architecture F) → dominates floats a a ≡ false
  unfolding dominates
  dominates_irrefl floats a = ground (
    arith,
    floats.lt_irrefl a.runtime_us,
    floats.lt_irrefl a.area,
    floats.lt_irrefl a.total_mw,
    floats.lt_irrefl a.energy_nj,
  )

  field_trans :
      (floats : Floats F) (x y z : F)
      → floats.le x y ≡ true
      → floats.le y z ≡ true
      → (floats.le x z ≡ true) × (floats.lt x y ≡ true → floats.lt x z ≡ true)
  field_trans floats x y z h k = (floats.le_trans x y z h k, λ l. floats.lt_le_trans x y z l k)

  pub dominates_trans :
      (floats : Floats F) (a b c : Architecture F)
      → dominates floats a b ≡ true
      → dominates floats b c ≡ true
      → dominates floats a c ≡ true
  unfolding dominates
  dominates_trans floats a b c h k = ground (
    arith,
    field_trans floats a.runtime_us b.runtime_us c.runtime_us,
    field_trans floats a.area b.area c.area,
    field_trans floats a.total_mw b.total_mw c.total_mw,
    field_trans floats a.energy_nj b.energy_nj c.energy_nj,
  )

  abbrev pub Costs : Floats F → Dominance (Architecture F)
  Costs floats = record {
    dominates = dominates floats;
    irrefl = dominates_irrefl floats;
    trans = dominates_trans floats;
  }

  abbrev is_empty : List (Architecture F) → Bool
  is_empty [] = true
  is_empty (x ∷ xs) = false

  -- `r` with the architectures `dom` that dominate it; their names are joined by `;` in the source
  abbrev pub classified : Architecture F → List (Architecture F) → Classification F
  classified r dom = record {
    row = r;
    pareto_efficient = is_empty dom;
    dominated_by = map (λ x. x.case) dom;
  }

  -- The loop of `classify` over the rows from index `i` on.
  unfoldable pub classify_from :
      Floats F → List (Architecture F) → ℕ → List (Architecture F) → List (Classification F)
  unfolding dominators dominates
  classify_from floats rows i [] = []
  classify_from floats rows i (r ∷ rs) =
      classified r (dominators (Costs floats) i r 0 rows) ∷ classify_from floats rows (suc i) rs

  unfoldable pub classify : Floats F → List (Architecture F) → List (Classification F)
  unfolding classify_from
  classify floats rows = classify_from floats rows 0 rows
