-- ===== src/DesignSpace/Compared.antt =====
-- The differences of a row of scripts/run_milestone6a.py to the baseline.
use rv32im_so_c_performance.Base.{
  ℕ, zero, suc, ◌-◌, ◌<◌, ◌≤◌, ◌≡◌, refl, ap, inl, inr, none, some, List, [], ◌∷◌, map, leb,
  Bool-cases, Ensures, Ensures-any, Ensures->>=, All, arith,
}
use rv32im_so_c_performance.Base.Int.{ℤ, pos, negsuc, ◌-ℤ◌}
use rv32im_so_c_performance.DesignSpace.{Point, divides}
use rv32im_so_c_performance.DesignSpace.Sweep.{Difference, saved_if_added, difference, differences}

abbrev pub points_of : List Difference → List Point
points_of ds = map (λ (d : Difference). d.point) ds

-- What the script adds to a row: the cycles and the bytes that it has more than the baseline, and, where
-- it has more bytes, the cycles that it saves.
pub record IsCompared (base : Point) (d : Difference) : Type 0 where
  pub cycle_delta : d.cycle_delta_vs_base ≡ d.point.cycles -ℤ base.cycles
  pub extra_bytes :
      d.extra_cache_data_bytes ≡ pos d.point.cache_data_bytes -ℤ pos base.cache_data_bytes
  pub saved :
      base.cache_data_bytes < d.point.cache_data_bytes
      → d.cycles_saved ≡ some (base.cycles -ℤ d.point.cycles)
  pub unsaved : d.point.cache_data_bytes ≤ base.cache_data_bytes → d.cycles_saved ≡ none

sub-pos : (m n : ℕ) → n ≤ m → pos m -ℤ pos n ≡ pos (m - n)
unfolding ◌-ℤ◌
sub-pos m n h = ground arith

sub-negsuc : (m n : ℕ) → m < n → pos m -ℤ pos n ≡ negsuc (n - m - 1)
unfolding ◌-ℤ◌
sub-negsuc m n h = ground arith

saved_if_added-pos : (k : ℕ) (saved : ℤ) → 0 < k → saved_if_added (pos k) saved ≡ some saved
saved_if_added-pos zero saved h = absurd (omega arith)
saved_if_added-pos (suc k) saved h = refl

saved_if_added-some :
    (m n : ℕ) (saved : ℤ) → n < m → saved_if_added (pos m -ℤ pos n) saved ≡ some saved
saved_if_added-some m n saved h =
    rw (sub-pos m n (omega arith)) (saved_if_added-pos (m - n) saved (omega arith))

saved_if_added-none : (m n : ℕ) (saved : ℤ) → m ≤ n → saved_if_added (pos m -ℤ pos n) saved ≡ none
saved_if_added-none m n saved h = elim (Bool-cases (leb n m)) [
  | inl e ↦
      let same : m - n ≡ 0 = omega arith in
      let least : n ≤ m = ground (arith, e) in rw (sub-pos m n least, same) refl
  | inr e ↦ let less : m < n = ground (arith, e) in rw (sub-negsuc m n less) refl
]

difference-IsCompared : (base r : Point) → IsCompared base (difference base r)
difference-IsCompared base r = record {
  cycle_delta = refl;
  extra_bytes = refl;
  saved = λ h. saved_if_added-some r.cache_data_bytes base.cache_data_bytes _ h;
  unsaved = λ h. saved_if_added-none r.cache_data_bytes base.cache_data_bytes _ h;
}

pub differences-IsCompared :
    (base : Point) (rows : List Point)
    → Ensures
        (λ (ds : List Difference). (points_of ds ≡ rows) × All (IsCompared base) ds)
        (differences base rows)
unfolding differences
differences-IsCompared base [] = (refl, tt)
differences-IsCompared base (r ∷ rs) =
    let P : List Difference → Type 0 = λ ds. (points_of ds ≡ r ∷ rs) × All (IsCompared base) ds in
    Ensures->>= (λ _. Unit {0}) P (divides base.cycles) _ (Ensures-any (divides base.cycles))
      (λ _ _.
        Ensures->>= (λ _. Unit {0}) P (divides r.cycles) _ (Ensures-any (divides r.cycles))
          (λ _ _.
            Ensures->>= (λ ds. (points_of ds ≡ rs) × All (IsCompared base) ds) P
              (differences base rs) _ (differences-IsCompared base rs)
              (λ ds (same, each). (ap (λ ps. r ∷ ps) same, (difference-IsCompared base r, each)))))
