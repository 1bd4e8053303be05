-- ===== src/Sensitivity/Swept.antt =====
-- The sweep returns, and what it returns.
use mathlib.Core.List.{Perm}
use rv32im_so_c_performance.Base.{
  ◌≡◌, refl, subst, ap, ◌∙◌, inl, inr, String, true, false, ◌||◌, List, [], ◌∷◌, map, ok, >>=-eq-ok,
  Bool-cases, All, any_of, traverse, arith,
}
use rv32im_so_c_performance.Base.Int.{◌-ℤ◌, truthy}
use rv32im_so_c_performance.Suite.{Host, check_call, configure, build}
use rv32im_so_c_performance.Sorting.{sorted, IsSorted, sorted-IsSorted, sorted-perm}
use rv32im_so_c_performance.Sensitivity.{
  Case, Point, Difference, difference, point_of, Outcome, exe_path, one, cases, is_base, base_of,
  compare_with, by_cycles, sweep, main,
}

-- What the sweep answers for the points of its cases, in order, one of which is the baseline.
pub record IsSwept (points : List Point) (o : Outcome) : Type 0 where
  pub base_case : is_base o.base.case ≡ true
  pub points_of : map (λ (d : Difference). d.point) o.rows ≡ points
  pub deltas :
      All (λ (d : Difference). d.cycle_delta_vs_base ≡ d.point.cycles -ℤ o.base.cycles) o.rows
  pub ranked_sorted : IsSorted by_cycles o.ranked
  pub ranked_perm : Perm o.ranked o.rows

abbrev Nonzero : Point → Type 0
Nonzero p = truthy p.cycles ≡ true

-- The points of the cases, each of which ran for some cycles.
pub record Ran (host : Host) (exe : String) (points : List Point) : Type 0 where
  pub simulated : traverse (one host exe) cases ≡ ok points
  pub nonzero : All (λ (p : Point). truthy p.cycles ≡ true) points

base_of-found :
    (rows : List Point)
    → any_of (λ (r : Point). is_base r.case) rows ≡ true
    → All Nonzero rows
    → (base : Point) × (base_of rows ≡ ok base) × (is_base base.case ≡ true) × Nonzero base
unfolding base_of
base_of-found [] h n = cc
base_of-found (r ∷ rs) h n = elim (Bool-cases (is_base r.case)) [
  | inl e ↦ (r, rw (e) refl, e, n.0)
  | inr e ↦
      let (base, found, is, nonzero) = base_of-found rs (rw (e) at h) n.1 in
      (base, rw (e) found, is, nonzero)
]

compare_with-returns :
    (base r : Point) → Nonzero base → Nonzero r → compare_with base r ≡ ok (difference base r)
unfolding compare_with
compare_with-returns base r h k = ground (arith, h, k)

traverse-compare_with :
    (base : Point) (rows : List Point)
    → Nonzero base
    → All Nonzero rows
    → traverse (compare_with base) rows ≡ ok (map (difference base) rows)
unfolding traverse
traverse-compare_with base [] h n = refl
traverse-compare_with base (r ∷ rs) h n =
    rw (compare_with-returns base r h n.0, traverse-compare_with base rs h n.1) refl

points_of-difference :
    (base : Point) (rows : List Point)
    → map (λ (d : Difference). d.point) (map (difference base) rows) ≡ rows
points_of-difference base [] = refl
points_of-difference base (r ∷ rs) = ap (λ l. r ∷ l) (points_of-difference base rs)

deltas-difference :
    (base : Point) (rows : List Point)
    → All
        (λ (d : Difference). d.cycle_delta_vs_base ≡ d.point.cycles -ℤ base.cycles)
        (map (difference base) rows)
deltas-difference base [] = tt
deltas-difference base (r ∷ rs) = (refl, deltas-difference base rs)

one-case : (host : Host) (exe : String) (c : Case) (p : Point) → one host exe c ≡ ok p → p.case ≡ c
unfolding one point_of
one-case host exe c p h = ground (arith, h)

cases-points :
    (host : Host) (exe : String) (cs : List Case) (points : List Point)
    → traverse (one host exe) cs ≡ ok points
    → map (λ (p : Point). p.case) points ≡ cs
unfolding traverse
cases-points host exe [] points h =
    let same : [] ≡ points = cc in subst (λ l. map (λ (q : Point). q.case) l ≡ []) same refl
cases-points host exe (c ∷ cs) points h =
    let (p, first, h1) = >>=-eq-ok (one host exe c) _ h in
    let (ps, rest, h2) = >>=-eq-ok (traverse (one host exe) cs) _ h1 in
    let same : p ∷ ps ≡ points = cc in
    subst (λ l. map (λ (q : Point). q.case) l ≡ c ∷ cs) same
      (rw (one-case host exe c p first, cases-points host exe cs ps rest) refl)

any_base :
    (points : List Point)
    → any_of (λ (r : Point). is_base r.case) points
      ≡ any_of is_base (map (λ (p : Point). p.case) points)
any_base [] = refl
any_base (p ∷ ps) = ap (λ b. is_base p.case || b) (any_base ps)

by_cycles-total : (a b : Difference) → by_cycles a b ≡ false → by_cycles b a ≡ true
by_cycles-total a b h = ground arith

by_cycles_trans :
    (a b c : Difference) → by_cycles a b ≡ true → by_cycles b c ≡ true → by_cycles a c ≡ true
by_cycles_trans a b c h k = ground arith

-- The outcome of a sweep, from its points and the baseline among them.
abbrev outcome : Point → List Point → Outcome
outcome base points = record {
  base = base;
  rows = map (difference base) points;
  ranked = sorted by_cycles (map (difference base) points);
}

outcome-IsSwept :
    (base : Point) (points : List Point)
    → is_base base.case ≡ true
    → IsSwept points (outcome base points)
outcome-IsSwept base points is = record {
  base_case = is;
  points_of = points_of-difference base points;
  deltas = deltas-difference base points;
  ranked_sorted =
      sorted-IsSorted by_cycles by_cycles-total by_cycles_trans (map (difference base) points);
  ranked_perm = sorted-perm by_cycles (map (difference base) points);
}

sweep-IsSwept :
    (host : Host) (exe : String) (points : List Point)
    → Ran host exe points
    → (o : Outcome) × (sweep host exe ≡ ok o) × IsSwept points o
unfolding sweep
sweep-IsSwept host exe points h =
    let (base, found, is, nonzero) =
      base_of-found points
        (any_base points ∙ ap (any_of is_base) (cases-points host exe cases points h.simulated))
        h.nonzero in
    (
      outcome base points,
      rw (h.simulated, found, traverse-compare_with base points nonzero h.nonzero) refl,
      outcome-IsSwept base points is,
    )

-- When the program builds, is found, and runs for some cycles on each of the 21 cases, the sweep
-- returns: the baseline is found among the cases; there is a row for each case, in order, with its
-- difference in cycles to the baseline; and the ranking holds the same rows, the fastest first.
pub main-IsSwept :
    (host : Host) (exe : String) (points : List Point)
    → check_call host configure ≡ ok tt
    → check_call host build ≡ ok tt
    → exe_path host ≡ ok exe
    → Ran host exe points
    → (o : Outcome) × (main host ≡ ok o) × IsSwept points o
unfolding main
main-IsSwept host exe points configured built found h =
    let (o, returns, swept) = sweep-IsSwept host exe points h in
    (o, rw (configured, built, found) returns, swept)
