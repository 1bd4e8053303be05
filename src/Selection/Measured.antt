-- ===== src/Selection/Measured.antt =====
-- When `add_metrics` of scripts/run_architecture_selection.py raises no exception.
use rv32im_so_c_performance.Base.{
  ◌≡◌, refl, ap, ◌∙◌, false, Option, none, some, List, [], ◌∷◌, Result, ok, ◌>>=◌, >>=-eq-ok,
  traverse, All, ◌↔◌, arith,
}
use rv32im_so_c_performance.Selection.Inputs.{Merged}
use rv32im_so_c_performance.Selection.Metrics.{
  RatioFloats, Metrics, divide, safe_ratio, number, metrics_of, base_of, add_metrics,
}

module _ {F : Type 0} (floats : RatioFloats F) where
  -- What the ratios of a row to a baseline need: the numbers are there, and what they are divided by is
  -- not 0.
  pub record IsMeasured (base r : Merged F) : Type 0 where
    pub base_energy : F
    pub base_energy_there : base.energy_nj ≡ some base_energy
    pub base_energy_nonzero : floats.is_zero base_energy ≡ false
    pub runtime_nonzero : floats.is_zero r.runtime_us ≡ false
    pub energy : F
    pub energy_there : r.energy_nj ≡ some energy
    pub edp_nonzero : floats.is_zero (floats.times energy r.runtime_us) ≡ false
    pub ed2p_nonzero :
        floats.is_zero (floats.times (floats.times energy r.runtime_us) r.runtime_us) ≡ false
    pub power : F
    pub power_there : r.total_mw ≡ some power
    pub power_nonzero : floats.is_zero power ≡ false
    pub dynamic : F
    pub dynamic_there : r.dynamic_mw ≡ some dynamic
    pub leakage : F
    pub leakage_there : r.leakage_mw ≡ some leakage

  divide-nonzero : (a b x : F) → divide floats a b ≡ ok x → floats.is_zero b ≡ false
  unfolding divide
  divide-nonzero a b x h = ground arith

  number-some : (v : Option F) (x : F) → number floats v ≡ ok x → v ≡ some x
  number-some none x h = cc
  number-some (some y) x h = cc

  -- A ratio that is a number.
  ratio-there :
      (a b : Option F) (x : F)
      → number floats (safe_ratio floats a b) ≡ ok x
      → ((n : F) × (a ≡ some n)) × ((d : F) × (b ≡ some d) × (floats.is_zero d ≡ false))
  unfolding safe_ratio
  ratio-there none b x h = cc
  ratio-there (some n) none x h = cc
  ratio-there (some n) (some d) x h = ((n, refl), (d, refl, ground (arith, h)))

  metrics_of-IsMeasured :
      (base : Merged F) (base_edp base_ed2p : F) (r : Merged F) (m : Metrics F)
      → metrics_of floats base base_edp base_ed2p r ≡ ok m
      → IsMeasured base r
  unfolding metrics_of
  metrics_of-IsMeasured base base_edp base_ed2p r m h =
      let (speedup, first, h1) = >>=-eq-ok (divide floats base.runtime_us r.runtime_us) _ h in
      let (ratio, compared, h2) =
        >>=-eq-ok (number floats (safe_ratio floats r.energy_nj base.energy_nj)) _ h1 in
      let (energy, there, h3) = >>=-eq-ok (number floats r.energy_nj) _ h2 in
      let edp = floats.times energy r.runtime_us in
      let ed2p = floats.times edp r.runtime_us in
      let (e, efficiency, h4) = >>=-eq-ok (divide floats base_edp edp) _ h3 in
      let (e2, squared, h5) = >>=-eq-ok (divide floats base_ed2p ed2p) _ h4 in
      let (d, dynamic, h6) =
        >>=-eq-ok (number floats (safe_ratio floats r.dynamic_mw r.total_mw)) _ h5 in
      let (l, leakage, h7) =
        >>=-eq-ok (number floats (safe_ratio floats r.leakage_mw r.total_mw)) _ h6 in
      let (_, (b, base_there, base_nonzero)) =
        ratio-there r.energy_nj base.energy_nj ratio compared in
      let ((dn, dynamic_there), (power, power_there, power_nonzero)) =
        ratio-there r.dynamic_mw r.total_mw d dynamic in
      let ((ln, leakage_there), _) = ratio-there r.leakage_mw r.total_mw l leakage in
      record {
        base_energy = b;
        base_energy_there = base_there;
        base_energy_nonzero = base_nonzero;
        runtime_nonzero = divide-nonzero base.runtime_us r.runtime_us speedup first;
        energy = energy;
        energy_there = number-some r.energy_nj energy there;
        edp_nonzero = divide-nonzero base_edp edp e efficiency;
        ed2p_nonzero = divide-nonzero base_ed2p ed2p e2 squared;
        power = power;
        power_there = power_there;
        power_nonzero = power_nonzero;
        dynamic = dn;
        dynamic_there = dynamic_there;
        leakage = ln;
        leakage_there = leakage_there;
      }

  divide-returns : (a b : F) → floats.is_zero b ≡ false → divide floats a b ≡ ok (floats.over a b)
  unfolding divide
  divide-returns a b h = rw h refl

  ratio-returns :
      (a b : F)
      → floats.is_zero b ≡ false
      → safe_ratio floats (some a) (some b) ≡ some (floats.over a b)
  unfolding safe_ratio
  ratio-returns a b h = rw h refl

  metrics_of-returns :
      (base : Merged F) (base_edp base_ed2p : F) (r : Merged F)
      → IsMeasured base r
      → (m : Metrics F) × (metrics_of floats base base_edp base_ed2p r ≡ ok m)
  unfolding metrics_of
  metrics_of-returns base base_edp base_ed2p r k =
      let edp = floats.times k.energy r.runtime_us in
      rw
        (
          k.base_energy_there,
          k.energy_there,
          k.power_there,
          k.dynamic_there,
          k.leakage_there,
          divide-returns base.runtime_us r.runtime_us k.runtime_nonzero,
          ratio-returns k.energy k.base_energy k.base_energy_nonzero,
          divide-returns base_edp edp k.edp_nonzero,
          divide-returns base_ed2p (floats.times edp r.runtime_us) k.ed2p_nonzero,
          ratio-returns k.dynamic k.power k.power_nonzero,
          ratio-returns k.leakage k.power k.power_nonzero,
        )
        (_, refl)

  rows-IsMeasured :
      (base : Merged F) (base_edp base_ed2p : F) (rows : List (Merged F)) (ms : List (Metrics F))
      → traverse (metrics_of floats base base_edp base_ed2p) rows ≡ ok ms
      → All (IsMeasured base) rows
  unfolding traverse
  rows-IsMeasured base base_edp base_ed2p [] ms h = tt
  rows-IsMeasured base base_edp base_ed2p (r ∷ rs) ms h =
      let (m, first, h1) = >>=-eq-ok (metrics_of floats base base_edp base_ed2p r) _ h in
      let (others, rest, _) =
        >>=-eq-ok (traverse (metrics_of floats base base_edp base_ed2p) rs) _ h1 in
      (
        metrics_of-IsMeasured base base_edp base_ed2p r m first,
        rows-IsMeasured base base_edp base_ed2p rs others rest,
      )

  rows-returns :
      (base : Merged F) (base_edp base_ed2p : F) (rows : List (Merged F))
      → All (IsMeasured base) rows
      → (ms : List (Metrics F)) × (traverse (metrics_of floats base base_edp base_ed2p) rows
          ≡ ok ms)
  unfolding traverse
  rows-returns base base_edp base_ed2p [] k = ([], refl)
  rows-returns base base_edp base_ed2p (r ∷ rs) k =
      let (m, first) = metrics_of-returns base base_edp base_ed2p r k.0 in
      let (ms, rest) = rows-returns base base_edp base_ed2p rs k.1 in
      (m ∷ ms, rw (first, rest) refl)

  -- The baseline is the first row of its case, and has an energy.
  abbrev pub HasBase : List (Merged F) → Merged F → Type 0
  HasBase rows base = (base_of floats rows ≡ ok base) × ((e : F) × (base.energy_nj ≡ some e))

  -- The ratios are computed without an exception exactly when there is a baseline with an energy, and
  -- every row has the numbers that its ratios need, none of the divisors being 0.
  pub add_metrics-IsMeasured :
      (rows : List (Merged F))
      → ((ms : List (Metrics F)) × (add_metrics floats rows ≡ ok ms))
        ↔ ((base : Merged F) × HasBase rows base × All (IsMeasured base) rows)
  unfolding add_metrics
  add_metrics-IsMeasured rows = (
    λ (ms, h).
        let (base, found, h1) = >>=-eq-ok (base_of floats rows) _ h in
        let (energy, there, h2) = >>=-eq-ok (number floats base.energy_nj) _ h1 in
        let edp = floats.times energy base.runtime_us in
        (
          base,
          (found, (energy, number-some base.energy_nj energy there)),
          rows-IsMeasured base edp (floats.times edp base.runtime_us) rows ms h2,
        ),
    λ (base, (found, (energy, there)), each).
        let edp = floats.times energy base.runtime_us in
        let (ms, returns) = rows-returns base edp (floats.times edp base.runtime_us) rows each in
        let ratios : F → Result (List (Metrics F)) = λ e.
          let edp = floats.times e base.runtime_us in
          traverse (metrics_of floats base edp (floats.times edp base.runtime_us)) rows in
        (ms, rw found (ap (λ v. number floats v >>= ratios) there ∙ returns)),
  )
