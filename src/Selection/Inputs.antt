-- ===== src/Selection/Inputs.antt =====
-- `f`, `load_csv` and `merge_inputs` of scripts/run_architecture_selection.py: a row of each case, from
-- the tables of milestones 7B and 8B and the bundled reference. Python's floats are a parameter: what
-- `float` reads, and the arithmetic of a row.
use Prim.Native.String.{◌++◌ as join}
use rv32im_so_c_performance.Base.{
  String, Bool, true, false, not, ◌&&◌, ◌||◌, Option, none, some, List, [], ◌∷◌, ◌==◌,
  if◌then◌else◌, keep_if, type_error, runtime_error, Result, ok, err, ◌>>=◌, traverse,
}
use rv32im_so_c_performance.Base.Int.{ℤ, pos}
use rv32im_so_c_performance.Base.Dict.{get, get_default}
use rv32im_so_c_performance.PyText.{Text, codes, text_eq, strip}
use rv32im_so_c_performance.Trace.{Row, Files, open_file}

-- What a row asks of Python's floats.
pub record RowFloats (F : Type 0) : Type 0 where
  -- `float(text)`, none where it raises
  pub parse : Text → Option F
  -- `int(x)`, which raises for infinities and NaN
  pub truncate : F → Result ℤ
  -- `bool(x)`
  pub truthy : F → Bool
  -- `1000.0 / x`, of an `x` that is not 0, and `n * x / 1000.0`
  pub thousand_over : F → F
  pub times_over_thousand : ℤ → F → Result F
  pub times : F → F → F

-- The rows of a table by their case: an association list with the last row of a case.
abbrev pub ByCase : Type 0
ByCase = List (Text × Row)

unfoldable pub put_case : Text → Row → ByCase → ByCase
put_case k r [] = (k, r) ∷ []
put_case k r ((j, old) ∷ table) =
    if text_eq j k then (j, r) ∷ table else (j, old) ∷ put_case k r table

unfoldable pub get_case : Text → ByCase → Option Row
get_case k [] = none
get_case k ((j, r) ∷ table) = if text_eq j k then some r else get_case k table

-- `if r.get('case'): out[r['case']] = r`
abbrev add_row : Option Text → Row → ByCase → ByCase
add_row none r out = out
add_row (some []) r out = out
add_row (some (c ∷ s)) r out = put_case (c ∷ s) r out

unfoldable pub add_rows : List Row → ByCase → ByCase
unfolding get
add_rows [] out = out
add_rows (r ∷ rs) out = add_rows rs (add_row (get_default "case" none r) r out)

unfoldable pub load_csv : (String → Bool) → Files → String → Result ByCase
unfolding add_rows
load_csv is_file files path =
    if not (is_file path)
    then ok []
    else do table ← open_file files path; ok (add_rows table.rows [])

abbrev pub cases : List String
cases = "BASE_64_64" ∷ "EFF_256_64" ∷ "PERF_512_64" ∷ []

abbrev is_empty_text : Text → Bool
is_empty_text [] = true
is_empty_text (c ∷ s) = false

-- A row of `merge_inputs`.
pub record Merged (F : Type 0) : Type 0 where
  pub case : String
  pub icache_lines : ℤ
  pub dcache_lines : ℤ
  pub cycles : ℤ
  pub period_ns : Option F
  pub fmax_mhz : Option F
  pub runtime_us : F
  pub area : Option F
  pub total_mw : Option F
  pub dynamic_mw : Option F
  pub leakage_mw : Option F
  pub energy_nj : Option F
  pub from_m7b : Bool
  pub from_m8b : Bool

module _ {F : Type 0} (floats : RowFloats F) where
  -- `f(v, default)`
  unfoldable pub f : Option Text → Option F → Option F
  unfolding strip
  f none default = default
  f (some v) default =
      if is_empty_text (strip v)
      then default
      else elim (floats.parse (keep_if (λ c. not (c == b',')) v)) [
        | none ↦ default
        | some x ↦ some x
      ]

  -- `f(a.get(x), f(p.get(y), f(rr.get(z))))`
  abbrev pub first_of : Row → String → Row → String → Row → String → Option F
  first_of a x p y rr z =
      f (get_default x none a) (f (get_default y none p) (f (get_default z none rr) none))

  -- `int(...)` of it, with the default 0
  abbrev pub truncated : Option F → Result ℤ
  truncated none = ok (pos 0)
  truncated (some x) = floats.truncate x

  -- `bool` of a number that may be None
  abbrev pub present : Option F → Bool
  present none = false
  present (some x) = floats.truthy x

  -- The frequency, from the period where it is missing.
  abbrev frequency : Option F → Option F → Option F
  frequency none fmax = fmax
  frequency (some period) fmax =
      if floats.truthy period && not (present fmax)
      then some (floats.thousand_over period)
      else fmax

  -- `row['cycles'] * row['period_ns'] / 1000.0`
  abbrev pub runtime : ℤ → Option F → Result F
  runtime cycles none = err type_error
  runtime cycles (some period) = floats.times_over_thousand cycles period

  -- The energy, from the power where it is missing.
  abbrev energy : Option F → F → Option F → Option F
  energy (some total) runtime_us none = some (floats.times total runtime_us)
  energy total runtime_us energy_nj = energy_nj

  abbrev is_there : Option Row → Bool
  is_there none = false
  is_there (some r) = true

  abbrev pub or_empty : Option Row → Row
  or_empty none = []
  or_empty (some r) = r

  unfoldable pub merge_case : ByCase → ByCase → ByCase → String → Result (Merged F)
  unfolding f get_case get
  merge_case ref m7 m8 case = do
    let k = codes case
    let rr = or_empty (get_case k ref)
    let a = or_empty (get_case k m7)
    let p = or_empty (get_case k m8)
    icache_lines ← truncated (first_of a "icache_lines" p "icache_lines" rr "icache_lines")
    dcache_lines ← truncated (first_of a "dcache_lines" p "dcache_lines" rr "dcache_lines")
    cycles ← truncated (first_of a "dhrystone_cycles" p "cycles" rr "cycles")
    let period = first_of a "best_met_period_ns" p "period_ns" rr "period_ns"
    let total = f (get_default "total_mw" none p) (f (get_default "total_mw" none rr) none)
    runtime_us ← runtime cycles period
    ok (record {
      case = case;
      icache_lines = icache_lines;
      dcache_lines = dcache_lines;
      cycles = cycles;
      period_ns = period;
      fmax_mhz = frequency period (first_of a "fmax_mhz" p "fmax_mhz" rr "fmax_mhz");
      runtime_us = runtime_us;
      area = first_of a "area" p "m7b_best_area" rr "area";
      total_mw = total;
      dynamic_mw = f (get_default "dynamic_mw" none p) (f (get_default "dynamic_mw" none rr) none);
      leakage_mw = f (get_default "leakage_mw" none p) (f (get_default "leakage_mw" none rr) none);
      energy_nj =
          energy total runtime_us
            (f (get_default "energy_nj" none p) (f (get_default "energy_nj" none rr) none));
      from_m7b = is_there (get_case k m7);
      from_m8b = is_there (get_case k m8);
    })

  abbrev pub is_empty : ByCase → Bool
  is_empty [] = true
  is_empty (x ∷ xs) = false

  unfoldable pub merge_inputs :
      (String → Bool) → Files → String → String → String → Bool → Result (List (Merged F))
  merge_inputs is_file files corner m7b_root m8b_root strict = do
    ref ← load_csv is_file files "reference/validated_reference.csv"
    m7 ←
        load_csv is_file files
          (join m7b_root (join "/results/milestone7b/" (join corner "/best_points.csv")))
    m8 ←
        load_csv is_file files
          (join m8b_root (join "/results/milestone8b/" (join corner "/power_summary.csv")))
    if strict && (is_empty m7 || is_empty m8)
        then err (runtime_error "strict mode requires populated M7B and M8B CSVs")
        else traverse (merge_case ref m7 m8) cases
