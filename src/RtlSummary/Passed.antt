-- ===== src/RtlSummary/Passed.antt =====
-- What holds of the RTL summaries when compare_milestone5b.py and compare_milestone6b.py exit with 0.
use rv32im_so_c_performance.Base.{
  ◌≡◌, refl, ap, ◌∙◌, inl, inr, String, Bool, true, false, ◌&&◌, Option, none, some, List, [], ◌∷◌,
  if◌then◌else◌, ◌==◌, length, Result, ok, ◌>>=◌, or_raise, key_error, >>=-eq-ok, All, Error,
  Option-cases, arith,
}
use rv32im_so_c_performance.Base.Int.{ℤ, pos, ◌==ℤ◌, ==ℤ_iff}
use rv32im_so_c_performance.Base.Dict.{get_default}
use rv32im_so_c_performance.PyText.{Text}
use rv32im_so_c_performance.Trace.{Row, Table, Files, cell, open_file}
use rv32im_so_c_performance.Suite.Reading.{int_cell}
use rv32im_so_c_performance.RtlSummary.{
  ByName, look_up, by_name, shown, is_pass, existing, compare_6b, judge_6b, loop_6b, main_6b,
  print_5b, loop_5b, main_5b,
}

-- A cell that reads as the number `n`.
abbrev pub Reads : Row → String → ℤ → Type 0
Reads r column n = (c : Option Text) × (cell column r ≡ ok c) × (int_cell c ≡ ok n)

-- The reference has the row's name, with the cycles that the RTL took, and the row's status is PASS.
abbrev pub Confirmed : ByName → Row → Type 0
Confirmed refs row =
    (name : Option Text) × (ref : Row) × (n : ℤ) × (cell "name" row ≡ ok name)
    × (look_up name refs ≡ some ref)
    × Reads ref "cycles" n
    × Reads row "rtl_cycles" n
    × (is_pass (get_default "status" (some []) row) ≡ true)

compare_6b-Reads :
    (name : Option Text) (ref row : Row)
    → compare_6b name ref row ≡ ok true
    → (n : ℤ) × Reads ref "cycles" n
      × Reads row "rtl_cycles" n
      × (is_pass (get_default "status" (some []) row) ≡ true)
unfolding compare_6b
compare_6b-Reads name ref row h =
    let (c, at_c, h1) = >>=-eq-ok (cell "cycles" ref) _ h in
    let (mc, is_mc, h2) = >>=-eq-ok (int_cell c) _ h1 in
    let (d, at_d, h3) = >>=-eq-ok (cell "rtl_cycles" row) _ h2 in
    let (rc, is_rc, h4) = >>=-eq-ok (int_cell d) _ h3 in
    let (_, _, h5) = >>=-eq-ok (shown name) _ h4 in
    let (e, _, h6) = >>=-eq-ok (cell "icache_lines" ref) _ h5 in
    let (_, _, h7) = >>=-eq-ok (int_cell e) _ h6 in
    let (f, _, h8) = >>=-eq-ok (cell "dcache_lines" ref) _ h7 in
    let (_, _, h9) = >>=-eq-ok (int_cell f) _ h8 in
    let (g, _, h10) = >>=-eq-ok (cell "memory_latency" ref) _ h9 in
    let (_, _, h11) = >>=-eq-ok (int_cell g) _ h10 in
    let (_, _, h12) = >>=-eq-ok (shown (get_default "status" (some []) row)) _ h11 in
    let (same, passed) = split (mc ==ℤ rc) _ h12 in
    (rc, (c, at_c, rw (← (==ℤ_iff mc rc).0 same) is_mc), (d, at_d, is_rc), passed)
  where
    split : (a b : Bool) → ok (a && b) ≡ ok true → (a ≡ true) × (b ≡ true)
    split a b h = ground arith

judge_6b-Confirmed : (refs : ByName) (row : Row) → judge_6b refs row ≡ ok true → Confirmed refs row
unfolding judge_6b
judge_6b-Confirmed refs row h =
    let (name, at, h1) = >>=-eq-ok (cell "name" row) _ h in
    elim (Option-cases (look_up name refs)) [
      | inl e ↦ absurd (unexpected name (rw e at h1))
      | inr (ref, e) ↦
          let (n, model, rtl, passed) = compare_6b-Reads name ref row (rw e at h1) in
          (name, ref, n, at, e, model, rtl, passed)
    ]
  where
    unexpected : (name : Option Text) → (shown name >>= λ s. ok false) ≡ ok true → ⊥
    unexpected none h = cc
    unexpected (some s) h = ground (arith, h)

loop_6b-Confirmed :
    (refs : ByName) (good : Bool) (rows : List Row)
    → loop_6b refs good rows ≡ ok true
    → (good ≡ true) × All (Confirmed refs) rows
unfolding loop_6b
loop_6b-Confirmed refs good [] h = (ground (arith, h), tt)
loop_6b-Confirmed refs good (row ∷ rows) h =
    let (passed, judged, h1) = >>=-eq-ok (judge_6b refs row) _ h in
    let (both, others) = loop_6b-Confirmed refs (good && passed) rows h1 in
    let (first, second) = split good passed both in
    (first, (judge_6b-Confirmed refs row (judged ∙ ap ok second), others))
  where
    split : (a b : Bool) → a && b ≡ true → (a ≡ true) × (b ≡ true)
    split a b h = ground arith

abbrev pub reference_path : String
reference_path = "reference/milestone6b/selected_model_predictions.csv"

abbrev pub summary_path : String
summary_path = "results/milestone6b/milestone6b_vcs_summary.csv"

zero_code :
    (good same : Bool)
    → ok (if good && same then pos 0 else pos 1) ≡ ok (pos 0)
    → (good ≡ true) × (same ≡ true)
zero_code true true h = (refl, refl)
zero_code true false h = cc
zero_code false same h = cc

-- compare_milestone6b.py exits with 0 only when every row of the RTL summary is one that the reference
-- names, with the same cycles and the status PASS, and there are as many rows as names.
pub main_6b-Confirmed :
    (files : Files)
    → main_6b files ≡ ok (pos 0)
    → (summary : Table) × (reference : Table) × (refs : ByName) × (files summary_path
        ≡ some summary)
      × (open_file files reference_path ≡ ok reference)
      × (by_name [] reference.rows ≡ ok refs)
      × All (Confirmed refs) summary.rows
      × ((length summary.rows == length refs) ≡ true)
unfolding main_6b
main_6b-Confirmed files h = elim (Option-cases (files summary_path)) [
  | inl e ↦ absurd (code (rw (main_6b, e) at h))
  | inr (summary, e) ↦
      let (reference, r, h1) =
        >>=-eq-ok (open_file files reference_path) _ (rw (main_6b, e) at h) in
      let (refs, s, h2) = >>=-eq-ok (by_name [] reference.rows) _ h1 in
      let (good, looped, h3) = >>=-eq-ok (loop_6b refs true summary.rows) _ h2 in
      let (all_good, same) = zero_code good _ h3 in
      let (_, confirmed) = loop_6b-Confirmed refs true summary.rows (looped ∙ ap ok all_good) in
      (summary, reference, refs, e, r, s, confirmed, same)
]
  where
    code : ◌≡◌ {A = Result ℤ} (ok (pos 2)) (ok (pos 0)) → ⊥
    code h = ground arith

module _ {F : Type 0} (float_of : Option Text → Result F) where
  -- The prediction has the row's name, and the row's status is PASS.
  abbrev pub Passed : ByName → Row → Type 0
  Passed pred r =
      (name : Option Text) × (p : Row) × (status : Option Text) × (cell "name" r ≡ ok name)
      × (look_up name pred ≡ some p)
      × (cell "status" r ≡ ok status)
      × (is_pass status ≡ true)

  or_raise-some : (e : Error) (o : Option Row) (p : Row) → or_raise e o ≡ ok p → o ≡ some p
  or_raise-some e none p h = cc
  or_raise-some e (some q) p h = cc

  print_5b-Passed :
      (pred : ByName) (r : Row) (status : Option Text)
      → print_5b float_of pred r ≡ ok status
      → is_pass status ≡ true
      → Passed pred r
  unfolding print_5b
  print_5b-Passed pred r status h is =
      let (name, at, h1) = >>=-eq-ok (cell "name" r) _ h in
      let (p, found, h2) = >>=-eq-ok (or_raise (key_error "name") (look_up name pred)) _ h1 in
      let (s, at_s, h3) = >>=-eq-ok (cell "status" r) _ h2 in
      let (i, _, h4) = >>=-eq-ok (cell "icache_lines" r) _ h3 in
      let (d, _, h5) = >>=-eq-ok (cell "dcache_lines" r) _ h4 in
      let (m, _, h6) = >>=-eq-ok (cell "model_cycles" r) _ h5 in
      let (t, _, h7) = >>=-eq-ok (cell "rtl_cycles" r) _ h6 in
      let (c, _, h8) = >>=-eq-ok (cell "cycle_delta" r) _ h7 in
      let (_, _, h9) = >>=-eq-ok (int_cell c) _ h8 in
      let (x, _, h10) = >>=-eq-ok (cell "cycle_reduction_pct" p) _ h9 in
      let (_, _, h11) = >>=-eq-ok (float_of x) _ h10 in
      let (_, _, h12) = >>=-eq-ok (shown name) _ h11 in
      let (_, _, h13) = >>=-eq-ok (shown i) _ h12 in
      let (_, _, h14) = >>=-eq-ok (shown d) _ h13 in
      let (_, _, h15) = >>=-eq-ok (shown m) _ h14 in
      let (_, _, h16) = >>=-eq-ok (shown t) _ h15 in
      let (_, _, h17) = >>=-eq-ok (shown s) _ h16 in
      (name, p, s, at, or_raise-some _ _ p found, at_s, passed s h17)
    where
      passed :
          (s : Option Text) → ◌≡◌ {A = Result (Option Text)} (ok s) (ok status) → is_pass s ≡ true
      passed s e = rw (same s e) is
        where
          same : (s : Option Text) → ◌≡◌ {A = Result (Option Text)} (ok s) (ok status) → s ≡ status
          same s e = cc

  loop_5b-Passed :
      (pred : ByName) (allpass : Bool) (rows : List Row)
      → loop_5b float_of pred allpass rows ≡ ok true
      → (allpass ≡ true) × All (Passed pred) rows
  unfolding loop_5b
  loop_5b-Passed pred allpass [] h = (ground (arith, h), tt)
  loop_5b-Passed pred allpass (r ∷ rows) h =
      let (status, printed, h1) = >>=-eq-ok (print_5b float_of pred r) _ h in
      let (both, others) = loop_5b-Passed pred (allpass && is_pass status) rows h1 in
      let (first, second) = split allpass (is_pass status) both in
      (first, (print_5b-Passed pred r status printed second, others))
    where
      split : (a b : Bool) → a && b ≡ true → (a ≡ true) × (b ≡ true)
      split a b h = ground arith

  -- compare_milestone5b.py exits with 0 only when both tables are there and every row of the RTL
  -- summary has the status PASS and a name that was predicted.
  main_5b-Passed :
      (files : Files)
      → main_5b float_of files ≡ ok (pos 0)
      → (predictions : Table) × (summary : Table) × (pred : ByName) × (existing files
            "Missing sensitivity predictions; run python scripts/run_sensitivity_sweep.py"
            "results/milestone5/sensitivity_sweep.csv"
          ≡ ok predictions)
        × (existing files
              "Missing Milestone 5B VCS summary. Extract RV32IM_VCS_Milestone5B_Results.zip at the project root."
              "results/milestone5b/milestone5b_vcs_summary.csv"
            ≡ ok summary)
        × (by_name [] predictions.rows ≡ ok pred)
        × All (Passed pred) summary.rows
  unfolding main_5b
  main_5b-Passed files h =
      let (predictions, a, h1) = >>=-eq-ok (existing files _ _) _ h in
      let (summary, b, h2) = >>=-eq-ok (existing files _ _) _ h1 in
      let (pred, c, h3) = >>=-eq-ok (by_name [] predictions.rows) _ h2 in
      let (allpass, looped, h4) = >>=-eq-ok (loop_5b float_of pred true summary.rows) _ h3 in
      let (_, passed) = loop_5b-Passed pred true summary.rows (looped ∙ ap ok (zero allpass h4)) in
      (predictions, summary, pred, a, b, c, passed)
    where
      zero : (b : Bool) → ok (if b then pos 0 else pos 1) ≡ ok (pos 0) → b ≡ true
      zero true h = refl
      zero false h = cc
