-- ===== src/Suite/Validation/Exact.antt =====
-- What exit code 0 of the validation suite means.
use rv32im_so_c_performance.Base.{
  ◌≡◌, ap, ◌∙◌, inl, inr, String, Bool, true, false, ◌||◌, List, [], ◌∷◌, Result, ok, >>=-eq-ok,
  Bool-cases, All, arith,
}
use rv32im_so_c_performance.Base.Int.{ℤ, pos, ==ℤ_iff, truthy}
use rv32im_so_c_performance.Base.Dict.{str_eq}
use rv32im_so_c_performance.Trace.Commits.{Commit, load_trace}
use rv32im_so_c_performance.ArchCompare.{compare_arch}
use rv32im_so_c_performance.ArchCompare.Commits.{Agree, compare_arch-Agree}
use rv32im_so_c_performance.Suite.{Host, Flags, configure, build, find_exe}
use rv32im_so_c_performance.Suite.Validation.{
  Test, tests, SummaryRow, last_cycle, model_trace, rtl_trace, command, judge, run_test, run_tests,
  Outcome, main, early, conclude,
}

-- The model ran, its trace and the RTL's are there, both commit the same instructions, and the
-- cycles are the frozen ones and the RTL's.
pub record Correlates (host : Host) (exe : String) (t : Test) : Type 0 where
  pub ran : host.call (command exe t) ≡ pos 0
  pub model : List Commit
  pub model_loaded : load_trace host.files (model_trace t) ≡ ok model
  pub frozen : last_cycle model ≡ pos t.frozen_cycles
  pub there : host.is_file (rtl_trace t) ≡ true
  pub rtl : List Commit
  pub rtl_loaded : load_trace host.files (rtl_trace t) ≡ ok rtl
  pub agree : Agree model rtl
  pub timing : str_eq t.mode "validate" ≡ true → last_cycle model ≡ last_cycle rtl

judge-passes :
    (t : Test) (model rtl : List Commit)
    → (judge t model rtl).0 ≡ false
    → (last_cycle model ≡ pos t.frozen_cycles)
      × ((compare_arch model rtl).0 ≡ true)
      × (str_eq t.mode "validate" ≡ true → last_cycle model ≡ last_cycle rtl)
unfolding judge
judge-passes t model rtl h = ground (
  arith,
  ==ℤ_iff (last_cycle model) (pos t.frozen_cycles),
  ==ℤ_iff (last_cycle model) (last_cycle rtl),
)

-- With `--require-rtl`, and without `--model-only`.
abbrev pub strict : Flags
strict = record { model_only = false; require_rtl = true }

pub truthy-zero : (a : ℤ) → truthy a ≡ false → a ≡ pos 0
truthy-zero a h = ground arith

run_test-Correlates :
    (host : Host) (exe : String) (t : Test) (row : SummaryRow)
    → run_test host strict exe t ≡ ok (false, row)
    → Correlates host exe t
unfolding run_test
run_test-Correlates host exe t row h = elim (Bool-cases (truthy (host.call (command exe t)))) [
  | inl failed ↦ absurd (ground (arith, failed))
  | inr ran ↦
      let (model, loaded, rest) =
        >>=-eq-ok (load_trace host.files (model_trace t)) _ (rw ran at h) in
      elim (Bool-cases (host.is_file (rtl_trace t))) [
        | inl there ↦
            let (rtl, rtl_loaded, judged) =
              >>=-eq-ok (load_trace host.files (rtl_trace t)) _ (rw there at rest) in
            let (frozen, arch, timing) = judge-passes t model rtl (ground arith) in
            record {
              ran = truthy-zero _ ran;
              model = model;
              model_loaded = loaded;
              frozen = frozen;
              there = there;
              rtl = rtl;
              rtl_loaded = rtl_loaded;
              agree = (compare_arch-Agree model rtl).0 arch;
              timing = timing;
            }
        | inr missing ↦ absurd (ground (arith, missing))
      ]
]

run_tests-Correlates :
    (host : Host) (exe : String) (ts : List Test) (rows : List SummaryRow)
    → run_tests host strict exe ts ≡ ok (false, rows)
    → All (Correlates host exe) ts
unfolding run_tests
run_tests-Correlates host exe [] rows h = tt
run_tests-Correlates host exe (t ∷ ts) rows h =
    let (x, ran, rest) = >>=-eq-ok (run_test host strict exe t) _ h in
    let (xs, others, last) = >>=-eq-ok (run_tests host strict exe ts) _ rest in
    let (this, those) = no_failure x xs rows last in
    (
      run_test-Correlates host exe t x.1 (ran ∙ ap (λ b. ok (b, x.1)) this),
      run_tests-Correlates host exe ts xs.1 (others ∙ ap (λ b. ok (b, xs.1)) those),
    )
  where
    no_failure :
        (x : Bool × SummaryRow) (xs : Bool × List SummaryRow) (rows : List SummaryRow)
        → ◌≡◌ {A = Result (Bool × List SummaryRow)}
            (ok (x.0 || xs.0, x.1 ∷ xs.1))
            (ok (false, rows))
        → (x.0 ≡ false) × (xs.0 ≡ false)
    no_failure x xs rows h = ground arith

-- If the suite, run with `--require-rtl`, returns 0, the build succeeded and every listed test
-- correlates: its model run and both traces are there, the traces commit the same instructions, and
-- the cycle counts are the frozen prediction and the RTL's.
pub main-Correlates :
    (host : Host) (o : Outcome)
    → main host strict ≡ ok o
    → o.exit_code ≡ pos 0
    → (host.call configure ≡ pos 0)
      × (host.call build ≡ pos 0)
      × ((exe : String) × (find_exe host ≡ ok exe) × All (Correlates host exe) tests)
unfolding main
main-Correlates host o h z = elim (Bool-cases (truthy (host.call configure))) [
  | inl bad ↦ absurd (early_fails (host.call configure) o bad (rw bad at h) z)
  | inr good ↦ elim (Bool-cases (truthy (host.call build))) [
    | inl bad ↦ absurd (early_fails (host.call build) o bad (rw (good, bad) at h) z)
    | inr built ↦
        let (exe, found, rest) = >>=-eq-ok (find_exe host) _ (rw (good, built) at h) in
        let (judged, ran, last) = >>=-eq-ok (run_tests host strict exe tests) _ rest in
        (
          truthy-zero _ good,
          truthy-zero _ built,
          (
            exe,
            found,
            run_tests-Correlates host exe tests judged.1
                (ran ∙ ap (λ b. ok (b, judged.1)) (no_failure judged o last z)),
          ),
        )
  ]
]
  where
    early_fails :
        (rc : ℤ) (o : Outcome) → truthy rc ≡ true → ok (early rc) ≡ ok o → o.exit_code ≡ pos 0 → ⊥
    early_fails rc o bad h z = ground arith

    no_failure :
        (judged : Bool × List SummaryRow) (o : Outcome)
        → ok (conclude judged) ≡ ok o
        → o.exit_code ≡ pos 0
        → judged.0 ≡ false
    no_failure judged o h z = ground arith
