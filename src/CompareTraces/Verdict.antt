-- ===== src/CompareTraces/Verdict.antt =====
-- When compare_traces.py passes: the verdict against a pointwise agreement of the traces.
use rv32im_so_c_performance.Base.{
  ℕ, ◌+◌, ◌≤◌, ◌≡◌, refl, ◌↔◌, inl, inr, Bool, true, List, [], ◌∷◌, List-cases, length, arith,
}
use rv32im_so_c_performance.Base.Int.{ℤ, ==ℤ_iff, truthy}
use rv32im_so_c_performance.Trace.{Retirement}
use rv32im_so_c_performance.CompareTraces.{fields_of, compare_from, compare_traces}

-- Two retirements commit the same: a written register only counts where there is a write.
pub record Same (compare_cycle : Bool) (m r : Retirement) : Type 0 where
  pub pc : m.pc ≡ r.pc
  pub insn : m.insn ≡ r.insn
  pub reg_write : m.reg_write ≡ r.reg_write
  pub rd : truthy m.reg_write ≡ true → m.rd ≡ r.rd
  pub wdata : truthy m.reg_write ≡ true → m.wdata ≡ r.wdata
  pub cycle : compare_cycle ≡ true → m.cycle ≡ r.cycle

abbrev pub Agree : Bool → List Retirement → List Retirement → Type 0
Agree c [] [] = Unit
Agree c [] (r ∷ rtl) = ⊥
Agree c (m ∷ model) [] = ⊥
Agree c (m ∷ model) (r ∷ rtl) = Same c m r × Agree c model rtl

fields_of-nil→Same : (c : Bool) (m r : Retirement) → fields_of c m r ≡ [] → Same c m r
unfolding fields_of
fields_of-nil→Same c m r h = ground (
  arith,
  ==ℤ_iff m.pc r.pc,
  ==ℤ_iff m.insn r.insn,
  ==ℤ_iff m.reg_write r.reg_write,
  ==ℤ_iff m.rd r.rd,
  ==ℤ_iff m.wdata r.wdata,
  ==ℤ_iff m.cycle r.cycle,
)

Same→fields_of-nil : (c : Bool) (m r : Retirement) → Same c m r → fields_of c m r ≡ []
unfolding fields_of
Same→fields_of-nil c m r h = ground (
  arith,
  ==ℤ_iff m.pc r.pc,
  ==ℤ_iff m.insn r.insn,
  ==ℤ_iff m.reg_write r.reg_write,
  ==ℤ_iff m.rd r.rd,
  ==ℤ_iff m.wdata r.wdata,
  ==ℤ_iff m.cycle r.cycle,
  h.rd,
  h.wdata,
  h.cycle,
)

module _ (c : Bool) (cap : ℤ) where
  le-compare_from :
      (i k : ℕ) (model rtl : List Retirement) → k ≤ (compare_from c cap i k model rtl).mismatches
  unfolding compare_from
  le-compare_from i k [] rtl = omega arith
  le-compare_from i k (m ∷ model) [] = omega arith
  le-compare_from i k (m ∷ model) (r ∷ rtl) =
      ground (arith, le-compare_from (i + 1) k model rtl, le-compare_from (i + 1) (k + 1) model rtl)

  compare_from-Agree :
      (i k : ℕ) (model rtl : List Retirement)
      → (compare_from c cap i k model rtl).mismatches ≡ k
      → length model ≡ length rtl
      → Agree c model rtl
  unfolding compare_from
  compare_from-Agree i k [] [] h e = tt
  compare_from-Agree i k [] (r ∷ rtl) h e = absurd (omega arith)
  compare_from-Agree i k (m ∷ model) [] h e = absurd (omega arith)
  compare_from-Agree i k (m ∷ model) (r ∷ rtl) h e = elim (List-cases (fields_of c m r)) [
    | inl same ↦ (
      fields_of-nil→Same c m r same,
      compare_from-Agree (i + 1) k model rtl (rw (same, compare_from) at h) (omega arith),
    )
    | inr (f, fs, differ) ↦
        absurd (ground (arith, differ, le-compare_from (i + 1) (k + 1) model rtl))
  ]

  Agree-compare_from :
      (i k : ℕ) (model rtl : List Retirement)
      → Agree c model rtl
      → ((compare_from c cap i k model rtl).mismatches ≡ k) × (length model ≡ length rtl)
  unfolding compare_from
  Agree-compare_from i k [] [] h = (refl, refl)
  Agree-compare_from i k [] (r ∷ rtl) h = elim h [ ]
  Agree-compare_from i k (m ∷ model) [] h = elim h [ ]
  Agree-compare_from i k (m ∷ model) (r ∷ rtl) h =
      let ih = Agree-compare_from (i + 1) k model rtl h.1 in
      (rw (Same→fields_of-nil c m r h.0, compare_from) ih.0, omega arith)

-- compare_traces.py exits with 0 exactly when the traces have the same length and agree at every
-- retirement, whatever the limit on printed mismatches.
pub compare_traces-exit_code :
    (c : Bool) (cap : ℤ) (model rtl : List Retirement)
    → ((compare_traces c cap model rtl).exit_code ≡ 0) ↔ Agree c model rtl
unfolding compare_traces
compare_traces-exit_code c cap model rtl = (forth, back)
  where
    forth : (compare_traces c cap model rtl).exit_code ≡ 0 → Agree c model rtl
    forth h = compare_from-Agree c cap 0 0 model rtl (ground arith) (ground arith)

    back : Agree c model rtl → (compare_traces c cap model rtl).exit_code ≡ 0
    back h = ground (arith, Agree-compare_from c cap 0 0 model rtl h)
