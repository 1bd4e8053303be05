-- ===== src/ArchCompare/Commits.antt =====
-- `compare_arch` against a pointwise agreement of the traces.
use rv32im_so_c_performance.Base.{
  ℕ, ◌+◌, ◌≡◌, refl, ◌↔◌, inl, inr, true, none, List, [], ◌∷◌, Option-cases, length, arith,
}
use rv32im_so_c_performance.Base.Int.{==ℤ_iff, truthy}
use rv32im_so_c_performance.Trace.Commits.{Commit}
use rv32im_so_c_performance.ArchCompare.{commit_differs, first_difference, compare_arch}

-- The same architectural effect: rd and wdata only count for a register write.
pub record Same (m r : Commit) : Type 0 where
  pub pc : m.pc ≡ r.pc
  pub insn : m.insn ≡ r.insn
  pub reg_write : m.reg_write ≡ r.reg_write
  pub rd : truthy m.reg_write ≡ true → m.rd ≡ r.rd
  pub wdata : truthy m.reg_write ≡ true → m.wdata ≡ r.wdata

abbrev pub Agree : List Commit → List Commit → Type 0
Agree [] [] = Unit
Agree [] (r ∷ rtl) = ⊥
Agree (m ∷ model) [] = ⊥
Agree (m ∷ model) (r ∷ rtl) = Same m r × Agree model rtl

module _ (i : ℕ) (m r : Commit) where
  pub commit_differs-Same : commit_differs i m r ≡ none → Same m r
  unfolding commit_differs
  commit_differs-Same h = ground (
    arith,
    ==ℤ_iff m.pc r.pc,
    ==ℤ_iff m.insn r.insn,
    ==ℤ_iff m.reg_write r.reg_write,
    ==ℤ_iff m.rd r.rd,
    ==ℤ_iff m.wdata r.wdata,
  )

  pub Same-commit_differs : Same m r → commit_differs i m r ≡ none
  unfolding commit_differs
  Same-commit_differs h = ground (
    arith,
    ==ℤ_iff m.pc r.pc,
    ==ℤ_iff m.insn r.insn,
    ==ℤ_iff m.reg_write r.reg_write,
    ==ℤ_iff m.rd r.rd,
    ==ℤ_iff m.wdata r.wdata,
    h.rd,
    h.wdata,
  )

first_difference-Agree :
    (i : ℕ) (model rtl : List Commit)
    → first_difference i model rtl ≡ none
    → length model ≡ length rtl
    → Agree model rtl
unfolding first_difference
first_difference-Agree i [] [] h e = tt
first_difference-Agree i [] (r ∷ rtl) h e = absurd (omega arith)
first_difference-Agree i (m ∷ model) [] h e = absurd (omega arith)
first_difference-Agree i (m ∷ model) (r ∷ rtl) h e = elim (Option-cases (commit_differs i m r)) [
  | inl same ↦ (
    commit_differs-Same i m r same,
    first_difference-Agree (i + 1) model rtl (rw (same, first_difference) at h) (omega arith),
  )
  | inr (note, differ) ↦ ground (arith, differ)
]

Agree-first_difference :
    (i : ℕ) (model rtl : List Commit)
    → Agree model rtl
    → (first_difference i model rtl ≡ none) × (length model ≡ length rtl)
unfolding first_difference
Agree-first_difference i [] [] h = (refl, refl)
Agree-first_difference i [] (r ∷ rtl) h = elim h [ ]
Agree-first_difference i (m ∷ model) [] h = elim h [ ]
Agree-first_difference i (m ∷ model) (r ∷ rtl) h =
    let ih = Agree-first_difference (i + 1) model rtl h.1 in
    (rw (Same-commit_differs i m r h.0, first_difference) ih.0, omega arith)

-- `compare_arch` returns True exactly for traces of one length that agree at every retirement.
pub compare_arch-Agree :
    (model rtl : List Commit) → ((compare_arch model rtl).0 ≡ true) ↔ Agree model rtl
unfolding compare_arch
compare_arch-Agree model rtl = (forth, back)
  where
    forth : (compare_arch model rtl).0 ≡ true → Agree model rtl
    forth h = first_difference-Agree 1 model rtl (ground arith) (ground arith)

    back : Agree model rtl → (compare_arch model rtl).0 ≡ true
    back h = ground (arith, Agree-first_difference 1 model rtl h)
