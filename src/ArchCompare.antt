-- ===== src/ArchCompare.antt =====
-- The architectural comparisons: `compare_arch` of scripts/run_validation_suite.py (repeated in
-- scripts/run_divider_characterization.py), `arch_equal` of scripts/run_milestone3c.py (repeated in
-- scripts/run_milestone3d.py) and `arch_compare_stream` of scripts/run_milestone4.py.
pub mod Commits
pub mod Streams
pub mod Written
use rv32im_so_c_performance.Base.{
  ℕ, zero, suc, ◌+◌, String, Bool, true, false, not, ◌&&◌, ◌||◌, Option, none, some, List, [], ◌∷◌,
  ◌==◌, if◌then◌else◌, value_error, Result, ok, err, ◌>>=◌, length,
}
use rv32im_so_c_performance.Base.Int.{ℤ, ◌==ℤ◌, truthy}
use rv32im_so_c_performance.PyText.{Text, int_0}
use rv32im_so_c_performance.Trace.{Row, cell}
use rv32im_so_c_performance.Trace.Commits.{Commit}

-- The text beside a verdict, with its numbers.
pub data Note : Type 0 where
  retired_count : ℕ → ℕ → Note
  count_mismatch_after : ℕ → Note
  mismatch_at : ℕ → Note
  register_mismatch_at : ℕ → Note
  pc_mismatch : ℕ → Note
  instruction_mismatch : ℕ → Note
  reg_write_mismatch : ℕ → Note
  register_result_mismatch : ℕ → Note
  retirements_match : ℕ → Note

-- The body of the loop of `compare_arch`: the note with which it returns, if it does.
unfoldable pub commit_differs : ℕ → Commit → Commit → Option Note
commit_differs i m r =
    if not (m.pc ==ℤ r.pc)
    then some (pc_mismatch i)
    else if not (m.insn ==ℤ r.insn)
    then some (instruction_mismatch i)
    else if not (m.reg_write ==ℤ r.reg_write)
    then some (reg_write_mismatch i)
    else if truthy m.reg_write && (not (m.rd ==ℤ r.rd) || not (m.wdata ==ℤ r.wdata))
    then some (register_result_mismatch i)
    else none

-- `for i, (m, r) in enumerate(zip(model, rtl), 1)`
unfoldable pub first_difference : ℕ → List Commit → List Commit → Option Note
first_difference i [] rtl = none
first_difference i (m ∷ model) [] = none
first_difference i (m ∷ model) (r ∷ rtl) = elim (commit_differs i m r) [
  | none ↦ first_difference (i + 1) model rtl
  | some note ↦ some note
]

abbrev pub verdict : Option Note → ℕ → Bool × Note
verdict none n = (true, retirements_match n)
verdict (some note) n = (false, note)

unfoldable pub compare_arch : List Commit → List Commit → Bool × Note
compare_arch model rtl =
    if not (length model == length rtl)
    then (false, retired_count (length model) (length rtl))
    else verdict (first_difference 1 model rtl) (length model)

-- `int(str(x), 0)`; the text of a missing cell, `None`, is no literal
unfoldable pub ival : Option Text → Result ℤ
ival none = err value_error
ival (some s) = int_0 s

-- `ival(m[column]) != ival(r[column])`
unfoldable pub differ : String → Row → Row → Result Bool
differ column m r = do a ← ival (← cell column m); b ← ival (← cell column r); ok (not (a ==ℤ b))

-- Python's `or`: the right side is evaluated only if the left one is false.
abbrev pub or_else : Result Bool → Result Bool → Result Bool
or_else x y = do b ← x; if b then ok true else y

pub data RowVerdict : Type 0 where
  same differs register_differs : RowVerdict

-- The tests that the two row loops make of one pair of rows.
unfoldable pub compare_rows : Row → Row → Result RowVerdict
compare_rows m r = do
  d ← or_else (or_else (differ "pc" m r) (differ "insn" m r)) (differ "reg_write" m r)
  if d then ok differs else do
    w ← ival (← cell "reg_write" m)
    if truthy w
        then (do
          x ← or_else (differ "rd" m r) (differ "wdata" m r)
          ok (if x then register_differs else same))
        else ok same

-- The loop of `arch_equal`, at index `i`; `n` is `len(model)`.
unfoldable pub arch_equal_from : ℕ → ℕ → List Row → List Row → Result (Bool × Note)
arch_equal_from n i [] rtl = ok (true, retirements_match n)
arch_equal_from n i (m ∷ model) [] = ok (true, retirements_match n)
arch_equal_from n i (m ∷ model) (r ∷ rtl) =
    let rest = arch_equal_from n (i + 1) model rtl in
    do
      v ← compare_rows m r
      elim v [
        | same ↦ rest
        | differs ↦ ok (false, mismatch_at (i + 1))
        | register_differs ↦ ok (false, register_mismatch_at (i + 1))
      ]

unfoldable pub arch_equal : List Row → List Row → Result (Bool × Note)
arch_equal model rtl =
    if not (length model == length rtl)
    then ok (false, retired_count (length model) (length rtl))
    else arch_equal_from (length model) 0 model rtl

-- The `while True` loop of `arch_compare_stream`, with `count` pairs read: the two readers are
-- advanced together, and the loop ends when one of them does.
unfoldable pub stream_from : ℕ → List Row → List Row → Result (Bool × Note)
stream_from count [] [] = ok (true, retirements_match count)
stream_from count [] (r ∷ rtl) = ok (false, count_mismatch_after count)
stream_from count (m ∷ model) [] = ok (false, count_mismatch_after count)
stream_from count (m ∷ model) (r ∷ rtl) =
    let rest = stream_from (count + 1) model rtl in
    do
      v ← compare_rows m r
      elim v [
        | same ↦ rest
        | differs ↦ ok (false, mismatch_at (count + 1))
        | register_differs ↦ ok (false, register_mismatch_at (count + 1))
      ]

unfoldable pub arch_compare_stream : List Row → List Row → Result (Bool × Note)
arch_compare_stream model rtl = stream_from 0 model rtl
