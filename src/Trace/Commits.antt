-- ===== src/Trace/Commits.antt =====
-- `num` and `load_trace` of scripts/run_validation_suite.py. scripts/run_divider_characterization.py
-- repeats them word for word.
use rv32im_so_c_performance.Base.{String, Option, some, List, [], ◌∷◌, Result, ok, ◌>>=◌}
use rv32im_so_c_performance.Base.Int.{ℤ}
use rv32im_so_c_performance.Base.Dict.{get, get_default}
use rv32im_so_c_performance.PyText.{Text, codes, strip, or_zero, int_0}
use rv32im_so_c_performance.Trace.{Row, Files, cell, open_file}

-- What the suite scripts keep of a retirement.
pub record Commit : Type 0 where
  pub cycle : ℤ
  pub pc : ℤ
  pub insn : ℤ
  pub rd : ℤ
  pub wdata : ℤ
  pub reg_write : ℤ

-- `int((text or "0").strip(), 0)`
unfoldable pub num : Option Text → Result ℤ
unfolding int_0 strip
num text = int_0 (strip (or_zero text))

-- One round of the loop of `load_trace`.
unfoldable pub load_commit : Row → Result Commit
unfolding get
load_commit r = do
  cycle ← num (get_default "cycle" (some (codes "0")) r)
  pc ← num (← cell "pc" r)
  insn ← num (← cell "insn" r)
  rd ← num (← cell "rd" r)
  wdata ← num (← cell "wdata" r)
  reg_write ← num (← cell "reg_write" r)
  ok (record { cycle = cycle; pc = pc; insn = insn; rd = rd; wdata = wdata; reg_write = reg_write })

unfoldable pub load_commits : List Row → Result (List Commit)
unfolding num load_commit
load_commits [] = ok []
load_commits (r ∷ rs) = do x ← load_commit r; xs ← load_commits rs; ok (x ∷ xs)

unfoldable pub load_trace : Files → String → Result (List Commit)
unfolding load_commits
load_trace files path = do table ← open_file files path; load_commits table.rows
