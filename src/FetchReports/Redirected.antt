-- ===== src/FetchReports/Redirected.antt =====
-- The reports of scripts/analyze_branch_fetch.py and analyze_jump_fetch.py.
use Prim.Native.Nat.{bit_and}
use Prim.Native.String.{◌++◌ as join}
use rv32im_so_c_performance.Base.{
  ℕ, String, Bool, false, not, ◌&&◌, ◌||◌, Option, none, some, List, [], ◌∷◌, length, ◌==◌,
  if◌then◌else◌, ◌++◌, Result, ok, ◌>>=◌, traverse,
}
use rv32im_so_c_performance.Base.Int.{ℤ, pos, ◌==ℤ◌}
use rv32im_so_c_performance.PyText.Hex.{low32}
use rv32im_so_c_performance.Trace.{Row, Files}
use rv32im_so_c_performance.Decode.{branch_target, jal_target, rd_of, rs1_of, jalr_imm}
use rv32im_so_c_performance.Suite.{csv_path}
use rv32im_so_c_performance.Suite.Reading.{read_trace}
use rv32im_so_c_performance.FetchReports.{
  Shown, shown, shown_pcs, not_in, uniq, repeated, word_of, total,
}

-- `next_pc` of row `i`: of the next row, if there is one.
unfoldable pub next_pc : List Row → Result (Option ℤ)
next_pc [] = ok none
next_pc (r ∷ rs) = do pc ← word_of "pc" r; ok (some pc)

pub data Transfer : Type 0 where
  branch : ℤ → ℕ → Bool → Option ℤ → Transfer
  jal : ℤ → ℕ → ℕ → Option ℤ → Transfer
  jalr : ℤ → ℕ → ℕ → ℤ → Option ℤ → Transfer

-- `next_pc == tgt`
abbrev pub is_taken : Option ℤ → ℕ → Bool
is_taken none target = false
is_taken (some pc) target = pc ==ℤ pos target

abbrev branch_of : ℤ → Option ℕ → List Row → Result (List Transfer)
branch_of pc none rest = ok []
branch_of pc (some target) rest = do
  after ← next_pc rest
  ok (branch pc target (is_taken after target) after ∷ [])

-- The body of the loop over the retired instructions in the branch report.
unfoldable pub branch_at : Row → List Row → Result (List Transfer)
unfolding branch_target ◌==ℤ◌ low32
branch_at r rest = do
  pc ← word_of "pc" r
  insn ← word_of "insn" r
  branch_of pc (branch_target (low32 pc) (low32 insn)) rest

abbrev jal_of : ℤ → ℕ → Option ℕ → Option ℤ → List Transfer
jal_of pc insn none after = []
jal_of pc insn (some target) after = jal pc (rd_of insn) target after ∷ []

-- The body of the loop over the retired instructions in the jump report.
unfoldable pub jump_at : Row → List Row → Result (List Transfer)
unfolding jal_target low32
jump_at r rest = do
  pc ← word_of "pc" r
  insn ← word_of "insn" r
  let word = low32 insn
  let opcode = bit_and word 0x7f
  if not (opcode == 0x6f) && not (opcode == 0x67) then ok [] else do
    after ← next_pc rest
    if opcode == 0x6f
        then ok (jal_of pc word (jal_target (low32 pc) word) after)
        else ok (jalr pc (rd_of word) (rs1_of word) (jalr_imm word) after ∷ [])

-- The loop over the retired instructions, each with the rows behind it.
unfoldable pub transfers :
    (Row → List Row → Result (List Transfer)) → List Row → Result (List Transfer)
transfers at [] = ok []
transfers at (r ∷ rs) = do ts ← at r rs; others ← transfers at rs; ok (ts ++ others)

-- What the branch and the jump report show of a case.
pub record Report : Type 0 where
  pub retired : List ℤ
  pub accesses : ℕ
  pub hits : ℤ
  pub misses : ℤ
  pub found : List Transfer
  pub stream : List Shown
  pub not_retired : List ℤ
  pub replay : List (ℤ × ℕ)

unfoldable pub report :
    (Row → List Row → Result (List Transfer)) → List Row → List Row → Result Report
unfolding uniq repeated ◌==ℤ◌
report at fr rr = do
  retired ← traverse (word_of "pc") rr
  hits ← total "hit" fr
  misses ← total "miss" fr
  found ← transfers at rr
  stream ← traverse (shown "hit" retired) fr
  ok (record {
    retired = retired;
    accesses = length fr;
    hits = hits;
    misses = misses;
    found = found;
    stream = stream;
    not_retired = uniq (not_in retired (shown_pcs stream));
    replay = repeated (shown_pcs stream);
  })

-- One round of the loop over the cases: none where a file is missing.
unfoldable pub report_case :
    (Row → List Row → Result (List Transfer))
    → (String → Bool)
    → Files
    → String
    → String
    → Result (Option Report)
report_case at exists files folder name =
    let fpath = csv_path (join folder "fetch_") name in
    let rpath = csv_path (join folder "rtl_") name in
    if not (exists fpath) || not (exists rpath) then ok none else do
      fr ← read_trace files fpath
      rr ← read_trace files rpath
      shows ← report at fr rr
      ok (some shows)

abbrev pub branch_cases : List String
branch_cases =
    "branch_not_taken" ∷ "branch_taken_forward" ∷ "branch_backward_loop" ∷ "branch_conflict_loop"
    ∷ []

abbrev pub jump_cases : List String
jump_cases = "jal_forward_link" ∷ "jal_backward_loop" ∷ "jalr_forward" ∷ "call_return" ∷ []

unfoldable pub branch_main : (String → Bool) → Files → Result (List (Option Report))
branch_main exists files =
    traverse (report_case branch_at exists files "results/milestone3c/") branch_cases

unfoldable pub jump_main : (String → Bool) → Files → Result (List (Option Report))
jump_main exists files =
    traverse (report_case jump_at exists files "results/milestone3d/") jump_cases
