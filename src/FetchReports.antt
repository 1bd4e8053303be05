-- ===== src/FetchReports.antt =====
-- scripts/analyze_icache_fetch.py, analyze_branch_fetch.py and analyze_jump_fetch.py: what the reports on
-- the RTL's fetches show, as numbers. A word of a trace is a Python int of any size; the decoders look
-- at its low 32 bits only, so they are given those.
pub mod Repeated
pub mod Redirected
pub mod Icache
use Prim.Native.Nat.{bit_and}
use Prim.Native.String.{◌++◌ as join}
use rv32im_so_c_performance.Base.{
  ℕ, zero, suc, ◌+◌, String, Bool, true, false, not, ◌&&◌, ◌||◌, Option, none, some, List, [], ◌∷◌,
  map, length, ltb, leb, ◌==◌, if◌then◌else◌, keep_if, any_of, ◌++◌, type_error, index_error,
  Result, ok, err, ◌>>=◌, traverse,
}
use rv32im_so_c_performance.Base.Int.{ℤ, pos, ◌+ℤ◌, ◌==ℤ◌, leb_ℤ, truthy}
use rv32im_so_c_performance.PyText.{Text, int_0}
use rv32im_so_c_performance.PyText.Hex.{low32}
use rv32im_so_c_performance.Trace.{Row, Files, cell}
use rv32im_so_c_performance.ArchCompare.{ival}
use rv32im_so_c_performance.Decode.{branch_target, jal_target, rd_of, rs1_of, jalr_imm}
use rv32im_so_c_performance.Suite.{csv_path}
use rv32im_so_c_performance.Suite.Reading.{read_trace, int_cell}
use rv32im_so_c_performance.Sorting.{sorted}

-- `counts[pc] = counts.get(pc, 0) + 1`, on a dict in insertion order
unfoldable pub add_one : ℤ → List (ℤ × ℕ) → List (ℤ × ℕ)
add_one pc [] = (pc, 1) ∷ []
add_one pc ((q, n) ∷ counts) = if q ==ℤ pc then (q, suc n) ∷ counts else (q, n) ∷ add_one pc counts

-- The loop over the fetches, with the counts so far.
unfoldable pub count_from : List (ℤ × ℕ) → List ℤ → List (ℤ × ℕ)
count_from counts [] = counts
count_from counts (pc ∷ pcs) = count_from (add_one pc counts) pcs

abbrev pub is_repeated : ℤ × ℕ → Bool
is_repeated (pc, n) = ltb 1 n

-- The order of pairs.
abbrev pub pair_le : ℤ × ℕ → ℤ × ℕ → Bool
pair_le (p, m) (q, n) = if p ==ℤ q then leb m n else leb_ℤ p q

-- `sorted((pc, n) for pc, n in counts.items() if n > 1)`
unfoldable pub repeated : List ℤ → List (ℤ × ℕ)
unfolding sorted ◌==ℤ◌
repeated pcs = sorted pair_le (keep_if is_repeated (count_from [] pcs))

abbrev pub is_in : ℤ → List ℤ → Bool
is_in pc pcs = any_of (λ q. q ==ℤ pc) pcs

-- `if pc not in uniq: uniq.append(pc)`, with the addresses so far
unfoldable pub uniq_from : List ℤ → List ℤ → List ℤ
uniq_from seen [] = []
uniq_from seen (pc ∷ pcs) =
    let old = uniq_from seen pcs in
    let new = uniq_from (pc ∷ seen) pcs in if is_in pc seen then old else pc ∷ new

unfoldable pub uniq : List ℤ → List ℤ
unfolding uniq_from
uniq pcs = uniq_from [] pcs

-- `int(r[column], 0)`, a TypeError for None
abbrev int_0_cell : Option Text → Result ℤ
int_0_cell none = err type_error
int_0_cell (some s) = int_0 s

unfoldable pub word_of : String → Row → Result ℤ
word_of column r = do c ← cell column r; int_0_cell c

-- `h(r[column])`, the `int(str(x), 0)` of the I-cache report
unfoldable pub h_of : String → Row → Result ℤ
unfolding ival
h_of column r = do c ← cell column r; ival c

-- `int(r[column])`
unfoldable pub number_of : String → Row → Result ℤ
number_of column r = do c ← cell column r; int_cell c

unfoldable pub total : String → List Row → Result ℤ
unfolding ◌+ℤ◌
total column [] = ok (pos 0)
total column (r ∷ rs) = do n ← number_of column r; m ← total column rs; ok (n +ℤ m)

-- A line of the table of fetches.
pub record Shown : Type 0 where
  pub pc : ℤ
  pub flag : ℤ
  pub cycle : ℤ
  pub retired : Bool

-- The body of the loop over the fetches.
abbrev pub shown : String → List ℤ → Row → Result Shown
shown flag_column retired r = do
  pc ← word_of "pc" r
  flag ← number_of flag_column r
  cycle ← number_of "cycle" r
  ok (record { pc = pc; flag = flag; cycle = cycle; retired = is_in pc retired })

abbrev pub shown_pcs : List Shown → List ℤ
shown_pcs lines = map (λ (s : Shown). s.pc) lines

abbrev pub not_in : List ℤ → List ℤ → List ℤ
not_in retired pcs = keep_if (λ pc. not (is_in pc retired)) pcs
