-- ===== src/Trace/Writer.antt =====
-- `TraceWriter::write` of include/rv32im/Trace.hpp, as the row that DictReader makes of its line,
-- and the round trip through the loaders of the scripts.
use rv32im_so_c_performance.Base.{
  ℕ, ◌+◌, ◌∙◌, ap, ◌^◌, ◌<◌, ◌≡◌, refl, Bool, some, List, [], ◌∷◌, map, ok, All, if◌then◌else◌,
}
use rv32im_so_c_performance.Base.Int.{ℤ, pos}
use rv32im_so_c_performance.PyText.{Text, int_0, int_16, otherwise}
use rv32im_so_c_performance.PyText.Plain.{IsPlain, strip_plain}
use rv32im_so_c_performance.Trace
use rv32im_so_c_performance.Trace.Commits
use rv32im_so_c_performance.Trace.Commits.{Commit, load_commit, load_commits}
use rv32im_so_c_performance.PyText.Hex.{hex_pad, word-IsPlain, int_0-word}
use rv32im_so_c_performance.Trace.{Row, Retirement, num_stripped, load_row, load_rows}
use rv32im_so_c_performance.PyText.Decimal.{decimal, decimal-IsPlain, int_0-decimal}

pub record RetireEvent : Type 0 where
  pub cycle : ℕ
  pub retired : ℕ
  pub pc : ℕ
  pub insn : ℕ
  pub rd : ℕ
  pub wdata : ℕ
  pub reg_write : Bool
  pub mem_addr : ℕ
  pub mem_read : Bool
  pub mem_write : Bool

abbrev pub word : ℕ → Text
word n = b'0' ∷ b'x' ∷ hex_pad 8 n

abbrev pub bit : Bool → ℕ
bit b = if b then 1 else 0

unfoldable pub write : RetireEvent → Row
write e =
    ("cycle", some (decimal e.cycle))
    ∷ ("retired", some (decimal e.retired))
    ∷ ("pc", some (word e.pc))
    ∷ ("insn", some (word e.insn))
    ∷ ("rd", some (decimal e.rd))
    ∷ ("wdata", some (word e.wdata))
    ∷ ("reg_write", some (decimal (bit e.reg_write)))
    ∷ ("mem_addr", some (word e.mem_addr))
    ∷ ("mem_read", some (decimal (bit e.mem_read)))
    ∷ ("mem_write", some (decimal (bit e.mem_write)))
    ∷ []

-- The fields fit the words of the C++ struct.
abbrev pub Fits : RetireEvent → Type 0
Fits e = (e.pc < 2 ^ 32) × (e.insn < 2 ^ 32) × (e.wdata < 2 ^ 32)

abbrev pub committed : RetireEvent → Commit
committed e = record {
  cycle = pos e.cycle;
  pc = pos e.pc;
  insn = pos e.insn;
  rd = pos e.rd;
  wdata = pos e.wdata;
  reg_write = pos (bit e.reg_write);
}

abbrev pub loaded : ℕ → RetireEvent → Retirement
loaded line e = record {
  row = line;
  cycle = pos e.cycle;
  retired = pos e.retired;
  pc = pos e.pc;
  insn = pos e.insn;
  rd = pos e.rd;
  wdata = pos e.wdata;
  reg_write = pos (bit e.reg_write);
}

-- Both `num` functions read a plain literal as `int(text, 0)` does.
num-literal : (s : Text) (n : ℤ) → All IsPlain s → int_0 s ≡ ok n → Commits.num (some s) ≡ ok n
unfolding Commits.num
num-literal [] n h e = cc
num-literal (c ∷ s) n h e = ap int_0 (strip_plain (c ∷ s) h) ∙ e

trace_num-literal : (s : Text) (n : ℤ) → All IsPlain s → int_0 s ≡ ok n → Trace.num (some s) ≡ ok n
unfolding Trace.num
trace_num-literal [] n h e = cc
trace_num-literal (c ∷ s) n h e =
    ap num_stripped (strip_plain (c ∷ s) h) ∙ ap (λ r. otherwise r (int_16 (c ∷ s))) e

num-decimal : (n : ℕ) → Commits.num (some (decimal n)) ≡ ok (pos n)
num-decimal n = num-literal (decimal n) (pos n) (decimal-IsPlain n) (int_0-decimal n)

num-word : (n : ℕ) → n < 2 ^ 32 → Commits.num (some (word n)) ≡ ok (pos n)
num-word n h = num-literal (word n) (pos n) (word-IsPlain n) (int_0-word n h)

trace_num-decimal : (n : ℕ) → Trace.num (some (decimal n)) ≡ ok (pos n)
trace_num-decimal n = trace_num-literal (decimal n) (pos n) (decimal-IsPlain n) (int_0-decimal n)

trace_num-word : (n : ℕ) → n < 2 ^ 32 → Trace.num (some (word n)) ≡ ok (pos n)
trace_num-word n h = trace_num-literal (word n) (pos n) (word-IsPlain n) (int_0-word n h)

load_commit-write : (e : RetireEvent) → Fits e → load_commit (write e) ≡ ok (committed e)
unfolding load_commit write
load_commit-write e h = rw (
  num-decimal e.cycle,
  num-word e.pc h.0,
  num-word e.insn h.1,
  num-decimal e.rd,
  num-word e.wdata h.2,
  num-decimal (bit e.reg_write),
)

load_row-write : (i n : ℕ) (e : RetireEvent) → Fits e → load_row i n (write e) ≡ ok (loaded i e)
unfolding load_row write
load_row-write i n e h = rw (
  trace_num-decimal e.cycle,
  trace_num-decimal e.retired,
  trace_num-word e.pc h.0,
  trace_num-word e.insn h.1,
  trace_num-decimal e.rd,
  trace_num-word e.wdata h.2,
  trace_num-decimal (bit e.reg_write),
)

-- What the C++ trace writer prints for events that fit their words, the suite scripts load back,
-- retirement by retirement.
load_commits-write :
    (es : List RetireEvent) → All Fits es → load_commits (map write es) ≡ ok (map committed es)
unfolding load_commits
load_commits-write [] h = refl
load_commits-write (e ∷ es) h = rw (load_commit-write e h.0, load_commits-write es h.1)

abbrev pub numbered : ℕ → List RetireEvent → List Retirement
numbered line [] = []
numbered line (e ∷ es) = loaded line e ∷ numbered (line + 1) es

-- What the C++ trace writer prints, `load` of compare_traces.py reads back, from any line number on and
-- after any number of rows, for events that fit their words: each retirement with its line number.
pub load_rows-write :
    (i n : ℕ) (es : List RetireEvent)
    → All Fits es
    → load_rows i n (map write es) ≡ ok (numbered i es)
unfolding load_rows
load_rows-write i n [] h = refl
load_rows-write i n (e ∷ es) h =
    rw (load_row-write i n e h.0, load_rows-write (i + 1) (n + 1) es h.1)
