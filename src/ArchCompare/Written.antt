-- ===== src/ArchCompare/Written.antt =====
-- The comparisons of rows and of loaded numbers, on traces that `TraceWriter::write` printed. The RTL trace collector prints the same columns in the same formats.
use rv32im_so_c_performance.Base.{
  ℕ, ◌+◌, ◌≡◌, ◌≢◌, inl, inr, refl, Bool, not, ◌||◌, ◌&&◌, none, some, List, [], ◌∷◌, map, ◌==◌,
  if◌then◌else◌, Option-cases, Bool-cases, Result, ok, err, length, length-map, All, arith,
}
use rv32im_so_c_performance.Base.Int.{pos, ◌==ℤ◌, truthy}
use rv32im_so_c_performance.Base.Dict.{get}
use rv32im_so_c_performance.PyText.Decimal.{decimal, int_0-decimal}
use rv32im_so_c_performance.PyText.Hex.{int_0-word}
use rv32im_so_c_performance.Trace.{cell}
use rv32im_so_c_performance.Trace.Writer.{RetireEvent, write, bit, Fits, committed}
use rv32im_so_c_performance.Trace.Commits.{Commit}
use rv32im_so_c_performance.ArchCompare.Streams.{arch_equal-stream}
use rv32im_so_c_performance.ArchCompare.{
  Note, RowVerdict, same, differs, register_differs, ival, differ, commit_differs, first_difference,
  compare_rows, compare_arch, arch_equal, stream_from, arch_compare_stream, verdict,
}

-- The row verdict of two events, from their numbers.
abbrev pub event_verdict : Commit → Commit → RowVerdict
event_verdict m r =
    if not (m.pc ==ℤ r.pc) || (not (m.insn ==ℤ r.insn) || not (m.reg_write ==ℤ r.reg_write))
    then differs
    else if truthy m.reg_write && (not (m.rd ==ℤ r.rd) || not (m.wdata ==ℤ r.wdata))
    then register_differs
    else same

module _ (e f : RetireEvent) (h : Fits e) (k : Fits f) where
  differ-pc : differ "pc" (write e) (write f) ≡ ok (not (pos e.pc ==ℤ pos f.pc))
  unfolding differ write get ival
  differ-pc = rw (int_0-word e.pc h.0, int_0-word f.pc k.0)

  differ-insn : differ "insn" (write e) (write f) ≡ ok (not (pos e.insn ==ℤ pos f.insn))
  unfolding differ write get ival
  differ-insn = rw (int_0-word e.insn h.1, int_0-word f.insn k.1)

  differ-wdata : differ "wdata" (write e) (write f) ≡ ok (not (pos e.wdata ==ℤ pos f.wdata))
  unfolding differ write get ival
  differ-wdata = rw (int_0-word e.wdata h.2, int_0-word f.wdata k.2)

  differ-rd : differ "rd" (write e) (write f) ≡ ok (not (pos e.rd ==ℤ pos f.rd))
  unfolding differ write get ival
  differ-rd = ground (arith, int_0-decimal e.rd, int_0-decimal f.rd)

  differ-reg_write :
      differ "reg_write" (write e) (write f)
      ≡ ok (not (pos (bit e.reg_write) ==ℤ pos (bit f.reg_write)))
  unfolding differ write get ival
  differ-reg_write =
      ground (arith, int_0-decimal (bit e.reg_write), int_0-decimal (bit f.reg_write))

  cell-reg_write : cell "reg_write" (write e) ≡ ok (some (decimal (bit e.reg_write)))
  unfolding write get
  cell-reg_write = refl

  ival-reg_write : ival (some (decimal (bit e.reg_write))) ≡ ok (pos (bit e.reg_write))
  unfolding ival
  ival-reg_write = int_0-decimal (bit e.reg_write)

  compare_rows-write :
      compare_rows (write e) (write f) ≡ ok (event_verdict (committed e) (committed f))
  unfolding compare_rows
  compare_rows-write = ground (
    arith, differ-pc, differ-insn, differ-reg_write, cell-reg_write, ival-reg_write, differ-rd,
    differ-wdata,
  )

abbrev pub passes : Result (Bool × Note) → Result Bool
passes (ok (b, note)) = ok b
passes (err e) = err e

event_verdict-same : (i : ℕ) (m r : Commit) → commit_differs i m r ≡ none → event_verdict m r ≡ same
unfolding commit_differs
event_verdict-same i m r h = ground arith

event_verdict-ne_same :
    (i : ℕ) (m r : Commit) (note : Note)
    → commit_differs i m r ≡ some note
    → event_verdict m r ≢ same
unfolding commit_differs
event_verdict-ne_same i m r note h = ground arith

abbrev pub AllFit : List RetireEvent → Type 0
AllFit es = All Fits es

-- The stream comparison of printed traces gives the verdict of `compare_arch`.
stream_from-write :
    (i j : ℕ) (es fs : List RetireEvent)
    → AllFit es
    → AllFit fs
    → passes (stream_from i (map write es) (map write fs))
      ≡ ok (
          length es == length fs
          && (verdict (first_difference j (map committed es) (map committed fs)) 0).0)
unfolding stream_from first_difference
stream_from-write i j [] [] h k = refl
stream_from-write i j [] (f ∷ fs) h k = ground arith
stream_from-write i j (e ∷ es) [] h k = ground arith
stream_from-write i j (e ∷ es) (f ∷ fs) h k =
    elim (Option-cases (commit_differs j (committed e) (committed f))) [
      | inl none_differs ↦ ground (
        arith,
        compare_rows-write e f h.0 k.0,
        event_verdict-same j (committed e) (committed f) none_differs,
        stream_from-write (i + 1) (j + 1) es fs h.1 k.1,
      )
      | inr (note, some_differs) ↦ ground (
        arith,
        compare_rows-write e f h.0 k.0,
        event_verdict-ne_same j (committed e) (committed f) note some_differs,
      )
    ]

-- On traces printed by the trace writers `arch_compare_stream`, which reads the texts row by row,
-- passes exactly when `compare_arch`, which compares the loaded numbers, does; no exception is raised.
pub stream-compare_arch :
    (es fs : List RetireEvent)
    → AllFit es
    → AllFit fs
    → passes (arch_compare_stream (map write es) (map write fs))
      ≡ ok (compare_arch (map committed es) (map committed fs)).0
unfolding arch_compare_stream compare_arch
stream-compare_arch es fs h k =
    ground
      (arith, stream_from-write 0 1 es fs h k, length-map es committed, length-map fs committed)

-- On traces printed by the trace writers `arch_equal` of milestones 3C and 3D, which compares the rows
-- of two lists, passes exactly when `compare_arch` does; no exception is raised.
pub arch_equal-compare_arch :
    (es fs : List RetireEvent)
    → AllFit es
    → AllFit fs
    → passes (arch_equal (map write es) (map write fs))
      ≡ ok (compare_arch (map committed es) (map committed fs)).0
arch_equal-compare_arch es fs h k = elim (Bool-cases (length es == length fs)) [
  | inl e ↦
      rw
        (arch_equal-stream (map write es) (map write fs)
          (ground (arith, e, length-map es write, length-map fs write)))
        (stream-compare_arch es fs h k)
  | inr n ↦
      unfold arch_equal compare_arch in
      ground (
        arith,
        length-map es committed,
        length-map fs committed,
        length-map es write,
        length-map fs write,
      )
]
