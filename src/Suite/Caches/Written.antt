-- ===== src/Suite/Caches/Written.antt =====
-- The textual comparison of rows, on traces that `TraceWriter::write` printed: it sees the numbers.
use rv32im_so_c_performance.Base.{
  ℕ, ◌+◌, ◌^◌, ◌<◌, ◌≡◌, ◌∙◌, sym, ap, inl, inr, refl, String, Bool, true, false, ◌&&◌, List, [],
  ◌∷◌, map, ◌==◌, ==_iff, if◌then◌else◌, Bool-cases, ok, length, length-map, All, arith,
}
use rv32im_so_c_performance.Base.Int.{◌==ℤ◌}
use rv32im_so_c_performance.Base.Dict.{get}
use rv32im_so_c_performance.PyText.{Text, text_eq, int_0}
use rv32im_so_c_performance.PyText.Decimal.{decimal, int_0-decimal}
use rv32im_so_c_performance.PyText.Hex.{int_0-word}
use rv32im_so_c_performance.PyText.Lower.{lower-decimal, lower-word, text_eq_iff}
use rv32im_so_c_performance.Trace.{Row}
use rv32im_so_c_performance.Trace.Writer.{RetireEvent, write, word, bit, Fits, committed}
use rv32im_so_c_performance.ArchCompare.{commit_differs, first_difference, compare_arch, verdict}
use rv32im_so_c_performance.Suite.Caches.{
  lower_cell, same_text, writes, same_row, same_rows, arch_equal,
}

-- Texts that are equal only if their numbers are.
text_eq-injective :
    (text : ℕ → Text) (m n : ℕ) → (text m ≡ text n → m ≡ n) → text_eq (text m) (text n) ≡ (m == n)
text_eq-injective text m n injective = elim (Bool-cases (m == n)) [
  | inl e ↦ (text_eq_iff _ _).1 (ap text ((==_iff m n).0 e)) ∙ sym e
  | inr e ↦ elim (Bool-cases (text_eq (text m) (text n))) [
    | inl same ↦ same ∙ sym ((==_iff m n).1 (injective ((text_eq_iff _ _).0 same)))
    | inr other ↦ other ∙ sym e
  ]
]

text_eq-decimal : (m n : ℕ) → text_eq (decimal m) (decimal n) ≡ (m == n)
text_eq-decimal m n =
    text_eq-injective decimal m n
      (λ e. let same = sym (int_0-decimal m) ∙ ap int_0 e ∙ int_0-decimal n in cc)

text_eq-word : (m n : ℕ) → m < 2 ^ 32 → n < 2 ^ 32 → text_eq (word m) (word n) ≡ (m == n)
text_eq-word m n h k =
    text_eq-injective word m n
      (λ e. let same = sym (int_0-word m h) ∙ ap int_0 e ∙ int_0-word n k in cc)

writes-bit : (b : Bool) → writes (decimal (bit b)) ≡ b
unfolding writes decimal
writes-bit true = refl
writes-bit false = refl

lower_cell-pc : (e : RetireEvent) → lower_cell "pc" (write e) ≡ ok (word e.pc)
unfolding lower_cell write get
lower_cell-pc e = ap ok (lower-word e.pc)

lower_cell-insn : (e : RetireEvent) → lower_cell "insn" (write e) ≡ ok (word e.insn)
unfolding lower_cell write get
lower_cell-insn e = ap ok (lower-word e.insn)

lower_cell-wdata : (e : RetireEvent) → lower_cell "wdata" (write e) ≡ ok (word e.wdata)
unfolding lower_cell write get
lower_cell-wdata e = ap ok (lower-word e.wdata)

lower_cell-rd : (e : RetireEvent) → lower_cell "rd" (write e) ≡ ok (decimal e.rd)
unfolding lower_cell write get
lower_cell-rd e = ap ok (lower-decimal e.rd)

same_text-lower_cell :
    (column : String) (a b : Row) (x y : Text) (v : Bool)
    → lower_cell column a ≡ ok x
    → lower_cell column b ≡ ok y
    → text_eq x y ≡ v
    → same_text column a b ≡ ok v
unfolding same_text
same_text-lower_cell column a b x y v first second same = rw (first, second, same) refl

module _ (e f : RetireEvent) (h : Fits e) (k : Fits f) where
  same_text-pc : same_text "pc" (write e) (write f) ≡ ok (e.pc == f.pc)
  same_text-pc =
      same_text-lower_cell "pc" _ _ _ _ _ (lower_cell-pc e) (lower_cell-pc f)
        (text_eq-word e.pc f.pc h.0 k.0)

  same_text-insn : same_text "insn" (write e) (write f) ≡ ok (e.insn == f.insn)
  same_text-insn =
      same_text-lower_cell "insn" _ _ _ _ _ (lower_cell-insn e) (lower_cell-insn f)
        (text_eq-word e.insn f.insn h.1 k.1)

  same_text-wdata : same_text "wdata" (write e) (write f) ≡ ok (e.wdata == f.wdata)
  same_text-wdata =
      same_text-lower_cell "wdata" _ _ _ _ _ (lower_cell-wdata e) (lower_cell-wdata f)
        (text_eq-word e.wdata f.wdata h.2 k.2)

  same_text-rd : same_text "rd" (write e) (write f) ≡ ok (e.rd == f.rd)
  same_text-rd =
      same_text-lower_cell "rd" _ _ _ _ _ (lower_cell-rd e) (lower_cell-rd f)
        (text_eq-decimal e.rd f.rd)

lower_cell-reg_write :
    (e : RetireEvent) → lower_cell "reg_write" (write e) ≡ ok (decimal (bit e.reg_write))
unfolding lower_cell write get
lower_cell-reg_write e = ap ok (lower-decimal (bit e.reg_write))

-- The numbers that one round of the loop compares.
abbrev same_event : RetireEvent → RetireEvent → Bool
same_event e f =
    e.pc == f.pc
    && (e.insn == f.insn
        && (bit e.reg_write == bit f.reg_write
            && (if e.reg_write then e.rd == f.rd && e.wdata == f.wdata else true)))

same_row-write :
    (e f : RetireEvent) → Fits e → Fits f → same_row (write e) (write f) ≡ ok (same_event e f)
unfolding same_row
same_row-write e f h k = ground (
  arith,
  same_text-pc e f h k,
  same_text-insn e f h k,
  same_text-rd e f h k,
  same_text-wdata e f h k,
  lower_cell-reg_write e,
  lower_cell-reg_write f,
  text_eq-decimal (bit e.reg_write) (bit f.reg_write),
  writes-bit e.reg_write,
)

same_rows-write :
    (i n : ℕ) (es fs : List RetireEvent)
    → All Fits es
    → All Fits fs
    → same_rows (map write es) (map write fs)
      ≡ ok (verdict (first_difference i (map committed es) (map committed fs)) n).0
unfolding same_rows first_difference commit_differs ◌==ℤ◌
same_rows-write i n [] fs h k = refl
same_rows-write i n (e ∷ es) [] h k = refl
same_rows-write i n (e ∷ es) (f ∷ fs) h k =
    ground (arith, same_row-write e f h.0 k.0, same_rows-write (i + 1) n es fs h.1 k.1)

-- On traces printed by the trace writers `arch_equal` of milestone 3, which compares the lower-case
-- texts of the cells, answers what `compare_arch` answers of the loaded numbers; no exception is raised.
pub arch_equal-texts :
    (es fs : List RetireEvent)
    → All Fits es
    → All Fits fs
    → arch_equal (map write es) (map write fs)
      ≡ ok (compare_arch (map committed es) (map committed fs)).0
unfolding arch_equal compare_arch
arch_equal-texts es fs h k = ground (
  arith,
  same_rows-write 1 (length (map committed es)) es fs h k,
  length-map es committed,
  length-map fs committed,
  length-map es write,
  length-map fs write,
)
