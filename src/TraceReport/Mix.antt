-- ===== src/TraceReport/Mix.antt =====
-- The instruction mix of scripts/analyze_trace.py and the rows that it counts.
use rv32im_so_c_performance.Base.{
  ℕ, suc, ◌+◌, ◌≡◌, refl, ap, subst, ◌∙◌, String, true, false, some, List, [], ◌∷◌, length, ok,
  >>=-eq-ok, arith,
}
use rv32im_so_c_performance.Base.Dict.{Dict, get_default}
use rv32im_so_c_performance.PyText.{codes}
use rv32im_so_c_performance.Trace.{Row, Table, Files, cell, open_file}
use rv32im_so_c_performance.Sorting.{sorted, insert_sorted, IsSorted, sorted-IsSorted}
use rv32im_so_c_performance.TraceReport.{
  num, kind_in, opcodes, opcode, count_kind, Totals, count_row, count_rows, zero_totals,
  more_common, Summary, main,
}

-- All that is counted.
abbrev pub total : Dict ℕ → ℕ
total [] = 0
total ((k, n) ∷ counts) = n + total counts

total-count_kind : (k : String) (counts : Dict ℕ) → total (count_kind k counts) ≡ suc (total counts)
unfolding count_kind
total-count_kind k [] = omega arith
total-count_kind k ((j, n) ∷ counts) = ground (arith, total-count_kind k counts)

total-insert_sorted :
    (x : String × ℕ) (counts : Dict ℕ)
    → total (insert_sorted more_common x counts) ≡ x.1 + total counts
unfolding insert_sorted
total-insert_sorted x [] = refl
total-insert_sorted x (y ∷ counts) = ground (arith, total-insert_sorted x counts)

total-sorted : (counts : Dict ℕ) → total (sorted more_common counts) ≡ total counts
unfolding sorted
total-sorted [] = refl
total-sorted (x ∷ counts) =
    total-insert_sorted x (sorted more_common counts) ∙ ap (λ n. x.1 + n) (total-sorted counts)

more_common-total : (a b : String × ℕ) → more_common a b ≡ false → more_common b a ≡ true
more_common-total (j, m) (k, n) h = ground arith

more_common_trans :
    (a b c : String × ℕ) → more_common a b ≡ true → more_common b c ≡ true → more_common a c ≡ true
more_common_trans (i, l) (j, m) (k, n) g h = ground arith

counted :
    (t u v : Totals)
    → ok v ≡ ok u
    → v.rows ≡ suc t.rows
    → total v.counts ≡ suc (total t.counts)
    → (u.rows ≡ suc t.rows) × (total u.counts ≡ suc (total t.counts))
counted t u v same rows counts = (cc, cc)

unchanged : (t u : Totals) → ok t ≡ ok u → (u.rows ≡ t.rows) × (total u.counts ≡ total t.counts)
unchanged t u same = (cc, cc)

-- One row more, and one kind counted once more.
count_row-suc :
    (t u : Totals) (r : Row)
    → count_row t r ≡ ok u
    → (u.rows ≡ suc t.rows) × (total u.counts ≡ suc (total t.counts))
unfolding count_row
count_row-suc t u r h =
    let (cycle, _, h1) = >>=-eq-ok (num (get_default "cycle" (some (codes "0")) r)) _ h in
    let (text, _, h2) = >>=-eq-ok (cell "insn" r) _ h1 in
    let (insn, _, h3) = >>=-eq-ok (num text) _ h2 in
    counted t u _ h3 refl (total-count_kind (kind_in opcodes (opcode insn)) t.counts)

count_rows-length :
    (t u : Totals) (rs : List Row)
    → count_rows t rs ≡ ok u
    → (u.rows ≡ length rs + t.rows) × (total u.counts ≡ length rs + total t.counts)
unfolding count_rows
count_rows-length t u [] h = let (a, b) = unchanged t u h in (omega arith, omega arith)
count_rows-length t u (r ∷ rs) h =
    let (v, one, h1) = >>=-eq-ok (count_row t r) _ h in
    let (a, b) = count_row-suc t v r one in
    let (c, d) = count_rows-length v u rs h1 in (omega arith, omega arith)

abbrev listing : Totals → Summary
listing t = record { retired = t.rows; cycles = t.last_cycle; mix = sorted more_common t.counts }

returned : (t : Totals) (s : Summary) → ok (listing t) ≡ ok s → listing t ≡ s
returned t s same = cc

listed :
    (t : Totals) (n : ℕ)
    → t.rows ≡ n
    → total t.counts ≡ n
    → ((listing t).retired ≡ n) × (total (listing t).mix ≡ n) × IsSorted more_common (listing t).mix
listed t n rows counts = (
  rows,
  total-sorted t.counts ∙ counts,
  sorted-IsSorted more_common more_common-total more_common_trans t.counts,
)

-- Where the report is printed, the file exists, the retired instructions are its rows, and the counts of
-- the instruction mix add up to them and are listed with the most common kind first.
pub main-total :
    (files : Files) (path : String) (s : Summary)
    → main files path ≡ ok s
    → (table : Table) × (open_file files path ≡ ok table)
      × (s.retired ≡ length table.rows)
      × (total s.mix ≡ length table.rows)
      × IsSorted more_common s.mix
unfolding main
main-total files path s h =
    let (table, found, h1) = >>=-eq-ok (open_file files path) _ h in
    let (t, counts, h2) = >>=-eq-ok (count_rows zero_totals table.rows) _ h1 in
    let (rows, all) = count_rows-length zero_totals t table.rows counts in
    let (retired, mix, order) =
      subst
        (λ (s : Summary).
          (s.retired ≡ length table.rows)
          × (total s.mix ≡ length table.rows)
          × IsSorted more_common s.mix)
        (returned t s h2) (listed t (length table.rows) (omega arith) (omega arith)) in
    (table, found, retired, mix, order)
