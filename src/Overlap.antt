-- ===== src/Overlap.antt =====
-- scripts/analyze_milestone4b_probe.py: the cycles in which both caches stall, grouped into episodes,
-- and the closing check of the probe.
pub mod Grouped
use rv32im_so_c_performance.Base.{
  ℕ, ◌+◌, Bool, true, false, not, ◌&&◌, Option, none, some, List, [], ◌∷◌, if◌then◌else◌, ◌==◌,
  length, String, type_error, get_last?, Result, ok, err, ◌>>=◌,
}
use rv32im_so_c_performance.Base.Int.{ℤ, pos, ◌+ℤ◌, ◌==ℤ◌, truthy}
use rv32im_so_c_performance.PyText.{Text, int_0, text_eq}
use rv32im_so_c_performance.Trace.{Row, cell}
use rv32im_so_c_performance.Suite.Reading.{int_cell}

-- `(row['ex_mem_pc'], row['dmem_addr'], row['redirect_pc'])`
pub record Key : Type 0 where
  pub ex_mem_pc : Option Text
  pub dmem_addr : Option Text
  pub redirect_pc : Option Text

abbrev cell_eq : Option Text → Option Text → Bool
cell_eq none none = true
cell_eq (some s) (some t) = text_eq s t
cell_eq _ _ = false

unfoldable pub key_eq : Key → Key → Bool
key_eq a b =
    cell_eq a.ex_mem_pc b.ex_mem_pc
    && cell_eq a.dmem_addr b.dmem_addr
    && cell_eq a.redirect_pc b.redirect_pc

-- An episode, with its rows from the last to the first.
pub record Episode : Type 0 where
  pub start : ℤ
  pub end : ℤ
  pub key : Key
  pub rows : List Row

abbrev pub opened : ℤ → Key → Row → Episode
opened c key row = record { start = c; end = c; key = key; rows = row ∷ [] }

abbrev pub extended : ℤ → Row → Episode → Episode
extended c row e = record { start = e.start; end = c; key = e.key; rows = row ∷ e.rows }

-- The body of the loop. The episodes stand from the last to the first.
unfoldable pub add_row : ℤ → Key → Row → List Episode → List Episode
unfolding ◌+ℤ◌
add_row c key row [] = opened c key row ∷ []
add_row c key row (e ∷ eps) =
    if c ==ℤ (e.end +ℤ pos 1) && key_eq key e.key
    then extended c row e ∷ eps
    else opened c key row ∷ e ∷ eps

unfoldable pub key_of : Row → Result Key
key_of row = do
  ex_mem_pc ← cell "ex_mem_pc" row
  dmem_addr ← cell "dmem_addr" row
  redirect_pc ← cell "redirect_pc" row
  ok (record { ex_mem_pc = ex_mem_pc; dmem_addr = dmem_addr; redirect_pc = redirect_pc })

unfoldable pub cycle_of : Row → Result ℤ
cycle_of row = do c ← cell "cycle" row; int_cell c

unfoldable pub group : List Episode → List Row → Result (List Episode)
unfolding add_row key_of cycle_of
group eps [] = ok eps
group eps (row ∷ rows) = do c ← cycle_of row; key ← key_of row; group (add_row c key row eps) rows

-- `hx` of a cell; `int(None, 0)` is a TypeError
unfoldable pub hx : Option Text → Result ℤ
hx none = err type_error
hx (some s) = int_0 s

-- The loop that prints the episodes, which also reads the column `ex_redirect` of their first rows.
unfoldable pub report_episodes : List Episode → Result (List (Option Text))
report_episodes [] = ok []
report_episodes (e ∷ eps) = do
  earlier ← report_episodes eps
  ex_redirect ← elim (get_last? e.rows) [ none ↦ ok none | some first ↦ cell "ex_redirect" first ]
  ok (ex_redirect ∷ earlier)

-- Whether a replay row asks for the expected address and hits.
unfoldable pub is_replay : Row → Result Bool
unfolding hx
is_replay row = do
  expected ← hx (← cell "expected_addr" row)
  observed ← hx (← cell "observed_addr" row)
  hit ← int_cell (← cell "dcache_hit" row)
  cycle ← cell "cycle" row
  mem_pc ← cell "mem_pc" row
  ok (expected ==ℤ observed && truthy hit)

unfoldable pub count_replays : ℕ → List Row → Result ℕ
unfolding is_replay
count_replays valid [] = ok valid
count_replays valid (row ∷ rows) = do
  replay ← is_replay row
  count_replays (if replay then valid + 1 else valid) rows

-- The script, from the rows of overlap_cycles.csv and of dcache_replays.csv: its episodes, and
-- whether its result is PASS.
unfoldable pub probe : List Row → List Row → Result (List Episode × Bool)
unfolding group report_episodes count_replays
probe o r = do eps ← group [] o; valid ← count_replays 0 r; ok (eps, length o == 12 && valid == 2)
