-- ===== src/FetchReports/Icache.antt =====
-- The report of scripts/analyze_icache_fetch.py.
use rv32im_so_c_performance.Base.{
  ℕ, String, Bool, true, false, not, Option, none, some, List, [], ◌∷◌, length, if◌then◌else◌,
  any_of, index_error, Result, ok, err, ◌>>=◌, traverse,
}
use rv32im_so_c_performance.Base.Int.{ℤ, pos, ◌==ℤ◌, truthy}
use rv32im_so_c_performance.Trace.{Row, Files}
use rv32im_so_c_performance.Suite.{csv_path}
use rv32im_so_c_performance.Suite.Reading.{read_trace}
use rv32im_so_c_performance.FetchReports.{Shown, shown, not_in, repeated, h_of, number_of}

-- What the I-cache report shows of a case.
pub record IcacheReport : Type 0 where
  pub retired : List ℤ
  pub accesses : ℕ
  pub hits : ℕ
  pub misses : ℕ
  pub stream : List Shown
  pub missed_not_retired : List ℤ
  pub replay : List (ℤ × ℕ)

-- `[r for r in fetch if int(r[column])]`
unfoldable pub rows_with : String → List Row → Result (List Row)
rows_with column [] = ok []
rows_with column (r ∷ rs) = do
  n ← number_of column r
  others ← rows_with column rs
  ok (if truthy n then r ∷ others else others)

unfoldable pub icache_report : List Row → List Row → Result IcacheReport
unfolding repeated ◌==ℤ◌
icache_report fetch model = do
  retired ← traverse (h_of "pc") model
  pcs ← traverse (h_of "pc") fetch
  misses ← rows_with "miss" fetch
  hits ← rows_with "hit" fetch
  stream ← traverse (shown "miss" retired) fetch
  missed ← traverse (h_of "pc") misses
  ok (record {
    retired = retired;
    accesses = length fetch;
    hits = length hits;
    misses = length misses;
    stream = stream;
    missed_not_retired = not_in retired missed;
    replay = repeated pcs;
  })

-- `read_csv(path) if os.path.exists(path) else []`
unfoldable pub rows_if : (String → Bool) → Files → String → Result (List Row)
rows_if exists files path = if exists path then read_trace files path else ok []

-- `read_csv(path)[0] if os.path.exists(path) else {}`
abbrev first_row : List Row → Result Row
first_row [] = err index_error
first_row (r ∷ rs) = ok r

unfoldable pub first_if : (String → Bool) → Files → String → Result Row
first_if exists files path =
    if exists path then (do rows ← read_trace files path; first_row rows) else ok []

unfoldable pub icache_case : (String → Bool) → Files → String → Result (Option IcacheReport)
icache_case exists files name =
    if not (exists (csv_path "results/milestone3/fetch_" name)) then ok none else do
      fetch ← read_trace files (csv_path "results/milestone3/fetch_" name)
      model ← rows_if exists files (csv_path "results/milestone3/model_" name)
      stats ← first_if exists files (csv_path "results/milestone3/cache_" name)
      shows ← icache_report fetch model
      ok (some shows)

abbrev pub icache_cases : List String
icache_cases = "icache_linear" ∷ "split_cache" ∷ []

abbrev pub is_missing : Option IcacheReport → Bool
is_missing none = true
is_missing (some r) = false

-- main of the I-cache report: its exit code, with the reports.
unfoldable pub icache_main : (String → Bool) → Files → Result (ℤ × List (Option IcacheReport))
icache_main exists files = do
  reports ← traverse (icache_case exists files) icache_cases
  ok (if any_of is_missing reports then pos 2 else pos 0, reports)
