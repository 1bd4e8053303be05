-- ===== src/Examples/Sweeps.antt =====
-- A host on which the sensitivity sweep returns: the model always prints the same statistics.
use rv32im_so_c_performance.Base.{
  ◌≡◌, refl, String, true, ok, err, none, List, [], ◌∷◌, Result, All-all_of, traverse,
}
use rv32im_so_c_performance.Base.Int.{pos, truthy}
use rv32im_so_c_performance.Base.Dict.{get, put}
use rv32im_so_c_performance.PyText.{Text, strip}
use rv32im_so_c_performance.Stats.{
  parse_with, parse_lines, parse_line, split_lines, lines_from, split_colon, read_digits, find_int,
  column_of,
}
use rv32im_so_c_performance.Suite.{Host, configure, build, run_capture, check_call}
use rv32im_so_c_performance.Suite.Reading.{stat}
use rv32im_so_c_performance.Sensitivity.{
  Point, Outcome, exe_path, parse, point_of, one, cases, main,
}
use rv32im_so_c_performance.Sensitivity.Swept.{Ran, IsSwept, main-IsSwept}
use rv32im_so_c_performance.Examples.{lines}

abbrev printed : Text
printed = lines (
    "retired: 2" ∷ "predicted cycles: 6" ∷ "I-cache accesses: 3" ∷ "I-cache misses: 1"
    ∷ "D-cache accesses: 0" ∷ "D-cache misses: 0" ∷ [])

abbrev host : Host
host = record {
  call = λ command. pos 0;
  output = λ command. printed;
  is_file = λ path. true;
  exists = λ path. true;
  files = λ path. none;
}

abbrev exe : String
exe = "build/Release/rv32im_model.exe"

abbrev points_or : Result (List Point) → List Point
points_or (ok ps) = ps
points_or (err e) = []

abbrev points : List Point
points = points_or (traverse (one host exe) cases)

ready :
    (check_call host configure ≡ ok tt) × (check_call host build ≡ ok tt) × (exe_path host ≡ ok exe)
unfolding check_call exe_path
ready = (refl, refl, refl)

ran : Ran host exe points
unfolding traverse one point_of parse strip run_capture stat parse_with parse_lines parse_line
    split_lines lines_from split_colon read_digits find_int column_of get put
ran = record { simulated = refl; nonzero = All-all_of (λ p. truthy p.cycles) points refl }

main-IsSwept_example : (o : Outcome) × (main host ≡ ok o) × IsSwept points o
main-IsSwept_example = main-IsSwept host exe points ready.0 ready.1 ready.2 ran
