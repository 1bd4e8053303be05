-- ===== src/GapAnalysis/Tests.antt =====
-- Tests of the gap analysis on concrete tables.
use rv32im_so_c_performance.Base.{ℕ, ◌≡◌, refl, none, some, [], ◌∷◌, ok, if◌then◌else◌}
use rv32im_so_c_performance.Base.Int.{pos, negsuc, ◌-ℤ◌, ◌+ℤ◌}
use rv32im_so_c_performance.Base.Dict.{get, str_eq}
use rv32im_so_c_performance.PyText.{codes, int_10}
use rv32im_so_c_performance.Trace.{Row, Files}
use rv32im_so_c_performance.GapAnalysis.{Reading, main, one, ints, int_of, cycle_delta, holds}

abbrev no_floats : Reading ℕ
no_floats = record { parse = λ t. none; truncate = λ x. ok (pos x) }

abbrev summary : Row
summary =
    ("cycles", some (codes "100"))
    ∷ ("rtl_cycles", some (codes "103"))
    ∷ ("icache_accesses", some (codes "50"))
    ∷ ("rtl_icache_accesses", some (codes "57"))
    ∷ []

abbrev events : Row
events =
    ("icache_access_during_loaduse", some (codes "4"))
    ∷ ("icache_access_during_divstall", some (codes "2"))
    ∷ []

abbrev files : Files
files path =
    if str_eq path "results/milestone4/milestone4_summary.csv"
    then some (record { fieldnames = []; rows = summary ∷ [] })
    else some (record { fieldnames = []; rows = events ∷ [] })

gaps_counted :
    main no_floats files
    ≡ ok (
        some (record {
          cycle_delta = some (negsuc 2);
          holds = some (record { replay_gap = pos 7; hold_accesses = pos 6; difference = pos 1 });
        }))
unfolding main one ints cycle_delta holds int_of get int_10 ◌-ℤ◌ ◌+ℤ◌
gaps_counted = refl

gaps_missing : main no_floats (λ path. none) ≡ ok none
unfolding main one
gaps_missing = refl
