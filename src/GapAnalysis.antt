-- ===== src/GapAnalysis.antt =====
-- scripts/analyze_milestone4_gaps.py: the differences between the counts of the model and those of the
-- RTL on Dhrystone, with the exceptions of reading the two tables. The counts that are printed as they
-- stand are left out. Python's float is a parameter.
mod Tests
use rv32im_so_c_performance.Base.{
  String, Option, none, some, [], ◌∷◌, map, value_error, type_error, key_error, Result, ok, err,
  ◌>>=◌, or_raise,
}
use rv32im_so_c_performance.Base.Int.{ℤ, pos, ◌-ℤ◌, ◌+ℤ◌}
use rv32im_so_c_performance.Base.Dict.{Dict, get}
use rv32im_so_c_performance.PyText.{Text, int_10}
use rv32im_so_c_performance.Trace.{Row, Files}

-- A cell as `ints` leaves it: a number where the text reads as one.
pub data Count (F : Type 0) : Type 0 where
  int : ℤ → Count F
  float : F → Count F
  text : Option Text → Count F

pub record Reading (F : Type 0) : Type 0 where
  -- `float(text)`, none where it raises
  pub parse : Text → Option F
  -- `int(x)` of a float
  pub truncate : F → Result ℤ

-- The closing lines, for the counters of the RTL events.
pub record Holds : Type 0 where
  pub replay_gap : ℤ
  pub hold_accesses : ℤ
  pub difference : ℤ

pub record Gaps : Type 0 where
  -- where the summary has RTL cycles
  pub cycle_delta : Option ℤ
  -- where there are RTL events
  pub holds : Option Holds

-- `one(name)`: the first row of a table that exists
unfoldable pub one : Files → String → Option Row
one files name = elim (files name) [
  | none ↦ none
  | some table ↦ elim table.rows [ [] ↦ none | r ∷ rs ↦ some r ]
]

module _ {F : Type 0} (reading : Reading F) where
  abbrev float_or_text : Text → Option F → Count F
  float_or_text v none = text (some v)
  float_or_text v (some x) = float x

  -- `int(v)`, else `float(v)`, else `v`
  abbrev pub count_of : Option Text → Count F
  count_of none = text none
  count_of (some v) = elim (int_10 v) [ ok n ↦ int n | err e ↦ float_or_text v (reading.parse v) ]

  unfoldable pub ints : Row → Dict (Count F)
  unfolding int_10
  ints row = map (λ (k, v). (k, count_of v)) row

  -- `int(x)` of a cell: a text that `ints` did not read is no integer.
  unfoldable pub int_of : Count F → Result ℤ
  int_of (int n) = ok n
  int_of (float x) = reading.truncate x
  int_of (text none) = err type_error
  int_of (text (some v)) = err value_error

  -- `int(m.get(k, 0))`
  abbrev pub int_or_zero : String → Dict (Count F) → Result ℤ
  int_or_zero k m = elim (get k m) [ none ↦ ok (pos 0) | some x ↦ int_of x ]

  -- `if 'rtl_cycles' in m: ... int(m['cycles']) - int(m['rtl_cycles'])`
  unfoldable pub cycle_delta : Dict (Count F) → Result (Option ℤ)
  unfolding get int_of
  cycle_delta m = elim (get "rtl_cycles" m) [
    | none ↦ ok none
    | some rtl ↦ do
      model ← or_raise (key_error "cycles") (get "cycles" m)
      cycles ← int_of model
      rtl_cycles ← int_of rtl
      ok (some (cycles -ℤ rtl_cycles))
  ]

  -- `if e:`
  unfoldable pub holds : Dict (Count F) → Option (Dict (Count F)) → Result (Option Holds)
  unfolding get int_of
  holds m none = ok none
  holds m (some []) = ok none
  holds m (some (x ∷ e)) = do
    rtl ← int_or_zero "rtl_icache_accesses" m
    model ← int_or_zero "icache_accesses" m
    load ← int_or_zero "icache_access_during_loaduse" (x ∷ e)
    div ← int_or_zero "icache_access_during_divstall" (x ∷ e)
    ok (
        some (record {
          replay_gap = rtl -ℤ model;
          hold_accesses = load +ℤ div;
          difference = (rtl -ℤ model) -ℤ (load +ℤ div);
        }))

  -- The script, which is none where it exits with 1 since there is no summary.
  unfoldable pub main : Files → Result (Option Gaps)
  unfolding one ints cycle_delta holds
  main files = elim (one files "results/milestone4/milestone4_summary.csv") [
    | none ↦ ok none
    | some summary ↦ do
      let m = ints summary
      let e = one files "results/milestone4/events_dhrystone.csv"
      delta ← cycle_delta m
      held ← holds m (elim e [ none ↦ none | some r ↦ some (ints r) ])
      ok (some (record { cycle_delta = delta; holds = held }))
  ]
