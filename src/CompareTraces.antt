-- ===== src/CompareTraces.antt =====
-- scripts/compare_traces.py: the comparison of a model trace with an RTL trace. A printed field is
-- its constructor with the two values; the printing itself is left out.
pub mod Verdict
pub mod Reports
use rv32im_so_c_performance.Base.{
  ℕ, zero, suc, ◌+◌, String, Bool, true, false, not, ◌&&◌, ◌||◌, List, [], ◌∷◌, ◌++◌, ◌==◌,
  if◌then◌else◌, Result, ok, ◌>>=◌, length,
}
use rv32im_so_c_performance.Base.Int.{ℤ, pos, ◌==ℤ◌, leb_ℤ, truthy}
use rv32im_so_c_performance.Trace.{Files, Retirement, load}

pub data Field : Type 0 where
  pc insn reg_write rd wdata cycle : ℤ → ℤ → Field

abbrev pub append_if : Bool → Field → List Field
append_if b f = if b then f ∷ [] else []

-- The list `fields` of one pair of retirements.
unfoldable pub fields_of : Bool → Retirement → Retirement → List Field
fields_of compare_cycle m r =
    append_if (not (m.pc ==ℤ r.pc)) (pc m.pc r.pc)
    ++ (append_if (not (m.insn ==ℤ r.insn)) (insn m.insn r.insn)
        ++ (append_if (not (m.reg_write ==ℤ r.reg_write)) (reg_write m.reg_write r.reg_write)
            ++ ((if truthy m.reg_write || truthy r.reg_write
                  then append_if (not (m.rd ==ℤ r.rd)) (rd m.rd r.rd)
                    ++ append_if (not (m.wdata ==ℤ r.wdata)) (wdata m.wdata r.wdata)
                  else [])
                ++ append_if (compare_cycle && not (m.cycle ==ℤ r.cycle)) (cycle m.cycle r.cycle))))

-- "Mismatch at retirement #{number}", with its fields
pub record Mismatch : Type 0 where
  pub number : ℕ
  pub fields : List Field

pub record Loop : Type 0 where
  pub mismatches : ℕ
  pub printed : List Mismatch
  pub stopped : Bool

-- What a round does with a non-empty list of fields: report, and break at the limit.
abbrev pub report : Mismatch → Loop → Loop
report x rest = record rest { printed = x ∷ rest.printed }

-- `for i in range(n)`, from round `i` with `mismatches` so far
unfoldable pub compare_from : Bool → ℤ → ℕ → ℕ → List Retirement → List Retirement → Loop
compare_from compare_cycle max_mismatches i mismatches [] rtl = record {
  mismatches = mismatches;
  printed = [];
  stopped = false;
}
compare_from compare_cycle max_mismatches i mismatches (m ∷ model) [] = record {
  mismatches = mismatches;
  printed = [];
  stopped = false;
}
compare_from compare_cycle max_mismatches i mismatches (m ∷ model) (r ∷ rtl) =
    elim (fields_of compare_cycle m r) [
      | [] ↦ compare_from compare_cycle max_mismatches (i + 1) mismatches model rtl
      | f ∷ fs ↦
          report (record { number = i + 1; fields = f ∷ fs })
            (elim (leb_ℤ max_mismatches (pos (mismatches + 1))) [
              | true ↦ record { mismatches = mismatches + 1; printed = []; stopped = true }
              | false ↦ compare_from compare_cycle max_mismatches (i + 1) (mismatches + 1) model rtl
            ])
    ]

pub record Outcome : Type 0 where
  pub mismatches : ℕ
  pub printed : List Mismatch
  pub stopped : Bool
  pub length_mismatch : Bool
  pub exit_code : ℕ

abbrev pub conclude : Loop → Bool → Outcome
conclude loop differ =
    let mismatches = if differ then loop.mismatches + 1 else loop.mismatches in
    record {
      mismatches = mismatches;
      printed = loop.printed;
      stopped = loop.stopped;
      length_mismatch = differ;
      exit_code = if mismatches == 0 then 0 else 1;
    }

unfoldable pub compare_traces : Bool → ℤ → List Retirement → List Retirement → Outcome
compare_traces compare_cycle max_mismatches model rtl =
    conclude (compare_from compare_cycle max_mismatches 0 0 model rtl)
      (not (length model == length rtl))

pub record Args : Type 0 where
  pub model : String
  pub rtl : String
  pub max_mismatches : ℤ
  pub compare_cycle : Bool

unfoldable pub main : Files → Args → Result Outcome
main files args = do
  model ← load files args.model
  rtl ← load files args.rtl
  ok (compare_traces args.compare_cycle args.max_mismatches model rtl)
