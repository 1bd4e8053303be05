-- ===== src/Cpu/Run.antt =====
-- The loop of `CpuModel::run` in src/CpuModel.cpp: it ends, and it computes what the instruction set does.
use rv32im_so_c_performance.Base.{
  ℕ, zero, suc, ◌+◌, ◌%◌, ◌^◌, ◌<◌, ◌≤◌, ◌≡◌, refl, ap, sym, subst, ◌∙◌, ◌⊎◌, inl, inr, Bool, true,
  false, leb, Bool-cases, Error, Result, ok, err, ◌>>=◌, >>=-eq-ok, Ensures-ok, is_out_of_fuel,
  Finishes-ok, Finishes-err, arith,
}
use rv32im_so_c_performance.Timing.{Pipeline, retire, add_external_stalls}
use rv32im_so_c_performance.Memory.{Memory}
use rv32im_so_c_performance.Memory.Bytes.{IsBytes}
use rv32im_so_c_performance.Cpu.{Cpu}
use rv32im_so_c_performance.Cpu.Locals.{Locals}
use rv32im_so_c_performance.Cpu.Execute.{execute}
use rv32im_so_c_performance.Cpu.Step.{step, run, start, commit, redirect, finish}
use rv32im_so_c_performance.Cpu.Isa
use rv32im_so_c_performance.Cpu.Isa.{Effect}
use rv32im_so_c_performance.Cpu.Refines.{visible}
use rv32im_so_c_performance.Cpu.Valid.{IsValid}
use rv32im_so_c_performance.Cpu.Architecture.{returned, step-Course, step-visible}
use rv32im_so_c_performance.Cpu.Room.{IsRoomy, step-Finishes}
use rv32im_so_c_performance.Cpu.Fixed.{fixed, Keeps, execute-Keeps, redirect-Keeps}

-- The statistics show the instructions that the timing model has retired.
abbrev pub Counted : Cpu → Type 0
Counted c = c.stats.retired ≡ c.timing.stats.retired

retire-retired :
    (p : Pipeline) (stalls insn : ℕ) (taken : Bool)
    → (retire (add_external_stalls p stalls) insn taken).0.stats.retired
      ≡ (p.stats.retired + 1) % 2 ^ 64
unfolding retire add_external_stalls
retire-retired p stalls insn taken = refl

finish_lem :
    (t : Locals)
    → (Counted (finish t))
      × ((finish t).stats.retired ≡ (t.cpu.timing.stats.retired + 1) % 2 ^ 64)
      × ((finish t).config ≡ t.cpu.config)
      × ((finish t).instruction_memory ≡ t.cpu.instruction_memory)
unfolding finish
finish_lem t = (refl, retire-retired t.cpu.timing t.stalls t.insn t.branch_taken, refl, refl)

-- What a step of a running processor changes in the counter and leaves alone elsewhere.
pub record Counts (c c' : Cpu) : Type 0 where
  pub counted : Counted c'
  pub retired : c'.stats.retired ≡ (c.stats.retired + 1) % 2 ^ 64
  pub below_limit : c.stats.retired < c.config.max_instructions
  pub config : c'.config ≡ c.config
  pub instruction_memory : c'.instruction_memory ≡ c.instruction_memory

step-Counts :
    (fuel : ℕ) (c c' : Cpu) → Counted c → c.halted ≡ false → step fuel c ≡ ok c' → Counts c c'
step-Counts fuel c c' counted e h =
    let k = step-Course fuel c c' e h in
    let kept : fixed k.t.cpu ≡ fixed c =
      Ensures-ok (Keeps c) (redirect fuel (commit k.s)) k.t k.redirects (
        redirect-Keeps fuel c (commit k.s) (
          Ensures-ok (Keeps c) (execute fuel (start c k.insn k.fetched)) k.s k.executes
            (execute-Keeps (start c k.insn k.fetched) fuel))) in
    subst (Counts c) k.result (from k.t kept k.below_limit)
  where
    from :
        (t : Locals)
        → fixed t.cpu ≡ fixed c
        → leb c.config.max_instructions c.stats.retired ≡ false
        → Counts c (finish t)
    from t kept below =
        let (now, next, config, memory) = finish_lem t in
        record {
          counted = now;
          retired =
              next
              ∙ ap (λ n. (n + 1) % 2 ^ 64) (ap (λ f. f.timing.stats.retired) kept ∙ sym counted);
          below_limit = ground (arith, below);
          config = config ∙ ap (λ f. f.config) kept;
          instruction_memory = memory ∙ ap (λ f. f.instruction_memory) kept;
        }

-- The states that steps lead to, before the processor has halted.
pub data Steps (fuel : ℕ) : Cpu → Cpu → Type 0 where
  done : (c : Cpu) → Steps fuel c c
  then_on :
      (c d : Cpu) {e : Cpu}
      → c.halted ≡ false
      → step fuel c ≡ ok d
      → Steps fuel d e
      → Steps fuel c e

-- A run that has ended in a state: it has halted there, or the next step raises an exception of the
-- program, which running out of fuel is not.
pub data EndsIn (fuel : ℕ) (c : Cpu) : Result Cpu → Type 0 where
  halts : (d : Cpu) → Steps fuel c d → d.halted ≡ true → EndsIn fuel c (ok d)
  raises :
      (d : Cpu) (e : Error)
      → Steps fuel c d
      → d.halted ≡ false
      → step fuel d ≡ err e
      → is_out_of_fuel e ≡ false
      → EndsIn fuel c (err e)

run-halted : (n fuel : ℕ) (c : Cpu) → c.halted ≡ true → run (suc n) fuel c ≡ ok c
unfolding run
run-halted n fuel c h = ground (arith, h)

run-step :
    (n fuel : ℕ) (c : Cpu) → c.halted ≡ false → run (suc n) fuel c ≡ (step fuel c >>= run n fuel)
unfolding run
run-step n fuel c h = ground (arith, h)

Result-cases : (r : Result Cpu) → ((d : Cpu) × (r ≡ ok d)) ⊎ ((e : Error) × (r ≡ err e))
Result-cases (ok d) = inl (d, refl)
Result-cases (err e) = inr (e, refl)

prepend :
    {fuel : ℕ} (c d : Cpu) {r : Result Cpu}
    → c.halted ≡ false
    → step fuel c ≡ ok d
    → EndsIn fuel d r
    → EndsIn fuel c r
prepend c d runs h (halts x steps e) = halts x (then_on c d runs h steps) e
prepend c d runs h (raises x e steps e' f k) = raises x e (then_on c d runs h steps) e' f k

limit_reached :
    (fuel : ℕ) (c : Cpu)
    → c.halted ≡ false
    → c.config.max_instructions ≤ c.stats.retired
    → (d : Cpu) → step fuel c ≡ ok d
    → ⊥
limit_reached fuel c runs past d h =
    let k = step-Course fuel c d runs h in ground (arith, k.below_limit)

-- A turn of the loop, given what the rest of it does after a step.
turn :
    (n fuel : ℕ) (c : Cpu)
    → IsRoomy fuel c.instruction_memory c.ifetch.config
    → ((d : Cpu) → c.halted ≡ false → step fuel c ≡ ok d → EndsIn fuel d (run n fuel d))
    → EndsIn fuel c (run (suc n) fuel c)
turn n fuel c roomy rest = elim (Bool-cases c.halted) [
  | inl e ↦ subst (EndsIn fuel c) (sym (run-halted n fuel c e)) (halts c (done c) e)
  | inr e ↦ elim (Result-cases (step fuel c)) [
    | inr (x, h) ↦
        subst (EndsIn fuel c) (sym (run-step n fuel c e ∙ ap (λ r. r >>= run n fuel) h)) (
          raises c x (done c) e h (
            Finishes-err (λ d. d.ifetch.config ≡ c.ifetch.config) (step fuel c) x h
              (step-Finishes fuel c roomy)))
    | inl (d, h) ↦
        subst (EndsIn fuel c) (sym (run-step n fuel c e ∙ ap (λ r. r >>= run n fuel) h))
          (prepend c d e h (rest d e h))
  ]
]

-- The next step has the same room.
step-IsRoomy :
    (fuel : ℕ) (c d : Cpu)
    → IsRoomy fuel c.instruction_memory c.ifetch.config
    → step fuel c ≡ ok d
    → d.instruction_memory ≡ c.instruction_memory
    → IsRoomy fuel d.instruction_memory d.ifetch.config
step-IsRoomy fuel c d roomy h memory =
    let Kept : Cpu → Type 0 = λ d. d.ifetch.config ≡ c.ifetch.config in
    let config = Finishes-ok Kept (step fuel c) d h (step-Finishes fuel c roomy) in
    subst (λ m. IsRoomy fuel m d.ifetch.config) (sym memory)
      (subst (IsRoomy fuel c.instruction_memory) (sym config) roomy)

-- Given one turn more than the instructions that are left to the limit, and an instruction memory that
-- leaves room and fuel for the requests ahead of it, the loop of run ends: the processor has halted, or
-- a step has raised an exception of the program.
pub run-EndsIn :
    (n fuel : ℕ) (c : Cpu)
    → Counted c
    → c.config.max_instructions < 2 ^ 64
    → c.config.max_instructions ≤ c.stats.retired + n
    → IsRoomy fuel c.instruction_memory c.ifetch.config
    → EndsIn fuel c (run (suc n) fuel c)
run-EndsIn zero fuel c counted fits enough roomy =
    turn zero fuel c roomy (λ d e h. absurd (limit_reached fuel c e (omega arith) d h))
run-EndsIn (suc n) fuel c counted fits enough roomy = turn (suc n) fuel c roomy (λ d e h.
    let k = step-Counts fuel c d counted e h in
    let same = ap (λ f. f.max_instructions) k.config in
    run-EndsIn n fuel d k.counted (omega (arith, same))
      (omega (arith, same, k.retired, k.below_limit))
      (step-IsRoomy fuel c d roomy h k.instruction_memory))

out_of_turns : (fuel : ℕ) (c c' : Cpu) → run 0 fuel c ≡ ok c' → ⊥
unfolding run
out_of_turns fuel c c' h = cc

machine-halted : (n : ℕ) (m : Memory) (x : Effect) → x.halted ≡ true → Isa.run (suc n) m x ≡ ok x
unfolding Isa.run
machine-halted n m x h = ground (arith, h)

machine-step :
    (n : ℕ) (m : Memory) (x : Effect)
    → x.halted ≡ false
    → Isa.run (suc n) m x ≡ (Isa.step m x >>= Isa.run n m)
unfolding Isa.run
machine-step n m x h = ground (arith, h)

-- When the loop of run returns, from a machine within its bounds, the instruction set runs to the same
-- registers, data memory and program counter; the processor has halted, within its bounds.
pub run-visible :
    (n fuel : ℕ) (c c' : Cpu)
    → Counted c
    → IsValid (visible c)
    → IsBytes c.instruction_memory
    → run n fuel c ≡ ok c'
    → (Isa.run n c.instruction_memory (visible c) ≡ ok (visible c'))
      × (c'.halted ≡ true)
      × IsValid (visible c')
run-visible zero fuel c c' counted v bytes h = absurd (out_of_turns fuel c c' h)
run-visible (suc n) fuel c c' counted v bytes h = elim (Bool-cases c.halted) [
  | inl e ↦
      let same : c ≡ c' = returned c c' (sym (run-halted n fuel c e) ∙ h) in
      (
        machine-halted n c.instruction_memory (visible c) e ∙ ap (λ d. ok (visible d)) same,
        subst (λ d. d.halted ≡ true) same e,
        subst (λ d. IsValid (visible d)) same v,
      )
  | inr e ↦
      let (d, steps, rest) = >>=-eq-ok (step fuel c) (run n fuel) (sym (run-step n fuel c e) ∙ h) in
      let (does, valid) = step-visible fuel c d v bytes steps in
      let k = step-Counts fuel c d counted e steps in
      let (runs, halted, last) =
        run-visible n fuel d c' k.counted valid (subst IsBytes (sym k.instruction_memory) bytes)
          rest in
      (
        machine-step n c.instruction_memory (visible c) e
            ∙ ap (λ r. r >>= Isa.run n c.instruction_memory) does
            ∙ ap (λ m. Isa.run n m (visible d)) (sym k.instruction_memory)
            ∙ runs,
        halted,
        last,
      )
]
