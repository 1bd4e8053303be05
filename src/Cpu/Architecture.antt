-- ===== src/Cpu/Architecture.antt =====
-- A step of the processor of src/CpuModel.cpp is a step of the instruction set.
use Prim.Native.Nat.{bit_and}
use rv32im_so_c_performance.Base.{
  ℕ, ◌≡◌, refl, ap, sym, ◌∙◌, subst, Bool, true, false, not, List, [], ◌∷◌, leb, ◌==◌, inl, inr,
  Bool-cases, Result, ok, >>=-eq-ok, Ensures, Ensures-if, Ensures->>=, Ensures-ok, Ensures-any, set,
  arith,
}
use rv32im_so_c_performance.Fetch.{Fetched, ensure_through}
use rv32im_so_c_performance.Memory.{Memory, read32}
use rv32im_so_c_performance.Cpu.{Cpu, reg}
use rv32im_so_c_performance.Cpu.Locals.{Locals}
use rv32im_so_c_performance.Cpu.Execute.{execute}
use rv32im_so_c_performance.Cpu.Step.{step, retire_one, start, commit, redirect, finish, hook}
use rv32im_so_c_performance.Cpu.Isa
use rv32im_so_c_performance.Cpu.Isa.{Effect}
use rv32im_so_c_performance.Cpu.Refines.{effect, visible, Gives, Matches, execute-Matches}
use rv32im_so_c_performance.Cpu.Valid.{IsValid, execute-IsValid}
use rv32im_so_c_performance.Alu.Words32.{IsWord}
use rv32im_so_c_performance.Memory.Bytes.{IsBytes, read32-lt}

hook-visible :
    (b : Bool) (fetched : Result Fetched) (s t : Locals)
    → visible s.cpu ≡ visible t.cpu
    → Ensures (λ u. visible u.cpu ≡ visible t.cpu) (hook b fetched s)
hook-visible b fetched s t same =
    Ensures-if _ (not b) (ok s) _ same
      (Ensures->>= (λ _. Unit {0}) _ fetched _ (Ensures-any fetched) (λ r _. same))

redirect-visible :
    (fuel : ℕ) (s : Locals) → Ensures (λ t. visible t.cpu ≡ visible s.cpu) (redirect fuel s)
unfolding redirect
redirect-visible fuel s =
    Ensures->>= (λ u. visible u.cpu ≡ visible s.cpu) _ _ _ (hook-visible s.branch_taken _ s s refl)
      (λ u same.
        Ensures->>= (λ v. visible v.cpu ≡ visible s.cpu) _ _ _ (hook-visible u.jump _ u s same)
          (λ v same. hook-visible v.terminating _ v s same))

finish-visible : (s : Locals) → visible (finish s) ≡ visible s.cpu
unfolding finish
finish-visible s = refl

set-zero : (regs : List ℕ) → reg regs 0 ≡ 0 → set regs 0 0 ≡ regs
set-zero [] h = refl
set-zero (x ∷ xs) h = ap (λ y. y ∷ xs) (sym h)

-- The variables that a valid effect leaves are committed as they are.
commit-visible : (s : Locals) → IsValid (effect s) → visible (commit s).cpu ≡ effect s
commit-visible s v =
    ap
      (λ regs. record {
        regs = regs;
        memory = s.cpu.data_memory;
        pc = s.next_pc;
        halted = s.cpu.halted;
      })
      (set-zero s.cpu.regs v.zero_is_zero)

-- An instruction that returns, on a machine that is valid.
executed :
    (fuel : ℕ) (c : Cpu) (insn : ℕ) (r : Fetched) (s : Locals)
    → IsValid (visible c)
    → IsWord insn
    → c.halted ≡ false
    → execute fuel (start c insn r) ≡ ok s
    → (Isa.execute insn c.pc c.regs c.data_memory ≡ ok (effect s)) × IsValid (effect s)
unfolding Matches
executed fuel c insn r s v w runs h =
    let gives =
      Ensures-ok (Gives _) (execute fuel (start c insn r)) s h
        (execute-Matches (start c insn r) refl runs fuel) in
    let before : IsValid
        (record { regs = c.regs; memory = c.data_memory; pc = c.pc; halted = false }) =
      record {
        count = v.count;
        zero_is_zero = v.zero_is_zero;
        words = v.words;
        bytes = v.bytes;
        pc_word = v.pc_word;
      } in
    (
      gives,
      Ensures-ok IsValid _ (effect s) gives
          (execute-IsValid insn c.pc c.regs c.data_memory w before),
    )

-- The course of a step that returns.
pub record Course (fuel : ℕ) (c c' : Cpu) : Type 0 where
  pub below_limit : leb c.config.max_instructions c.stats.retired ≡ false
  pub aligned : (bit_and c.pc 0x3 == 0) ≡ true
  pub insn : ℕ
  pub reads : read32 c.instruction_memory c.pc ≡ ok insn
  pub fetched : Fetched
  pub fetches : ensure_through fuel c.ifetch c.icache c.pc ≡ ok fetched
  pub s : Locals
  pub executes : execute fuel (start c insn fetched) ≡ ok s
  pub t : Locals
  pub redirects : redirect fuel (commit s) ≡ ok t
  pub result : finish t ≡ c'

guards :
    (fuel : ℕ) (c c' : Cpu)
    → c.halted ≡ false
    → step fuel c ≡ ok c'
    → (leb c.config.max_instructions c.stats.retired ≡ false)
      × ((bit_and c.pc 0x3 == 0) ≡ true)
      × (retire_one fuel c ≡ ok c')
unfolding step
guards fuel c c' e h = ground (arith, e, h)

pub returned : (d c' : Cpu) → ok d ≡ ok c' → d ≡ c'
returned d c' h = cc

pub step-halted : (fuel : ℕ) (c : Cpu) → c.halted ≡ true → step fuel c ≡ ok c
unfolding step
step-halted fuel c e = ground (arith, e)

halted_step : (m : Memory) (x : Effect) → x.halted ≡ true → Isa.step m x ≡ ok x
unfolding Isa.step
halted_step m x e = ground (arith, e)

pub step-Course :
    (fuel : ℕ) (c c' : Cpu) → c.halted ≡ false → step fuel c ≡ ok c' → Course fuel c c'
unfolding retire_one
step-Course fuel c c' e h =
    let (f, g, h0) = guards fuel c c' e h in
    let (insn, reads, h1) = >>=-eq-ok (read32 c.instruction_memory c.pc) _ h0 in
    let (r, fetches, h2) = >>=-eq-ok (ensure_through fuel c.ifetch c.icache c.pc) _ h1 in
    let (s, executes, h3) = >>=-eq-ok (execute fuel (start c insn r)) _ h2 in
    let (t, redirects, h4) = >>=-eq-ok (redirect fuel (commit s)) _ h3 in
    record {
      below_limit = f;
      aligned = g;
      insn = insn;
      reads = reads;
      fetched = r;
      fetches = fetches;
      s = s;
      executes = executes;
      t = t;
      redirects = redirects;
      result = returned (finish t) c' h4;
    }

-- When a step of the processor returns, from 32 registers that are words with x0 at 0, memories of bytes
-- and a program counter that is a word, the instruction set takes the same step of the registers, the
-- data memory, the program counter and the halt; and these are again within their bounds.
pub step-visible :
    (fuel : ℕ) (c c' : Cpu)
    → IsValid (visible c)
    → IsBytes c.instruction_memory
    → step fuel c ≡ ok c'
    → (Isa.step c.instruction_memory (visible c) ≡ ok (visible c')) × IsValid (visible c')
unfolding Isa.step
step-visible fuel c c' v bytes h = elim (Bool-cases c.halted) [
  | inl e ↦
      let same = returned c c' (sym (step-halted fuel c e) ∙ h) in
      (
        halted_step c.instruction_memory (visible c) e ∙ ap (λ d. ok (visible d)) same,
        subst (λ d. IsValid (visible d)) same v,
      )
  | inr e ↦
      let k = step-Course fuel c c' e h in
      let w = Ensures-ok IsWord _ k.insn k.reads (read32-lt c.instruction_memory c.pc bytes) in
      let (does, valid) = executed fuel c k.insn k.fetched k.s v w e k.executes in
      let same : effect k.s ≡ visible c' =
        sym (commit-visible k.s valid)
        ∙ sym (
            Ensures-ok (λ t. visible t.cpu ≡ _) _ k.t k.redirects
              (redirect-visible fuel (commit k.s)))
        ∙ sym (finish-visible k.t)
        ∙ ap visible k.result in
      (rw (e, k.aligned, k.reads) (does ∙ ap ok same), subst IsValid same valid)
]
