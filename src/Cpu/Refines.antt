-- ===== src/Cpu/Refines.antt =====
-- `CpuModel::step` against the instruction set alone: caches, front end and timing change nothing in the
-- registers, the data memory and the program counter.
use rv32im_so_c_performance.Base.{
  ℕ, ◌≡◌, refl, ap, sym, ◌∙◌, Bool, true, false, List, ◌==◌, if◌then◌else◌, Result, ok, err, ◌>>=◌,
  Ensures, Ensures-if, Ensures->>=, Ensures-any, arith,
}
use rv32im_so_c_performance.Cache
use rv32im_so_c_performance.Cache.{Cache, add32}
use rv32im_so_c_performance.Fetch.{Fetched, on_dcache_stall}
use rv32im_so_c_performance.Timing.{bits}
use rv32im_so_c_performance.Memory.{Memory}
use rv32im_so_c_performance.Alu.{illegal, branch_test, op_imm, op_or_muldiv}
use rv32im_so_c_performance.Cpu.{
  Cpu, imm_i, imm_s, imm_b, imm_j, imm_u, PerformanceStats, load_value, store_value,
}
use rv32im_so_c_performance.Cpu.Locals.{Locals, a_of, b_of, counted, count_alu, write_reg}
use rv32im_so_c_performance.Cpu.Execute.{
  execute, jal, jalr, branch, branch_to, load, load_with, with_fetch, store_to, store, settle,
  redirect_misses, overlap, replay, op_imm_case, op_case, system,
}
use rv32im_so_c_performance.Cpu.Isa
use rv32im_so_c_performance.Cpu.Isa.{Effect}

-- What the instruction set sees of the variables of `step`, and of a processor.
abbrev pub effect : Locals → Effect
effect s = record {
  regs = s.cpu.regs;
  memory = s.cpu.data_memory;
  pc = s.next_pc;
  halted = s.cpu.halted;
}

abbrev pub visible : Cpu → Effect
visible c = record { regs = c.regs; memory = c.data_memory; pc = c.pc; halted = c.halted }

-- The effect of the variables is that of a result.
abbrev pub Gives : Result Effect → Locals → Type 0
Gives r s = r ≡ ok (effect s)

Ensures-bind {ℓ} :
    {V : Type ℓ} (r : Result V) (f : V → Locals) (g : V → Effect)
    → ((v : V) → g v ≡ effect (f v))
    → Ensures (Gives (r >>= λ v. ok (g v))) (r >>= λ v. ok (f v))
Ensures-bind (ok v) f g same = ap ok (same v)
Ensures-bind (err e) f g same = tt

-- Where the one returns, the other does, with the same effect.
unfoldable pub Matches : Result Effect → Result Locals → Type 0
Matches r x = Ensures (Gives r) x

Matches-if :
    (b : Bool) (r q : Result Effect) (x y : Result Locals)
    → Matches r x
    → Matches q y
    → Matches (if b then r else q) (if b then x else y)
Matches-if true r q x y h k = h
Matches-if false r q x y h k = k

-- A store is settled in the caches alone.
overlap-effect :
    (s : Locals) (addr credit : ℕ) → Ensures (λ t. effect t ≡ effect s) (overlap s addr credit)
unfolding overlap
overlap-effect s addr credit = Ensures-if _ (credit == 0) (ok _) _ refl (
    Ensures->>= (λ _. Unit {0}) _ (replay s.cpu.dcache addr) _
      (Ensures-any (replay s.cpu.dcache addr)) (λ dcache _. refl))

settle-effect :
    (s : Locals) (addr dcache_stall ifetch_stall : ℕ)
    → Ensures (λ t. effect t ≡ effect s) (settle s addr dcache_stall ifetch_stall)
unfolding settle
settle-effect s addr dcache_stall ifetch_stall =
    Ensures->>= (λ _. Unit {0}) _ (redirect_misses s dcache_stall ifetch_stall) _
      (Ensures-any (redirect_misses s dcache_stall ifetch_stall))
      (λ overlaps _.
        Ensures->>= (λ t. effect t ≡ effect s) _ _ _
          (Ensures-if _ overlaps (overlap s addr _) (ok s) (overlap-effect s addr _) refl)
          (λ t same. same))

module _ (s : Locals) (next : s.next_pc ≡ add32 s.old_pc 4) (runs : s.cpu.halted ≡ false) where
  abbrev regs : List ℕ
  regs = s.cpu.regs

  abbrev m : Memory
  m = s.cpu.data_memory

  write_reg-Gives :
      (value : ℕ) → Isa.result s.insn s.old_pc regs m value ≡ effect (write_reg value s)
  unfolding write_reg
  write_reg-Gives value = ground (arith, next, runs)

  alu-Matches :
      (value : ℕ)
      → Matches (ok (Isa.result s.insn s.old_pc regs m value)) (ok (count_alu (write_reg value s)))
  unfolding Matches
  alu-Matches value = ap ok (write_reg-Gives value)

  jal-Matches :
      Matches (ok (Isa.linked s.insn s.old_pc regs m (add32 s.old_pc (imm_j s.insn)))) (ok (jal s))
  unfolding Matches write_reg
  jal-Matches = ground (arith, next, runs)

  fence-Matches : Matches (ok (Isa.unchanged s.insn s.old_pc regs m)) (ok (count_alu s))
  unfolding Matches
  fence-Matches = cc

  jalr-Matches : Matches (Isa.jalr s.insn s.old_pc regs m) (jalr s)
  unfolding Matches write_reg
  jalr-Matches = ground (arith, next, runs)

  branch-Matches : Matches (Isa.branch s.insn s.old_pc regs m) (branch s)
  unfolding Matches
  branch-Matches = Ensures-bind (branch_test (bits s.insn 14 12) (a_of s) (b_of s)) _ _ taken
    where
      taken :
          (take : Bool)
          → record (Isa.unchanged s.insn s.old_pc regs m) {
            pc = if take then add32 s.old_pc (imm_b s.insn) else add32 s.old_pc 4;
          }
            ≡ effect (branch_to s take)
      taken true = cc
      taken false = cc

  load-Matches : (fuel : ℕ) → Matches (Isa.load s.insn s.old_pc regs m) (load fuel s)
  unfolding Matches load
  load-Matches fuel =
      let addr = add32 (a_of s) (imm_i s.insn) in
      let stall = (Cache.access s.cpu.dcache addr false).1.stall_cycles in
      held (load_value (bits s.insn 14 12) m addr)
        (on_dcache_stall fuel s.cpu.ifetch s.cpu.icache s.old_pc stall) addr stall
    where
      held :
          (value : Result ℕ) (fetched : Result Fetched) (addr stall : ℕ)
          → Ensures
              (Gives (value >>= λ v. ok (Isa.result s.insn s.old_pc regs m v)))
              (value >>= λ v. fetched >>= λ r. ok (load_with s addr v stall r))
      held (err e) fetched addr stall = tt
      held (ok v) (err e) addr stall = tt
      held (ok v) (ok r) addr stall = ap ok (write_reg-Gives v)

  store-Matches : (fuel : ℕ) → Matches (Isa.store s.insn s.old_pc regs m) (store fuel s)
  unfolding Matches store
  store-Matches fuel =
      let addr = add32 (a_of s) (imm_s s.insn) in
      let stall = (Cache.access s.cpu.dcache addr true).1.stall_cycles in
      held (store_value (bits s.insn 14 12) m addr (b_of s))
        (on_dcache_stall fuel s.cpu.ifetch s.cpu.icache s.old_pc stall) addr stall
    where
      settled :
          (after : Memory) (t : Locals)
          → effect t ≡ record (Isa.unchanged s.insn s.old_pc regs m) { memory = after }
          → (r : Result Locals) → Ensures (λ u. effect u ≡ effect t) r
          → Ensures
              (Gives (ok (record (Isa.unchanged s.insn s.old_pc regs m) { memory = after })))
              r
      settled after t e (err x) h = tt
      settled after t e (ok u) h = ap ok (sym e ∙ sym h)

      held :
          (after : Result Memory) (fetched : Result Fetched) (addr stall : ℕ)
          → Ensures
              (Gives
                (after >>= λ x. ok (record (Isa.unchanged s.insn s.old_pc regs m) { memory = x })))
              (after >>= λ x.
                fetched >>= λ r. settle (with_fetch (store_to s addr x) r) addr stall r.stalls)
      held (err e) fetched addr stall = tt
      held (ok x) (err e) addr stall = tt
      held (ok x) (ok r) addr stall =
          settled x (with_fetch (store_to s addr x) r) (cc) _
            (settle-effect (with_fetch (store_to s addr x) r) addr stall r.stalls)

  op_imm-Matches : Matches (Isa.op_imm_case s.insn s.old_pc regs m) (op_imm_case s)
  unfolding Matches
  op_imm-Matches =
      Ensures-bind
        (op_imm (bits s.insn 14 12) (bits s.insn 31 25) (bits s.insn 24 20) (a_of s) (imm_i s.insn))
        _ _ write_reg-Gives

  op-Matches : Matches (Isa.op_case s.insn s.old_pc regs m) (op_case s)
  unfolding Matches write_reg
  op-Matches =
      Ensures-bind (op_or_muldiv (bits s.insn 14 12) (bits s.insn 31 25) (a_of s) (b_of s)) _ _
        (λ value. written value (bits s.insn 31 25 == 0x01) _)
    where
      written :
          (value : ℕ) (b : Bool) (first : PerformanceStats)
          → Isa.result s.insn s.old_pc regs m value
            ≡ effect (write_reg value (if b then counted s first else count_alu s))
      written value true first = write_reg-Gives value
      written value false first = write_reg-Gives value

  system-Matches : Matches (Isa.system s.insn s.old_pc regs m) (system s)
  unfolding Matches
  system-Matches = ground (arith, next)

  unknown : Matches (illegal "unknown opcode") (illegal "unknown opcode")
  unfolding Matches
  unknown = tt

  pub execute-Matches : (fuel : ℕ) → Matches (Isa.execute s.insn s.old_pc regs m) (execute fuel s)
  unfolding execute Isa.execute
  execute-Matches fuel = Matches-if _ _ _ _ _ (alu-Matches (imm_u s.insn)) (
      Matches-if _ _ _ _ _ (alu-Matches (add32 s.old_pc (imm_u s.insn))) (
        Matches-if _ _ _ _ _ jal-Matches (
          Matches-if _ _ _ _ _ jalr-Matches (
            Matches-if _ _ _ _ _ branch-Matches (
              Matches-if _ _ _ _ _ (load-Matches fuel) (
                Matches-if _ _ _ _ _ (store-Matches fuel) (
                  Matches-if _ _ _ _ _ op_imm-Matches (
                    Matches-if _ _ _ _ _ op-Matches (
                      Matches-if _ _ _ _ _ fence-Matches
                        (Matches-if _ _ _ _ _ system-Matches unknown))))))))))
