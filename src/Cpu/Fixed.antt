-- ===== src/Cpu/Fixed.antt =====
-- What the switch and the hooks of src/CpuModel.cpp leave alone: the configuration, the instruction
-- memory, the timing model, and the trace.
use rv32im_so_c_performance.Base.{
  ℕ, ◌≡◌, refl, Bool, true, false, not, ◌||◌, List, ◌==◌, if◌then◌else◌, Result, ok, ◌>>=◌, Ensures,
  Ensures-if, Ensures->>=, Ensures-any,
}
use rv32im_so_c_performance.Cache
use rv32im_so_c_performance.Cache.{add32, add64}
use rv32im_so_c_performance.Fetch.{Fetched, on_dcache_stall}
use rv32im_so_c_performance.Timing.{Pipeline, bits}
use rv32im_so_c_performance.Memory.{Memory}
use rv32im_so_c_performance.Trace.Writer.{RetireEvent}
use rv32im_so_c_performance.Cpu.{
  CpuConfig, Cpu, PerformanceStats, imm_i, imm_s, load_value, store_value,
}
use rv32im_so_c_performance.Alu.{branch_test, op_imm, op_or_muldiv}
use rv32im_so_c_performance.Cpu.Locals.{Locals, a_of, b_of, counted, count_alu, write_reg}
use rv32im_so_c_performance.Cpu.Execute.{
  execute, with_fetch, store_to, branch, branch_to, load, store, settle, redirect_misses, overlap,
  replay, op_case,
}
use rv32im_so_c_performance.Cpu.Step.{redirect, hook}

pub record Fixed : Type 0 where
  pub config : CpuConfig
  pub instruction_memory : Memory
  pub timing : Pipeline
  pub trace : List RetireEvent

abbrev pub fixed : Cpu → Fixed
fixed c = record {
  config = c.config;
  instruction_memory = c.instruction_memory;
  timing = c.timing;
  trace = c.trace;
}

-- The parts are those of a processor from before.
abbrev pub Keeps : Cpu → Locals → Type 0
Keeps c t = fixed t.cpu ≡ fixed c

-- A bind whose outcome does not matter.
after_any {ℓ} :
    {V : Type ℓ} (c : Cpu) (r : Result V) (f : V → Result Locals)
    → ((v : V) → Ensures (Keeps c) (f v))
    → Ensures (Keeps c) (r >>= f)
after_any c r f h = Ensures->>= (λ _. Unit {0}) (Keeps c) r f (Ensures-any r) (λ v _. h v)

settle-Keeps :
    (c : Cpu) (s : Locals) (addr dcache_stall ifetch_stall : ℕ)
    → Keeps c s
    → Ensures (Keeps c) (settle s addr dcache_stall ifetch_stall)
unfolding settle overlap
settle-Keeps c s addr dcache_stall ifetch_stall h =
    after_any c (redirect_misses s dcache_stall ifetch_stall) _ (λ overlaps.
      Ensures->>= (Keeps c) (Keeps c) _ _
        (Ensures-if (Keeps c) overlaps _ (ok s)
          (Ensures-if (Keeps c) _ (ok _) _ h (after_any c (replay s.cpu.dcache addr) _ (λ d. h))) h)
        (λ t k. k))

module _ (s : Locals) where
  abbrev P : Locals → Type 0
  P = Keeps s.cpu

  branch-Keeps : Ensures P (branch s)
  branch-Keeps = after_any s.cpu (branch_test (bits s.insn 14 12) (a_of s) (b_of s)) _ taken
    where
      taken : (take : Bool) → Keeps s.cpu (branch_to s take)
      taken true = refl
      taken false = refl

  op-Keeps : Ensures P (op_case s)
  unfolding write_reg
  op-Keeps =
      after_any s.cpu (op_or_muldiv (bits s.insn 14 12) (bits s.insn 31 25) (a_of s) (b_of s)) _
        (λ value.
          written (bits s.insn 31 25 == 0x01) value
            (record s.cpu.stats { mul_div = add64 s.cpu.stats.mul_div 1 }))
    where
      written :
          (b : Bool) (value : ℕ) (first : PerformanceStats)
          → Keeps s.cpu (write_reg value (if b then counted s first else count_alu s))
      written true value first = refl
      written false value first = refl

  load-Keeps : (fuel : ℕ) → Ensures P (load fuel s)
  unfolding load write_reg
  load-Keeps fuel =
      let addr = add32 (a_of s) (imm_i s.insn) in
      let stall = (Cache.access s.cpu.dcache addr false).1.stall_cycles in
      after_any s.cpu (load_value (bits s.insn 14 12) s.cpu.data_memory addr) _ (λ value.
        after_any s.cpu (on_dcache_stall fuel s.cpu.ifetch s.cpu.icache s.old_pc stall) _
          (λ r. refl))

  store-Keeps : (fuel : ℕ) → Ensures P (store fuel s)
  unfolding store
  store-Keeps fuel =
      let addr = add32 (a_of s) (imm_s s.insn) in
      let stall = (Cache.access s.cpu.dcache addr true).1.stall_cycles in
      after_any s.cpu (store_value (bits s.insn 14 12) s.cpu.data_memory addr (b_of s)) _ (λ m.
        after_any s.cpu (on_dcache_stall fuel s.cpu.ifetch s.cpu.icache s.old_pc stall) _
          (λ r. settle-Keeps s.cpu (with_fetch (store_to s addr m) r) addr stall r.stalls refl))

  pub execute-Keeps : (fuel : ℕ) → Ensures P (execute fuel s)
  unfolding execute write_reg
  execute-Keeps fuel =
      let opcode = bits s.insn 6 0 in
      Ensures-if P (opcode == 0x37) _ _ refl (
        Ensures-if P (opcode == 0x17) _ _ refl (
          Ensures-if P (opcode == 0x6f) _ _ refl (
            Ensures-if P (opcode == 0x67) _ _
              (Ensures-if P (not (bits s.insn 14 12 == 0)) _ _ tt refl)
              (Ensures-if P (opcode == 0x63) _ _ branch-Keeps (
                Ensures-if P (opcode == 0x03) _ _ (load-Keeps fuel) (
                  Ensures-if P (opcode == 0x23) _ _ (store-Keeps fuel) (
                    Ensures-if P (opcode == 0x13) _ _
                      (after_any s.cpu
                        (op_imm (bits s.insn 14 12) (bits s.insn 31 25) (bits s.insn 24 20) (a_of s)
                          (imm_i s.insn))
                        _ (λ value. refl))
                      (Ensures-if P (opcode == 0x33) _ _ op-Keeps (
                        Ensures-if P (opcode == 0x0f) _ _ refl (
                          Ensures-if P (opcode == 0x73) _ _
                            (Ensures-if P (s.insn == 0x00000073 || s.insn == 0x00100073) _ _ refl
                              tt)
                            tt))))))))))

hook-Keeps :
    (c : Cpu) (b : Bool) (fetched : Result Fetched) (s : Locals)
    → Keeps c s
    → Ensures (Keeps c) (hook b fetched s)
hook-Keeps c b fetched s h =
    Ensures-if (Keeps c) (not b) (ok s) _ h (after_any c fetched _ (λ r. h))

pub redirect-Keeps :
    (fuel : ℕ) (c : Cpu) (s : Locals) → Keeps c s → Ensures (Keeps c) (redirect fuel s)
unfolding redirect
redirect-Keeps fuel c s h =
    Ensures->>= (Keeps c) (Keeps c) _ _ (hook-Keeps c s.branch_taken _ s h) (λ u k.
      Ensures->>= (Keeps c) (Keeps c) _ _ (hook-Keeps c u.jump _ u k)
        (λ v k. hook-Keeps c v.terminating _ v k))
