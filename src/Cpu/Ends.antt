-- ===== src/Cpu/Ends.antt =====
-- A step of src/CpuModel.cpp ends: where the instruction memory leaves room for the requests of the
-- front end, it returns or raises an exception of the program.
use Prim.Native.Nat.{bit_and}
use rv32im_so_c_performance.Base.{
  ℕ, ◌+◌, ◌%◌, ◌^◌, ◌≤◌, ◌≡◌, refl, Bool, true, false, not, ◌||◌, ◌==◌, length, Result, ok, ◌>>=◌,
  Finishes, Finishes-if, Finishes->>=, arith, ◌∙◌,
}
use rv32im_so_c_performance.Cache
use rv32im_so_c_performance.Cache.{Cache, add32}
use rv32im_so_c_performance.Fetch.{Fetched, on_dcache_stall}
use rv32im_so_c_performance.Fetch.Ends.{IsNear, Configured, on_dcache_stall-Finishes}
use rv32im_so_c_performance.Timing.{bits}
use rv32im_so_c_performance.Memory.{Memory, read8, read16, read32, write8, write16, write32}
use rv32im_so_c_performance.Alu.{branch_test, op_imm, op, muldiv, op_or_muldiv}
use rv32im_so_c_performance.Cpu.{imm_i, imm_s, load_value, store_value}
use rv32im_so_c_performance.Cpu.Locals.{
  Locals, a_of, b_of, write_reg, sequential_next_redirect_target,
}
use rv32im_so_c_performance.Cpu.Execute.{
  execute, with_fetch, store_to, branch, branch_to, load, store, settle, redirect_misses, overlap,
  replay, op_case, op_imm_case,
}
use rv32im_so_c_performance.Cpu.Step.{hook}

abbrev Any {ℓ} : {V : Type ℓ} → V → Type 0
Any v = Unit

-- A value, computed without a loop.
abbrev IsShort {ℓ} : {V : Type ℓ} → Result V → Type 0
IsShort r = Finishes Any r

read8-IsShort : (m : Memory) (addr : ℕ) → IsShort (read8 m addr)
unfolding read8
read8-IsShort m addr = ground arith

read16-IsShort : (m : Memory) (addr : ℕ) → IsShort (read16 m addr)
unfolding read16
read16-IsShort m addr = ground arith

-- A word is read from inside of the memory.
pub read32-inside :
    (m : Memory) (addr : ℕ) → Finishes (λ value. addr + 4 ≤ length m) (read32 m addr)
unfolding read32
read32-inside m addr = ground arith

write8-IsShort : (m : Memory) (addr value : ℕ) → IsShort (write8 m addr value)
unfolding write8
write8-IsShort m addr value = ground arith

write16-IsShort : (m : Memory) (addr value : ℕ) → IsShort (write16 m addr value)
unfolding write16
write16-IsShort m addr value = ground arith

write32-IsShort : (m : Memory) (addr value : ℕ) → IsShort (write32 m addr value)
unfolding write32
write32-IsShort m addr value = ground arith

read32-IsShort : (m : Memory) (addr : ℕ) → IsShort (read32 m addr)
unfolding read32
read32-IsShort m addr = ground arith

load_value-IsShort : (funct3 : ℕ) (m : Memory) (addr : ℕ) → IsShort (load_value funct3 m addr)
unfolding load_value
load_value-IsShort funct3 m addr =
    Finishes-if Any (funct3 == 0x0) _ _
      (Finishes->>= Any Any (read8 m addr) _ (read8-IsShort m addr) (λ v _. tt))
      (Finishes-if Any (funct3 == 0x1) _ _
        (Finishes->>= Any Any (read16 m addr) _ (read16-IsShort m addr) (λ v _. tt))
        (Finishes-if Any (funct3 == 0x2) _ _ (read32-IsShort m addr) (
          Finishes-if Any (funct3 == 0x4) _ _ (read8-IsShort m addr)
            (Finishes-if Any (funct3 == 0x5) _ _ (read16-IsShort m addr) refl))))

store_value-IsShort : (funct3 : ℕ) (m : Memory) (addr b : ℕ) → IsShort (store_value funct3 m addr b)
unfolding store_value
store_value-IsShort funct3 m addr b =
    Finishes-if Any (funct3 == 0x0) _ _ (write8-IsShort m addr (b % 2 ^ 8)) (
      Finishes-if Any (funct3 == 0x1) _ _ (write16-IsShort m addr (b % 2 ^ 16))
        (Finishes-if Any (funct3 == 0x2) _ _ (write32-IsShort m addr b) refl))

branch_test-IsShort : (funct3 a b : ℕ) → IsShort (branch_test funct3 a b)
unfolding branch_test
branch_test-IsShort funct3 a b = ground arith

op_imm-IsShort : (funct3 funct7 rs2 a imm : ℕ) → IsShort (op_imm funct3 funct7 rs2 a imm)
unfolding op_imm
op_imm-IsShort funct3 funct7 rs2 a imm = ground arith

op_or_muldiv-IsShort : (funct3 funct7 a b : ℕ) → IsShort (op_or_muldiv funct3 funct7 a b)
unfolding op muldiv
op_or_muldiv-IsShort funct3 funct7 a b = ground arith

-- The instruction's address and the configuration of the front end are those of before.
abbrev pub Same : Locals → Locals → Type 0
Same s t = (t.old_pc ≡ s.old_pc) × (t.cpu.ifetch.config ≡ s.cpu.ifetch.config)

after {ℓ} :
    {V : Type ℓ} (P : Locals → Type 0) (r : Result V) (next : V → Result Locals)
    → IsShort r
    → ((v : V) → Finishes P (next v))
    → Finishes P (r >>= next)
after P r next h k = Finishes->>= Any P r next h (λ v _. k v)

replay-IsShort : (dcache : Cache) (addr : ℕ) → IsShort (replay dcache addr)
unfolding replay
replay-IsShort dcache addr = ground arith

redirect_misses-IsShort :
    (s : Locals) (dcache_stall ifetch_stall : ℕ)
    → IsShort (redirect_misses s dcache_stall ifetch_stall)
unfolding redirect_misses sequential_next_redirect_target
redirect_misses-IsShort s dcache_stall ifetch_stall =
    let next_pc = add32 s.old_pc 4 in
    let target = sequential_next_redirect_target s.cpu.instruction_memory s.cpu.regs next_pc in
    Finishes-if Any (dcache_stall == 0 || ifetch_stall == 0) _ _ tt (
      Finishes->>= Any Any target _
        (Finishes-if Any (not (bit_and next_pc 0x3 == 0)) _ _ tt (
          Finishes->>= Any Any (read32 s.cpu.instruction_memory next_pc) _
            (read32-IsShort s.cpu.instruction_memory next_pc) (λ v _. tt)))
        (λ v _. tt))

settle-Finishes :
    (u s : Locals) (addr dcache_stall ifetch_stall : ℕ)
    → Same u s
    → Finishes (Same u) (settle s addr dcache_stall ifetch_stall)
unfolding settle overlap
settle-Finishes u s addr dcache_stall ifetch_stall h =
    after (Same u) (redirect_misses s dcache_stall ifetch_stall) _
      (redirect_misses-IsShort s dcache_stall ifetch_stall)
      (λ overlaps.
        Finishes->>= (Same u) (Same u) _ _
          (Finishes-if (Same u) overlaps _ (ok s)
            (Finishes-if (Same u) _ (ok _) _ h (
              after (Same u) (replay s.cpu.dcache addr) _ (replay-IsShort s.cpu.dcache addr)
                (λ d. h)))
            h)
          (λ t k. k))

module _ (s : Locals) where
  abbrev P : Locals → Type 0
  P = Same s

  branch-Finishes : Finishes P (branch s)
  branch-Finishes =
      after P (branch_test (bits s.insn 14 12) (a_of s) (b_of s)) _
        (branch_test-IsShort (bits s.insn 14 12) (a_of s) (b_of s)) taken
    where
      taken : (take : Bool) → Same s (branch_to s take)
      taken true = (refl, refl)
      taken false = (refl, refl)

  op-Finishes : Finishes P (op_case s)
  unfolding write_reg
  op-Finishes =
      after P (op_or_muldiv (bits s.insn 14 12) (bits s.insn 31 25) (a_of s) (b_of s)) _
        (op_or_muldiv-IsShort (bits s.insn 14 12) (bits s.insn 31 25) (a_of s) (b_of s))
        (λ value. ground arith)

  op_imm-Finishes : Finishes P (op_imm_case s)
  unfolding write_reg
  op_imm-Finishes =
      let funct3 = bits s.insn 14 12 in
      let funct7 = bits s.insn 31 25 in
      after P (op_imm funct3 funct7 (bits s.insn 24 20) (a_of s) (imm_i s.insn)) _
        (op_imm-IsShort funct3 funct7 (bits s.insn 24 20) (a_of s) (imm_i s.insn))
        (λ value. (refl, refl))

  module _ (fuel : ℕ)
      (near : IsNear fuel (add32 s.old_pc s.cpu.ifetch.config.dcache_hold_ahead_bytes)) where
    held :
        (stall : ℕ)
        → Finishes
            (Configured s.cpu.ifetch.config)
            (on_dcache_stall fuel s.cpu.ifetch s.cpu.icache s.old_pc stall)
    held stall = on_dcache_stall-Finishes fuel s.cpu.ifetch s.cpu.icache s.old_pc stall near

    load-Finishes : Finishes P (load fuel s)
    unfolding load write_reg
    load-Finishes =
        let addr = add32 (a_of s) (imm_i s.insn) in
        let stall = (Cache.access s.cpu.dcache addr false).1.stall_cycles in
        after P (load_value (bits s.insn 14 12) s.cpu.data_memory addr) _
          (load_value-IsShort (bits s.insn 14 12) s.cpu.data_memory addr)
          (λ value.
            Finishes->>= (Configured s.cpu.ifetch.config) P _ _ (held stall) (λ r h. (refl, h)))

    store-Finishes : Finishes P (store fuel s)
    unfolding store
    store-Finishes =
        let addr = add32 (a_of s) (imm_s s.insn) in
        let stall = (Cache.access s.cpu.dcache addr true).1.stall_cycles in
        after P (store_value (bits s.insn 14 12) s.cpu.data_memory addr (b_of s)) _
          (store_value-IsShort (bits s.insn 14 12) s.cpu.data_memory addr (b_of s))
          (λ m. Finishes->>= (Configured s.cpu.ifetch.config) P _ _ (held stall) (λ r h.
            settle-Finishes s (with_fetch (store_to s addr m) r) addr stall r.stalls (refl, h)))

    pub execute-Finishes : Finishes P (execute fuel s)
    unfolding execute write_reg
    execute-Finishes =
        let opcode = bits s.insn 6 0 in
        let same : Same s s = (refl, refl) in
        Finishes-if P (opcode == 0x37) _ _ same (
          Finishes-if P (opcode == 0x17) _ _ same (
            Finishes-if P (opcode == 0x6f) _ _ same (
              Finishes-if P (opcode == 0x67) _ _
                (Finishes-if P (not (bits s.insn 14 12 == 0)) _ _ refl same)
                (Finishes-if P (opcode == 0x63) _ _ branch-Finishes (
                  Finishes-if P (opcode == 0x03) _ _ load-Finishes (
                    Finishes-if P (opcode == 0x23) _ _ store-Finishes (
                      Finishes-if P (opcode == 0x13) _ _ op_imm-Finishes (
                        Finishes-if P (opcode == 0x33) _ _ op-Finishes (
                          Finishes-if P (opcode == 0x0f) _ _ same (
                            Finishes-if P (opcode == 0x73) _ _
                              (Finishes-if P (s.insn == 0x00000073 || s.insn == 0x00100073) _ _ same
                                refl)
                              refl))))))))))

pub hook-Finishes :
    (u : Locals) (b : Bool) (fetched : Result Fetched) (s : Locals)
    → Same u s
    → Finishes (Configured s.cpu.ifetch.config) fetched
    → Finishes (Same u) (hook b fetched s)
hook-Finishes u b fetched s h k =
    Finishes-if (Same u) (not b) (ok s) _ h
      (Finishes->>= (Configured s.cpu.ifetch.config) (Same u) fetched _ k (λ r c. (h.0, c ∙ h.1)))
