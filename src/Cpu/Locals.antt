-- ===== src/Cpu/Locals.antt =====
-- The variables of `CpuModel::step` in src/CpuModel.cpp, which the cases of its switch change, and the
-- member functions that the switch calls: write_reg, sequential_next_redirect_target and
-- cache_overlap_credit.
use Prim.Native.Nat.{bit_and}
use rv32im_so_c_performance.Base.{
  ℕ, Bool, true, not, ◌&&◌, ◌||◌, List, ltb, leb, ◌==◌, if◌then◌else◌, Option, none, some, Result,
  ok, err, ◌>>=◌, set,
}
use rv32im_so_c_performance.Cache
use rv32im_so_c_performance.Cache.{add32, add64}
use rv32im_so_c_performance.Timing.{bits}
use rv32im_so_c_performance.Memory.{Memory, read32}
use rv32im_so_c_performance.Words.{sub32}
use rv32im_so_c_performance.Alu.{branch_test}
use rv32im_so_c_performance.Trace.Writer.{RetireEvent}
use rv32im_so_c_performance.Cpu.{PerformanceStats, Cpu, imm_i, imm_b, imm_j, reg}

-- The variables of `step`. `insn`, `old_pc` and the operands do not change.
pub record Locals : Type 0 where
  pub cpu : Cpu
  pub event : RetireEvent
  pub insn : ℕ
  pub old_pc : ℕ
  pub next_pc : ℕ
  pub stalls : ℕ
  pub branch_taken : Bool
  pub jump : Bool
  pub terminating : Bool

abbrev pub a_of : Locals → ℕ
a_of s = reg s.cpu.regs (bits s.insn 19 15)

abbrev pub b_of : Locals → ℕ
b_of s = reg s.cpu.regs (bits s.insn 24 20)

abbrev pub counted : Locals → PerformanceStats → Locals
counted s stats = record s { cpu = record s.cpu { stats = stats } }

abbrev pub count_alu : Locals → Locals
count_alu s = counted s (record s.cpu.stats { alu = add64 s.cpu.stats.alu 1 })

unfoldable pub write_reg : ℕ → Locals → Locals
write_reg value s =
    let rd = bits s.insn 11 7 in
    record s {
      event = record s.event { rd = rd; wdata = value; reg_write = not (rd == 0) };
      cpu = record s.cpu { regs = if rd == 0 then s.cpu.regs else set s.cpu.regs rd value };
    }

-- The address that a jump goes to.
abbrev pub jump_to : ℕ → Locals → Locals
jump_to target s =
    let s = counted s (record s.cpu.stats { jumps = add64 s.cpu.stats.jumps 1 }) in
    record s { next_pc = target; jump = true }

-- The target of a decoded instruction at `pc`, from its operands: none where it falls through.
abbrev pub next_target : ℕ → ℕ → ℕ → ℕ → ℕ → ℕ → Option ℕ
next_target opcode funct3 insn a b pc =
    if opcode == 0x6f
    then some (add32 pc (imm_j insn))
    else if opcode == 0x67 && funct3 == 0
    then some (bit_and (add32 a (imm_i insn)) 0xfffffffe)
    else if not (opcode == 0x63)
    then none
    else elim (branch_test funct3 a b) [
      | ok take ↦ if take then some (add32 pc (imm_b insn)) else none
      | err illegal ↦ none
    ]

-- `sequential_next_redirect_target`: where the instruction at `next_pc` transfers control to, if it does
unfoldable pub sequential_next_redirect_target : Memory → List ℕ → ℕ → Result (Option ℕ)
sequential_next_redirect_target m regs next_pc =
    if not (bit_and next_pc 0x3 == 0) then ok none else do
      insn ← read32 m next_pc
      let opcode = bits insn 6 0
      let funct3 = bits insn 14 12
      let a = reg regs (bits insn 19 15)
      let b = reg regs (bits insn 24 20)
      ok (next_target opcode funct3 insn a b next_pc)

unfoldable pub cache_overlap_credit : Cpu → ℕ → ℕ
cache_overlap_credit c dcache_stall_cycles =
    if not c.config.icache.enabled || not c.config.dcache.enabled || leb dcache_stall_cycles 1
    then 0
    else let dcache_tail = sub32 dcache_stall_cycles 1 in
      let icache_refill = Cache.clean_miss_penalty c.icache.config in
      if ltb dcache_tail icache_refill then dcache_tail else icache_refill
