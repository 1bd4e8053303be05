-- ===== src/Cpu/Isa.antt =====
-- The instruction set alone: what an instruction does to the registers, the data memory and the program
-- counter, with no caches, no front end and no timing. src/CpuModel.cpp is compared with it.
use Prim.Native.Nat.{bit_and}
use rv32im_so_c_performance.Base.{
  ℕ, zero, suc, Bool, true, false, not, ◌||◌, List, ◌==◌, if◌then◌else◌, runtime_error, out_of_fuel,
  Result, ok, err, ◌>>=◌, set,
}
use rv32im_so_c_performance.Cache.{add32}
use rv32im_so_c_performance.Timing.{bits}
use rv32im_so_c_performance.Memory.{Memory, read32}
use rv32im_so_c_performance.Alu.{illegal, branch_test, op_imm, op_or_muldiv}
use rv32im_so_c_performance.Cpu.{imm_i, imm_s, imm_b, imm_j, imm_u, reg, load_value, store_value}

pub record Effect : Type 0 where
  pub regs : List ℕ
  pub memory : Memory
  pub pc : ℕ
  pub halted : Bool

-- x0 is never written.
abbrev pub write : List ℕ → ℕ → ℕ → List ℕ
write regs rd value = if rd == 0 then regs else set regs rd value

-- An instruction at `pc`, on the registers and the data memory.
module _ (insn pc : ℕ) (regs : List ℕ) (m : Memory) where
  abbrev a : ℕ
  a = reg regs (bits insn 19 15)

  abbrev b : ℕ
  b = reg regs (bits insn 24 20)

  -- The next instruction in order, with rd changed.
  abbrev pub result : ℕ → Effect
  result value = record {
    regs = write regs (bits insn 11 7) value;
    memory = m;
    pc = add32 pc 4;
    halted = false;
  }

  -- Control goes to a target, and the return address to rd.
  abbrev pub linked : ℕ → Effect
  linked target = record {
    regs = write regs (bits insn 11 7) (add32 pc 4);
    memory = m;
    pc = target;
    halted = false;
  }

  abbrev pub unchanged : Effect
  unchanged = record { regs = regs; memory = m; pc = add32 pc 4; halted = false }

  abbrev pub jalr : Result Effect
  jalr =
      if not (bits insn 14 12 == 0)
      then illegal "JALR funct3"
      else ok (linked (bit_and (add32 a (imm_i insn)) 0xfffffffe))

  abbrev pub branch : Result Effect
  branch = do
    take ← branch_test (bits insn 14 12) a b
    ok (record unchanged { pc = if take then add32 pc (imm_b insn) else add32 pc 4 })

  abbrev pub load : Result Effect
  load = do value ← load_value (bits insn 14 12) m (add32 a (imm_i insn)); ok (result value)

  abbrev pub store : Result Effect
  store = do
    after ← store_value (bits insn 14 12) m (add32 a (imm_s insn)) b
    ok (record unchanged { memory = after })

  abbrev pub op_imm_case : Result Effect
  op_imm_case = do
    value ← op_imm (bits insn 14 12) (bits insn 31 25) (bits insn 24 20) a (imm_i insn)
    ok (result value)

  abbrev pub op_case : Result Effect
  op_case = do value ← op_or_muldiv (bits insn 14 12) (bits insn 31 25) a b; ok (result value)

  abbrev pub system : Result Effect
  system =
      if insn == 0x00000073 || insn == 0x00100073
      then ok (record unchanged { halted = true })
      else illegal "CSR/system instruction not implemented in Milestone 1"

  unfoldable pub execute : Result Effect
  execute =
      let opcode = bits insn 6 0 in
      if opcode == 0x37
      then ok (result (imm_u insn))
      else if opcode == 0x17
      then ok (result (add32 pc (imm_u insn)))
      else if opcode == 0x6f
      then ok (linked (add32 pc (imm_j insn)))
      else if opcode == 0x67
      then jalr
      else if opcode == 0x63
      then branch
      else if opcode == 0x03
      then load
      else if opcode == 0x23
      then store
      else if opcode == 0x13
      then op_imm_case
      else if opcode == 0x33
      then op_case
      else if opcode == 0x0f
      then ok unchanged
      else if opcode == 0x73
      then system
      else illegal "unknown opcode"

-- One instruction of a machine with the given instruction memory.
unfoldable pub step : Memory → Effect → Result Effect
unfolding execute
step instructions e =
    if e.halted
    then ok e
    else if not (bit_and e.pc 0x3 == 0)
    then err (runtime_error "Misaligned instruction fetch")
    else do insn ← read32 instructions e.pc; execute insn e.pc e.regs e.memory

-- The machine until it halts, within `n` instructions.
unfoldable pub run : ℕ → Memory → Effect → Result Effect
run zero instructions e = err out_of_fuel
run (suc n) instructions e =
    let rest = step instructions e >>= run n instructions in if not e.halted then rest else ok e
