-- ===== src/Cpu/Execute.antt =====
-- The switch of `CpuModel::step` in src/CpuModel.cpp, a function for each opcode.
use Prim.Native.Nat.{bit_and}
use rv32im_so_c_performance.Base.{
  ℕ, Bool, true, false, not, ◌||◌, ◌==◌, if◌then◌else◌, none, some, runtime_error, Result, ok, err,
  ◌>>=◌,
}
use rv32im_so_c_performance.Cache
use rv32im_so_c_performance.Cache.{Cache, AccessResult, add32, add64, would_hit}
use rv32im_so_c_performance.Fetch.{Fetched, on_dcache_stall}
use rv32im_so_c_performance.Timing.{bits}
use rv32im_so_c_performance.Memory.{Memory}
use rv32im_so_c_performance.Words.{sub32}
use rv32im_so_c_performance.Alu.{illegal, branch_test, op_imm, op_or_muldiv}
use rv32im_so_c_performance.Cpu.Locals.{
  Locals, a_of, b_of, counted, count_alu, write_reg, jump_to, sequential_next_redirect_target,
  cache_overlap_credit,
}
use rv32im_so_c_performance.Cpu.{imm_i, imm_s, imm_b, imm_j, imm_u, load_value, store_value}

abbrev pub lui : Locals → Locals
lui s = count_alu (write_reg (imm_u s.insn) s)

abbrev pub auipc : Locals → Locals
auipc s = count_alu (write_reg (add32 s.old_pc (imm_u s.insn)) s)

abbrev pub jal : Locals → Locals
jal s = jump_to (add32 s.old_pc (imm_j s.insn)) (write_reg (add32 s.old_pc 4) s)

-- The operand is read before rd is written.
abbrev pub jalr : Locals → Result Locals
jalr s =
    if not (bits s.insn 14 12 == 0)
    then illegal "JALR funct3"
    else ok (
        jump_to (bit_and (add32 (a_of s) (imm_i s.insn)) 0xfffffffe)
          (write_reg (add32 s.old_pc 4) s))

abbrev pub branch_to : Locals → Bool → Locals
branch_to s take =
    let stats = record s.cpu.stats { branches = add64 s.cpu.stats.branches 1 } in
    if take
    then record (counted s (record stats { branches_taken = add64 stats.branches_taken 1 })) {
      branch_taken = true;
      next_pc = add32 s.old_pc (imm_b s.insn);
    }
    else counted s stats

abbrev pub branch : Locals → Result Locals
branch s = do take ← branch_test (bits s.insn 14 12) (a_of s) (b_of s); ok (branch_to s take)

-- The data cache of a load or a store, and the requests of the front end that its stall holds back.
abbrev pub dcache_access : Locals → ℕ → Bool → Locals
dcache_access s addr w = record s {
  event = record s.event { mem_addr = addr; mem_read = not w; mem_write = w };
  cpu = record s.cpu { dcache = (Cache.access s.cpu.dcache addr w).0 };
}

abbrev pub with_fetch : Locals → Fetched → Locals
with_fetch s r = record s { cpu = record s.cpu { ifetch = r.fetch; icache = r.icache } }

abbrev pub add_stalls : ℕ → Locals → Locals
add_stalls n s = record s { stalls = add32 s.stalls n }

abbrev pub load_with : Locals → ℕ → ℕ → ℕ → Fetched → Locals
load_with s addr value dcache_stall r =
    let s =
      add_stalls dcache_stall (add_stalls r.stalls (with_fetch (dcache_access s addr false) r)) in
    let s = write_reg value s in
    counted s (record s.cpu.stats { loads = add64 s.cpu.stats.loads 1 })

unfoldable pub load : ℕ → Locals → Result Locals
unfolding write_reg
load fuel s = do
  let addr = add32 (a_of s) (imm_i s.insn)
  value ← load_value (bits s.insn 14 12) s.cpu.data_memory addr
  let stall = (Cache.access s.cpu.dcache addr false).1.stall_cycles
  r ← on_dcache_stall fuel s.cpu.ifetch s.cpu.icache s.old_pc stall
  ok (load_with s addr value stall r)

-- Whether the instruction behind a store that stalls is redirected to a line that misses.
unfoldable pub redirect_misses : Locals → ℕ → ℕ → Result Bool
unfolding sequential_next_redirect_target
redirect_misses s dcache_stall ifetch_stall =
    if dcache_stall == 0 || ifetch_stall == 0 then ok false else do
      target ←
          sequential_next_redirect_target s.cpu.instruction_memory s.cpu.regs (add32 s.old_pc 4)
      ok (elim target [ none ↦ false | some pc ↦ not (would_hit s.cpu.icache pc) ])

-- The store that is presented once more.
unfoldable pub replay : Cache → ℕ → Result Cache
replay dcache addr =
    let again = Cache.access dcache addr true in
    if not again.1.hit || not (again.1.stall_cycles == 0)
    then err (runtime_error "Expected D-cache filled-line replay hit after IF/D overlap")
    else ok again.0

abbrev pub replayed : Locals → Cache → Locals
replayed s dcache = record s {
  cpu = record s.cpu {
    dcache = dcache;
    dcache_ifstall_replays = add64 s.cpu.dcache_ifstall_replays 1;
  };
}

-- The two waits overlap.
unfoldable pub overlap : Locals → ℕ → ℕ → Result Locals
unfolding replay
overlap s addr credit =
    let cycles = add64 s.cpu.cache_overlap_cycles credit in
    let s = record s { cpu = record s.cpu { cache_overlap_cycles = cycles } } in
    if credit == 0 then ok s else do dcache ← replay s.cpu.dcache addr; ok (replayed s dcache)

abbrev pub store_to : Locals → ℕ → Memory → Locals
store_to s addr m =
    let s = dcache_access s addr true in record s { cpu = record s.cpu { data_memory = m } }

abbrev pub finish_store : Locals → ℕ → ℕ → ℕ → Locals
finish_store s dcache_stall ifetch_stall credit =
    let stalls = sub32 (add32 (add32 s.stalls ifetch_stall) dcache_stall) credit in
    let s = record s { stalls = stalls } in
    counted s (record s.cpu.stats { stores = add64 s.cpu.stats.stores 1 })

-- What a store does behind its first access.
unfoldable pub settle : Locals → ℕ → ℕ → ℕ → Result Locals
unfolding redirect_misses overlap cache_overlap_credit
settle s addr dcache_stall ifetch_stall = do
  overlaps ← redirect_misses s dcache_stall ifetch_stall
  let credit = if overlaps then cache_overlap_credit s.cpu dcache_stall else 0
  s ← if overlaps then overlap s addr credit else ok s
  ok (finish_store s dcache_stall ifetch_stall credit)

unfoldable pub store : ℕ → Locals → Result Locals
unfolding settle
store fuel s = do
  let addr = add32 (a_of s) (imm_s s.insn)
  m ← store_value (bits s.insn 14 12) s.cpu.data_memory addr (b_of s)
  let stall = (Cache.access s.cpu.dcache addr true).1.stall_cycles
  r ← on_dcache_stall fuel s.cpu.ifetch s.cpu.icache s.old_pc stall
  settle (with_fetch (store_to s addr m) r) addr stall r.stalls

abbrev pub op_imm_case : Locals → Result Locals
op_imm_case s = do
  let insn = s.insn
  value ← op_imm (bits insn 14 12) (bits insn 31 25) (bits insn 24 20) (a_of s) (imm_i insn)
  ok (count_alu (write_reg value s))

-- OP and the M extension
abbrev pub op_case : Locals → Result Locals
op_case s = do
  let funct7 = bits s.insn 31 25
  value ← op_or_muldiv (bits s.insn 14 12) funct7 (a_of s) (b_of s)
  let mul_div = record s.cpu.stats { mul_div = add64 s.cpu.stats.mul_div 1 }
  ok (write_reg value (if funct7 == 0x01 then counted s mul_div else count_alu s))

-- ECALL and EBREAK end the run.
abbrev pub system : Locals → Result Locals
system s =
    if s.insn == 0x00000073 || s.insn == 0x00100073
    then ok (record s { terminating = true; cpu = record s.cpu { halted = true } })
    else illegal "CSR/system instruction not implemented in Milestone 1"

unfoldable pub execute : ℕ → Locals → Result Locals
unfolding load store write_reg
execute fuel s =
    let opcode = bits s.insn 6 0 in
    if opcode == 0x37
    then ok (lui s)
    else if opcode == 0x17
    then ok (auipc s)
    else if opcode == 0x6f
    then ok (jal s)
    else if opcode == 0x67
    then jalr s
    else if opcode == 0x63
    then branch s
    else if opcode == 0x03
    then load fuel s
    else if opcode == 0x23
    then store fuel s
    else if opcode == 0x13
    then op_imm_case s
    else if opcode == 0x33
    then op_case s
    else if opcode == 0x0f
    then ok (count_alu s)
    else if opcode == 0x73
    then system s
    else illegal "unknown opcode"
