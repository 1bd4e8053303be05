-- ===== src/Cpu/Step.antt =====
-- `CpuModel::step` and `run` of src/CpuModel.cpp. `fuel` is that of the front end's loop. The loop of
-- `run` has fuel of its own, and is err out_of_fuel while it has not ended.
use Prim.Native.Nat.{bit_and}
use rv32im_so_c_performance.Base.{
  ℕ, zero, suc, ◌+◌, ◌-◌, ◌%◌, ◌^◌, Bool, false, not, List, [], ◌∷◌, ◌++◌, ltb, leb, ◌==◌,
  if◌then◌else◌, runtime_error, out_of_fuel, Result, ok, err, ◌>>=◌, set,
}
use rv32im_so_c_performance.Cache.{add32, add64}
use rv32im_so_c_performance.Fetch.{
  Fetched, ensure_through, on_taken_branch, on_jump_redirect, on_system_drain,
}
use rv32im_so_c_performance.Timing.{
  TimingStats, RetireResult, Pipeline, add_external_stalls, retire,
}
use rv32im_so_c_performance.Memory.{read32}
use rv32im_so_c_performance.Trace.Writer.{RetireEvent}
use rv32im_so_c_performance.Cpu.{PerformanceStats, Cpu}
use rv32im_so_c_performance.Cpu.Locals.{Locals}
use rv32im_so_c_performance.Cpu.Execute.{execute}

-- The variables before the switch, after the fetch.
abbrev pub start : Cpu → ℕ → Fetched → Locals
start c insn r = record {
  cpu = record c { ifetch = r.fetch; icache = r.icache };
  event = record {
    cycle = 0;
    retired = 0;
    pc = c.pc;
    insn = insn;
    rd = 0;
    wdata = 0;
    reg_write = false;
    mem_addr = 0;
    mem_read = false;
    mem_write = false;
  };
  insn = insn;
  old_pc = c.pc;
  next_pc = add32 c.pc 4;
  stalls = r.stalls;
  branch_taken = false;
  jump = false;
  terminating = false;
}

-- `regs_[0] = 0; pc_ = next_pc;`
abbrev pub commit : Locals → Locals
commit s = record s { cpu = record s.cpu { regs = set s.cpu.regs 0 0; pc = s.next_pc } }

-- A hook of the front end, under its condition.
abbrev pub hook : Bool → Result Fetched → Locals → Result Locals
hook b fetched s =
    if not b
    then ok s
    else fetched >>= λ r. ok (record s {
      stalls = add32 s.stalls r.stalls;
      cpu = record s.cpu { ifetch = r.fetch; icache = r.icache };
    })

unfoldable pub redirect : ℕ → Locals → Result Locals
redirect fuel s = do
  s ← hook s.branch_taken (on_taken_branch fuel s.cpu.ifetch s.cpu.icache s.old_pc s.next_pc) s
  s ← hook s.jump (on_jump_redirect fuel s.cpu.ifetch s.cpu.icache s.old_pc s.next_pc) s
  hook s.terminating (on_system_drain fuel s.cpu.ifetch s.cpu.icache s.old_pc) s

-- The repeated requests of effective load-use and divider holds.
abbrev pub hold_replays : Cpu → TimingStats → ℕ
hold_replays c t =
    let holds = add64 t.load_use_stalls t.divider_stalls in
    let duplicate = if ltb c.cache_overlap_cycles holds then c.cache_overlap_cycles else holds in
    if c.config.icache.enabled then (holds + 2 ^ 64 - duplicate) % 2 ^ 64 else 0

-- The statistics after an instruction; the counters of its class are those of the switch.
abbrev pub updated_stats : Cpu → TimingStats → PerformanceStats
updated_stats c t =
    let i = c.icache.stats in
    let d = c.dcache.stats in
    let replays = hold_replays c t in
    record c.stats {
      retired = t.retired;
      cycles = t.total_cycles;
      base_instruction_cycles = t.base_instruction_cycles;
      pipeline_fill_drain = t.pipeline_fill_drain;
      stall_load_use = t.load_use_stalls;
      stall_branch_redirect = t.branch_redirect_stalls;
      stall_jump_redirect = t.jump_redirect_stalls;
      stall_divider = t.divider_stalls;
      stall_icache = i.stall_cycles;
      stall_dcache = d.stall_cycles;
      stall_cache_overlap = c.cache_overlap_cycles;
      icache_pipeline_hold_replays = replays;
      icache_accesses = add64 i.accesses replays;
      icache_hits = add64 i.hits replays;
      icache_misses = i.misses;
      dcache_ifstall_replays = c.dcache_ifstall_replays;
      dcache_accesses = d.accesses;
      dcache_hits = d.hits;
      dcache_misses = d.misses;
      dcache_writebacks = d.writebacks;
      axi_read_transactions = add64 i.read_transactions d.read_transactions;
      axi_write_transactions = d.write_transactions;
    }

abbrev pub traced : Cpu → RetireEvent → List RetireEvent
traced c e = if c.config.tracing then c.trace ++ e ∷ [] else c.trace

abbrev recorded : Locals → Pipeline × RetireResult → Cpu
recorded s (timing, result) =
    let c = record s.cpu { timing = timing; stats = updated_stats s.cpu timing.stats } in
    let event = record s.event { cycle = result.retire_cycle; retired = timing.stats.retired } in
    record c { trace = traced c event }

unfoldable pub finish : Locals → Cpu
unfolding retire add_external_stalls
finish s = recorded s (retire (add_external_stalls s.cpu.timing s.stalls) s.insn s.branch_taken)

-- `step` behind its guards.
unfoldable pub retire_one : ℕ → Cpu → Result Cpu
retire_one fuel c = do
  insn ← read32 c.instruction_memory c.pc
  r ← ensure_through fuel c.ifetch c.icache c.pc
  s ← execute fuel (start c insn r)
  s ← redirect fuel (commit s)
  ok (finish s)

-- One instruction. The source returns whether the processor has not halted, which is in its state.
unfoldable pub step : ℕ → Cpu → Result Cpu
step fuel c =
    if c.halted
    then ok c
    else if leb c.config.max_instructions c.stats.retired
    then err (runtime_error "Maximum retired-instruction limit reached")
    else if not (bit_and c.pc 0x3 == 0)
    then err (runtime_error "Misaligned instruction fetch")
    else retire_one fuel c

unfoldable pub run : ℕ → ℕ → Cpu → Result Cpu
run zero fuel c = err out_of_fuel
run (suc n) fuel c = let rest = step fuel c >>= run n fuel in if not c.halted then rest else ok c
