-- ===== src/Cpu.antt =====
-- src/CpuModel.cpp and include/rv32im/CpuModel.hpp: the processor of the simulator, on its memories,
-- its caches, its front end and its timing model. Here: the state, the fields of an instruction, and the
-- cases of the switch that are computations on the registers. Registers and addresses are 32-bit words,
-- counters are 64 bits wide, and `stalls` is a 32-bit word; all of them wrap around.
pub mod Locals
pub mod Execute
pub mod Step
pub mod Isa
pub mod Valid
pub mod Refines
pub mod Architecture
pub mod Fixed
pub mod Ends
pub mod Room
pub mod Run
pub mod Peek
pub mod Replay
use rv32im_so_c_performance.Base.{
  ℕ, ◌+◌, ◌-◌, ◌*◌, ◌/◌, ◌%◌, ◌^◌, Bool, true, false, not, List, [], ◌==◌, if◌then◌else◌, Option,
  none, some, Result, ok, ◌>>=◌, get_or, set, replicate,
}
use Prim.Native.Nat.{bit_and, bit_or}
use rv32im_so_c_performance.Cache
use rv32im_so_c_performance.Cache.{CacheConfig, Cache, add64}
use rv32im_so_c_performance.Fetch
use rv32im_so_c_performance.Fetch.{Fetch, FetchConfig}
use rv32im_so_c_performance.Timing
use rv32im_so_c_performance.Timing.{TimingConfig, Pipeline, bits}
use rv32im_so_c_performance.Memory.{Memory, zeroed, read8, read16, read32, write8, write16, write32}
use rv32im_so_c_performance.Words.{sign_extend, shl32}
use rv32im_so_c_performance.Alu.{illegal}
use rv32im_so_c_performance.Trace.Writer.{RetireEvent}

pub record PerformanceStats : Type 0 where
  pub cycles : ℕ
  pub retired : ℕ
  pub alu : ℕ
  pub branches : ℕ
  pub branches_taken : ℕ
  pub loads : ℕ
  pub stores : ℕ
  pub mul_div : ℕ
  pub jumps : ℕ
  pub base_instruction_cycles : ℕ
  pub pipeline_fill_drain : ℕ
  pub stall_load_use : ℕ
  pub stall_branch_redirect : ℕ
  pub stall_jump_redirect : ℕ
  pub stall_divider : ℕ
  pub stall_icache : ℕ
  pub stall_dcache : ℕ
  pub stall_cache_overlap : ℕ
  pub stall_axi : ℕ
  pub icache_pipeline_hold_replays : ℕ
  pub dcache_ifstall_replays : ℕ
  pub icache_accesses : ℕ
  pub icache_hits : ℕ
  pub icache_misses : ℕ
  pub dcache_accesses : ℕ
  pub dcache_hits : ℕ
  pub dcache_misses : ℕ
  pub dcache_writebacks : ℕ
  pub axi_read_transactions : ℕ
  pub axi_write_transactions : ℕ

abbrev pub zero_stats : PerformanceStats
zero_stats = record {
  cycles = 0;
  retired = 0;
  alu = 0;
  branches = 0;
  branches_taken = 0;
  loads = 0;
  stores = 0;
  mul_div = 0;
  jumps = 0;
  base_instruction_cycles = 0;
  pipeline_fill_drain = 0;
  stall_load_use = 0;
  stall_branch_redirect = 0;
  stall_jump_redirect = 0;
  stall_divider = 0;
  stall_icache = 0;
  stall_dcache = 0;
  stall_cache_overlap = 0;
  stall_axi = 0;
  icache_pipeline_hold_replays = 0;
  dcache_ifstall_replays = 0;
  icache_accesses = 0;
  icache_hits = 0;
  icache_misses = 0;
  dcache_accesses = 0;
  dcache_hits = 0;
  dcache_misses = 0;
  dcache_writebacks = 0;
  axi_read_transactions = 0;
  axi_write_transactions = 0;
}

-- `tracing`: a trace path is given. The configurations of the timing model and of the front end are
-- those of their constructors.
pub record CpuConfig : Type 0 where
  pub memory_size : ℕ
  pub reset_pc : ℕ
  pub max_instructions : ℕ
  pub tracing : Bool
  pub icache : CacheConfig
  pub dcache : CacheConfig

pub record Cpu : Type 0 where
  pub config : CpuConfig
  pub instruction_memory : Memory
  pub data_memory : Memory
  pub regs : List ℕ
  pub pc : ℕ
  pub halted : Bool
  pub cache_overlap_cycles : ℕ
  pub dcache_ifstall_replays : ℕ
  pub stats : PerformanceStats
  pub timing : Pipeline
  pub icache : Cache
  pub dcache : Cache
  pub ifetch : Fetch
  pub trace : List RetireEvent

-- The constructor, with the defaults of the timing model and of a front end.
unfoldable pub construct : TimingConfig → Fetch → CpuConfig → Result Cpu
construct timing ifetch config = do
  icache ← Cache.configure config.icache
  dcache ← Cache.configure config.dcache
  ok (record {
    config = config;
    instruction_memory = zeroed config.memory_size;
    data_memory = zeroed config.memory_size;
    regs = replicate 32 0;
    pc = config.reset_pc;
    halted = false;
    cache_overlap_cycles = 0;
    dcache_ifstall_replays = 0;
    stats = zero_stats;
    timing = Timing.reset timing;
    icache = icache;
    dcache = dcache;
    ifetch = ifetch;
    trace = [];
  })

unfoldable pub reset : Cpu → ℕ → Cpu
reset c pc = record c {
  regs = replicate 32 0;
  pc = pc;
  halted = false;
  cache_overlap_cycles = 0;
  dcache_ifstall_replays = 0;
  stats = zero_stats;
  timing = Timing.reset c.timing.config;
  icache = Cache.reset c.icache;
  dcache = Cache.reset c.dcache;
  ifetch = Fetch.reset c.ifetch pc;
}

-- The immediates, as bit patterns.
abbrev pub imm_i : ℕ → ℕ
imm_i insn = sign_extend (bits insn 31 20) 12

abbrev pub imm_s : ℕ → ℕ
imm_s insn = sign_extend (bit_or (shl32 (bits insn 31 25) 5) (bits insn 11 7)) 12

abbrev pub imm_b : ℕ → ℕ
imm_b insn =
    sign_extend
      (bit_or
        (bit_or (bit_or (shl32 (bits insn 31 31) 12) (shl32 (bits insn 7 7) 11))
          (shl32 (bits insn 30 25) 5))
        (shl32 (bits insn 11 8) 1))
      13

abbrev pub imm_j : ℕ → ℕ
imm_j insn =
    sign_extend
      (bit_or
        (bit_or (bit_or (shl32 (bits insn 31 31) 20) (shl32 (bits insn 19 12) 12))
          (shl32 (bits insn 20 20) 11))
        (shl32 (bits insn 30 21) 1))
      21

abbrev pub imm_u : ℕ → ℕ
imm_u insn = bit_and insn 0xfffff000

abbrev pub reg : List ℕ → ℕ → ℕ
reg regs index = get_or 0 regs index

-- The value that a load reads.
unfoldable pub load_value : ℕ → Memory → ℕ → Result ℕ
load_value funct3 m addr =
    if funct3 == 0x0
    then (do value ← read8 m addr; ok (sign_extend value 8))
    else if funct3 == 0x1
    then (do value ← read16 m addr; ok (sign_extend value 16))
    else if funct3 == 0x2
    then read32 m addr
    else if funct3 == 0x4
    then read8 m addr
    else if funct3 == 0x5
    then read16 m addr
    else illegal "load funct3"

-- The memory after a store.
unfoldable pub store_value : ℕ → Memory → ℕ → ℕ → Result Memory
store_value funct3 m addr b =
    if funct3 == 0x0
    then write8 m addr (b % 2 ^ 8)
    else if funct3 == 0x1
    then write16 m addr (b % 2 ^ 16)
    else if funct3 == 0x2
    then write32 m addr b
    else illegal "store funct3"
