-- ===== src/Examples/Processor.antt =====
-- A processor with small memories and caches that multiplies, stores the product and halts.
use rv32im_so_c_performance.Base.{
  ℕ, ◌+◌, ◌*◌, ◌^◌, ◌%◌, ◌/◌, ◌≡◌, refl, true, false, some, ok, err, out_of_range, List, [], ◌∷◌,
  replicate, Result, arith,
}
use rv32im_so_c_performance.Base.Int.{pos, ◌+ℤ◌}
use rv32im_so_c_performance.Cache
use rv32im_so_c_performance.Cache.{configure, add32, access, is_power_of_two, index_of, tag_of}
use rv32im_so_c_performance.Cache.Consistent.{configure-IsConsistent}
use rv32im_so_c_performance.Fetch
use rv32im_so_c_performance.Fetch.{
  Fetch, ensure_through, walk, advance, issue, hold, on_dcache_stall, on_system_drain,
}
use rv32im_so_c_performance.Timing
use rv32im_so_c_performance.Timing.{bits, decode, retire, add_external_stalls}
use rv32im_so_c_performance.Memory.{Memory, zeroed, read8, read16, read32, write32, byte}
use rv32im_so_c_performance.Memory.Written.{IsWritten}
use rv32im_so_c_performance.Memory.ReadBack.{write32-read32}
use rv32im_so_c_performance.Words.{as_i32, sign_extend, ◌*ℤ◌}
use rv32im_so_c_performance.Alu.{mul, mulh, mulhsu, mulhu, div, rem, muldiv}
use rv32im_so_c_performance.Alu.Division.{IsQuotRem, div-IsQuotRem}
use rv32im_so_c_performance.Alu.Product.{mul-halves}
use rv32im_so_c_performance.Cpu
use rv32im_so_c_performance.Cpu.{Cpu, CpuConfig, zero_stats, construct, store_value, reg}
use rv32im_so_c_performance.Cpu.Locals.{Locals, write_reg, sequential_next_redirect_target}
use rv32im_so_c_performance.Cpu.Execute.{execute, store, settle, redirect_misses}
use rv32im_so_c_performance.Cpu.Step.{step, start, retire_one, redirect, finish, run}
use rv32im_so_c_performance.Cpu.Isa
use rv32im_so_c_performance.Cpu.Isa.{Effect}
use rv32im_so_c_performance.Cpu.Refines.{visible}
use rv32im_so_c_performance.Cpu.Valid.{IsValid}
use rv32im_so_c_performance.Cpu.Architecture.{step-visible}
use rv32im_so_c_performance.Cpu.Run.{Counted, EndsIn, run-EndsIn, run-visible}
use rv32im_so_c_performance.Cpu.Room.{IsRoomy}
use rv32im_so_c_performance.Cpu.Peek.{target_or, sequential_next_redirect_target-step}
use rv32im_so_c_performance.Cpu.Replay.{settle-replays}
use rv32im_so_c_performance.Memory.Bytes.{IsBytes}
use rv32im_so_c_performance.Examples.Simulator.{config, cache, configured, front, timing}

abbrev cpu_config : CpuConfig
cpu_config = record {
  memory_size = 16;
  reset_pc = 0;
  max_instructions = 10;
  tracing = true;
  icache = config;
  dcache = config;
}

-- `addi x1, x0, 5`, `mul x2, x1, x1`, `sw x2, 4(x0)`, `ecall`
abbrev program : Memory
program =
    0x93 ∷ 0x00 ∷ 0x50 ∷ 0x00 ∷ 0x33 ∷ 0x81 ∷ 0x10 ∷ 0x02 ∷ 0x23 ∷ 0x22 ∷ 0x20 ∷ 0x00 ∷ 0x73 ∷ 0x00
    ∷ 0x00 ∷ 0x00 ∷ []

abbrev empty : Cpu
empty = record {
  config = cpu_config;
  instruction_memory = program;
  data_memory = zeroed 16;
  regs = replicate 32 0;
  pc = 0;
  halted = false;
  cache_overlap_cycles = 0;
  dcache_ifstall_replays = 0;
  stats = Cpu.zero_stats;
  timing = Timing.reset timing;
  icache = cache;
  dcache = cache;
  ifetch = Fetch.reset front 0;
  trace = [];
}

abbrev cpu_or : Result Cpu → Cpu
cpu_or (ok c) = c
cpu_or (err e) = empty

constructed :
    construct timing (Fetch.reset front 0) cpu_config
    ≡ ok (record empty { instruction_memory = zeroed 16 })
unfolding construct configure is_power_of_two
constructed = refl

-- The machine before an instruction of the program.
abbrev machine : ℕ → List ℕ → Cpu
machine pc regs = record empty { pc = pc; regs = regs; ifetch = Fetch.reset front pc }

abbrev multiplying : Cpu
multiplying = machine 4 (0 ∷ 5 ∷ replicate 30 0)

abbrev multiplied : Cpu
multiplied = cpu_or (step 10 multiplying)

multiplies : (step 10 multiplying ≡ ok multiplied) × (reg multiplied.regs 2 ≡ 25)
unfolding step retire_one execute redirect finish write_reg muldiv mul ◌*ℤ◌ bits read32
    ensure_through walk advance issue access index_of tag_of retire decode add_external_stalls
    Cache.clean_miss_penalty Timing.reset Fetch.reset
multiplies = (refl, refl)

multiplying-IsValid : IsValid (visible multiplying)
multiplying-IsValid = record {
  count = refl;
  zero_is_zero = refl;
  words = omega arith;
  bytes = omega arith;
  pc_word = omega arith;
}

program-IsBytes : IsBytes program
program-IsBytes = omega arith

step-visible_example :
    (Isa.step program (visible multiplying) ≡ ok (visible multiplied))
    × IsValid (visible multiplied)
step-visible_example =
    step-visible 10 multiplying multiplied multiplying-IsValid program-IsBytes multiplies.0

abbrev storing : Cpu
storing = machine 8 (0 ∷ 5 ∷ 25 ∷ replicate 29 0)

abbrev stored : Cpu
stored = cpu_or (step 10 storing)

stores : (step 10 storing ≡ ok stored) × (byte stored.data_memory 4 ≡ 25)
unfolding step retire_one execute store settle redirect_misses sequential_next_redirect_target
    store_value write32 redirect finish bits read32 sign_extend ensure_through walk advance issue
    hold on_dcache_stall access index_of tag_of retire decode add_external_stalls
    Cache.clean_miss_penalty Timing.reset Fetch.reset
stores = (refl, refl)

abbrev ending : Cpu
ending = machine 12 (replicate 32 0)

abbrev ended : Cpu
ended = cpu_or (run 2 10 ending)

ends : run 2 10 ending ≡ ok ended
unfolding run step retire_one execute redirect finish bits read32 ensure_through walk advance issue
    hold on_system_drain access index_of tag_of retire decode add_external_stalls
    Cache.clean_miss_penalty Timing.reset Fetch.reset
ends = refl

ending-IsValid : IsValid (visible ending)
ending-IsValid = record {
  count = refl;
  zero_is_zero = refl;
  words = omega arith;
  bytes = omega arith;
  pc_word = omega arith;
}

ending-Counted : Counted ending
unfolding Timing.reset
ending-Counted = refl

run-visible_example :
    (Isa.run 2 program (visible ending) ≡ ok (visible ended))
    × (ended.halted ≡ true)
    × IsValid (visible ended)
run-visible_example =
    run-visible 2 10 ending ended ending-Counted ending-IsValid program-IsBytes ends

ending-IsRoomy : IsRoomy 10 ending.instruction_memory ending.ifetch.config
unfolding Fetch.reset
ending-IsRoomy = record {
  dcache_hold_ahead = (omega arith, omega arith);
  system_lookahead = (omega arith, omega arith);
  branch_wrong_path = (omega arith, omega arith);
  jump_wrong_path = (omega arith, omega arith);
}

run-EndsIn_example : EndsIn 10 ending (run 11 10 ending)
run-EndsIn_example =
    run-EndsIn 10 10 ending ending-Counted (omega arith) (omega arith) ending-IsRoomy

abbrev word : ℕ
word = 0x12345678

written : write32 (zeroed 8) 4 word ≡ ok (0 ∷ 0 ∷ 0 ∷ 0 ∷ 0x78 ∷ 0x56 ∷ 0x34 ∷ 0x12 ∷ [])
unfolding write32
written = refl

abbrev after : Memory
after = 0 ∷ 0 ∷ 0 ∷ 0 ∷ 0x78 ∷ 0x56 ∷ 0x34 ∷ 0x12 ∷ []

write32-read32_example :
    (read32 after 4 ≡ ok word)
    × (read16 after 4 ≡ ok (word % 65536))
    × (read16 after (4 + 2) ≡ ok (word / 65536))
    × (read8 after 4 ≡ ok (word % 256))
    × IsWritten 4 (zeroed 8) 4 word after
write32-read32_example = write32-read32 (zeroed 8) 4 word after (omega arith) written

-- -7 by 2
div-IsQuotRem_example :
    IsQuotRem (as_i32 0xfffffff9) (as_i32 2) (as_i32 (div 0xfffffff9 2)) (as_i32 (rem 0xfffffff9 2))
div-IsQuotRem_example = div-IsQuotRem 0xfffffff9 2 (omega arith) (omega arith) (omega arith) refl

mul-halves_example :
    (mul 0xfffffff9 3 + mulhu 0xfffffff9 3 * 2 ^ 32 ≡ 0xfffffff9 * 3)
    × (pos (mul 0xfffffff9 3) +ℤ as_i32 (mulh 0xfffffff9 3) *ℤ pos (2 ^ 32)
        ≡ as_i32 0xfffffff9 *ℤ as_i32 3)
    × (pos (mul 0xfffffff9 3) +ℤ as_i32 (mulhsu 0xfffffff9 3) *ℤ pos (2 ^ 32)
        ≡ as_i32 0xfffffff9 *ℤ pos 3)
mul-halves_example = mul-halves 0xfffffff9 3 (omega arith) (omega arith)

-- `jal x0, 8`
abbrev jumping : Memory
jumping = 0x6f ∷ 0x00 ∷ 0x80 ∷ 0x00 ∷ []

abbrev jumped : Effect
jumped = record { regs = replicate 32 0; memory = []; pc = 8; halted = false }

jumps :
    (sequential_next_redirect_target jumping (replicate 32 0) 0 ≡ ok (some 8))
    × (Isa.step jumping (record { regs = replicate 32 0; memory = []; pc = 0; halted = false })
        ≡ ok jumped)
unfolding sequential_next_redirect_target Isa.step Isa.execute bits read32 sign_extend
jumps = (refl, refl)

sequential_next_redirect_target-step_example : jumped.pc ≡ target_or (add32 0 4) (some 8)
sequential_next_redirect_target-step_example =
    sequential_next_redirect_target-step jumping (replicate 32 0) 0 (some 8) [] jumped jumps.0
      jumps.1

-- A store whose successor is not in the instruction memory.
abbrev alone : Locals
alone =
    start (record empty { instruction_memory = []; dcache = (access cache 0 true).0 }) 0
      (record { fetch = front; icache = cache; stalls = 0 })

fails : settle alone 0 7 7 ≡ err out_of_range
unfolding settle redirect_misses sequential_next_redirect_target read32
fails = refl

settle-replays_example : out_of_range ≡ out_of_range
settle-replays_example =
    settle-replays cache 0 alone 7 7 out_of_range (configure-IsConsistent config cache configured)
      (omega arith) refl fails
