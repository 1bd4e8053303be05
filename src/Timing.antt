-- ===== src/Timing.antt =====
-- src/PipelineTimingModel.cpp and include/rv32im/PipelineTimingModel.hpp: the analytical timing of the
-- five-stage pipeline. Every counter is 64 bits wide and wraps around; the penalties are 32-bit words.
pub mod Counters
pub mod Cycles
use Prim.Native.Nat.{bit_and}
use rv32im_so_c_performance.Base.{
  ℕ, ◌+◌, ◌-◌, ◌/◌, ◌^◌, Bool, true, false, not, ◌&&◌, ◌||◌, ◌==◌, ltb, leb, if◌then◌else◌,
}
use rv32im_so_c_performance.Cache.{add64}

pub record TimingConfig : Type 0 where
  pub pipeline_depth : ℕ
  pub load_use_penalty : ℕ
  pub taken_branch_penalty : ℕ
  pub jump_redirect_penalty : ℕ
  pub divider_latency : ℕ
  pub divider_initiation_interval : ℕ

pub record TimingStats : Type 0 where
  pub retired : ℕ
  pub base_instruction_cycles : ℕ
  pub pipeline_fill_drain : ℕ
  pub load_use_stalls : ℕ
  pub branch_redirect_stalls : ℕ
  pub jump_redirect_stalls : ℕ
  pub divider_stalls : ℕ
  pub total_cycles : ℕ

pub record RetireResult : Type 0 where
  pub retire_cycle : ℕ
  pub load_use_hazard : Bool
  pub taken_branch_redirect : Bool
  pub jump_redirect : Bool
  pub divider_startup_stall : Bool

pub record Decoded : Type 0 where
  pub uses_rs1 : Bool
  pub uses_rs2 : Bool
  pub is_load : Bool
  pub is_branch : Bool
  pub is_jump : Bool
  pub is_div_rem : Bool
  pub rs1 : ℕ
  pub rs2 : ℕ
  pub rd : ℕ

pub record Pipeline : Type 0 where
  pub config : TimingConfig
  pub stats : TimingStats
  pub previous_was_load : Bool
  pub previous_load_rd : ℕ
  pub previous_was_div_rem : Bool
  pub accumulated_stalls : ℕ

unfoldable pub bits : ℕ → ℕ → ℕ → ℕ
bits value hi lo =
    let width = hi - lo + 1 in
    let mask = if width == 32 then 0xffffffff else 2 ^ width - 1 in bit_and (value / 2 ^ lo) mask

-- The switch of decode, on the opcode.
abbrev of_opcode : ℕ → ℕ → Decoded
of_opcode insn opcode =
    let info : Decoded = record {
      uses_rs1 = false;
      uses_rs2 = false;
      is_load = false;
      is_branch = false;
      is_jump = false;
      is_div_rem = false;
      rs1 = bits insn 19 15;
      rs2 = bits insn 24 20;
      rd = bits insn 11 7;
    } in
    if opcode == 0x67
    then record info { uses_rs1 = true; is_jump = true }
    else if opcode == 0x6f
    then record info { is_jump = true }
    else if opcode == 0x63
    then record info { uses_rs1 = true; uses_rs2 = true; is_branch = true }
    else if opcode == 0x03
    then record info { uses_rs1 = true; is_load = true }
    else if opcode == 0x23
    then record info { uses_rs1 = true; uses_rs2 = false }
    else if opcode == 0x13
    then record info { uses_rs1 = true }
    else if opcode == 0x33
    then record info {
      uses_rs1 = true;
      uses_rs2 = true;
      is_div_rem = bits insn 31 25 == 0x01 && leb 0x04 (bits insn 14 12);
    }
    else info

unfoldable pub decode : ℕ → Decoded
decode insn = of_opcode insn (bits insn 6 0)

abbrev pub zero_stats : TimingStats
zero_stats = record {
  retired = 0;
  base_instruction_cycles = 0;
  pipeline_fill_drain = 0;
  load_use_stalls = 0;
  branch_redirect_stalls = 0;
  jump_redirect_stalls = 0;
  divider_stalls = 0;
  total_cycles = 0;
}

unfoldable pub reset : TimingConfig → Pipeline
reset config = record {
  config = config;
  stats = zero_stats;
  previous_was_load = false;
  previous_load_rd = 0;
  previous_was_div_rem = false;
  accumulated_stalls = 0;
}

unfoldable pub add_external_stalls : Pipeline → ℕ → Pipeline
add_external_stalls p cycles = record p { accumulated_stalls = add64 p.accumulated_stalls cycles }

-- Whether the instruction reads the register that the load before it fills.
abbrev pub load_use : Pipeline → Decoded → Bool
load_use p current =
    p.previous_was_load
    && not (p.previous_load_rd == 0)
    && ((current.uses_rs1 && current.rs1 == p.previous_load_rd)
        || (current.uses_rs2 && current.rs2 == p.previous_load_rd))

-- What a division or a remainder waits for: the start of a burst, or the initiation interval.
abbrev pub divider_penalty : TimingConfig → Bool → ℕ
divider_penalty config previous_was_div_rem =
    if not previous_was_div_rem
    then (if ltb 0 config.divider_latency then config.divider_latency - 1 else 0)
    else if ltb 1 config.divider_initiation_interval
    then config.divider_initiation_interval - 1
    else 0

abbrev pub fill_drain : TimingConfig → ℕ → ℕ
fill_drain config retired =
    if retired == 0 then 0 else if ltb 0 config.pipeline_depth then config.pipeline_depth - 1 else 0

-- `n += k` under a condition.
abbrev pub add_if : Bool → ℕ → ℕ → ℕ
add_if b n k = if b then add64 n k else n

-- retire, after decode.
abbrev pub retire_decoded : Pipeline → Decoded → Bool → Pipeline × RetireResult
retire_decoded p current branch_taken =
    let config = p.config in
    let hazard = load_use p current in
    let penalty = divider_penalty config p.previous_was_div_rem in
    let taken = current.is_branch && branch_taken in
    let loaded = add_if hazard p.accumulated_stalls config.load_use_penalty in
    let divided = add_if current.is_div_rem loaded penalty in
    let retired = add64 p.stats.retired 1 in
    let fill = fill_drain config retired in
    let branched = add_if taken divided config.taken_branch_penalty in
    let jumped = add_if current.is_jump branched config.jump_redirect_penalty in
    (
      record {
        config = config;
        stats = record {
          retired = retired;
          base_instruction_cycles = retired;
          pipeline_fill_drain = fill;
          load_use_stalls = add_if hazard p.stats.load_use_stalls config.load_use_penalty;
          branch_redirect_stalls =
              add_if taken p.stats.branch_redirect_stalls config.taken_branch_penalty;
          jump_redirect_stalls =
              add_if current.is_jump p.stats.jump_redirect_stalls config.jump_redirect_penalty;
          divider_stalls = add_if current.is_div_rem p.stats.divider_stalls penalty;
          total_cycles = add64 (add64 retired fill) jumped;
        };
        previous_was_load = current.is_load;
        previous_load_rd = if current.is_load then current.rd else 0;
        previous_was_div_rem = current.is_div_rem;
        accumulated_stalls = jumped;
      },
      record {
        retire_cycle = add64 (add64 retired fill) divided;
        load_use_hazard = hazard;
        taken_branch_redirect = taken;
        jump_redirect = current.is_jump;
        divider_startup_stall =
            current.is_div_rem && not p.previous_was_div_rem && not (penalty == 0);
      },
    )

unfoldable pub retire : Pipeline → ℕ → Bool → Pipeline × RetireResult
retire p insn branch_taken = retire_decoded p (decode insn) branch_taken
