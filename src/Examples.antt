-- ===== src/Examples.antt =====
-- Concrete traces, and the theorems applied to them.
mod Traces
mod Suites
mod Jumps
mod Choices
mod Words
mod Tables
mod Simulator
mod Gates
mod Study
mod Sweeps
mod Processor
use rv32im_so_c_performance.Base.{ℕ, Bool, true, false, List, [], ◌∷◌, ◌++◌, String}
use rv32im_so_c_performance.PyText.{Text, codes}
use rv32im_so_c_performance.Trace.Writer.{RetireEvent}

abbrev pub event : ℕ → ℕ → ℕ → ℕ → ℕ → RetireEvent
event cycle retired pc rd wdata = record {
  cycle = cycle;
  retired = retired;
  pc = pc;
  insn = 0x00500093;
  rd = rd;
  wdata = wdata;
  reg_write = true;
  mem_addr = 0;
  mem_read = false;
  mem_write = false;
}

-- Two instructions, and the same run with another result of the second.
abbrev pub model_events : List RetireEvent
model_events = event 5 1 0 1 5 ∷ event 6 2 4 2 0xfffffff9 ∷ []

abbrev pub rtl_events : List RetireEvent
rtl_events = event 5 1 0 1 5 ∷ event 7 2 4 2 0xfffffff9 ∷ []

abbrev pub wrong_events : List RetireEvent
wrong_events = event 5 1 0 1 5 ∷ event 6 2 4 2 7 ∷ []

abbrev pub lines : List String → Text
lines [] = []
lines (l ∷ ls) = codes l ++ 10 ∷ lines ls
