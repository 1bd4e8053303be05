-- ===== src/Cpu/Peek.antt =====
-- `sequential_next_redirect_target` of src/CpuModel.cpp, which looks at the instruction behind a store,
-- against the instruction set.
use Prim.Native.Nat.{bit_and}
use rv32im_so_c_performance.Base.{
  ℕ, ◌≡◌, refl, ap, sym, ◌∙◌, Bool, true, false, ◌||◌, List, ◌==◌, if◌then◌else◌, Option, none,
  some, inl, inr, Bool-cases, Error, Result, ok, err, ◌>>=◌, >>=-eq-ok, Ensures, Ensures-if,
  Ensures-if_known, Ensures->>=, Ensures-any, Ensures-ok, arith,
}
use rv32im_so_c_performance.Cache.{add32}
use rv32im_so_c_performance.Timing.{bits}
use rv32im_so_c_performance.Memory.{Memory, read32}
use rv32im_so_c_performance.Alu.{branch_test, op_imm, op_or_muldiv}
use rv32im_so_c_performance.Cpu.{imm_i, imm_s, imm_b, reg, load_value, store_value}
use rv32im_so_c_performance.Cpu.Locals.{next_target, sequential_next_redirect_target}
use rv32im_so_c_performance.Cpu.Isa
use rv32im_so_c_performance.Cpu.Isa.{Effect}

-- Where control goes: to the target, if there is one.
abbrev pub target_or : ℕ → Option ℕ → ℕ
target_or next none = next
target_or next (some target) = target

module _ (insn pc : ℕ) (regs : List ℕ) (m : Memory) where
  abbrev opcode : ℕ
  opcode = bits insn 6 0

  abbrev a : ℕ
  a = reg regs (bits insn 19 15)

  abbrev b : ℕ
  b = reg regs (bits insn 24 20)

  abbrev peeked : ℕ
  peeked = target_or (add32 pc 4) (next_target opcode (bits insn 14 12) insn a b pc)

  abbrev Goes : Effect → Type 0
  Goes e = e.pc ≡ peeked

  -- Other opcodes go on.
  onward :
      (code : ℕ)
      → (opcode == code) ≡ true
      → (code == 0x6f || code == 0x67 || code == 0x63) ≡ false
      → add32 pc 4 ≡ peeked
  onward code e h = ground (arith, e, h)

  value-Goes :
      (r : Result ℕ)
      → add32 pc 4 ≡ peeked
      → Ensures Goes (r >>= λ value. ok (Isa.result insn pc regs m value))
  value-Goes r h = Ensures->>= (λ _. Unit {0}) Goes r _ (Ensures-any r) (λ value _. h)

  branch-Goes : (opcode == 0x63) ≡ true → Ensures Goes (Isa.branch insn pc regs m)
  branch-Goes e = given (branch_test (bits insn 14 12) a b) refl
    where
      given :
          (r : Result Bool)
          → branch_test (bits insn 14 12) a b ≡ r
          → Ensures Goes (
              r >>= λ take. ok (record (Isa.unchanged insn pc regs m) {
                pc = if take then add32 pc (imm_b insn) else add32 pc 4;
              }))
      given (ok true) h = ground (arith, e, h)
      given (ok false) h = ground (arith, e, h)
      given (err x) h = tt

  execute-Goes : Ensures Goes (Isa.execute insn pc regs m)
  unfolding Isa.execute
  execute-Goes =
      Ensures-if_known Goes (opcode == 0x37) _ _ (λ e. onward 0x37 e refl)
        (λ _.
          Ensures-if_known Goes (opcode == 0x17) _ _ (λ e. onward 0x17 e refl)
            (λ _.
              Ensures-if_known Goes (opcode == 0x6f) _ _ (λ e. ground (arith, e))
                (λ _.
                  Ensures-if_known Goes (opcode == 0x67) _ _ (λ e. ground (arith, e))
                    (λ _. Ensures-if_known Goes (opcode == 0x63) _ _ branch-Goes (λ _.
                      Ensures-if_known Goes (opcode == 0x03) _ _
                        (λ e.
                          value-Goes (load_value (bits insn 14 12) m (add32 a (imm_i insn)))
                            (onward 0x03 e refl))
                        (λ _.
                          Ensures-if_known Goes (opcode == 0x23) _ _
                            (λ e.
                              stored (store_value (bits insn 14 12) m (add32 a (imm_s insn)) b)
                                (onward 0x23 e refl))
                            (λ _.
                              Ensures-if_known Goes (opcode == 0x13) _ _
                                (λ e.
                                  value-Goes
                                    (op_imm (bits insn 14 12) (bits insn 31 25) (bits insn 24 20) a
                                      (imm_i insn))
                                    (onward 0x13 e refl))
                                (λ _.
                                  Ensures-if_known Goes (opcode == 0x33) _ _
                                    (λ e.
                                      value-Goes
                                        (op_or_muldiv (bits insn 14 12) (bits insn 31 25) a b)
                                        (onward 0x33 e refl))
                                    (λ _.
                                      Ensures-if_known Goes (opcode == 0x0f) _ _
                                        (λ e. onward 0x0f e refl)
                                        (λ _.
                                          Ensures-if_known Goes (opcode == 0x73) _ _
                                            (λ e.
                                              Ensures-if Goes
                                                (insn == 0x00000073 || insn == 0x00100073) _ _
                                                (onward 0x73 e refl) tt)
                                            (λ _. tt)))))))))))
    where
      stored :
          (r : Result Memory)
          → add32 pc 4 ≡ peeked
          → Ensures Goes
              (r >>= λ after. ok (record (Isa.unchanged insn pc regs m) { memory = after }))
      stored (ok after) h = h
      stored (err e) h = tt

-- Where the processor looks at the instruction behind a store and answers, and the instruction set
-- executes that instruction on the same registers, with any data memory, control goes to the target of
-- the answer, and in order where the answer has none.
pub sequential_next_redirect_target-step :
    (instructions : Memory) (regs : List ℕ) (next_pc : ℕ) (target : Option ℕ) (m : Memory)
    (e : Effect)
    → sequential_next_redirect_target instructions regs next_pc ≡ ok target
    → Isa.step instructions (record { regs = regs; memory = m; pc = next_pc; halted = false })
      ≡ ok e
    → e.pc ≡ target_or (add32 next_pc 4) target
unfolding sequential_next_redirect_target Isa.step
sequential_next_redirect_target-step instructions regs next_pc target m e looks steps =
    elim (Bool-cases (bit_and next_pc 0x3 == 0)) [
      | inr g ↦ absurd (misaligned (rw (g) at steps))
      | inl g ↦
          let (insn, reads, runs) = >>=-eq-ok (read32 instructions next_pc) _ (rw (g) at steps) in
          let goes =
            Ensures-ok (Goes insn next_pc regs m) _ e runs (execute-Goes insn next_pc regs m) in
          let (insn', reads', answers) =
            >>=-eq-ok (read32 instructions next_pc) _ (rw (g) at looks) in
          goes
          ∙ ap (λ i. peeked i next_pc regs m) (same_word insn insn' (sym reads ∙ reads'))
          ∙ ap (target_or (add32 next_pc 4)) (same_target _ answers)
    ]
  where
    misaligned : {x : Error} → ◌≡◌ {A = Result Effect} (err x) (ok e) → ⊥
    misaligned h = cc

    same_word : (i j : ℕ) → ok i ≡ ok j → i ≡ j
    same_word i j h = cc

    same_target : (t : Option ℕ) → ok t ≡ ok target → t ≡ target
    same_target t h = cc
