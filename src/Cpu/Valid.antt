-- ===== src/Cpu/Valid.antt =====
-- The registers, the data memory and the program counter of a valid machine, and the instructions of
-- the instruction set, which keep it valid.
use Prim.Native.Nat.{bit_and}
use rv32im_so_c_performance.Base.{
  ℕ, zero, suc, ◌%◌, ◌^◌, ◌<◌, ◌≡◌, Bool, true, false, not, ◌||◌, List, [], ◌∷◌, ◌==◌,
  if◌then◌else◌, Result, ok, err, ◌>>=◌, Ensures, Ensures-if, Ensures->>=, Ensures-any, set, length,
  length-set, ◌∙◌, All, All-set, All-get_or, arith,
}
use rv32im_so_c_performance.Cache.{add32}
use rv32im_so_c_performance.Timing.{bits}
use rv32im_so_c_performance.Words.{sign_extend}
use rv32im_so_c_performance.Words.Bounds.{and-lt}
use rv32im_so_c_performance.Memory.{Memory, read8, read16}
use rv32im_so_c_performance.Memory.Bytes.{
  IsBytes, Kept, read8-lt, read16-lt, read32-lt, write8-IsBytes, write16-IsBytes, write32-IsBytes,
}
use rv32im_so_c_performance.Alu.{branch_test, op_or_muldiv, op, muldiv}
use rv32im_so_c_performance.Alu.Words32.{IsWord, op_imm-IsWord, op-IsWord, muldiv-IsWord}
use rv32im_so_c_performance.Cpu.{imm_i, imm_s, imm_b, imm_j, imm_u, reg, load_value, store_value}
use rv32im_so_c_performance.Cpu.Isa
use rv32im_so_c_performance.Cpu.Isa.{Effect, write}

-- There are 32 registers, all of them words, and x0 is 0; the data memory holds bytes; the program
-- counter is a word.
pub record IsValid (e : Effect) : Type 0 where
  pub count : length e.regs ≡ 32
  pub zero_is_zero : reg e.regs 0 ≡ 0
  pub words : All IsWord e.regs
  pub bytes : IsBytes e.memory
  pub pc_word : IsWord e.pc

sign_extend-IsWord : (value width : ℕ) → IsWord (sign_extend value width)
unfolding sign_extend
sign_extend-IsWord value width = omega arith

load_value-IsWord :
    (funct3 : ℕ) (m : Memory) (addr : ℕ) → IsBytes m → Ensures IsWord (load_value funct3 m addr)
unfolding load_value
load_value-IsWord funct3 m addr h =
    Ensures-if IsWord (funct3 == 0x0) _ _
      (Ensures->>= (λ _. Unit {0}) IsWord (read8 m addr) _ (Ensures-any (read8 m addr))
        (λ v _. sign_extend-IsWord v 8))
      (Ensures-if IsWord (funct3 == 0x1) _ _
        (Ensures->>= (λ _. Unit {0}) IsWord (read16 m addr) _ (Ensures-any (read16 m addr))
          (λ v _. sign_extend-IsWord v 16))
        (Ensures-if IsWord (funct3 == 0x2) _ _ (read32-lt m addr h) (
          Ensures-if IsWord (funct3 == 0x4) _ _
            (widen (2 ^ 8) (read8 m addr) (omega arith) (read8-lt m addr h))
            (Ensures-if IsWord (funct3 == 0x5) _ _
              (widen (2 ^ 16) (read16 m addr) (omega arith) (read16-lt m addr h)) tt))))
  where
    widen : (k : ℕ) (r : Result ℕ) → k < 2 ^ 32 → Ensures (λ v. v < k) r → Ensures IsWord r
    widen k (err e) h i = tt
    widen k (ok v) h i = omega arith

store_value-IsBytes :
    (funct3 : ℕ) (m : Memory) (addr b : ℕ)
    → IsBytes m
    → Ensures (Kept m) (store_value funct3 m addr b)
unfolding store_value
store_value-IsBytes funct3 m addr b h =
    Ensures-if (Kept m) (funct3 == 0x0) _ _ (write8-IsBytes m addr (b % 2 ^ 8) h (omega arith)) (
      Ensures-if (Kept m) (funct3 == 0x1) _ _ (write16-IsBytes m addr (b % 2 ^ 16) h)
        (Ensures-if (Kept m) (funct3 == 0x2) _ _ (write32-IsBytes m addr b h) tt))

nonzero : (n : ℕ) → (suc n == 0) ≡ false
nonzero n = ground arith

write-IsValid :
    (regs : List ℕ) (m : Memory) (pc rd value next : ℕ) (halted : Bool)
    → IsValid (record { regs = regs; memory = m; pc = pc; halted = false })
    → IsWord value
    → IsWord next
    → IsValid (record { regs = write regs rd value; memory = m; pc = next; halted = halted })
write-IsValid regs m pc zero value next halted v w n = record {
  count = v.count;
  zero_is_zero = v.zero_is_zero;
  words = v.words;
  bytes = v.bytes;
  pc_word = n;
}
write-IsValid regs m pc (suc rd) value next halted v w n = record {
  count = rw (nonzero rd) (length-set regs (suc rd) value ∙ v.count);
  zero_is_zero = rw (nonzero rd) (behind regs v.zero_is_zero);
  words = rw (nonzero rd) (All-set IsWord regs (suc rd) value v.words w);
  bytes = v.bytes;
  pc_word = n;
}
  where
    behind : (regs : List ℕ) → reg regs 0 ≡ 0 → reg (set regs (suc rd) value) 0 ≡ 0
    behind [] h = h
    behind (x ∷ xs) h = h

-- A machine before an instruction, which is a word of the instruction memory.
module _ (insn pc : ℕ) (regs : List ℕ) (m : Memory) (insn_word : IsWord insn)
    (v : IsValid (record { regs = regs; memory = m; pc = pc; halted = false })) where
  reg-IsWord : (index : ℕ) → IsWord (reg regs index)
  reg-IsWord index = All-get_or IsWord 0 regs index v.words (omega arith)

  add32-IsWord : (x y : ℕ) → IsWord (add32 x y)
  add32-IsWord x y = omega arith

  even-IsWord : (x y : ℕ) → IsWord (bit_and (add32 x y) 0xfffffffe)
  even-IsWord x y = and-lt 32 (add32 x y) 0xfffffffe (add32-IsWord x y) (omega arith)

  result-IsValid : (value : ℕ) → IsWord value → IsValid (Isa.result insn pc regs m value)
  result-IsValid value w =
      write-IsValid regs m pc (bits insn 11 7) value (add32 pc 4) false v w (add32-IsWord pc 4)

  linked-IsValid : (target : ℕ) → IsWord target → IsValid (Isa.linked insn pc regs m target)
  linked-IsValid target w =
      write-IsValid regs m pc (bits insn 11 7) (add32 pc 4) target false v (add32-IsWord pc 4) w

  -- Control goes on, and the memory may have changed.
  onward-IsValid :
      (after : Memory) (next : ℕ) (halted : Bool)
      → IsBytes after
      → IsWord next
      → IsValid (record { regs = regs; memory = after; pc = next; halted = halted })
  onward-IsValid after next halted h w = record {
    count = v.count;
    zero_is_zero = v.zero_is_zero;
    words = v.words;
    bytes = h;
    pc_word = w;
  }

  value-IsValid :
      (r : Result ℕ)
      → Ensures IsWord r
      → Ensures IsValid (r >>= λ value. ok (Isa.result insn pc regs m value))
  value-IsValid r h = Ensures->>= IsWord IsValid r _ h result-IsValid

  branch-IsValid : Ensures IsValid (Isa.branch insn pc regs m)
  branch-IsValid =
      let test =
        branch_test (bits insn 14 12) (reg regs (bits insn 19 15)) (reg regs (bits insn 24 20)) in
      Ensures->>= (λ _. Unit {0}) IsValid test _ (Ensures-any test)
        (λ take _. onward-IsValid m _ false v.bytes (target take))
    where
      target : (take : Bool) → IsWord (if take then add32 pc (imm_b insn) else add32 pc 4)
      target true = add32-IsWord pc (imm_b insn)
      target false = add32-IsWord pc 4

  store-IsValid : Ensures IsValid (Isa.store insn pc regs m)
  store-IsValid =
      let addr = add32 (reg regs (bits insn 19 15)) (imm_s insn) in
      let b = reg regs (bits insn 24 20) in
      Ensures->>= (Kept m) IsValid (store_value (bits insn 14 12) m addr b) _
        (store_value-IsBytes (bits insn 14 12) m addr b v.bytes)
        (λ after k. onward-IsValid after (add32 pc 4) false k.0 (add32-IsWord pc 4))

  op-IsValid : Ensures IsValid (Isa.op_case insn pc regs m)
  op-IsValid =
      let a = reg regs (bits insn 19 15) in
      let b = reg regs (bits insn 24 20) in
      let f3 = bits insn 14 12 in
      let f7 = bits insn 31 25 in
      value-IsValid (op_or_muldiv f3 f7 a b) (
        Ensures-if IsWord (f7 == 0x01) (muldiv f3 a b) (op f3 f7 a b)
          (muldiv-IsWord f3 f7 0 a b (reg-IsWord _) (reg-IsWord _))
          (op-IsWord f3 f7 0 a b (reg-IsWord _) (reg-IsWord _)))

  -- An instruction keeps a machine valid.
  pub execute-IsValid : Ensures IsValid (Isa.execute insn pc regs m)
  unfolding Isa.execute
  execute-IsValid =
      let opcode = bits insn 6 0 in
      let imm_u-IsWord = and-lt 32 insn 0xfffff000 insn_word (omega arith) in
      Ensures-if IsValid (opcode == 0x37) _ _ (result-IsValid (imm_u insn) imm_u-IsWord) (
        Ensures-if IsValid (opcode == 0x17) _ _ (result-IsValid _ (add32-IsWord pc (imm_u insn))) (
          Ensures-if IsValid (opcode == 0x6f) _ _ (linked-IsValid _ (add32-IsWord pc (imm_j insn)))
            (Ensures-if IsValid (opcode == 0x67) _ _
              (Ensures-if IsValid (not (bits insn 14 12 == 0)) _ _ tt
                (linked-IsValid _ (even-IsWord _ (imm_i insn))))
              (Ensures-if IsValid (opcode == 0x63) _ _ branch-IsValid (
                Ensures-if IsValid (opcode == 0x03) _ _
                  (value-IsValid _ (load_value-IsWord (bits insn 14 12) m _ v.bytes))
                  (Ensures-if IsValid (opcode == 0x23) _ _ store-IsValid (
                    Ensures-if IsValid (opcode == 0x13) _ _
                      (value-IsValid _ (
                        op_imm-IsWord (bits insn 14 12) (bits insn 31 25) (bits insn 24 20) _ _
                          (reg-IsWord _) (sign_extend-IsWord _ 12)))
                      (Ensures-if IsValid (opcode == 0x33) _ _ op-IsValid (
                        Ensures-if IsValid (opcode == 0x0f) _ _
                          (onward-IsValid m _ false v.bytes (add32-IsWord pc 4))
                          (Ensures-if IsValid (opcode == 0x73) _ _
                            (Ensures-if IsValid (insn == 0x00000073 || insn == 0x00100073) _ _
                              (onward-IsValid m _ true v.bytes (add32-IsWord pc 4)) tt)
                            tt))))))))))
