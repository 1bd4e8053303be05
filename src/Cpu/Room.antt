-- ===== src/Cpu/Room.antt =====
-- Where the instruction memory leaves room for the requests of the front end, `CpuModel::step` of
-- src/CpuModel.cpp ends, and the next step has the same room.
use rv32im_so_c_performance.Base.{
  ℕ, ◌+◌, ◌*◌, ◌^◌, ◌≤◌, ◌<◌, ◌≡◌, refl, sym, ◌∙◌, subst, not, leb, ◌==◌, length, ok, ◌>>=◌,
  Finishes, Finishes-if, Finishes->>=, arith,
}
use Prim.Native.Nat.{bit_and}
use rv32im_so_c_performance.Cache.{add32}
use rv32im_so_c_performance.Memory.{Memory, read32}
use rv32im_so_c_performance.Fetch.{FetchConfig, ensure_through}
use rv32im_so_c_performance.Fetch.Ends.{
  IsNear, Configured, ensure_through-Finishes, on_taken_branch-Finishes, on_jump_redirect-Finishes,
  on_system_drain-Finishes,
}
use rv32im_so_c_performance.Cpu.{Cpu}
use rv32im_so_c_performance.Cpu.Locals.{Locals}
use rv32im_so_c_performance.Cpu.Execute.{execute}
use rv32im_so_c_performance.Cpu.Step.{redirect, start, commit, finish, retire_one, step}
use rv32im_so_c_performance.Cpu.Ends.{Same, read32-inside, execute-Finishes, hook-Finishes}

-- `ahead` bytes behind the memory there is still a word, and the fuel goes as far.
abbrev pub HasRoom : ℕ → Memory → ℕ → Type 0
HasRoom fuel m ahead = (length m + ahead < 2 ^ 32) × (length m + ahead < 4 * fuel)

-- There is room for the requests that each hook of the front end makes ahead of an instruction.
pub record IsRoomy (fuel : ℕ) (m : Memory) (config : FetchConfig) : Type 0 where
  pub dcache_hold_ahead : HasRoom fuel m config.dcache_hold_ahead_bytes
  pub system_lookahead : HasRoom fuel m config.system_lookahead_bytes
  pub branch_wrong_path : HasRoom fuel m config.branch_wrong_path_bytes
  pub jump_wrong_path : HasRoom fuel m config.jump_wrong_path_bytes

near :
    (fuel : ℕ) (m : Memory) (pc ahead : ℕ)
    → HasRoom fuel m ahead
    → pc + 4 ≤ length m
    → IsNear fuel (add32 pc ahead)
near fuel m pc ahead (room, fuelled) inside = (omega arith, omega arith)

module _ (fuel : ℕ) (u : Locals) (m : Memory) (roomy : IsRoomy fuel m u.cpu.ifetch.config)
    (inside : u.old_pc + 4 ≤ length m) where
  ahead :
      (s : Locals) (bytes : FetchConfig → ℕ)
      → Same u s
      → HasRoom fuel m (bytes u.cpu.ifetch.config)
      → IsNear fuel (add32 s.old_pc (bytes s.cpu.ifetch.config))
  ahead s bytes (pc, config) room =
      rw (pc, config) (near fuel m u.old_pc (bytes u.cpu.ifetch.config) room inside)

  redirect-Finishes : (s : Locals) → Same u s → Finishes (Same u) (redirect fuel s)
  unfolding redirect
  redirect-Finishes s h =
      Finishes->>= (Same u) (Same u) _ _
        (hook-Finishes u s.branch_taken _ s h (
          on_taken_branch-Finishes fuel s.cpu.ifetch s.cpu.icache s.old_pc s.next_pc
            (ahead s (λ c. c.branch_wrong_path_bytes) h roomy.branch_wrong_path)))
        (λ t k.
          Finishes->>= (Same u) (Same u) _ _
            (hook-Finishes u t.jump _ t k (
              on_jump_redirect-Finishes fuel t.cpu.ifetch t.cpu.icache t.old_pc t.next_pc
                (ahead t (λ c. c.jump_wrong_path_bytes) k roomy.jump_wrong_path)))
            (λ v l. hook-Finishes u v.terminating _ v l (
              on_system_drain-Finishes fuel v.cpu.ifetch v.cpu.icache v.old_pc
                (ahead v (λ c. c.system_lookahead_bytes) l roomy.system_lookahead))))

  after_fetch-Finishes :
      (config : FetchConfig)
      → u.cpu.ifetch.config ≡ config
      → Finishes
          (λ (c : Cpu). c.ifetch.config ≡ config)
          (do s ← execute fuel u; s ← redirect fuel (commit s); ok (finish s))
  unfolding finish
  after_fetch-Finishes config same =
      Finishes->>= (Same u) _ (execute fuel u) _
        (execute-Finishes u fuel
          (ahead u (λ c. c.dcache_hold_ahead_bytes) (refl, refl) roomy.dcache_hold_ahead))
        (λ s h.
          Finishes->>= (Same u) _ (redirect fuel (commit s)) _ (redirect-Finishes (commit s) h)
            (λ t k. k.1 ∙ same))

pub step-Finishes :
    (fuel : ℕ) (c : Cpu)
    → IsRoomy fuel c.instruction_memory c.ifetch.config
    → Finishes (λ (d : Cpu). d.ifetch.config ≡ c.ifetch.config) (step fuel c)
unfolding step retire_one
step-Finishes fuel c roomy =
    let Kept : Cpu → Type 0 = λ d. d.ifetch.config ≡ c.ifetch.config in
    Finishes-if Kept c.halted (ok c) _ refl (
      Finishes-if Kept (leb c.config.max_instructions c.stats.retired) _ _ refl (
        Finishes-if Kept (not (bit_and c.pc 0x3 == 0)) _ _ refl (
          Finishes->>= (λ insn. c.pc + 4 ≤ length c.instruction_memory) Kept
            (read32 c.instruction_memory c.pc) _ (read32-inside c.instruction_memory c.pc)
            (λ insn inside.
              Finishes->>= (Configured c.ifetch.config) Kept
                (ensure_through fuel c.ifetch c.icache c.pc) _
                (ensure_through-Finishes fuel c.ifetch c.icache c.pc (
                  omega (arith, inside, roomy.dcache_hold_ahead),
                  omega (arith, inside, roomy.dcache_hold_ahead),
                ))
                (λ r h.
                  after_fetch-Finishes fuel (start c insn r) c.instruction_memory
                    (subst (IsRoomy fuel c.instruction_memory) (sym h) roomy) inside c.ifetch.config
                    h)))))
