-- ===== src/Fetch/Ends.antt =====
-- The hooks of src/IFetchStreamModel.cpp end: given fuel, and room behind the address, each returns with
-- the configuration that it had, or raises an exception of the program.
use rv32im_so_c_performance.Base.{
  ℕ, zero, suc, ◌+◌, ◌*◌, ◌%◌, ◌^◌, ◌≤◌, ◌<◌, ◌≡◌, refl, Bool, true, false, not, ◌||◌, ◌==◌, leb,
  inl, inr, Bool-cases, ok, Finishes, Finishes-if, Finishes->>=, arith,
}
use rv32im_so_c_performance.Cache.{Cache, add32}
use rv32im_so_c_performance.Fetch.{
  FetchConfig, Fetch, Fetched, issue, advance, walk, ensure_through, hold, on_dcache_stall,
  redirect, on_taken_branch, on_jump_redirect, on_system_drain,
}

-- An address below the last word, and fuel to go there from 0.
abbrev pub IsNear : ℕ → ℕ → Type 0
IsNear fuel target_pc = (target_pc + 4 < 2 ^ 32) × (target_pc + 4 < 4 * fuel)

abbrev pub Configured : FetchConfig → Fetched → Type 0
Configured config r = r.fetch.config ≡ config

issue-Configured :
    (config : FetchConfig) (r : Fetched) (pc : ℕ) (replay lookahead : Bool)
    → Configured config r
    → Configured config (issue r pc replay lookahead)
unfolding issue
issue-Configured config r pc replay lookahead h = ground (arith, h)

advance-Configured :
    (config : FetchConfig) (r : Fetched) (target_pc : ℕ)
    → Configured config r
    → Configured config (advance r target_pc)
unfolding advance
advance-Configured config r target_pc h =
    issue-Configured config r r.fetch.next_sequential_pc false
      (not (r.fetch.next_sequential_pc == target_pc)) h

advance-next :
    (r : Fetched) (target_pc : ℕ)
    → (advance r target_pc).fetch.next_sequential_pc ≡ (r.fetch.next_sequential_pc + 4) % 2 ^ 32
unfolding advance issue
advance-next r target_pc = refl

walk-Finishes :
    (config : FetchConfig) (fuel : ℕ) (r : Fetched) (target_pc : ℕ)
    → Configured config r
    → target_pc + 4 < 2 ^ 32
    → target_pc + 4 < r.fetch.next_sequential_pc + 4 * fuel
    → 0 < fuel
    → Finishes (Configured config) (walk fuel r target_pc)
unfolding walk
walk-Finishes config zero r target_pc h room near fuelled = absurd (omega arith)
walk-Finishes config (suc fuel) r target_pc h room near fuelled =
    elim (Bool-cases (leb r.fetch.next_sequential_pc target_pc)) [
      | inl before ↦
          let before' : r.fetch.next_sequential_pc ≤ target_pc = ground (arith, before) in
          let next = advance-next r target_pc in
          rw before (
            walk-Finishes config fuel (advance r target_pc) target_pc
              (advance-Configured config r target_pc h) room (omega (arith, next, before'))
              (omega (arith, before')))
      | inr past ↦ rw past h
    ]

pub ensure_through-Finishes :
    (fuel : ℕ) (f : Fetch) (icache : Cache) (target_pc : ℕ)
    → IsNear fuel target_pc
    → Finishes (Configured f.config) (ensure_through fuel f icache target_pc)
unfolding ensure_through
ensure_through-Finishes fuel f icache target_pc (room, near) =
    let start : Fetched = record { fetch = f; icache = icache; stalls = 0 } in
    Finishes-if (Configured f.config) (not icache.config.enabled) (ok start) _ refl (
      Finishes-if (Configured f.config) (not (target_pc % 4 == 0)) _ _ refl
        (walk-Finishes f.config fuel start target_pc refl room (omega arith) (omega arith)))

hold-Configured :
    (config : FetchConfig) (n : ℕ) (r : Fetched) (pc : ℕ) (lookahead : Bool)
    → Configured config r
    → Configured config (hold n r pc lookahead)
unfolding hold
hold-Configured config zero r pc lookahead h = h
hold-Configured config (suc n) r pc lookahead h =
    hold-Configured config n (issue r pc true lookahead) pc lookahead
      (issue-Configured config r pc true lookahead h)

module _ (fuel : ℕ) (f : Fetch) (icache : Cache) (pc : ℕ) where
  abbrev P : Fetched → Type 0
  P = Configured f.config

  pub on_dcache_stall-Finishes :
      (cycles : ℕ)
      → IsNear fuel (add32 pc f.config.dcache_hold_ahead_bytes)
      → Finishes P (on_dcache_stall fuel f icache pc cycles)
  unfolding on_dcache_stall
  on_dcache_stall-Finishes cycles near =
      let held_pc = add32 pc f.config.dcache_hold_ahead_bytes in
      Finishes-if P (not icache.config.enabled || cycles == 0) _ _ refl (
        Finishes->>= P P (ensure_through fuel f icache held_pc) _
          (ensure_through-Finishes fuel f icache held_pc near)
          (λ r h. hold-Configured f.config cycles r held_pc false h))

  redirect-Finishes :
      (wrong_path_bytes target_pc : ℕ)
      → IsNear fuel (add32 pc wrong_path_bytes)
      → Finishes P (redirect fuel f icache wrong_path_bytes pc target_pc)
  redirect-Finishes wrong_path_bytes target_pc near =
      Finishes-if P (not icache.config.enabled) _ _ refl (
        Finishes->>= P P (ensure_through fuel f icache (add32 pc wrong_path_bytes)) _
          (ensure_through-Finishes fuel f icache (add32 pc wrong_path_bytes) near) (λ r h. h))

  pub on_taken_branch-Finishes :
      (target_pc : ℕ)
      → IsNear fuel (add32 pc f.config.branch_wrong_path_bytes)
      → Finishes P (on_taken_branch fuel f icache pc target_pc)
  unfolding on_taken_branch
  on_taken_branch-Finishes target_pc near =
      redirect-Finishes f.config.branch_wrong_path_bytes target_pc near

  pub on_jump_redirect-Finishes :
      (target_pc : ℕ)
      → IsNear fuel (add32 pc f.config.jump_wrong_path_bytes)
      → Finishes P (on_jump_redirect fuel f icache pc target_pc)
  unfolding on_jump_redirect
  on_jump_redirect-Finishes target_pc near =
      redirect-Finishes f.config.jump_wrong_path_bytes target_pc near

  pub on_system_drain-Finishes :
      IsNear fuel (add32 pc f.config.system_lookahead_bytes)
      → Finishes P (on_system_drain fuel f icache pc)
  unfolding on_system_drain
  on_system_drain-Finishes near =
      let final_fetch_pc = add32 pc f.config.system_lookahead_bytes in
      Finishes-if P (not icache.config.enabled) _ _ refl (
        Finishes->>= P P (ensure_through fuel f icache final_fetch_pc) _
          (ensure_through-Finishes fuel f icache final_fetch_pc near)
          (λ r h. hold-Configured f.config f.config.system_hold_hits r final_fetch_pc true h))
