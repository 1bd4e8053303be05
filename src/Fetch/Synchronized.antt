-- ===== src/Fetch/Synchronized.antt =====
-- The front end and its cache: the requests that one has issued are the accesses that the other has
-- counted.
use rv32im_so_c_performance.Base.{
  ℕ, zero, suc, ◌+◌, ◌%◌, ◌^◌, ◌≡◌, Bool, true, false, not, ◌==◌, leb, if◌then◌else◌, ok, err, ◌||◌,
  Ensures, Ensures-if, Ensures->>=, arith,
}
use rv32im_so_c_performance.Cache.{Cache, add32, access}
use rv32im_so_c_performance.Cache.Consistent.{IsConsistent, access-IsConsistent}
use rv32im_so_c_performance.Fetch.{
  Fetch, Fetched, issue, advance, walk, ensure_through, hold, on_dcache_stall, on_taken_branch,
  on_jump_redirect, on_system_drain, redirect,
}

pub record IsSynchronized (f : Fetch) (icache : Cache) : Type 0 where
  pub consistent : IsConsistent icache
  pub counted : f.stats.issued_accesses ≡ icache.stats.accesses

access-accesses :
    (c : Cache) (addr : ℕ) (w : Bool)
    → (access c addr w).0.stats.accesses
      ≡ (if c.config.enabled then (c.stats.accesses + 1) % 2 ^ 64 else c.stats.accesses)
unfolding access
access-accesses c addr w = ground arith

abbrev pub Sync : Fetched → Type 0
Sync r = IsSynchronized r.fetch r.icache

issue-Sync :
    (r : Fetched) (pc : ℕ) (replay lookahead : Bool) → Sync r → Sync (issue r pc replay lookahead)
unfolding issue
issue-Sync r pc replay lookahead h = record {
  consistent = access-IsConsistent r.icache pc false h.consistent;
  counted = ground (arith, h.counted, access-accesses r.icache pc false);
}

advance-Sync : (r : Fetched) (target_pc : ℕ) → Sync r → Sync (advance r target_pc)
unfolding advance
advance-Sync r target_pc h =
    let pc = r.fetch.next_sequential_pc in
    let issued = issue-Sync r pc false (not (pc == target_pc)) h in
    record { consistent = issued.consistent; counted = issued.counted }

walk-Sync : (fuel : ℕ) (r : Fetched) (target_pc : ℕ) → Sync r → Ensures Sync (walk fuel r target_pc)
unfolding walk
walk-Sync zero r target_pc h = tt
walk-Sync (suc fuel) r target_pc h =
    let next = advance r target_pc in
    Ensures-if Sync (leb r.fetch.next_sequential_pc target_pc) (walk fuel next target_pc) (ok r)
      (walk-Sync fuel next target_pc (advance-Sync r target_pc h)) h

hold-Sync :
    (n : ℕ) (r : Fetched) (pc : ℕ) (lookahead : Bool) → Sync r → Sync (hold n r pc lookahead)
unfolding hold
hold-Sync zero r pc lookahead h = h
hold-Sync (suc n) r pc lookahead h =
    hold-Sync n (issue r pc true lookahead) pc lookahead (issue-Sync r pc true lookahead h)

module _ (fuel : ℕ) (f : Fetch) (icache : Cache) (h : IsSynchronized f icache) where
  start-Sync : Sync (record { fetch = f; icache = icache; stalls = 0 })
  start-Sync = record { consistent = h.consistent; counted = h.counted }

  pub ensure_through-Sync : (target_pc : ℕ) → Ensures Sync (ensure_through fuel f icache target_pc)
  unfolding ensure_through
  ensure_through-Sync target_pc =
      let start : Fetched = record { fetch = f; icache = icache; stalls = 0 } in
      Ensures-if Sync (not icache.config.enabled) (ok start) _ start-Sync (
        Ensures-if Sync (not (target_pc % 4 == 0)) (err _) (walk fuel start target_pc) tt
          (walk-Sync fuel start target_pc start-Sync))

  pub on_dcache_stall-Sync :
      (retired_pc cycles : ℕ) → Ensures Sync (on_dcache_stall fuel f icache retired_pc cycles)
  unfolding on_dcache_stall
  on_dcache_stall-Sync retired_pc cycles =
      let held_pc = add32 retired_pc f.config.dcache_hold_ahead_bytes in
      Ensures-if Sync (not icache.config.enabled || cycles == 0) (ok _) _ start-Sync (
        Ensures->>= Sync Sync (ensure_through fuel f icache held_pc) _ (ensure_through-Sync held_pc)
          (λ r synchronized. hold-Sync cycles r held_pc false synchronized))

  redirect-Sync :
      (wrong_path_bytes pc target_pc : ℕ)
      → Ensures Sync (redirect fuel f icache wrong_path_bytes pc target_pc)
  redirect-Sync wrong_path_bytes pc target_pc =
      let wrong_path_end = add32 pc wrong_path_bytes in
      Ensures-if Sync (not icache.config.enabled) (ok _) _
        (record { consistent = h.consistent; counted = h.counted })
        (Ensures->>= Sync Sync (ensure_through fuel f icache wrong_path_end) _
          (ensure_through-Sync wrong_path_end)
          (λ r synchronized. record {
            consistent = synchronized.consistent;
            counted = synchronized.counted;
          }))

  pub on_taken_branch-Sync :
      (branch_pc target_pc : ℕ) → Ensures Sync (on_taken_branch fuel f icache branch_pc target_pc)
  unfolding on_taken_branch
  on_taken_branch-Sync branch_pc target_pc =
      redirect-Sync f.config.branch_wrong_path_bytes branch_pc target_pc

  pub on_jump_redirect-Sync :
      (jump_pc target_pc : ℕ) → Ensures Sync (on_jump_redirect fuel f icache jump_pc target_pc)
  unfolding on_jump_redirect
  on_jump_redirect-Sync jump_pc target_pc =
      redirect-Sync f.config.jump_wrong_path_bytes jump_pc target_pc

  pub on_system_drain-Sync :
      (system_pc : ℕ) → Ensures Sync (on_system_drain fuel f icache system_pc)
  unfolding on_system_drain
  on_system_drain-Sync system_pc =
      let final_pc = add32 system_pc f.config.system_lookahead_bytes in
      Ensures-if Sync (not icache.config.enabled) (ok _) _ start-Sync (
        Ensures->>= Sync Sync (ensure_through fuel f icache final_pc) _
          (ensure_through-Sync final_pc)
          (λ r synchronized. hold-Sync f.config.system_hold_hits r final_pc true synchronized))
