-- ===== src/Fetch/Reachable.antt =====
-- The states that the front end and its cache reach: from a configuration and a reset, by the calls of
-- src/main.cpp.
use rv32im_so_c_performance.Base.{ℕ, ◌+◌, ◌%◌, ◌^◌, ◌≡◌, ◌∙◌, sym, ok, Ensures-ok, arith}
use rv32im_so_c_performance.Cache.{Cache, CacheConfig, configure}
use rv32im_so_c_performance.Cache.Consistent.{configure-IsConsistent}
use rv32im_so_c_performance.Fetch.{
  Fetch, Fetched, reset, ensure_through, on_dcache_stall, on_taken_branch, on_jump_redirect,
  on_system_drain,
}
use rv32im_so_c_performance.Fetch.Synchronized.{
  IsSynchronized, Sync, ensure_through-Sync, on_dcache_stall-Sync, on_taken_branch-Sync,
  on_jump_redirect-Sync, on_system_drain-Sync,
}

pub data IsReachable : Fetch → Cache → Type 0 where
  started :
      (config : CacheConfig) (c : Cache) (f : Fetch) (reset_pc : ℕ)
      → configure config ≡ ok c
      → IsReachable (reset f reset_pc) c
  fetched :
      (fuel : ℕ) (f : Fetch) (c : Cache) (target_pc : ℕ) (s : Fetched)
      → IsReachable f c
      → ensure_through fuel f c target_pc ≡ ok s
      → IsReachable s.fetch s.icache
  dcache_stalled :
      (fuel : ℕ) (f : Fetch) (c : Cache) (retired_pc cycles : ℕ) (s : Fetched)
      → IsReachable f c
      → on_dcache_stall fuel f c retired_pc cycles ≡ ok s
      → IsReachable s.fetch s.icache
  branched :
      (fuel : ℕ) (f : Fetch) (c : Cache) (branch_pc target_pc : ℕ) (s : Fetched)
      → IsReachable f c
      → on_taken_branch fuel f c branch_pc target_pc ≡ ok s
      → IsReachable s.fetch s.icache
  jumped :
      (fuel : ℕ) (f : Fetch) (c : Cache) (jump_pc target_pc : ℕ) (s : Fetched)
      → IsReachable f c
      → on_jump_redirect fuel f c jump_pc target_pc ≡ ok s
      → IsReachable s.fetch s.icache
  drained :
      (fuel : ℕ) (f : Fetch) (c : Cache) (system_pc : ℕ) (s : Fetched)
      → IsReachable f c
      → on_system_drain fuel f c system_pc ≡ ok s
      → IsReachable s.fetch s.icache

start-IsSynchronized :
    (config : CacheConfig) (c : Cache) (f : Fetch) (reset_pc : ℕ)
    → configure config ≡ ok c
    → IsSynchronized (reset f reset_pc) c
unfolding reset configure
start-IsSynchronized config c f reset_pc e = record {
  consistent = configure-IsConsistent config c e;
  counted = ground arith;
}

reachable-IsSynchronized : (f : Fetch) (c : Cache) → IsReachable f c → IsSynchronized f c
reachable-IsSynchronized _ _ (started config c f reset_pc e) =
    start-IsSynchronized config c f reset_pc e
reachable-IsSynchronized _ _ (fetched fuel f c target_pc s before e) =
    Ensures-ok Sync (ensure_through fuel f c target_pc) s e
      (ensure_through-Sync fuel f c (reachable-IsSynchronized f c before) target_pc)
reachable-IsSynchronized _ _ (dcache_stalled fuel f c pc cycles s before e) =
    Ensures-ok Sync (on_dcache_stall fuel f c pc cycles) s e
      (on_dcache_stall-Sync fuel f c (reachable-IsSynchronized f c before) pc cycles)
reachable-IsSynchronized _ _ (branched fuel f c pc target_pc s before e) =
    Ensures-ok Sync (on_taken_branch fuel f c pc target_pc) s e
      (on_taken_branch-Sync fuel f c (reachable-IsSynchronized f c before) pc target_pc)
reachable-IsSynchronized _ _ (jumped fuel f c pc target_pc s before e) =
    Ensures-ok Sync (on_jump_redirect fuel f c pc target_pc) s e
      (on_jump_redirect-Sync fuel f c (reachable-IsSynchronized f c before) pc target_pc)
reachable-IsSynchronized _ _ (drained fuel f c pc s before e) =
    Ensures-ok Sync (on_system_drain fuel f c pc) s e
      (on_system_drain-Sync fuel f c (reachable-IsSynchronized f c before) pc)

-- In every state that the front end and its cache reach from a configuration and a reset by the hooks
-- of the front end, the requests issued are the hits and the misses of the cache together, modulo
-- 2 ^ 64, and the cache is consistent.
pub issued-hits_and_misses :
    (f : Fetch) (c : Cache)
    → IsReachable f c
    → IsSynchronized f c × (f.stats.issued_accesses ≡ (c.stats.hits + c.stats.misses) % 2 ^ 64)
issued-hits_and_misses f c reachable =
    let h = reachable-IsSynchronized f c reachable in (h, h.counted ∙ sym h.consistent.accounted)
