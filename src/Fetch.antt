-- ===== src/Fetch.antt =====
-- src/IFetchStreamModel.cpp and include/rv32im/IFetchStreamModel.hpp: the requests of the front end to
-- the instruction cache. The loop of ensure_through runs on fuel, and is err out_of_fuel while it has
-- not ended; the cache that the source passes by reference is passed and returned.
pub mod Walk
pub mod Ends
pub mod Synchronized
pub mod Reachable
pub mod Redirects
use rv32im_so_c_performance.Base.{
  ℕ, zero, suc, ◌+◌, ◌-◌, ◌%◌, ◌^◌, Bool, true, false, not, ◌||◌, ◌==◌, leb, if◌then◌else◌, Error,
  value_error, runtime_error, out_of_fuel, Result, ok, err, ◌>>=◌, or_raise,
}
use rv32im_so_c_performance.Cache.{Cache, AccessResult, add32, add64, access}

pub record FetchConfig : Type 0 where
  pub dcache_hold_ahead_bytes : ℕ
  pub system_lookahead_bytes : ℕ
  pub system_hold_hits : ℕ
  pub branch_wrong_path_bytes : ℕ
  pub jump_wrong_path_bytes : ℕ

pub record FetchStats : Type 0 where
  pub issued_accesses : ℕ
  pub replay_accesses : ℕ
  pub lookahead_accesses : ℕ
  pub redirect_events : ℕ
  pub wrong_path_accesses : ℕ

pub record Fetch : Type 0 where
  pub config : FetchConfig
  pub stats : FetchStats
  pub next_sequential_pc : ℕ

-- What a call leaves: the front end, the cache, and the stall cycles that it answers.
pub record Fetched : Type 0 where
  pub fetch : Fetch
  pub icache : Cache
  pub stalls : ℕ

unfoldable pub reset : Fetch → ℕ → Fetch
reset f reset_pc = record {
  config = f.config;
  stats = record {
    issued_accesses = 0;
    replay_accesses = 0;
    lookahead_accesses = 0;
    redirect_events = 0;
    wrong_path_accesses = 0;
  };
  next_sequential_pc = reset_pc;
}

-- `++n` under a condition.
abbrev count_if : Bool → ℕ → ℕ
count_if b n = if b then add64 n 1 else n

-- A request, whose stall cycles go onto those so far.
unfoldable pub issue : Fetched → ℕ → Bool → Bool → Fetched
issue r pc replay lookahead =
    let result = access r.icache pc false in
    let f = r.fetch in
    record {
      fetch =
          if r.icache.config.enabled
          then record f {
            stats = record f.stats {
              issued_accesses = add64 f.stats.issued_accesses 1;
              replay_accesses = count_if replay f.stats.replay_accesses;
              lookahead_accesses = count_if lookahead f.stats.lookahead_accesses;
            };
          }
          else f;
      icache = result.0;
      stalls = add32 r.stalls result.1.stall_cycles;
    }

-- One turn of the loop of ensure_through.
unfoldable pub advance : Fetched → ℕ → Fetched
advance r target_pc =
    let pc = r.fetch.next_sequential_pc in
    let issued = issue r pc false (not (pc == target_pc)) in
    record issued { fetch = record issued.fetch { next_sequential_pc = add32 pc 4 } }

unfoldable pub walk : ℕ → Fetched → ℕ → Result Fetched
walk zero r target_pc = err out_of_fuel
walk (suc fuel) r target_pc =
    let rest = walk fuel (advance r target_pc) target_pc in
    if leb r.fetch.next_sequential_pc target_pc then rest else ok r

unfoldable pub ensure_through : ℕ → Fetch → Cache → ℕ → Result Fetched
ensure_through fuel f icache target_pc =
    let start : Fetched = record { fetch = f; icache = icache; stalls = 0 } in
    if not icache.config.enabled
    then ok start
    else if not (target_pc % 4 == 0)
    then err (runtime_error "IFetchStreamModel target PC must be word aligned")
    else walk fuel start target_pc

-- The requests of a held address.
unfoldable pub hold : ℕ → Fetched → ℕ → Bool → Fetched
hold zero r pc lookahead = r
hold (suc n) r pc lookahead = hold n (issue r pc true lookahead) pc lookahead

unfoldable pub on_dcache_stall : ℕ → Fetch → Cache → ℕ → ℕ → Result Fetched
on_dcache_stall fuel f icache retired_pc dcache_stall_cycles =
    if not icache.config.enabled || dcache_stall_cycles == 0
    then ok (record { fetch = f; icache = icache; stalls = 0 })
    else do
      let held_pc = add32 retired_pc f.config.dcache_hold_ahead_bytes
      r ← ensure_through fuel f icache held_pc
      ok (hold dcache_stall_cycles r held_pc false)

-- The front end restarts at the target of a redirect.
abbrev pub restart : Fetch → ℕ → ℕ → Fetch
restart f wrong_path target_pc = record f {
  stats = record f.stats {
    redirect_events = add64 f.stats.redirect_events 1;
    wrong_path_accesses = wrong_path;
  };
  next_sequential_pc = target_pc;
}

-- The common course of on_taken_branch and on_jump_redirect.
abbrev pub redirect : ℕ → Fetch → Cache → ℕ → ℕ → ℕ → Result Fetched
redirect fuel f icache wrong_path_bytes pc target_pc =
    if not icache.config.enabled
    then ok (record {
      fetch = restart f f.stats.wrong_path_accesses target_pc;
      icache = icache;
      stalls = 0;
    })
    else do
      let before = f.stats.issued_accesses
      r ← ensure_through fuel f icache (add32 pc wrong_path_bytes)
      let issued = (r.fetch.stats.issued_accesses + 2 ^ 64 - before) % 2 ^ 64
      let wrong_path = add64 r.fetch.stats.wrong_path_accesses issued
      ok (record r { fetch = restart r.fetch wrong_path target_pc })

unfoldable pub on_taken_branch : ℕ → Fetch → Cache → ℕ → ℕ → Result Fetched
on_taken_branch fuel f icache branch_pc target_pc =
    redirect fuel f icache f.config.branch_wrong_path_bytes branch_pc target_pc

unfoldable pub on_jump_redirect : ℕ → Fetch → Cache → ℕ → ℕ → Result Fetched
on_jump_redirect fuel f icache jump_pc target_pc =
    redirect fuel f icache f.config.jump_wrong_path_bytes jump_pc target_pc

unfoldable pub on_system_drain : ℕ → Fetch → Cache → ℕ → Result Fetched
on_system_drain fuel f icache system_pc =
    if not icache.config.enabled then ok (record { fetch = f; icache = icache; stalls = 0 }) else do
      let final_fetch_pc = add32 system_pc f.config.system_lookahead_bytes
      r ← ensure_through fuel f icache final_fetch_pc
      ok (hold f.config.system_hold_hits r final_fetch_pc true)
