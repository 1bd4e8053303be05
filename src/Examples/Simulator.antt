-- ===== src/Examples/Simulator.antt =====
-- A cache of four lines, a front end on it, and a load with an instruction that uses it.
use rv32im_so_c_performance.Base.{
  ◌+◌, ◌-◌, ◌%◌, ◌^◌, ◌<◌, ◌≡◌, refl, true, false, ok, err, out_of_fuel, List, [], ◌∷◌, Result, max,
  arith,
}
use rv32im_so_c_performance.Cache.{
  CacheConfig, Cache, zero_stats, configure, access, index_of, tag_of, is_power_of_two, empty_line,
}
use rv32im_so_c_performance.Cache.Recent.{Access, run, expected_result, access-expected_result}
use rv32im_so_c_performance.Fetch
use rv32im_so_c_performance.Fetch.{
  Fetch, Fetched, ensure_through, on_taken_branch, on_jump_redirect, walk, advance, issue, hold,
  on_system_drain,
}
use rv32im_so_c_performance.Fetch.Walk.{ensure_through-returns, ensure_through-endless}
use rv32im_so_c_performance.Fetch.Synchronized.{IsSynchronized}
use rv32im_so_c_performance.Fetch.Reachable.{IsReachable, started, drained, issued-hits_and_misses}
use rv32im_so_c_performance.Fetch.Redirects.{IsRedirected, redirects-IsRedirected}
use rv32im_so_c_performance.Timing.{TimingConfig, retire}
use rv32im_so_c_performance.Timing.Cycles.{Retires, retire-Retires}
use rv32im_so_c_performance.Timing.Counters
use rv32im_so_c_performance.Timing.Counters.{Event, retired, stalled, Counts, run-Counts}

abbrev pub config : CacheConfig
config = record {
  enabled = true;
  lines = 4;
  line_bytes = 4;
  memory_latency = 3;
  write_back = true;
  write_allocate = true;
}

abbrev pub cache : Cache
cache = record {
  config = config;
  stats = zero_stats;
  lines = empty_line ∷ empty_line ∷ empty_line ∷ empty_line ∷ [];
}

pub configured : configure config ≡ ok cache
unfolding configure is_power_of_two
configured = refl

-- A write of 0x10, then a read of 0: the last access first.
abbrev history : List Access
history =
    record { byte_addr = 0; is_write = false } ∷ record { byte_addr = 0x10; is_write = true } ∷ []

access-expected_result_example :
    (access (run cache history) 0x10 false).1
    ≡ expected_result config (index_of config 0x10) (tag_of config 0x10) history
access-expected_result_example =
    access-expected_result config cache configured refl history 0x10 false

abbrev pub front : Fetch
front = record {
  config = record {
    dcache_hold_ahead_bytes = 12;
    system_lookahead_bytes = 8;
    system_hold_hits = 2;
    branch_wrong_path_bytes = 8;
    jump_wrong_path_bytes = 8;
  };
  stats = record {
    issued_accesses = 0;
    replay_accesses = 0;
    lookahead_accesses = 0;
    redirect_events = 0;
    wrong_path_accesses = 0;
  };
  next_sequential_pc = 4;
}

ensure_through-returns_example :
    (s : Fetched) × (ensure_through 5 front cache 8 ≡ ok s)
    × (s.fetch.next_sequential_pc ≡ max 4 (8 + 4))
ensure_through-returns_example =
    ensure_through-returns 5 front cache 8 refl refl (omega arith) (omega arith) refl

ensure_through-endless_example : ensure_through 5 front cache (2 ^ 32 - 4) ≡ err out_of_fuel
ensure_through-endless_example = ensure_through-endless 5 front cache refl (omega arith) refl

redirects-IsRedirected_example :
    ((s : Fetched) × (on_taken_branch 3 front cache 0 64 ≡ ok s) × IsRedirected front 2 64 s)
    × ((s : Fetched) × (on_jump_redirect 3 front cache 0 64 ≡ ok s) × IsRedirected front 2 64 s)
redirects-IsRedirected_example =
    redirects-IsRedirected 3 front cache 0 64 refl (omega arith) (omega arith) refl refl refl refl
      (omega arith)

abbrev fetched_of : Result Fetched → Fetched
fetched_of (ok s) = s
fetched_of (err e) = record { fetch = front; icache = cache; stalls = 0 }

-- The drain of a system instruction at 0, after a reset.
abbrev drain : Fetched
drain = fetched_of (on_system_drain 4 (Fetch.reset front 0) cache 0)

drain_returns : on_system_drain 4 (Fetch.reset front 0) cache 0 ≡ ok drain
unfolding on_system_drain ensure_through walk advance issue hold Fetch.reset access configure
drain_returns = refl

drain-IsReachable : IsReachable drain.fetch drain.icache
drain-IsReachable =
    drained 4 (Fetch.reset front 0) cache 0 drain (started config cache front 0 configured)
      drain_returns

issued-hits_and_misses_example :
    IsSynchronized drain.fetch drain.icache
    × (drain.fetch.stats.issued_accesses
        ≡ (drain.icache.stats.hits + drain.icache.stats.misses) % 2 ^ 64)
issued-hits_and_misses_example = issued-hits_and_misses drain.fetch drain.icache drain-IsReachable

abbrev pub timing : TimingConfig
timing = record {
  pipeline_depth = 5;
  load_use_penalty = 1;
  taken_branch_penalty = 2;
  jump_redirect_penalty = 2;
  divider_latency = 8;
  divider_initiation_interval = 1;
}

-- `lw x1, 0(x0)`, then a cache miss, then `addi x2, x1, 0`: the last event first.
abbrev events : List Event
events = retired 0x00008113 false ∷ stalled 7 ∷ retired 0x00002083 false ∷ []

run-Counts_example : Counts timing events (Counters.run timing events)
run-Counts_example = run-Counts timing events

abbrev older : List Event
older = stalled 7 ∷ retired 0x00002083 false ∷ []

few : Counters.retirements older + 1 < 2 ^ 64
unfolding Counters.count
few = omega arith

retire-Retires_example :
    Retires timing older 0x00008113 false
      (retire (Counters.run timing older) 0x00008113 false).0
      (retire (Counters.run timing older) 0x00008113 false).1
retire-Retires_example = retire-Retires timing older 0x00008113 false few
