-- ===== src/DesignSpace/Measured.antt =====
-- `simulate` of scripts/run_milestone6a.py: a row holds what the run with its own cache sizes and memory
-- latency printed.
use rv32im_so_c_performance.Base.{
  ◌+◌, ◌*◌, ◌≡◌, subst, String, List, [], ◌∷◌, ok, >>=-eq-ok, Ensures, All, arith,
}
use rv32im_so_c_performance.PyText.{Text}
use rv32im_so_c_performance.Suite.{Host, run_capture}
use rv32im_so_c_performance.Suite.Reading.{stat}
use rv32im_so_c_performance.DesignSpace.{
  Config, Point, str, parse, command, divides, simulate, simulate_all,
}

pub record IsMeasured (host : Host) (exe : String) (p : Point) : Type 0 where
  pub printed : Text
  pub ran :
      run_capture host (
        exe
        ∷ "workloads/milestone4/dhrystone_imem.hex"
        ∷ "--dmem-hex"
        ∷ "workloads/milestone4/dhrystone_dmem.hex"
        ∷ "--enable-caches"
        ∷ "--icache-lines"
        ∷ str p.config.icache_lines
        ∷ "--dcache-lines"
        ∷ str p.config.dcache_lines
        ∷ "--memory-latency"
        ∷ str p.config.memory_latency
        ∷ "--max-insns"
        ∷ "1000000"
        ∷ [])
      ≡ ok printed
  pub cycles : stat "cycles" (parse printed) ≡ ok p.cycles
  pub retired : stat "retired" (parse printed) ≡ ok p.retired
  pub icache_hits : stat "icache_hits" (parse printed) ≡ ok p.icache_hits
  pub icache_accesses : stat "icache_accesses" (parse printed) ≡ ok p.icache_accesses
  pub dcache_hits : stat "dcache_hits" (parse printed) ≡ ok p.dcache_hits
  pub dcache_accesses : stat "dcache_accesses" (parse printed) ≡ ok p.dcache_accesses
  pub cache_data_bytes : p.cache_data_bytes ≡ 4 * p.config.icache_lines + 4 * p.config.dcache_lines

simulate-IsMeasured :
    (host : Host) (exe : String) (c : Config) (p : Point)
    → simulate host exe c ≡ ok p
    → IsMeasured host exe p
unfolding simulate
simulate-IsMeasured host exe c p h =
    let (out, ran, h1) = >>=-eq-ok (run_capture host (command exe c)) _ h in
    let (_, cycles, h2) = >>=-eq-ok (stat "cycles" (parse out)) _ h1 in
    let (n, retired, h3) = >>=-eq-ok (stat "retired" (parse out)) _ h2 in
    let (_, _, h4) = >>=-eq-ok (divides n) _ h3 in
    let (_, icache_hits, h5) = >>=-eq-ok (stat "icache_hits" (parse out)) _ h4 in
    let (_, icache_accesses, h6) = >>=-eq-ok (stat "icache_accesses" (parse out)) _ h5 in
    let (_, dcache_hits, h7) = >>=-eq-ok (stat "dcache_hits" (parse out)) _ h6 in
    let (_, dcache_accesses, h8) = >>=-eq-ok (stat "dcache_accesses" (parse out)) _ h7 in
    subst (λ r. Ensures (IsMeasured host exe) r) h8
      (record {
        printed = out;
        ran = ran;
        cycles = cycles;
        retired = retired;
        icache_hits = icache_hits;
        icache_accesses = icache_accesses;
        dcache_hits = dcache_hits;
        dcache_accesses = dcache_accesses;
        cache_data_bytes = omega arith;
      })

pub simulate_all-IsMeasured :
    (host : Host) (exe : String) (cs : List Config) (rows : List Point)
    → simulate_all host exe cs ≡ ok rows
    → All (IsMeasured host exe) rows
unfolding simulate_all
simulate_all-IsMeasured host exe [] rows h =
    subst (λ r. Ensures (λ rows. All (IsMeasured host exe) rows) r) h tt
simulate_all-IsMeasured host exe (c ∷ cs) rows h =
    let (p, one, h1) = >>=-eq-ok (simulate host exe c) _ h in
    let (ps, others, h2) = >>=-eq-ok (simulate_all host exe cs) _ h1 in
    subst (λ r. Ensures (λ rows. All (IsMeasured host exe) rows) r) h2
      (simulate-IsMeasured host exe c p one, simulate_all-IsMeasured host exe cs ps others)
