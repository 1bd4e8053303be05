-- ===== src/Stats/Keys.antt =====
-- The tables `KEYS` of the scripts.
use rv32im_so_c_performance.Base.{String, List, [], ◌∷◌, map}
use rv32im_so_c_performance.PyText.{codes}
use rv32im_so_c_performance.Stats.{Keys}

abbrev labels : List (String × String) → Keys
labels = map (λ (label, column). (codes label, column))

abbrev pub milestone3_keys : Keys
milestone3_keys = labels (
    ("retired", "retired")
    ∷ ("predicted cycles", "cycles")
    ∷ ("I-cache stalls", "icache_stalls")
    ∷ ("D-cache stalls", "dcache_stalls")
    ∷ ("I-cache accesses", "icache_accesses")
    ∷ ("I-cache hits", "icache_hits")
    ∷ ("I-cache misses", "icache_misses")
    ∷ ("D-cache accesses", "dcache_accesses")
    ∷ ("D-cache hits", "dcache_hits")
    ∷ ("D-cache misses", "dcache_misses")
    ∷ ("D-cache writebacks", "dcache_writebacks")
    ∷ ("AXI read transactions", "axi_reads")
    ∷ ("AXI write transactions", "axi_writes")
    ∷ [])

abbrev pub milestone3c_keys : Keys
milestone3c_keys = labels (
    ("retired", "retired")
    ∷ ("predicted cycles", "cycles")
    ∷ ("branches", "branches")
    ∷ ("branches taken", "branches_taken")
    ∷ ("I-cache stalls", "icache_stalls")
    ∷ ("I-cache accesses", "icache_accesses")
    ∷ ("I-cache hits", "icache_hits")
    ∷ ("I-cache misses", "icache_misses")
    ∷ ("AXI read transactions", "axi_reads")
    ∷ [])

abbrev pub milestone3d_keys : Keys
milestone3d_keys = labels (
    ("retired", "retired")
    ∷ ("predicted cycles", "cycles")
    ∷ ("branches", "branches")
    ∷ ("branches taken", "branches_taken")
    ∷ ("jumps", "jumps")
    ∷ ("I-cache stalls", "icache_stalls")
    ∷ ("JAL/JALR redirect stalls", "jump_stalls")
    ∷ ("I-cache accesses", "icache_accesses")
    ∷ ("I-cache hits", "icache_hits")
    ∷ ("I-cache misses", "icache_misses")
    ∷ ("AXI read transactions", "axi_reads")
    ∷ [])

abbrev pub milestone4_keys : Keys
milestone4_keys = labels (
    ("retired", "retired")
    ∷ ("predicted cycles", "cycles")
    ∷ ("ALU instructions", "alu")
    ∷ ("branches", "branches")
    ∷ ("branches taken", "branches_taken")
    ∷ ("jumps", "jumps")
    ∷ ("loads", "loads")
    ∷ ("stores", "stores")
    ∷ ("M-extension ops", "mext")
    ∷ ("base instruction cycles", "base_cycles")
    ∷ ("pipeline fill/drain", "fill_drain")
    ∷ ("load-use stalls", "load_use_stalls")
    ∷ ("taken-branch stalls", "branch_stalls")
    ∷ ("JAL/JALR redirect stalls", "jump_stalls")
    ∷ ("divider stalls", "divider_stalls")
    ∷ ("I-cache stalls", "icache_stalls")
    ∷ ("D-cache stalls", "dcache_stalls")
    ∷ ("I$/D$ overlap cycles", "cache_overlap_cycles")
    ∷ ("net cache stall cycles", "net_cache_stalls")
    ∷ ("I-cache accesses", "icache_accesses")
    ∷ ("I-cache hits", "icache_hits")
    ∷ ("I-cache misses", "icache_misses")
    ∷ ("I$ pipeline-hold replays", "icache_pipeline_hold_replays")
    ∷ ("D-cache accesses", "dcache_accesses")
    ∷ ("D-cache hits", "dcache_hits")
    ∷ ("D-cache misses", "dcache_misses")
    ∷ ("D-cache writebacks", "dcache_writebacks")
    ∷ ("D$ IF-stall replays", "dcache_ifstall_replays")
    ∷ ("AXI read transactions", "axi_reads")
    ∷ ("AXI write transactions", "axi_writes")
    ∷ [])

abbrev pub sensitivity_keys : Keys
sensitivity_keys = labels (
    ("retired", "retired")
    ∷ ("predicted cycles", "cycles")
    ∷ ("I-cache accesses", "icache_accesses")
    ∷ ("I-cache hits", "icache_hits")
    ∷ ("I-cache misses", "icache_misses")
    ∷ ("D-cache accesses", "dcache_accesses")
    ∷ ("D-cache hits", "dcache_hits")
    ∷ ("D-cache misses", "dcache_misses")
    ∷ ("D-cache writebacks", "dcache_writebacks")
    ∷ ("I$/D$ overlap cycles", "cache_overlap_cycles")
    ∷ ("net cache stall cycles", "net_cache_stalls")
    ∷ [])

abbrev pub milestone6a_keys : Keys
milestone6a_keys = labels (
    ("retired", "retired")
    ∷ ("predicted cycles", "cycles")
    ∷ ("I-cache accesses", "icache_accesses")
    ∷ ("I-cache hits", "icache_hits")
    ∷ ("I-cache misses", "icache_misses")
    ∷ ("D-cache accesses", "dcache_accesses")
    ∷ ("D-cache hits", "dcache_hits")
    ∷ ("D-cache misses", "dcache_misses")
    ∷ ("D-cache writebacks", "dcache_writebacks")
    ∷ ("I$/D$ overlap cycles", "cache_overlap_cycles")
    ∷ ("net cache stall cycles", "net_cache_stalls")
    ∷ [])
