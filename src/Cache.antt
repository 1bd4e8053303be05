-- ===== src/Cache.antt =====
-- src/CacheModel.cpp and include/rv32im/CacheModel.hpp: the direct-mapped cache of the simulator. The
-- counters are 64 bits wide and the penalties 32 bits, and both wrap around.
pub mod Consistent
pub mod Recent
use Prim.Native.Nat.{bit_and}
use rv32im_so_c_performance.Base.{
  ℕ, ◌+◌, ◌-◌, ◌*◌, ◌/◌, ◌%◌, ◌^◌, Bool, true, false, not, ◌&&◌, List, ◌==◌, if◌then◌else◌,
  invalid_argument, Result, ok, err, get_or, set, replicate, map,
}

abbrev pub add32 : ℕ → ℕ → ℕ
add32 a b = (a + b) % 2 ^ 32

abbrev pub add64 : ℕ → ℕ → ℕ
add64 a b = (a + b) % 2 ^ 64

pub record CacheConfig : Type 0 where
  pub enabled : Bool
  pub lines : ℕ
  pub line_bytes : ℕ
  pub memory_latency : ℕ
  pub write_back : Bool
  pub write_allocate : Bool

pub record CacheStats : Type 0 where
  pub accesses : ℕ
  pub hits : ℕ
  pub misses : ℕ
  pub writebacks : ℕ
  pub read_transactions : ℕ
  pub write_transactions : ℕ
  pub stall_cycles : ℕ

pub record AccessResult : Type 0 where
  pub hit : Bool
  pub miss : Bool
  pub writeback : Bool
  pub stall_cycles : ℕ

pub record Line : Type 0 where
  pub valid : Bool
  pub dirty : Bool
  pub tag : ℕ

pub record Cache : Type 0 where
  pub config : CacheConfig
  pub stats : CacheStats
  pub lines : List Line

abbrev pub zero_stats : CacheStats
zero_stats = record {
  accesses = 0;
  hits = 0;
  misses = 0;
  writebacks = 0;
  read_transactions = 0;
  write_transactions = 0;
  stall_cycles = 0;
}

abbrev pub empty_line : Line
empty_line = record { valid = false; dirty = false; tag = 0 }

unfoldable pub is_power_of_two : ℕ → Bool
is_power_of_two value = not (value == 0) && bit_and value (value - 1) == 0

unfoldable pub configure : CacheConfig → Result Cache
unfolding is_power_of_two
configure config =
    if not (is_power_of_two config.lines)
    then err (invalid_argument "Cache line count must be a non-zero power of two")
    else if not (config.line_bytes == 4)
    then err
        (invalid_argument "Current RTL cache model supports one 32-bit word (4 bytes) per line")
    else ok
        (record { config = config; stats = zero_stats; lines = replicate config.lines empty_line })

unfoldable pub reset : Cache → Cache
reset c = record c { stats = zero_stats; lines = map (λ line. empty_line) c.lines }

abbrev pub word_of : CacheConfig → ℕ → ℕ
word_of config byte_addr = byte_addr / config.line_bytes

unfoldable pub index_of : CacheConfig → ℕ → ℕ
index_of config byte_addr = word_of config byte_addr % config.lines

unfoldable pub tag_of : CacheConfig → ℕ → ℕ
tag_of config byte_addr = word_of config byte_addr / config.lines

-- `line.valid && line.tag == tag`
abbrev pub matches : Line → ℕ → Bool
matches line tag = line.valid && line.tag == tag

unfoldable pub would_hit : Cache → ℕ → Bool
would_hit c byte_addr =
    if not c.config.enabled
    then true
    else matches (get_or empty_line c.lines (index_of c.config byte_addr))
        (tag_of c.config byte_addr)

unfoldable pub clean_miss_penalty : CacheConfig → ℕ
clean_miss_penalty config = add32 config.memory_latency 4

unfoldable pub dirty_miss_penalty : CacheConfig → ℕ
dirty_miss_penalty config = add32 (2 * config.memory_latency) 7

abbrev pub hit_result : AccessResult
hit_result = record { hit = true; miss = false; writeback = false; stall_cycles = 0 }

-- The branch of a hit.
abbrev pub on_hit : Cache → ℕ → Line → Bool → Cache
on_hit c index line is_write = record {
  config = c.config;
  stats = record c.stats { accesses = add64 c.stats.accesses 1; hits = add64 c.stats.hits 1 };
  lines =
      if is_write && c.config.write_back
      then set c.lines index (record line { dirty = true })
      else c.lines;
}

-- Whether a miss writes its victim back.
abbrev pub evicts : CacheConfig → Line → Bool
evicts config line = line.valid && line.dirty && config.write_back

abbrev pub miss_result : CacheConfig → Line → AccessResult
miss_result config line = record {
  hit = false;
  miss = true;
  writeback = evicts config line;
  stall_cycles =
      if evicts config line then dirty_miss_penalty config else clean_miss_penalty config;
}

abbrev pub count_if : Bool → ℕ → ℕ
count_if b n = if b then add64 n 1 else n

-- The branch of a miss.
abbrev pub on_miss : Cache → ℕ → ℕ → Line → Bool → Cache
on_miss c index tag line is_write =
    let result = miss_result c.config line in
    record {
      config = c.config;
      stats = record {
        accesses = add64 c.stats.accesses 1;
        hits = c.stats.hits;
        misses = add64 c.stats.misses 1;
        writebacks = count_if result.writeback c.stats.writebacks;
        read_transactions = add64 c.stats.read_transactions 1;
        write_transactions = count_if result.writeback c.stats.write_transactions;
        stall_cycles = add64 c.stats.stall_cycles result.stall_cycles;
      };
      lines =
          set c.lines index
            (record { valid = true; dirty = is_write && c.config.write_back; tag = tag });
    }

abbrev pub access_line : Cache → ℕ → ℕ → Line → Bool → Cache × AccessResult
access_line c index tag line is_write =
    if matches line tag
    then (on_hit c index line is_write, hit_result)
    else (on_miss c index tag line is_write, miss_result c.config line)

unfoldable pub access : Cache → ℕ → Bool → Cache × AccessResult
access c byte_addr is_write =
    if not c.config.enabled
    then (c, hit_result)
    else access_line c (index_of c.config byte_addr) (tag_of c.config byte_addr)
        (get_or empty_line c.lines (index_of c.config byte_addr)) is_write
