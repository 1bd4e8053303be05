-- ===== src/Cache/Consistent.antt =====
-- The invariant of the cache: its lines, and the counters against one another.
use native.Mathlib.Nat.{mod-lt}
use rv32im_so_c_performance.Base.{
  ℕ, ◌+◌, ◌/◌, ◌%◌, ◌^◌, ◌<◌, get_or-set, ◌≡◌, refl, Bool, true, ok, ◌&&◌, get_or, length,
  length-set, length-replicate, length-map, ◌∙◌, arith,
}
use rv32im_so_c_performance.Cache.{
  CacheConfig, Cache, Line, empty_line, index_of, tag_of, configure, would_hit, reset, access,
  access_line,
}

-- There is a line for each index; each access is a hit or a miss, each miss reads a line, and each
-- write transaction is a writeback, counted modulo 2 ^ 64.
pub record IsConsistent (c : Cache) : Type 0 where
  pub lines_present : length c.lines ≡ c.config.lines
  pub accounted : (c.stats.hits + c.stats.misses) % 2 ^ 64 ≡ c.stats.accesses
  pub refilled : c.stats.read_transactions ≡ c.stats.misses
  pub written_back : c.stats.write_transactions ≡ c.stats.writebacks

pub configure-IsConsistent :
    (config : CacheConfig) (c : Cache) → configure config ≡ ok c → IsConsistent c
unfolding configure
configure-IsConsistent config c h = ground (arith, length-replicate config.lines empty_line)

pub reset-IsConsistent : (c : Cache) → IsConsistent c → IsConsistent (reset c)
unfolding reset
reset-IsConsistent c h = record {
  lines_present = length-map c.lines (λ line. empty_line) ∙ h.lines_present;
  accounted = refl;
  refilled = refl;
  written_back = refl;
}

access_line-IsConsistent :
    (c : Cache) (index tag : ℕ) (line : Line) (w : Bool)
    → IsConsistent c
    → IsConsistent (access_line c index tag line w).0
access_line-IsConsistent c index tag line w h = ground (
  arith,
  length-set c.lines index (record line { dirty = true }),
  length-set c.lines index (record { valid = true; dirty = w && c.config.write_back; tag = tag }),
)

pub access-IsConsistent :
    (c : Cache) (byte_addr : ℕ) (w : Bool) → IsConsistent c → IsConsistent (access c byte_addr w).0
unfolding access
access-IsConsistent c byte_addr w h = ground (
  arith,
  access_line-IsConsistent c (index_of c.config byte_addr) (tag_of c.config byte_addr)
      (get_or empty_line c.lines (index_of c.config byte_addr)) w h,
)

-- An access hits exactly when would_hit says so, and then would_hit says so of its address.
pub access-would_hit :
    (c : Cache) (byte_addr : ℕ) (w : Bool)
    → IsConsistent c
    → 0 < c.config.lines
    → ((access c byte_addr w).1.hit ≡ would_hit c byte_addr)
      × (would_hit (access c byte_addr w).0 byte_addr ≡ true)
unfolding access would_hit index_of
access-would_hit c byte_addr w h nonzero =
    let index = index_of c.config byte_addr in
    let below = mod-lt (byte_addr / c.config.line_bytes) nonzero in
    let line = get_or empty_line c.lines index in
    ground (
      arith,
      h.lines_present,
      get_or-set empty_line c.lines index index (record line { dirty = true }),
      get_or-set empty_line c.lines index index (record {
        valid = true;
        dirty = w && c.config.write_back;
        tag = tag_of c.config byte_addr;
      }),
    )
