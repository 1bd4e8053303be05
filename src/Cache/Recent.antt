-- ===== src/Cache/Recent.antt =====
-- The cache against its history: which word each line holds, and whether it was written, told from
-- the accesses alone. A history has its last access first.
use native.Mathlib.Nat.{mod-lt}
use rv32im_so_c_performance.Base.{
  ℕ, ◌/◌, ◌<◌, ◌≡◌, ◌≢◌, refl, sym, ap, ◌∙◌, inl, inr, Bool, true, false, ◌&&◌, ◌||◌, Option, none,
  some, List, [], ◌∷◌, ◌==◌, if◌then◌else◌, ok, Bool-cases, get_or, length, get_or-set,
  get_or-replicate, arith,
}
use rv32im_so_c_performance.Cache.{
  CacheConfig, Cache, Line, AccessResult, empty_line, configure, index_of, tag_of, access,
  access_line, matches, hit_result, clean_miss_penalty, dirty_miss_penalty,
}
use rv32im_so_c_performance.Cache.Consistent.{
  IsConsistent, access-IsConsistent, configure-IsConsistent,
}

pub record Access : Type 0 where
  pub byte_addr : ℕ
  pub is_write : Bool

unfoldable pub run : Cache → List Access → Cache
run c [] = c
run c (a ∷ older) = (access (run c older) a.byte_addr a.is_write).0

module _ (config : CacheConfig) where
  -- The tag of the last access to an index.
  unfoldable pub last_tag : ℕ → List Access → Option ℕ
  last_tag index [] = none
  last_tag index (a ∷ older) =
      if index_of config a.byte_addr == index
      then some (tag_of config a.byte_addr)
      else last_tag index older

  -- Whether a word was written since the last access to another word of its index.
  unfoldable pub written : ℕ → ℕ → List Access → Bool
  written index tag [] = false
  written index tag (a ∷ older) =
      if index_of config a.byte_addr == index
      then tag_of config a.byte_addr == tag && (a.is_write || written index tag older)
      else written index tag older

  -- The line that a history leaves at an index.
  abbrev pub line_of : ℕ → List Access → Option ℕ → Line
  line_of index history none = empty_line
  line_of index history (some tag) = record {
    valid = true;
    dirty = config.write_back && written index tag history;
    tag = tag;
  }

  abbrev pub expected_line : ℕ → List Access → Line
  expected_line index history = line_of index history (last_tag index history)

  -- What an access answers after a history, from the word that its line holds.
  abbrev answer : ℕ → ℕ → List Access → Option ℕ → AccessResult
  answer index tag history none = record {
    hit = false;
    miss = true;
    writeback = false;
    stall_cycles = clean_miss_penalty config;
  }
  answer index tag history (some old) = if old == tag then hit_result else record {
    hit = false;
    miss = true;
    writeback = config.write_back && written index old history;
    stall_cycles =
        if config.write_back && written index old history
        then dirty_miss_penalty config
        else clean_miss_penalty config;
  }

  abbrev pub expected_result : ℕ → ℕ → List Access → AccessResult
  expected_result index tag history = answer index tag history (last_tag index history)

module _ (c : Cache) (w : Bool) (index tag : ℕ) (line : Line) where
  -- The line that an access leaves, at its own index and at another one.
  abbrev next_line : Line
  next_line =
      if matches line tag
      then (if w && c.config.write_back then record line { dirty = true } else line)
      else record { valid = true; dirty = w && c.config.write_back; tag = tag }

  access_line-get_or :
      (j : ℕ)
      → index < length c.lines
      → get_or empty_line c.lines index ≡ line
      → get_or empty_line (access_line c index tag line w).0.lines j
        ≡ (if index == j then next_line else get_or empty_line c.lines j)
  access_line-get_or j h e = ground (
    arith,
    get_or-set empty_line c.lines index j (record line { dirty = true }) h,
    get_or-set empty_line c.lines index j
        (record { valid = true; dirty = w && c.config.write_back; tag = tag }) h,
  )

-- A word that is not the last one of its index is not held, and so was not written since.
written-last_tag :
    (config : CacheConfig) (index tag : ℕ) (history : List Access)
    → written config index tag history ≡ true
    → last_tag config index history ≡ some tag
unfolding last_tag written
written-last_tag config index tag [] h = cc
written-last_tag config index tag (a ∷ older) h =
    ground (arith, written-last_tag config index tag older)

not_written :
    (config : CacheConfig) (index tag : ℕ) (history : List Access)
    → last_tag config index history ≢ some tag
    → written config index tag history ≡ false
not_written config index tag history h = elim (Bool-cases (written config index tag history)) [
  | inl e ↦ absurd (h (written-last_tag config index tag history e))
  | inr e ↦ e
]

next_line-line_of :
    (c : Cache) (a : Access) (history : List Access) (index : ℕ)
    → index_of c.config a.byte_addr ≡ index
    → next_line c a.is_write index
        (tag_of c.config a.byte_addr)
        (expected_line c.config index history)
      ≡ expected_line c.config index (a ∷ history)
unfolding last_tag written
next_line-line_of c a history index e =
    ground (arith, not_written c.config index (tag_of c.config a.byte_addr) history)

elsewhere :
    (config : CacheConfig) (a : Access) (history : List Access) (j : ℕ)
    → (index_of config a.byte_addr == j) ≡ false
    → expected_line config j (a ∷ history) ≡ expected_line config j history
unfolding last_tag written
elsewhere config a history j e = ground arith

access-access_line :
    (d : Cache) (addr : ℕ) (w : Bool)
    → d.config.enabled ≡ true
    → access d addr w
      ≡ access_line d
          (index_of d.config addr)
          (tag_of d.config addr)
          (get_or empty_line d.lines (index_of d.config addr))
          w
unfolding access
access-access_line d addr w enabled = rw (enabled) refl

access_line-answer :
    (d : Cache) (index tag : ℕ) (history : List Access) (w : Bool) (held : Option ℕ)
    → (access_line d index tag (line_of d.config index history held) w).1
      ≡ answer d.config index tag history held
access_line-answer d index tag history w none = ground arith
access_line-answer d index tag history w (some old) = ground arith

-- An access keeps the lines of a cache told by its history.
access-told :
    (d : Cache) (a : Access) (history : List Access) (j : ℕ)
    → d.config.enabled ≡ true
    → index_of d.config a.byte_addr < length d.lines
    → ((i : ℕ) → get_or empty_line d.lines i ≡ expected_line d.config i history)
    → get_or empty_line (access d a.byte_addr a.is_write).0.lines j
      ≡ expected_line d.config j (a ∷ history)
access-told d a history j enabled h told =
    let index = index_of d.config a.byte_addr in
    let tag = tag_of d.config a.byte_addr in
    let line = expected_line d.config index history in
    rw (access-access_line d a.byte_addr a.is_write enabled, told index)
      (access_line-get_or d a.is_write index tag line j h (told index)
        ∙ elim (Bool-cases (index == j)) [
          | inl here ↦
              let there : index ≡ j = ground (arith, here) in
              rw (here) (
                next_line-line_of d a history index refl
                ∙ ap (λ i. expected_line d.config i (a ∷ history)) there)
          | inr other ↦ rw (other) (told j ∙ sym (elsewhere d.config a history j other))
        ])

answer-told :
    (d : Cache) (addr : ℕ) (w : Bool) (history : List Access)
    → d.config.enabled ≡ true
    → get_or empty_line d.lines (index_of d.config addr)
      ≡ expected_line d.config (index_of d.config addr) history
    → (access d addr w).1
      ≡ expected_result d.config (index_of d.config addr) (tag_of d.config addr) history
answer-told d addr w history enabled told =
    let index = index_of d.config addr in
    rw (access-access_line d addr w enabled, told)
      (access_line-answer d index (tag_of d.config addr) history w
        (last_tag d.config index history))

module _ (config : CacheConfig) (c : Cache) (configured : configure config ≡ ok c)
    (enabled : config.enabled ≡ true) where
  nonzero : 0 < config.lines
  unfolding configure
  nonzero = ground arith

  run-shape :
      (history : List Access) → ((run c history).config ≡ config) × IsConsistent (run c history)
  unfolding run access configure
  run-shape [] = (ground arith, configure-IsConsistent config c configured)
  run-shape (a ∷ older) =
      let (same, consistent) = run-shape older in
      (ground (arith, same), access-IsConsistent (run c older) a.byte_addr a.is_write consistent)

  index-below :
      (history : List Access) (addr : ℕ) → index_of config addr < length (run c history).lines
  unfolding index_of
  index-below history addr =
      let (same, consistent) = run-shape history in
      let present = consistent.lines_present in
      ground (arith, same, mod-lt (addr / config.line_bytes) nonzero)

  -- Each line is the one that the history determines.
  run-line :
      (history : List Access) (j : ℕ)
      → get_or empty_line (run c history).lines j ≡ expected_line config j history
  unfolding run last_tag configure
  run-line [] j = ground (arith, get_or-replicate config.lines empty_line j)
  run-line (a ∷ older) j =
      let (same, consistent) = run-shape older in
      access-told (run c older) a older j (ap (λ k. k.enabled) same ∙ enabled)
        (rw (same) (index-below older a.byte_addr))
        (λ i. run-line older i ∙ ap (λ k. expected_line k i older) (sym same))
      ∙ ap (λ k. expected_line k j (a ∷ older)) same

  run-told :
      (history : List Access) (i : ℕ)
      → get_or empty_line (run c history).lines i ≡ expected_line (run c history).config i history
  run-told history i =
      run-line history i ∙ ap (λ k. expected_line k i history) (sym (run-shape history).0)

  -- An access answers what the accesses before it determine: a hit exactly when the last access to its
  -- line was to the same word; a miss writes the line back exactly when the cache is write-back and
  -- the word held was written since it came; and a miss costs the latency and 4 cycles, or twice the
  -- latency and 7 with the writeback. For a cache that configure accepts and that is enabled.
  pub access-expected_result :
      (history : List Access) (addr : ℕ) (w : Bool)
      → (access (run c history) addr w).1
        ≡ expected_result config (index_of config addr) (tag_of config addr) history
  access-expected_result history addr w =
      let same = (run-shape history).0 in
      answer-told (run c history) addr w history (ap (λ k. k.enabled) same ∙ enabled)
        (run-told history (index_of (run c history).config addr))
      ∙ ap (λ k. expected_result k (index_of k addr) (tag_of k addr) history) same
