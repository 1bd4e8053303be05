-- ===== src/Cpu/Replay.antt =====
-- The replay of a store whose wait overlaps with a refill, in src/CpuModel.cpp: its runtime error.
use rv32im_so_c_performance.Base.{
  ℕ, ◌≡◌, ◌<◌, ap, ◌∙◌, Bool, true, false, ◌==◌, if◌then◌else◌, inl, inr, Bool-cases, out_of_range,
  Error, Result, ok, err, >>=-eq-err, arith,
}
use rv32im_so_c_performance.Cache.{Cache, access}
use rv32im_so_c_performance.Cache.Consistent.{IsConsistent, access-IsConsistent, access-would_hit}
use rv32im_so_c_performance.Memory.{read32}
use rv32im_so_c_performance.Cpu.Locals.{
  Locals, sequential_next_redirect_target, cache_overlap_credit,
}
use rv32im_so_c_performance.Cpu.Execute.{settle, redirect_misses, overlap, replay, finish_store}

access-config : (c : Cache) (addr : ℕ) (w : Bool) → (access c addr w).0.config ≡ c.config
unfolding access
access-config c addr w = ground arith

hit-no_stall :
    (c : Cache) (addr : ℕ) (w : Bool)
    → (access c addr w).1.hit ≡ true
    → (access c addr w).1.stall_cycles ≡ 0
unfolding access
hit-no_stall c addr w h = ground (arith, h)

-- A store that has just been made hits when it is made again.
replay_lem :
    (c : Cache) (addr : ℕ)
    → IsConsistent c
    → 0 < c.config.lines
    → replay (access c addr true).0 addr ≡ ok (access (access c addr true).0 addr true).0
unfolding replay
replay_lem c addr h lines =
    let after = (access c addr true).0 in
    let filled = (access-would_hit c addr true h lines).1 in
    let hits =
      (access-would_hit after addr true (access-IsConsistent c addr true h)
        (omega (arith, ap (λ k. k.lines) (access-config c addr true)))).0
      ∙ filled in
    rw (hits, hit-no_stall after addr true hits)

-- The only exception of looking at the next instruction.
redirect_misses-out_of_range :
    (s : Locals) (dcache_stall ifetch_stall : ℕ) (e : Error)
    → redirect_misses s dcache_stall ifetch_stall ≡ err e
    → e ≡ out_of_range
unfolding redirect_misses sequential_next_redirect_target read32
redirect_misses-out_of_range s dcache_stall ifetch_stall e h = ground (arith, h)

overlap-returns :
    (s : Locals) (addr credit : ℕ) (c : Cache) (e : Error)
    → replay s.cpu.dcache addr ≡ ok c
    → overlap s addr credit ≡ err e
    → ⊥
unfolding overlap
overlap-returns s addr credit c e h k = elim (Bool-cases (credit == 0)) [
  | inl z ↦ returned _ (rw (z) at k)
  | inr z ↦ returned _ (rw (z, h) at k)
]
  where
    returned : (t : Locals) → ok t ≡ err e → ⊥
    returned t k = cc

-- Behind its first access to a consistent cache with at least one line, a store raises no error but that
-- of reading the next instruction out of range: the replay of an overlapped store always hits.
pub settle-replays :
    (c : Cache) (addr : ℕ) (s : Locals) (dcache_stall ifetch_stall : ℕ) (e : Error)
    → IsConsistent c
    → 0 < c.config.lines
    → s.cpu.dcache ≡ (access c addr true).0
    → settle s addr dcache_stall ifetch_stall ≡ err e
    → e ≡ out_of_range
unfolding settle
settle-replays c addr s dcache_stall ifetch_stall e h lines same fails =
    elim (>>=-eq-err (redirect_misses s dcache_stall ifetch_stall) _ fails) [
      | inl f ↦ redirect_misses-out_of_range s dcache_stall ifetch_stall e f
      | inr (overlaps, _, k) ↦
          let credit = if overlaps then cache_overlap_credit s.cpu dcache_stall else 0 in
          let waits = if overlaps then overlap s addr credit else ok s in
          elim (>>=-eq-err waits (λ t. ok (finish_store t dcache_stall ifetch_stall credit)) k) [
            | inl f ↦ absurd (either overlaps credit f)
            | inr (t, _, j) ↦ absurd (returned (finish_store t dcache_stall ifetch_stall credit) j)
          ]
    ]
  where
    hits : replay s.cpu.dcache addr ≡ ok (access (access c addr true).0 addr true).0
    hits = rw same (replay_lem c addr h lines)

    either :
        (b : Bool) (credit : ℕ)
        → ◌≡◌ {A = Result Locals} (if b then overlap s addr credit else ok s) (err e)
        → ⊥
    either true credit f = overlap-returns s addr credit _ e hits f
    either false credit f = cc

    returned : (t : Locals) → ok t ≡ err e → ⊥
    returned t k = cc
