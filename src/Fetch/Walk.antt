-- ===== src/Fetch/Walk.antt =====
-- The loop of ensure_through: how far it goes, what it requests, and where it never ends.
use rv32im_so_c_performance.Base.{
  ℕ, zero, suc, ◌+◌, ◌-◌, ◌*◌, ◌%◌, ◌^◌, ◌≡◌, ◌≤◌, ◌<◌, refl, ap, ◌∙◌, Bool, true, false, inl, inr,
  Bool-cases, leb, ltb, ◌/◌, max, ok, err, out_of_fuel, arith,
}
use rv32im_so_c_performance.Cache.{Cache, access}
use rv32im_so_c_performance.Fetch.{Fetch, Fetched, issue, advance, walk, ensure_through}

access-config : (c : Cache) (addr : ℕ) (w : Bool) → (access c addr w).0.config ≡ c.config
unfolding access
access-config c addr w = ground arith

-- What n turns of the loop do: each requests one address, and moves on to the next word.
pub record IsWalked (r : Fetched) (n : ℕ) (s : Fetched) : Type 0 where
  pub next_sequential_pc : s.fetch.next_sequential_pc ≡ r.fetch.next_sequential_pc + 4 * n
  pub issued_accesses :
      s.fetch.stats.issued_accesses % 2 ^ 64 ≡ (r.fetch.stats.issued_accesses + n) % 2 ^ 64
  pub wrong_path_accesses : s.fetch.stats.wrong_path_accesses ≡ r.fetch.stats.wrong_path_accesses
  pub redirect_events : s.fetch.stats.redirect_events ≡ r.fetch.stats.redirect_events
  pub fetch_config : s.fetch.config ≡ r.fetch.config
  pub icache_config : s.icache.config ≡ r.icache.config

advance-IsWalked :
    (r : Fetched) (target_pc : ℕ)
    → r.icache.config.enabled ≡ true
    → r.fetch.next_sequential_pc + 4 < 2 ^ 32
    → IsWalked r 1 (advance r target_pc)
unfolding advance issue
advance-IsWalked r target_pc enabled room = record {
  next_sequential_pc = omega arith;
  issued_accesses = ground arith;
  wrong_path_accesses = ground arith;
  redirect_events = ground arith;
  fetch_config = ground arith;
  icache_config = access-config r.icache r.fetch.next_sequential_pc false;
}

IsWalked-trans : (r s t : Fetched) (n : ℕ) → IsWalked r 1 s → IsWalked s n t → IsWalked r (suc n) t
IsWalked-trans r s t n first rest = record {
  next_sequential_pc = omega (arith, first.next_sequential_pc, rest.next_sequential_pc);
  issued_accesses = omega (arith, first.issued_accesses, rest.issued_accesses);
  wrong_path_accesses = rest.wrong_path_accesses ∙ first.wrong_path_accesses;
  redirect_events = rest.redirect_events ∙ first.redirect_events;
  fetch_config = rest.fetch_config ∙ first.fetch_config;
  icache_config = rest.icache_config ∙ first.icache_config;
}

pub walk-IsWalked :
    (n fuel : ℕ) (r : Fetched) (target_pc : ℕ)
    → n < fuel
    → r.icache.config.enabled ≡ true
    → target_pc + 4 ≡ r.fetch.next_sequential_pc + 4 * n
    → target_pc + 4 < 2 ^ 32
    → (s : Fetched) × (walk fuel r target_pc ≡ ok s) × IsWalked r n s
unfolding walk
walk-IsWalked n zero r target_pc enough enabled there room = absurd (omega arith)
walk-IsWalked zero (suc fuel) r target_pc enough enabled there room = (
  r,
  ground arith,
  record {
    next_sequential_pc = omega arith;
    issued_accesses = omega arith;
    wrong_path_accesses = refl;
    redirect_events = refl;
    fetch_config = refl;
    icache_config = refl;
  },
)
walk-IsWalked (suc n) (suc fuel) r target_pc enough enabled there room =
    let first = advance-IsWalked r target_pc enabled (omega arith) in
    let (s, returns, rest) =
      walk-IsWalked n fuel (advance r target_pc) target_pc (omega arith)
        (ap (λ k. k.enabled) first.icache_config ∙ enabled)
        (omega (arith, first.next_sequential_pc, there)) room in
    let goes_on : leb r.fetch.next_sequential_pc target_pc ≡ true = ground arith in
    (s, rw (goes_on) returns, IsWalked-trans r (advance r target_pc) s n first rest)

advance-next :
    (r : Fetched) (target_pc : ℕ)
    → (advance r target_pc).fetch.next_sequential_pc ≡ (r.fetch.next_sequential_pc + 4) % 2 ^ 32
unfolding advance issue
advance-next r target_pc = refl

-- The last word of memory is never passed: its successor wraps around to 0.
pub walk-endless :
    (fuel : ℕ) (r : Fetched)
    → r.fetch.next_sequential_pc % 4 ≡ 0
    → r.fetch.next_sequential_pc < 2 ^ 32
    → walk fuel r (2 ^ 32 - 4) ≡ err out_of_fuel
unfolding walk
walk-endless zero r aligned below = refl
walk-endless (suc fuel) r aligned below =
    let goes_on : leb r.fetch.next_sequential_pc (2 ^ 32 - 4) ≡ true = ground arith in
    rw (goes_on) (
      walk-endless fuel (advance r (2 ^ 32 - 4)) (omega (arith, advance-next r (2 ^ 32 - 4)))
        (omega (arith, advance-next r (2 ^ 32 - 4))))

ensure_through-walk :
    (fuel : ℕ) (f : Fetch) (icache : Cache) (target_pc : ℕ)
    → icache.config.enabled ≡ true
    → target_pc % 4 ≡ 0
    → ensure_through fuel f icache target_pc
      ≡ walk fuel (record { fetch = f; icache = icache; stalls = 0 }) target_pc
unfolding ensure_through
ensure_through-walk fuel f icache target_pc enabled aligned = ground (arith, enabled)

pub ensure_through-IsWalked :
    (n fuel : ℕ) (f : Fetch) (icache : Cache) (target_pc : ℕ)
    → n < fuel
    → icache.config.enabled ≡ true
    → target_pc % 4 ≡ 0
    → target_pc + 4 ≡ f.next_sequential_pc + 4 * n
    → target_pc + 4 < 2 ^ 32
    → (s : Fetched) × (ensure_through fuel f icache target_pc ≡ ok s)
      × IsWalked (record { fetch = f; icache = icache; stalls = 0 }) n s
ensure_through-IsWalked n fuel f icache target_pc enough enabled aligned there room =
    let start : Fetched = record { fetch = f; icache = icache; stalls = 0 } in
    let (s, returns, walked) = walk-IsWalked n fuel start target_pc enough enabled there room in
    (s, ensure_through-walk fuel f icache target_pc enabled aligned ∙ returns, walked)

walk-past :
    (fuel : ℕ) (r : Fetched) (target_pc : ℕ)
    → 0 < fuel
    → target_pc < r.fetch.next_sequential_pc
    → walk fuel r target_pc ≡ ok r
unfolding walk
walk-past zero r target_pc some_fuel past = absurd (omega arith)
walk-past (suc fuel) r target_pc some_fuel past = ground arith

-- The loop of ensure_through ends within a quarter of its target turns, past its target, when both
-- addresses are aligned and the target is not the last word of memory.
pub ensure_through-returns :
    (fuel : ℕ) (f : Fetch) (icache : Cache) (target_pc : ℕ)
    → f.next_sequential_pc % 4 ≡ 0
    → target_pc % 4 ≡ 0
    → target_pc + 4 < 2 ^ 32
    → target_pc + 4 < 4 * fuel
    → icache.config.enabled ≡ true
    → (s : Fetched) × (ensure_through fuel f icache target_pc ≡ ok s)
      × (s.fetch.next_sequential_pc ≡ max f.next_sequential_pc (target_pc + 4))
ensure_through-returns fuel f icache target_pc aligned word room enough enabled =
    let start : Fetched = record { fetch = f; icache = icache; stalls = 0 } in
    let walks = ensure_through-walk fuel f icache target_pc enabled word in
    elim (Bool-cases (ltb target_pc f.next_sequential_pc)) [
      | inl past ↦
          let past : target_pc < f.next_sequential_pc = ground (arith, past) in
          (start, walks ∙ walk-past fuel start target_pc (omega arith) past, omega arith)
      | inr before ↦
          let before : f.next_sequential_pc ≤ target_pc = ground (arith, before) in
          let n = (target_pc + 4 - f.next_sequential_pc) / 4 in
          let (s, returns, walked) =
            walk-IsWalked n fuel start target_pc (omega arith) enabled (omega arith) room in
          (s, walks ∙ returns, omega (arith, walked.next_sequential_pc))
    ]

-- The loop of ensure_through never ends at the last word of memory, whatever the fuel.
pub ensure_through-endless :
    (fuel : ℕ) (f : Fetch) (icache : Cache)
    → f.next_sequential_pc % 4 ≡ 0
    → f.next_sequential_pc < 2 ^ 32
    → icache.config.enabled ≡ true
    → ensure_through fuel f icache (2 ^ 32 - 4) ≡ err out_of_fuel
ensure_through-endless fuel f icache aligned below enabled =
    ensure_through-walk fuel f icache (2 ^ 32 - 4) enabled refl
    ∙ walk-endless fuel (record { fetch = f; icache = icache; stalls = 0 }) aligned below
