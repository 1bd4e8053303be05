-- ===== src/DesignSpace/Points.antt =====
-- The design points of scripts/run_milestone6a.py: the removal of repeated configurations, and the
-- searches for the baseline and for the validation points.
use rv32im_so_c_performance.Base.{
  ◌≡◌, refl, sym, ap, inl, inr, String, Bool, true, false, ◌&&◌, ◌||◌, not, List, [], ◌∷◌, map,
  Bool-cases, Result, ok, err, >>=-eq-ok, any_of, All, arith,
}
use rv32im_so_c_performance.Dominance.{In, here, there}
use rv32im_so_c_performance.Suite.{Host, run_capture}
use rv32im_so_c_performance.Suite.Reading.{stat}
use rv32im_so_c_performance.DesignSpace.{
  Config, Point, parse, command, divides, simulate, simulate_all, configs, same_key, unique_from,
  unique, next_with, baseline, selected_keys, select,
}

same_key_refl : (c : Config) → same_key c c ≡ true
same_key_refl c = ground arith

same_key-sym : (a b : Config) → same_key a b ≡ same_key b a
same_key-sym a b = ground arith

same_key-any_of :
    (a b : Config) (seen : List Config)
    → same_key a b ≡ true
    → any_of (same_key a) seen ≡ any_of (same_key b) seen
same_key-any_of a b [] h = refl
same_key-any_of a b (c ∷ seen) h = ground (arith, same_key-any_of a b seen h)

-- No key stands twice, nor in `seen`.
abbrev pub Fresh : List Config → List Config → Type 0
Fresh seen [] = Unit
Fresh seen (c ∷ cs) = (any_of (same_key c) seen ≡ false) × Fresh (c ∷ seen) cs

abbrev pub configs_of : List Point → List Config
configs_of rows = map (λ (r : Point). r.config) rows

unique_from-Fresh :
    (seen : List Config) (rows : List Point) → Fresh seen (configs_of (unique_from seen rows))
unfolding unique_from
unique_from-Fresh seen [] = tt
unique_from-Fresh seen (r ∷ rows) = elim (Bool-cases (any_of (same_key r.config) seen)) [
  | inl e ↦ rw e (unique_from-Fresh seen rows)
  | inr e ↦ rw e (e, unique_from-Fresh (r.config ∷ seen) rows)
]

-- A row is kept, or one with its key was kept or seen before.
abbrev Covered : Config → List Config → List Point → Type 0
Covered c seen kept = any_of (same_key c) seen || any_of (same_key c) (configs_of kept) ≡ true

Covered-cons :
    (c d : Config) (seen kept : List Config)
    → any_of (same_key c) (d ∷ seen) || any_of (same_key c) kept ≡ true
    → any_of (same_key c) seen || any_of (same_key c) (d ∷ kept) ≡ true
Covered-cons c d seen kept h = ground arith

Covered-self : (c : Config) (kept : List Config) → any_of (same_key c) (c ∷ kept) ≡ true
Covered-self c kept = ground (arith, same_key_refl c)

unique_from-Covered :
    (seen : List Config) (rows : List Point) (p : Point)
    → In p rows
    → Covered p.config seen (unique_from seen rows)
unfolding unique_from
unique_from-Covered seen [] p m = elim m [ ]
unique_from-Covered seen (r ∷ rows) p (here same) =
    elim (Bool-cases (any_of (same_key r.config) seen)) [
      | inl e ↦ rw (same, e)
      | inr e ↦
          rw (same, e) (Covered-self r.config (configs_of (unique_from (r.config ∷ seen) rows)))
    ]
unique_from-Covered seen (r ∷ rows) p (there m) =
    elim (Bool-cases (any_of (same_key r.config) seen)) [
      | inl e ↦ rw e (unique_from-Covered seen rows p m)
      | inr e ↦ rw e (
          Covered-cons p.config r.config seen (configs_of (unique_from (r.config ∷ seen) rows))
            (unique_from-Covered (r.config ∷ seen) rows p m))
    ]

-- After the removal no two rows have the same key, and every row of the sweep has its key among
-- those that are left.
unique-Fresh :
    (rows : List Point)
    → Fresh [] (configs_of (unique rows))
      × ((p : Point) → In p rows → any_of (same_key p.config) (configs_of (unique rows)) ≡ true)
unfolding unique
unique-Fresh rows = (unique_from-Fresh [] rows, unique_from-Covered [] rows)

simulate-config :
    (host : Host) (exe : String) (c : Config) (p : Point)
    → simulate host exe c ≡ ok p
    → p.config ≡ c
unfolding simulate
simulate-config host exe c p h =
    let (out, _, h1) = >>=-eq-ok (run_capture host (command exe c)) _ h in
    let (_, _, h2) = >>=-eq-ok (stat "cycles" (parse out)) _ h1 in
    let (retired, _, h3) = >>=-eq-ok (stat "retired" (parse out)) _ h2 in
    let (_, _, h4) = >>=-eq-ok (divides retired) _ h3 in
    let (_, _, h5) = >>=-eq-ok (stat "icache_hits" (parse out)) _ h4 in
    let (_, _, h6) = >>=-eq-ok (stat "icache_accesses" (parse out)) _ h5 in
    let (_, _, h7) = >>=-eq-ok (stat "dcache_hits" (parse out)) _ h6 in
    let (_, _, h8) = >>=-eq-ok (stat "dcache_accesses" (parse out)) _ h7 in
    sym (ap (λ r. config_or r c) h8)
  where
    config_or : Result Point → Config → Config
    config_or (ok p) c = p.config
    config_or (err e) c = c

pub simulate_all-configs :
    (host : Host) (exe : String) (cs : List Config) (rows : List Point)
    → simulate_all host exe cs ≡ ok rows
    → configs_of rows ≡ cs
unfolding simulate_all
simulate_all-configs host exe [] rows h = rw (empty rows h)
  where
    empty : (rows : List Point) → ◌≡◌ {A = Result (List Point)} (ok []) (ok rows) → rows ≡ []
    empty rows h = cc
simulate_all-configs host exe (c ∷ cs) rows h =
    let (p, one, h1) = >>=-eq-ok (simulate host exe c) _ h in
    let (ps, others, h2) = >>=-eq-ok (simulate_all host exe cs) _ h1 in
    rw (
      cons p ps rows h2,
      simulate-config host exe c p one,
      simulate_all-configs host exe cs ps others,
    )
  where
    cons : (p : Point) (ps rows : List Point) → ok (p ∷ ps) ≡ ok rows → rows ≡ p ∷ ps
    cons p ps rows h = cc

fresh : List Config → List Config → Bool
fresh seen [] = true
fresh seen (c ∷ cs) = not (any_of (same_key c) seen) && fresh (c ∷ seen) cs

unique_from-fresh :
    (seen : List Config) (rows : List Point)
    → fresh seen (configs_of rows) ≡ true
    → unique_from seen rows ≡ rows
unfolding unique_from fresh
unique_from-fresh seen [] h = refl
unique_from-fresh seen (r ∷ rows) h = elim (Bool-cases (any_of (same_key r.config) seen)) [
  | inl e ↦ absurd (ground arith)
  | inr e ↦ rw e (ap (λ rs. r ∷ rs) (unique_from-fresh (r.config ∷ seen) rows (ground arith)))
]

next_with-present :
    (c : Config) (rows : List Point)
    → any_of (λ d. same_key d c) (configs_of rows) ≡ true
    → (p : Point) × (next_with c rows ≡ ok p) × (same_key p.config c ≡ true)
unfolding next_with
next_with-present c [] h = cc
next_with-present c (r ∷ rows) h = elim (Bool-cases (same_key r.config c)) [
  | inl e ↦ rw e (r, refl, e)
  | inr e ↦ rw e (next_with-present c rows (ground arith))
]

present : Config → Bool
present c = any_of (λ d. same_key d c) configs

select-present :
    (cs : List Config) (rows : List Point)
    → configs_of rows ≡ configs
    → All (λ c. present c ≡ true) cs
    → (ps : List Point) × (select cs rows ≡ ok ps)
unfolding select present
select-present [] rows e h = ([], refl)
select-present (c ∷ cs) rows e h =
    let (p, found, _) = next_with-present c rows (rw e h.0) in
    let (ps, others) = select-present cs rows e h.1 in (p ∷ ps, rw (found, others))

-- When all simulations of the sweep return, the removal of repeated configurations removes nothing,
-- and the searches for the baseline and for the four validation points find their rows.
pub sweep-lookups :
    (host : Host) (exe : String) (rows : List Point)
    → simulate_all host exe configs ≡ ok rows
    → (unique rows ≡ rows)
      × ((p : Point) × (next_with baseline (unique rows) ≡ ok p)
          × (same_key p.config baseline ≡ true))
      × ((ps : List Point) × (select selected_keys (unique rows) ≡ ok ps))
unfolding unique fresh present
sweep-lookups host exe rows h =
    let shape = simulate_all-configs host exe configs rows h in
    let kept = unique_from-fresh [] rows (rw shape refl) in
    (
      kept,
      rw kept (next_with-present baseline rows (rw shape refl)),
      rw kept (select-present selected_keys rows shape (refl, (refl, (refl, (refl, tt))))),
    )
