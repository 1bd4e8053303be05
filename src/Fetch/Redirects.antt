-- ===== src/Fetch/Redirects.antt =====
-- What a redirect requests before it restarts the front end.
use rv32im_so_c_performance.Base.{
  ℕ, ◌+◌, ◌*◌, ◌%◌, ◌^◌, ◌≡◌, ◌<◌, refl, ap, sym, subst, ◌-◌, ◌∙◌, true, ok, arith,
}
use rv32im_so_c_performance.Cache.{Cache, add32, add64}
use rv32im_so_c_performance.Fetch.{
  Fetch, Fetched, redirect, restart, ensure_through, on_taken_branch, on_jump_redirect,
}
use rv32im_so_c_performance.Fetch.Walk.{ensure_through-IsWalked}

-- A redirect that restarts at a target after n requests on the wrong path.
pub record IsRedirected (f : Fetch) (n target_pc : ℕ) (s : Fetched) : Type 0 where
  pub next_sequential_pc : s.fetch.next_sequential_pc ≡ target_pc
  pub wrong_path_accesses : s.fetch.stats.wrong_path_accesses ≡ add64 f.stats.wrong_path_accesses n
  pub redirect_events : s.fetch.stats.redirect_events ≡ add64 f.stats.redirect_events 1

redirect-returns :
    (fuel : ℕ) (f : Fetch) (icache : Cache) (wrong_path_bytes pc target_pc : ℕ) (r : Fetched)
    → icache.config.enabled ≡ true
    → ensure_through fuel f icache (add32 pc wrong_path_bytes) ≡ ok r
    → redirect fuel f icache wrong_path_bytes pc target_pc
      ≡ ok (record r {
        fetch =
            restart r.fetch
              (add64 r.fetch.stats.wrong_path_accesses
                ((r.fetch.stats.issued_accesses + 2 ^ 64 - f.stats.issued_accesses) % 2 ^ 64))
              target_pc;
      })
redirect-returns fuel f icache wrong_path_bytes pc target_pc r enabled returns =
    ground (arith, enabled, returns)

module _ (fuel n : ℕ) (f : Fetch) (icache : Cache) (enabled : icache.config.enabled ≡ true)
    (enough : n < fuel) (counter : f.stats.issued_accesses < 2 ^ 64) (target_pc : ℕ) where
  redirect-IsRedirected :
      (wrong_path_bytes pc : ℕ)
      → (pc + wrong_path_bytes) % 4 ≡ 0
      → pc + wrong_path_bytes + 4 ≡ f.next_sequential_pc + 4 * n
      → pc + wrong_path_bytes + 4 < 2 ^ 32
      → (s : Fetched) × (redirect fuel f icache wrong_path_bytes pc target_pc ≡ ok s)
        × IsRedirected f n target_pc s
  redirect-IsRedirected wrong_path_bytes pc aligned there room =
      let (r, returns, walked) =
        ensure_through-IsWalked n fuel f icache (pc + wrong_path_bytes) enough enabled aligned there
          room in
      let no_wrap : add32 pc wrong_path_bytes ≡ pc + wrong_path_bytes = omega arith in
      (
        _,
        redirect-returns fuel f icache wrong_path_bytes pc target_pc r enabled
            (ap (ensure_through fuel f icache) no_wrap ∙ returns),
        record {
          next_sequential_pc = refl;
          wrong_path_accesses = omega (arith, walked.wrong_path_accesses, walked.issued_accesses);
          redirect_events = omega (arith, walked.redirect_events);
        },
      )

-- A taken branch, and likewise a jump, that has itself been fetched last, at an aligned address with 12
-- bytes of memory after it, with the configured 8 bytes of wrong path: the hook returns, after exactly
-- two requests on the wrong path, counts one redirect, and restarts at the target.
pub redirects-IsRedirected :
    (fuel : ℕ) (f : Fetch) (icache : Cache) (pc target_pc : ℕ)
    → icache.config.enabled ≡ true
    → 2 < fuel
    → f.stats.issued_accesses < 2 ^ 64
    → f.config.branch_wrong_path_bytes ≡ 8
    → f.config.jump_wrong_path_bytes ≡ 8
    → f.next_sequential_pc ≡ pc + 4
    → pc % 4 ≡ 0
    → pc + 12 < 2 ^ 32
    → ((s : Fetched) × (on_taken_branch fuel f icache pc target_pc ≡ ok s)
        × IsRedirected f 2 target_pc s)
      × ((s : Fetched) × (on_jump_redirect fuel f icache pc target_pc ≡ ok s)
          × IsRedirected f 2 target_pc s)
unfolding on_taken_branch on_jump_redirect
redirects-IsRedirected fuel f icache pc target_pc enabled enough counter b j there aligned room =
    let two =
      redirect-IsRedirected fuel 2 f icache enabled enough counter target_pc 8 pc (omega arith)
        (omega (arith, there)) (omega arith) in
    let hook : ℕ → Type 0 = λ bytes.
      (s : Fetched) × (redirect fuel f icache bytes pc target_pc ≡ ok s)
      × IsRedirected f 2 target_pc s in
    (subst hook (sym b) two, subst hook (sym j) two)
