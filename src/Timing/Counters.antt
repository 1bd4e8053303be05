-- ===== src/Timing/Counters.antt =====
-- The counters of the timing model against its history: how often each stall arises, counted on the
-- instructions alone. A history has its last event first.
use rv32im_so_c_performance.Base.{
  ℕ, ◌+◌, ◌-◌, ◌*◌, ◌%◌, ◌^◌, ◌≡◌, refl, sym, subst, ap, ◌∙◌, Bool, true, false, not, ◌&&◌, ◌||◌,
  Option, none, some, List, [], ◌∷◌, ◌==◌, if◌then◌else◌, arith,
}
use rv32im_so_c_performance.Timing.{
  TimingConfig, Pipeline, Decoded, decode, reset, retire, add_external_stalls, load_use,
  divider_penalty, add_if,
}

pub data Event : Type 0 where
  stalled : ℕ → Event
  retired : ℕ → Bool → Event

abbrev pub step : Pipeline → Event → Pipeline
step p (stalled cycles) = add_external_stalls p cycles
step p (retired insn branch_taken) = (retire p insn branch_taken).0

unfoldable pub run : TimingConfig → List Event → Pipeline
run config [] = reset config
run config (e ∷ older) = step (run config older) e

-- The instruction that retired last.
unfoldable pub last_retired : List Event → Option ℕ
last_retired [] = none
last_retired (stalled _ ∷ older) = last_retired older
last_retired (retired insn _ ∷ older) = some insn

abbrev pub reads : Decoded → ℕ → Bool
reads d r = (d.uses_rs1 && d.rs1 == r) || (d.uses_rs2 && d.rs2 == r)

-- A load into a register other than x0, and an instruction that reads it.
unfoldable pub is_hazard : Option ℕ → ℕ → Bool
is_hazard none insn = false
is_hazard (some before) insn =
    (decode before).is_load
    && not ((decode before).rd == 0)
    && reads (decode insn) (decode before).rd

unfoldable pub divides : Option ℕ → Bool
divides none = false
divides (some insn) = (decode insn).is_div_rem

abbrev pub one_if : Bool → ℕ
one_if b = if b then 1 else 0

-- How often an instruction after another one satisfies a test.
unfoldable pub count : (Option ℕ → ℕ → Bool → Bool) → List Event → ℕ
count f [] = 0
count f (stalled _ ∷ older) = count f older
count f (retired insn taken ∷ older) = one_if (f (last_retired older) insn taken) + count f older

unfoldable pub external : List Event → ℕ
external [] = 0
external (stalled cycles ∷ older) = cycles + external older
external (retired _ _ ∷ older) = external older

abbrev pub retirements : List Event → ℕ
retirements = count (λ _ _ _. true)

abbrev pub hazards : List Event → ℕ
hazards = count (λ before insn _. is_hazard before insn)

abbrev pub taken_branches : List Event → ℕ
taken_branches = count (λ _ insn taken. (decode insn).is_branch && taken)

abbrev pub jumps : List Event → ℕ
jumps = count (λ _ insn _. (decode insn).is_jump)

-- The divisions that start a burst, and those that continue one.
abbrev pub bursts : List Event → ℕ
bursts = count (λ before insn _. (decode insn).is_div_rem && not (divides before))

abbrev pub continued : List Event → ℕ
continued = count (λ before insn _. (decode insn).is_div_rem && divides before)

-- The cycles that all stalls of a history cost.
abbrev pub stall_cycles : TimingConfig → List Event → ℕ
stall_cycles config history =
    hazards history * config.load_use_penalty
    + taken_branches history * config.taken_branch_penalty
    + jumps history * config.jump_redirect_penalty
    + (bursts history * (config.divider_latency - 1)
        + continued history * (config.divider_initiation_interval - 1))
    + external history

pub record Counts (config : TimingConfig) (history : List Event) (p : Pipeline) : Type 0 where
  pub retired : p.stats.retired ≡ retirements history % 2 ^ 64
  pub load_use_stalls : p.stats.load_use_stalls ≡ hazards history * config.load_use_penalty % 2 ^ 64
  pub branch_redirect_stalls :
      p.stats.branch_redirect_stalls ≡ taken_branches history * config.taken_branch_penalty % 2 ^ 64
  pub jump_redirect_stalls :
      p.stats.jump_redirect_stalls ≡ jumps history * config.jump_redirect_penalty % 2 ^ 64
  pub divider_stalls :
      p.stats.divider_stalls
      ≡ (bursts history * (config.divider_latency - 1)
          + continued history * (config.divider_initiation_interval - 1))
        % 2 ^ 64
  pub accumulated_stalls : p.accumulated_stalls ≡ stall_cycles config history % 2 ^ 64

-- What the pipeline keeps of the instruction before.
abbrev pub Remembered : Option ℕ → Pipeline → Type 0
Remembered none p = (p.previous_was_load ≡ false) × (p.previous_was_div_rem ≡ false)
Remembered (some insn) p =
    (p.previous_was_load ≡ (decode insn).is_load)
    × (p.previous_load_rd ≡ (if (decode insn).is_load then (decode insn).rd else 0))
    × (p.previous_was_div_rem ≡ (decode insn).is_div_rem)

stall-Remembered :
    (before : Option ℕ) (p : Pipeline) (cycles : ℕ)
    → Remembered before p
    → Remembered before (add_external_stalls p cycles)
unfolding add_external_stalls
stall-Remembered none p cycles h = h
stall-Remembered (some insn) p cycles h = h

pub run-Remembered :
    (config : TimingConfig) (history : List Event)
    → Remembered (last_retired history) (run config history)
unfolding run last_retired reset retire
run-Remembered config [] = (refl, refl)
run-Remembered config (stalled cycles ∷ older) =
    stall-Remembered (last_retired older) (run config older) cycles (run-Remembered config older)
run-Remembered config (retired insn taken ∷ older) = (refl, refl, refl)

-- One more stall on a counter.
add_if-one_if :
    (b : Bool) (n k s : ℕ) → s ≡ n * k % 2 ^ 64 → add_if b s k ≡ (one_if b + n) * k % 2 ^ 64
add_if-one_if true n k s e = ground arith
add_if-one_if false n k s e = ground arith

pub load_use-is_hazard :
    (p : Pipeline) (before : Option ℕ) (insn : ℕ)
    → Remembered before p
    → load_use p (decode insn) ≡ is_hazard before insn
unfolding is_hazard
load_use-is_hazard p none insn h = ground arith
load_use-is_hazard p (some old) insn h = ground arith

pub divides-previous :
    (p : Pipeline) (before : Option ℕ)
    → Remembered before p
    → p.previous_was_div_rem ≡ divides before
unfolding divides
divides-previous p none h = h.1
divides-previous p (some old) h = h.2

divider-counts :
    (config : TimingConfig) (d b : Bool) (n m s : ℕ)
    → s ≡ (n * (config.divider_latency - 1) + m * (config.divider_initiation_interval - 1)) % 2 ^ 64
    → add_if d s (divider_penalty config b)
      ≡ ((one_if (d && not b) + n) * (config.divider_latency - 1)
          + (one_if (d && b) + m) * (config.divider_initiation_interval - 1))
        % 2 ^ 64
divider-counts config d b n m s e = ground arith

-- One more stall on the total.
pub add_if-sum :
    (b : Bool) (s total k : ℕ) → s ≡ total % 2 ^ 64 → add_if b s k ≡ (total + one_if b * k) % 2 ^ 64
add_if-sum true s total k e = ground arith
add_if-sum false s total k e = ground arith

pub divider-sum :
    (config : TimingConfig) (d b : Bool) (s total : ℕ)
    → s ≡ total % 2 ^ 64
    → add_if d s (divider_penalty config b)
      ≡ (total
          + (one_if (d && not b) * (config.divider_latency - 1)
              + one_if (d && b) * (config.divider_initiation_interval - 1)))
        % 2 ^ 64
divider-sum config d b s total e = ground arith

-- The total of the stalls, from one counter each.
add_if-stalls :
    (config : TimingConfig) (hazard taken jump d b : Bool) (h t j n m e s : ℕ)
    → s
      ≡ (h * config.load_use_penalty
          + t * config.taken_branch_penalty
          + j * config.jump_redirect_penalty
          + (n * (config.divider_latency - 1) + m * (config.divider_initiation_interval - 1))
          + e)
        % 2 ^ 64
    → add_if jump
        (add_if taken
          (add_if d (add_if hazard s config.load_use_penalty) (divider_penalty config b))
          config.taken_branch_penalty)
        config.jump_redirect_penalty
      ≡ ((one_if hazard + h) * config.load_use_penalty
          + (one_if taken + t) * config.taken_branch_penalty
          + (one_if jump + j) * config.jump_redirect_penalty
          + ((one_if (d && not b) + n) * (config.divider_latency - 1)
              + (one_if (d && b) + m) * (config.divider_initiation_interval - 1))
          + e)
        % 2 ^ 64
add_if-stalls config hazard taken jump d b h t j n m e s same =
    add_if-sum jump _ _ config.jump_redirect_penalty (
      add_if-sum taken _ _ config.taken_branch_penalty
        (divider-sum config d b _ _ (add_if-sum hazard s _ config.load_use_penalty same)))
    ∙ ap (λ x. x % 2 ^ 64) (grind arith)

retire-Counts :
    (p : Pipeline) (older : List Event) (insn : ℕ) (taken : Bool)
    → Remembered (last_retired older) p
    → Counts p.config older p
    → Counts p.config (retired insn taken ∷ older) (retire p insn taken).0
unfolding retire count external
retire-Counts p older insn taken h counts =
    let before = last_retired older in
    let current = decode insn in
    let hazard = is_hazard before insn in
    let taken_branch = current.is_branch && taken in
    rw (load_use-is_hazard p before insn h, divides-previous p before h)
      (record {
        retired = ground (arith, counts.retired);
        load_use_stalls =
            add_if-one_if hazard (hazards older) p.config.load_use_penalty _ counts.load_use_stalls;
        branch_redirect_stalls =
            add_if-one_if taken_branch (taken_branches older) p.config.taken_branch_penalty _
              counts.branch_redirect_stalls;
        jump_redirect_stalls =
            add_if-one_if current.is_jump (jumps older) p.config.jump_redirect_penalty _
              counts.jump_redirect_stalls;
        divider_stalls =
            divider-counts p.config current.is_div_rem (divides before) (bursts older)
              (continued older) _ counts.divider_stalls;
        accumulated_stalls =
            add_if-stalls p.config hazard taken_branch current.is_jump current.is_div_rem
              (divides before) (hazards older) (taken_branches older) (jumps older) (bursts older)
              (continued older) (external older) _ counts.accumulated_stalls;
      })

stall-Counts :
    (p : Pipeline) (older : List Event) (cycles : ℕ)
    → Counts p.config older p
    → Counts p.config (stalled cycles ∷ older) (add_external_stalls p cycles)
unfolding add_external_stalls count external
stall-Counts p older cycles counts = record {
  retired = counts.retired;
  load_use_stalls = counts.load_use_stalls;
  branch_redirect_stalls = counts.branch_redirect_stalls;
  jump_redirect_stalls = counts.jump_redirect_stalls;
  divider_stalls = counts.divider_stalls;
  accumulated_stalls = omega (arith, counts.accumulated_stalls);
}

pub run-config :
    (config : TimingConfig) (history : List Event) → (run config history).config ≡ config
unfolding run reset add_external_stalls retire
run-config config [] = refl
run-config config (stalled cycles ∷ older) = run-config config older
run-config config (retired insn taken ∷ older) = run-config config older

-- The counters of the timing model, after any events: each is the number of its stalls in the history
-- times what the configuration charges for one, modulo 2 ^ 64.
pub run-Counts :
    (config : TimingConfig) (history : List Event) → Counts config history (run config history)
unfolding run reset count external
run-Counts config [] = record {
  retired = refl;
  load_use_stalls = ground arith;
  branch_redirect_stalls = ground arith;
  jump_redirect_stalls = ground arith;
  divider_stalls = ground arith;
  accumulated_stalls = ground arith;
}
run-Counts config (stalled cycles ∷ older) =
    let p = run config older in
    let same = run-config config older in
    subst (λ k. Counts k (stalled cycles ∷ older) (add_external_stalls p cycles)) same
      (stall-Counts p older cycles
        (subst (λ k. Counts k older p) (sym same) (run-Counts config older)))
run-Counts config (retired insn taken ∷ older) =
    let p = run config older in
    let same = run-config config older in
    subst (λ k. Counts k (retired insn taken ∷ older) (retire p insn taken).0) same
      (retire-Counts p older insn taken (run-Remembered config older)
        (subst (λ k. Counts k older p) (sym same) (run-Counts config older)))
