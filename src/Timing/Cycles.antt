-- ===== src/Timing/Cycles.antt =====
-- The cycle of a retirement in src/PipelineTimingModel.cpp, and the total after it, told from the history.
use rv32im_so_c_performance.Base.{
  ℕ, ◌+◌, ◌-◌, ◌*◌, ◌%◌, ◌^◌, ◌≡◌, ◌<◌, refl, ap, ◌∙◌, Bool, not, ◌&&◌, Option, List, ◌∷◌, arith,
}
use rv32im_so_c_performance.Cache.{add64}
use rv32im_so_c_performance.Timing.{
  TimingConfig, Pipeline, RetireResult, decode, retire, fill_drain, add_if, load_use,
  divider_penalty,
}
use rv32im_so_c_performance.Timing.Counters.{
  Event, retired, run, last_retired, is_hazard, divides, one_if, retirements, stall_cycles,
  run-Counts, run-Remembered, run-config, load_use-is_hazard, divides-previous, add_if-sum,
  divider-sum,
}

-- The stalls that an instruction waits for before it retires.
abbrev pub own_stalls : TimingConfig → Option ℕ → ℕ → ℕ
own_stalls config before insn =
    let division = (decode insn).is_div_rem in
    one_if (is_hazard before insn) * config.load_use_penalty
    + (one_if (division && not (divides before)) * (config.divider_latency - 1)
        + one_if (division && divides before) * (config.divider_initiation_interval - 1))

pub record Retires (config : TimingConfig) (older : List Event) (insn : ℕ) (taken : Bool)
    (p : Pipeline) (result : RetireResult) : Type 0 where
  pub retire_cycle :
      result.retire_cycle
      ≡ (retirements older
          + 1
          + (config.pipeline_depth - 1)
          + (stall_cycles config older + own_stalls config (last_retired older) insn))
        % 2 ^ 64
  pub total_cycles :
      p.stats.total_cycles
      ≡ (retirements older
          + 1
          + (config.pipeline_depth - 1)
          + stall_cycles config (retired insn taken ∷ older))
        % 2 ^ 64

fill_drain-depth :
    (config : TimingConfig) (n : ℕ) → 0 < n → fill_drain config n ≡ config.pipeline_depth - 1
fill_drain-depth config n h = ground arith

-- The sum of a retirement, from numbers that have wrapped around.
cycle_sum :
    (config : TimingConfig) (before n waits stalls : ℕ)
    → before ≡ n % 2 ^ 64
    → n + 1 < 2 ^ 64
    → waits ≡ stalls % 2 ^ 64
    → add64 (add64 (add64 before 1) (fill_drain config (add64 before 1))) waits
      ≡ (n + 1 + (config.pipeline_depth - 1) + stalls) % 2 ^ 64
cycle_sum config before n waits stalls e fits w =
    let here : add64 before 1 ≡ n + 1 = omega arith in
    rw (here, fill_drain-depth config (n + 1) (omega arith)) (omega (arith, w))

retire-total_cycles :
    (p : Pipeline) (insn : ℕ) (taken : Bool)
    → let q = (retire p insn taken).0 in
      let n = add64 p.stats.retired 1 in
      q.stats.total_cycles ≡ add64 (add64 n (fill_drain p.config n)) q.accumulated_stalls
unfolding retire
retire-total_cycles p insn taken = refl

retire-retire_cycle :
    (p : Pipeline) (insn : ℕ) (taken : Bool)
    → let n = add64 p.stats.retired 1 in
      let waits =
        add_if
          (decode insn).is_div_rem
          (add_if (load_use p (decode insn)) p.accumulated_stalls p.config.load_use_penalty)
          (divider_penalty p.config p.previous_was_div_rem) in
      (retire p insn taken).1.retire_cycle ≡ add64 (add64 n (fill_drain p.config n)) waits
unfolding retire
retire-retire_cycle p insn taken = refl

-- What a retirement waits for, from the stalls before it.
waits-own_stalls :
    (config : TimingConfig) (before : Option ℕ) (insn s total : ℕ)
    → s ≡ total % 2 ^ 64
    → add_if
        (decode insn).is_div_rem
        (add_if (is_hazard before insn) s config.load_use_penalty)
        (divider_penalty config (divides before))
      ≡ (total + own_stalls config before insn) % 2 ^ 64
waits-own_stalls config before insn s total e =
    let hazard = is_hazard before insn in
    let division = (decode insn).is_div_rem in
    divider-sum config division (divides before) _ (total + one_if hazard * config.load_use_penalty)
      (add_if-sum hazard s total config.load_use_penalty e)
    ∙ ap (λ x. x % 2 ^ 64) (omega arith)

-- An instruction retires in the cycle that is its place among the retired ones, with the fill of the
-- pipeline, every stall of the history before it, and its own stalls on a load and on the divider; the
-- total also has its redirect. The cycles are modulo 2 ^ 64, and the retired instructions below it.
pub retire-Retires :
    (config : TimingConfig) (older : List Event) (insn : ℕ) (taken : Bool)
    → retirements older + 1 < 2 ^ 64
    → let (p, result) = retire (run config older) insn taken in
      Retires config older insn taken p result
unfolding run
retire-Retires config older insn taken fits =
    let p = run config older in
    let same = run-config config older in
    let counts = run-Counts config older in
    let later = run-Counts config (retired insn taken ∷ older) in
    let memory = run-Remembered config older in
    let before = last_retired older in
    let n = add64 p.stats.retired 1 in
    let charged : TimingConfig → Bool → Bool → ℕ = λ k hazard divided.
      add64 (add64 n (fill_drain k n)) (
        add_if (decode insn).is_div_rem (add_if hazard p.accumulated_stalls k.load_use_penalty)
          (divider_penalty k divided)) in
    record {
      retire_cycle =
          retire-retire_cycle p insn taken
          ∙ ap (λ k. charged k (load_use p (decode insn)) p.previous_was_div_rem) same
          ∙ ap (λ b. charged config b p.previous_was_div_rem)
              (load_use-is_hazard p before insn memory)
          ∙ ap (λ b. charged config (is_hazard before insn) b) (divides-previous p before memory)
          ∙ cycle_sum config p.stats.retired (retirements older) _ _ counts.retired fits (
              waits-own_stalls config before insn p.accumulated_stalls (stall_cycles config older)
                counts.accumulated_stalls);
      total_cycles =
          retire-total_cycles p insn taken
          ∙ ap (λ k. add64 (add64 n (fill_drain k n)) (retire p insn taken).0.accumulated_stalls)
              same
          ∙ cycle_sum config p.stats.retired (retirements older) _ _ counts.retired fits
              later.accumulated_stalls;
    }
