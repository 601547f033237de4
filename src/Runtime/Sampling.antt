-- ===== src/Runtime/Sampling.antt =====
-- How often a region that runs many times is counted, by ZRAY_SAMPLE_RATE (src/zray_dyn.cc).
use zray.Base.{
  ℕ, zero, suc, ◌+◌, ◌-◌, ◌*◌, ◌/◌, ◌%◌, ◌^◌, ◌<◌, ◌≡◌, refl, true, List, [], ◌∷◌, arith, length,
  All, ◌==◌, if◌then◌else◌, ◌∙◌, ap, sym, ==-cases, Bool, inl, inr,
}
use native.Mathlib.Nat.{zero-add, add-zero, add-mul-div_right, mod-add-div', mod-lt, div-eq_of_lt}
use zray.Base.Word.{wadd, wmul}
use zray.Runtime.{Config, Thread, Timespec, Update, pragma_region_limit, run, is_sampled}
use zray.Runtime.Straight.{straight, hits, SmallSet, round_counter}
use zray.Runtime.SaveStack.{SaveInv, recast}
use zray.Runtime.Timing.{invocation_profile}
use zray.Runtime.Nesting.{
  Code, done, region, trace, RegionsInLimit, Restored, nesting, run-Restored, run-trace_region,
  Restored-SaveInv,
}

-- The times of entry and exit of successive invocations.
abbrev pub rounds : ℕ → List Update → List (Timespec × Timespec) → Code
rounds r us [] = done
rounds r us ((from, to) ∷ ws) = region r from (straight us) to (rounds r us ws)

-- How many of `n` invocations are sampled, the first being number `first`.
pub sampled_rounds : Config → ℕ → ℕ → ℕ
sampled_rounds c first zero = 0
sampled_rounds c first (suc n) =
    (if is_sampled c first then 1 else 0) + sampled_rounds c (first + 1) n

hits_step :
    (sampled : Bool) (old weight rest : ℕ)
    → wadd (if sampled then wadd old weight else old) (rest * weight)
      ≡ wadd old (((if sampled then 1 else 0) + rest) * weight)
hits_step sampled old weight rest = ground arith

step_lt :
    (sampled : Bool) (old weight : ℕ)
    → old < 2 ^ 64
    → (if sampled then wadd old weight else old) < 2 ^ 64
step_lt sampled old weight h = ground arith

run-nil : (c : Config) (t : Thread) → run c [] t ≡ t
unfolding run
run-nil c t = refl

straight-RegionsInLimit : (us : List Update) → RegionsInLimit (straight us)
straight-RegionsInLimit [] = tt
straight-RegionsInLimit (u ∷ us) = straight-RegionsInLimit us

nesting-straight : (us : List Update) → nesting (straight us) ≡ 0
nesting-straight [] = refl
nesting-straight (u ∷ us) = nesting-straight us

one_round-trace :
    (c : Config) (r : ℕ) (us : List Update) (from to : Timespec) (k : Code) (t : Thread)
    → run c (trace (region r from (straight us) to k)) t
      ≡ run c (trace k) (run c (trace (region r from (straight us) to done)) t)
unfolding run
one_round-trace c r us from to k t =
    run-trace_region c r from to (straight us) k t
    ∙ ap (run c (trace k)) (sym (run-trace_region c r from to (straight us) done t))

-- Over successive invocations of a region by a thread outside every region, the counter of each
-- set in the region's row grows by what one invocation's body adds to it, times the number of the
-- sampled invocations, modulo 2 ^ 64.
pub rounds_counter :
    (c : Config) (r : ℕ) (us : List Update) (ws : List (Timespec × Timespec)) (s : ℕ) (t : Thread)
    → r < pragma_region_limit
    → SaveInv 1 t
    → t.region_depth r ≡ 0
    → t.global_disable ≡ true
    → All SmallSet us
    → s < 2 ^ 64
    → (t.timing r).count + length ws < 2 ^ 64
    → t.counter_array (wadd s (wmul r c.counter_dimension)) < 2 ^ 64
    → (run c (trace (rounds r us ws)) t).counter_array (wadd s (wmul r c.counter_dimension))
      ≡ wadd
          (t.counter_array (wadd s (wmul r c.counter_dimension)))
          (sampled_rounds c (t.timing r).count (length ws) * hits s us)
unfolding sampled_rounds
rounds_counter c r us [] s t lim v outside off h k n l = rw (run-nil c t) (omega arith)
rounds_counter c r us ((from, to) ∷ ws) s t lim v outside off h k n l =
    let code = region r from (straight us) to done in
    let limits : RegionsInLimit code = (lim, straight-RegionsInLimit us, tt) in
    let depth : suc (nesting (straight us)) ≡ 1 = omega (arith, nesting-straight us) in
    let whole : nesting code ≡ 1 = omega (arith, nesting-straight us) in
    let u = run c (trace code) t in
    let kept : Restored t u = run-Restored c code t limits (recast v whole) in
    let here = round_counter c r us from to s t outside off h k l in
    let count : (u.timing r).count ≡ (t.timing r).count + 1 =
      ap (λ p. p.count)
        (invocation_profile c r from to (straight us) t limits (recast v depth) outside)
      ∙ omega arith in
    let rest =
      rounds_counter c r us ws s u lim (Restored-SaveInv kept v) (kept.depth r ∙ outside)
        (kept.disable ∙ off) h k (omega (arith, count)) (rw here (step_lt _ _ _ l)) in
    let old = t.counter_array (wadd s (wmul r c.counter_dimension)) in
    let left = sampled_rounds c ((t.timing r).count + 1) (length ws) in
    rw (one_round-trace c r us from to (rounds r us ws) t) (
      rest
      ∙ ap
          (λ m.
            wadd (u.counter_array (wadd s (wmul r c.counter_dimension)))
              (sampled_rounds c m (length ws) * hits s us))
          count
      ∙ ap (λ a. wadd a (left * hits s us)) here
      ∙ hits_step (is_sampled c (t.timing r).count) old (hits s us) left)

-- x / p, rounded up
abbrev ceil_div : ℕ → ℕ → ℕ
ceil_div x p = (x + (p - 1)) / p

ceil_div_suc : (x p : ℕ) → 0 < p → ceil_div (x + 1) p ≡ x / p + 1
ceil_div_suc x p h =
    let split : x + 1 + (p - 1) ≡ x + 1 * p = omega arith in
    ap (λ t. t / p) split ∙ add-mul-div_right x 1 h

-- x / p, and one more where something is left over
ceil_div_lem : (x p : ℕ) → 0 < p → ceil_div x p ≡ x / p + (if x % p == 0 then 0 else 1)
ceil_div_lem x p h =
    let split : x + (p - 1) ≡ (x % p + (p - 1)) + x / p * p = omega (arith, mod-add-div' x p) in
    ap (λ t. t / p) split
    ∙ add-mul-div_right (x % p + (p - 1)) (x / p) h
    ∙ elim (==-cases (x % p) 0) [
      | inl e ↦ ground (arith, div-eq_of_lt {n = x % p + (p - 1)} {m = p} (omega arith))
      | inr k ↦
          let over : x % p + (p - 1) ≡ (x % p - 1) + 1 * p = omega arith in
          ground (
            arith,
            ap (λ t. t / p) over,
            add-mul-div_right (x % p - 1) 1 h,
            mod-lt x h,
            div-eq_of_lt {n = x % p - 1} {m = p} (omega (arith, mod-lt x h)),
          )
    ]

sampled_rounds_ceil :
    (c : Config) (first n : ℕ)
    → 0 < c.sampling_period
    → ceil_div first c.sampling_period + sampled_rounds c first n
      ≡ ceil_div (first + n) c.sampling_period
unfolding sampled_rounds is_sampled
sampled_rounds_ceil c first zero h =
    omega (arith, ap (λ t. ceil_div t c.sampling_period) (add-zero first))
sampled_rounds_ceil c first (suc n) h =
    let shift : first + suc n ≡ first + 1 + n = omega arith in
    ground (
      arith,
      sampled_rounds_ceil c (first + 1) n h,
      ceil_div_suc first c.sampling_period h,
      ceil_div_lem first c.sampling_period h,
      ap (λ t. ceil_div t c.sampling_period) shift,
    )

-- At a sampling period `p` every p-th invocation is sampled, the first of a thread included: of
-- `n` invocations these are n / p, rounded up.
pub sampled_rounds_closed :
    (c : Config) (n : ℕ)
    → 0 < c.sampling_period
    → sampled_rounds c 0 n ≡ (n + (c.sampling_period - 1)) / c.sampling_period
sampled_rounds_closed c n h =
    let start : c.sampling_period - 1 < c.sampling_period = omega arith in
    omega (
      arith,
      sampled_rounds_ceil c 0 n h,
      div-eq_of_lt start,
      ap (λ t. ceil_div t c.sampling_period) (zero-add n),
      ap (λ t. t / c.sampling_period) (zero-add (c.sampling_period - 1)),
    )

-- For a region that is invoked back to back, each time with the same list of counter updates and no
-- region opened in between, by a thread that is outside the region and in no counted region
-- (globalDisable is set), from its first invocation on (Count is 0) and at a sampling period `p`
-- above 0: each counter of the region grows by one invocation's updates of it times the number of
-- invocations divided by `p`, rounded up, modulo 2 ^ 64. The region's number is below the limit of
-- regions, the save stack has room for it, the numbers of the sets, the number of invocations and
-- the counter at first are below 2 ^ 64.
pub rounds_counter_closed :
    (c : Config) (r : ℕ) (us : List Update) (ws : List (Timespec × Timespec)) (s : ℕ) (t : Thread)
    → r < pragma_region_limit
    → SaveInv 1 t
    → t.region_depth r ≡ 0
    → t.global_disable ≡ true
    → (t.timing r).count ≡ 0
    → 0 < c.sampling_period
    → All SmallSet us
    → s < 2 ^ 64
    → length ws < 2 ^ 64
    → t.counter_array (wadd s (wmul r c.counter_dimension)) < 2 ^ 64
    → (run c (trace (rounds r us ws)) t).counter_array (wadd s (wmul r c.counter_dimension))
      ≡ wadd
          (t.counter_array (wadd s (wmul r c.counter_dimension)))
          ((length ws + (c.sampling_period - 1)) / c.sampling_period * hits s us)
rounds_counter_closed c r us ws s t lim v outside off first p h k n l =
    rounds_counter c r us ws s t lim v outside off h k (omega (arith, first)) l
    ∙ ap (λ m. wadd (t.counter_array (wadd s (wmul r c.counter_dimension))) (m * hits s us))
        (ap (λ m. sampled_rounds c m (length ws)) first ∙ sampled_rounds_closed c (length ws) p)
