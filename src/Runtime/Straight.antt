-- ===== src/Runtime/Straight.antt =====
-- One invocation of a region whose body opens no region, and the counters of src/zray_dyn.cc.
use zray.Base.{
  ℕ, ◌+◌, ◌^◌, ◌<◌, ◌≡◌, refl, true, false, List, [], ◌∷◌, arith, All, ◌==◌, if◌then◌else◌, ◌∙◌, ap,
  Bool-cases, inl, inr,
}
use zray.Base.Word.{wadd, wmul}
use zray.Runtime.{
  Config, Thread, Timespec, Update, counter, counter_sf, load, store, load_store, run, step,
  is_sampled, start_timing_event, end_timing_event, apply_update,
}
use zray.Runtime.Nesting.{Code, done, then_update, region, trace, run-trace_region, update-Restored}

abbrev pub set_of : Update → ℕ
set_of (counter r s) = s
set_of (counter_sf r s sf) = s
set_of (load r s size) = s
set_of (store r s size) = s
set_of (load_store r s size) = s

-- A region's body that opens no region.
abbrev pub straight : List Update → Code
straight [] = done
straight (u ∷ us) = then_update u (straight us)

-- What one update, and what a body, adds to the counter of a set.
abbrev pub hit : ℕ → Update → ℕ
hit s (counter r s') = if s' == s then 1 else 0
hit s (counter_sf r s' sf) = if s' == s then sf else 0
hit s (load r s' size) = 0
hit s (store r s' size) = 0
hit s (load_store r s' size) = 0

pub hits : ℕ → List Update → ℕ
hits s [] = 0
hits s (u ∷ us) = hit s u + hits s us

abbrev pub SmallSet : Update → Type 0
SmallSet u = set_of u < 2 ^ 64

update_counter :
    (u : Update) (s : ℕ) (t : Thread)
    → SmallSet u
    → s < 2 ^ 64
    → t.counter_array (wadd s t.counter_base_index) < 2 ^ 64
    → (apply_update u t).counter_array (wadd s t.counter_base_index) ≡ (
        if t.global_disable
        then t.counter_array (wadd s t.counter_base_index)
        else wadd (t.counter_array (wadd s t.counter_base_index)) (hit s u))
unfolding apply_update
update_counter u s t h k l = ground arith

straight_counter :
    (c : Config) (us : List Update) (s b : ℕ) (t : Thread)
    → t.counter_base_index ≡ b
    → All SmallSet us
    → s < 2 ^ 64
    → t.counter_array (wadd s b) < 2 ^ 64
    → (run c (trace (straight us)) t).counter_array (wadd s b) ≡ (
        if t.global_disable
        then t.counter_array (wadd s b)
        else wadd (t.counter_array (wadd s b)) (hits s us))
unfolding run step hits
straight_counter c [] s b t e h k l = ground arith
straight_counter c (u ∷ us) s b t e h k l =
    let kept = update-Restored u t in
    let here = update_counter u s t h.0 k in
    ground (
      arith,
      kept.base,
      kept.disable,
      here,
      straight_counter c us s b (apply_update u t) (kept.base ∙ e) h.1 k,
    )

-- One invocation from outside every counted region.
module _ (c : Config) (r : ℕ) (us : List Update) (from to : Timespec) (t : Thread)
    (outside : t.region_depth r ≡ 0) (off : t.global_disable ≡ true) where
  start_counter : (start_timing_event c from r t).counter_array ≡ t.counter_array
  unfolding start_timing_event
  start_counter = ground arith

  start_base : (start_timing_event c from r t).counter_base_index ≡ (
      if is_sampled c (t.timing r).count then wmul r c.counter_dimension else t.counter_base_index)
  unfolding start_timing_event
  start_base = ground (arith, outside)

  start_disable :
      (start_timing_event c from r t).global_disable
      ≡ (if is_sampled c (t.timing r).count then false else true)
  unfolding start_timing_event
  start_disable = ground (arith, outside, off)

end_counter :
    (to : Timespec) (r : ℕ) (t : Thread) → (end_timing_event to r t).counter_array ≡ t.counter_array
unfolding end_timing_event
end_counter to r t = ground arith

update_off : (u : Update) (t : Thread) → t.global_disable ≡ true → apply_update u t ≡ t
unfolding apply_update
update_off u t h = ground (arith, h)

straight_off :
    (c : Config) (us : List Update) (t : Thread)
    → t.global_disable ≡ true
    → (run c (trace (straight us)) t).counter_array ≡ t.counter_array
unfolding run step
straight_off c [] t h = refl
straight_off c (u ∷ us) t h =
    ap (λ w. (run c (trace (straight us)) w).counter_array) (update_off u t h)
    ∙ straight_off c us t h

pub round_counter :
    (c : Config) (r : ℕ) (us : List Update) (from to : Timespec) (s : ℕ) (t : Thread)
    → t.region_depth r ≡ 0
    → t.global_disable ≡ true
    → All SmallSet us
    → s < 2 ^ 64
    → t.counter_array (wadd s (wmul r c.counter_dimension)) < 2 ^ 64
    → (run c (trace (region r from (straight us) to done)) t).counter_array
        (wadd s (wmul r c.counter_dimension))
      ≡ (if is_sampled c (t.timing r).count
          then wadd (t.counter_array (wadd s (wmul r c.counter_dimension))) (hits s us)
          else t.counter_array (wadd s (wmul r c.counter_dimension)))
unfolding run
round_counter c r us from to s t outside off h k l =
    let entered = start_timing_event c from r t in
    let row = wmul r c.counter_dimension in
    let same = start_counter c r us from to t outside off in
    rw (run-trace_region c r from to (straight us) done t) (
      ap (λ f. f (wadd s row)) (end_counter to r (run c (trace (straight us)) entered))
      ∙ elim (Bool-cases (is_sampled c (t.timing r).count)) [
        | inl sampled ↦ ground (
          arith,
          same,
          start_disable c r us from to t outside off,
          straight_counter c us s row entered
              (rw (start_base c r us from to t outside off, sampled) refl) h k (rw same l),
        )
        | inr out ↦ rw out (
            ap (λ f. f (wadd s row))
              (straight_off c us entered (rw (start_disable c r us from to t outside off, out) refl)
                ∙ same))
      ])
