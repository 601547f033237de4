-- ===== src/Runtime/Tests.antt =====
-- Runs of the runtime on small inputs, and the theorems' instances.
use zray.Base.{ℕ, ◌+◌, ◌-◌, ◌*◌, ◌/◌, ◌≤◌, ◌≡◌, refl, true, List, [], ◌∷◌, arith}
use zray.Base.Word.{wadd, wmul}
use zray.Runtime.{
  Config, Timespec, enter, exit, counter, counter_sf, fresh_thread, run, nanos, is_sampled,
  start_timing_event, end_timing_event, apply_update, step, pragma_region_limit,
}
use zray.Runtime.SaveStack.{fresh-SaveInv, run-save_top, live_regions}
use zray.Runtime.Nesting.{Code, done, then_update, region, trace, Restored, run-Restored}
use zray.Runtime.Timing.{invoked, invocation_profile}
use zray.Runtime.Disabled.{SameCounters, run_disabled}
use zray.Runtime.Straight.{hits}
use zray.Runtime.Sampling.{rounds, rounds_counter_closed}

abbrev at_time : ℕ → Timespec
at_time n = record { tv_sec = 0; tv_nsec = n }

abbrev every_call : Config
every_call = record { sampling_period = 1; counter_dimension = 10 }

abbrev every_other : Config
every_other = record { sampling_period = 2; counter_dimension = 10 }

-- Region 3 runs, region 4 inside it, and region 3 again inside that.
abbrev nested : Code
nested =
    region 3 (at_time 5)
      (then_update (counter 3 1) (
        region 4 (at_time 6)
          (then_update (counter 4 2)
            (region 3 (at_time 7) (then_update (counter 3 1) done) (at_time 8) done))
          (at_time 9) (then_update (counter 3 1) done)))
      (at_time 11) done

nested_counts :
    let t = run every_call (trace nested) fresh_thread in
    (t.counter_array 31 ≡ 2)
    × (t.counter_array 42 ≡ 1)
    × (t.counter_array 41 ≡ 1)
    × ((t.timing 3).total_time_elapsed ≡ 6)
    × ((t.timing 4).total_time_elapsed ≡ 3)
    × ((t.timing 3).count ≡ 1)
    × (t.global_disable ≡ true)
unfolding run step start_timing_event end_timing_event apply_update nanos
nested_counts = (refl, refl, refl, refl, refl, refl, refl)

-- An exit with no entry is reported and changes nothing else.
unbalanced_exit :
    run every_call (exit 2 (at_time 1) ∷ []) fresh_thread
    ≡ record fresh_thread { unbalanced = 2 ∷ [] }
unfolding run step end_timing_event
unbalanced_exit = refl

run-save_top_example :
    ((run every_call
        (enter 1 (at_time 1) ∷ enter 2 (at_time 2) ∷ exit 1 (at_time 3) ∷ [])
        fresh_thread).region_save_top
      ≡ live_regions (
          run every_call
            (enter 1 (at_time 1) ∷ enter 2 (at_time 2) ∷ exit 1 (at_time 3) ∷ [])
            fresh_thread))
    × ((run every_call
          (enter 1 (at_time 1) ∷ enter 2 (at_time 2) ∷ exit 1 (at_time 3) ∷ [])
          fresh_thread).region_save_top
        ≤ pragma_region_limit)
run-save_top_example =
    run-save_top every_call (enter 1 (at_time 1) ∷ enter 2 (at_time 2) ∷ exit 1 (at_time 3) ∷ [])
      (omega arith) (omega arith)

run-Restored_example : Restored fresh_thread (run every_call (trace nested) fresh_thread)
run-Restored_example =
    run-Restored every_call nested fresh_thread (omega arith) (fresh-SaveInv 3 (omega arith))

invocation_profile_example :
    (run every_call (trace nested) fresh_thread).timing 3
    ≡ invoked
        (is_sampled every_call 0)
        true
        (at_time 5)
        (at_time 11)
        (record { count = 0; start_time = 0; total_time_elapsed = 0 })
invocation_profile_example =
    invocation_profile every_call 3 (at_time 5) (at_time 11)
      (then_update (counter 3 1) (
        region 4 (at_time 6)
          (then_update (counter 4 2)
            (region 3 (at_time 7) (then_update (counter 3 1) done) (at_time 8) done))
          (at_time 9) (then_update (counter 3 1) done)))
      fresh_thread (omega arith) (fresh-SaveInv 3 (omega arith)) refl

run_disabled_example :
    SameCounters fresh_thread
      (run (record { sampling_period = 0; counter_dimension = 10 }) (trace nested) fresh_thread)
run_disabled_example =
    run_disabled (record { sampling_period = 0; counter_dimension = 10 }) (trace nested) refl

abbrev three : List (Timespec × Timespec)
three = (at_time 1, at_time 2) ∷ (at_time 3, at_time 4) ∷ (at_time 5, at_time 6) ∷ []

rounds_counter_closed_example :
    (run every_other
        (trace (rounds 3 (counter 3 1 ∷ counter_sf 3 1 50 ∷ []) three))
        fresh_thread).counter_array
      (wadd 1 (wmul 3 10))
    ≡ wadd 0 ((3 + (2 - 1)) / 2 * hits 1 (counter 3 1 ∷ counter_sf 3 1 50 ∷ []))
rounds_counter_closed_example =
    rounds_counter_closed every_other 3 (counter 3 1 ∷ counter_sf 3 1 50 ∷ []) three 1 fresh_thread
      (omega arith) (fresh-SaveInv 1 (omega arith)) refl refl refl (omega arith) (omega arith)
      (omega arith) (omega arith) (omega arith)
