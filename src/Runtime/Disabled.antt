-- ===== src/Runtime/Disabled.antt =====
-- ZRAY_SAMPLE_RATE=0 in src/zray_dyn.cc: no counter moves.
use zray.Base.{ℕ, ◌<◌, ◌≡◌, refl, true, List, [], ◌∷◌, ◌∙◌, arith}
use zray.Base.Word.{wsub}
use zray.Runtime.{
  Config, Thread, Timespec, Event, enter, exit, update_by, Update, pragma_region_limit, step, run,
  start_timing_event, end_timing_event, apply_update, fresh_thread,
}

-- Counting is off, and so is all that an exit could hand back.
record IsOff (t : Thread) : Type 0 where
  now : t.global_disable ≡ true
  saved :
      (i : ℕ)
      → i < t.region_save_top
      → i < pragma_region_limit
      → (t.region_save_stack i).disable ≡ true

start-IsOff :
    (c : Config) (now : Timespec) (r : ℕ) (t : Thread)
    → c.sampling_period ≡ 0
    → IsOff t
    → IsOff (start_timing_event c now r t)
unfolding start_timing_event
start-IsOff c now r t z v = record {
  now = ground (arith, v.now);
  saved = λ i h k. ground (arith, v.now, v.saved i);
}

end-IsOff : (now : Timespec) (r : ℕ) (t : Thread) → IsOff t → IsOff (end_timing_event now r t)
unfolding end_timing_event
end-IsOff now r t v = record {
  now = ground (arith, v.now, v.saved (wsub t.region_save_top 1));
  saved = λ i h k. ground (arith, v.now, v.saved i);
}

update-IsOff : (u : Update) (t : Thread) → IsOff t → apply_update u t ≡ t
unfolding apply_update
update-IsOff u t v = ground (arith, v.now)

-- The arrays that a report reads.
abbrev pub SameCounters : Thread → Thread → Type 0
SameCounters t u =
    (u.counter_array ≡ t.counter_array)
    × (u.load_runtime_array ≡ t.load_runtime_array)
    × (u.store_runtime_array ≡ t.store_runtime_array)

step-IsOff :
    (c : Config) (e : Event) (t : Thread)
    → c.sampling_period ≡ 0
    → IsOff t
    → IsOff (step c e t) × SameCounters t (step c e t)
unfolding step start_timing_event end_timing_event
step-IsOff c (enter r now) t z v =
    (start-IsOff c now r t z v, (ground arith, ground arith, ground arith))
step-IsOff c (exit r now) t z v = (end-IsOff now r t v, (ground arith, ground arith, ground arith))
step-IsOff c (update_by u) t z v = rw (update-IsOff u t v) (v, (refl, refl, refl))

run-IsOff :
    (c : Config) (es : List Event) (t : Thread)
    → c.sampling_period ≡ 0
    → IsOff t
    → SameCounters t (run c es t)
unfolding run
run-IsOff c [] t z v = (refl, refl, refl)
run-IsOff c (e ∷ es) t z v =
    let (next, here) = step-IsOff c e t z v in
    let rest = run-IsOff c es (step c e t) z next in
    (rest.0 ∙ here.0, rest.1 ∙ here.1, rest.2 ∙ here.2)

-- With a sampling period of 0 no sequence of entries, exits and updates, balanced or not, changes
-- a counter of a thread that starts outside every region.
pub run_disabled :
    (c : Config) (es : List Event)
    → c.sampling_period ≡ 0
    → SameCounters fresh_thread (run c es fresh_thread)
run_disabled c es z =
    run-IsOff c es fresh_thread z (record { now = refl; saved = λ i h k. absurd (omega arith) })
