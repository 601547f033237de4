-- ===== src/Runtime.antt =====
-- The thread-local runtime of src/zray_dyn.cc: region entry and exit, sampling, the save stack,
-- and the counter updates that the pass inserts. Built without USE_HW_PERF_COUNTERS.
pub mod Live
pub mod SaveStack
pub mod Nesting
pub mod Timing
pub mod Disabled
pub mod Straight
pub mod Sampling
pub mod Tests
use zray.Base.{
  ℕ, ◌+◌, ◌*◌, ◌%◌, ◌^◌, Bool, true, false, not, ◌&&◌, List, [], ◌∷◌, ltb, ◌==◌, if◌then◌else◌,
  update,
}
use zray.Base.Word.{wadd, wsub, wmul}

-- PRAGMA_REGION_LIMIT
abbrev pub pragma_region_limit : ℕ
pragma_region_limit = 4096

-- What CLOCK_MONOTONIC returned at one reading.
pub record Timespec : Type 0 where
  pub tv_sec : ℕ
  pub tv_nsec : ℕ

-- tv_sec * 1000000000 + tv_nsec, as a size_t
unfoldable pub nanos : Timespec → ℕ
nanos ts = wadd (wmul ts.tv_sec 1000000000) ts.tv_nsec

pub record TimingProfile : Type 0 where
  pub count : ℕ
  pub start_time : ℕ
  pub total_time_elapsed : ℕ

pub record RegionSave : Type 0 where
  pub base : ℕ
  pub disable : Bool

-- The two process-wide values that the runtime reads: SAMPLING_PERIOD, a non-negative int, and
-- ZRAY_CounterDimension, the width of a region's row of counters.
pub record Config : Type 0 where
  pub sampling_period : ℕ
  pub counter_dimension : ℕ

-- The thread_local variables. `unbalanced` lists the regions that a warning on stderr named.
pub record Thread : Type 0 where
  pub timing : ℕ → TimingProfile
  pub global_disable : Bool
  pub region_depth : ℕ → ℕ
  pub counter_base_index : ℕ
  pub region_save_stack : ℕ → RegionSave
  pub region_save_top : ℕ
  pub counter_array : ℕ → ℕ
  pub load_runtime_array : ℕ → ℕ
  pub store_runtime_array : ℕ → ℕ
  pub unbalanced : List ℕ

-- A thread before its first region.
abbrev pub fresh_thread : Thread
fresh_thread = record {
  timing = λ r. record { count = 0; start_time = 0; total_time_elapsed = 0 };
  global_disable = true;
  region_depth = λ r. 0;
  counter_base_index = 0;
  region_save_stack = λ i. record { base = 0; disable = false };
  region_save_top = 0;
  counter_array = λ i. 0;
  load_runtime_array = λ i. 0;
  store_runtime_array = λ i. 0;
  unbalanced = [];
}

-- (SAMPLING_PERIOD != 0) && (Count % SAMPLING_PERIOD == 0)
unfoldable pub is_sampled : Config → ℕ → Bool
is_sampled c count = not (c.sampling_period == 0) && (count % c.sampling_period == 0)

-- Push the enclosing region's counting state; the top moves also where the stack is full.
unfoldable pub push_save : Thread → Thread
push_save t = record t {
  region_save_stack =
      if ltb t.region_save_top pragma_region_limit
      then update t.region_save_stack t.region_save_top
          (record { base = t.counter_base_index; disable = t.global_disable })
      else t.region_save_stack;
  region_save_top = wadd t.region_save_top 1;
}

-- The sampled part of an entry: enable counting, point at the region's row, start the clock.
unfoldable pub open_counting : Config → Timespec → ℕ → Thread → Thread
open_counting c now size t = record t {
  global_disable = false;
  counter_base_index = wmul size c.counter_dimension;
  timing = update t.timing size (record (t.timing size) { start_time = nanos now });
}

unfoldable pub set_depth : ℕ → ℕ → Thread → Thread
set_depth size d t = record t { region_depth = update t.region_depth size d }

-- startTimingEvent
unfoldable pub start_timing_event : Config → Timespec → ℕ → Thread → Thread
unfolding is_sampled push_save open_counting set_depth
start_timing_event c now size t =
    let entered = set_depth size (wadd (t.region_depth size) 1) t in
    if not (t.region_depth size == 0)
    then entered
    else if is_sampled c (t.timing size).count
    then open_counting c now size (push_save entered)
    else push_save entered

-- The saved state that an outermost exit hands back, by the top before the exit.
unfoldable pub popped : Thread → RegionSave
popped t =
    if ltb 0 t.region_save_top && ltb (wsub t.region_save_top 1) pragma_region_limit
    then t.region_save_stack (wsub t.region_save_top 1)
    else record { base = t.counter_base_index; disable = true }

-- The outermost exit, from the pop on.
unfoldable pub close_region : Timespec → ℕ → Thread → Thread
unfolding popped
close_region now size t =
    let saved = popped t in
    let counted = record (t.timing size) { count = wadd (t.timing size).count 1 } in
    let timed = record counted {
      total_time_elapsed = wadd counted.total_time_elapsed (wsub (nanos now) counted.start_time);
    } in
    record t {
      region_save_top =
          if ltb 0 t.region_save_top then wsub t.region_save_top 1 else t.region_save_top;
      timing = update t.timing size (if t.global_disable then counted else timed);
      counter_base_index = saved.base;
      global_disable = saved.disable;
    }

-- endTimingEvent
unfoldable pub end_timing_event : Timespec → ℕ → Thread → Thread
unfolding close_region set_depth
end_timing_event now size t =
    let left = set_depth size (wsub (t.region_depth size) 1) t in
    if t.region_depth size == 0
    then record t { unbalanced = size ∷ t.unbalanced }
    else if not (wsub (t.region_depth size) 1 == 0)
    then left
    else close_region now size left

-- array[postDomSetID + counterBaseIndex] += amount
unfoldable pub bump : Thread → (ℕ → ℕ) → ℕ → ℕ → ℕ → ℕ
bump t a set amount =
    let index = wadd set t.counter_base_index in update a index (wadd (a index) amount)

unfoldable pub increment_counter_array_sf : ℕ → ℕ → ℕ → Thread → Thread
unfolding bump
increment_counter_array_sf region set sf t =
    if t.global_disable then t else record t { counter_array = bump t t.counter_array set sf }

unfoldable pub increment_counter_array : ℕ → ℕ → Thread → Thread
unfolding bump
increment_counter_array region set t =
    if t.global_disable then t else record t { counter_array = bump t t.counter_array set 1 }

unfoldable pub increment_load_array : ℕ → ℕ → ℕ → Thread → Thread
unfolding bump
increment_load_array region set size t =
    if t.global_disable
    then t
    else record t { load_runtime_array = bump t t.load_runtime_array set size }

unfoldable pub increment_store_array : ℕ → ℕ → ℕ → Thread → Thread
unfolding bump
increment_store_array region set size t =
    if t.global_disable
    then t
    else record t { store_runtime_array = bump t t.store_runtime_array set size }

unfoldable pub increment_load_store_array : ℕ → ℕ → ℕ → Thread → Thread
unfolding bump
increment_load_store_array region set size t = if t.global_disable then t else record t {
  load_runtime_array = bump t t.load_runtime_array set size;
  store_runtime_array = bump t t.store_runtime_array set size;
}

-- The calls that the pass inserts besides entry and exit; the first number is pragmaRegionID.
pub data Update : Type 0 where
  counter : ℕ → ℕ → Update
  counter_sf load store load_store : ℕ → ℕ → ℕ → Update

unfoldable pub apply_update : Update → Thread → Thread
unfolding increment_counter_array increment_counter_array_sf increment_load_array
    increment_store_array increment_load_store_array
apply_update (counter region set) t = increment_counter_array region set t
apply_update (counter_sf region set sf) t = increment_counter_array_sf region set sf t
apply_update (load region set size) t = increment_load_array region set size t
apply_update (store region set size) t = increment_store_array region set size t
apply_update (load_store region set size) t = increment_load_store_array region set size t

-- What an instrumented thread calls, in the order of its execution.
pub data Event : Type 0 where
  enter exit : ℕ → Timespec → Event
  update_by : Update → Event

unfoldable pub step : Config → Event → Thread → Thread
step c (enter r now) t = start_timing_event c now r t
step c (exit r now) t = end_timing_event now r t
step c (update_by u) t = apply_update u t

unfoldable pub run : Config → List Event → Thread → Thread
run c [] t = t
run c (e ∷ es) t = run c es (step c e t)
