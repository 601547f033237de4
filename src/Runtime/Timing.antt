-- ===== src/Runtime/Timing.antt =====
-- What one outermost invocation of a region adds to its TimingProfile (src/zray_dyn.cc).
use zray.Base.{ℕ, suc, ◌≡◌, Bool, arith, if◌then◌else◌}
use zray.Base.Word.{wadd, wsub}
use zray.Runtime.{
  Config, Thread, Timespec, TimingProfile, run, nanos, is_sampled, start_timing_event,
  end_timing_event,
}
use zray.Runtime.SaveStack.{SaveInv, start-SaveInv}
use zray.Runtime.Nesting.{
  Code, done, region, trace, nesting, RegionsInLimit, Restored, run-Restored, run-trace_region,
}

-- The profile after an invocation that ran from `from` to `to`.
abbrev pub invoked : Bool → Bool → Timespec → Timespec → TimingProfile → TimingProfile
invoked sampled disabled from to p =
    let start = if sampled then nanos from else p.start_time in
    record {
      count = wadd p.count 1;
      start_time = start;
      total_time_elapsed =
          if sampled
          then wadd p.total_time_elapsed (wsub (nanos to) start)
          else if disabled
          then p.total_time_elapsed
          else wadd p.total_time_elapsed (wsub (nanos to) start);
    }

module _ (c : Config) (from to : Timespec) (r : ℕ) (t u : Thread) (outside : t.region_depth r ≡ 0)
    (body : Restored (start_timing_event c from r t) u) where
  pub end-invoked :
      (end_timing_event to r u).timing r
      ≡ invoked (is_sampled c (t.timing r).count) t.global_disable from to (t.timing r)
  unfolding start_timing_event end_timing_event
  end-invoked = ground (arith, body.depth r, body.timing r, body.disable)

-- An outermost invocation of a region, whatever well-nested code runs inside it, advances the
-- region's Count by one. Sampled, it sets StartTime to its own entry and adds the time between
-- its entry and its exit. Not sampled, it keeps StartTime, and adds nothing where the enclosing
-- code is not counted; where that is counted, it adds the time since the old StartTime.
pub invocation_profile :
    (c : Config) (r : ℕ) (from to : Timespec) (body : Code) (t : Thread)
    → RegionsInLimit (region r from body to done)
    → SaveInv (suc (nesting body)) t
    → t.region_depth r ≡ 0
    → (run c (trace (region r from body to done)) t).timing r
      ≡ invoked (is_sampled c (t.timing r).count) t.global_disable from to (t.timing r)
unfolding run
invocation_profile c r from to body t h v outside =
    let entered = start_timing_event c from r t in
    rw (run-trace_region c r from to body done t) (
      end-invoked c from to r t (run c (trace body) entered) outside
        (run-Restored c body entered h.1 (start-SaveInv c from (nesting body) r t h.0 v)))
