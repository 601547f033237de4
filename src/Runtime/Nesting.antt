-- ===== src/Runtime/Nesting.antt =====
-- Well-nested executions of instrumented code: what an exit of src/zray_dyn.cc hands back.
use zray.Base.{
  ℕ, suc, ◌≤◌, ◌<◌, ◌≡◌, ◌≢◌, refl, inl, inr, List, [], ◌∷◌, ◌++◌, arith, fun_ext, ◌∙◌, ==-cases,
}
use Prim.Native.Nat.{max}
use zray.Runtime.{
  Config, Thread, Timespec, Event, enter, exit, update_by, Update, pragma_region_limit, step, run,
  start_timing_event, end_timing_event, apply_update,
}
use zray.Runtime.SaveStack.{SaveInv, top-lt-limit, start-SaveInv}

-- Code as it runs: updates, and regions with all that runs inside them.
pub data Code : Type 0 where
  done : Code
  then_update : Update → Code → Code
  region : ℕ → Timespec → Code → Timespec → Code → Code

abbrev pub trace : Code → List Event
trace done = []
trace (then_update u k) = update_by u ∷ trace k
trace (region r from body to k) = enter r from ∷ (trace body ++ exit r to ∷ trace k)

-- How deep its regions nest.
abbrev pub nesting : Code → ℕ
nesting done = 0
nesting (then_update u k) = nesting k
nesting (region r from body to k) = max (suc (nesting body)) (nesting k)

abbrev pub RegionsInLimit : Code → Type 0
RegionsInLimit done = Unit {0}
RegionsInLimit (then_update u k) = RegionsInLimit k
RegionsInLimit (region r from body to k) =
    (r < pragma_region_limit) × RegionsInLimit body × RegionsInLimit k

-- What the thread of an enclosing region relies on.
pub record Restored (t u : Thread) : Type 0 where
  pub depth : (r : ℕ) → u.region_depth r ≡ t.region_depth r
  pub top : u.region_save_top ≡ t.region_save_top
  pub saved : (i : ℕ) → i < t.region_save_top → u.region_save_stack i ≡ t.region_save_stack i
  pub base : u.counter_base_index ≡ t.counter_base_index
  pub disable : u.global_disable ≡ t.global_disable
  -- A live region's invocation count, start and elapsed time wait for its own last exit.
  pub timing : (r : ℕ) → t.region_depth r ≢ 0 → u.timing r ≡ t.timing r

Restored-refl : (t : Thread) → Restored t t
Restored-refl t = record {
  depth = λ r. refl;
  top = refl;
  saved = λ i h. refl;
  base = refl;
  disable = refl;
  timing = λ r h. refl;
}

Restored-trans : {t u v : Thread} → Restored t u → Restored u v → Restored t v
Restored-trans {t} {u} {v} a b = record {
  depth = λ r. cc (a.depth r, b.depth r);
  top = cc (a.top, b.top);
  saved = λ i h. cc (a.saved i h, b.saved i (omega (arith, a.top)));
  base = cc (a.base, b.base);
  disable = cc (a.disable, b.disable);
  timing = λ r h. cc (a.timing r h, b.timing r (ground (arith, a.depth r)));
}

pub update-Restored : (u : Update) (t : Thread) → Restored t (apply_update u t)
unfolding apply_update
update-Restored u t = record {
  depth = λ r. ground arith;
  top = ground arith;
  saved = λ i h. ground arith;
  base = ground arith;
  disable = ground arith;
  timing = λ r h. ground arith;
}

pub run-append :
    (c : Config) (es fs : List Event) (t : Thread) → run c (es ++ fs) t ≡ run c fs (run c es t)
unfolding run
run-append c [] fs t = refl
run-append c (e ∷ es) fs t = run-append c es fs (step c e t)

-- Entry, a body that restores, exit: by whether the region was live before.
module _ (c : Config) (from to : Timespec) (r n : ℕ) (t u : Thread) (lim : r < pragma_region_limit)
    (v : SaveInv (suc n) t) (body : Restored (start_timing_event c from r t) u) where
  reentry-Restored : t.region_depth r ≢ 0 → Restored t (end_timing_event to r u)
  unfolding start_timing_event end_timing_event
  reentry-Restored h = record {
    depth = λ i. ground (arith, body.depth r, body.depth i, v.room r);
    top = ground (arith, body.depth r, body.top, v.room r);
    saved = λ i k. ground (arith, body.depth r, body.saved i, v.room r);
    base = ground (arith, body.depth r, body.base, v.room r);
    disable = ground (arith, body.depth r, body.disable, v.room r);
    timing = λ i k. ground (arith, body.depth r, body.timing i, v.room r);
  }

  outermost-Restored : t.region_depth r ≡ 0 → Restored t (end_timing_event to r u)
  unfolding start_timing_event end_timing_event
  outermost-Restored h =
      let room : t.region_save_top < pragma_region_limit =
        top-lt-limit {n = suc n} {t = t} r v lim h in
      record {
        depth = λ i. ground (arith, body.depth r, body.depth i);
        top = ground (arith, body.depth r, body.top);
        saved = λ i k. ground (arith, body.depth r, body.saved i);
        base = ground (arith, body.depth r, body.top, body.saved t.region_save_top);
        disable = ground (arith, body.depth r, body.top, body.saved t.region_save_top);
        timing = λ i k. ground (arith, body.depth r, body.timing i);
      }

  region-Restored : Restored t (end_timing_event to r u)
  region-Restored = elim (==-cases (t.region_depth r) 0) [
    | inl e ↦ outermost-Restored e
    | inr h ↦ reentry-Restored h
  ]

SaveInv-weaken : {m n : ℕ} {t : Thread} → m ≤ n → SaveInv n t → SaveInv m t
SaveInv-weaken h v = record { room = λ r. omega (arith, v.room r); top = v.top }

pub Restored-SaveInv : {n : ℕ} {t u : Thread} → Restored t u → SaveInv n t → SaveInv n u
Restored-SaveInv a v = record {
  room = λ r. omega (arith, a.depth r, v.room r);
  top = rw (fun_ext a.depth) (a.top ∙ v.top);
}

pub run-trace_region :
    (c : Config) (r : ℕ) (from to : Timespec) (body k : Code) (t : Thread)
    → run c (trace (region r from body to k)) t
      ≡ run c (trace k) (end_timing_event to r (run c (trace body) (start_timing_event c from r t)))
unfolding run step
run-trace_region c r from to body k t =
    run-append c (trace body) (exit r to ∷ trace k) (start_timing_event c from r t)

-- After well-nested code every depth, the save stack below its top, the counter row in use, the
-- enable flag and the timing profiles of the regions still open are as before it: a region hands
-- counting back to the one around it, and re-entry of an open region touches no measurement.
-- Region ids are below the limit, and depths leave room for the nesting.
pub run-Restored :
    (c : Config) (code : Code) (t : Thread)
    → RegionsInLimit code
    → SaveInv (nesting code) t
    → Restored t (run c (trace code) t)
unfolding run step
run-Restored c done t h v = Restored-refl t
run-Restored c (then_update u k) t h v =
    let first = update-Restored u t in
    Restored-trans first (run-Restored c k (apply_update u t) h (Restored-SaveInv first v))
run-Restored c (region r from body to k) t h v =
    let inner : SaveInv (suc (nesting body)) t = SaveInv-weaken (omega arith) v in
    let entered = start_timing_event c from r t in
    let whole =
      region-Restored c from to r (nesting body) t (run c (trace body) entered) h.0 inner
        (run-Restored c body entered h.1 (start-SaveInv c from (nesting body) r t h.0 inner)) in
    let rest =
      run-Restored c k (end_timing_event to r (run c (trace body) entered)) h.2
        (SaveInv-weaken (omega arith) (Restored-SaveInv whole v)) in
    rw (run-trace_region c r from to body k t) (Restored-trans whole rest)
