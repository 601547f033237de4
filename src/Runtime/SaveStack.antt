-- ===== src/Runtime/SaveStack.antt =====
-- RegionSaveTop of src/zray_dyn.cc against the number of live regions, in any order of events.
use zray.Base.{
  ℕ, suc, ◌+◌, ◌^◌, ◌≤◌, ◌<◌, ◌≡◌, sym, inl, inr, List, [], ◌∷◌, arith, length, All, ◌&&◌, ltb,
  ◌==◌, if◌then◌else◌, update, ==-cases,
}
use zray.Base.Word.{wadd, wsub}
use zray.Runtime.{
  Config, Thread, Timespec, Event, enter, exit, update_by, Update, pragma_region_limit, step, run,
  start_timing_event, end_timing_event, apply_update, fresh_thread,
}
use zray.Runtime.Live.{live, live-le, live-lt, live_enter, live_leave, live_keep, live-zero}

-- The event names a region that the arrays have room for.
abbrev pub InLimit : Event → Type 0
InLimit (enter r now) = r < pragma_region_limit
InLimit (exit r now) = r < pragma_region_limit
InLimit (update_by u) = Unit {0}

-- `n` more entries cannot wrap a depth, and the stack holds one element for each live region.
pub record SaveInv (n : ℕ) (t : Thread) : Type 0 where
  pub room : (r : ℕ) → t.region_depth r + n < 2 ^ 64
  pub top : t.region_save_top ≡ live pragma_region_limit t.region_depth

update_room :
    (n r v : ℕ) (d : ℕ → ℕ)
    → ((i : ℕ) → d i + suc n < 2 ^ 64)
    → v + n < 2 ^ 64
    → (i : ℕ) → update d r v i + n < 2 ^ 64
update_room n r v d h k i = ground (arith, h i)

-- Below the limit an outermost entry always finds room on the stack.
pub top-lt-limit :
    {n : ℕ} {t : Thread} (r : ℕ)
    → SaveInv n t
    → r < pragma_region_limit
    → t.region_depth r ≡ 0
    → t.region_save_top < pragma_region_limit
top-lt-limit {n} {t} r v h e =
    omega (arith, v.top, live-lt pragma_region_limit r t.region_depth h e)

-- What entry and exit do to the depths and the top, on every branch.
start_depth :
    (c : Config) (now : Timespec) (r : ℕ) (t : Thread)
    → (start_timing_event c now r t).region_depth
      ≡ update t.region_depth r (wadd (t.region_depth r) 1)
unfolding start_timing_event
start_depth c now r t = ground arith

start_top :
    (c : Config) (now : Timespec) (r : ℕ) (t : Thread)
    → (start_timing_event c now r t).region_save_top
      ≡ (if t.region_depth r == 0 then wadd t.region_save_top 1 else t.region_save_top)
unfolding start_timing_event
start_top c now r t = ground arith

end_depth :
    (now : Timespec) (r : ℕ) (t : Thread)
    → (end_timing_event now r t).region_depth ≡ (
        if t.region_depth r == 0
        then t.region_depth
        else update t.region_depth r (wsub (t.region_depth r) 1))
unfolding end_timing_event
end_depth now r t = ground arith

end_top :
    (now : Timespec) (r : ℕ) (t : Thread)
    → t.region_depth r < 2 ^ 64
    → (end_timing_event now r t).region_save_top ≡ (
        if t.region_depth r == 1 && ltb 0 t.region_save_top
        then wsub t.region_save_top 1
        else t.region_save_top)
unfolding end_timing_event
end_top now r t h = ground arith

start_live :
    (n r : ℕ) (t : Thread)
    → r < pragma_region_limit
    → SaveInv (suc n) t
    → (if t.region_depth r == 0 then wadd t.region_save_top 1 else t.region_save_top)
      ≡ live pragma_region_limit (update t.region_depth r (wadd (t.region_depth r) 1))
start_live n r t h v = elim (==-cases (t.region_depth r) 0) [
  | inl e ↦ ground (
    arith,
    v.top,
    top-lt-limit {n = suc n} {t = t} r v h e,
    live_enter pragma_region_limit r (wadd (t.region_depth r) 1) t.region_depth h e,
  )
  | inr k ↦ ground (
    arith,
    v.top,
    v.room r,
    live_keep pragma_region_limit r (wadd (t.region_depth r) 1) t.region_depth k,
  )
]

pub start-SaveInv :
    (c : Config) (now : Timespec) (n r : ℕ) (t : Thread)
    → r < pragma_region_limit
    → SaveInv (suc n) t
    → SaveInv n (start_timing_event c now r t)
start-SaveInv c now n r t h v = record {
  room = λ i. rw (start_depth c now r t) (
      update_room n r (wadd (t.region_depth r) 1) t.region_depth v.room (omega (arith, v.room r))
        i);
  top = rw (start_depth c now r t, start_top c now r t) (start_live n r t h v);
}

end_live :
    (n r : ℕ) (t : Thread)
    → r < pragma_region_limit
    → SaveInv n t
    → (if t.region_depth r == 1 && ltb 0 t.region_save_top
        then wsub t.region_save_top 1
        else t.region_save_top)
      ≡ live pragma_region_limit (
          if t.region_depth r == 0
          then t.region_depth
          else update t.region_depth r (wsub (t.region_depth r) 1))
end_live n r t h v = ground (
  arith,
  v.top,
  v.room r,
  live-le pragma_region_limit t.region_depth,
  live_leave pragma_region_limit r t.region_depth h,
  live_keep pragma_region_limit r (wsub (t.region_depth r) 1) t.region_depth,
)

end_room :
    (n r : ℕ) (d : ℕ → ℕ)
    → ((i : ℕ) → d i + suc n < 2 ^ 64)
    → (i : ℕ) → (if d r == 0 then d else update d r (wsub (d r) 1)) i + n < 2 ^ 64
end_room n r d h i = ground (arith, h i, h r)

end-SaveInv :
    (now : Timespec) (n r : ℕ) (t : Thread)
    → r < pragma_region_limit
    → SaveInv (suc n) t
    → SaveInv n (end_timing_event now r t)
end-SaveInv now n r t h v = record {
  room = λ i. rw (end_depth now r t) (end_room n r t.region_depth v.room i);
  top =
      rw (end_depth now r t, end_top now r t (omega (arith, v.room r))) (end_live (suc n) r t h v);
}

update-SaveInv :
    (u : Update) (n : ℕ) (t : Thread) → SaveInv (suc n) t → SaveInv n (apply_update u t)
unfolding apply_update
update-SaveInv u n t v = record {
  room = λ i. ground (arith, v.room i);
  top = ground (arith, v.top);
}

step-SaveInv :
    (c : Config) (e : Event) (n : ℕ) (t : Thread)
    → InLimit e
    → SaveInv (suc n) t
    → SaveInv n (step c e t)
unfolding step
step-SaveInv c (enter r now) n t h v = start-SaveInv c now n r t h v
step-SaveInv c (exit r now) n t h v = end-SaveInv now n r t h v
step-SaveInv c (update_by u) n t h v = update-SaveInv u n t v

pub recast : {m n : ℕ} {t : Thread} → SaveInv m t → n ≡ m → SaveInv n t
recast {t = t} v e = rw e v

run-SaveInv :
    (c : Config) (es : List Event) (n : ℕ) (t : Thread)
    → All InLimit es
    → SaveInv (length es + n) t
    → SaveInv n (run c es t)
unfolding run
run-SaveInv c [] n t h v = recast v (omega arith)
run-SaveInv c (e ∷ es) n t h v =
    run-SaveInv c es n (step c e t) h.1
      (step-SaveInv c e (length es + n) t h.0 (recast v (omega arith)))

-- The number of live regions after a run from the start of a thread.
abbrev pub live_regions : Thread → ℕ
live_regions t = live pragma_region_limit t.region_depth

fresh_room : (n r : ℕ) → n < 2 ^ 64 → fresh_thread.region_depth r + n < 2 ^ 64
fresh_room n r h = omega arith

pub fresh-SaveInv : (n : ℕ) → n < 2 ^ 64 → SaveInv n fresh_thread
fresh-SaveInv n h = record {
  room = λ r. fresh_room n r h;
  top = sym (live-zero pragma_region_limit);
}

-- Whatever the order of entries, exits and updates, balanced or not, RegionSaveTop is the number
-- of live regions and at most PRAGMA_REGION_LIMIT, if region ids are below that limit and the
-- thread makes fewer than 2 ^ 64 calls.
pub run-save_top :
    (c : Config) (es : List Event)
    → All InLimit es
    → length es < 2 ^ 64
    → ((run c es fresh_thread).region_save_top ≡ live_regions (run c es fresh_thread))
      × ((run c es fresh_thread).region_save_top ≤ pragma_region_limit)
run-save_top c es h k =
    let v : SaveInv 0 (run c es fresh_thread) =
      run-SaveInv c es 0 fresh_thread h (fresh-SaveInv (length es + 0) (omega arith)) in
    (v.top, omega (arith, v.top, live-le pragma_region_limit (run c es fresh_thread).region_depth))
