-- ===== src/PostProcess/Monitor.antt =====
-- From the host's operations in src/zray_dyn.cc to the log that src/post_process.cc reads.
use zray.Base.{
  ℕ, ◌≡◌, ◌≢◌, refl, sym, true, false, List, [], ◌∷◌, ◌++◌, arith, ◌∙◌, ap, All, inl, inr,
  Bool-cases, ==-cases, Option-cases, ◌==◌, if◌then◌else◌, subst, append_assoc, append-nil,
}
use zray.Host.{
  Host, Event, register, unregister, polled, fresh_host, find, erase, step, run, register_thread,
  shape, add_thread, unregister_thread,
}
use zray.Host.Registry.{Distinct-put, Distinct-erase}
use zray.PostProcess.{process_log}
use zray.PostProcess.Epochs.{LogRecord, epochs}
use zray.PostProcess.Decode.{encode_all, process_log-encode}
use zray.PostProcess.History.{records, history, Written, poll-Written}

-- A thread that registers has regions.
abbrev pub HasRegions : Event → Type 0
HasRegions (register tid width count now) = count ≢ 0
HasRegions e = Unit

shape-Written :
    (width count : ℕ) (s : Host) (rs : List LogRecord)
    → count ≢ 0
    → Written s rs
    → Written (shape width count s) rs × ((shape width count s).roi_count ≢ 0)
unfolding shape
shape-Written width count s rs c w = elim (==-cases s.roi_count 0) [
  | inl e ↦
      let empty = w.unwritten (w.shaped e).0 in
      let test : (s.roi_count == 0) ≡ true = ground arith in
      subst
        (λ b.
          Written (if b then record s { roi_count = count; counter_width = width } else s) rs
          × ((if b then record s { roi_count = count; counter_width = width } else s).roi_count
              ≢ 0))
        (sym test)
        (
          record {
            log = rw (w.log, (w.shaped e).0) refl;
            unwritten = w.unwritten;
            distinct = w.distinct;
            shaped = λ h. absurd (c h);
            fits = rw empty tt;
          },
          c,
        )
  | inr k ↦
      let test : (s.roi_count == 0) ≡ false = ground arith in
      subst
        (λ b.
          Written (if b then record s { roi_count = count; counter_width = width } else s) rs
          × ((if b then record s { roi_count = count; counter_width = width } else s).roi_count
              ≢ 0))
        (sym test) (w, k)
]

add_thread-Written :
    (tid now : ℕ) (s : Host) (rs : List LogRecord)
    → s.roi_count ≢ 0
    → Written s rs
    → Written (add_thread tid now s) rs
unfolding add_thread
add_thread-Written tid now s rs c w = elim (Option-cases (find tid s.registered_threads)) [
  | inl e ↦
      rw (e, add_thread)
        (record {
          log = w.log;
          unwritten = w.unwritten;
          distinct = Distinct-put tid now s.registered_threads w.distinct;
          shaped = λ h. absurd (c h);
          fits = w.fits;
        })
  | inr (t, e) ↦
      rw (e, add_thread)
        (record {
          log = w.log;
          unwritten = w.unwritten;
          distinct = w.distinct;
          shaped = w.shaped;
          fits = w.fits;
        })
]

unregister-Written :
    (tid : ℕ) (s : Host) (rs : List LogRecord) → Written s rs → Written (unregister_thread tid s) rs
unfolding unregister_thread erase
unregister-Written tid s rs w = elim (Option-cases (find tid s.registered_threads)) [
  | inl e ↦
      rw (e, unregister_thread)
        (record {
          log = w.log;
          unwritten = w.unwritten;
          distinct = w.distinct;
          shaped = w.shaped;
          fits = w.fits;
        })
  | inr (t, e) ↦
      rw (e, unregister_thread)
        (record {
          log = w.log;
          unwritten = w.unwritten;
          distinct = Distinct-erase tid s.registered_threads w.distinct;
          shaped = λ h. ((w.shaped h).0, ap (erase tid) (w.shaped h).1);
          fits = w.fits;
        })
]

step-Written :
    (s : Host) (rs : List LogRecord) (e : Event)
    → Written s rs
    → HasRegions e
    → Written (step s e) (rs ++ records s e)
unfolding register_thread
step-Written s rs (register tid width count now) w h = subst (Written _) (sym (append-nil rs)) (
    add_thread-Written tid now (shape width count s) rs (shape-Written width count s rs h w).1
      (shape-Written width count s rs h w).0)
step-Written s rs (unregister tid) w h =
    subst (Written _) (sym (append-nil rs)) (unregister-Written tid s rs w)
step-Written s rs (polled memory) w h = poll-Written memory s rs w

pub run-Written :
    (s : Host) (rs : List LogRecord) (es : List Event)
    → Written s rs
    → All HasRegions es
    → Written (run s es) (rs ++ history s es)
unfolding run history
run-Written s rs [] w h = subst (Written s) (sym (append-nil rs)) w
run-Written s rs (e ∷ es) w (h, hs) =
    subst (Written _) (append_assoc rs (records s e) (history (step s e) es))
      (run-Written (step s e) (rs ++ records s e) es (step-Written s rs e w h) hs)

pub fresh-Written : Written fresh_host []
fresh-Written = record {
  log = refl;
  unwritten = λ h. refl;
  distinct = tt;
  shaped = λ h. (refl, refl);
  fits = tt;
}

-- Whatever threads register, unregister and are polled, in any order, the post-processor makes of
-- the host's log the epochs of all polls, in their order: for each thread that is registered at a
-- poll, the deltas of its counters since the last record under its id (for the first, the counters
-- themselves), and the runtime arrays and the time of the record as they were written. It stops at
-- the first record with a delta that is negative as a long long, as when an id is used again by a
-- thread that has counted less: that record and all later ones are not reported. The threads must
-- have pragma regions.
pub process_log-run :
    (held : ℕ) (es : List Event)
    → All HasRegions es
    → process_log held (run fresh_host es).log ≡ epochs [] (history fresh_host es)
unfolding process_log epochs
process_log-run held es h =
    let s = run fresh_host es in
    let w = run-Written fresh_host [] es fresh-Written h in
    elim (Bool-cases s.host_init) [
      | inl e ↦
          ap (process_log held) (
            w.log
            ∙ ap
                (λ b.
                  (if b then s.counter_width ∷ s.roi_count ∷ [] else [])
                  ++ encode_all (history fresh_host es))
                e)
          ∙ process_log-encode held s.counter_width s.roi_count (history fresh_host es) w.fits
      | inr e ↦ rw (w.log, e, w.unwritten e) refl
    ]
