-- ===== src/PostProcess/History.antt =====
-- The records of the polls of src/zray_dyn.cc, and the log that holds them.
use zray.Base.{
  All-append, ℕ, zero, suc, ◌+◌, ◌≡◌, ◌≢◌, refl, sym, false, some, List, [], ◌∷◌, ◌++◌, arith, ◌∙◌,
  ap, All, inl, inr, Bool-cases, ==-cases, if◌then◌else◌, map, length, subst, append_assoc,
  append-nil,
}
use zray.Base.Word.{wsub, wmul}
use zray.Host.{
  Host, Snapshot, Event, polled, find, words_from, write_record, write_records, poll, step,
}
use zray.Host.Registry.{Distinct, Distinct-put, Distinct-Found, Found, Found-put}
use zray.PostProcess.Epochs.{LogRecord}
use zray.PostProcess.Decode.{encode, encode_all, Fits}

-- The words of each array.
abbrev pub size_of : Host → ℕ
size_of s = wmul s.counter_width s.roi_count

-- What a poll reports of a thread that was last polled at `time0`, or registered then.
abbrev pub record_of : ℕ → (ℕ → Snapshot) → ℕ × ℕ → LogRecord
record_of size memory (tid, time0) = record {
  tid = tid;
  counters = words_from 0 size (memory tid).counters;
  time = wsub (memory tid).time_stamp time0;
  loads = words_from 0 size (memory tid).load_runtimes;
  stores = words_from 0 size (memory tid).store_runtimes;
}

-- The records of an operation: one for each thread that is registered when it is a poll.
abbrev pub records : Host → Event → List LogRecord
records s (polled memory) = map (record_of (size_of s) memory) s.registered_threads
records s e = []

-- Those of a sequence of operations.
unfoldable pub history : Host → List Event → List LogRecord
history s [] = []
history s (e ∷ es) = records s e ++ history (step s e) es

-- The state in which `rs` have been written.
pub record Written (s : Host) (rs : List LogRecord) : Type 0 where
  pub log :
      s.log ≡ (if s.host_init then s.counter_width ∷ s.roi_count ∷ [] else []) ++ encode_all rs
  pub unwritten : s.host_init ≡ false → rs ≡ []
  pub distinct : Distinct s.registered_threads
  pub shaped : s.roi_count ≡ 0 → (s.host_init ≡ false) × (s.registered_threads ≡ [])
  pub fits : All (Fits (size_of s)) rs

length-words_from : (i n : ℕ) (f : ℕ → ℕ) → length (words_from i n f) ≡ n
unfolding words_from
length-words_from i zero f = refl
length-words_from i (suc n) f = ap suc (length-words_from (i + 1) n f)

pub encode-append : (r : LogRecord) (xs ys : List ℕ) → encode r (xs ++ ys) ≡ encode r xs ++ ys
encode-append r xs ys = simp (append_assoc)

encode_all-append :
    (rs : List LogRecord) (r : LogRecord) → encode_all (rs ++ r ∷ []) ≡ encode_all rs ++ encode r []
encode_all-append [] r = refl
encode_all-append (q ∷ rs) r =
    ap (encode q) (encode_all-append rs r) ∙ encode-append q (encode_all rs) (encode r [])

write_record-Written :
    (s : Host) (rs : List LogRecord) (tid time0 : ℕ) (memory : ℕ → Snapshot)
    → Written s rs
    → s.roi_count ≢ 0
    → find tid s.registered_threads ≡ some time0
    → Written
        (write_record s (tid, memory tid))
        (rs ++ record_of (size_of s) memory (tid, time0) ∷ [])
unfolding write_record
write_record-Written s rs tid time0 memory w c f = record {
  log = elim (Bool-cases s.host_init) [
    | inl e ↦
        rw (f, w.log, e, encode_all-append rs (record_of (size_of s) memory (tid, time0)))
          (simp (append_assoc, append-nil))
    | inr e ↦ rw (f, w.log, e, w.unwritten e) (simp (append_assoc, append-nil))
  ];
  unwritten = λ h. ground (arith, h);
  distinct = Distinct-put tid (memory tid).time_stamp s.registered_threads w.distinct;
  shaped = λ h. absurd (c h);
  fits = All-append (Fits (size_of s)) rs (record_of (size_of s) memory (tid, time0) ∷ []) w.fits (
    (
      length-words_from 0 (size_of s) _,
      length-words_from 0 (size_of s) _,
      length-words_from 0 (size_of s) _,
    ),
    tt,
  );
}

write_records-Written :
    (memory : ℕ → Snapshot) (todo : List (ℕ × ℕ)) (s : Host) (rs : List LogRecord)
    → Written s rs
    → s.roi_count ≢ 0
    → Distinct todo
    → Found s.registered_threads todo
    → Written
        (write_records s (map (λ (tid, t). (tid, memory tid)) todo))
        (rs ++ map (record_of (size_of s) memory) todo)
unfolding write_records write_record
write_records-Written memory [] s rs w c d f = subst (Written s) (sym (append-nil rs)) w
write_records-Written memory ((tid, time0) ∷ todo) s rs w c (d, ds) (f, fs) =
    let r = record_of (size_of s) memory (tid, time0) in
    subst (Written _) (append_assoc rs (r ∷ []) (map (record_of (size_of s) memory) todo)) (
      write_records-Written memory todo (write_record s (tid, memory tid)) (rs ++ r ∷ [])
        (write_record-Written s rs tid time0 memory w c f) c ds
        (Found-put tid (memory tid).time_stamp s.registered_threads todo d fs))

pub poll-Written :
    (memory : ℕ → Snapshot) (s : Host) (rs : List LogRecord)
    → Written s rs
    → Written (poll memory s) (rs ++ records s (polled memory))
unfolding poll write_records
poll-Written memory s rs w = elim (==-cases s.roi_count 0) [
  | inl e ↦
      subst
        (λ m.
          Written (write_records s (map (λ (tid, t). (tid, memory tid)) m))
            (rs ++ map (record_of (size_of s) memory) m))
        (sym (w.shaped e).1) (subst (Written s) (sym (append-nil rs)) w)
  | inr c ↦
      write_records-Written memory s.registered_threads s rs w c w.distinct
        (Distinct-Found s.registered_threads w.distinct)
]
