-- ===== src/PostProcess/Overflow.antt =====
-- When the main loop of src/post_process.cc gives up.
use zray.Base.{
  ℕ, zero, suc, ◌+◌, ◌^◌, ◌<◌, ◌≤◌, ◌≡◌, refl, sym, true, false, Option, none, some, List, [], ◌∷◌,
  length, get_or, arith, ◌∙◌, ap, All,
}
use zray.Base.Word.{wmul}
use zray.Host.{find, put}
use zray.Host.Registry.{find-put}
use zray.PostProcess.{
  Epoch, overflowed, emit, deltas, any_negative, Logs, counter_delta, process_log,
}
use zray.PostProcess.Epochs.{
  LogRecord, epochs, Words, Sized, put-Sized, is_finished, emit-some, delta_of, counter_delta_of,
  get_or-deltas, length-deltas, get_or-word,
}
use zray.PostProcess.Decode.{Fits, encode_all, process_log-encode}

-- No counter steps back, or ahead by 2 ^ 63 or more.
abbrev pub Grown : List ℕ → List ℕ → Type 0
Grown old new =
    (i : ℕ)
    → i < length new
    → (get_or old i 0 ≤ get_or new i 0) × (get_or new i 0 < get_or old i 0 + 2 ^ 63)

-- Each record's counters have grown from the thread's record before.
abbrev pub Grows : Logs → List LogRecord → Type 0
Grows logs [] = Unit
Grows logs (r ∷ rs) =
    ((old : List ℕ) → find r.tid logs ≡ some old → Grown old r.counters)
    × Grows (put r.tid r.counters logs) rs

any_negative_no :
    (xs : List ℕ) → ((i : ℕ) → i < length xs → get_or xs i 0 < 2 ^ 63) → any_negative xs ≡ false
unfolding any_negative
any_negative_no [] h = refl
any_negative_no (x ∷ xs) h =
    ground (arith, h 0 (omega arith), any_negative_no xs (λ i k. h (suc i) (omega arith)))

any_negative_yes :
    (xs : List ℕ) (i : ℕ) → i < length xs → 2 ^ 63 ≤ get_or xs i 0 → any_negative xs ≡ true
unfolding any_negative
any_negative_yes [] i h k = elim h [ ]
any_negative_yes (x ∷ xs) zero h k = ground arith
any_negative_yes (x ∷ xs) (suc i) h k = ground (arith, any_negative_yes xs i (omega arith) k)

find_empty : (k : ℕ) → find {A = List ℕ} k [] ≡ none
unfolding find
find_empty k = refl

delta_of-none : (counters : List ℕ) → delta_of counters none ≡ some counters
unfolding delta_of
delta_of-none counters = refl

delta_of-Grown :
    (n : ℕ) (counters : List ℕ) (before : Option (List ℕ))
    → ((old : List ℕ) → before ≡ some old → Words n old)
    → Words n counters
    → ((old : List ℕ) → before ≡ some old → Grown old counters)
    → (delta : List ℕ) × (delta_of counters before ≡ some delta)
unfolding delta_of
delta_of-Grown n counters none s h g = (counters, refl)
delta_of-Grown n counters (some old) s h g =
    let same = h.0 ∙ sym (s old refl).0 in
    let small : any_negative (deltas counters old) ≡ false =
      any_negative_no (deltas counters old) (λ i k.
        let inside : i < length counters = omega (arith, length-deltas counters old same) in
        omega (
          arith,
          get_or-deltas counters old i same inside,
          (g old refl i inside).0,
          (g old refl i inside).1,
          get_or-word counters i h.1,
          get_or-word old i (s old refl).1,
        )) in
    (deltas counters old, ground (arith, small))

-- If the counters of each thread only ever grow, by less than 2 ^ 63 from one record to the next,
-- the whole log is reported.
pub epochs_finished :
    (n : ℕ) (logs : Logs) (rs : List LogRecord)
    → Sized n logs
    → All (λ r. Words n r.counters) rs
    → Grows logs rs
    → is_finished (epochs logs rs) ≡ true
unfolding epochs
epochs_finished n logs [] s h g = refl
epochs_finished n logs (r ∷ rs) s (h, hs) (g, gs) =
    let rest = epochs (put r.tid r.counters logs) rs in
    let (delta, e) = delta_of-Grown n r.counters (find r.tid logs) (s r.tid) h g in
    ap (λ o. is_finished (emit r.tid o r.time r.loads r.stores rest))
      (counter_delta_of logs r.tid r.counters ∙ e)
    ∙ (emit-some r.tid r.time delta r.loads r.stores rest).0
    ∙ epochs_finished n (put r.tid r.counters logs) rs (put-Sized n r.tid r.counters logs s h) hs gs

delta_of-stepped_back :
    (n i : ℕ) (counters old : List ℕ)
    → Words n old
    → Words n counters
    → i < n
    → get_or counters i 0 < get_or old i 0
    → get_or old i 0 ≤ get_or counters i 0 + 2 ^ 63
    → delta_of counters (some old) ≡ none
unfolding delta_of
delta_of-stepped_back n i counters old s h k b c =
    let same = h.0 ∙ sym s.0 in
    let inside : i < length counters = omega (arith, h.0) in
    let large : any_negative (deltas counters old) ≡ true =
      any_negative_yes (deltas counters old) i (omega (arith, length-deltas counters old same)) (
        omega (
          arith,
          get_or-deltas counters old i same inside,
          get_or-word counters i h.1,
          get_or-word old i s.1,
        )) in
    ground (arith, large)

-- The epoch of a thread's first record.
abbrev pub first_epoch : LogRecord → Epoch
first_epoch r = record {
  thread = r.tid;
  counter_array = r.counters;
  time_delta = r.time;
  load_runtimes = r.loads;
  store_runtimes = r.stores;
}

-- A second record under a thread's id with a counter below that of the first, by 2 ^ 63 at most, as
-- of a new thread that was given the id of one that has ended: processing stops with the error, and
-- no record from there on is reported.
pub process_log-stepped_back :
    (held width count i : ℕ) (r next : LogRecord) (rs : List LogRecord)
    → All (Fits (wmul width count)) (r ∷ next ∷ rs)
    → Words (wmul width count) r.counters
    → Words (wmul width count) next.counters
    → next.tid ≡ r.tid
    → i < wmul width count
    → get_or next.counters i 0 < get_or r.counters i 0
    → get_or r.counters i 0 ≤ get_or next.counters i 0 + 2 ^ 63
    → process_log held (width ∷ count ∷ encode_all (r ∷ next ∷ rs))
      ≡ overflowed (first_epoch r ∷ []) r.tid
unfolding epochs
process_log-stepped_back held width count i r next rs f s h same k b c =
    let logs : Logs = put r.tid r.counters [] in
    let fresh : counter_delta [] r.tid r.counters ≡ some r.counters =
      counter_delta_of [] r.tid r.counters
      ∙ ap (delta_of r.counters) (find_empty r.tid)
      ∙ delta_of-none r.counters in
    let back : counter_delta logs next.tid next.counters ≡ none =
      counter_delta_of logs next.tid next.counters
      ∙ ap (delta_of next.counters) (ground (arith, find-put r.tid next.tid r.counters []))
      ∙ delta_of-stepped_back (wmul width count) i next.counters r.counters s h k b c in
    process_log-encode held width count (r ∷ next ∷ rs) f
    ∙ rw (fresh, back) (ap (overflowed (first_epoch r ∷ [])) same)
