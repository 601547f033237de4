-- ===== src/PostProcess.antt =====
-- The main loop of src/post_process.cc: the host's log is read back word by word, and each record
-- becomes the arguments of one call of zray_finalize.
pub mod Epochs
pub mod Decode
pub mod Overflow
pub mod History
pub mod Monitor
pub mod Leftover
pub mod Idle
pub mod Sums
pub mod Finalize
pub mod EpochSums
pub mod Alike
pub mod FirstSet
pub mod Updates
pub mod Reports
mod Tests
use zray.Base.{
  ℕ, zero, suc, ◌*◌, ◌^◌, Bool, true, false, ◌||◌, Option, none, some, List, [], ◌∷◌, leb, length,
  if◌then◌else◌,
}
use zray.Base.Word.{wsub, wmul}
use zray.Host.{find, put}

-- The arguments of a call of zray_finalize.
pub record Epoch : Type 0 where
  pub thread : ℕ
  pub counter_array : List ℕ
  pub time_delta : ℕ
  pub load_runtimes : List ℕ
  pub store_runtimes : List ℕ

-- The calls up to the end of the log, or up to the exit(1) of an overflow, with its thread.
pub data Outcome : Type 0 where
  finished : List Epoch → Outcome
  overflowed : List Epoch → ℕ → Outcome

abbrev pub after : Epoch → Outcome → Outcome
after e (finished es) = finished (e ∷ es)
after e (overflowed es tid) = overflowed (e ∷ es) tid

-- `n` words from the log; past its end the memory keeps what it held.
unfoldable pub read_words : ℕ → ℕ → List ℕ → List ℕ × List ℕ
read_words held zero log = ([], log)
read_words held (suc n) [] = let (ws, rest) = read_words held n [] in (held ∷ ws, rest)
read_words held (suc n) (w ∷ log) = let (ws, rest) = read_words held n log in (w ∷ ws, rest)

-- origCounterArray[i] - (it->second)[i], for each i
unfoldable pub deltas : List ℕ → List ℕ → List ℕ
deltas (x ∷ xs) (y ∷ ys) = wsub x y ∷ deltas xs ys
deltas xs ys = []

-- (long long) counterArray[i] < 0, for some i
unfoldable pub any_negative : List ℕ → Bool
any_negative [] = false
any_negative (x ∷ xs) = leb (2 ^ 63) x || any_negative xs

-- CounterLogs: the last array of each thread.
abbrev pub Logs : Type 0
Logs = List (ℕ × List ℕ)

-- The array that is passed on; `none` is an overflow.
unfoldable pub counter_delta : Logs → ℕ → List ℕ → Option (List ℕ)
counter_delta logs tid counters = elim (find tid logs) [
  | none ↦ some counters
  | some old ↦ if any_negative (deltas counters old) then none else some (deltas counters old)
]

-- What a round reports, in front of the rounds that follow if there are any.
abbrev pub emit : ℕ → Option (List ℕ) → ℕ → List ℕ → List ℕ → Outcome → Outcome
emit tid none time loads stores rest = overflowed [] tid
emit tid (some delta) time loads stores rest =
    after
      (record {
        thread = tid;
        counter_array = delta;
        time_delta = time;
        load_runtimes = loads;
        store_runtimes = stores;
      })
      rest

abbrev pub first_word : ℕ → List ℕ → ℕ
first_word held [] = held
first_word held (w ∷ ws) = w

-- The loop, for arrays of `n` words. `last` is what timeDelta holds, which a failed read keeps; the
-- arrays are allocated anew in each round, so that theirs is what the memory held.
unfoldable pub process : ℕ → ℕ → ℕ → ℕ → Logs → List ℕ → Outcome
process zero held last n logs log = finished []
process (suc fuel) held last n logs [] = finished []
process (suc fuel) held last n logs (tid ∷ log) =
    let (counters, log1) = read_words 0 n log in
    let (time, log2) = read_words last 1 log1 in
    let (loads, log3) = read_words held n log2 in
    let (stores, log4) = read_words held n log3 in
    let time_delta = first_word last time in
    emit tid (counter_delta logs tid counters) time_delta loads stores
      (process fuel held time_delta n (put tid counters logs) log4)

-- main. Each round takes a word at least, so the log's length is fuel enough.
unfoldable pub process_log : ℕ → List ℕ → Outcome
process_log held (counter_width ∷ roi_count ∷ log) =
    process (length log) held held (wmul counter_width roi_count) [] log
process_log held log = finished []
