-- ===== src/Host.antt =====
-- The host side of src/zray_dyn.cc: the threads that are registered for polling, and the log of
-- size_t words that each poll extends. The mutex makes each operation one step.
pub mod Registry
use zray.Base.{
  ℕ, zero, suc, ◌+◌, ◌^◌, Bool, true, false, Option, none, some, List, [], ◌∷◌, ◌++◌, map, ◌==◌,
  if◌then◌else◌,
}
use zray.Base.Word.{wsub, wmul}

-- What a poll copies out of a thread's memory, and the time at which it does.
pub record Snapshot : Type 0 where
  pub counters : ℕ → ℕ
  pub load_runtimes : ℕ → ℕ
  pub store_runtimes : ℕ → ℕ
  pub time_stamp : ℕ

pub data Warning : Type 0 where
  duplicate : ℕ → Warning
  nonexistent : ℕ → Warning

-- The globals, the map from threads to the time of their last poll, and the log file. The map is
-- listed, and polled, in the order in which threads were added; std::unordered_map has no fixed one.
pub record Host : Type 0 where
  pub host_init : Bool
  pub counter_width : ℕ
  pub roi_count : ℕ
  pub registered_threads : List (ℕ × ℕ)
  pub log : List ℕ
  pub warnings : List Warning

-- The process at its start, with no log file in the directory.
abbrev pub fresh_host : Host
fresh_host = record {
  host_init = false;
  counter_width = 0;
  roi_count = 0;
  registered_threads = [];
  log = [];
  warnings = [];
}

-- The process at its start beside the log file of an earlier run: the file is opened to append, and
-- never truncated.
abbrev pub restarted : List ℕ → Host
restarted old = record fresh_host { log = old }

unfoldable pub find {ℓ} : {A : Type ℓ} → ℕ → List (ℕ × A) → Option A
find k [] = none
find k ((j, a) ∷ rest) = if j == k then some a else find k rest

-- map[k] = a: in place if the key is there, or a new entry.
unfoldable pub put {ℓ} : {A : Type ℓ} → ℕ → A → List (ℕ × A) → List (ℕ × A)
put k a [] = (k, a) ∷ []
put k a ((j, b) ∷ rest) =
    let after = put k a rest in if j == k then (j, a) ∷ rest else (j, b) ∷ after

unfoldable pub erase {ℓ} : {A : Type ℓ} → ℕ → List (ℕ × A) → List (ℕ × A)
erase k [] = []
erase k ((j, b) ∷ rest) = let after = erase k rest in if j == k then rest else (j, b) ∷ after

-- `n` words of memory from offset `i` on.
unfoldable pub words_from : ℕ → ℕ → (ℕ → ℕ) → List ℕ
words_from i zero f = []
words_from i (suc n) f = f i ∷ words_from (i + 1) n f

-- The sizes are taken from the first thread that registers.
unfoldable pub shape : ℕ → ℕ → Host → Host
shape width count s =
    if s.roi_count == 0 then record s { roi_count = count; counter_width = width } else s

unfoldable pub add_thread : ℕ → ℕ → Host → Host
add_thread tid now s = elim (find tid s.registered_threads) [
  | none ↦ record s { registered_threads = put tid now s.registered_threads }
  | some t ↦ record s { warnings = duplicate tid ∷ s.warnings }
]

-- __register_thread_accel_to_host, at time `now`
unfoldable pub register_thread : ℕ → ℕ → ℕ → ℕ → Host → Host
unfolding shape add_thread
register_thread tid width count now s = add_thread tid now (shape width count s)

-- __unregister_thread_accel_to_host
unfoldable pub unregister_thread : ℕ → Host → Host
unregister_thread tid s = elim (find tid s.registered_threads) [
  | none ↦ record s { warnings = nonexistent tid ∷ s.warnings }
  | some t ↦ record s { registered_threads = erase tid s.registered_threads }
]

-- The words of one thread in the log, and the two that stand before the first.
unfoldable pub write_record : Host → ℕ × Snapshot → Host
write_record s (tid, snap) =
    let size = wmul s.counter_width s.roi_count in
    let time0 : ℕ = elim (find tid s.registered_threads) [ none ↦ 0 | some t ↦ t ] in
    let header = if s.host_init then [] else s.counter_width ∷ s.roi_count ∷ [] in
    record s {
      host_init = true;
      log =
          s.log
          ++ header
          ++ tid ∷ words_from 0 size snap.counters
          ++ wsub snap.time_stamp time0 ∷ words_from 0 size snap.load_runtimes
          ++ words_from 0 size snap.store_runtimes;
      registered_threads = put tid snap.time_stamp s.registered_threads;
    }

unfoldable pub write_records : Host → List (ℕ × Snapshot) → Host
write_records s [] = s
write_records s (r ∷ rs) = write_records (write_record s r) rs

-- One round of __host_poll_proc: the memory of all threads is copied first, then written.
unfoldable pub poll : (ℕ → Snapshot) → Host → Host
unfolding write_records
poll memory s = write_records s (map (λ (tid, t). (tid, memory tid)) s.registered_threads)

pub data Event : Type 0 where
  register : ℕ → ℕ → ℕ → ℕ → Event
  unregister : ℕ → Event
  polled : (ℕ → Snapshot) → Event

abbrev pub step : Host → Event → Host
step s (register tid width count now) = register_thread tid width count now s
step s (unregister tid) = unregister_thread tid s
step s (polled memory) = poll memory s

unfoldable pub run : Host → List Event → Host
run s [] = s
run s (e ∷ es) = run (step s e) es
