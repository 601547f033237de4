-- ===== src/PostProcess/Epochs.antt =====
-- The main loop of src/post_process.cc on records that have been decoded: which epochs it reports
-- and when it gives up.
use zray.Base.{
  ℕ, zero, suc, ◌+◌, ◌^◌, ◌<◌, ◌≡◌, refl, Bool, true, false, Option, none, some, List, [], ◌∷◌,
  length, get_or, ◌==◌, if◌then◌else◌, arith, ◌∙◌, ap, All, inl, inr, ==-cases, Bool-cases,
  Option-cases, subst, sym,
}
use mathlib.Core.Option.{some-injective}
use zray.Base.Word.{wadd, wsub}
use zray.Host.{find, put}
use zray.Host.Registry.{find-put}
use zray.PostProcess.{
  Epoch, Outcome, finished, overflowed, emit, deltas, any_negative, Logs, counter_delta,
}

-- One record of the log.
pub record LogRecord : Type 0 where
  pub tid : ℕ
  pub counters : List ℕ
  pub time : ℕ
  pub loads : List ℕ
  pub stores : List ℕ

-- The epochs of a log's records.
unfoldable pub epochs : Logs → List LogRecord → Outcome
epochs logs [] = finished []
epochs logs (r ∷ rs) =
    emit r.tid (counter_delta logs r.tid r.counters) r.time r.loads r.stores
      (epochs (put r.tid r.counters logs) rs)

abbrev pub value_of : ℕ → Option (List ℕ) → ℕ
value_of i none = 0
value_of i (some old) = get_or old i 0

-- The counter `i` of a thread as it was last logged; 0 for a thread that was not.
abbrev pub last_count : Logs → ℕ → ℕ → ℕ
last_count logs t i = value_of i (find t logs)

-- The logs behind some records.
unfoldable pub logged : Logs → List LogRecord → Logs
logged logs [] = logs
logged logs (r ∷ rs) = logged (put r.tid r.counters logs) rs

-- The sum of what the epochs of thread `t` hold at index `i` of an array.
unfoldable pub sum_of : (Epoch → List ℕ) → ℕ → ℕ → List Epoch → ℕ
sum_of f t i [] = 0
sum_of f t i (e ∷ es) = (if e.thread == t then get_or (f e) i 0 else 0) + sum_of f t i es

pub get_or-deltas :
    (xs ys : List ℕ) (i : ℕ)
    → length xs ≡ length ys
    → i < length xs
    → get_or (deltas xs ys) i 0 ≡ wsub (get_or xs i 0) (get_or ys i 0)
unfolding deltas
get_or-deltas [] ys i h k = elim k [ ]
get_or-deltas (x ∷ xs) [] i h k = omega (arith, h)
get_or-deltas (x ∷ xs) (y ∷ ys) zero h k = refl
get_or-deltas (x ∷ xs) (y ∷ ys) (suc i) h k = get_or-deltas xs ys i (omega arith) (omega arith)

pub length-deltas : (xs ys : List ℕ) → length xs ≡ length ys → length (deltas xs ys) ≡ length xs
unfolding deltas
length-deltas [] ys h = refl
length-deltas (x ∷ xs) [] h = omega (arith, h)
length-deltas (x ∷ xs) (y ∷ ys) h = ap suc (length-deltas xs ys (omega arith))

-- `n` words below 2 ^ 64
abbrev pub Words : ℕ → List ℕ → Type 0
Words n xs = (length xs ≡ n) × All (λ x. x < 2 ^ 64) xs

-- Every array of the logs is of `n` words.
abbrev pub Sized : ℕ → Logs → Type 0
Sized n logs = (t : ℕ) (old : List ℕ) → find t logs ≡ some old → Words n old

pub no_logs-Sized : (n : ℕ) → Sized n []
unfolding find
no_logs-Sized n t old e = ground arith

pub get_or-word : (xs : List ℕ) (i : ℕ) → All (λ x. x < 2 ^ 64) xs → get_or xs i 0 < 2 ^ 64
get_or-word [] i h = omega arith
get_or-word (x ∷ xs) zero h = h.0
get_or-word (x ∷ xs) (suc i) h = get_or-word xs i h.1

pub put-Sized :
    (n t : ℕ) (counters : List ℕ) (logs : Logs)
    → Sized n logs
    → Words n counters
    → Sized n (put t counters logs)
put-Sized n t counters logs s h u old e = elim (Bool-cases (t == u)) [
  | inl same ↦ subst (Words n) (ground (arith, find-put t u counters logs)) h
  | inr other ↦ s u old (ground (arith, find-put t u counters logs))
]

last_count-lt : (n t i : ℕ) (logs : Logs) → Sized n logs → last_count logs t i < 2 ^ 64
last_count-lt n t i logs s = elim (Option-cases (find t logs)) [
  | inl e ↦ rw (e, last_count) (omega arith)
  | inr (old, e) ↦ rw (e, last_count) (get_or-word old i (s t old e).1)
]

-- What is passed on for a thread, old or new.
unfoldable pub delta_of : List ℕ → Option (List ℕ) → Option (List ℕ)
delta_of counters none = some counters
delta_of counters (some old) =
    if any_negative (deltas counters old) then none else some (deltas counters old)

pub counter_delta_of :
    (logs : Logs) (t : ℕ) (counters : List ℕ)
    → counter_delta logs t counters ≡ delta_of counters (find t logs)
unfolding counter_delta delta_of
counter_delta_of logs t counters =
    elim (find t logs)
      as (λ o.
        elim o as (λ x. Option (List ℕ)) [
          | none ↦ some counters
          | some old ↦
              if any_negative (deltas counters old) then none else some (deltas counters old)
        ]
        ≡ delta_of counters o) [ none ↦ refl | some old ↦ refl ]

pub delta_step :
    (n i : ℕ) (counters delta : List ℕ) (before : Option (List ℕ))
    → ((old : List ℕ) → before ≡ some old → Words n old)
    → Words n counters
    → i < n
    → delta_of counters before ≡ some delta
    → wadd (value_of i before) (get_or delta i 0) ≡ get_or counters i 0
unfolding delta_of
delta_step n i counters delta none s h k e =
    ground (
      arith,
      get_or-word counters i h.1,
      ap (λ xs. get_or xs i 0) (some-injective counters delta e),
    )
delta_step n i counters delta (some old) s h k e =
    elim (Bool-cases (any_negative (deltas counters old))) [
      | inl bad ↦ ground (arith, e, bad)
      | inr good ↦
          let same : deltas counters old ≡ delta = ground (arith, e, good) in
          omega (
            arith,
            ap (λ xs. get_or xs i 0) same,
            get_or-deltas counters old i (h.0 ∙ sym (s old refl).0) (omega (arith, h.0)),
            get_or-word counters i h.1,
            get_or-word old i (s old refl).1,
          )
    ]

-- Whether the log was read to its end, and the epochs that were reported.
abbrev pub is_finished : Outcome → Bool
is_finished (finished es) = true
is_finished (overflowed es t) = false

abbrev pub reported : Outcome → List Epoch
reported (finished es) = es
reported (overflowed es t) = es

pub emit-some :
    (tid time : ℕ) (delta loads stores : List ℕ) (rest : Outcome)
    → (is_finished (emit tid (some delta) time loads stores rest) ≡ is_finished rest)
      × ((f : Epoch → List ℕ) (t i : ℕ)
          → sum_of f t i (reported (emit tid (some delta) time loads stores rest))
            ≡ (if tid == t
                then get_or
                    (f (record {
                      thread = tid;
                      counter_array = delta;
                      time_delta = time;
                      load_runtimes = loads;
                      store_runtimes = stores;
                    }))
                    i
                    0
                else 0)
              + sum_of f t i (reported rest))
unfolding sum_of
emit-some tid time delta loads stores (finished es) = (refl, λ f t i. refl)
emit-some tid time delta loads stores (overflowed es u) = (refl, λ f t i. refl)

-- The state behind a record.
pub last_count-put :
    (logs : Logs) (k t i : ℕ) (counters : List ℕ)
    → last_count (put k counters logs) t i
      ≡ (if k == t then get_or counters i 0 else last_count logs t i)
last_count-put logs k t i counters = rw (find-put k t counters logs, last_count) (ground arith)

-- The counts that a finished log reports for a thread add up, modulo 2 ^ 64, to what the thread's
-- counter has gained over the log.
pub epochs_sum :
    (n : ℕ) (logs : Logs) (rs : List LogRecord) (t i : ℕ)
    → Sized n logs
    → All (λ r. Words n r.counters) rs
    → i < n
    → is_finished (epochs logs rs) ≡ true
    → wadd (last_count logs t i) (sum_of (λ e. e.counter_array) t i (reported (epochs logs rs)))
      ≡ last_count (logged logs rs) t i
unfolding epochs logged sum_of
epochs_sum n logs [] t i s h k f = omega (arith, last_count-lt n t i logs s)
epochs_sum n logs (r ∷ rs) t i s (h, hs) k f =
    let rest = epochs (put r.tid r.counters logs) rs in
    elim (Option-cases (counter_delta logs r.tid r.counters)) [
      | inl e ↦
          ground (arith, f, ap is_finished (ap (λ o. emit r.tid o r.time r.loads r.stores rest) e))
      | inr (delta, e) ↦
          let opened = ap (λ o. emit r.tid o r.time r.loads r.stores rest) e in
          let ih =
            epochs_sum n (put r.tid r.counters logs) rs t i (put-Sized n r.tid r.counters logs s h)
              hs k
              (sym (emit-some r.tid r.time delta r.loads r.stores rest).0
                ∙ sym (ap is_finished opened)
                ∙ f) in
          let parts =
            (emit-some r.tid r.time delta r.loads r.stores rest).1 (λ e. e.counter_array) t i in
          let whole = ap (λ o. sum_of (λ e. e.counter_array) t i (reported o)) opened in
          let here =
            delta_step n i r.counters delta (find r.tid logs) (s r.tid) h k
              (sym (counter_delta_of logs r.tid r.counters) ∙ e) in
          elim (==-cases r.tid t) [
            | inl same ↦ ground (
              arith,
              whole,
              parts,
              ih,
              here,
              last_count-put logs r.tid t i r.counters,
              ap (λ u. last_count logs u i) same,
            )
            | inr other ↦ ground (arith, whole, parts, ih, last_count-put logs r.tid t i r.counters)
          ]
    ]
