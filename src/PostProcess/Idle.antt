-- ===== src/PostProcess/Idle.antt =====
-- The runtime arrays in src/post_process.cc: unlike the counters, each epoch reports them whole.
use zray.Base.{
  ℕ, zero, suc, ◌+◌, ◌*◌, ◌<◌, ◌≡◌, refl, sym, true, none, some, List, [], ◌∷◌, get_or, arith, ◌∙◌,
  ap, All, inl, inr, Option-cases, ◌==◌, if◌then◌else◌, replicate, ==_refl,
}
use mathlib.Core.Option.{some-injective}
use zray.Base.Word.{wmul, wadd}
use zray.Host.{find, put}
use zray.Host.Registry.{find-put}
use zray.PostProcess.{emit, Logs, counter_delta, process_log}
use zray.PostProcess.Epochs.{
  LogRecord, epochs, Words, is_finished, reported, emit-some, sum_of, value_of, no_logs-Sized,
  last_count, last_count-put, logged, epochs_sum,
}
use zray.PostProcess.Decode.{Fits, encode_all, process_log-encode}
use zray.PostProcess.Overflow.{Grows, epochs_finished}

-- The sum of a thread's runtime loads over all records.
unfoldable pub logged_loads : ℕ → ℕ → List LogRecord → ℕ
logged_loads t i [] = 0
logged_loads t i (r ∷ rs) = (if r.tid == t then get_or r.loads i 0 else 0) + logged_loads t i rs

-- A finished log reports for each record the whole runtime array, whatever was reported before.
epochs_loads :
    (logs : Logs) (rs : List LogRecord) (t i : ℕ)
    → is_finished (epochs logs rs) ≡ true
    → sum_of (λ e. e.load_runtimes) t i (reported (epochs logs rs)) ≡ logged_loads t i rs
unfolding epochs sum_of logged_loads
epochs_loads logs [] t i f = refl
epochs_loads logs (r ∷ rs) t i f =
    let rest = epochs (put r.tid r.counters logs) rs in
    elim (Option-cases (counter_delta logs r.tid r.counters)) [
      | inl e ↦
          ground (arith, f, ap is_finished (ap (λ o. emit r.tid o r.time r.loads r.stores rest) e))
      | inr (delta, e) ↦
          let opened = ap (λ o. emit r.tid o r.time r.loads r.stores rest) e in
          let parts = emit-some r.tid r.time delta r.loads r.stores rest in
          ap (λ o. sum_of (λ e. e.load_runtimes) t i (reported o)) opened
          ∙ parts.1 (λ e. e.load_runtimes) t i
          ∙ ap (λ x. (if r.tid == t then get_or r.loads i 0 else 0) + x)
              (epochs_loads (put r.tid r.counters logs) rs t i
                (sym parts.0 ∙ sym (ap is_finished opened) ∙ f))
    ]

logged_loads-replicate :
    (r : LogRecord) (i k : ℕ) → logged_loads r.tid i (replicate k r) ≡ k * get_or r.loads i 0
unfolding logged_loads
logged_loads-replicate r i zero = omega arith
logged_loads-replicate r i (suc k) = ground (arith, logged_loads-replicate r i k)

replicate-Grows :
    (r : LogRecord) (k : ℕ) (logs : Logs)
    → find r.tid logs ≡ some r.counters
    → Grows logs (replicate k r)
replicate-Grows r zero logs h = tt
replicate-Grows r (suc k) logs h = (
  λ old e i k.
      let same = some-injective old r.counters (sym e ∙ h) in
      omega (arith, ap (λ xs. get_or xs i 0) same),
  replicate-Grows r k (put r.tid r.counters logs) (
      find-put r.tid r.tid r.counters logs
      ∙ ap (λ b. if b then some r.counters else find r.tid logs) (==_refl r.tid)),
)

logged-replicate :
    (r : LogRecord) (k i : ℕ) (logs : Logs)
    → last_count logs r.tid i ≡ get_or r.counters i 0
    → last_count (logged logs (replicate k r)) r.tid i ≡ get_or r.counters i 0
unfolding logged
logged-replicate r zero i logs h = h
logged-replicate r (suc k) i logs h =
    logged-replicate r k i (put r.tid r.counters logs)
      (ground (arith, last_count-put logs r.tid r.tid i r.counters))

replicate-Words :
    (n k : ℕ) (r : LogRecord) → Words n r.counters → All (λ q. Words n q.counters) (replicate k r)
replicate-Words n zero r h = tt
replicate-Words n (suc k) r h = (h, replicate-Words n k r h)

replicate-Fits : (n k : ℕ) (r : LogRecord) → Fits n r → All (Fits n) (replicate k r)
replicate-Fits n zero r h = tt
replicate-Fits n (suc k) r h = (h, replicate-Fits n k r h)

-- A thread that is polled any number of times, and does nothing in between: its counters are
-- reported once in all, but the bytes of its runtime loads once for every poll.
pub process_log-idle :
    (held width count k i : ℕ) (r : LogRecord)
    → Fits (wmul width count) r
    → Words (wmul width count) r.counters
    → i < wmul width count
    → let es = reported (process_log held (width ∷ count ∷ encode_all (replicate (suc k) r))) in
      (wadd 0 (sum_of (λ e. e.counter_array) r.tid i es) ≡ get_or r.counters i 0)
      × (sum_of (λ e. e.load_runtimes) r.tid i es ≡ suc k * get_or r.loads i 0)
unfolding logged find
process_log-idle held width count k i r f h b =
    let n = wmul width count in
    let rs = replicate (suc k) r in
    let read = process_log-encode held width count rs (replicate-Fits n (suc k) r f) in
    let first : find r.tid (put r.tid r.counters []) ≡ some r.counters =
      find-put r.tid r.tid r.counters []
      ∙ ap (λ b. if b then some r.counters else none) (==_refl r.tid) in
    let ends : is_finished (epochs [] rs) ≡ true =
      epochs_finished n [] rs (no_logs-Sized n) (replicate-Words n (suc k) r h)
        (λ old e. ground (arith, e), replicate-Grows r k (put r.tid r.counters []) first) in
    (
      ap (λ o. wadd 0 (sum_of (λ e. e.counter_array) r.tid i (reported o))) read
          ∙ epochs_sum n [] rs r.tid i (no_logs-Sized n) (replicate-Words n (suc k) r h) b ends
          ∙ logged-replicate r k i (put r.tid r.counters []) (ap (value_of i) first),
      ap (λ o. sum_of (λ e. e.load_runtimes) r.tid i (reported o)) read
          ∙ epochs_loads [] rs r.tid i ends
          ∙ logged_loads-replicate r i (suc k),
    )
