-- ===== src/PostProcess/Reports.antt =====
-- The reports that src/post_process.cc makes of a host's log against the one that src/zray_dyn.cc
-- makes of the same thread when it ends.
use zray.Base.{
  ℕ, ◌*◌, ◌%◌, ◌^◌, ◌<◌, ◌≡◌, refl, sym, ap, ◌∙◌, Bool, true, false, ◌&&◌, List, [], ◌∷◌,
  length-replicate, get_or, All, ◌==◌, arith,
}
use zray.Base.Word.{wadd, wmul, mul-mod_word}
use zray.Profile.Metrics
use zray.Profile.Metrics.{Metric, count_of, is_scaled}
use zray.Report.{Named, Counters, counter_index, read_pd_sets, empty_report}
use zray.Profile.{new_profile}
use zray.Report.Blank.{empty_count, get_or-replicate_keep}
use zray.Report.Shares.{count_at, share, runtime_share}
use zray.Report.Direct.{is_direct, index_of, direct_sum, read_pd_sets_sums}
use zray.PostProcess.{Epoch, process_log}
use zray.PostProcess.Epochs.{LogRecord, Words, is_finished, reported, last_count, logged}
use zray.PostProcess.Decode.{Fits, encode_all}
use zray.PostProcess.Sums.{process_log-sum}
use zray.PostProcess.Finalize.{epoch_counters, read_host_pd_sets}
use zray.PostProcess.EpochSums.{
  sum_over, sum_over-times, sum_over-mod, sum_over-ext, sum_of-sum_over, sum_over-if, sum_over-zero,
}
use zray.PostProcess.Alike.{read_host_pd_sets-Alike, same_report}

-- Whether the runtime arrays hold a part of the count.
abbrev pub is_runtime : Metric → Bool
is_runtime Metrics.intrinsic_load = true
is_runtime Metrics.intrinsic_store = true
is_runtime m = false

no_runtime : (m : Metric) (c : Counters) (i : ℕ) → is_runtime m ≡ false → runtime_share m c i ≡ 0
no_runtime Metrics.intrinsic_load c i h = cc
no_runtime Metrics.intrinsic_store c i h = cc
no_runtime m c i h = refl

-- The counters that a thread ends with
abbrev pub last_counters : Bool → ℕ → (ℕ → ℕ) → Counters
last_counters held width f = record {
  counter_array = f;
  load_runtime_array = λ i. 0;
  store_runtime_array = λ i. 0;
  counter_dimension = width;
  active_group_number = 0;
  held = held;
}

-- The places of the sets of a region's own records
abbrev pub WithinArray : ℕ → Counters → List Named → Type 0
WithinArray size c log = All (λ (q : Named). index_of c q.1 < size) log

direct_sum-sum_over :
    (m : Metric) (held : Bool) (width r t size : ℕ) (f : ℕ → ℕ) (es : List Epoch) (log : List Named)
    → is_runtime m ≡ false
    → ((i : ℕ) → i < size → sum_over t (λ e. get_or e.counter_array i 0) es % 2 ^ 64 ≡ f i)
    → WithinArray size (last_counters held width f) log
    → sum_over t (λ e. direct_sum m (epoch_counters held width e) r log) es % 2 ^ 64
      ≡ direct_sum m (last_counters held width f) r log % 2 ^ 64
unfolding direct_sum counter_index
direct_sum-sum_over m held width r t size f es [] n h a = ap (λ x. x % 2 ^ 64) (sum_over-zero t es)
direct_sum-sum_over m held width r t size f es ((name, p) ∷ log) n h (a, within) =
    let c = last_counters held width f in
    let i = index_of c p in
    let own = is_direct c p && p.pragma_region_id == r in
    let w = count_of m p in
    let one : (e : Epoch)
        → share m (epoch_counters held width e) p i ≡ w * get_or e.counter_array i 0 =
      λ e. omega (arith, no_runtime m (epoch_counters held width e) i n) in
    let all =
      sum_over-ext t (λ e. share m (epoch_counters held width e) p i)
        (λ e. w * get_or e.counter_array i 0) es one
      ∙ sum_over-times t w (λ e. get_or e.counter_array i 0) es in
    let split =
      sum_over-if t own (λ e. share m (epoch_counters held width e) p i)
        (λ e. direct_sum m (epoch_counters held width e) r log) es in
    let mine : share m c p i ≡ w * f i = omega (arith, no_runtime m c i n) in
    let product =
      sym (mul-mod_word w (sum_over t (λ e. get_or e.counter_array i 0) es))
      ∙ ap (λ x. (w * x) % 2 ^ 64) (h i a) in
    let rest = direct_sum-sum_over m held width r t size f es log n h within in
    ap (λ x. x % 2 ^ 64) split ∙ ground (arith, all, mine, product, rest)

-- A region's row is the sum over its own records.
runtime_row :
    (m : Metric) (c : Counters) (log : List Named) (regions r : ℕ)
    → is_scaled m ≡ true
    → r < regions
    → count_at m r (read_pd_sets c log (empty_report c regions)).region_profile_list
      ≡ direct_sum m c r log % 2 ^ 64
unfolding empty_report
runtime_row m c log regions r h k =
    let none = empty_count c regions m r in
    let first : Named = ([], new_profile c.held) in
    let list_size = length-replicate regions first in
    let count_size = length-replicate {A = ℕ} regions 0 in
    let no_hits = get_or-replicate_keep (λ (n : ℕ). n) 0 0 refl regions r in
    let row =
      read_pd_sets_sums m c log (empty_report c regions) r h (omega (arith, list_size, k))
        (omega (arith, count_size, k)) (omega (arith, none)) (omega (arith, no_hits)) in
    omega (arith, row.0, none)

host_row :
    (m : Metric) (c : Counters) (log : List Named) (regions r : ℕ)
    → c.active_group_number ≡ 0
    → is_scaled m ≡ true
    → r < regions
    → count_at m r (read_host_pd_sets c log (empty_report c regions)).region_profile_list
      ≡ direct_sum m c r log % 2 ^ 64
host_row m c log regions r z h k =
    let blank = empty_report c regions in
    ap (count_at m r) (read_host_pd_sets-Alike c log blank blank z (same_report blank)).profiles
    ∙ runtime_row m c log regions r h k

module _ (held width count : ℕ) (rs : List LogRecord) (fits : All (Fits (wmul width count)) rs)
    (sized : All (λ r. Words (wmul width count) r.counters) rs) where
  -- The reports of a thread's epochs add up to the report of its last counters: over a host's log
  -- that is processed to its end, and for a count that the counters scale and the runtime arrays
  -- have no part in, what read_pd_sets of post_process.cc puts into a region's row for each epoch
  -- of a thread adds up, modulo 2 ^ 64, to what read_pd_sets of zray_dyn.cc puts there once for the
  -- counters that the thread was last logged with. The sets of the profile log have places in the
  -- arrays, and the region is one of the report's.
  pub process_log-reports :
      (m : Metric) (mir : Bool) (profiles : List Named) (regions r t : ℕ)
      → is_scaled m ≡ true
      → is_runtime m ≡ false
      → r < regions
      → WithinArray
          (wmul width count)
          (last_counters mir width (last_count (logged [] rs) t))
          profiles
      → is_finished (process_log held (width ∷ count ∷ encode_all rs)) ≡ true
      → wadd 0 (
          sum_over t
            (λ e.
              count_at m r
                (read_host_pd_sets
                  (epoch_counters mir width e)
                  profiles
                  (empty_report (epoch_counters mir width e) regions)).region_profile_list)
            (reported (process_log held (width ∷ count ∷ encode_all rs))))
        ≡ count_at m r
            (read_pd_sets (last_counters mir width (last_count (logged [] rs) t)) profiles (
              empty_report
                (last_counters mir width (last_count (logged [] rs) t))
                regions)).region_profile_list
  process_log-reports m mir profiles regions r t scaled runtime k within done =
      let c = last_counters mir width (last_count (logged [] rs) t) in
      let es = reported (process_log held (width ∷ count ∷ encode_all rs)) in
      let own = λ (e : Epoch). direct_sum m (epoch_counters mir width e) r profiles in
      let rows =
        sum_over-ext t
          (λ e.
            count_at m r
              (read_host_pd_sets (epoch_counters mir width e) profiles
                (empty_report (epoch_counters mir width e) regions)).region_profile_list)
          (λ e. own e % 2 ^ 64) es
          (λ e. host_row m (epoch_counters mir width e) profiles regions r refl scaled k) in
      let counters : (i : ℕ)
          → i < wmul width count
          → sum_over t (λ e. get_or e.counter_array i 0) es % 2 ^ 64
            ≡ last_count (logged [] rs) t i =
        λ i b. omega (
          arith,
          sum_of-sum_over t i es,
          process_log-sum held width count rs fits sized t i b done,
        ) in
      let linear =
        direct_sum-sum_over m mir width r t (wmul width count) _ es profiles runtime counters
          within in
      omega
        (arith, rows, sum_over-mod t own es, linear, runtime_row m c profiles regions r scaled k)
