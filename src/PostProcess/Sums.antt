-- ===== src/PostProcess/Sums.antt =====
-- What the whole of src/post_process.cc's main loop reports of a thread's counters.
use zray.Base.{ℕ, ◌<◌, ◌≡◌, true, List, [], ◌∷◌, ◌∙◌, ap, sym, All}
use zray.Base.Word.{wadd, wmul}
use zray.PostProcess.{process_log}
use zray.PostProcess.Epochs.{
  LogRecord, Words, no_logs-Sized, is_finished, reported, sum_of, last_count, logged, epochs_sum,
}
use zray.PostProcess.Decode.{Fits, encode_all, process_log-encode}
use zray.PostProcess.Overflow.{Grows, epochs_finished}

module _ (held width count : ℕ) (rs : List LogRecord) (fits : All (Fits (wmul width count)) rs)
    (sized : All (λ r. Words (wmul width count) r.counters) rs) where
  -- If the counters of each thread only grow, by less than 2 ^ 63 between two of its records, a log
  -- of whole records is processed to its end.
  pub process_log-finished :
      Grows [] rs → is_finished (process_log held (width ∷ count ∷ encode_all rs)) ≡ true
  process_log-finished g =
      ap is_finished (process_log-encode held width count rs fits)
      ∙ epochs_finished (wmul width count) [] rs (no_logs-Sized (wmul width count)) sized g

  -- The counts that are reported for a thread over a log that is processed to its end add up,
  -- modulo 2 ^ 64, to the thread's last counters in the log.
  pub process_log-sum :
      (t i : ℕ)
      → i < wmul width count
      → is_finished (process_log held (width ∷ count ∷ encode_all rs)) ≡ true
      → wadd 0 (
          sum_of
            (λ e. e.counter_array)
            t
            i
            (reported (process_log held (width ∷ count ∷ encode_all rs))))
        ≡ last_count (logged [] rs) t i
  unfolding zray.Host.find
  process_log-sum t i b f =
      let read = process_log-encode held width count rs fits in
      ap (λ o. wadd 0 (sum_of (λ e. e.counter_array) t i (reported o))) read
      ∙ epochs_sum (wmul width count) [] rs t i (no_logs-Sized (wmul width count)) sized b
          (sym (ap is_finished read) ∙ f)
