-- ===== src/PostProcess/Tests.antt =====
-- Runs of the host and the post-processor on two threads, and the theorems' instances.
use zray.Base.{
  ℕ, zero, suc, ◌*◌, ◌≡◌, refl, subst, true, All, List, [], ◌∷◌, arith, replicate, get_or, false,
}
use mathlib.Core.Option.{some-injective}
use zray.Base.Word.{wadd}
use zray.Host.{Snapshot, Event, register, unregister, polled, fresh_host, run, find, put}
use zray.Profile.{new_profile}
use zray.Profile.Metrics.{load_count}
use zray.Report.{Named, Counters, counter_index, empty_report, build_report, read_pd_sets}
use zray.Report.Shares.{count_at}
use zray.PostProcess.Finalize.{epoch_counters, finalize, read_host_pd_sets}
use zray.PostProcess.EpochSums.{sum_over}
use zray.PostProcess.FirstSet.{first_set_hits}
use zray.PostProcess.Updates.{finalize-build_report}
use zray.PostProcess.Reports.{last_counters, WithinArray, process_log-reports}
use zray.PostProcess.{Epoch, overflowed, process_log}
use zray.PostProcess.Epochs.{
  LogRecord, Words, epochs, is_finished, reported, sum_of, last_count, logged,
}
use zray.PostProcess.Decode.{Fits, encode_all, process_log-encode}
use zray.PostProcess.Overflow.{Grown, Grows, first_epoch, process_log-stepped_back}
use zray.PostProcess.History.{history}
use zray.PostProcess.Monitor.{process_log-run}
use zray.PostProcess.Idle.{process_log-idle}
use zray.PostProcess.Sums.{process_log-sum, process_log-finished}

-- Thread 7 at time 40 and at time 90; thread 8 in between. The arrays have one word.
abbrev early : LogRecord
early = record { tid = 7; counters = 3 ∷ []; time = 40; loads = 16 ∷ []; stores = 0 ∷ [] }

abbrev other : LogRecord
other = record { tid = 8; counters = 9 ∷ []; time = 60; loads = 0 ∷ []; stores = 4 ∷ [] }

abbrev late : LogRecord
late = record { tid = 7; counters = 5 ∷ []; time = 50; loads = 16 ∷ []; stores = 0 ∷ [] }

-- A new thread under the id 7.
abbrev reborn : LogRecord
reborn = record { tid = 7; counters = 1 ∷ []; time = 10; loads = 0 ∷ []; stores = 0 ∷ [] }

abbrev three : List LogRecord
three = early ∷ other ∷ late ∷ []

three-Fits : All (Fits 1) three
three-Fits = (((refl, refl, refl)), (((refl, refl, refl)), (((refl, refl, refl)), tt)))

three-Words : All (λ r. Words 1 r.counters) three
three-Words =
    ((refl, (omega arith, tt)), ((refl, (omega arith, tt)), ((refl, (omega arith, tt)), tt)))

counts_up : Grown early.counters late.counters
counts_up zero h = (omega arith, omega arith)
counts_up (suc i) h = absurd (omega (arith, h))

-- Between its two records, thread 7 counts from 3 to 5.
three-Grows : Grows [] three
unfolding find put
three-Grows = (
  λ old e. ground (arith, e),
  (
    λ old e. ground (arith, e),
    (λ old e. subst (λ xs. Grown xs late.counters) (some-injective (3 ∷ []) old e) counts_up, tt),
  ),
)

process_log-encode_example : process_log 0 (1 ∷ 1 ∷ encode_all three) ≡ epochs [] three
process_log-encode_example = process_log-encode 0 1 1 three three-Fits

process_log-finished_example : is_finished (process_log 0 (1 ∷ 1 ∷ encode_all three)) ≡ true
process_log-finished_example = process_log-finished 0 1 1 three three-Fits three-Words three-Grows

process_log-sum_example :
    wadd 0 (sum_of (λ e. e.counter_array) 7 0 (reported (process_log 0 (1 ∷ 1 ∷ encode_all three))))
    ≡ last_count (logged [] three) 7 0
process_log-sum_example =
    process_log-sum 0 1 1 three three-Fits three-Words 7 0 (omega arith)
      process_log-finished_example

process_log-stepped_back_example :
    process_log 0 (1 ∷ 1 ∷ encode_all (early ∷ reborn ∷ [])) ≡ overflowed (first_epoch early ∷ []) 7
process_log-stepped_back_example =
    process_log-stepped_back 0 1 1 0 early reborn [] ((refl, refl, refl), ((refl, refl, refl), tt))
      (refl, (omega arith, tt)) (refl, (omega arith, tt)) refl (omega arith) (omega arith)
      (omega arith)

process_log-idle_example :
    let es = reported (process_log 0 (1 ∷ 1 ∷ encode_all (replicate (suc 2) early))) in
    (wadd 0 (sum_of (λ e. e.counter_array) 7 0 es) ≡ 3)
    × (sum_of (λ e. e.load_runtimes) 7 0 es ≡ suc 2 * 16)
process_log-idle_example =
    process_log-idle 0 1 1 2 0 early (refl, refl, refl) (refl, (omega arith, tt)) (omega arith)

abbrev at_poll : ℕ → ℕ → Snapshot
at_poll n time = record {
  counters = λ i. n;
  load_runtimes = λ i. 0;
  store_runtimes = λ i. 0;
  time_stamp = time;
}

-- Two threads are polled together once, and the first once more after the second has ended.
abbrev operations : List Event
operations =
    register 7 1 1 10
    ∷ register 8 1 1 20
    ∷ register 8 1 1 30
    ∷ polled (λ t. at_poll t 100)
    ∷ unregister 8
    ∷ polled (λ t. at_poll (t * 2) 150)
    ∷ []

process_log-run_example :
    process_log 0 (run fresh_host operations).log ≡ epochs [] (history fresh_host operations)
process_log-run_example = process_log-run 0 operations (
  λ h. absurd (omega (arith, h)),
  (λ h. absurd (omega (arith, h)), (λ h. absurd (omega (arith, h)), (tt, (tt, (tt, tt))))),
)

-- A run with one thread and one poll.
abbrev one_poll : List Event
one_poll = register 7 1 1 10 ∷ polled (λ t. at_poll t 100) ∷ []

-- A profile log of one set, with 3 loads.
abbrev profiles : List Named
profiles = (109 ∷ [], record (new_profile false) { load_count = 3; bytes_read = 24 }) ∷ []

abbrev first : Epoch
first = record {
  thread = 7;
  counter_array = 3 ∷ [];
  time_delta = 40;
  load_runtimes = 16 ∷ [];
  store_runtimes = 0 ∷ [];
}

-- Nine loads, and the 16 bytes of intrinsics; the region's own counter is set 0's and is left out.
finalize_test :
    ((get_or
        (finalize false 1 1 profiles first).region_profile_list
        0
        ([], new_profile false)).1.load_count
      ≡ 9)
    × ((finalize false 1 1 profiles first).region_profile_counts ≡ 0 ∷ [])
unfolding finalize read_host_pd_sets zray.PostProcess.Finalize.read_host_record
    zray.PostProcess.Finalize.host_indirect_from zray.PostProcess.Finalize.add_host_indirects
    zray.PostProcess.Finalize.add_host_indirect zray.PostProcess.Finalize.empty_host_report
    zray.PostProcess.Finalize.add_to_offline_region zray.PostProcess.Finalize.measured_offline
    zray.PostProcess.Finalize.host_index zray.PostProcess.Finalize.plus_offline
    zray.PostProcess.Finalize.apply_offline_counter zray.Report.as_index
finalize_test = (refl, refl)

finalize-build_report_example :
    ((finalize false 1 1 profiles first).region_profile_list
      ≡ (build_report (epoch_counters false 1 first) 1 profiles).region_profile_list)
    × ((finalize false 1 1 profiles first).counts
        ≡ (build_report (epoch_counters false 1 first) 1 profiles).counts)
    × ((finalize false 1 1 profiles first).indirect_profiles
        ≡ (build_report (epoch_counters false 1 first) 1 profiles).indirect_profiles)
    × (get_or (build_report (epoch_counters false 1 first) 1 profiles).region_profile_counts 0 0
        ≡ wadd
            (get_or (finalize false 1 1 profiles first).region_profile_counts 0 0)
            (first_set_hits (epoch_counters false 1 first) 0 profiles))
finalize-build_report_example = finalize-build_report false 1 1 profiles first 0 (omega arith)

abbrev last : Counters
last = last_counters false 1 (last_count (logged [] three) 7)

profiles-WithinArray : WithinArray 1 last profiles
unfolding counter_index
profiles-WithinArray = (omega arith, tt)

process_log-reports_example :
    wadd 0 (
      sum_over 7
        (λ e.
          count_at load_count 0
            (read_host_pd_sets
              (epoch_counters false 1 e)
              profiles
              (empty_report (epoch_counters false 1 e) 1)).region_profile_list)
        (reported (process_log 0 (1 ∷ 1 ∷ encode_all three))))
    ≡ count_at load_count 0 (read_pd_sets last profiles (empty_report last 1)).region_profile_list
process_log-reports_example =
    process_log-reports 0 1 1 three three-Fits three-Words load_count false profiles 1 0 7 refl refl
      (omega arith) profiles-WithinArray
      (process_log-finished 0 1 1 three three-Fits three-Words three-Grows)
