-- ===== src/LogFile/Tests.antt =====
-- The log of src/zray_codegen.cc and src/zray_dyn.cc on two records.
use zray.Base.{ℕ, ◌∷◌, [], List, ◌++◌, ◌≡◌, refl, true, false, length, replicate, map, arith}
use zray.Profile.{ProfileData, new_profile}
use zray.Report.{Named, Counters, Report, read_pd_sets, empty_report}
use zray.LogFile.{
  encode_word, decode_word, member_words, decode_profile, checksum, write_log, read_into, Held,
  read_entries, read_log, read_pd_sets_file,
}
use zray.LogFile.Raw.{RawRecord, raw_log, decoded, read_pd_sets_file-raw_log}
use zray.LogFile.RoundTrip.{read_pd_sets_file-write_log}
use zray.LogFile.Fuel.{read_log-enough}

abbrev main_profile : ProfileData
main_profile = record (new_profile true) {
  load_count = 3;
  bytes_read = 24;
  post_dom_set_id = 1;
  pragma_region_id = 300;
}

abbrev log : List Named
log =
    (109 ∷ 97 ∷ 105 ∷ 110 ∷ [], main_profile)
    ∷ (102 ∷ [], record main_profile { is_indirect = true })
    ∷ []

abbrev variables : Held
variables = record { profile = replicate 216 7; check = replicate 4 0; name_len = replicate 8 9 }

abbrev cut_short : List ℕ
cut_short = 1 ∷ 2 ∷ []

encode_word_test : encode_word 8 300 ≡ 44 ∷ 1 ∷ 0 ∷ 0 ∷ 0 ∷ 0 ∷ 0 ∷ 0 ∷ []
unfolding encode_word
encode_word_test = refl

checksum_test : checksum (200 ∷ 1 ∷ []) ≡ 0xffffffc9
unfolding checksum
checksum_test = refl

length_test : length (write_log log) ≡ 461
unfolding write_log
length_test = refl

read_log_test :
    read_log variables (write_log log ++ cut_short) ≡ map (λ (r : Named). (r, false)) log
unfolding read_log read_entries read_into decode_profile checksum decode_word write_log
read_log_test = refl

abbrev counters : Counters
counters = record {
  counter_array = λ i. 10;
  load_runtime_array = λ i. 0;
  store_runtime_array = λ i. 0;
  counter_dimension = 2;
  active_group_number = 0;
  held = false;
}

abbrev blank : Report
blank = empty_report counters 301

read_pd_sets_file-write_log_example :
    read_pd_sets_file counters variables (write_log log ++ cut_short) blank
    ≡ read_pd_sets counters log blank
unfolding member_words
read_pd_sets_file-write_log_example =
    read_pd_sets_file-write_log counters variables log cut_short blank (refl, refl, refl)
      (omega arith) (omega arith)

-- The first record's checksum is wrong, and the second's profile is.
abbrev damaged : List RawRecord
damaged =
    record { profile = replicate 216 0; check = 1 ∷ 0 ∷ 0 ∷ 0 ∷ []; name = 102 ∷ [] }
    ∷ record { profile = replicate 216 1; check = 1 ∷ 0 ∷ 0 ∷ 0 ∷ []; name = [] }
    ∷ []

read_pd_sets_file-raw_log_example :
    read_pd_sets_file counters variables (raw_log damaged cut_short) blank
    ≡ read_pd_sets counters (map decoded damaged) blank
read_pd_sets_file-raw_log_example =
    read_pd_sets_file-raw_log counters variables damaged cut_short blank (refl, refl, refl)
      ((refl, refl, omega arith), ((refl, refl, omega arith), tt)) (omega arith)

read_log-enough_example :
    read_entries 900 variables (record { ahead = write_log log ++ cut_short; good = true })
    ≡ read_log variables (write_log log ++ cut_short)
unfolding write_log
read_log-enough_example =
    read_log-enough 900 variables (write_log log ++ cut_short) refl (omega arith)
