-- ===== src/Report/Tests.antt =====
-- The theorems on reports at a program of two regions.
use zray.Base.{
  ◌+◌, length, ◌<◌, ◌*◌, ◌%◌, ◌^◌, ◌≡◌, refl, false, true, List, [], ◌∷◌, arith, get_or, ◌==◌,
  if◌then◌else◌,
}
use zray.Base.Word.{wadd}
use zray.Profile.{ProfileData, new_profile}
use zray.Profile.Metrics.{load_count}
use zray.Report.{
  Named, Counters, Report, read_pd_sets, empty_report, apply_indirect_counts, build_report,
}
use zray.Report.Shares.{count_at}
use zray.Report.Direct.{direct_sum, direct_hits, read_pd_sets_sums}
use zray.Report.Indirect.{indirect_sum, id_at, times, apply_indirect_counts-times}
use zray.Report.Totals.{
  loads, column, add_regions, no_totals, sum_over, regions_from_first, add_regions_lem,
}
use zray.Report.Blank.{build_report_blank}

-- Two sets to a region: counters 0 and 1 are region 0's, 2 and 3 are region 1's.
abbrev counters : Counters
counters = record {
  counter_array = λ i. 10 * i;
  load_runtime_array = λ i. 0;
  store_runtime_array = λ i. 0;
  counter_dimension = 2;
  active_group_number = 0;
  held = false;
}

-- Set 1 of region 1, with 3 loads
abbrev own : ProfileData
own = record (new_profile false) { post_dom_set_id = 1; pragma_region_id = 1; load_count = 3 }

-- Set 1 of a cloned function, with 2 loads
abbrev cloned : ProfileData
cloned = record (new_profile false) { post_dom_set_id = 1; load_count = 2; is_indirect = true }

abbrev log : List Named
log = (109 ∷ [], own) ∷ (102 ∷ [], cloned) ∷ []

abbrev filled : Report
filled = record {
  region_profile_list = ([], new_profile false) ∷ (109 ∷ [], own) ∷ [];
  region_profile_counts = 0 ∷ 0 ∷ [];
  counts = [];
  indirect_profiles = (102 ∷ [], cloned) ∷ [];
}

read_pd_sets_sums_example :
    (count_at load_count 1 (read_pd_sets counters log filled).region_profile_list
      ≡ wadd 3 (direct_sum load_count counters 1 log))
    × (get_or (read_pd_sets counters log filled).region_profile_counts 1 0
        ≡ wadd 0 (direct_hits counters 1 log))
read_pd_sets_sums_example =
    read_pd_sets_sums load_count counters log filled 1 refl (omega arith) (omega arith)
      (omega arith) (omega arith)

apply_indirect_counts-times_example :
    count_at load_count 1 (apply_indirect_counts counters filled).region_profile_list
    ≡ wadd 3 (
        times (id_at false filled.region_profile_list) 1 0 2
        * indirect_sum load_count counters 1 filled.indirect_profiles)
apply_indirect_counts-times_example =
    apply_indirect_counts-times load_count counters filled 1 refl (omega arith) (omega arith)

build_report_blank_example :
    count_at load_count 0 (build_report counters 3 ((102 ∷ [], cloned) ∷ [])).region_profile_list
    ≡ (if 0 == 0
        then 3
          * indirect_sum load_count counters 0
              (read_pd_sets counters
                ((102 ∷ [], cloned) ∷ [])
                (empty_report counters 3)).indirect_profiles
          % 2 ^ 64
        else 0)
build_report_blank_example =
    build_report_blank load_count counters 3 ((102 ∷ [], cloned) ∷ []) 0 refl (refl, tt)
      (omega arith)

-- A region with 3 loads after an empty one, and before another empty one
abbrev three : List Named
three = ([], new_profile false) ∷ (109 ∷ [], own) ∷ ([], new_profile false) ∷ []

total_loads_of_three : column loads (add_regions three no_totals) ≡ 5
unfolding add_regions
total_loads_of_three = refl

small_sum : sum_over loads three + length three < 2 ^ 64
unfolding sum_over
small_sum = omega arith

add_regions_lem_example :
    column loads (add_regions three no_totals)
    ≡ sum_over loads three + regions_from_first loads three
add_regions_lem_example = add_regions_lem loads three small_sum
