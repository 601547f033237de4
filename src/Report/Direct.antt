-- ===== src/Report/Direct.antt =====
-- read_pd_sets of src/zray_dyn.cc against the sums that a region's row stands for.
use zray.Base.{
  ℕ, ◌+◌, ◌%◌, ◌^◌, ◌<◌, ◌≡◌, Bool, true, not, ◌&&◌, ◌∙◌, List, [], ◌∷◌, arith, length, get_or,
  ◌==◌, if◌then◌else◌, ap,
}
use zray.Base.Word.{wadd, if_wadd-lt, if_wadd, if_wadd_mod}
use zray.Profile.{ProfileData}
use zray.Profile.Metrics.{Metric, count_of, is_scaled, count_of-plus, count_of-keys}
use zray.Report.{
  Named, Counters, Report, modify, measured, counter_index, add_to_region, read_record,
  read_pd_sets,
}
use zray.Report.Shares.{blank, count_at, share, count_of-measured, length-modify, get_or-modify}

-- The record is a region's own, in the group that is reported.
abbrev pub is_direct : Counters → ProfileData → Bool
is_direct c p =
    not p.is_indirect
    && not (not (c.active_group_number == 0) && not (p.group_number == c.active_group_number))

abbrev pub index_of : Counters → ProfileData → ℕ
index_of c p = counter_index c p.post_dom_set_id p.pragma_region_id

-- What the log adds to a count of region `r`, with no bound.
unfoldable pub direct_sum : Metric → Counters → ℕ → List Named → ℕ
direct_sum m c r [] = 0
direct_sum m c r ((name, p) ∷ log) =
    (if is_direct c p && p.pragma_region_id == r then share m c p (index_of c p) else 0)
    + direct_sum m c r log

-- What it adds to the region's number of counter increments.
pub direct_hits : Counters → ℕ → List Named → ℕ
direct_hits c r [] = 0
direct_hits c r ((name, p) ∷ log) =
    (if is_direct c p && p.pragma_region_id == r then c.counter_array (index_of c p) else 0)
    + direct_hits c r log

count_of-add_to_region :
    (m : Metric) (held : Bool) (name : List ℕ) (p : ProfileData) (q : Named)
    → count_of m (add_to_region held name p q).1 ≡ wadd (count_of m q.1) (count_of m p)
unfolding add_to_region
count_of-add_to_region m held name p (old, sum) =
    count_of-plus m held _ p
    ∙ ap (λ a. wadd a (count_of m p)) (count_of-keys m sum p.group_number p.pragma_region_id)

pub record_list :
    (c : Counters) (name : List ℕ) (p : ProfileData) (s : Report)
    → (read_record c (name, p) s).region_profile_list ≡ (
        if is_direct c p
        then modify p.pragma_region_id
            (add_to_region c.held name (measured c p (index_of c p)))
            s.region_profile_list
        else s.region_profile_list)
unfolding read_record
record_list c name p s = ground arith

record_hits :
    (c : Counters) (name : List ℕ) (p : ProfileData) (s : Report)
    → (read_record c (name, p) s).region_profile_counts ≡ (
        if is_direct c p
        then modify p.pragma_region_id
            (λ n. wadd n (c.counter_array (index_of c p)))
            s.region_profile_counts
        else s.region_profile_counts)
unfolding read_record
record_hits c name p s = ground arith

pub length-record :
    (c : Counters) (name : List ℕ) (p : ProfileData) (s : Report)
    → (length (read_record c (name, p) s).region_profile_list ≡ length s.region_profile_list)
      × (length (read_record c (name, p) s).region_profile_counts ≡ length s.region_profile_counts)
length-record c name p s =
    rw (record_list c name p s, record_hits c name p s)
      (ground (
        arith,
        length-modify p.pragma_region_id (add_to_region c.held name (measured c p (index_of c p)))
            s.region_profile_list,
        length-modify p.pragma_region_id (λ n. wadd n (c.counter_array (index_of c p)))
            s.region_profile_counts,
      ))

record_count :
    (m : Metric) (c : Counters) (name : List ℕ) (p : ProfileData) (s : Report) (r : ℕ)
    → is_scaled m ≡ true
    → r < length s.region_profile_list
    → count_at m r (read_record c (name, p) s).region_profile_list ≡ (
        if is_direct c p && p.pragma_region_id == r
        then wadd (count_at m r s.region_profile_list) (share m c p (index_of c p) % 2 ^ 64)
        else count_at m r s.region_profile_list)
record_count m c name p s r h k =
    let f = add_to_region c.held name (measured c p (index_of c p)) in
    rw (record_list c name p s) (
      ground (
        arith,
        ap (λ (q : Named). count_of m q.1)
            (get_or-modify p.pragma_region_id r f s.region_profile_list blank k),
        count_of-add_to_region m c.held name (measured c p (index_of c p))
            (get_or s.region_profile_list r blank),
        count_of-measured m c p (index_of c p) h,
      ))

pub record_hit :
    (c : Counters) (name : List ℕ) (p : ProfileData) (s : Report) (r : ℕ)
    → r < length s.region_profile_counts
    → get_or (read_record c (name, p) s).region_profile_counts r 0 ≡ (
        if is_direct c p && p.pragma_region_id == r
        then wadd (get_or s.region_profile_counts r 0) (c.counter_array (index_of c p))
        else get_or s.region_profile_counts r 0)
record_hit c name p s r k = rw (record_hits c name p s) (
    ground (
      arith,
      get_or-modify p.pragma_region_id r (λ n. wadd n (c.counter_array (index_of c p)))
          s.region_profile_counts 0 k,
    ))

-- Reading the log adds to each count that counters scale (all of a profile's but SplitCounters) of
-- a region that is in the report, modulo 2 ^ 64, the sum over the region's own records in the
-- reported group of the static count times the counter of the record's set, and of the runtime bytes
-- of that set; and to the region's counter updates the sum of those counters. The count and the
-- updates must be below 2 ^ 64 before.
pub read_pd_sets_sums :
    (m : Metric) (c : Counters) (log : List Named) (s : Report) (r : ℕ)
    → is_scaled m ≡ true
    → r < length s.region_profile_list
    → r < length s.region_profile_counts
    → count_at m r s.region_profile_list < 2 ^ 64
    → get_or s.region_profile_counts r 0 < 2 ^ 64
    → (count_at m r (read_pd_sets c log s).region_profile_list
        ≡ wadd (count_at m r s.region_profile_list) (direct_sum m c r log))
      × (get_or (read_pd_sets c log s).region_profile_counts r 0
          ≡ wadd (get_or s.region_profile_counts r 0) (direct_hits c r log))
unfolding read_pd_sets direct_sum direct_hits
read_pd_sets_sums m c [] s r h k l a b = (omega arith, omega arith)
read_pd_sets_sums m c ((name, p) ∷ log) s r h k l a b =
    let next = read_record c (name, p) s in
    let same = length-record c name p s in
    let here = record_count m c name p s r h k in
    let hit = record_hit c name p s r l in
    let mine = is_direct c p && p.pragma_region_id == r in
    let rest =
      read_pd_sets_sums m c log next r h (omega (arith, same.0)) (omega (arith, same.1))
        (rw here (if_wadd-lt mine _ _ a)) (rw hit (if_wadd-lt mine _ _ b)) in
    (
      rest.0
          ∙ ap (λ t. wadd t (direct_sum m c r log)) here
          ∙ if_wadd_mod mine (count_at m r s.region_profile_list) (share m c p (index_of c p)) _,
      rest.1
          ∙ ap (λ t. wadd t (direct_hits c r log)) hit
          ∙ if_wadd mine (get_or s.region_profile_counts r 0) (c.counter_array (index_of c p)) _,
    )
