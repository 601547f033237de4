-- ===== src/PostProcess/FirstSet.antt =====
-- RegionProfileCounts of the reports of src/post_process.cc and of src/zray_dyn.cc behind read_pd_sets:
-- they differ in the sets of number 0.
use zray.Base.{
  subst, sym, ◌∙◌, ℕ, ◌+◌, ◌<◌, ◌≡◌, ap, Bool, not, ◌&&◌, List, [], ◌∷◌, length, get_or, ◌==◌,
  if◌then◌else◌, arith,
}
use zray.Base.Word.{wadd}
use zray.Profile.{ProfileData}
use zray.Report.{Named, Counters, Report, modify, counter_index, read_record, read_pd_sets}
use zray.PostProcess.Finalize.{host_index, read_host_record, read_host_pd_sets}
use zray.Report.Direct.{is_direct, index_of, length-record, record_hit}
use zray.Report.Shares.{length-modify, get_or-modify}
use zray.PostProcess.Alike.{host_index_lem}

-- What RegionProfileCounts of the runtime has and that of the post-processor does not: the counters
-- of the sets of number 0.
unfoldable pub first_set_hits : Counters → ℕ → List Named → ℕ
first_set_hits c r [] = 0
first_set_hits c r ((name, p) ∷ log) =
    (if not p.is_indirect && p.post_dom_set_id == 0 && p.pragma_region_id == r
      then c.counter_array (counter_index c p.post_dom_set_id p.pragma_region_id)
      else 0)
    + first_set_hits c r log

-- The runtime's number of counter updates of region `r` is larger by `d`.
pub record Ahead (r d : ℕ) (s t : Report) : Type 0 where
  pub inside : r < length s.region_profile_counts
  pub within : r < length t.region_profile_counts
  pub updates : get_or t.region_profile_counts r 0 ≡ wadd (get_or s.region_profile_counts r 0) d

-- A post-processor's record updates the region unless it is that of a cloned function or of set 0.
host_hits :
    (c : Counters) (name : List ℕ) (p : ProfileData) (s : Report)
    → (read_host_record c (name, p) s).region_profile_counts ≡ (
        if not p.is_indirect && not (p.post_dom_set_id == 0)
        then modify p.pragma_region_id
            (λ n. wadd n (c.counter_array (host_index c p.post_dom_set_id p.pragma_region_id)))
            s.region_profile_counts
        else s.region_profile_counts)
unfolding read_host_record
host_hits c name p s = ground arith

length-host_hits :
    (c : Counters) (name : List ℕ) (p : ProfileData) (s : Report)
    → length (read_host_record c (name, p) s).region_profile_counts ≡ length s.region_profile_counts
length-host_hits c name p s = rw (host_hits c name p s) (
    ground (
      arith,
      length-modify p.pragma_region_id
          (λ n. wadd n (c.counter_array (host_index c p.post_dom_set_id p.pragma_region_id)))
          s.region_profile_counts,
    ))

host_hit :
    (c : Counters) (name : List ℕ) (p : ProfileData) (s : Report) (r : ℕ)
    → r < length s.region_profile_counts
    → get_or (read_host_record c (name, p) s).region_profile_counts r 0 ≡ (
        if not p.is_indirect && not (p.post_dom_set_id == 0) && p.pragma_region_id == r
        then wadd (get_or s.region_profile_counts r 0) (c.counter_array (index_of c p))
        else get_or s.region_profile_counts r 0)
host_hit c name p s r k =
    rw (host_hits c name p s, host_index_lem c p.post_dom_set_id p.pragma_region_id)
      (ground (
        arith,
        get_or-modify p.pragma_region_id r (λ n. wadd n (c.counter_array (index_of c p)))
            s.region_profile_counts 0 k,
      ))

-- One record, by its tests: it is direct, it is of set 0, it is the region's.
one_update :
    (direct first mine : Bool) (a b d x : ℕ)
    → b ≡ wadd a d
    → (if direct && mine then wadd b x else b)
      ≡ wadd
          (if direct && not first && mine then wadd a x else a)
          (d + (if direct && first && mine then x else 0))
one_update direct first mine a b d x h = ground (arith, h)

read_record-Ahead :
    (c : Counters) (name : List ℕ) (p : ProfileData) (r d : ℕ) (s t : Report)
    → c.active_group_number ≡ 0
    → Ahead r d s t
    → Ahead r
        (d
          + (if not p.is_indirect && p.post_dom_set_id == 0 && p.pragma_region_id == r
              then c.counter_array (index_of c p)
              else 0))
        (read_host_record c (name, p) s)
        (read_record c (name, p) t)
read_record-Ahead c name p r d s t z h =
    let direct : is_direct c p ≡ not p.is_indirect = ground (arith, z) in
    let old = get_or t.region_profile_counts r 0 in
    let x = c.counter_array (index_of c p) in
    let first =
      if not p.is_indirect && p.post_dom_set_id == 0 && p.pragma_region_id == r then x else 0 in
    let tested : (if is_direct c p && p.pragma_region_id == r then wadd old x else old)
        ≡ wadd (get_or (read_host_record c (name, p) s).region_profile_counts r 0) (d + first) =
      ap (λ b. if b && p.pragma_region_id == r then wadd old x else old) direct
      ∙ one_update (not p.is_indirect) (p.post_dom_set_id == 0) (p.pragma_region_id == r)
          (get_or s.region_profile_counts r 0) old d x h.updates
      ∙ ap (λ n. wadd n (d + first)) (sym (host_hit c name p s r h.inside)) in
    record {
      inside = omega (arith, length-host_hits c name p s, h.inside);
      within = omega (arith, (length-record c name p t).1, h.within);
      updates = record_hit c name p t r h.within ∙ tested;
    }

pub read_pd_sets-Ahead :
    (c : Counters) (log : List Named) (r d : ℕ) (s t : Report)
    → c.active_group_number ≡ 0
    → Ahead r d s t
    → Ahead r (d + first_set_hits c r log) (read_host_pd_sets c log s) (read_pd_sets c log t)
unfolding read_host_pd_sets read_pd_sets first_set_hits
read_pd_sets-Ahead c [] r d s t z h =
    let same : d ≡ d + 0 = omega arith in subst (λ n. Ahead r n s t) same h
read_pd_sets-Ahead c ((name, p) ∷ log) r d s t z h =
    let x =
      if not p.is_indirect && p.post_dom_set_id == 0 && p.pragma_region_id == r
      then c.counter_array (index_of c p)
      else 0 in
    let sum : d + x + first_set_hits c r log ≡ d + (x + first_set_hits c r log) = omega arith in
    subst
      (λ n.
        Ahead r n (read_host_pd_sets c log (read_host_record c (name, p) s))
          (read_pd_sets c log (read_record c (name, p) t)))
      sum (read_pd_sets-Ahead c log r (d + x) _ _ z (read_record-Ahead c name p r d s t z h))
