-- ===== src/PostProcess/Updates.antt =====
-- The reports of src/post_process.cc and of src/zray_dyn.cc on the same arrays: RegionProfileCounts,
-- which differ in the sets of number 0, and the whole reports.
use zray.Base.{
  length-replicate, subst, sym, ◌∙◌, ℕ, zero, suc, ◌+◌, ◌<◌, ◌≡◌, refl, ap, Bool, List, [], ◌∷◌,
  length, get_or, ◌==◌, if◌then◌else◌, arith,
}
use zray.Base.Word.{wadd}
use zray.Report.{
  Named, Counters, Report, counter_index, read_pd_sets, empty_report, add_indirect, add_indirects,
  indirect_from, apply_indirect_counts, build_report,
}
use zray.PostProcess.{Epoch}
use zray.PostProcess.Finalize.{
  epoch_counters, host_index, read_host_pd_sets, add_host_indirect, add_host_indirects,
  host_indirect_from, empty_host_report, finalize,
}
use zray.Report.Shares.{length-modify, get_or-modify}
use zray.Report.Blank.{get_or-replicate_keep}
use zray.PostProcess.FirstSet.{Ahead, first_set_hits, read_pd_sets-Ahead}
use zray.PostProcess.Alike.{
  Alike, host_index_lem, region_at, round-Alike, read_host_pd_sets-Alike, host_indirect_from-Alike,
}

-- Both add the same counters of cloned functions.
both_added :
    (mine : Bool) (a b d x : ℕ)
    → b ≡ wadd a d
    → (if mine then wadd b x else b) ≡ wadd (if mine then wadd a x else a) d
both_added mine a b d x h = ground (arith, h)

add_indirects-Ahead :
    (c : Counters) (region : ℕ) (ps : List Named) (r d : ℕ) (s t : Report)
    → Ahead r d s t
    → Ahead r d (add_host_indirects c region ps s) (add_indirects c region ps t)
unfolding add_host_indirects add_indirects add_host_indirect add_indirect
add_indirects-Ahead c region [] r d s t h = h
add_indirects-Ahead c region ((name, p) ∷ ps) r d s t h =
    let x = c.counter_array (host_index c p.post_dom_set_id region) in
    let y = c.counter_array (counter_index c p.post_dom_set_id region) in
    let same : x ≡ y = ap c.counter_array (host_index_lem c p.post_dom_set_id region) in
    add_indirects-Ahead c region ps r d _ _ (record {
      inside =
          omega (arith, length-modify region (λ n. wadd n x) s.region_profile_counts, h.inside);
      within =
          omega (arith, length-modify region (λ n. wadd n y) t.region_profile_counts, h.within);
      updates =
          get_or-modify region r (λ n. wadd n y) t.region_profile_counts 0 h.within
          ∙ both_added (region == r) (get_or s.region_profile_counts r 0)
              (get_or t.region_profile_counts r 0) d y h.updates
          ∙ ap
              (λ k.
                wadd
                  (if region == r
                    then wadd (get_or s.region_profile_counts r 0) k
                    else get_or s.region_profile_counts r 0)
                  d)
              (sym same)
          ∙ ap (λ k. wadd k d)
              (sym (get_or-modify region r (λ n. wadd n x) s.region_profile_counts 0 h.inside));
    })

-- A round of apply_indirect_counts on reports that are alike is about the same region and clones.
indirect_from-Ahead :
    (c : Counters) (n i r d : ℕ) (s t : Report)
    → Alike s t
    → Ahead r d s t
    → Ahead r d (host_indirect_from c n i s) (indirect_from c n i t)
unfolding host_indirect_from indirect_from
indirect_from-Ahead c zero i r d s t a h = h
indirect_from-Ahead c (suc n) i r d s t a h =
    let same = λ (l : List Named) (ps : List Named).
      Ahead r d
        (add_host_indirects c (region_at c.held i s.region_profile_list) s.indirect_profiles s)
        (add_indirects c (region_at c.held i l) ps t) in
    indirect_from-Ahead c n (i + 1) r d _ _ (round-Alike c i s t a) (
      subst (λ l. same l t.indirect_profiles) a.profiles
        (subst (same s.region_profile_list) a.clones
          (add_indirects-Ahead c _ s.indirect_profiles r d s t h)))

empty-Alike :
    (c : Counters) (regions : ℕ) → Alike (empty_host_report c.held regions) (empty_report c regions)
unfolding empty_host_report empty_report
empty-Alike c regions = record { profiles = refl; sets = refl; clones = refl }

empty-Ahead :
    (c : Counters) (regions r : ℕ)
    → r < regions
    → Ahead r 0 (empty_host_report c.held regions) (empty_report c regions)
unfolding empty_host_report empty_report
empty-Ahead c regions r k =
    let size = length-replicate {A = ℕ} regions 0 in
    let zero_there = get_or-replicate_keep (λ (n : ℕ). n) 0 0 refl regions r in
    record {
      inside = omega (arith, size, k);
      within = omega (arith, size, k);
      updates = omega (arith, zero_there);
    }

-- zray_finalize of post_process.cc against that of zray_dyn.cc, on the arrays of an epoch and a log of
-- records, when no group is selected in the runtime: each with its own operator+, ApplyCounter,
-- read_pd_sets and apply_indirect_counts, they build the same region profiles, profiles of sets
-- and profiles of cloned functions. For each region the runtime's RegionProfileCounts is larger,
-- modulo 2 ^ 64, by the counters of the region's own records of set 0, which the post-processor
-- leaves out.
pub finalize-build_report :
    (held : Bool) (width regions : ℕ) (log : List Named) (e : Epoch) (r : ℕ)
    → r < regions
    → ((finalize held width regions log e).region_profile_list
        ≡ (build_report (epoch_counters held width e) regions log).region_profile_list)
      × ((finalize held width regions log e).counts
          ≡ (build_report (epoch_counters held width e) regions log).counts)
      × ((finalize held width regions log e).indirect_profiles
          ≡ (build_report (epoch_counters held width e) regions log).indirect_profiles)
      × (get_or (build_report (epoch_counters held width e) regions log).region_profile_counts r 0
          ≡ wadd
              (get_or (finalize held width regions log e).region_profile_counts r 0)
              (first_set_hits (epoch_counters held width e) r log))
unfolding finalize build_report apply_indirect_counts
finalize-build_report held width regions log e r k =
    let c = epoch_counters held width e in
    let s = read_host_pd_sets c log (empty_host_report held regions) in
    let t = read_pd_sets c log (empty_report c regions) in
    let alike =
      read_host_pd_sets-Alike c log (empty_host_report held regions) (empty_report c regions) refl
        (empty-Alike c regions) in
    let ahead =
      read_pd_sets-Ahead c log r 0 (empty_host_report held regions) (empty_report c regions) refl
        (empty-Ahead c regions r k) in
    let n = length s.region_profile_list in
    let same_length = ap length alike.profiles in
    let whole =
      subst (λ n'. Alike (host_indirect_from c n 0 s) (indirect_from c n' 0 t)) same_length
        (host_indirect_from-Alike c n 0 s t alike) in
    let updates =
      subst
        (λ n'.
          Ahead r (0 + first_set_hits c r log) (host_indirect_from c n 0 s)
            (indirect_from c n' 0 t))
        same_length (indirect_from-Ahead c n 0 r (0 + first_set_hits c r log) s t alike ahead) in
    (whole.profiles, whole.sets, whole.clones, omega (arith, updates.updates))
