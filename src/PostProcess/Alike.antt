-- ===== src/PostProcess/Alike.antt =====
-- The reports of src/post_process.cc and of src/zray_dyn.cc on the same arrays: the two copies of
-- the code, function by function.
use zray.Base.{
  subst, ap₂, ◌++◌, sym, ◌∙◌, ℕ, zero, suc, ◌+◌, ◌≡◌, refl, ap, fun_ext, Bool, true, false, not,
  ◌&&◌, List, [], ◌∷◌, get_or, ◌==◌, if◌then◌else◌,
}
use zray.Base.Word.{wadd}
use zray.Profile.{ProfileData, new_profile, plus, apply_counter}
use zray.Report.{
  Named, Counters, Report, modify, counter_index, measured, add_to_region, read_record,
  read_pd_sets, add_indirect, add_indirects, indirect_from,
}
use zray.PostProcess.Finalize.{
  plus_offline, apply_offline_counter, host_index, measured_offline, add_to_offline_region,
  read_host_record, read_host_pd_sets, add_host_indirect, add_host_indirects, host_indirect_from,
}

plus_offline_lem : (held : Bool) (x y : ProfileData) → plus_offline held x y ≡ plus held x y
unfolding plus_offline plus
plus_offline_lem held x y = refl

apply_offline_counter_lem :
    (p : ProfileData) (n : ℕ) → apply_offline_counter p n ≡ apply_counter p n
unfolding apply_offline_counter apply_counter
apply_offline_counter_lem p n = refl

pub host_index_lem :
    (c : Counters) (set region : ℕ) → host_index c set region ≡ counter_index c set region
unfolding host_index counter_index
host_index_lem c set region = refl

measured_offline_lem :
    (c : Counters) (p : ProfileData) (i : ℕ) → measured_offline c p i ≡ measured c p i
unfolding measured_offline measured
measured_offline_lem c p i =
    ap
      (λ (q : ProfileData). record q {
        intrinsic_load = wadd q.intrinsic_load (c.load_runtime_array i);
        intrinsic_store = wadd q.intrinsic_store (c.store_runtime_array i);
      })
      (apply_offline_counter_lem p (c.counter_array i))

add_to_offline_region_lem :
    (held : Bool) (name : List ℕ) (p : ProfileData)
    → add_to_offline_region held name p ≡ add_to_region held name p
unfolding add_to_offline_region add_to_region
add_to_offline_region_lem held name p = fun_ext (λ (q : Named).
    let (old, sum) = q in ap (λ (s : ProfileData). (name, s)) (plus_offline_lem held _ p))

-- Reports with the same profiles
pub record Alike (s t : Report) : Type 0 where
  pub profiles : s.region_profile_list ≡ t.region_profile_list
  pub sets : s.counts ≡ t.counts
  pub clones : s.indirect_profiles ≡ t.indirect_profiles

pub same_report : (s : Report) → Alike s s
same_report s = record { profiles = refl; sets = refl; clones = refl }

-- A relation of two reports through their tests.
pub both_branches :
    (R : Report → Report → Type 0) (b : Bool) (x x' y y' : Report)
    → (b ≡ true → R x y)
    → (b ≡ false → R x' y')
    → R (if b then x else x') (if b then y else y')
both_branches R true x x' y y' h k = h refl
both_branches R false x x' y y' h k = k refl

pub no_group :
    (R : Report → Report → Type 0) (active group : ℕ) (x y y' : Report)
    → active ≡ 0
    → R x y'
    → R x (if not (active == 0) && not (group == active) then y else y')
no_group R active group x y y' z h =
    subst (λ a. R x (if not (a == 0) && not (group == a) then y else y')) (sym z) h

read_host_record-Alike :
    (c : Counters) (q : Named) (s t : Report)
    → c.active_group_number ≡ 0
    → Alike s t
    → Alike (read_host_record c q s) (read_record c q t)
unfolding read_record read_host_record
read_host_record-Alike c (name, p) s t z h =
    let index = counter_index c p.post_dom_set_id p.pragma_region_id in
    let same_index = host_index_lem c p.post_dom_set_id p.pragma_region_id in
    let same_profile : measured_offline c p (host_index c p.post_dom_set_id p.pragma_region_id)
        ≡ measured c p index =
      ap (measured_offline c p) same_index ∙ measured_offline_lem c p index in
    both_branches Alike p.is_indirect _ _ _ _
      (λ _. record {
        profiles = h.profiles;
        sets = h.sets;
        clones = ap (λ ps. ps ++ (name, p) ∷ []) h.clones;
      })
      (λ _. no_group Alike c.active_group_number p.group_number _ _ _ z (record {
        profiles =
            ap₂ (λ f ps. modify p.pragma_region_id f ps)
              (ap (add_to_offline_region c.held name) same_profile
                ∙ add_to_offline_region_lem c.held name (measured c p index))
              h.profiles;
        sets = ap₂ (λ ps (q : ProfileData). ps ++ (name, q) ∷ []) h.sets same_profile;
        clones = h.clones;
      }))

pub read_host_pd_sets-Alike :
    (c : Counters) (log : List Named) (s t : Report)
    → c.active_group_number ≡ 0
    → Alike s t
    → Alike (read_host_pd_sets c log s) (read_pd_sets c log t)
unfolding read_host_pd_sets read_pd_sets
read_host_pd_sets-Alike c [] s t z h = h
read_host_pd_sets-Alike c (q ∷ log) s t z h =
    read_host_pd_sets-Alike c log _ _ z (read_host_record-Alike c q s t z h)

add_host_indirects-Alike :
    (c : Counters) (region : ℕ) (ps : List Named) (s t : Report)
    → Alike s t
    → Alike (add_host_indirects c region ps s) (add_indirects c region ps t)
unfolding add_host_indirects add_indirects add_host_indirect add_indirect
add_host_indirects-Alike c region [] s t h = h
add_host_indirects-Alike c region ((name, p) ∷ ps) s t h =
    let index = counter_index c p.post_dom_set_id region in
    let same_profile : measured_offline c p (host_index c p.post_dom_set_id region)
        ≡ measured c p index =
      ap (measured_offline c p) (host_index_lem c p.post_dom_set_id region)
      ∙ measured_offline_lem c p index in
    let same_sum : (sum : ProfileData)
        → plus_offline c.held sum (measured_offline c p (host_index c p.post_dom_set_id region))
          ≡ plus c.held sum (measured c p index) =
      λ sum.
        ap (plus_offline c.held sum) same_profile
        ∙ plus_offline_lem c.held sum (measured c p index) in
    add_host_indirects-Alike c region ps _ _ (record {
      profiles =
          ap₂ (λ f qs. modify region f qs)
            (fun_ext (λ (q : Named).
              let (old, sum) = q in ap (λ (r : ProfileData). (old, r)) (same_sum sum)))
            h.profiles;
      sets = h.sets;
      clones = h.clones;
    })

-- The region whose turn comes
abbrev pub region_at : Bool → ℕ → List Named → ℕ
region_at held i l = (get_or l i ([], new_profile held)).1.pragma_region_id

-- A round of the outer loop
pub round-Alike :
    (c : Counters) (i : ℕ) (s t : Report)
    → Alike s t
    → Alike
        (add_host_indirects c (region_at c.held i s.region_profile_list) s.indirect_profiles s)
        (add_indirects c (region_at c.held i t.region_profile_list) t.indirect_profiles t)
round-Alike c i s t h =
    let same = λ (l : List Named) (ps : List Named).
      Alike (add_host_indirects c (region_at c.held i s.region_profile_list) s.indirect_profiles s)
        (add_indirects c (region_at c.held i l) ps t) in
    subst (λ l. same l t.indirect_profiles) h.profiles
      (subst (same s.region_profile_list) h.clones
        (add_host_indirects-Alike c _ s.indirect_profiles s t h))

pub host_indirect_from-Alike :
    (c : Counters) (n i : ℕ) (s t : Report)
    → Alike s t
    → Alike (host_indirect_from c n i s) (indirect_from c n i t)
unfolding host_indirect_from indirect_from
host_indirect_from-Alike c zero i s t h = h
host_indirect_from-Alike c (suc n) i s t h =
    host_indirect_from-Alike c n (i + 1) _ _ (round-Alike c i s t h)
