-- ===== src/Report.antt =====
-- The report of src/zray_dyn.cc: the records of the log are scaled by a thread's counters and
-- added up by region. File access and the text of the rows are not modelled.
pub mod Shares
pub mod Direct
pub mod Indirect
pub mod Blank
pub mod Totals
mod Tests
use zray.Base.{
  ℕ, zero, suc, ◌+◌, ◌-◌, ◌%◌, ◌^◌, Bool, not, ◌&&◌, List, [], ◌∷◌, ◌++◌, ltb, ◌==◌, if◌then◌else◌,
  replicate, length, get_or,
}
use zray.Base.Word.{wadd, wmul}
use zray.Profile.{ProfileData, new_profile, plus, apply_counter}

-- A function's name, as bytes, with a profile: the pairs of the source's vectors.
abbrev pub Named : Type 0
Named = List ℕ × ProfileData

-- What the report reads: the thread's arrays, ZRAY_CounterDimension, ActiveGroupNumber, and the
-- byte that an uninitialised EnableMIRPass holds.
pub record Counters : Type 0 where
  pub counter_array : ℕ → ℕ
  pub load_runtime_array : ℕ → ℕ
  pub store_runtime_array : ℕ → ℕ
  pub counter_dimension : ℕ
  pub active_group_number : ℕ
  pub held : Bool

-- What the report builds.
pub record Report : Type 0 where
  pub region_profile_list : List Named
  pub region_profile_counts : List ℕ
  pub counts : List Named
  pub indirect_profiles : List Named

-- list[i] = f(list[i]); an index past the end, which the source does not check, changes nothing.
abbrev pub modify {ℓ} : {A : Type ℓ} → ℕ → (A → A) → List A → List A
modify i f [] = []
modify zero f (x ∷ xs) = f x ∷ xs
modify (suc i) f (x ∷ xs) = x ∷ modify i f xs

-- A size_t that is stored in an int and then used as an index.
unfoldable pub as_index : ℕ → ℕ
as_index x = if ltb (x % 2 ^ 32) (2 ^ 31) then x % 2 ^ 32 else x % 2 ^ 32 + (2 ^ 64 - 2 ^ 32)

-- int index = PostDomSetID + ZRAY_CounterDimension*PragmaRegionID
unfoldable pub counter_index : Counters → ℕ → ℕ → ℕ
unfolding as_index
counter_index c set region = as_index (wadd set (wmul c.counter_dimension region))

-- ApplyCounter at an index, and the runtime data of the index on top.
unfoldable pub measured : Counters → ProfileData → ℕ → ProfileData
measured c p index =
    let scaled = apply_counter p (c.counter_array index) in
    record scaled {
      intrinsic_load = wadd scaled.intrinsic_load (c.load_runtime_array index);
      intrinsic_store = wadd scaled.intrinsic_store (c.store_runtime_array index);
    }

-- RegionProfileList[PragmaRegionID] takes the name and the keys, and adds the profile.
unfoldable pub add_to_region : Bool → List ℕ → ProfileData → Named → Named
add_to_region held name p (old, sum) = (
  name,
  plus held (record sum { group_number = p.group_number; pragma_region_id = p.pragma_region_id }) p,
)

-- The loop body of read_pd_sets, for a record that has been read.
unfoldable pub read_record : Counters → Named → Report → Report
read_record c (name, p) s =
    let measured_here = measured c p (counter_index c p.post_dom_set_id p.pragma_region_id) in
    let hits = c.counter_array (counter_index c p.post_dom_set_id p.pragma_region_id) in
    if p.is_indirect
    then record s { indirect_profiles = s.indirect_profiles ++ (name, p) ∷ [] }
    else if not (c.active_group_number == 0) && not (p.group_number == c.active_group_number)
    then s
    else record s {
      region_profile_list =
          modify p.pragma_region_id (add_to_region c.held name measured_here) s.region_profile_list;
      region_profile_counts = modify p.pragma_region_id (λ n. wadd n hits) s.region_profile_counts;
      counts = s.counts ++ (name, measured_here) ∷ [];
    }

-- read_pd_sets
unfoldable pub read_pd_sets : Counters → List Named → Report → Report
read_pd_sets c [] s = s
read_pd_sets c (r ∷ rs) s = read_pd_sets c rs (read_record c r s)

-- zray_finalize, first loop: an empty profile for each region.
unfoldable pub empty_report : Counters → ℕ → Report
empty_report c regions = record {
  region_profile_list = replicate regions ([], new_profile c.held);
  region_profile_counts = replicate regions 0;
  counts = [];
  indirect_profiles = [];
}

-- The inner loop's body of apply_indirect_counts, for a region profile whose PragmaRegionID is
-- `region`.
unfoldable pub add_indirect : Counters → ℕ → Named → Report → Report
add_indirect c region (name, p) s =
    let index = counter_index c p.post_dom_set_id region in
    record s {
      region_profile_list =
          modify region (λ (old, sum). (old, plus c.held sum (measured c p index)))
            s.region_profile_list;
      region_profile_counts =
          modify region (λ n. wadd n (c.counter_array index)) s.region_profile_counts;
    }

unfoldable pub add_indirects : Counters → ℕ → List Named → Report → Report
add_indirects c region [] s = s
add_indirects c region (p ∷ ps) s = add_indirects c region ps (add_indirect c region p s)

-- The outer loop, over `n` regions from number `i` on. Each region's profile is copied when its
-- turn comes, and only its PragmaRegionID is used.
unfoldable pub indirect_from : Counters → ℕ → ℕ → Report → Report
indirect_from c zero i s = s
indirect_from c (suc n) i s =
    let region = (get_or s.region_profile_list i ([], new_profile c.held)).1.pragma_region_id in
    indirect_from c n (i + 1) (add_indirects c region s.indirect_profiles s)

-- apply_indirect_counts
unfoldable pub apply_indirect_counts : Counters → Report → Report
unfolding indirect_from
apply_indirect_counts c s = indirect_from c (length s.region_profile_list) 0 s

-- zray_finalize, as far as the region profiles go.
unfoldable pub build_report : Counters → ℕ → List Named → Report
build_report c regions log = apply_indirect_counts c (read_pd_sets c log (empty_report c regions))
