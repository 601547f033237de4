-- ===== src/Report/Indirect.antt =====
-- apply_indirect_counts of src/zray_dyn.cc: which region takes the counts of cloned functions.
use zray.Base.{
  ℕ, zero, suc, ◌+◌, ◌*◌, ◌%◌, ◌^◌, ◌≤◌, ◌<◌, ◌≡◌, ◌≢◌, refl, Bool, true, ◌∙◌, List, [], ◌∷◌, arith,
  length, get_or, ◌==◌, if◌then◌else◌, ap, inl, inr, ==-cases,
}
use zray.Base.Word.{wadd, if_wadd-lt}
use zray.Profile.{ProfileData, new_profile, plus}
use zray.Profile.Metrics.{Metric, count_of, is_scaled, count_of-plus}
use zray.Report.{
  Named, Counters, Report, measured, counter_index, add_indirect, add_indirects, indirect_from,
  apply_indirect_counts,
}
use zray.Report.Shares.{
  blank, count_at, share, count_of-measured, length-modify, get_or-modify, modify_keeps,
}

-- What the cloned functions' records add to a count of region `r`, with no bound.
unfoldable pub indirect_sum : Metric → Counters → ℕ → List Named → ℕ
indirect_sum m c r [] = 0
indirect_sum m c r ((name, p) ∷ ps) =
    share m c p (counter_index c p.post_dom_set_id r) + indirect_sum m c r ps

-- The PragmaRegionID that element `j` of the list holds.
abbrev pub id_at : Bool → List Named → ℕ → ℕ
id_at held l j = (get_or l j ([], new_profile held)).1.pragma_region_id

abbrev sum_in : Counters → ProfileData → ℕ → Named → Named
sum_in c p index (old, sum) = (old, plus c.held sum (measured c p index))

-- What the loops leave alone: the number of regions, their ids, and the records to add.
record Keeps (held : Bool) (s t : Report) : Type 0 where
  size : length t.region_profile_list ≡ length s.region_profile_list
  ids : (j : ℕ) → id_at held t.region_profile_list j ≡ id_at held s.region_profile_list j
  todo : t.indirect_profiles ≡ s.indirect_profiles

Keeps-trans : {held : Bool} {s t u : Report} → Keeps held s t → Keeps held t u → Keeps held s u
Keeps-trans a b = record {
  size = b.size ∙ a.size;
  ids = λ j. b.ids j ∙ a.ids j;
  todo = b.todo ∙ a.todo;
}

add_indirect-Keeps :
    (c : Counters) (region : ℕ) (name : List ℕ) (p : ProfileData) (s : Report)
    → Keeps c.held s (add_indirect c region (name, p) s)
unfolding add_indirect plus
add_indirect-Keeps c region name p s = record {
  size = length-modify region _ s.region_profile_list;
  ids = λ j.
      modify_keeps (λ (q : Named). q.1.pragma_region_id)
        (sum_in c p (counter_index c p.post_dom_set_id region)) (λ q. refl) region j
        s.region_profile_list ([], new_profile c.held);
  todo = refl;
}

add_indirect_count :
    (m : Metric) (c : Counters) (region : ℕ) (name : List ℕ) (p : ProfileData) (s : Report) (r : ℕ)
    → is_scaled m ≡ true
    → r < length s.region_profile_list
    → count_at m r (add_indirect c region (name, p) s).region_profile_list ≡ (
        if region == r
        then wadd
            (count_at m r s.region_profile_list)
            (share m c p (counter_index c p.post_dom_set_id region) % 2 ^ 64)
        else count_at m r s.region_profile_list)
unfolding add_indirect
add_indirect_count m c region name p s r h k =
    let index = counter_index c p.post_dom_set_id region in
    ground (
      arith,
      ap (λ (q : Named). count_of m q.1)
          (get_or-modify region r (sum_in c p index) s.region_profile_list blank k),
      count_of-plus m c.held (get_or s.region_profile_list r blank).1 (measured c p index),
      count_of-measured m c p index h,
    )

add_indirects_count :
    (m : Metric) (c : Counters) (region : ℕ) (ps : List Named) (s : Report) (r : ℕ)
    → is_scaled m ≡ true
    → r < length s.region_profile_list
    → count_at m r s.region_profile_list < 2 ^ 64
    → Keeps c.held s (add_indirects c region ps s)
      × (count_at m r (add_indirects c region ps s).region_profile_list
          ≡ wadd
              (count_at m r s.region_profile_list)
              (if region == r then indirect_sum m c region ps else 0))
unfolding add_indirects indirect_sum
add_indirects_count m c region [] s r h k a =
    (record { size = refl; ids = λ j. refl; todo = refl }, ground arith)
add_indirects_count m c region ((name, p) ∷ ps) s r h k a =
    let next = add_indirect c region (name, p) s in
    let kept = add_indirect-Keeps c region name p s in
    let here = add_indirect_count m c region name p s r h k in
    let (kept', rest) =
      add_indirects_count m c region ps next r h (omega (arith, kept.size))
        (rw here (if_wadd-lt (region == r) _ _ a)) in
    (Keeps-trans kept kept', ground (arith, rest, here))

-- How many of `n` elements from number `i` on hold the id `r`.
unfoldable pub times : (ℕ → ℕ) → ℕ → ℕ → ℕ → ℕ
times ids r i zero = 0
times ids r i (suc n) = (if ids i == r then 1 else 0) + times ids r (i + 1) n

times_step :
    (b : Bool) (old one rest : ℕ)
    → wadd (wadd old (if b then one else 0)) (rest * one)
      ≡ wadd old (((if b then 1 else 0) + rest) * one)
times_step b old one rest = ground arith

own_row :
    (m : Metric) (c : Counters) (a r : ℕ) (ps : List Named)
    → (if a == r then indirect_sum m c a ps else 0) ≡ (if a == r then indirect_sum m c r ps else 0)
own_row m c a r ps = elim (==-cases a r) [ inl e ↦ rw e | inr k ↦ ground arith ]

indirect_from_count :
    (m : Metric) (c : Counters) (ids : ℕ → ℕ) (ps : List Named) (n i : ℕ) (s : Report) (r : ℕ)
    → is_scaled m ≡ true
    → r < length s.region_profile_list
    → count_at m r s.region_profile_list < 2 ^ 64
    → ((j : ℕ) → id_at c.held s.region_profile_list j ≡ ids j)
    → s.indirect_profiles ≡ ps
    → count_at m r (indirect_from c n i s).region_profile_list
      ≡ wadd (count_at m r s.region_profile_list) (times ids r i n * indirect_sum m c r ps)
unfolding indirect_from times
indirect_from_count m c ids ps zero i s r h k a e f = omega arith
indirect_from_count m c ids ps (suc n) i s r h k a e f =
    let region = id_at c.held s.region_profile_list i in
    let next = add_indirects c region s.indirect_profiles s in
    let (kept, here) = add_indirects_count m c region s.indirect_profiles s r h k a in
    let rest =
      indirect_from_count m c ids ps n (i + 1) next r h (omega (arith, kept.size))
        (rw here (omega arith)) (λ j. kept.ids j ∙ e j) (kept.todo ∙ f) in
    let mine : (if region == r then indirect_sum m c region s.indirect_profiles else 0)
        ≡ (if ids i == r then indirect_sum m c r ps else 0) =
      own_row m c region r s.indirect_profiles ∙ cc (e i, f) in
    rest
    ∙ ap (λ t. wadd t (times ids r (i + 1) n * indirect_sum m c r ps))
        (here ∙ ap (wadd (count_at m r s.region_profile_list)) mine)
    ∙ times_step (ids i == r) (count_at m r s.region_profile_list) (indirect_sum m c r ps) _

-- apply_indirect_counts adds the records of cloned functions to region `r`, at the region's row of
-- counters, once for each element of the list whose PragmaRegionID is `r`, modulo 2 ^ 64.
pub apply_indirect_counts-times :
    (m : Metric) (c : Counters) (s : Report) (r : ℕ)
    → is_scaled m ≡ true
    → r < length s.region_profile_list
    → count_at m r s.region_profile_list < 2 ^ 64
    → count_at m r (apply_indirect_counts c s).region_profile_list
      ≡ wadd (count_at m r s.region_profile_list) (
          times (id_at c.held s.region_profile_list) r 0 (length s.region_profile_list)
          * indirect_sum m c r s.indirect_profiles)
unfolding apply_indirect_counts
apply_indirect_counts-times m c s r h k a =
    indirect_from_count m c (id_at c.held s.region_profile_list) s.indirect_profiles
      (length s.region_profile_list) 0 s r h k a (λ j. refl) refl

times_none :
    (ids : ℕ → ℕ) (r i n : ℕ) → ((j : ℕ) → i ≤ j → j < i + n → ids j ≢ r) → times ids r i n ≡ 0
unfolding times
times_none ids r i zero h = refl
times_none ids r i (suc n) h =
    ground (arith, h i, times_none ids r (i + 1) n (λ j a b. h j (omega arith) (omega arith)))

times_own :
    (ids : ℕ → ℕ) (r i n : ℕ)
    → ((j : ℕ) → i ≤ j → j < i + n → ids j ≡ j)
    → i ≤ r
    → r < i + n
    → times ids r i n ≡ 1
unfolding times
times_own ids r i zero h a b = absurd (omega arith)
times_own ids r i (suc n) h a b = elim (==-cases i r) [
  | inl e ↦ ground (
    arith,
    h i,
    times_none ids r (i + 1) n (λ j p q k. absurd (omega (arith, h j (omega arith) (omega arith)))),
  )
  | inr k ↦
      ground (arith, h i, times_own ids r (i + 1) n (λ j p q. h j (omega arith) (omega arith)))
]

-- So if each element holds its own number, each region gets its share exactly once.
pub apply_indirect_counts_once :
    (m : Metric) (c : Counters) (s : Report) (r : ℕ)
    → is_scaled m ≡ true
    → r < length s.region_profile_list
    → count_at m r s.region_profile_list < 2 ^ 64
    → ((j : ℕ) → j < length s.region_profile_list → id_at c.held s.region_profile_list j ≡ j)
    → count_at m r (apply_indirect_counts c s).region_profile_list
      ≡ wadd (count_at m r s.region_profile_list) (indirect_sum m c r s.indirect_profiles)
apply_indirect_counts_once m c s r h k a own =
    apply_indirect_counts-times m c s r h k a
    ∙ omega (
      arith,
      ap (λ t. t * indirect_sum m c r s.indirect_profiles)
          (times_own (id_at c.held s.region_profile_list) r 0 (length s.region_profile_list)
            (λ j p q. own j (omega arith)) (omega arith) (omega arith)),
    )
