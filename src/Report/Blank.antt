-- ===== src/Report/Blank.antt =====
-- Regions that no record filled, in apply_indirect_counts of src/zray_dyn.cc.
use zray.Base.{
  ℕ, zero, suc, ◌+◌, ◌*◌, ◌%◌, ◌^◌, ◌<◌, ◌≡◌, refl, sym, Bool, true, false, ◌∙◌, List, [], ◌∷◌,
  arith, length, get_or, ◌==◌, if◌then◌else◌, ap, ap₂, inl, inr, ==-cases, All, replicate,
  length-replicate,
}
use zray.Base.Word.{wadd}
use zray.Profile.{new_profile}
use zray.Profile.Metrics.{Metric, count_of, is_scaled, store_count}
use zray.Report.{Named, Counters, Report, read_record, read_pd_sets, empty_report, build_report}
use zray.Report.Shares.{blank, count_at}
use zray.Report.Direct.{is_direct, record_list}
use zray.Report.Indirect.{indirect_sum, id_at, times, apply_indirect_counts-times}

-- No record is a region's own: all are of cloned functions, or of another group than the one
-- that is reported.
abbrev pub NoDirect : Counters → List Named → Type 0
NoDirect c log = All (λ q. is_direct c q.1 ≡ false) log

NoDirect-list :
    (c : Counters) (log : List Named) (s : Report)
    → NoDirect c log
    → (read_pd_sets c log s).region_profile_list ≡ s.region_profile_list
unfolding read_pd_sets
NoDirect-list c [] s h = refl
NoDirect-list c ((name, p) ∷ log) s h =
    NoDirect-list c log (read_record c (name, p) s) h.1
    ∙ ground (arith, record_list c name p s, h.0)

pub get_or-replicate_keep {ℓ κ} :
    {A : Type ℓ} {B : Type κ} (g : A → B) (a d : A)
    → g d ≡ g a
    → (n j : ℕ) → g (get_or (replicate n a) j d) ≡ g a
get_or-replicate_keep g a d e zero j = e
get_or-replicate_keep g a d e (suc n) zero = refl
get_or-replicate_keep g a d e (suc n) (suc j) = get_or-replicate_keep g a d e n j

count_of-new_zero : (m : Metric) (held : Bool) → count_of m (new_profile held) ≡ 0
count_of-new_zero store_count held = refl
count_of-new_zero _ held = refl

times_zero :
    (ids : ℕ → ℕ) (r i n : ℕ) → ((j : ℕ) → ids j ≡ 0) → times ids r i n ≡ (if r == 0 then n else 0)
unfolding times
times_zero ids r i zero h = ground arith
times_zero ids r i (suc n) h = ground (arith, h i, times_zero ids r (i + 1) n h)

-- The list before any record.
module _ (c : Counters) (n : ℕ) where
  pub empty_count : (m : Metric) (r : ℕ) → count_at m r (empty_report c n).region_profile_list ≡ 0
  unfolding empty_report
  empty_count m r =
      get_or-replicate_keep (λ (q : Named). count_of m q.1) ([], new_profile c.held) blank
        (count_of-new_zero m false ∙ sym (count_of-new_zero m c.held)) n r
      ∙ count_of-new_zero m c.held

  empty_ids : (j : ℕ) → id_at c.held (empty_report c n).region_profile_list j ≡ 0
  unfolding empty_report
  empty_ids j =
      get_or-replicate_keep (λ (q : Named). q.1.pragma_region_id) ([], new_profile c.held)
        ([], new_profile c.held) refl n j

  length-empty : length (empty_report c n).region_profile_list ≡ n
  unfolding empty_report
  length-empty = length-replicate n ([], new_profile c.held)

blank_sum :
    (r n old t : ℕ) (sum : ℕ → ℕ)
    → old ≡ 0
    → t ≡ (if r == 0 then n else 0)
    → wadd old (t * sum r) ≡ (if r == 0 then n * sum 0 % 2 ^ 64 else 0)
blank_sum r n old t sum e f = elim (==-cases r 0) [
  | inl z ↦ ground (arith, e, f, ap sum z, ap₂ (λ x y. x * y) f (ap sum z))
  | inr k ↦ ground (arith, e, f, ap (λ x. x * sum r) f)
]

-- A log with no region's own record: whatever ran, the cloned functions' counts of row 0 are added
-- to region 0 once for every region of the program, and no other region gets any, whatever its own
-- row of counters holds.
pub build_report_blank :
    (m : Metric) (c : Counters) (n : ℕ) (log : List Named) (r : ℕ)
    → is_scaled m ≡ true
    → NoDirect c log
    → r < n
    → count_at m r (build_report c n log).region_profile_list ≡ (
        if r == 0
        then n
          * indirect_sum m c 0 (read_pd_sets c log (empty_report c n)).indirect_profiles
          % 2 ^ 64
        else 0)
unfolding build_report
build_report_blank m c n log r h none k =
    let s = read_pd_sets c log (empty_report c n) in
    let list = NoDirect-list c log (empty_report c n) none in
    let size : length s.region_profile_list ≡ n = ap length list ∙ length-empty c n in
    let zero_count : count_at m r s.region_profile_list ≡ 0 =
      ap (count_at m r) list ∙ empty_count c n m r in
    let ids = λ (j : ℕ). ap (λ l. id_at c.held l j) list ∙ empty_ids c n j in
    apply_indirect_counts-times m c s r h (omega (arith, size)) (omega (arith, zero_count))
    ∙ blank_sum r n _ _ (λ q. indirect_sum m c q s.indirect_profiles) zero_count
        (times_zero _ r 0 (length s.region_profile_list) ids
          ∙ ap (λ x. if r == 0 then x else 0) size)
