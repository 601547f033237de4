-- ===== src/Report/Totals.antt =====
-- The totals over all regions that zray_finalize of src/zray_dyn.cc writes below the regions' rows.
use zray.Base.{
  ℕ, ◌+◌, ◌/◌, ◌^◌, ◌<◌, ◌≡◌, refl, List, [], ◌∷◌, arith, ◌==◌, if◌then◌else◌, ap, ◌∙◌, inl, inr,
  ==-cases, length,
}
use zray.Base.Word.{wadd, wsub}
use zray.Profile.{ProfileData}
use zray.Report.{Named}

pub record Totals : Type 0 where
  pub total_loads : ℕ
  pub total_stores : ℕ
  pub total_heap_loads : ℕ
  pub total_heap_stores : ℕ
  pub split_count_total : ℕ

-- total += value + (intrinsic/8 + 1); if (total == 1) total = 0;
unfoldable pub add_total : ℕ → ℕ → ℕ → ℕ
add_total total value intrinsic =
    let sum = wadd total (wadd value (intrinsic / 8 + 1)) in if sum == 1 then 0 else sum

unfoldable pub add_region : ProfileData → Totals → Totals
unfolding add_total
add_region p t = record {
  total_loads = add_total t.total_loads p.load_count p.intrinsic_load;
  total_stores = add_total t.total_stores p.store_count p.intrinsic_store;
  total_heap_loads =
      add_total t.total_heap_loads (wsub p.load_count p.stack_read_count) p.intrinsic_load;
  total_heap_stores =
      add_total t.total_heap_stores (wsub p.store_count p.stack_write_count) p.intrinsic_store;
  split_count_total = wadd t.split_count_total p.split_counters;
}

unfoldable pub add_regions : List Named → Totals → Totals
unfolding add_region
add_regions [] t = t
add_regions ((name, p) ∷ list) t = add_regions list (add_region p t)

abbrev pub no_totals : Totals
no_totals = record {
  total_loads = 0;
  total_stores = 0;
  total_heap_loads = 0;
  total_heap_stores = 0;
  split_count_total = 0;
}

-- The four totals of accesses, and what a region has of each: loads or stores, and the bytes of
-- intrinsics, of which eight stand for one.
pub data Column : Type 0 where
  loads stores heap_loads heap_stores : Column

abbrev pub column : Column → Totals → ℕ
column loads t = t.total_loads
column stores t = t.total_stores
column heap_loads t = t.total_heap_loads
column heap_stores t = t.total_heap_stores

abbrev pub value_in : Column → ProfileData → ℕ
value_in loads p = p.load_count
value_in stores p = p.store_count
value_in heap_loads p = wsub p.load_count p.stack_read_count
value_in heap_stores p = wsub p.store_count p.stack_write_count

abbrev pub bytes_in : Column → ProfileData → ℕ
bytes_in loads p = p.intrinsic_load
bytes_in stores p = p.intrinsic_store
bytes_in heap_loads p = p.intrinsic_load
bytes_in heap_stores p = p.intrinsic_store

abbrev pub accesses : Column → ProfileData → ℕ
accesses c p = value_in c p + bytes_in c p / 8

unfoldable pub sum_over : Column → List Named → ℕ
sum_over c [] = 0
sum_over c ((name, p) ∷ list) = accesses c p + sum_over c list

-- How many regions there are from the first on that has any.
pub regions_from_first : Column → List Named → ℕ
regions_from_first c [] = 0
regions_from_first c ((name, p) ∷ list) =
    if accesses c p == 0 then regions_from_first c list else 1 + length list

column-add_region :
    (c : Column) (p : ProfileData) (t : Totals)
    → column c (add_region p t) ≡ add_total (column c t) (value_in c p) (bytes_in c p)
unfolding add_region
column-add_region loads p t = refl
column-add_region stores p t = refl
column-add_region heap_loads p t = refl
column-add_region heap_stores p t = refl

above_zero :
    (total value bytes : ℕ)
    → 0 < total
    → total + (value + bytes / 8) + 1 < 2 ^ 64
    → add_total total value bytes ≡ total + (value + bytes / 8) + 1
unfolding add_total
above_zero total value bytes h k = ground (arith, h, k)

at_zero :
    (value bytes : ℕ)
    → value + bytes / 8 + 1 < 2 ^ 64
    → add_total 0 value bytes ≡ (if value + bytes / 8 == 0 then 0 else value + bytes / 8 + 1)
unfolding add_total
at_zero value bytes h = ground (arith, h)

-- Once a total is above 0, each region adds one too many.
add_regions-above_zero :
    (c : Column) (list : List Named) (t : Totals)
    → 0 < column c t
    → column c t + sum_over c list + length list < 2 ^ 64
    → column c (add_regions list t) ≡ column c t + sum_over c list + length list
unfolding add_regions sum_over
add_regions-above_zero c [] t h k = omega arith
add_regions-above_zero c ((name, p) ∷ list) t h k =
    let here =
      column-add_region c p t
      ∙ above_zero (column c t) (value_in c p) (bytes_in c p) h (omega (arith, k)) in
    add_regions-above_zero c list (add_region p t) (omega (arith, here)) (omega (arith, here, k))
    ∙ omega (arith, here)

add_regions-at_zero :
    (c : Column) (list : List Named) (t : Totals)
    → column c t ≡ 0
    → sum_over c list + length list < 2 ^ 64
    → column c (add_regions list t) ≡ sum_over c list + regions_from_first c list
unfolding add_regions sum_over regions_from_first
add_regions-at_zero c [] t h k = omega (arith, h)
add_regions-at_zero c ((name, p) ∷ list) t h k =
    let here =
      column-add_region c p t
      ∙ ap (λ n. add_total n (value_in c p) (bytes_in c p)) h
      ∙ at_zero (value_in c p) (bytes_in c p) (omega (arith, k)) in
    elim (==-cases (accesses c p) 0) [
      | inl e ↦ ground (arith, here, e, k, add_regions-at_zero c list (add_region p t))
      | inr e ↦ ground (arith, here, e, k, add_regions-above_zero c list (add_region p t))
    ]

at_start : (c : Column) → column c no_totals ≡ 0
at_start loads = refl
at_start stores = refl
at_start heap_loads = refl
at_start heap_stores = refl

-- Each of the four totals of accesses, if it stays below 2 ^ 64, is the sum over all regions, and
-- one more for each region from the first on that has any accesses of the kind.
pub add_regions_lem :
    (c : Column) (list : List Named)
    → sum_over c list + length list < 2 ^ 64
    → column c (add_regions list no_totals) ≡ sum_over c list + regions_from_first c list
add_regions_lem c list h = add_regions-at_zero c list no_totals (at_start c) h
