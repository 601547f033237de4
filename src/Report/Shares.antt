-- ===== src/Report/Shares.antt =====
-- What one record of the log adds to a count, and reading a list that was modified at an index.
use zray.Base.{
  ℕ, zero, suc, ◌+◌, ◌*◌, ◌%◌, ◌^◌, ◌<◌, ◌≡◌, refl, true, false, List, [], ◌∷◌, arith, length,
  get_or, ap, ◌==◌, if◌then◌else◌,
}
use zray.Profile.{ProfileData, new_profile, apply_counter}
use zray.Profile.Metrics
use zray.Profile.Metrics.{Metric, count_of, is_scaled, count_of-apply_counter}
use zray.Report.{Named, Counters, modify, measured}

abbrev pub blank : Named
blank = ([], new_profile false)

-- A count of region `r`; 0 past the end of the list.
abbrev pub count_at : Metric → ℕ → List Named → ℕ
count_at m r l = count_of m (get_or l r blank).1

-- The bytes that intrinsics of unknown size moved, which the runtime arrays hold.
abbrev pub runtime_share : Metric → Counters → ℕ → ℕ
runtime_share Metrics.intrinsic_load c index = c.load_runtime_array index
runtime_share Metrics.intrinsic_store c index = c.store_runtime_array index
runtime_share m c index = 0

-- A static count times the number of executions, and the runtime bytes.
abbrev pub share : Metric → Counters → ProfileData → ℕ → ℕ
share m c p index = count_of m p * c.counter_array index + runtime_share m c index

pub count_of-measured :
    (m : Metric) (c : Counters) (p : ProfileData) (index : ℕ)
    → is_scaled m ≡ true
    → count_of m (measured c p index) ≡ share m c p index % 2 ^ 64
unfolding measured apply_counter
count_of-measured Metrics.split_counters c p index h = cc
count_of-measured Metrics.store_count c p index h = omega arith
count_of-measured Metrics.float_store_count c p index h = omega arith
count_of-measured Metrics.load_count c p index h = omega arith
count_of-measured Metrics.float_load_count c p index h = omega arith
count_of-measured Metrics.bytes_read c p index h = omega arith
count_of-measured Metrics.bytes_written c p index h = omega arith
count_of-measured Metrics.int_instruction_count c p index h = omega arith
count_of-measured Metrics.fp_instruction_count c p index h = omega arith
count_of-measured Metrics.term_instruction_count c p index h = omega arith
count_of-measured Metrics.mem_instruction_count c p index h = omega arith
count_of-measured Metrics.cast_instruction_count c p index h = omega arith
count_of-measured Metrics.global_op_read_count c p index h = omega arith
count_of-measured Metrics.global_op_write_count c p index h = omega arith
count_of-measured Metrics.stack_read_count c p index h = omega arith
count_of-measured Metrics.stack_write_count c p index h = omega arith
count_of-measured Metrics.heap_read_count c p index h = omega arith
count_of-measured Metrics.heap_write_count c p index h = omega arith
count_of-measured Metrics.other_inst_count c p index h = omega arith
count_of-measured Metrics.intrinsic_load c p index h = omega arith
count_of-measured Metrics.intrinsic_store c p index h = omega arith
count_of-measured Metrics.total_inst_count c p index h = omega arith
count_of-measured Metrics.counter_inst_count c p index h = omega arith

module _ {ℓ} {A : Type ℓ} where
  pub length-modify : (i : ℕ) (f : A → A) (xs : List A) → length (modify i f xs) ≡ length xs
  length-modify i f [] = refl
  length-modify zero f (x ∷ xs) = refl
  length-modify (suc i) f (x ∷ xs) = ap suc (length-modify i f xs)

  pub get_or-modify :
      (i r : ℕ) (f : A → A) (xs : List A) (d : A)
      → r < length xs
      → get_or (modify i f xs) r d ≡ (if i == r then f (get_or xs r d) else get_or xs r d)
  get_or-modify i r f [] d h = elim h [ ]
  get_or-modify zero zero f (x ∷ xs) d h = refl
  get_or-modify zero (suc r) f (x ∷ xs) d h = ground arith
  get_or-modify (suc i) zero f (x ∷ xs) d h = ground arith
  get_or-modify (suc i) (suc r) f (x ∷ xs) d h =
      ground (arith, get_or-modify i r f xs d (omega arith))

-- What `f` does not change is the same after a modification, at every index.
pub modify_keeps {ℓ κ} :
    {A : Type ℓ} {B : Type κ} (g : A → B) (f : A → A)
    → ((x : A) → g (f x) ≡ g x)
    → (i j : ℕ) (xs : List A) (d : A) → g (get_or (modify i f xs) j d) ≡ g (get_or xs j d)
modify_keeps g f h i j [] d = refl
modify_keeps g f h zero zero (x ∷ xs) d = h x
modify_keeps g f h zero (suc j) (x ∷ xs) d = refl
modify_keeps g f h (suc i) zero (x ∷ xs) d = refl
modify_keeps g f h (suc i) (suc j) (x ∷ xs) d = modify_keeps g f h i j xs d
