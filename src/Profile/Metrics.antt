-- ===== src/Profile/Metrics.antt =====
-- The counts of a profile by name, and what the operations of src/zray_dyn.cc do to each.
use zray.Base.{ℕ, ◌≡◌, refl, Bool, true, false}
use zray.Base.Word.{wadd, wmul}
use zray.Profile.{ProfileData, plus, apply_counter}

-- The counts that a report adds up.
pub data Metric : Type 0 where
  store_count : Metric
  float_store_count : Metric
  load_count : Metric
  float_load_count : Metric
  bytes_read : Metric
  bytes_written : Metric
  int_instruction_count : Metric
  fp_instruction_count : Metric
  term_instruction_count : Metric
  mem_instruction_count : Metric
  cast_instruction_count : Metric
  global_op_read_count : Metric
  global_op_write_count : Metric
  stack_read_count : Metric
  stack_write_count : Metric
  heap_read_count : Metric
  heap_write_count : Metric
  other_inst_count : Metric
  intrinsic_load : Metric
  intrinsic_store : Metric
  total_inst_count : Metric
  counter_inst_count : Metric
  split_counters : Metric

abbrev pub count_of : Metric → ProfileData → ℕ
count_of store_count p = p.store_count
count_of float_store_count p = p.float_store_count
count_of load_count p = p.load_count
count_of float_load_count p = p.float_load_count
count_of bytes_read p = p.bytes_read
count_of bytes_written p = p.bytes_written
count_of int_instruction_count p = p.int_instruction_count
count_of fp_instruction_count p = p.fp_instruction_count
count_of term_instruction_count p = p.term_instruction_count
count_of mem_instruction_count p = p.mem_instruction_count
count_of cast_instruction_count p = p.cast_instruction_count
count_of global_op_read_count p = p.global_op_read_count
count_of global_op_write_count p = p.global_op_write_count
count_of stack_read_count p = p.stack_read_count
count_of stack_write_count p = p.stack_write_count
count_of heap_read_count p = p.heap_read_count
count_of heap_write_count p = p.heap_write_count
count_of other_inst_count p = p.other_inst_count
count_of intrinsic_load p = p.intrinsic_load
count_of intrinsic_store p = p.intrinsic_store
count_of total_inst_count p = p.total_inst_count
count_of counter_inst_count p = p.counter_inst_count
count_of split_counters p = p.split_counters

-- Whether a counter scales it.
abbrev pub is_scaled : Metric → Bool
is_scaled split_counters = false
is_scaled m = true

pub count_of-plus :
    (m : Metric) (held : Bool) (x y : ProfileData)
    → count_of m (plus held x y) ≡ wadd (count_of m x) (count_of m y)
unfolding plus
count_of-plus store_count held x y = refl
count_of-plus float_store_count held x y = refl
count_of-plus load_count held x y = refl
count_of-plus float_load_count held x y = refl
count_of-plus bytes_read held x y = refl
count_of-plus bytes_written held x y = refl
count_of-plus int_instruction_count held x y = refl
count_of-plus fp_instruction_count held x y = refl
count_of-plus term_instruction_count held x y = refl
count_of-plus mem_instruction_count held x y = refl
count_of-plus cast_instruction_count held x y = refl
count_of-plus global_op_read_count held x y = refl
count_of-plus global_op_write_count held x y = refl
count_of-plus stack_read_count held x y = refl
count_of-plus stack_write_count held x y = refl
count_of-plus heap_read_count held x y = refl
count_of-plus heap_write_count held x y = refl
count_of-plus other_inst_count held x y = refl
count_of-plus intrinsic_load held x y = refl
count_of-plus intrinsic_store held x y = refl
count_of-plus total_inst_count held x y = refl
count_of-plus counter_inst_count held x y = refl
count_of-plus split_counters held x y = refl

pub count_of-apply_counter :
    (m : Metric) (p : ProfileData) (n : ℕ)
    → is_scaled m ≡ true
    → count_of m (apply_counter p n) ≡ wmul (count_of m p) n
unfolding apply_counter
count_of-apply_counter split_counters p n h = cc
count_of-apply_counter store_count p n h = refl
count_of-apply_counter float_store_count p n h = refl
count_of-apply_counter load_count p n h = refl
count_of-apply_counter float_load_count p n h = refl
count_of-apply_counter bytes_read p n h = refl
count_of-apply_counter bytes_written p n h = refl
count_of-apply_counter int_instruction_count p n h = refl
count_of-apply_counter fp_instruction_count p n h = refl
count_of-apply_counter term_instruction_count p n h = refl
count_of-apply_counter mem_instruction_count p n h = refl
count_of-apply_counter cast_instruction_count p n h = refl
count_of-apply_counter global_op_read_count p n h = refl
count_of-apply_counter global_op_write_count p n h = refl
count_of-apply_counter stack_read_count p n h = refl
count_of-apply_counter stack_write_count p n h = refl
count_of-apply_counter heap_read_count p n h = refl
count_of-apply_counter heap_write_count p n h = refl
count_of-apply_counter other_inst_count p n h = refl
count_of-apply_counter intrinsic_load p n h = refl
count_of-apply_counter intrinsic_store p n h = refl
count_of-apply_counter total_inst_count p n h = refl
count_of-apply_counter counter_inst_count p n h = refl

-- The keys are no counts.
pub count_of-keys :
    (m : Metric) (p : ProfileData) (g r : ℕ)
    → count_of m (record p { group_number = g; pragma_region_id = r }) ≡ count_of m p
count_of-keys store_count p g r = refl
count_of-keys _ p g r = refl
