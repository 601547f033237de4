-- ===== src/Profile.antt =====
-- The profile of a set of basic blocks: include/zray_data.h, and the operations on it of
-- src/zray_dyn.cc. (Those of src/post_process.cc are in PostProcess/Finalize.) All counts are size_t.
pub mod Metrics
use zray.Base.{ℕ, ◌^◌, Bool, false}
use zray.Base.Word.{wadd, wmul}

-- zray::ProfileData, with its fields in the order of the struct
pub record ProfileData : Type 0 where
  pub post_dom_set_id : ℕ
  pub pragma_region_id : ℕ
  pub group_number : ℕ
  pub store_count : ℕ
  pub float_store_count : ℕ
  pub load_count : ℕ
  pub float_load_count : ℕ
  pub bytes_read : ℕ
  pub bytes_written : ℕ
  pub int_instruction_count : ℕ
  pub fp_instruction_count : ℕ
  pub term_instruction_count : ℕ
  pub mem_instruction_count : ℕ
  pub cast_instruction_count : ℕ
  pub global_op_read_count : ℕ
  pub global_op_write_count : ℕ
  pub stack_read_count : ℕ
  pub stack_write_count : ℕ
  pub heap_read_count : ℕ
  pub heap_write_count : ℕ
  pub other_inst_count : ℕ
  pub intrinsic_load : ℕ
  pub intrinsic_store : ℕ
  pub total_inst_count : ℕ
  pub counter_inst_count : ℕ
  pub split_counters : ℕ
  pub is_indirect : Bool
  pub enable_mir_pass : Bool

-- ProfileData(): EnableMIRPass is not set, and holds what the memory held.
abbrev pub new_profile : Bool → ProfileData
new_profile held = record {
  post_dom_set_id = 0;
  pragma_region_id = 0;
  group_number = 0;
  store_count = 0;
  float_store_count = 0;
  load_count = 0;
  float_load_count = 0;
  bytes_read = 0;
  bytes_written = 0;
  int_instruction_count = 0;
  fp_instruction_count = 0;
  term_instruction_count = 0;
  mem_instruction_count = 0;
  cast_instruction_count = 0;
  global_op_read_count = 0;
  global_op_write_count = 0;
  stack_read_count = 0;
  stack_write_count = 0;
  heap_read_count = 0;
  heap_write_count = 0;
  other_inst_count = 0;
  intrinsic_load = 0;
  intrinsic_store = 0;
  total_inst_count = 0;
  counter_inst_count = 0;
  split_counters = 0;
  is_indirect = false;
  enable_mir_pass = held;
}

-- operator+: the keys are the first operand's, but for PostDomSetID and IsIndirect, which are a
-- new profile's.
unfoldable pub plus : Bool → ProfileData → ProfileData → ProfileData
plus held x y = record (new_profile held) {
  group_number = x.group_number;
  pragma_region_id = x.pragma_region_id;
  store_count = wadd x.store_count y.store_count;
  float_store_count = wadd x.float_store_count y.float_store_count;
  load_count = wadd x.load_count y.load_count;
  float_load_count = wadd x.float_load_count y.float_load_count;
  bytes_read = wadd x.bytes_read y.bytes_read;
  bytes_written = wadd x.bytes_written y.bytes_written;
  int_instruction_count = wadd x.int_instruction_count y.int_instruction_count;
  fp_instruction_count = wadd x.fp_instruction_count y.fp_instruction_count;
  term_instruction_count = wadd x.term_instruction_count y.term_instruction_count;
  mem_instruction_count = wadd x.mem_instruction_count y.mem_instruction_count;
  cast_instruction_count = wadd x.cast_instruction_count y.cast_instruction_count;
  global_op_read_count = wadd x.global_op_read_count y.global_op_read_count;
  global_op_write_count = wadd x.global_op_write_count y.global_op_write_count;
  stack_read_count = wadd x.stack_read_count y.stack_read_count;
  stack_write_count = wadd x.stack_write_count y.stack_write_count;
  heap_read_count = wadd x.heap_read_count y.heap_read_count;
  heap_write_count = wadd x.heap_write_count y.heap_write_count;
  other_inst_count = wadd x.other_inst_count y.other_inst_count;
  intrinsic_load = wadd x.intrinsic_load y.intrinsic_load;
  intrinsic_store = wadd x.intrinsic_store y.intrinsic_store;
  total_inst_count = wadd x.total_inst_count y.total_inst_count;
  counter_inst_count = wadd x.counter_inst_count y.counter_inst_count;
  split_counters = wadd x.split_counters y.split_counters;
}

-- ApplyCounter, at the value that CounterArray holds at the index. SplitCounters is not scaled.
unfoldable pub apply_counter : ProfileData → ℕ → ProfileData
apply_counter p n = record p {
  store_count = wmul p.store_count n;
  float_store_count = wmul p.float_store_count n;
  load_count = wmul p.load_count n;
  float_load_count = wmul p.float_load_count n;
  bytes_read = wmul p.bytes_read n;
  bytes_written = wmul p.bytes_written n;
  int_instruction_count = wmul p.int_instruction_count n;
  fp_instruction_count = wmul p.fp_instruction_count n;
  term_instruction_count = wmul p.term_instruction_count n;
  mem_instruction_count = wmul p.mem_instruction_count n;
  cast_instruction_count = wmul p.cast_instruction_count n;
  global_op_read_count = wmul p.global_op_read_count n;
  global_op_write_count = wmul p.global_op_write_count n;
  stack_read_count = wmul p.stack_read_count n;
  stack_write_count = wmul p.stack_write_count n;
  heap_read_count = wmul p.heap_read_count n;
  heap_write_count = wmul p.heap_write_count n;
  other_inst_count = wmul p.other_inst_count n;
  intrinsic_load = wmul p.intrinsic_load n;
  intrinsic_store = wmul p.intrinsic_store n;
  total_inst_count = wmul p.total_inst_count n;
  counter_inst_count = wmul p.counter_inst_count n;
}
