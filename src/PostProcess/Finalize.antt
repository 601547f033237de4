-- ===== src/PostProcess/Finalize.antt =====
-- operator+, ApplyCounter, read_pd_sets, apply_indirect_counts and zray_finalize of
-- src/post_process.cc, as far as the region profiles go: the report of one epoch. They are this
-- file's own copies of what src/zray_dyn.cc has, in its order of the fields.
use zray.Base.{
  ℕ, zero, suc, ◌+◌, Bool, List, [], ◌∷◌, ◌++◌, get_or, length, replicate, ◌==◌, if◌then◌else◌,
}
use zray.Base.Word.{wadd, wmul}
use zray.Profile.{ProfileData, new_profile}
use zray.Report.{Named, Counters, Report, modify, as_index}
use zray.PostProcess.{Epoch}

-- operator+
unfoldable pub plus_offline : Bool → ProfileData → ProfileData → ProfileData
plus_offline held x y = record (new_profile held) {
  group_number = x.group_number;
  pragma_region_id = x.pragma_region_id;
  load_count = wadd x.load_count y.load_count;
  float_load_count = wadd x.float_load_count y.float_load_count;
  store_count = wadd x.store_count y.store_count;
  float_store_count = wadd x.float_store_count y.float_store_count;
  bytes_read = wadd x.bytes_read y.bytes_read;
  bytes_written = wadd x.bytes_written y.bytes_written;
  int_instruction_count = wadd x.int_instruction_count y.int_instruction_count;
  fp_instruction_count = wadd x.fp_instruction_count y.fp_instruction_count;
  term_instruction_count = wadd x.term_instruction_count y.term_instruction_count;
  mem_instruction_count = wadd x.mem_instruction_count y.mem_instruction_count;
  cast_instruction_count = wadd x.cast_instruction_count y.cast_instruction_count;
  global_op_read_count = wadd x.global_op_read_count y.global_op_read_count;
  global_op_write_count = wadd x.global_op_write_count y.global_op_write_count;
  stack_read_count = wadd x.stack_read_count y.stack_read_count;
  stack_write_count = wadd x.stack_write_count y.stack_write_count;
  heap_read_count = wadd x.heap_read_count y.heap_read_count;
  heap_write_count = wadd x.heap_write_count y.heap_write_count;
  other_inst_count = wadd x.other_inst_count y.other_inst_count;
  intrinsic_load = wadd x.intrinsic_load y.intrinsic_load;
  intrinsic_store = wadd x.intrinsic_store y.intrinsic_store;
  total_inst_count = wadd x.total_inst_count y.total_inst_count;
  split_counters = wadd x.split_counters y.split_counters;
  counter_inst_count = wadd x.counter_inst_count y.counter_inst_count;
}

-- ApplyCounter, at the value that CounterArray holds at the index.
unfoldable pub apply_offline_counter : ProfileData → ℕ → ProfileData
apply_offline_counter p n = record p {
  load_count = wmul p.load_count n;
  float_load_count = wmul p.float_load_count n;
  store_count = wmul p.store_count n;
  float_store_count = wmul p.float_store_count n;
  bytes_read = wmul p.bytes_read n;
  bytes_written = wmul p.bytes_written n;
  int_instruction_count = wmul p.int_instruction_count n;
  fp_instruction_count = wmul p.fp_instruction_count n;
  term_instruction_count = wmul p.term_instruction_count n;
  mem_instruction_count = wmul p.mem_instruction_count n;
  cast_instruction_count = wmul p.cast_instruction_count n;
  global_op_read_count = wmul p.global_op_read_count n;
  global_op_write_count = wmul p.global_op_write_count n;
  stack_read_count = wmul p.stack_read_count n;
  stack_write_count = wmul p.stack_write_count n;
  heap_read_count = wmul p.heap_read_count n;
  heap_write_count = wmul p.heap_write_count n;
  other_inst_count = wmul p.other_inst_count n;
  intrinsic_load = wmul p.intrinsic_load n;
  intrinsic_store = wmul p.intrinsic_store n;
  total_inst_count = wmul p.total_inst_count n;
  counter_inst_count = wmul p.counter_inst_count n;
}

-- The arrays of an epoch; there is no ActiveGroupNumber.
abbrev pub epoch_counters : Bool → ℕ → Epoch → Counters
epoch_counters held width e = record {
  counter_array = λ i. get_or e.counter_array i 0;
  load_runtime_array = λ i. get_or e.load_runtimes i 0;
  store_runtime_array = λ i. get_or e.store_runtimes i 0;
  counter_dimension = width;
  active_group_number = 0;
  held = held;
}

-- int index, from the number of a set and of a region
unfoldable pub host_index : Counters → ℕ → ℕ → ℕ
host_index c set region = as_index (wadd set (wmul c.counter_dimension region))

-- ApplyCounter at an index, and the runtime data of the index on top.
unfoldable pub measured_offline : Counters → ProfileData → ℕ → ProfileData
measured_offline c p index =
    let scaled = apply_offline_counter p (c.counter_array index) in
    record scaled {
      intrinsic_load = wadd scaled.intrinsic_load (c.load_runtime_array index);
      intrinsic_store = wadd scaled.intrinsic_store (c.store_runtime_array index);
    }

-- The four writes to RegionProfileList[PragmaRegionID].
unfoldable pub add_to_offline_region : Bool → List ℕ → ProfileData → Named → Named
add_to_offline_region held name p (old, sum) =
    let grouped : ProfileData = record sum { group_number = p.group_number } in
    let keyed : ProfileData = record grouped { pragma_region_id = p.pragma_region_id } in
    (name, plus_offline held keyed p)

-- The loop body of read_pd_sets, for a record that has been read.
unfoldable pub read_host_record : Counters → Named → Report → Report
read_host_record c (name, p) s =
    let index = host_index c p.post_dom_set_id p.pragma_region_id in
    let in_profile = measured_offline c p index in
    let raised =
      modify p.pragma_region_id (λ n. wadd n (c.counter_array index)) s.region_profile_counts in
    if p.is_indirect
    then record s { indirect_profiles = s.indirect_profiles ++ (name, p) ∷ [] }
    else record s {
      region_profile_list =
          modify p.pragma_region_id (add_to_offline_region c.held name in_profile)
            s.region_profile_list;
      region_profile_counts = if p.post_dom_set_id == 0 then s.region_profile_counts else raised;
      counts = s.counts ++ (name, in_profile) ∷ [];
    }

unfoldable pub read_host_pd_sets : Counters → List Named → Report → Report
read_host_pd_sets c [] s = s
read_host_pd_sets c (r ∷ rs) s = read_host_pd_sets c rs (read_host_record c r s)

-- The inner loop's body of apply_indirect_counts.
unfoldable pub add_host_indirect : Counters → ℕ → Named → Report → Report
add_host_indirect c region (name, p) s =
    let index = host_index c p.post_dom_set_id region in
    let tmp_prof = measured_offline c p index in
    record s {
      region_profile_list =
          modify region (λ (old, sum). (old, plus_offline c.held sum tmp_prof))
            s.region_profile_list;
      region_profile_counts =
          modify region (λ n. wadd n (c.counter_array index)) s.region_profile_counts;
    }

unfoldable pub add_host_indirects : Counters → ℕ → List Named → Report → Report
add_host_indirects c region [] s = s
add_host_indirects c region (p ∷ ps) s =
    add_host_indirects c region ps (add_host_indirect c region p s)

-- The outer loop, over `n` regions from number `i` on.
unfoldable pub host_indirect_from : Counters → ℕ → ℕ → Report → Report
host_indirect_from c zero i s = s
host_indirect_from c (suc n) i s =
    let region = (get_or s.region_profile_list i ([], new_profile c.held)).1.pragma_region_id in
    host_indirect_from c n (i + 1) (add_host_indirects c region s.indirect_profiles s)

-- zray_finalize, first loop
unfoldable pub empty_host_report : Bool → ℕ → Report
empty_host_report held regions = record {
  region_profile_list = replicate regions ([], new_profile held);
  region_profile_counts = replicate regions 0;
  counts = [];
  indirect_profiles = [];
}

-- zray_finalize, on an epoch, with `regions` as PragmaRegionCount.
unfoldable pub finalize : Bool → ℕ → ℕ → List Named → Epoch → Report
finalize held width regions log e =
    let c = epoch_counters held width e in
    let s = read_host_pd_sets c log (empty_host_report held regions) in
    host_indirect_from c (length s.region_profile_list) 0 s
