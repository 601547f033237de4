-- ===== src/Record.antt =====
-- ZRayPass::recordInst of src/zray_parse.cc: what one instruction adds to a profile. What LLVM
-- says of an instruction is the record `Inst`; the calls that the pass inserts are a list.
pub mod Codes
pub mod Weights
pub mod Operands
mod Tests
use zray.Base.{
  ℕ, ◌+◌, ◌*◌, ◌^◌, Bool, true, false, not, ◌&&◌, ◌||◌, Option, none, some, List, [], ◌∷◌, ◌==◌,
  if◌then◌else◌,
}
use zray.Base.Word.{wadd, wsub, wmul}
use zray.Profile.{ProfileData}
use Codes
use Codes.{Opcode, Group, group_of}

-- The intrinsics that the source models.
pub data Intrinsic : Type 0 where
  memset memcpy memmove : Intrinsic

pub record Inst : Type 0 where
  pub opcode : Opcode
  -- mayReadFromMemory(), mayWriteToMemory()
  pub may_read : Bool
  pub may_write : Bool
  -- getTypeStoreSize of the value that is loaded, stored, exchanged or combined
  pub access_size : ℕ
  -- getPointerOpCount, getGlobalOpCount and getLargeConstantOpCount of its operands
  pub pointer_ops : ℕ
  pub global_ops : ℕ
  pub large_consts : ℕ
  pub large_const_bytes : ℕ
  -- it is a key of StackAddressList
  pub on_stack : Bool
  -- its print names TimingEvent, ZRAY_ROI or one of the increment functions
  pub is_tool_call : Bool
  -- the intrinsic that it calls, if the source models it, and operand 2, if it is a ConstantInt
  pub intrinsic : Option Intrinsic
  pub const_size : Option ℕ

-- Calls inserted behind an intrinsic whose size is known at run time only.
pub data Inserted : Type 0 where
  store_array_inc load_store_array_inc : Inserted

-- Counting of memory operations: the head of recordInst.
unfoldable pub record_accesses : Inst → ℕ → ProfileData → ProfileData
record_accesses i sf p = record p {
  total_inst_count = wadd p.total_inst_count sf;
  load_count = if i.may_read then wadd p.load_count sf else p.load_count;
  store_count = if i.may_write then wadd p.store_count sf else p.store_count;
}

unfoldable pub reads_bytes : Opcode → Bool
reads_bytes Opcode.load = true
reads_bytes Opcode.atomic_cmp_xchg = true
reads_bytes Opcode.atomic_rmw = true
reads_bytes o = false

unfoldable pub writes_bytes : Opcode → Bool
writes_bytes Opcode.store = true
writes_bytes Opcode.atomic_cmp_xchg = true
writes_bytes Opcode.atomic_rmw = true
writes_bytes o = false

-- The four tests on the opcode that add accessSize * scaleFactor.
unfoldable pub record_bytes : Inst → ℕ → ProfileData → ProfileData
record_bytes i sf p = record p {
  bytes_read =
      if reads_bytes i.opcode then wadd p.bytes_read (wmul i.access_size sf) else p.bytes_read;
  bytes_written =
      if writes_bytes i.opcode
      then wadd p.bytes_written (wmul i.access_size sf)
      else p.bytes_written;
}

-- if (count) MemInstructionCount += scaleFactor * count
unfoldable pub add_pointer_ops : Inst → ℕ → ProfileData → ProfileData
add_pointer_ops i sf p =
    if i.pointer_ops == 0
    then p
    else record p { mem_instruction_count = wadd p.mem_instruction_count (wmul sf i.pointer_ops) }

-- if (large_const_info.first) …
unfoldable pub add_large_consts : Inst → ℕ → ProfileData → ProfileData
add_large_consts i sf p = if i.large_consts == 0 then p else record p {
  mem_instruction_count = wadd p.mem_instruction_count (wmul sf i.large_consts);
  global_op_read_count = wadd p.global_op_read_count (wmul sf i.large_consts);
  load_count = wadd p.load_count (wmul sf i.large_consts);
  bytes_read = wadd p.bytes_read (wmul sf i.large_const_bytes);
}

-- case Load
unfoldable pub record_load : Inst → ℕ → ProfileData → ProfileData
record_load i sf p =
    let q = record p { mem_instruction_count = wadd p.mem_instruction_count sf } in
    if not (i.global_ops == 0)
    then record q { global_op_read_count = wadd q.global_op_read_count sf }
    else if i.on_stack
    then record q {
      stack_read_count = wadd q.stack_read_count sf;
      bytes_read = wsub q.bytes_read (wmul i.access_size sf);
    }
    else record q { heap_read_count = wadd q.heap_read_count sf }

-- case Store
unfoldable pub record_store : Inst → ℕ → ProfileData → ProfileData
record_store i sf p =
    let q = record p { mem_instruction_count = wadd p.mem_instruction_count sf } in
    if not (i.global_ops == 0)
    then record q { global_op_write_count = wadd q.global_op_write_count sf }
    else if i.on_stack
    then record q {
      stack_write_count = wadd q.stack_write_count sf;
      bytes_written = wsub q.bytes_written (wmul i.access_size sf);
    }
    else record q { heap_write_count = wadd q.heap_write_count sf }

-- The group that ends in OtherInstCount.
unfoldable pub record_other : Inst → ℕ → ProfileData → ProfileData
unfolding add_pointer_ops
record_other i sf p =
    let q = add_pointer_ops i sf p in record q { other_inst_count = wadd q.other_inst_count sf }

-- case Call, for a call of the tool: the counts of the head are taken back.
unfoldable pub uncount_tool_call : ℕ → ProfileData → ProfileData
uncount_tool_call sf p = record p {
  load_count = wsub p.load_count sf;
  store_count = wsub p.store_count sf;
  total_inst_count = wsub p.total_inst_count sf;
}

-- case Call: the return address is pushed and popped, and a call that touches no memory by
-- LLVM's account reads and writes it all the same.
unfoldable pub record_return_address : Inst → ℕ → ProfileData → ProfileData
record_return_address i sf p =
    let unseen = not (i.may_read || i.may_write) in
    record p {
      load_count = if unseen then wadd p.load_count sf else p.load_count;
      store_count = if unseen then wadd p.store_count sf else p.store_count;
      stack_read_count = wadd p.stack_read_count sf;
      stack_write_count = wadd p.stack_write_count sf;
    }

unfoldable pub add_intrinsic : Intrinsic → ℕ → ℕ → ProfileData → ProfileData
add_intrinsic memset sf size p = record p {
  intrinsic_store = wadd p.intrinsic_store (wmul sf size);
}
add_intrinsic memcpy sf size p = record p {
  intrinsic_load = wadd p.intrinsic_load (wmul sf size);
  intrinsic_store = wadd p.intrinsic_store (wmul sf size);
}
add_intrinsic memmove sf size p = record p {
  intrinsic_load = wadd p.intrinsic_load (wmul sf size);
  intrinsic_store = wadd p.intrinsic_store (wmul sf size);
}

abbrev pub insertion : Intrinsic → Inserted
insertion memset = store_array_inc
insertion memcpy = load_store_array_inc
insertion memmove = load_store_array_inc

-- case Call. An intrinsic of constant size returns at once; one of unknown size gets a call of
-- the runtime and goes on, like every other call, to the next case group.
unfoldable pub record_call : Inst → ℕ → ProfileData → ProfileData × List Inserted
unfolding uncount_tool_call record_return_address add_intrinsic record_other
record_call i sf p =
    let q = record_return_address i sf p in
    if i.is_tool_call then (uncount_tool_call sf p, []) else elim i.intrinsic [
      | none ↦ (record_other i sf q, [])
      | some f ↦ elim i.const_size [
        | some size ↦ (add_intrinsic f sf size q, [])
        | none ↦ (record_other i sf q, insertion f ∷ [])
      ]
    ]

-- The switch on the opcode; `none` is std::terminate.
unfoldable pub record_group : Group → Inst → ℕ → ProfileData → Option (ProfileData × List Inserted)
unfolding add_pointer_ops add_large_consts record_load record_store record_call record_other
record_group Group.terminator i sf p =
    let q = add_pointer_ops i sf p in
    some (record q { term_instruction_count = wadd q.term_instruction_count sf }, [])
record_group Group.negation i sf p = some (add_pointer_ops i sf p, [])
record_group Group.int_arithmetic i sf p =
    let q = add_large_consts i sf (add_pointer_ops i sf p) in
    some (record q { int_instruction_count = wadd q.int_instruction_count sf }, [])
record_group Group.fp_arithmetic i sf p =
    let q = add_large_consts i sf (add_pointer_ops i sf p) in
    some (record q { fp_instruction_count = wadd q.fp_instruction_count sf }, [])
record_group Group.logical i sf p =
    let q = add_large_consts i sf (add_pointer_ops i sf p) in
    some (record q { int_instruction_count = wadd q.int_instruction_count sf }, [])
record_group Group.memory_load i sf p = some (record_load i sf p, [])
record_group Group.memory_store i sf p = some (record_store i sf p, [])
record_group Group.memory_other i sf p =
    some (record p { mem_instruction_count = wadd p.mem_instruction_count sf }, [])
record_group Group.conversion i sf p =
    let q = add_pointer_ops i sf p in
    some (record q { cast_instruction_count = wadd q.cast_instruction_count sf }, [])
record_group Group.int_compare i sf p =
    let q = add_pointer_ops i sf p in
    some (record q { int_instruction_count = wadd q.int_instruction_count sf }, [])
record_group Group.fp_compare i sf p =
    let q = add_pointer_ops i sf p in
    some (record q { fp_instruction_count = wadd q.fp_instruction_count sf }, [])
record_group Group.call_class i sf p = some (record_call i sf p)
record_group Group.other_class i sf p = some (record_other i sf p, [])
record_group Group.aggregate i sf p =
    some (record p { mem_instruction_count = wadd p.mem_instruction_count sf }, [])
record_group Group.missing i sf p = none

-- recordInst
unfoldable pub record_inst : Inst → ℕ → ProfileData → Option (ProfileData × List Inserted)
unfolding record_accesses record_bytes record_group group_of
record_inst i sf p =
    record_group (group_of i.opcode) i sf (record_bytes i sf (record_accesses i sf p))
