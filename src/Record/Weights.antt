-- ===== src/Record/Weights.antt =====
-- ZRayPass::recordInst of src/zray_parse.cc, told the other way round: for each count, which
-- instructions add to it and how much.
use zray.Base.{
  ℕ, ◌+◌, ◌-◌, ◌*◌, ◌^◌, ◌<◌, ◌≡◌, refl, Bool, true, false, not, ◌&&◌, ◌||◌, Option, none, some,
  List, [], arith, ◌==◌, if◌then◌else◌,
}
use zray.Base.Word.{wadd, wmul, wsub-wadd}
use zray.Profile.{ProfileData}
use zray.Profile.Metrics
use zray.Profile.Metrics.{Metric, count_of}
use zray.Record.{
  Inst, Inserted, Intrinsic, memset, memcpy, memmove, reads_bytes, writes_bytes, record_accesses,
  record_bytes, add_pointer_ops, add_large_consts, record_load, record_store, record_other,
  record_return_address, uncount_tool_call, add_intrinsic, record_call, record_group, record_inst,
}
use zray.Record.Codes.{Opcode, Group, group_of}

-- One if the test holds.
abbrev pub one_if : Bool → ℕ
one_if b = if b then 1 else 0

-- The call is of an intrinsic whose size is a constant.
abbrev pub known_size : Inst → Bool
known_size i = elim i.intrinsic [
  | none ↦ false
  | some f ↦ elim i.const_size [ none ↦ false | some n ↦ true ]
]

abbrev pub moved : (Intrinsic → ℕ) → Inst → ℕ
moved f i = elim i.intrinsic [
  | none ↦ 0
  | some g ↦ elim i.const_size [ none ↦ 0 | some n ↦ f g * n ]
]

abbrev pub loads : Intrinsic → ℕ
loads memset = 0
loads memcpy = 1
loads memmove = 1

abbrev pub is_arithmetic : Group → Bool
is_arithmetic Group.int_arithmetic = true
is_arithmetic Group.fp_arithmetic = true
is_arithmetic Group.logical = true
is_arithmetic g = false

abbrev pub is_call : Group → Bool
is_call Group.call_class = true
is_call g = false

-- The groups that count pointers among their operands.
abbrev pub counts_pointers : Group → Inst → Bool
counts_pointers Group.memory_load i = false
counts_pointers Group.memory_store i = false
counts_pointers Group.memory_other i = false
counts_pointers Group.aggregate i = false
counts_pointers Group.missing i = false
counts_pointers Group.call_class i = not (known_size i)
counts_pointers g i = true

abbrev pub is_memory : Group → Bool
is_memory Group.memory_load = true
is_memory Group.memory_store = true
is_memory Group.memory_other = true
is_memory Group.aggregate = true
is_memory g = false

-- A load or store goes to the first of the three that fits.
abbrev pub to_global : Inst → Bool
to_global i = not (i.global_ops == 0)

abbrev pub to_stack : Inst → Bool
to_stack i = i.global_ops == 0 && i.on_stack

abbrev pub to_heap : Inst → Bool
to_heap i = i.global_ops == 0 && not i.on_stack

abbrev pub is_load : Group → Bool
is_load Group.memory_load = true
is_load g = false

abbrev pub is_store : Group → Bool
is_store Group.memory_store = true
is_store g = false

-- What one execution of an instruction of group `g`, no call of the tool, adds to a count.
abbrev pub group_weight : Metric → Group → Inst → ℕ
group_weight Metrics.store_count g i =
    one_if (i.may_write || (is_call g && not (i.may_read || i.may_write)))
group_weight Metrics.load_count g i =
    one_if (i.may_read || (is_call g && not (i.may_read || i.may_write)))
    + (if is_arithmetic g then i.large_consts else 0)
group_weight Metrics.bytes_read g i =
    (if reads_bytes i.opcode && not (is_load g && to_stack i) then i.access_size else 0)
    + (if is_arithmetic g && not (i.large_consts == 0) then i.large_const_bytes else 0)
group_weight Metrics.bytes_written g i =
    if writes_bytes i.opcode && not (is_store g && to_stack i) then i.access_size else 0
group_weight Metrics.int_instruction_count Group.int_arithmetic i = 1
group_weight Metrics.int_instruction_count Group.logical i = 1
group_weight Metrics.int_instruction_count Group.int_compare i = 1
group_weight Metrics.fp_instruction_count Group.fp_arithmetic i = 1
group_weight Metrics.fp_instruction_count Group.fp_compare i = 1
group_weight Metrics.term_instruction_count Group.terminator i = 1
group_weight Metrics.mem_instruction_count g i =
    one_if (is_memory g)
    + (if counts_pointers g i then i.pointer_ops else 0)
    + (if is_arithmetic g then i.large_consts else 0)
group_weight Metrics.cast_instruction_count Group.conversion i = 1
group_weight Metrics.global_op_read_count g i =
    one_if (is_load g && to_global i) + (if is_arithmetic g then i.large_consts else 0)
group_weight Metrics.global_op_write_count g i = one_if (is_store g && to_global i)
group_weight Metrics.stack_read_count g i = one_if (is_call g || (is_load g && to_stack i))
group_weight Metrics.stack_write_count g i = one_if (is_call g || (is_store g && to_stack i))
group_weight Metrics.heap_read_count g i = one_if (is_load g && to_heap i)
group_weight Metrics.heap_write_count g i = one_if (is_store g && to_heap i)
group_weight Metrics.other_inst_count Group.other_class i = 1
group_weight Metrics.other_inst_count Group.call_class i = one_if (not (known_size i))
group_weight Metrics.intrinsic_load Group.call_class i = moved loads i
group_weight Metrics.intrinsic_store Group.call_class i = moved (λ f. 1) i
group_weight Metrics.total_inst_count g i = 1
group_weight m g i = 0

unfoldable pub weight : Metric → Inst → ℕ
weight m i = group_weight m (group_of i.opcode) i

abbrev pub is_missing : Group → Bool
is_missing Group.missing = true
is_missing g = false

-- A count of the profile that recordInst leaves, if it comes back.
abbrev pub counted : Metric → Option (ProfileData × List Inserted) → Option ℕ
counted m none = none
counted m (some (q, ins)) = some (count_of m q)

-- sf times a term that counts only if a test holds.
mul_if : (k x : ℕ) (b : Bool) → k * (if b then x else 0) ≡ (if b then k * x else 0)
mul_if k x b = ground arith

-- Each group of the switch, behind the head of the function.
record_group_lem :
    (g : Group) (m : Metric) (i : Inst) (sf : ℕ) (p : ProfileData)
    → i.is_tool_call ≡ false
    → count_of m p < 2 ^ 64
    → (reads_bytes i.opcode || not (is_load g)) ≡ true
    → (writes_bytes i.opcode || not (is_store g)) ≡ true
    → counted m (record_group g i sf (record_bytes i sf (record_accesses i sf p)))
      ≡ (if is_missing g then none else some (wadd (count_of m p) (wmul sf (group_weight m g i))))
unfolding record_group record_bytes record_accesses add_pointer_ops add_large_consts record_load
    record_store record_other record_return_address uncount_tool_call add_intrinsic record_call
record_group_lem Group.terminator Metrics.store_count i sf p h k a b = ground arith
record_group_lem Group.negation Metrics.store_count i sf p h k a b = ground arith
record_group_lem Group.int_arithmetic Metrics.store_count i sf p h k a b = ground arith
record_group_lem Group.fp_arithmetic Metrics.store_count i sf p h k a b = ground arith
record_group_lem Group.logical Metrics.store_count i sf p h k a b = ground arith
record_group_lem Group.memory_load Metrics.store_count i sf p h k a b = ground arith
record_group_lem Group.memory_store Metrics.store_count i sf p h k a b = ground arith
record_group_lem Group.memory_other Metrics.store_count i sf p h k a b = ground arith
record_group_lem Group.conversion Metrics.store_count i sf p h k a b = ground arith
record_group_lem Group.int_compare Metrics.store_count i sf p h k a b = ground arith
record_group_lem Group.fp_compare Metrics.store_count i sf p h k a b = ground arith
record_group_lem Group.call_class Metrics.store_count i sf p h k a b = ground arith
record_group_lem Group.other_class Metrics.store_count i sf p h k a b = ground arith
record_group_lem Group.aggregate Metrics.store_count i sf p h k a b = ground arith
record_group_lem Group.missing Metrics.store_count i sf p h k a b = ground arith
record_group_lem g Metrics.bytes_read i sf p h k a b =
    ground (arith, mul_if sf i.access_size (reads_bytes i.opcode && not (is_load g && to_stack i)))
record_group_lem g Metrics.bytes_written i sf p h k a b =
    ground
      (arith, mul_if sf i.access_size (writes_bytes i.opcode && not (is_store g && to_stack i)))
record_group_lem g m i sf p h k a b = ground arith

load_reads : (o : Opcode) → (reads_bytes o || not (is_load (group_of o))) ≡ true
unfolding reads_bytes group_of
load_reads Opcode.load = refl
load_reads _ = refl

store_writes : (o : Opcode) → (writes_bytes o || not (is_store (group_of o))) ≡ true
unfolding writes_bytes group_of
store_writes Opcode.store = refl
store_writes _ = refl

-- recordInst comes back for every opcode but one that its switch has no case for, and, for an
-- instruction that is no call of the tool, each of the 23 counts below 2 ^ 64 has then grown,
-- modulo 2 ^ 64, by the scale factor times the instruction's weight in that count.
pub record_inst_lem :
    (m : Metric) (i : Inst) (sf : ℕ) (p : ProfileData)
    → i.is_tool_call ≡ false
    → count_of m p < 2 ^ 64
    → counted m (record_inst i sf p) ≡ (
        if is_missing (group_of i.opcode)
        then none
        else some (wadd (count_of m p) (wmul sf (weight m i))))
unfolding record_inst weight
record_inst_lem m i sf p h k =
    record_group_lem (group_of i.opcode) m i sf p h k (load_reads i.opcode) (store_writes i.opcode)

-- An instruction that is loaded or stored through is charged to exactly one kind of memory, and
-- its bytes are counted unless that is the stack.
pub weight_load :
    (i : Inst)
    → i.opcode ≡ Opcode.load
    → (weight Metrics.global_op_read_count i
          + weight Metrics.stack_read_count i
          + weight Metrics.heap_read_count i
        ≡ 1)
      × (weight Metrics.bytes_read i ≡ (1 - weight Metrics.stack_read_count i) * i.access_size)
unfolding weight group_of reads_bytes
weight_load i h = rw h (ground arith)

-- A call of the tool, which LLVM takes to read and write memory, leaves no trace in the profile.
pub record_inst-tool_call :
    (i : Inst) (sf : ℕ) (p : ProfileData)
    → i.opcode ≡ Opcode.call
    → i.is_tool_call ≡ true
    → i.may_read ≡ true
    → i.may_write ≡ true
    → sf < 2 ^ 64
    → p.load_count < 2 ^ 64
    → p.store_count < 2 ^ 64
    → p.total_inst_count < 2 ^ 64
    → record_inst i sf p ≡ some (p, [])
unfolding record_inst record_group record_call uncount_tool_call record_bytes record_accesses
    group_of reads_bytes writes_bytes
record_inst-tool_call i sf p o t r w k a b c =
    rw (o, t, r, w)
      (λ j. some (
        record p {
          load_count = wsub-wadd p.load_count sf a k j;
          store_count = wsub-wadd p.store_count sf b k j;
          total_inst_count = wsub-wadd p.total_inst_count sf c k j;
        },
        [],
      ))
