-- ===== src/Record/Tests.antt =====
-- The theorems on recordInst at instructions of a small program.
use zray.Base.{◌%◌, ◌^◌, ◌≡◌, refl, true, false, none, some, List, [], ◌∷◌, arith, if◌then◌else◌}
use zray.Base.Word.{wadd, wmul}
use zray.Profile.{new_profile}
use zray.Profile.Metrics
use zray.Profile.Metrics.{Metric, count_of}
use zray.Record.{Inst, memcpy, load_store_array_inc, record_inst}
use zray.Record.Operands.{
  Operand, floating, vector, other_operand, get_large_constant_op_count,
  get_large_constant_op_count_lem, charged_all, charged_bytes,
}
use zray.Record.Codes.{Opcode, group_of}
use zray.Record.Weights.{weight, is_missing, counted, record_inst_lem}

abbrev plain : Inst
plain = record {
  opcode = Opcode.add;
  may_read = false;
  may_write = false;
  access_size = 0;
  pointer_ops = 0;
  global_ops = 0;
  large_consts = 1;
  large_const_bytes = 8;
  on_stack = false;
  is_tool_call = false;
  intrinsic = none;
  const_size = none;
}

-- An addition with a large constant reads 8 bytes; in a loop of 100 rounds, 800.
record_inst_lem_example : counted Metrics.bytes_read (record_inst plain 100 (new_profile false)) ≡ (
    if is_missing (group_of plain.opcode)
    then none
    else some (wadd 0 (wmul 100 (weight Metrics.bytes_read plain))))
record_inst_lem_example =
    record_inst_lem Metrics.bytes_read plain 100 (new_profile false) refl (omega arith)

bytes_of_plain : weight Metrics.bytes_read plain ≡ 8
unfolding weight group_of zray.Record.reads_bytes
bytes_of_plain = refl

-- A vector of four elements of 8 bytes, two of which differ from the first, and a double.
abbrev operands : List Operand
operands =
    vector false 8 (5 ∷ 5 ∷ 6 ∷ 7 ∷ [])
    ∷ floating 64 false
    ∷ vector true 4 (1 ∷ 2 ∷ [])
    ∷ other_operand
    ∷ []

charges : get_large_constant_op_count operands ≡ (10, 80)
unfolding get_large_constant_op_count zray.Record.Operands.count_operands
    zray.Record.Operands.count_operand zray.Record.Operands.count_elements
charges = refl

get_large_constant_op_count_lem_example :
    ((get_large_constant_op_count operands).0 ≡ charged_all operands % 2 ^ 32)
    × ((get_large_constant_op_count operands).1 ≡ charged_bytes operands % 2 ^ 32)
get_large_constant_op_count_lem_example = get_large_constant_op_count_lem operands
