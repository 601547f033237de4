-- ===== src/Record/Codes.antt =====
-- LLVM's opcodes, in the groups of the switch of ZRayPass::recordInst (src/zray_parse.cc).

pub data Opcode : Type 0 where
  ret br switch indirect_br invoke resume unreachable cleanup_ret catch_ret catch_switch call_br :
      Opcode
  f_neg : Opcode
  add sub mul u_div s_div u_rem s_rem : Opcode
  f_add f_sub f_mul f_div f_rem : Opcode
  shl l_shr a_shr and_op or_op xor_op : Opcode
  load : Opcode
  store : Opcode
  alloca get_element_ptr fence atomic_cmp_xchg atomic_rmw : Opcode
  trunc z_ext s_ext fp_to_ui fp_to_si ui_to_fp si_to_fp fp_trunc fp_ext ptr_to_int int_to_ptr
        bit_cast addr_space_cast :
      Opcode
  i_cmp : Opcode
  f_cmp : Opcode
  call : Opcode
  phi select user_op1 user_op2 va_arg shuffle_vector landing_pad cleanup_pad catch_pad freeze :
      Opcode
  extract_element extract_value insert_value insert_element : Opcode
  unmodelled : Opcode

-- The case groups; an opcode that has none reaches `default`.
pub data Group : Type 0 where
  terminator : Group
  negation : Group
  int_arithmetic : Group
  fp_arithmetic : Group
  logical : Group
  memory_load : Group
  memory_store : Group
  memory_other : Group
  conversion : Group
  int_compare : Group
  fp_compare : Group
  call_class : Group
  other_class : Group
  aggregate : Group
  missing : Group

unfoldable pub group_of : Opcode → Group
group_of ret = terminator
group_of br = terminator
group_of switch = terminator
group_of indirect_br = terminator
group_of invoke = terminator
group_of resume = terminator
group_of unreachable = terminator
group_of cleanup_ret = terminator
group_of catch_ret = terminator
group_of catch_switch = terminator
group_of call_br = terminator
group_of f_neg = negation
group_of add = int_arithmetic
group_of sub = int_arithmetic
group_of mul = int_arithmetic
group_of u_div = int_arithmetic
group_of s_div = int_arithmetic
group_of u_rem = int_arithmetic
group_of s_rem = int_arithmetic
group_of f_add = fp_arithmetic
group_of f_sub = fp_arithmetic
group_of f_mul = fp_arithmetic
group_of f_div = fp_arithmetic
group_of f_rem = fp_arithmetic
group_of shl = logical
group_of l_shr = logical
group_of a_shr = logical
group_of and_op = logical
group_of or_op = logical
group_of xor_op = logical
group_of load = memory_load
group_of store = memory_store
group_of alloca = memory_other
group_of get_element_ptr = memory_other
group_of fence = memory_other
group_of atomic_cmp_xchg = memory_other
group_of atomic_rmw = memory_other
group_of trunc = conversion
group_of z_ext = conversion
group_of s_ext = conversion
group_of fp_to_ui = conversion
group_of fp_to_si = conversion
group_of ui_to_fp = conversion
group_of si_to_fp = conversion
group_of fp_trunc = conversion
group_of fp_ext = conversion
group_of ptr_to_int = conversion
group_of int_to_ptr = conversion
group_of bit_cast = conversion
group_of addr_space_cast = conversion
group_of i_cmp = int_compare
group_of f_cmp = fp_compare
group_of call = call_class
group_of phi = other_class
group_of select = other_class
group_of user_op1 = other_class
group_of user_op2 = other_class
group_of va_arg = other_class
group_of shuffle_vector = other_class
group_of landing_pad = other_class
group_of cleanup_pad = other_class
group_of catch_pad = other_class
group_of freeze = other_class
group_of extract_element = aggregate
group_of extract_value = aggregate
group_of insert_value = aggregate
group_of insert_element = aggregate
group_of unmodelled = missing
