-- ===== src/Emit.antt =====
-- What src/zray_pass.cc and src/zray_codegen.cc insert for a set of blocks: the call that counts
-- it, its record in the log, and the clones of the functions that it calls. LLVM's part (types,
-- builders, debug locations) is left out; a function is known by a number that stands for its name.
pub mod Keys
pub mod Cloning
pub mod Tagging
use zray.Base.{
  ℕ, zero, suc, ◌+◌, Bool, true, false, not, ◌||◌, Option, none, some, List, [], ◌∷◌, ◌++◌, map,
  ◌==◌, if◌then◌else◌, length,
}
use zray.Base.Word.{wadd}
use zray.Profile.{ProfileData, new_profile}
use zray.Record.{Inst, Inserted}
use zray.Blocks.{record_insts}
use zray.Hoist.{Counter, shared, hoisted, dynamic, contains}
use zray.Host.{find}
use zray.Report.{Named}

-- The command line options of the two files.
pub record Options : Type 0 where
  pub apply_counters : Bool
  pub apply_function_cloning : Bool
  pub apply_mir_pass : Bool
  pub enable_host_monitor : Bool
  pub full_scan : Bool

-- What processCallInst finds in a call: no function, an intrinsic, a declaration, a
-- __kmpc_fork_call with the outlined function that its print names, if the module has it, the
-- handler of a thread's exit, or a function with a body.
pub data Callee : Type 0 where
  no_function intrinsic declared exit_handler : Callee
  fork : Option ℕ → Callee
  defined : ℕ → Callee

-- The module as the pass finds it: the instructions of a block, and the calls among them. (A call
-- that the pass has redirected already names a clone, which processFunctionClone returns as it is.)
pub record Code : Type 0 where
  pub insts : ℕ → List Inst
  pub callees : ℕ → List Callee
  -- the name that CloneFunction gives to a copy
  pub clone_name : ℕ → ℕ

-- The calls that are inserted, with their constant arguments.
pub data Call : Type 0 where
  increment : ℕ → ℕ → Call
  -- the third argument is the loop's backedge count plus 1
  increment_sf : ℕ → ℕ → Call
  at_run_time : Inserted → ℕ → ℕ → Call
  bb_tag : ℕ → ℕ → Call
  start_timing : ℕ → Call
  end_timing : ℕ → Call
  thread_exit : Bool → Call
  register_host : Call

-- The members of ZRayPass that change, the log, and the calls with the block that they stand in;
-- none is the block that SplitEdge makes in front of a loop. The counts of events go with the log's
-- records, and stay far below 2 ^ 64.
pub record Pass : Type 0 where
  pub global_counter_event_total : ℕ
  pub region_counter_event_total : ℕ
  pub region_counter_event_max : ℕ
  pub indirect_function_counter_offset : ℕ
  pub timing_event_count : ℕ
  pub basic_block_count : ℕ
  pub total_load_count : ℕ
  pub total_store_count : ℕ
  pub clone_function_map : List (ℕ × (ℕ × ℕ))
  pub cloned_function_names : List ℕ
  pub pending_function_clones : List ℕ
  pub log : List Named
  pub calls : List (Option ℕ × Call)

-- processFunctionClone: the function to call, and the new state.
unfoldable pub process_function_clone : Code → ℕ → ℕ → Pass → ℕ × Pass
unfolding find
process_function_clone code f region s = elim (find f s.clone_function_map) [
  | some (clone, first_region) ↦ (clone, s)
  | none ↦ if contains f s.cloned_function_names then (f, s) else (
    code.clone_name f,
    record s {
      clone_function_map = s.clone_function_map ++ (f, (code.clone_name f, region)) ∷ [];
      cloned_function_names = s.cloned_function_names ++ code.clone_name f ∷ [];
      pending_function_clones = s.pending_function_clones ++ f ∷ [];
    },
  )
]

-- processCallInst
unfoldable pub process_call_inst : Options → Code → ℕ → Callee → Pass → Pass
unfolding process_function_clone
process_call_inst o code region no_function s = s
process_call_inst o code region intrinsic s = s
process_call_inst o code region declared s = s
process_call_inst o code region exit_handler s = s
process_call_inst o code region (fork none) s = s
process_call_inst o code region (fork (some f)) s =
    if o.apply_function_cloning then (process_function_clone code f region s).1 else s
process_call_inst o code region (defined f) s =
    if o.apply_function_cloning then (process_function_clone code f region s).1 else s

-- The calls of a block, in order
unfoldable pub process_calls : Options → Code → ℕ → List Callee → Pass → Pass
unfolding process_call_inst
process_calls o code region [] s = s
process_calls o code region (c ∷ cs) s =
    process_calls o code region cs (process_call_inst o code region c s)

abbrev pub insert : Option ℕ → Call → Pass → Pass
insert block call s = record s { calls = s.calls ++ (block, call) ∷ [] }

abbrev pub insert_all : Option ℕ → List Call → Pass → Pass
insert_all block [] s = s
insert_all block (c ∷ cs) s = insert_all block cs (insert block c s)

-- recordTagBlocks, with the calls it processes and the tags it inserts; `none` is std::terminate.
-- recordInst and processCallInst take turns in the source, and touch different members.
-- The instructions of a block are those before anything is inserted. The source reads the block as
-- it stands: where the entry block of the function is in a set, recordInst counts the calls for a
-- thread's exit and registration, which insertCustomEvent has put there, as instructions too.
unfoldable pub tag_blocks :
    Options → Code → List ℕ → ℕ → ProfileData → Pass → Option (ProfileData × Pass)
unfolding process_calls record_insts
tag_blocks o code [] sf p s = some (p, s)
tag_blocks o code (b ∷ bs) sf p s = elim (record_insts (code.insts b) sf p) [
  | none ↦ none
  | some (q, inserted) ↦ tag_blocks o code bs sf q (
      insert (some b) (bb_tag s.global_counter_event_total sf) (
        process_calls o code p.pragma_region_id (code.callees b) (
          insert_all (some b)
            (map (λ c. at_run_time c p.pragma_region_id p.post_dom_set_id) inserted) s)))
]

-- The profile that the insertion of an event starts from.
unfoldable pub event_profile : Options → ℕ → ℕ → Bool → Pass → ProfileData
event_profile o region group indirect s = record (new_profile false) {
  pragma_region_id = region;
  group_number = group;
  enable_mir_pass = o.apply_mir_pass;
  post_dom_set_id =
      if indirect then s.indirect_function_counter_offset else s.region_counter_event_total;
  is_indirect = indirect;
}

-- insertCounterArrayInc
unfoldable pub insert_counter_array_inc : Options → Option ℕ → ProfileData → Pass → Pass
insert_counter_array_inc o block p s =
    if o.apply_counters then insert block (increment p.pragma_region_id p.post_dom_set_id) s else s

-- insertCustomEvent: the record for the log, and the numbers of events.
unfoldable pub insert_custom_event : List ℕ → ProfileData → Bool → Pass → Pass
insert_custom_event name p indirect s = record s {
  log = s.log ++ (name, p) ∷ [];
  total_load_count = wadd s.total_load_count p.load_count;
  total_store_count = wadd s.total_store_count p.store_count;
  global_counter_event_total = s.global_counter_event_total + 1;
  region_counter_event_total = s.region_counter_event_total + 1;
  indirect_function_counter_offset =
      if indirect
      then s.indirect_function_counter_offset + 1
      else s.indirect_function_counter_offset;
}

-- insertDynamicLoopEvent: the call, and what insertCustomEvent does.
unfoldable pub insert_dynamic_loop_event :
    Options → List ℕ → Option ℕ → ProfileData → Bool → Pass → Pass
unfolding insert_custom_event
insert_dynamic_loop_event o name block p indirect s = insert_custom_event name p indirect (
    if o.apply_counters
    then insert block (increment_sf p.pragma_region_id p.post_dom_set_id) s
    else s)

-- The blocks of a set of loops, each list with its scale factor.
unfoldable pub tag_pairs :
    Options → Code → List (List ℕ × ℕ) → ProfileData → Pass → Option (ProfileData × Pass)
unfolding tag_blocks
tag_pairs o code [] p s = some (p, s)
tag_pairs o code ((bs, sf) ∷ pairs) p s = elim (tag_blocks o code bs sf p s) [
  | none ↦ none
  | some (q, t) ↦ tag_pairs o code pairs q t
]

abbrev pub first_of : List ℕ → Option ℕ
first_of [] = none
first_of (b ∷ bs) = some b

abbrev pub sizes : List (List ℕ × ℕ) → ℕ
sizes [] = 0
sizes ((bs, sf) ∷ pairs) = length bs + sizes pairs

-- insertPostDomSetEvents and insertDynamicLoopCounter, at a counter that is to be inserted.
unfoldable pub insert_event : Options → Code → List ℕ → ℕ → ℕ → Bool → Counter → Pass → Option Pass
unfolding tag_blocks tag_pairs event_profile insert_counter_array_inc insert_custom_event
    insert_dynamic_loop_event
insert_event o code name region group indirect (shared bs) s =
    elim (tag_blocks o code bs 1 (event_profile o region group indirect s) s) [
      | none ↦ none
      | some (p, t) ↦
          let u =
            insert_custom_event name p indirect (insert_counter_array_inc o (first_of bs) p t) in
          some (record u { basic_block_count = u.basic_block_count + length bs })
    ]
insert_event o code name region group indirect (hoisted pairs) s =
    elim (tag_pairs o code pairs (event_profile o region group indirect s) s) [
      | none ↦ none
      | some (p, t) ↦
          let u = insert_custom_event name p indirect (insert_counter_array_inc o none p t) in
          some (record u { basic_block_count = u.basic_block_count + sizes pairs })
    ]
insert_event o code name region group indirect (dynamic bs) s =
    elim (tag_blocks o code bs 1 (event_profile o region group indirect s) s) [
      | none ↦ none
      | some (p, t) ↦ some (insert_dynamic_loop_event o name none p indirect t)
    ]

unfoldable pub insert_events :
    Options → Code → List ℕ → ℕ → ℕ → Bool → List Counter → Pass → Option Pass
unfolding insert_event
insert_events o code name region group indirect [] s = some s
insert_events o code name region group indirect (c ∷ cs) s =
    elim (insert_event o code name region group indirect c s) [
      | none ↦ none
      | some t ↦ insert_events o code name region group indirect cs t
    ]
