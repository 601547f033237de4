-- ===== src/ModulePass.antt =====
-- The second half of runOnModule of src/zray_pass.cc: the regions that were found are instrumented,
-- then the clones of the functions that they call, and the arrays of counters get their size.
pub mod Events
pub mod Slots
pub mod Apart
pub mod Regions
pub mod Clones
pub mod Whole
mod Tests
use zray.Base.{
  ℕ, zero, suc, ◌+◌, ◌-◌, Bool, true, false, not, ◌&&◌, ◌||◌, Option, none, some, List, [], ◌∷◌,
  ltb, ◌==◌, if◌then◌else◌, length,
}
use zray.Base.Word.{wsub}
use zray.Loops.{Trees}
use zray.Hoist.{Env, Counter, remove}
use zray.Region.{instrument_region}
use zray.Host.{find}
use zray.Emit.{
  Options, Code, Call, start_timing, end_timing, thread_exit, register_host, Pass, process_calls,
  insert, insert_events, first_of,
}

-- PragmaRegion, with what the pass asks of its function: the name, whether it begins with ".omp",
-- the blocks in orderBasicBlocks' order with their sizes, the entry block, the blocks that end in
-- a return, and the loops as createLoopTree finds them.
pub record PragmaRegion : Type 0 where
  pub pragma_region_id : ℕ
  pub group_id : ℕ
  pub bb_list : List ℕ
  pub name : List ℕ
  pub is_omp : Bool
  pub ordered_cfg : List (ℕ × ℕ)
  pub entry : ℕ
  pub returning : List ℕ
  pub env : Env
  pub loop_tree : Trees

-- getBBOffset: the end of a block of the function, counted in instructions.
unfoldable pub get_bb_offset : List (ℕ × ℕ) → ℕ → ℕ
get_bb_offset [] block = 0
get_bb_offset ((b, size) ∷ blocks) block =
    if b == block then size else size + get_bb_offset blocks block

abbrev pub size_of : List (ℕ × ℕ) → ℕ → ℕ
size_of [] block = 0
size_of ((b, size) ∷ blocks) block = if b == block then size else size_of blocks block

-- b, e, beginBlock and endBlock of InstrumentPragmaRegion; none is a null pointer.
pub record Bounds : Type 0 where
  pub first : ℕ
  pub last : ℕ
  pub begin_block : Option ℕ
  pub end_block : Option ℕ

-- The body of the loop that widens the bounds
unfoldable pub widen : List (ℕ × ℕ) → ℕ → Bounds → Bounds
unfolding get_bb_offset
widen cfg bb r =
    let end_offset = get_bb_offset cfg bb in
    let begin_offset = wsub end_offset (size_of cfg bb) in
    let r1 =
      if ltb r.last end_offset then record r { last = end_offset; end_block = some bb } else r in
    if ltb begin_offset r1.first
    then record r1 { first = begin_offset; begin_block = some bb }
    else r1

unfoldable pub widen_all : List (ℕ × ℕ) → List ℕ → Bounds → Bounds
unfolding widen
widen_all cfg [] r = r
widen_all cfg (bb ∷ bbs) r = widen_all cfg bbs (widen cfg bb r)

unfoldable pub region_bounds : List (ℕ × ℕ) → List ℕ → Bounds
unfolding widen_all
region_bounds cfg [] = record { first = 0; last = 0; begin_block = none; end_block = none }
region_bounds cfg (bb ∷ bbs) =
    let offset = get_bb_offset cfg bb in
    widen_all cfg (bb ∷ bbs)
      (record { first = offset; last = offset; begin_block = none; end_block = none })

abbrev pub timing : Option ℕ → Call → Pass → Pass
timing block call s = insert block call (record s { timing_event_count = s.timing_event_count + 1 })

-- The exits of a microtask
abbrev pub end_at_returns : ℕ → List ℕ → Pass → Pass
end_at_returns region [] s = s
end_at_returns region (b ∷ bs) s = end_at_returns region bs (timing (some b) (end_timing region) s)

-- The timing events at the end of InstrumentPragmaRegion.
unfoldable pub insert_timing : Options → PragmaRegion → Bool → Pass → Pass
unfolding region_bounds
insert_timing o pr true s =
    if pr.is_omp
    then timing (some pr.entry) (start_timing pr.pragma_region_id)
        (end_at_returns pr.pragma_region_id pr.returning s)
    else s
insert_timing o pr false s =
    let bounds = region_bounds pr.ordered_cfg pr.bb_list in
    let last : Option ℕ = elim bounds.end_block [ none ↦ bounds.begin_block | some b ↦ some b ] in
    let started = timing bounds.begin_block (start_timing pr.pragma_region_id) s in
    if o.full_scan then timing last (end_timing pr.pragma_region_id) started else started

-- The head of InstrumentPragmaRegion: the exit handler, the registration, and a count from 0 on.
unfoldable pub open_pragma_region : Options → PragmaRegion → Bool → Pass → Pass
open_pragma_region o pr indirect s =
    let handled = insert (some pr.entry) (thread_exit o.enable_host_monitor) s in
    let registered =
      if o.enable_host_monitor then insert (some pr.entry) register_host handled else handled in
    let begun = if not indirect || pr.is_omp then registered else s in
    record begun { region_counter_event_total = 0 }

-- Its tail: the most counters that a region has.
unfoldable pub close_pragma_region : Options → PragmaRegion → Bool → Pass → Pass
unfolding insert_timing
close_pragma_region o pr indirect s =
    let t = insert_timing o pr indirect s in
    if not indirect && ltb t.region_counter_event_max t.region_counter_event_total
    then record t { region_counter_event_max = t.region_counter_event_total }
    else t

-- InstrumentPragmaRegion; `none` is std::terminate.
unfoldable pub instrument_pragma_region : Options → Code → PragmaRegion → Bool → Pass → Option Pass
unfolding open_pragma_region close_pragma_region instrument_region insert_events
instrument_pragma_region o code pr indirect s =
    let place : Option Pass = elim (instrument_region pr.env pr.loop_tree pr.bb_list) [
      | none ↦ none
      | some counters ↦
          elim (insert_events o code pr.name pr.pragma_region_id pr.group_id indirect counters
            (open_pragma_region o pr indirect s)) [
              | none ↦ none
              | some t ↦ some (close_pragma_region o pr indirect t)
            ]
    ] in
    elim pr.bb_list [ [] ↦ some s | b ∷ bs ↦ place ]

-- The calls of the blocks of all regions, before any of them is instrumented.
unfoldable pub process_blocks : Options → Code → ℕ → List ℕ → Pass → Pass
unfolding process_calls
process_blocks o code region [] s = s
process_blocks o code region (b ∷ bs) s =
    process_blocks o code region bs (process_calls o code region (code.callees b) s)

unfoldable pub process_regions : Options → Code → ℕ → List PragmaRegion → Pass → Pass
unfolding process_blocks
process_regions o code i [] s = s
process_regions o code i (pr ∷ prs) s =
    process_regions o code (i + 1) prs (process_blocks o code i pr.bb_list s)

unfoldable pub instrument_regions : Options → Code → List PragmaRegion → Pass → Option Pass
unfolding instrument_pragma_region
instrument_regions o code [] s = some s
instrument_regions o code (pr ∷ prs) s = elim (instrument_pragma_region o code pr false s) [
  | none ↦ none
  | some t ↦ instrument_regions o code prs t
]

-- The module: its code, the functions that have a body, what a clone of one looks like to the
-- pass, and PRList.
pub record Module : Type 0 where
  pub code : Code
  pub functions : List ℕ
  pub clone_body : ℕ → PragmaRegion
  pub pr_list : List PragmaRegion

-- The state of the loop over clones, with maxIndirect.
pub record Cloning : Type 0 where
  pub pass : Pass
  pub max_indirect : ℕ

-- erase(find(…)) and the two updates of maxima behind a clone.
unfoldable pub finish_clone : ℕ → Cloning → Cloning
unfolding remove
finish_clone key c =
    let s = record c.pass { pending_function_clones = remove key c.pass.pending_function_clones } in
    let offset = s.indirect_function_counter_offset in
    let raised =
      if ltb s.region_counter_event_max offset
      then record s { region_counter_event_max = offset }
      else s in
    if ltb c.max_indirect offset
    then record { pass = raised; max_indirect = offset }
    else record { pass = s; max_indirect = c.max_indirect }

-- The body of the inner loop; `none` is std::terminate, or a key that is not in the map.
unfoldable pub instrument_clone : Options → Module → ℕ → Cloning → Option Cloning
unfolding finish_clone instrument_pragma_region find
instrument_clone o m key c =
    let s = record c.pass { indirect_function_counter_offset = c.pass.region_counter_event_max } in
    elim (find key s.clone_function_map) [
      | none ↦ none
      | some (clone, region) ↦
          elim (instrument_pragma_region o m.code
            (record (m.clone_body key) { pragma_region_id = region; group_id = 0 }) true s) [
              | none ↦ none
              | some t ↦ some (finish_clone key (record c { pass = t }))
            ]
    ]

-- for (auto key : tmpVec)
unfoldable pub instrument_clones : Options → Module → List ℕ → Cloning → Option Cloning
unfolding instrument_clone
instrument_clones o m [] c = some c
instrument_clones o m (key ∷ keys) c = elim (instrument_clone o m key c) [
  | none ↦ none
  | some d ↦ instrument_clones o m keys d
]

-- while (!PendingFunctionClones.empty()), on a copy of the list; `none` is also no fuel.
unfoldable pub clone_rounds : ℕ → Options → Module → List ℕ → Cloning → Option Cloning
unfolding instrument_clones
clone_rounds fuel o m [] c = some c
clone_rounds zero o m (key ∷ keys) c = none
clone_rounds (suc fuel) o m (key ∷ keys) c = elim (instrument_clones o m (key ∷ keys) c) [
  | none ↦ none
  | some d ↦ clone_rounds fuel o m d.pass.pending_function_clones d
]

-- What the pass leaves: its state, CountArraySize and ROI_Count.
pub record Finished : Type 0 where
  pub pass : Pass
  pub count_array_size : ℕ
  pub roi_count : ℕ

abbrev pub new_pass : Pass
new_pass = record {
  global_counter_event_total = 0;
  region_counter_event_total = 0;
  region_counter_event_max = 0;
  indirect_function_counter_offset = 0;
  timing_event_count = 0;
  basic_block_count = 0;
  total_load_count = 0;
  total_store_count = 0;
  clone_function_map = [];
  cloned_function_names = [];
  pending_function_clones = [];
  log = [];
  calls = [];
}

-- The loop over clones, if there is one. A function is cloned once, so that as many rounds as the
-- module has functions are enough.
unfoldable pub instrument_pending : Options → Module → Pass → Option Cloning
unfolding clone_rounds
instrument_pending o m s =
    let start : Cloning = record { pass = s; max_indirect = 0 } in
    if o.apply_function_cloning
    then clone_rounds (length m.functions) o m s.pending_function_clones start
    else some start

abbrev pub with_sizes : ℕ → Cloning → Finished
with_sizes regions c = record {
  pass = c.pass;
  count_array_size =
      if ltb c.pass.region_counter_event_max c.max_indirect
      then c.max_indirect
      else c.pass.region_counter_event_max;
  roi_count = regions;
}

-- runOnModule, from the list of regions on.
unfoldable pub run_module : Options → Module → Option Finished
unfolding process_regions instrument_regions instrument_pending
run_module o m =
    elim (instrument_regions o m.code m.pr_list (process_regions o m.code 0 m.pr_list new_pass)) [
      | none ↦ none
      | some s ↦ elim (instrument_pending o m s) [
        | none ↦ none
        | some c ↦ some (with_sizes (length m.pr_list) c)
      ]
    ]
