-- ===== src/Region.antt =====
-- The counters of a whole region: _instrumentDynamicLoops of src/zray_loop.cc, and the calls in
-- InstrumentPragmaRegion of src/zray_pass.cc that place counters, up to the timing events.
pub mod Conserved
pub mod Ending
pub mod Lost
pub mod Whole
mod Tests
use zray.Base.{
  ℕ, zero, suc, ◌+◌, Bool, true, false, not, ◌&&◌, Option, none, some, List, [], ◌∷◌, ◌++◌, ltb,
  ◌==◌, if◌then◌else◌,
}
use zray.Loops.{
  Facts, Loops, BackedgeCount, could_not_compute, constant, symbolic, NodeData, Tree, node, Trees,
  no_trees, trees, color_trees,
}
use zray.Hoist.{
  Counter, shared, hoisted, dynamic, Env, State, Outcome, Sorted, get_unique_loop_bb, sort_blocks,
  instrument_post_dom_set, instrument_set,
}

-- ScalarEvolution knows an expression for the backedge count that is the same in each round.
abbrev pub is_countable : Facts → Bool
is_countable f = elim f.backedge_count [
  | could_not_compute ↦ false
  | constant n ↦ f.count_is_invariant
  | symbolic ↦ f.count_is_invariant
]

abbrev pub is_empty : List ℕ → Bool
is_empty [] = true
is_empty (x ∷ xs) = false

-- insertDynamicLoopCounter: it hoists a counter unless there are no blocks, or ScalarEvolution
-- loses the loop's count.
unfoldable pub insert_dynamic_loop_counter : Env → Facts → List ℕ → State → Bool × State
insert_dynamic_loop_counter env f blocks s =
    if not (is_empty blocks) && env.regains f.header
    then (true, record s { counters = s.counters ++ dynamic blocks ∷ [] })
    else (false, s)

-- The blocks that get counters of their own when the hoisting has failed: the loop's blocks are
-- sought in the region once more.
unfoldable pub fall_back : Facts → Loops → Sorted → State → List ℕ × State
unfolding sort_blocks get_unique_loop_bb
fall_back f subs sorted s =
    let again = sort_blocks (λ b. false) (get_unique_loop_bb f subs) s.pragma_blocks in
    if is_empty sorted.passed
    then (sorted.others, s)
    else (again.others, record s { pragma_blocks = again.remaining })

-- _instrumentDynamicLoops on a node, up to its children
unfoldable pub instrument_dynamic_loop : Env → NodeData → State → State
unfolding insert_dynamic_loop_counter fall_back instrument_post_dom_set sort_blocks
    get_unique_loop_bb
instrument_dynamic_loop env d s =
    let sorted =
      sort_blocks (λ b. is_countable d.facts && env.post b d.facts.header)
        (get_unique_loop_bb d.facts d.subloops) s.pragma_blocks in
    let (was_hoisted, s1) =
      insert_dynamic_loop_counter env d.facts sorted.passed
        (record s { pragma_blocks = sorted.remaining }) in
    let (npd, s2) =
      if was_hoisted then (sorted.others, s1) else fall_back d.facts d.subloops sorted s1 in
    if d.set_color == 0 then instrument_post_dom_set env npd s2 else s

-- instrumentDynamicLoops, on the children of a node
unfoldable mutual
  unfolding instrument_dynamic_loop

  pub instrument_dynamic_tree : Env → Tree → State → State
  instrument_dynamic_tree env (node d kids) s =
      instrument_dynamic_loops env kids (instrument_dynamic_loop env d s)

  pub instrument_dynamic_loops : Env → Trees → State → State
  instrument_dynamic_loops env no_trees s = s
  instrument_dynamic_loops env (trees t ts) s =
      instrument_dynamic_loops env ts (instrument_dynamic_tree env t s)

-- insertPostDomSetEvents for the blocks of a set of loops
abbrev pub with_counter : Outcome Trees → State
with_counter o = record o.state { counters = o.state.counters ++ hoisted o.header_pd_blocks ∷ [] }

-- for (j = 1; j < LOOP_SF_SET; j++): LOOP_SF_SET may grow under way. `none` is a null pointer, or
-- no fuel.
unfoldable pub instrument_sets : ℕ → Env → ℕ → Trees → State → Option (Trees × State)
unfolding instrument_set
instrument_sets zero env j ts s = none
instrument_sets (suc fuel) env j ts s =
    let next : Option (Trees × State) = elim (instrument_set env none j ts s) [
      | none ↦ none
      | some o ↦ instrument_sets fuel env (j + 1) o.tree (with_counter o)
    ] in
    if ltb j s.loop_sf_set then next else some (ts, s)

unfoldable mutual
  pub nodes : Tree → ℕ
  nodes (node d kids) = 1 + nodes_in kids

  pub nodes_in : Trees → ℕ
  nodes_in no_trees = 0
  nodes_in (trees t ts) = nodes t + nodes_in ts

-- The loops of a region, coloured and instrumented.
unfoldable pub instrument_loops : Env → Trees → List ℕ → Option State
unfolding instrument_sets instrument_dynamic_loops color_trees nodes_in
instrument_loops env ts pragma =
    let (colored, next) = color_trees 0 1 ts in
    elim (instrument_sets (nodes_in ts + 1) env 1 colored
      (record { pragma_blocks = pragma; loop_sf_set = next; counters = [] })) [
        | none ↦ none
        | some (ts1, s) ↦ some (instrument_dynamic_loops env ts1 s)
      ]

-- InstrumentPragmaRegion, for the blocks `pragma` of a region and the tree of its loops: the blocks
-- that no loop has claimed are instrumented last.
unfoldable pub instrument_region : Env → Trees → List ℕ → Option (List Counter)
unfolding instrument_loops instrument_post_dom_set
instrument_region env ts pragma =
    let s0 : State = record { pragma_blocks = pragma; loop_sf_set = 1; counters = [] } in
    let finish = λ (s : State). (instrument_post_dom_set env s.pragma_blocks s).counters in
    if env.apply_loop_hoisting
    then elim (instrument_loops env ts pragma) [ none ↦ none | some s ↦ some (finish s) ]
    else some (finish s0)
