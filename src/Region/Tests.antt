-- ===== src/Region/Tests.antt =====
-- The instrumentation of a region with three loops, and the theorems' instances.
use zray.Base.{◌<◌, ◌≡◌, refl, true, false, ◌||◌, ◌&&◌, not, some, [], ◌∷◌, ◌==◌, leb, arith}
use zray.Blocks.{create_post_dom_sets, post_dom_sets, split_off}
use zray.Loops.{
  Facts, loop, Loops, no_loops, loops, constant, symbolic, create_loop_nodes, color_trees,
  find_in_children, NodeData, node, Trees, no_trees, trees,
}
use zray.Loops.Coloring.{Consecutive, tops_in, color_trees-Consecutive}
use zray.Hoist.Search.{IsNodeOf, color_trees-IsNodeOf}
use zray.Hoist.{shared, hoisted, dynamic, Env, State, sort_blocks, get_unique_loop_bb}
use zray.Hoist.Conserved.{counted_by, total}
use zray.Region.{instrument_dynamic_loop, instrument_region}
use zray.Region.Whole.{CountsAll, instrument_region-CountsAll}
use zray.Region.Lost.{instrument_dynamic_loop-loses}

-- Blocks 1 to 4 run 10 times, 2 and 3 of them 5 times each time; 6 and 7 are counted at run time.
abbrev inner : Facts
inner = record {
  header = 2;
  blocks = 2 ∷ 3 ∷ [];
  has_invariant_count = true;
  backedge_count = constant 4;
  count_is_invariant = true;
}

abbrev outer : Facts
outer = record inner { header = 1; blocks = 1 ∷ 2 ∷ 3 ∷ 4 ∷ []; backedge_count = constant 9 }

abbrev open_loop : Facts
open_loop = record inner { header = 6; blocks = 6 ∷ 7 ∷ []; backedge_count = symbolic }

abbrev forest : Loops
forest =
    loops (loop outer (loops (loop inner no_loops) no_loops))
      (loops (loop open_loop no_loops) no_loops)

abbrev tree : Trees
tree =
    trees
      (node
        (record {
          facts = outer;
          subloops = loops (loop inner no_loops) no_loops;
          set_color = 0;
          scale_factor = 10;
        })
        (trees
          (node (record { facts = inner; subloops = no_loops; set_color = 0; scale_factor = 5 })
            no_trees)
          no_trees))
      (trees
        (node (record { facts = open_loop; subloops = no_loops; set_color = 0; scale_factor = 0 })
          no_trees)
        no_trees)

tree_of_forest : create_loop_nodes (λ b. b) 0 7 forest ≡ some tree
unfolding create_loop_nodes
tree_of_forest = refl

-- All blocks lie on one path, but 4 and 7 are not always reached.
abbrev env : Env
env = record {
  apply_post_dom_sets = true;
  apply_loop_hoisting = true;
  post = λ x b. leb b x && not (x == 4) && not (x == 7) || x == b;
  dom = λ b x. leb b x;
  regains = λ h. true;
}

-- The inner blocks carry 5 * 10, the outer one 10.
region_counters :
    instrument_region env tree (0 ∷ 1 ∷ 2 ∷ 3 ∷ 4 ∷ 5 ∷ 6 ∷ 7 ∷ [])
    ≡ some (
        shared (4 ∷ [])
        ∷ hoisted ((1 ∷ [], 10) ∷ (2 ∷ 3 ∷ [], 50) ∷ [])
        ∷ dynamic (6 ∷ [])
        ∷ shared (7 ∷ [])
        ∷ shared (0 ∷ 5 ∷ [])
        ∷ [])
unfolding instrument_region create_post_dom_sets post_dom_sets split_off
region_counters = refl

instrument_region-CountsAll_example :
    CountsAll
      (0 ∷ 1 ∷ 2 ∷ 3 ∷ 4 ∷ 5 ∷ 6 ∷ 7 ∷ [])
      (instrument_region env tree (0 ∷ 1 ∷ 2 ∷ 3 ∷ 4 ∷ 5 ∷ 6 ∷ 7 ∷ []))
instrument_region-CountsAll_example =
    instrument_region-CountsAll env tree (0 ∷ 1 ∷ 2 ∷ 3 ∷ 4 ∷ 5 ∷ 6 ∷ 7 ∷ []) (λ h. refl)

color_trees-Consecutive_example :
    Consecutive 1 (tops_in 0 (color_trees 0 1 tree).0) (color_trees 0 1 tree).1
color_trees-Consecutive_example = color_trees-Consecutive tree

-- The loop at 6, whose count ScalarEvolution loses.
abbrev losing : Env
losing = record env { regains = λ h. false }

abbrev open_node : NodeData
open_node = record { facts = open_loop; subloops = no_loops; set_color = 0; scale_factor = 0 }

abbrev two_left : State
two_left = record { pragma_blocks = 6 ∷ 7 ∷ []; loop_sf_set = 1; counters = [] }

instrument_dynamic_loop-loses_example :
    total 7 (instrument_dynamic_loop losing open_node two_left) ≡ counted_by 7 []
unfolding sort_blocks get_unique_loop_bb zray.Blocks.Partition.occurrences
instrument_dynamic_loop-loses_example =
    instrument_dynamic_loop-loses losing open_node two_left 7 refl refl refl refl (omega arith)

one_color : 1 < (color_trees 0 1 tree).1
unfolding color_trees
one_color = omega arith

color_trees-IsNodeOf_example : IsNodeOf 1 (find_in_children 1 (color_trees 0 1 tree).0)
color_trees-IsNodeOf_example = color_trees-IsNodeOf tree 1 (omega arith) one_color
