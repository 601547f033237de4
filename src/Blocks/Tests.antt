-- ===== src/Blocks/Tests.antt =====
-- Sets of blocks of a small function, and the theorems' instances.
use zray.Base.{ℕ, ◌≡◌, refl, true, false, ◌||◌, none, some, List, [], ◌∷◌, ◌==◌, All, arith}
use zray.Base.Word.{wadd, wmul}
use zray.Profile.{new_profile}
use zray.Profile.Metrics.{load_count}
use zray.Record.{Inst}
use zray.Record.Codes.{Opcode}
use zray.Record.Weights.{counted}
use zray.Blocks.{Relation, split_off, post_dom_sets, create_post_dom_sets, record_tag_blocks}
use zray.Blocks.Counting.{Recorded, blocks_weight, record_tag_blocks_lem}
use zray.Blocks.Order.{Together, NotBoth, create_post_dom_sets-ordered}
use zray.Blocks.Partition.{
  all_blocks, occurrences, SharesCounter, Separate, create_post_dom_sets_lem,
  create_post_dom_sets-Separate,
}

-- Block 0 branches to 1 or 2, which meet in 3.
abbrev post : Relation
post x b = x == 3 || x == b

abbrev dom : Relation
dom b x = b == 0 || b == x

diamond :
    create_post_dom_sets true post dom (0 ∷ 1 ∷ 2 ∷ 3 ∷ [])
    ≡ (0 ∷ 3 ∷ []) ∷ (1 ∷ []) ∷ (2 ∷ []) ∷ []
unfolding create_post_dom_sets post_dom_sets split_off
diamond = refl

create_post_dom_sets_lem_example :
    ((y : ℕ)
      → occurrences y (all_blocks (create_post_dom_sets true post dom (0 ∷ 1 ∷ 2 ∷ 3 ∷ [])))
        ≡ occurrences y (0 ∷ 1 ∷ 2 ∷ 3 ∷ []))
    × All (SharesCounter post dom) (create_post_dom_sets true post dom (0 ∷ 1 ∷ 2 ∷ 3 ∷ []))
create_post_dom_sets_lem_example = create_post_dom_sets_lem true post dom (0 ∷ 1 ∷ 2 ∷ 3 ∷ [])

create_post_dom_sets-Separate_example :
    Separate true post dom (create_post_dom_sets true post dom (0 ∷ 1 ∷ 2 ∷ 3 ∷ []))
create_post_dom_sets-Separate_example =
    create_post_dom_sets-Separate true post dom (0 ∷ 1 ∷ 2 ∷ 3 ∷ [])

-- The same blocks with the end of the diamond in front.
upside_down :
    create_post_dom_sets true post dom (3 ∷ 0 ∷ 1 ∷ 2 ∷ [])
    ≡ (3 ∷ []) ∷ (0 ∷ []) ∷ (1 ∷ []) ∷ (2 ∷ []) ∷ []
unfolding create_post_dom_sets post_dom_sets split_off
upside_down = refl

create_post_dom_sets-ordered_example :
    Together 0 3 (create_post_dom_sets true post dom (0 ∷ 3 ∷ 1 ∷ 2 ∷ []))
    × All (NotBoth 0 3) (create_post_dom_sets true post dom (3 ∷ 0 ∷ 1 ∷ 2 ∷ []))
unfolding occurrences
create_post_dom_sets-ordered_example =
    create_post_dom_sets-ordered post dom 0 3 (1 ∷ 2 ∷ []) refl refl refl refl

abbrev heap_load : Inst
heap_load = record {
  opcode = Opcode.load;
  may_read = true;
  may_write = false;
  access_size = 8;
  pointer_ops = 1;
  global_ops = 0;
  large_consts = 0;
  large_const_bytes = 0;
  on_stack = false;
  is_tool_call = false;
  intrinsic = none;
  const_size = none;
}

abbrev branch : Inst
branch = record heap_load { opcode = Opcode.br; may_read = false; access_size = 0; pointer_ops = 0 }

abbrev two_blocks : List (List Inst)
two_blocks = (heap_load ∷ branch ∷ []) ∷ (heap_load ∷ heap_load ∷ []) ∷ []

two_blocks-Recorded : All (All Recorded) two_blocks
unfolding zray.Record.Codes.group_of
two_blocks-Recorded = (((refl, refl), ((refl, refl), tt)), (((refl, refl), ((refl, refl), tt)), tt))

record_tag_blocks_lem_example :
    counted load_count (record_tag_blocks two_blocks 100 (new_profile false))
    ≡ some (wadd 0 (wmul 100 (blocks_weight load_count two_blocks)))
record_tag_blocks_lem_example =
    record_tag_blocks_lem load_count two_blocks 100 (new_profile false) two_blocks-Recorded
      (omega arith)
