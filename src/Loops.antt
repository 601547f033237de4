-- ===== src/Loops.antt =====
-- Loops in src/zray_loop.cc: trip counts, the tree of a region's loops, and its sets of loops that
-- share a hoisted counter. What LLVM knows of a loop is the record `Facts`.
pub mod Coloring
use zray.Base.{
  ℕ, zero, suc, ◌+◌, ◌-◌, ◌^◌, Bool, true, false, not, ◌&&◌, Option, none, some, List, [], ◌∷◌, leb,
  ◌==◌, if◌then◌else◌,
}

-- The backedge-taken count of ScalarEvolution: SCEVCouldNotCompute, a SCEVConstant with the number
-- that strtoumax reads from its text, or any other expression.
pub data BackedgeCount : Type 0 where
  could_not_compute : BackedgeCount
  constant : ℕ → BackedgeCount
  symbolic : BackedgeCount

pub record Facts : Type 0 where
  pub header : ℕ
  pub blocks : List ℕ
  -- hasLoopInvariantBackedgeTakenCount
  pub has_invariant_count : Bool
  pub backedge_count : BackedgeCount
  -- isLoopInvariant of that count
  pub count_is_invariant : Bool

mutual
  pub data Loop : Type 0 where
    loop : Facts → Loops → Loop

  pub data Loops : Type 0 where
    no_loops : Loops
    loops : Loop → Loops → Loops

-- getLoopTripCount: the result, and what *count holds then. `none` is the failed assertion.
unfoldable pub get_loop_trip_count : Facts → ℕ → Option (Bool × ℕ)
get_loop_trip_count f count =
    if not f.has_invariant_count then some (false, count) else elim f.backedge_count [
      | could_not_compute ↦ some (false, 0)
      | constant n ↦ if n == 2 ^ 64 - 1 then none else some (true, n + 1)
      | symbolic ↦ some (false, count)
    ]

-- LoopTreeNode with its LoopData; the subloops are those of the Loop that it points to.
pub record NodeData : Type 0 where
  pub facts : Facts
  pub subloops : Loops
  pub set_color : ℕ
  pub scale_factor : ℕ

-- A list of nodes is a ChildList. That of the root, whose loop is null and whose colour is 0,
-- stands for the tree.
mutual
  pub data Tree : Type 0 where
    node : NodeData → Trees → Tree

  pub data Trees : Type 0 where
    no_trees : Trees
    trees : Tree → Trees → Trees

unfoldable pub append_trees : Trees → Trees → Trees
append_trees no_trees us = us
append_trees (trees t ts) us = trees t (append_trees ts us)

-- Both lists, unless one of them could not be built.
abbrev pub both : Option Trees → Option Trees → Option Trees
both none us = none
both (some ts) none = none
both (some ts) (some us) = some (append_trees ts us)

-- LoopData(L), with the scale factor that getLoopTripCount leaves, and the children.
abbrev pub new_node : Facts → Loops → Option (Bool × ℕ) → Option Trees → Option Trees
new_node f subs none kids = none
new_node f subs (some (known, sf)) none = none
new_node f subs (some (known, sf)) (some kids) = some (
    trees (node (record { facts = f; subloops = subs; set_color = 0; scale_factor = sf }) kids)
      no_trees)

-- _createLoopTree: what it adds to the parent's children. `start` is the offset of a block's
-- first instruction, and a loop counts if its header starts from `b` to `e`.
unfoldable mutual
  unfolding append_trees get_loop_trip_count

  pub create_loop_node : (ℕ → ℕ) → ℕ → ℕ → Loop → Option Trees
  create_loop_node start b e (loop f subs) =
      let below = create_loop_nodes start b e subs in
      if leb b (start f.header) && leb (start f.header) e
      then new_node f subs (get_loop_trip_count f 0) below
      else below

  pub create_loop_nodes : (ℕ → ℕ) → ℕ → ℕ → Loops → Option Trees
  create_loop_nodes start b e no_loops = some no_trees
  create_loop_nodes start b e (loops l ls) =
      both (create_loop_node start b e l) (create_loop_nodes start b e ls)

-- colorLoopTreeSF on a node whose parent has colour `parent`, with LOOP_SF_SET `next`.
unfoldable pub color_of : ℕ → ℕ → NodeData → ℕ × ℕ
color_of parent next d =
    if d.scale_factor == 0
    then (0, next)
    else if not (parent == 0)
    then (parent, next)
    else (next, next + 1)

unfoldable mutual
  unfolding color_of

  pub color_tree : ℕ → ℕ → Tree → Tree × ℕ
  color_tree parent next (node d kids) =
      let (color, next1) = color_of parent next d in
      let (kids1, next2) = color_trees color next1 kids in
      (node (record d { set_color = color }) kids1, next2)

  pub color_trees : ℕ → ℕ → Trees → Trees × ℕ
  color_trees parent next no_trees = (no_trees, next)
  color_trees parent next (trees t ts) =
      let (t1, next1) = color_tree parent next t in
      let (ts1, next2) = color_trees parent next1 ts in (trees t1 ts1, next2)

-- findLoopTreeSet, for an id other than the root's 0
abbrev pub or_else {ℓ} : {A : Type ℓ} → Option A → Option A → Option A
or_else none b = b
or_else (some a) b = some a

unfoldable mutual
  pub find_loop_tree_set : ℕ → Tree → Option Tree
  find_loop_tree_set id (node d kids) =
      let below = find_in_children id kids in
      if d.set_color == id then some (node d kids) else below

  pub find_in_children : ℕ → Trees → Option Tree
  find_in_children id no_trees = none
  find_in_children id (trees t ts) = or_else (find_loop_tree_set id t) (find_in_children id ts)

-- recolorSFLoopSet, with LOOP_SF_SET `new`
unfoldable mutual
  pub recolor : ℕ → ℕ → Tree → Tree
  recolor old new (node d kids) =
      let kids1 = recolor_all old new kids in
      if d.set_color == old then node (record d { set_color = new }) kids1 else node d kids

  pub recolor_all : ℕ → ℕ → Trees → Trees
  recolor_all old new no_trees = no_trees
  recolor_all old new (trees t ts) = trees (recolor old new t) (recolor_all old new ts)
