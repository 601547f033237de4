-- ===== src/Hoist.antt =====
-- Which counter each block of a region gets: instrumentSFLoopSet and instrumentDynamicLoops of
-- src/zray_loop.cc, and the part of the region's instrumentation in src/zray_pass.cc that calls them.
pub mod Conserved
pub mod Colors
pub mod Progress
pub mod Search
use zray.Base.{
  ℕ, zero, suc, ◌+◌, ◌^◌, Bool, true, false, not, ◌&&◌, ◌||◌, Option, none, some, List, [], ◌∷◌,
  ◌++◌, map, ltb, ◌==◌, if◌then◌else◌,
}
use zray.Base.Word.{wmul}
use zray.Blocks.{Relation, create_post_dom_sets}
use zray.Loops.{
  Facts, Loop, loop, Loops, no_loops, loops, BackedgeCount, could_not_compute, constant, symbolic,
  NodeData, Tree, node, Trees, no_trees, trees, recolor, color_trees,
}

-- A counter, with the blocks whose profile it carries: a set of equivalent blocks, the blocks of a
-- set of loops with their scale factors, or those of a loop that is counted at run time.
pub data Counter : Type 0 where
  shared : List ℕ → Counter
  hoisted : List (List ℕ × ℕ) → Counter
  dynamic : List ℕ → Counter

-- What the passes ask of LLVM, and their options: ApplyPostDomSets, ApplyLoopHoisting, the
-- dominator trees, and whether ScalarEvolution still knows the count of the loop with a given
-- header after SplitEdge.
pub record Env : Type 0 where
  pub apply_post_dom_sets : Bool
  pub apply_loop_hoisting : Bool
  pub post : Relation
  pub dom : Relation
  pub regains : ℕ → Bool

-- pragmaBlocks, LOOP_SF_SET and the counters that were inserted.
pub record State : Type 0 where
  pub pragma_blocks : List ℕ
  pub loop_sf_set : ℕ
  pub counters : List Counter

abbrev pub contains : ℕ → List ℕ → Bool
contains x [] = false
contains x (y ∷ ys) = y == x || contains x ys

-- pragmaBlocks.erase(search)
unfoldable pub remove : ℕ → List ℕ → List ℕ
remove x [] = []
remove x (y ∷ ys) = let rest = remove x ys in if y == x then ys else y ∷ rest

-- subloop->contains(bb), for some direct subloop
abbrev pub in_subloops : ℕ → Loops → Bool
in_subloops b no_loops = false
in_subloops b (loops (loop f subs) ls) = contains b f.blocks || in_subloops b ls

abbrev pub outside : Loops → List ℕ → List ℕ
outside subs [] = []
outside subs (b ∷ bs) = if in_subloops b subs then outside subs bs else b ∷ outside subs bs

-- getUniqueLoopBB
unfoldable pub get_unique_loop_bb : Facts → Loops → List ℕ
get_unique_loop_bb f subs = outside subs f.blocks

-- The sorting loop: of the blocks that the region still has, those that pass the test and the
-- others, each taken out of the region.
pub record Sorted : Type 0 where
  pub passed : List ℕ
  pub others : List ℕ
  pub remaining : List ℕ

unfoldable pub sort_blocks : (ℕ → Bool) → List ℕ → List ℕ → Sorted
unfolding remove
sort_blocks test [] pragma = record { passed = []; others = []; remaining = pragma }
sort_blocks test (b ∷ bs) pragma =
    let skipped = sort_blocks test bs pragma in
    let rest = sort_blocks test bs (remove b pragma) in
    if not (contains b pragma)
    then skipped
    else if test b
    then record rest { passed = b ∷ rest.passed }
    else record rest { others = b ∷ rest.others }

-- instrumentPostDomSet
unfoldable pub instrument_post_dom_set : Env → List ℕ → State → State
instrument_post_dom_set env npd s = record s {
  counters =
      s.counters ++ map shared (create_post_dom_sets env.apply_post_dom_sets env.post env.dom npd);
}

-- The parent of a node, if it is a loop: its header and its colour.
abbrev pub Parent : Type 0
Parent = Option (ℕ × ℕ)

-- The parent is a loop of the same set.
abbrev pub same_set : Parent → ℕ → Bool
same_set none color = false
same_set (some (header, parent_color)) color = parent_color == color

-- Its header is post-dominated by the given one.
abbrev pub reaches : Relation → Parent → ℕ → Bool
reaches post none header = false
reaches post (some (parent_header, color)) header = post header parent_header

-- What instrumentSFLoopSet leaves: the tree, the state, and header_pd_blocks.
pub record Outcome (A : Type 0) : Type 0 where
  pub tree : A
  pub state : State
  pub header_pd_blocks : List (List ℕ × ℕ)

-- instrumentSFLoopSet
unfoldable mutual
  unfolding get_unique_loop_bb sort_blocks instrument_post_dom_set recolor

  pub instrument_sf_loop_set : Env → Parent → ℕ → ℕ → Tree → State → Outcome Tree
  instrument_sf_loop_set env parent outer_sf set_id (node d kids) s =
      let header = d.facts.header in
      let inside = same_set parent d.set_color in
      let sf = if inside then wmul d.scale_factor outer_sf else d.scale_factor in
      let sorted =
        sort_blocks (λ b. env.post b header) (get_unique_loop_bb d.facts d.subloops)
          s.pragma_blocks in
      let after =
        instrument_post_dom_set env sorted.others (record s { pragma_blocks = sorted.remaining }) in
      let below = instrument_children env (some (header, d.set_color)) sf set_id kids after in
      if not (d.set_color == set_id)
      then record { tree = node d kids; state = s; header_pd_blocks = [] }
      else if inside && not (reaches env.post parent header)
      then record {
        tree = recolor d.set_color s.loop_sf_set (node d kids);
        state = record s { loop_sf_set = s.loop_sf_set + 1 };
        header_pd_blocks = [];
      }
      else record {
        tree = node d below.tree;
        state = below.state;
        header_pd_blocks = (sorted.passed, sf) ∷ below.header_pd_blocks;
      }

  pub instrument_children : Env → Parent → ℕ → ℕ → Trees → State → Outcome Trees
  instrument_children env parent outer_sf set_id no_trees s = record {
    tree = no_trees;
    state = s;
    header_pd_blocks = [];
  }
  instrument_children env parent outer_sf set_id (trees t ts) s =
      let first = instrument_sf_loop_set env parent outer_sf set_id t s in
      let rest = instrument_children env parent outer_sf set_id ts first.state in
      record {
        tree = trees first.tree rest.tree;
        state = rest.state;
        header_pd_blocks = first.header_pd_blocks ++ rest.header_pd_blocks;
      }

abbrev pub beside : Tree → Option (Outcome Trees) → Option (Outcome Trees)
beside t none = none
beside t (some o) = some (record o { tree = trees t o.tree })

abbrev pub above : NodeData → Trees → Option (Outcome Trees) → Option (Outcome Trees)
above d ts none = none
above d ts (some o) = some (record o { tree = trees (node d o.tree) ts })

abbrev pub in_place : Outcome Tree → Trees → Outcome Trees
in_place o ts = record {
  tree = trees o.tree ts;
  state = o.state;
  header_pd_blocks = o.header_pd_blocks;
}

abbrev pub first_of : Option (Outcome Trees) → Option (Outcome Trees) → Option (Outcome Trees)
first_of none b = b
first_of (some a) b = some a

-- findLoopTreeSet and instrumentSFLoopSet on the node that it finds, in place; `none` if it finds
-- none, a null pointer that the source follows.
unfoldable pub instrument_set : Env → Parent → ℕ → Trees → State → Option (Outcome Trees)
unfolding instrument_sf_loop_set
instrument_set env parent id no_trees s = none
instrument_set env parent id (trees (node d kids) ts) s =
    let here = in_place (instrument_sf_loop_set env parent 1 id (node d kids) s) ts in
    let below = above d ts (instrument_set env (some (d.facts.header, d.set_color)) id kids s) in
    let later = beside (node d kids) (instrument_set env parent id ts s) in
    if d.set_color == id then some here else first_of below later
