-- ===== src/Discovery.antt =====
-- How the regions of a function are found: recordPragmaRegions and detectPragma of
-- src/zray_parse.cc and runOnFunction of src/zray_pass.cc, on a function whose blocks have been
-- split at the markers.
pub mod Reach
pub mod Walk
pub mod Split
pub mod Keys
pub mod Numbers
pub mod Calls
pub mod Listed
mod Tests
use zray.Base.{
  ℕ, zero, suc, ◌+◌, Bool, true, false, not, ◌&&◌, ◌||◌, Option, none, some, List, [], ◌∷◌, ◌++◌,
  length, map, ◌==◌, if◌then◌else◌,
}
use zray.Markers.{is_tool_flag}
use zray.Markers.Group.{get_group_id}

-- What the search asks of an instruction: its text, and whether it is a call or debug information.
pub record Line : Type 0 where
  pub text : List ℕ
  pub is_call : Bool
  pub is_debug : Bool

-- A function: its blocks in orderBasicBlocks' order, their instructions and successors, and the
-- dominator tree.
pub record Function : Type 0 where
  pub ordered_cfg : List ℕ
  pub lines : ℕ → List Line
  pub successors : ℕ → List ℕ
  pub dominates : ℕ → ℕ → Bool

-- "ZRAY_ROI_BEGIN" and "ZRAY_ROI_END"
abbrev pub pass_begin : List ℕ
pass_begin = 90 ∷ 82 ∷ 65 ∷ 89 ∷ 95 ∷ 82 ∷ 79 ∷ 73 ∷ 95 ∷ 66 ∷ 69 ∷ 71 ∷ 73 ∷ 78 ∷ []

abbrev pub pass_end : List ℕ
pass_end = 90 ∷ 82 ∷ 65 ∷ 89 ∷ 95 ∷ 82 ∷ 79 ∷ 73 ∷ 95 ∷ 69 ∷ 78 ∷ 68 ∷ []

-- isToolFlag and getGroupID come back on every text that fits in memory.
abbrev pub or_false : Option Bool → Bool
or_false none = false
or_false (some b) = b

abbrev pub or_zero : Option ℕ → ℕ
or_zero none = 0
or_zero (some n) = n

unfoldable pub is_marker : List ℕ → Line → Bool
unfolding is_tool_flag
is_marker name l = not l.is_debug && (l.is_call && or_false (is_tool_flag l.text name))

unfoldable pub marker_group : Line → ℕ
unfolding get_group_id
marker_group l = or_zero (get_group_id l.text)

unfoldable pub detect_in : List Line → Bool
unfolding is_marker
detect_in [] = false
detect_in (l ∷ ls) = is_marker pass_begin l || detect_in ls

-- detectPragma, of a function's blocks
unfoldable pub detect_pragma : Function → List ℕ → Bool
unfolding detect_in
detect_pragma f [] = false
detect_pragma f (b ∷ bs) = detect_in (f.lines b) || detect_pragma f bs

-- szt_bbvec: a group with blocks.
abbrev pub SztBbvec : Type 0
SztBbvec = ℕ × List ℕ

-- find_if by the group, on a vector of such pairs
unfoldable pub find_group : ℕ → List SztBbvec → Option (List ℕ)
find_group g [] = none
find_group g ((h, bs) ∷ es) = if h == g then some bs else find_group g es

-- std::distance from the beginning to what find_if finds.
unfoldable pub distance : ℕ → List SztBbvec → ℕ
distance g [] = 0
distance g ((h, bs) ∷ es) = if h == g then 0 else suc (distance g es)

-- A change of the blocks of the entry that find_if finds, if it finds one.
unfoldable pub change_group : ℕ → (List ℕ → List ℕ) → List SztBbvec → List SztBbvec
change_group g change [] = []
change_group g change ((h, bs) ∷ es) =
    if h == g then (h, change bs) ∷ es else (h, bs) ∷ change_group g change es

abbrev pub push_back : ℕ → List ℕ → List ℕ
push_back b bs = bs ++ (b ∷ [])

unfoldable pub pop_back : List ℕ → List ℕ
pop_back [] = []
pop_back (b ∷ []) = []
pop_back (b ∷ (c ∷ bs)) = b ∷ pop_back (c ∷ bs)

unfoldable pub back : List ℕ → Option ℕ
back [] = none
back (b ∷ []) = some b
back (b ∷ (c ∷ bs)) = back (c ∷ bs)

-- BasicBlockGroupList and id_stack
pub record Open : Type 0 where
  pub groups : List SztBbvec
  pub id_stack : List SztBbvec

-- A begin marker in block `b`: a group that is new, one that is not open, and one that is.
unfoldable pub begin_group : ℕ → ℕ → Open → Open
unfolding find_group change_group
begin_group b g o =
    let opened = o.id_stack ++ ((g, b ∷ []) ∷ []) in
    elim (find_group g o.groups) [
      | none ↦ record { groups = o.groups ++ ((g, []) ∷ []); id_stack = opened }
      | some bs ↦ elim (find_group g o.id_stack) [
        | none ↦ record o { id_stack = opened }
        | some cs ↦ record o { id_stack = change_group g (push_back b) o.id_stack }
      ]
    ]

unfoldable pub begin_lines : ℕ → List Line → Open → Open
unfolding is_marker marker_group begin_group
begin_lines b [] o = o
begin_lines b (l ∷ ls) o =
    begin_lines b ls (if is_marker pass_begin l then begin_group b (marker_group l) o else o)

-- The block joins each group that is open.
unfoldable pub add_block : ℕ → List SztBbvec → List SztBbvec → List SztBbvec
unfolding change_group
add_block b [] groups = groups
add_block b ((g, []) ∷ stack) groups = add_block b stack groups
add_block b ((g, c ∷ cs) ∷ stack) groups = add_block b stack (change_group g (push_back b) groups)

-- A call that endTimingEvent gets in front of an end marker, with the region that it closes.
pub record EndCall : Type 0 where
  pub marker : Line
  pub region_id : ℕ

pub data ParseWarning : Type 0 where
  no_open_region : ℕ → ParseWarning
  not_dominated : ℕ → ParseWarning

-- id_stack, the calls and the warnings so far
pub record Closing : Type 0 where
  pub id_stack : List SztBbvec
  pub calls : List EndCall
  pub warnings : List ParseWarning

-- The warning of a marker that the begin marker's block does not dominate.
abbrev pub verify : Function → ℕ → ℕ → ℕ → List ParseWarning → List ParseWarning
verify f g top b ws = if f.dominates top b then ws else ws ++ (not_dominated g ∷ [])

unfoldable pub close_group : Function → ℕ → List SztBbvec → ℕ → Line → Closing → Closing
unfolding find_group marker_group distance change_group pop_back back
close_group f base groups b l c =
    let g = marker_group l in
    let ignored : Closing = record c { warnings = c.warnings ++ (no_open_region g ∷ []) } in
    let call : EndCall = record { marker = l; region_id = base + distance g groups } in
    elim (find_group g c.id_stack) [
      | none ↦ ignored
      | some bs ↦ elim (back bs) [
        | none ↦ ignored
        | some top ↦ record {
          id_stack = change_group g pop_back c.id_stack;
          calls = c.calls ++ (call ∷ []);
          warnings = verify f g top b c.warnings;
        }
      ]
    ]

unfoldable pub close_lines : Function → ℕ → List SztBbvec → ℕ → List Line → Closing → Closing
unfolding is_marker close_group
close_lines f base groups b [] c = c
close_lines f base groups b (l ∷ ls) c =
    close_lines f base groups b ls
      (if is_marker pass_end l then close_group f base groups b l c else c)

-- BasicBlocksVisited, BasicBlockGroupList, the calls and the warnings
pub record Search : Type 0 where
  pub visited : List ℕ
  pub groups : List SztBbvec
  pub calls : List EndCall
  pub warnings : List ParseWarning

unfoldable pub is_visited : ℕ → List ℕ → Bool
is_visited b [] = false
is_visited b (c ∷ cs) = c == b || is_visited b cs

-- What recordPragmaRegions does with a block before it turns to its successors.
unfoldable pub record_block : Function → ℕ → ℕ → List SztBbvec → Search → List SztBbvec × Search
unfolding begin_lines add_block close_lines
record_block f base b stack s =
    let opened = begin_lines b (f.lines b) (record { groups = s.groups; id_stack = stack }) in
    let groups = add_block b opened.id_stack opened.groups in
    let closed =
      close_lines f base groups b (f.lines b)
        (record { id_stack = opened.id_stack; calls = s.calls; warnings = s.warnings }) in
    (
      closed.id_stack,
      record {
        visited = b ∷ s.visited;
        groups = groups;
        calls = closed.calls;
        warnings = closed.warnings;
      },
    )

-- The calls for the successors that are not visited yet.
unfoldable pub visit_new : (ℕ → Search → Search) → List ℕ → Search → Search
unfolding is_visited
visit_new visit [] s = s
visit_new visit (b ∷ bs) s = elim (is_visited b s.visited) [
  | true ↦ visit_new visit bs s
  | false ↦ visit_new visit bs (visit b s)
]

-- recordPragmaRegions, with a bound on the depth of its recursion as fuel. `base` is PRList.size().
unfoldable pub record_pragma_regions : ℕ → Function → ℕ → ℕ → List SztBbvec → Search → Search
unfolding record_block visit_new
record_pragma_regions zero f base b stack s = s
record_pragma_regions (suc fuel) f base b stack s =
    let (id_stack, next) = record_block f base b stack s in
    visit_new (λ c t. record_pragma_regions fuel f base c id_stack t) (f.successors b) next

-- PragmaRegion, as runOnFunction fills it; its function is the one at hand.
pub record NewRegion : Type 0 where
  pub pragma_region_id : ℕ
  pub group_id : ℕ
  pub bb_list : List ℕ

-- Each group is a region, which the size of PRList numbers.
unfoldable pub list_regions : List SztBbvec → List NewRegion → List NewRegion
list_regions [] prs = prs
list_regions ((g, bs) ∷ es) prs =
    list_regions es
      (prs ++ (record { pragma_region_id = length prs; group_id = g; bb_list = bs } ∷ []))

-- The result of runOnFunction, PRList, and what recordPragmaRegions did to the function.
pub record Parsed : Type 0 where
  pub modified : Bool
  pub pr_list : List NewRegion
  pub calls : List EndCall
  pub warnings : List ParseWarning

abbrev pub no_search : Search
no_search = record { visited = []; groups = []; calls = []; warnings = [] }

-- The search from the entry block; each call visits a block that was not visited, so that the
-- recursion is no deeper than the function has blocks.
unfoldable pub search : Function → ℕ → List ℕ → Search
unfolding record_pragma_regions
search f base [] = no_search
search f base (entry ∷ blocks) =
    record_pragma_regions (suc (length blocks)) f base entry [] no_search

-- Instrumenting all: one region with every block, and no calls.
abbrev pub whole_function : Function → Search
whole_function f = record no_search { groups = (0, f.ordered_cfg) ∷ [] }

abbrev pub is_empty : List ℕ → Bool
is_empty [] = true
is_empty (b ∷ bs) = false

unfoldable pub run_on_function : Bool → Function → List NewRegion → Parsed
unfolding detect_pragma search list_regions
run_on_function inst_all f prs =
    let untouched : Parsed = record {
      modified = false;
      pr_list = prs;
      calls = [];
      warnings = [];
    } in
    let s = if inst_all then whole_function f else search f (length prs) f.ordered_cfg in
    let parsed : Parsed = record {
      modified = true;
      pr_list = list_regions s.groups prs;
      calls = s.calls;
      warnings = s.warnings;
    } in
    if is_empty f.ordered_cfg || (not inst_all && not (detect_pragma f f.ordered_cfg))
    then untouched
    else parsed
