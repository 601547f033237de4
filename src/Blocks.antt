-- ===== src/Blocks.antt =====
-- Sets of basic blocks that share a counter: recordTagBlocks and createPostDomSets of
-- src/zray_pass.cc. A block is the list of its instructions, or its number.
pub mod Counting
pub mod Partition
pub mod Order
mod Tests
use zray.Base.{
  ℕ, zero, suc, Bool, true, false, ◌&&◌, Option, none, some, List, [], ◌∷◌, ◌++◌, length,
  if◌then◌else◌,
}
use zray.Profile.{ProfileData}
use zray.Record.{Inst, Inserted, record_inst}

-- Calls that were inserted before those of a step that may terminate.
abbrev pub prepend :
    List Inserted → Option (ProfileData × List Inserted) → Option (ProfileData × List Inserted)
prepend calls none = none
prepend calls (some (q, more)) = some (q, calls ++ more)

abbrev pub and_then :
    Option (ProfileData × List Inserted)
    → (ProfileData → Option (ProfileData × List Inserted))
    → Option (ProfileData × List Inserted)
and_then none f = none
and_then (some (p, calls)) f = prepend calls (f p)

-- The inner loop of recordTagBlocks
unfoldable pub record_insts : List Inst → ℕ → ProfileData → Option (ProfileData × List Inserted)
record_insts [] sf p = some (p, [])
record_insts (i ∷ insts) sf p = and_then (record_inst i sf p) (λ q. record_insts insts sf q)

-- recordTagBlocks, as far as the profile goes
unfoldable pub record_tag_blocks :
    List (List Inst) → ℕ → ProfileData → Option (ProfileData × List Inserted)
record_tag_blocks [] sf p = some (p, [])
record_tag_blocks (b ∷ blocks) sf p =
    and_then (record_insts b sf p) (λ q. record_tag_blocks blocks sf q)

-- What the source asks of the two dominator trees: X post-dominates B, and B dominates X.
abbrev pub Relation : Type 0
Relation = ℕ → ℕ → Bool

-- The inner loop of createPostDomSets: the blocks that join the set of `b`, and those that stay.
unfoldable pub split_off : Bool → Relation → Relation → ℕ → List ℕ → List ℕ × List ℕ
split_off apply post dom b [] = ([], [])
split_off apply post dom b (x ∷ xs) =
    let (taken, left) = split_off apply post dom b xs in
    if apply && post x b && dom b x then (x ∷ taken, left) else (taken, x ∷ left)

-- The outer loop. Each round takes a block at least, so the list's length is fuel enough.
unfoldable pub post_dom_sets : ℕ → Bool → Relation → Relation → List ℕ → List (List ℕ)
post_dom_sets zero apply post dom npd = []
post_dom_sets (suc fuel) apply post dom [] = []
post_dom_sets (suc fuel) apply post dom (b ∷ npd) =
    let (taken, left) = split_off apply post dom b npd in
    (b ∷ taken) ∷ post_dom_sets fuel apply post dom left

-- createPostDomSets
unfoldable pub create_post_dom_sets : Bool → Relation → Relation → List ℕ → List (List ℕ)
create_post_dom_sets apply post dom npd = post_dom_sets (length npd) apply post dom npd
