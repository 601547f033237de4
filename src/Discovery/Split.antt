-- ===== src/Discovery/Split.antt =====
-- splitInstrumentedBlocks of src/zray_parse.cc. A new block is the only successor of the one that it
-- is split from, and is visited next; so a block becomes a chain of blocks, and the search from
-- block to block is that of recordPragmaRegions.
use zray.Base.{
  ℕ, zero, suc, ◌≤◌, ◌≡◌, refl, ap, ◌∙◌, Bool, true, false, not, ◌&&◌, Option, none, some, List, [],
  ◌∷◌, ◌++◌, length, length-append, append-nil, All, if◌then◌else◌, if_cases, arith,
}
use zray.Discovery.{Line, is_marker, pass_begin, pass_end}

abbrev pub keep_first : Line → Option (List Line × List Line) → Option (List Line × List Line)
keep_first l none = none
keep_first l (some (kept, rest)) = some (l ∷ kept, rest)

-- Where a block is split: in front of a begin marker that is not its first instruction, or behind an
-- end marker. A block's last instruction is no marker but a terminator.
unfoldable pub find_split : Bool → List Line → Option (List Line × List Line)
unfolding is_marker
find_split at_front [] = none
find_split at_front (l ∷ ls) =
    if is_marker pass_begin l && not at_front
    then some ([], l ∷ ls)
    else if is_marker pass_end l
    then some (l ∷ [], ls)
    else keep_first l (find_split false ls)

-- The chain of blocks; each split leaves an instruction behind, so that the number of the block's
-- instructions is fuel enough.
unfoldable pub split_block : ℕ → List Line → List (List Line)
unfolding find_split
split_block zero ls = ls ∷ []
split_block (suc fuel) ls = elim (find_split true ls) [
  | none ↦ ls ∷ []
  | some (kept, rest) ↦ kept ∷ split_block fuel rest
]

unfoldable pub split_instrumented : List Line → List (List Line)
unfolding split_block
split_instrumented ls = split_block (length ls) ls

abbrev pub Unmarked : List ℕ → List Line → Type 0
Unmarked name ls = All (λ l. is_marker name l ≡ false) ls

-- End markers stand at the end only.
abbrev pub EndsLast : List Line → Type 0
EndsLast [] = Unit
EndsLast (l ∷ []) = Unit
EndsLast (l ∷ (m ∷ ls)) = (is_marker pass_end l ≡ false) × EndsLast (m ∷ ls)

-- Begin markers stand in front, and end markers at the end.
abbrev pub Cut : List Line → Type 0
Cut [] = Unit
Cut (l ∷ ls) = Unmarked pass_begin ls × EndsLast (l ∷ ls)

cons-EndsLast :
    (l : Line) (ls : List Line) → is_marker pass_end l ≡ false → EndsLast ls → EndsLast (l ∷ ls)
cons-EndsLast l [] h k = tt
cons-EndsLast l (m ∷ ls) h k = (h, k)

-- What is found behind the first instruction.
abbrev Behind : List Line → Option (List Line × List Line) → Type 0
Behind ls none = Unmarked pass_begin ls × EndsLast ls
Behind ls (some (kept, rest)) = (kept ++ rest ≡ ls) × Unmarked pass_begin kept × EndsLast kept

keep_first-Behind :
    (l : Line) (ls : List Line) (o : Option (List Line × List Line))
    → is_marker pass_begin l ≡ false
    → is_marker pass_end l ≡ false
    → Behind ls o
    → Behind (l ∷ ls) (keep_first l o)
keep_first-Behind l ls none b e (n, k) = ((b, n), cons-EndsLast l ls e k)
keep_first-Behind l ls (some (kept, rest)) b e (p, n, k) =
    (ap (◌∷◌ l) p, (b, n), cons-EndsLast l kept e k)

find_split-Behind : (ls : List Line) → Behind ls (find_split false ls)
unfolding find_split
find_split-Behind [] = (tt, tt)
find_split-Behind (l ∷ ls) =
    if_cases (Behind (l ∷ ls)) (is_marker pass_begin l && true) _ _ (λ _. (refl, tt, tt))
      (λ b.
        let begins : is_marker pass_begin l ≡ false = ground arith in
        if_cases (Behind (l ∷ ls)) (is_marker pass_end l) _ _ (λ _. (refl, (begins, tt), tt))
          (λ e. keep_first-Behind l ls (find_split false ls) begins e (find_split-Behind ls)))

-- What is found in a block: something is kept, and the kept block is cut.
abbrev Found : List Line → Option (List Line × List Line) → Type 0
Found ls none = Cut ls
Found ls (some (kept, rest)) = (kept ++ rest ≡ ls) × (1 ≤ length kept) × Cut kept

keep_first-Found :
    (l : Line) (ls : List Line) (o : Option (List Line × List Line))
    → is_marker pass_end l ≡ false
    → Behind ls o
    → Found (l ∷ ls) (keep_first l o)
keep_first-Found l ls none e (n, k) = (n, cons-EndsLast l ls e k)
keep_first-Found l ls (some (kept, rest)) e (p, n, k) =
    (ap (◌∷◌ l) p, omega arith, (n, cons-EndsLast l kept e k))

find_split-Found : (ls : List Line) → Found ls (find_split true ls)
unfolding find_split
find_split-Found [] = tt
find_split-Found (l ∷ ls) =
    if_cases (Found (l ∷ ls)) (is_marker pass_begin l && false) _ _ (λ b. absurd (ground arith))
      (λ _.
        if_cases (Found (l ∷ ls)) (is_marker pass_end l) _ _ (λ _. (refl, omega arith, (tt, tt)))
          (λ e. keep_first-Found l ls (find_split false ls) e (find_split-Behind ls)))

abbrev pub concat : List (List Line) → List Line
concat [] = []
concat (ls ∷ bs) = ls ++ concat bs

-- A chain that has a block's instructions, in blocks that are cut.
abbrev Chain : List Line → List (List Line) → Type 0
Chain ls bs = (concat bs ≡ ls) × All Cut bs

concat_one : (ls : List Line) → Cut ls → Chain ls (ls ∷ [])
concat_one ls c = (append-nil ls, (c, tt))

after_split-Chain :
    (fuel : ℕ) (ls : List Line) (o : Option (List Line × List Line))
    → length ls ≤ suc fuel
    → Found ls o
    → ((rest : List Line) → length rest ≤ fuel → Chain rest (split_block fuel rest))
    → Chain ls (elim o [ none ↦ ls ∷ [] | some (kept, rest) ↦ kept ∷ split_block fuel rest ])
after_split-Chain fuel ls none l c h = concat_one ls c
after_split-Chain fuel ls (some (kept, rest)) l (p, n, c) h =
    let shorter : length rest ≤ fuel = omega (arith, length-append kept rest, ap length p) in
    let (same, cut) = h rest shorter in (ap (◌++◌ kept) same ∙ p, (c, cut))

split_block-Chain : (fuel : ℕ) (ls : List Line) → length ls ≤ fuel → Chain ls (split_block fuel ls)
unfolding split_block
split_block-Chain zero [] l = concat_one [] tt
split_block-Chain zero (m ∷ ls) l = absurd (omega arith)
split_block-Chain (suc fuel) ls l =
    after_split-Chain fuel ls (find_split true ls) l (find_split-Found ls) (split_block-Chain fuel)

-- splitInstrumentedBlocks makes of a block a chain of blocks that together have its instructions,
-- in their order; in each of them a begin marker can only stand in front, and an end marker only
-- at the end, however many markers the block has and however they follow each other.
pub split_instrumented-Cut :
    (ls : List Line) → (concat (split_instrumented ls) ≡ ls) × All Cut (split_instrumented ls)
unfolding split_instrumented
split_instrumented-Cut ls = split_block-Chain (length ls) ls (omega arith)
