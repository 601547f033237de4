-- ===== src/Blocks/Order.antt =====
-- createPostDomSets of src/zray_pass.cc on two orders of the same blocks.
use zray.Base.{
  ℕ, ◌⊎◌, ◌<◌, ◌==◌, ◌≡◌, refl, true, false, List, [], ◌∷◌, arith, All, length, inl, inr,
}
use zray.Blocks.{Relation, split_off, post_dom_sets, create_post_dom_sets}
use zray.Blocks.Partition.{
  all_blocks, occurrences, occurrences-append, occurrences-sets, occurrences-split_off,
  length-split_off,
}

-- Both blocks are in the first set.
abbrev pub Together : ℕ → ℕ → List (List ℕ) → Type 0
Together a x [] = ⊥
Together a x (s ∷ sets) = (0 < occurrences a s) × (0 < occurrences x s)

-- One of the blocks is not in the set.
abbrev pub NotBoth : ℕ → ℕ → List ℕ → Type 0
NotBoth a x s = (occurrences a s ≡ 0) ⊎ (occurrences x s ≡ 0)

-- A block that is not in the sets together is in none of them.
none_of :
    (a x : ℕ) (sets : List (List ℕ)) → occurrences x (all_blocks sets) ≡ 0 → All (NotBoth a x) sets
none_of a x [] h = tt
none_of a x (s ∷ sets) h =
    let sum = occurrences-append x s (all_blocks sets) in
    (inr (omega (arith, h, sum)), none_of a x sets (omega (arith, h, sum)))

-- The block at the front of the others joins a set whose first block it passes the test against.
taken_first :
    (post dom : Relation) (a x : ℕ) (ys : List ℕ)
    → post x a ≡ true
    → dom a x ≡ true
    → 0 < occurrences x (split_off true post dom a (x ∷ ys)).0
unfolding split_off occurrences
taken_first post dom a x ys p d = ground (arith, p, d)

-- A block that the first block does not dominate does not join its set.
not_taken :
    (post dom : Relation) (b y : ℕ) (xs : List ℕ)
    → dom b y ≡ false
    → occurrences y (split_off true post dom b xs).0 ≡ 0
unfolding split_off occurrences
not_taken post dom b y [] d = refl
not_taken post dom b y (x ∷ xs) d = grind (arith, d, not_taken post dom b y xs d)

-- The partition depends on the order of the blocks. If `x` post-dominates `a` and `a` dominates `x`,
-- but `x` does not dominate `a`, then the list with `a` in front of `x` gives one set with both, and
-- the list with `x` in front of `a`, and the same other blocks behind, gives no set with both, where
-- `x` is none of the others: each then gets a counter of its own.
pub create_post_dom_sets-ordered :
    (post dom : Relation) (a x : ℕ) (ys : List ℕ)
    → post x a ≡ true
    → dom a x ≡ true
    → dom x a ≡ false
    → occurrences x ys ≡ 0
    → Together a x (create_post_dom_sets true post dom (a ∷ x ∷ ys))
      × All (NotBoth a x) (create_post_dom_sets true post dom (x ∷ a ∷ ys))
unfolding create_post_dom_sets post_dom_sets occurrences
create_post_dom_sets-ordered post dom a x ys p d nd h =
    let differ : (x == a) ≡ false = grind (arith, d, nd) in
    let differ' : (a == x) ≡ false = ground (arith, differ) in
    let left = (split_off true post dom x (a ∷ ys)).1 in
    let fuel = length (a ∷ ys) in
    (
      (ground arith, ground (arith, taken_first post dom a x ys p d)),
      (
        inl (ground (arith, differ, not_taken post dom x a (a ∷ ys) nd)),
        none_of a x (post_dom_sets fuel true post dom left) (
            ground (
              arith,
              differ',
              occurrences-sets true post dom fuel x left
                  (omega (arith, length-split_off true post dom x (a ∷ ys))),
              occurrences-split_off true post dom x x (a ∷ ys),
              h,
            )),
      ),
    )
