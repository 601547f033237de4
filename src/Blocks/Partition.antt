-- ===== src/Blocks/Partition.antt =====
-- createPostDomSets of src/zray_pass.cc: the sets are a partition.
use zray.Base.{
  All-append, ℕ, ◌+◌, ◌==◌, zero, suc, ◌≤◌, ◌≡◌, refl, Bool, true, false, ◌&&◌, List, [], ◌∷◌, ◌++◌,
  arith, All, length, if◌then◌else◌, inl, inr, Bool-cases,
}
use zray.Blocks.{Relation, split_off, post_dom_sets, create_post_dom_sets}

-- The blocks of all sets.
abbrev pub all_blocks : List (List ℕ) → List ℕ
all_blocks [] = []
all_blocks (s ∷ sets) = s ++ all_blocks sets

-- How often a block occurs.
unfoldable pub occurrences : ℕ → List ℕ → ℕ
occurrences x [] = 0
occurrences x (y ∷ ys) = (if y == x then 1 else 0) + occurrences x ys

-- The source's test of a block `x` against a set's first block `b`.
abbrev pub Equivalent : Relation → Relation → ℕ → ℕ → Type 0
Equivalent post dom b x = (post x b ≡ true) × (dom b x ≡ true)

-- The first block of a set carries its counter; each other has passed the test.
abbrev pub SharesCounter : Relation → Relation → List ℕ → Type 0
SharesCounter post dom [] = ⊥
SharesCounter post dom (b ∷ xs) = All (Equivalent post dom b) xs

abbrev pub Unrelated : Bool → Relation → Relation → ℕ → ℕ → Type 0
Unrelated apply post dom b x = (apply && post x b && dom b x) ≡ false

-- No block of a later set passes the test against the first block of an earlier one.
abbrev pub Separate : Bool → Relation → Relation → List (List ℕ) → Type 0
Separate apply post dom [] = Unit
Separate apply post dom ([] ∷ sets) = ⊥
Separate apply post dom ((b ∷ xs) ∷ sets) =
    All (Unrelated apply post dom b) (all_blocks sets) × Separate apply post dom sets

pub occurrences-append :
    (y : ℕ) (xs ys : List ℕ) → occurrences y (xs ++ ys) ≡ occurrences y xs + occurrences y ys
unfolding occurrences
occurrences-append y [] ys = omega arith
occurrences-append y (x ∷ xs) ys = ground (arith, occurrences-append y xs ys)

module _ (apply : Bool) (post dom : Relation) where
  pub length-split_off :
      (b : ℕ) (xs : List ℕ) → length (split_off apply post dom b xs).1 ≤ length xs
  unfolding split_off
  length-split_off b [] = omega arith
  length-split_off b (x ∷ xs) = ground (arith, length-split_off b xs)

  pub occurrences-split_off :
      (b y : ℕ) (xs : List ℕ)
      → occurrences y (split_off apply post dom b xs).0
          + occurrences y (split_off apply post dom b xs).1
        ≡ occurrences y xs
  unfolding split_off occurrences
  occurrences-split_off b y [] = refl
  occurrences-split_off b y (x ∷ xs) = ground (arith, occurrences-split_off b y xs)

  split_off-Equivalent :
      (b : ℕ) (xs : List ℕ) → All (Equivalent post dom b) (split_off apply post dom b xs).0
  unfolding split_off
  split_off-Equivalent b [] = tt
  split_off-Equivalent b (x ∷ xs) = elim (Bool-cases (apply && post x b && dom b x)) [
    | inl e ↦ rw (e, split_off) ((ground (arith, e), ground (arith, e)), split_off-Equivalent b xs)
    | inr e ↦ rw (e, split_off) (split_off-Equivalent b xs)
  ]

  -- What is left does not pass the test.
  split_off_rest :
      (b : ℕ) (xs : List ℕ) → All (Unrelated apply post dom b) (split_off apply post dom b xs).1
  unfolding split_off
  split_off_rest b [] = tt
  split_off_rest b (x ∷ xs) = elim (Bool-cases (apply && post x b && dom b x)) [
    | inl e ↦ rw (e, split_off) (split_off_rest b xs)
    | inr e ↦ rw (e, split_off) (e, split_off_rest b xs)
  ]

  split_off-All {κ} :
      (P : ℕ → Type κ) (b : ℕ) (xs : List ℕ)
      → All P xs
      → All P (split_off apply post dom b xs).0 × All P (split_off apply post dom b xs).1
  unfolding split_off
  split_off-All P b [] h = (tt, tt)
  split_off-All P b (x ∷ xs) (h, hs) =
      let rest = split_off-All P b xs hs in
      elim (Bool-cases (apply && post x b && dom b x)) [
        | inl e ↦ rw (e, split_off) ((h, rest.0), rest.1)
        | inr e ↦ rw (e, split_off) (rest.0, (h, rest.1))
      ]

  pub occurrences-sets :
      (fuel y : ℕ) (npd : List ℕ)
      → length npd ≤ fuel
      → occurrences y (all_blocks (post_dom_sets fuel apply post dom npd)) ≡ occurrences y npd
  unfolding post_dom_sets occurrences
  occurrences-sets zero y [] h = refl
  occurrences-sets zero y (b ∷ npd) h = absurd (omega (arith, h))
  occurrences-sets (suc fuel) y [] h = refl
  occurrences-sets (suc fuel) y (b ∷ npd) h =
      let (taken, left) = split_off apply post dom b npd in
      omega (
        arith,
        occurrences-append y taken (all_blocks (post_dom_sets fuel apply post dom left)),
        occurrences-sets fuel y left (omega (arith, length-split_off b npd)),
        occurrences-split_off b y npd,
      )

  sets-SharesCounter :
      (fuel : ℕ) (npd : List ℕ)
      → All (SharesCounter post dom) (post_dom_sets fuel apply post dom npd)
  unfolding post_dom_sets
  sets-SharesCounter zero npd = tt
  sets-SharesCounter (suc fuel) [] = tt
  sets-SharesCounter (suc fuel) (b ∷ npd) =
      (split_off-Equivalent b npd, sets-SharesCounter fuel (split_off apply post dom b npd).1)

  sets-All {κ} :
      (P : ℕ → Type κ) (fuel : ℕ) (npd : List ℕ)
      → All P npd
      → All P (all_blocks (post_dom_sets fuel apply post dom npd))
  unfolding post_dom_sets
  sets-All P zero npd h = tt
  sets-All P (suc fuel) [] h = tt
  sets-All P (suc fuel) (b ∷ npd) (h, hs) =
      let parts = split_off-All P b npd hs in
      let left = (split_off apply post dom b npd).1 in
      (
        h,
        All-append P _ (all_blocks (post_dom_sets fuel apply post dom left)) parts.0
            (sets-All P fuel left parts.1),
      )

  sets-Separate :
      (fuel : ℕ) (npd : List ℕ) → Separate apply post dom (post_dom_sets fuel apply post dom npd)
  unfolding post_dom_sets
  sets-Separate zero npd = tt
  sets-Separate (suc fuel) [] = tt
  sets-Separate (suc fuel) (b ∷ npd) =
      let left = (split_off apply post dom b npd).1 in
      (
        sets-All (Unrelated apply post dom b) fuel left (split_off_rest b npd),
        sets-Separate fuel left,
      )

  -- Each block is in exactly one set, as often as in the given list, and each block of a set
  -- post-dominates the set's first block and is dominated by it.
  pub create_post_dom_sets_lem :
      (npd : List ℕ)
      → ((y : ℕ)
          → occurrences y (all_blocks (create_post_dom_sets apply post dom npd))
            ≡ occurrences y npd)
        × All (SharesCounter post dom) (create_post_dom_sets apply post dom npd)
  unfolding create_post_dom_sets
  create_post_dom_sets_lem npd =
      (λ y. occurrences-sets (length npd) y npd (omega arith), sets-SharesCounter (length npd) npd)

  -- No block of a later set both post-dominates and is dominated by the first block of an earlier
  -- set, for every list of blocks, unless post-domination sets are switched off. The test has this
  -- one direction: a first block may still be dominated by, and post-dominate, a later block.
  pub create_post_dom_sets-Separate :
      (npd : List ℕ) → Separate apply post dom (create_post_dom_sets apply post dom npd)
  unfolding create_post_dom_sets
  create_post_dom_sets-Separate npd = sets-Separate (length npd) npd
