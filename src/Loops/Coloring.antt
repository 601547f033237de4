-- ===== src/Loops/Coloring.antt =====
-- Trip counts, and the numbering of the sets of loops by colorLoopTreeSF, src/zray_loop.cc.
use zray.Base.{
  ℕ, ◌+◌, ◌≤◌, ◌<◌, ◌≡◌, refl, sym, subst, true, false, not, ◌&&◌, ◌⊎◌, inl, inr, List, [], ◌∷◌,
  ◌++◌, arith, ◌==◌, if◌then◌else◌,
}
use zray.Loops.{NodeData, Tree, node, Trees, no_trees, trees, color_of, color_tree, color_trees}

-- The colours of the nodes that start a set: each is not 0 and not its parent's.
unfoldable mutual
  pub tops : ℕ → Tree → List ℕ
  tops parent (node d kids) =
      let below = tops_in d.set_color kids in
      if not (d.set_color == 0) && not (d.set_color == parent) then d.set_color ∷ below else below

  pub tops_in : ℕ → Trees → List ℕ
  tops_in parent no_trees = []
  tops_in parent (trees t ts) = tops parent t ++ tops_in parent ts

-- The list is a, a + 1, … up to b, without b.
abbrev pub Consecutive : ℕ → List ℕ → ℕ → Type 0
Consecutive a [] b = a ≡ b
Consecutive a (x ∷ xs) b = (x ≡ a) × Consecutive (a + 1) xs b

Consecutive-append :
    (a : ℕ) (xs : List ℕ) (b : ℕ) (ys : List ℕ) (c : ℕ)
    → Consecutive a xs b
    → Consecutive b ys c
    → Consecutive a (xs ++ ys) c
Consecutive-append a [] b ys c h k = subst (λ n. Consecutive n ys c) (sym h) k
Consecutive-append a (x ∷ xs) b ys c (h, hs) k = (h, Consecutive-append (a + 1) xs b ys c hs k)

-- What a node does to the number of the next set, and whether it starts one.
color_of-cases :
    (parent next : ℕ) (d : NodeData)
    → parent < next
    → let (color, next1) = color_of parent next d in
      ((next1 ≡ next) × (color < next) × ((not (color == 0) && not (color == parent)) ≡ false))
      ⊎ ((color ≡ next) × (next1 ≡ next + 1) × ((not (color == 0) && not (color == parent)) ≡ true))
unfolding color_of
color_of-cases parent next d h = ground (arith, h)

mutual
  unfolding tops color_tree

  tops-color_tree :
      (parent next : ℕ) (t : Tree)
      → parent < next
      → let (t1, next1) = color_tree parent next t in
        (next ≤ next1) × Consecutive next (tops parent t1) next1
  tops-color_tree parent next (node d kids) h =
      let (color, next1) = color_of parent next d in
      let (kids1, next2) = color_trees color next1 kids in
      elim (color_of-cases parent next d h) [
        | inl (e, below, old) ↦
            let rest = tops_in-color_trees color next1 kids (omega (arith, e, below)) in
            rw old (
              omega (arith, e, rest.0),
              subst (λ n. Consecutive n (tops_in color kids1) next2) e rest.1,
            )
        | inr (e, f, new) ↦
            let rest = tops_in-color_trees color next1 kids (omega (arith, e, f)) in
            rw new (
              omega (arith, f, rest.0),
              (e, subst (λ n. Consecutive n (tops_in color kids1) next2) f rest.1),
            )
      ]

  tops_in-color_trees :
      (parent next : ℕ) (ts : Trees)
      → parent < next
      → let (ts1, next1) = color_trees parent next ts in
        (next ≤ next1) × Consecutive next (tops_in parent ts1) next1
  tops_in-color_trees parent next no_trees h = (omega arith, refl)
  tops_in-color_trees parent next (trees t ts) h =
      let (t1, next1) = color_tree parent next t in
      let first = tops-color_tree parent next t h in
      let rest = tops_in-color_trees parent next1 ts (omega (arith, h, first.0)) in
      (
        omega (arith, first.0, rest.0),
        Consecutive-append next (tops parent t1) next1 _ _ first.1 rest.1,
      )

-- colorLoopTreeSF numbers the sets of loops from 1 on without a gap, in the order in which
-- findLoopTreeSet goes through the tree: the nodes whose colour is neither 0 nor their parent's, each
-- of which starts a set, have the colours 1, 2, … up to the number before the new LOOP_SF_SET.
pub color_trees-Consecutive :
    (ts : Trees)
    → let (colored, next) = color_trees 0 1 ts in Consecutive 1 (tops_in 0 colored) next
color_trees-Consecutive ts = (tops_in-color_trees 0 1 ts (omega arith)).1
