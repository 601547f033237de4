-- ===== src/Hoist/Colors.antt =====
-- The colours of a tree of loops in src/zray_loop.cc: how many nodes have a colour, or one from a
-- number on.
use zray.Base.{ℕ, ◌+◌, ◌≤◌, ◌<◌, ◌≡◌, ◌≢◌, arith, leb, ◌==◌, if◌then◌else◌, ◌⊎◌}
use zray.Loops.{
  NodeData, Tree, node, Trees, no_trees, trees, recolor, recolor_all, color_of, color_tree,
  color_trees,
}

unfoldable mutual
  pub colored : ℕ → Tree → ℕ
  colored c (node d kids) = (if d.set_color == c then 1 else 0) + colored_in c kids

  pub colored_in : ℕ → Trees → ℕ
  colored_in c no_trees = 0
  colored_in c (trees t ts) = colored c t + colored_in c ts

unfoldable mutual
  pub from : ℕ → Tree → ℕ
  from k (node d kids) = (if leb k d.set_color then 1 else 0) + from_in k kids

  pub from_in : ℕ → Trees → ℕ
  from_in k no_trees = 0
  from_in k (trees t ts) = from k t + from_in k ts

mutual
  unfolding from

  pub from_suc : (k : ℕ) (t : Tree) → from (k + 1) t ≤ from k t
  from_suc k (node d kids) = ground (arith, from_in_suc k kids)

  pub from_in_suc : (k : ℕ) (ts : Trees) → from_in (k + 1) ts ≤ from_in k ts
  from_in_suc k no_trees = omega arith
  from_in_suc k (trees t ts) = omega (arith, from_suc k t, from_in_suc k ts)

-- Recolouring a set.
mutual
  unfolding from recolor

  pub from-recolor : (k new : ℕ) (t : Tree) → k < new → from (k + 1) (recolor k new t) ≤ from k t
  from-recolor k new (node d kids) h =
      ground (arith, h, from_in-recolor k new kids h, from_in_suc k kids)

  from_in-recolor :
      (k new : ℕ) (ts : Trees) → k < new → from_in (k + 1) (recolor_all k new ts) ≤ from_in k ts
  from_in-recolor k new no_trees h = omega arith
  from_in-recolor k new (trees t ts) h =
      omega (arith, from-recolor k new t h, from_in-recolor k new ts h)

mutual
  unfolding colored recolor

  pub colored-recolor : (k new c : ℕ) (t : Tree) → c ≢ k → colored c t ≤ colored c (recolor k new t)
  colored-recolor k new c (node d kids) h = ground (arith, h, colored_in-recolor k new c kids h)

  colored_in-recolor :
      (k new c : ℕ) (ts : Trees) → c ≢ k → colored_in c ts ≤ colored_in c (recolor_all k new ts)
  colored_in-recolor k new c no_trees h = omega arith
  colored_in-recolor k new c (trees t ts) h =
      omega (arith, colored-recolor k new c t h, colored_in-recolor k new c ts h)

pub recolor-new :
    (new : ℕ) (d : NodeData) (kids : Trees)
    → 1 ≤ colored new (recolor d.set_color new (node d kids))
unfolding colored recolor
recolor-new new d kids = ground arith

-- A node takes a new number, or none.
color_of-next :
    (parent next : ℕ) (d : NodeData)
    → let (color, next1) = color_of parent next d in
      (next1 ≡ next) ⊎ ((color ≡ next) × (next1 ≡ next + 1))
unfolding color_of
color_of-next parent next d = ground arith

-- colorLoopTreeSF gives each number from `next` to what it leaves in LOOP_SF_SET to some node.
mutual
  unfolding colored color_tree color_of

  color_tree-new :
      (parent next : ℕ) (t : Tree)
      → let (t1, next1) = color_tree parent next t in
        (next ≤ next1) × ((c : ℕ) → next ≤ c → c < next1 → 1 ≤ colored c t1)
  color_tree-new parent next (node d kids) =
      let (color, next1) = color_of parent next d in
      let below = color_trees-new color next1 kids in
      let step = color_of-next parent next d in
      (ground (arith, step, below.0), λ c h k. ground (arith, step, below.1 c, h, k))

  pub color_trees-new :
      (parent next : ℕ) (ts : Trees)
      → let (ts1, next1) = color_trees parent next ts in
        (next ≤ next1) × ((c : ℕ) → next ≤ c → c < next1 → 1 ≤ colored_in c ts1)
  color_trees-new parent next no_trees = (omega arith, λ c h k. omega (arith, h, k))
  color_trees-new parent next (trees t ts) =
      let first = color_tree-new parent next t in
      let rest = color_trees-new parent (color_tree parent next t).1 ts in
      (omega (arith, first.0, rest.0), λ c h k. ground (arith, first.1 c, rest.1 c, h, k))
