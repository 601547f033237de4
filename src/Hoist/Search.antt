-- ===== src/Hoist/Search.antt =====
-- findLoopTreeSet of src/zray_loop.cc finds each set that colorLoopTreeSF has made.
use zray.Base.{
  ℕ, ◌≤◌, ◌<◌, ◌≡◌, Option, none, some, arith, ◌==◌, if_cases, leb, Bool-cases, inl, inr,
}
use zray.Loops.{
  Tree, node, Trees, no_trees, trees, color_trees, or_else, find_loop_tree_set, find_in_children,
}
use zray.Hoist.Colors.{colored, colored_in, color_trees-new}

-- A node of the set, and no null pointer.
abbrev pub IsNodeOf : ℕ → Option Tree → Type 0
IsNodeOf id none = ⊥
IsNodeOf id (some (node d kids)) = d.set_color ≡ id

or_else-left : (id : ℕ) (a b : Option Tree) → IsNodeOf id a → IsNodeOf id (or_else a b)
or_else-left id none b h = elim h [ ]
or_else-left id (some t) b h = h

-- The search in the first tree may fail, but finds no node of another set.
abbrev MayBeNodeOf : ℕ → Option Tree → Type 0
MayBeNodeOf id none = Unit
MayBeNodeOf id (some t) = IsNodeOf id (some t)

or_else-right :
    (id : ℕ) (a b : Option Tree) → MayBeNodeOf id a → IsNodeOf id b → IsNodeOf id (or_else a b)
or_else-right id none b h k = k
or_else-right id (some t) b h k = h

or_else-MayBeNodeOf :
    (id : ℕ) (a b : Option Tree)
    → MayBeNodeOf id a
    → MayBeNodeOf id b
    → MayBeNodeOf id (or_else a b)
or_else-MayBeNodeOf id none b h k = k
or_else-MayBeNodeOf id (some t) b h k = h

mutual
  unfolding find_loop_tree_set

  find_loop_tree_set-MayBeNodeOf : (id : ℕ) (t : Tree) → MayBeNodeOf id (find_loop_tree_set id t)
  find_loop_tree_set-MayBeNodeOf id (node d kids) =
      if_cases (MayBeNodeOf id) (d.set_color == id) _ _ (λ e. ground (arith, e))
        (λ e. find_in_children-MayBeNodeOf id kids)

  find_in_children-MayBeNodeOf : (id : ℕ) (ts : Trees) → MayBeNodeOf id (find_in_children id ts)
  find_in_children-MayBeNodeOf id no_trees = tt
  find_in_children-MayBeNodeOf id (trees t ts) =
      or_else-MayBeNodeOf id (find_loop_tree_set id t) (find_in_children id ts)
        (find_loop_tree_set-MayBeNodeOf id t) (find_in_children-MayBeNodeOf id ts)

mutual
  unfolding find_loop_tree_set colored

  find_loop_tree_set-IsNodeOf :
      (id : ℕ) (t : Tree) → 1 ≤ colored id t → IsNodeOf id (find_loop_tree_set id t)
  find_loop_tree_set-IsNodeOf id (node d kids) h =
      if_cases (IsNodeOf id) (d.set_color == id) _ _ (λ e. ground (arith, e))
        (λ e. find_in_children-IsNodeOf id kids (ground (arith, e, h)))

  find_in_children-IsNodeOf :
      (id : ℕ) (ts : Trees) → 1 ≤ colored_in id ts → IsNodeOf id (find_in_children id ts)
  find_in_children-IsNodeOf id no_trees h = absurd (omega (arith, h))
  find_in_children-IsNodeOf id (trees t ts) h = elim (Bool-cases (leb 1 (colored id t))) [
    | inl e ↦
        or_else-left id (find_loop_tree_set id t) (find_in_children id ts)
          (find_loop_tree_set-IsNodeOf id t (ground (arith, e)))
    | inr e ↦
        or_else-right id (find_loop_tree_set id t) (find_in_children id ts)
          (find_loop_tree_set-MayBeNodeOf id t)
          (find_in_children-IsNodeOf id ts (ground (arith, e, h)))
  ]

-- For each number from 1 up to the LOOP_SF_SET that colorLoopTreeSF leaves, findLoopTreeSet returns
-- a node of that colour, and no null pointer.
pub color_trees-IsNodeOf :
    (ts : Trees) (id : ℕ)
    → 1 ≤ id
    → id < (color_trees 0 1 ts).1
    → IsNodeOf id (find_in_children id (color_trees 0 1 ts).0)
color_trees-IsNodeOf ts id h k =
    find_in_children-IsNodeOf id (color_trees 0 1 ts).0 ((color_trees-new 0 1 ts).1 id h k)
