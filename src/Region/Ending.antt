-- ===== src/Region/Ending.antt =====
-- The loop over the sets of loops in InstrumentPragmaRegion of src/zray_pass.cc ends, and never
-- follows a null pointer, although LOOP_SF_SET may grow under way.
use zray.Base.{
  ℕ, zero, suc, ◌+◌, ◌≤◌, ◌<◌, ◌≡◌, refl, sym, true, none, some, arith, ◌∙◌, ap, inl, inr,
  Bool-cases, if_cases, option_cases, ltb, subst,
}
use zray.Loops.{Tree, node, Trees, no_trees, trees, color_of, color_tree, color_trees}
use zray.Hoist.{Env, State, Outcome, instrument_set}
use zray.Hoist.Colors.{colored_in, from, from_in}
use zray.Hoist.Progress.{Advances, is_some, instrument_set-Advances, instrument_set-found}
use zray.Region.{nodes, nodes_in, instrument_sets, with_counter}

-- Each set from `j` on has a node.
abbrev pub AllFound : ℕ → Trees → State → Type 0
AllFound j ts s = (c : ℕ) → j ≤ c → c < s.loop_sf_set → 1 ≤ colored_in c ts

AllFound-next :
    (j : ℕ) (ts : Trees) (s : State) (r : Outcome Trees)
    → Advances j ts s (some r)
    → AllFound j ts s
    → AllFound (j + 1) r.tree (with_counter r)
AllFound-next j ts s r b h c p q = elim (Bool-cases (ltb c s.loop_sf_set)) [
  | inl e ↦
      omega
        (arith, b.1.keeps c (λ t. omega (arith, t, p)), h c (omega (arith, p)) (ground (arith, e)))
  | inr e ↦ b.1.fresh c (ground (arith, e)) q
]

pub instrument_sets-ends :
    (fuel : ℕ) (env : Env) (j : ℕ) (ts : Trees) (s : State)
    → AllFound j ts s
    → from_in j ts < fuel
    → is_some (instrument_sets fuel env j ts s) ≡ true
unfolding instrument_sets
instrument_sets-ends zero env j ts s h k = absurd (omega (arith, k))
instrument_sets-ends (suc fuel) env j ts s h k =
    if_cases (λ o. is_some o ≡ true) (ltb j s.loop_sf_set) _ (some (ts, s))
      (λ e.
        let l : j < s.loop_sf_set = ground (arith, e) in
        let a = instrument_set-Advances env none j ts s l refl in
        let f = instrument_set-found env none j ts s (h j (omega arith) l) in
        option_cases (λ o. is_some o ≡ true) (instrument_set env none j ts s) none
          (λ r. instrument_sets fuel env (j + 1) r.tree (with_counter r))
          (λ q. sym (ap is_some q) ∙ f)
          (λ r q.
            let b = subst (Advances j ts s) q a in
            instrument_sets-ends fuel env (j + 1) r.tree (with_counter r)
              (AllFound-next j ts s r b h) (omega (arith, b.0, k))))
      (λ e. refl)

mutual
  unfolding nodes from

  from-nodes : (k : ℕ) (t : Tree) → from k t ≤ nodes t
  from-nodes k (node d kids) = ground (arith, from_in-nodes k kids)

  pub from_in-nodes : (k : ℕ) (ts : Trees) → from_in k ts ≤ nodes_in ts
  from_in-nodes k no_trees = omega arith
  from_in-nodes k (trees t ts) = omega (arith, from-nodes k t, from_in-nodes k ts)

-- Colouring keeps the nodes.
mutual
  unfolding nodes color_tree

  nodes-color_tree : (parent next : ℕ) (t : Tree) → nodes (color_tree parent next t).0 ≡ nodes t
  nodes-color_tree parent next (node d kids) =
      ap (λ n. 1 + n)
        (nodes_in-color_trees (color_of parent next d).0 (color_of parent next d).1 kids)

  pub nodes_in-color_trees :
      (parent next : ℕ) (ts : Trees) → nodes_in (color_trees parent next ts).0 ≡ nodes_in ts
  nodes_in-color_trees parent next no_trees = refl
  nodes_in-color_trees parent next (trees t ts) = omega (
    arith,
    nodes-color_tree parent next t,
    nodes_in-color_trees parent (color_tree parent next t).1 ts,
  )
