-- ===== src/Region/Whole.antt =====
-- The instrumentation of a whole region, src/zray_pass.cc.
use zray.Base.{
  ℕ, ◌+◌, ◌≡◌, refl, sym, Option, none, some, List, [], arith, ◌∙◌, Option-cases, inl, inr,
  if_cases, subst,
}
use zray.Blocks.Partition.{occurrences}
use zray.Loops.{Trees, color_trees}
use zray.Hoist.{Counter, Env, State, instrument_post_dom_set}
use zray.Hoist.Conserved.{counted_by, total, instrument_post_dom_set-total}
use zray.Hoist.Colors.{color_trees-new}
use zray.Region.{
  nodes_in, instrument_sets, instrument_dynamic_loops, instrument_loops, instrument_region,
}
use zray.Region.Conserved.{Regains, Ends, instrument_sets-Ends, instrument_dynamic_loops-total}
use zray.Region.Ending.{instrument_sets-ends, from_in-nodes, nodes_in-color_trees}

-- The counters of a region, if it is done, count each block as often as `pragma` holds it.
abbrev pub CountsAll : List ℕ → Option (List Counter) → Type 0
CountsAll pragma none = ⊥
CountsAll pragma (some cs) = (y : ℕ) → counted_by y cs ≡ occurrences y pragma

-- A region with its blocks still to be counted.
abbrev start : ℕ → List ℕ → State
start next pragma = record { pragma_blocks = pragma; loop_sf_set = next; counters = [] }

instrument_loops-some :
    (env : Env) (ts : Trees) (pragma : List ℕ)
    → Regains env
    → (s : State) × (instrument_loops env ts pragma ≡ some s)
      × ((y : ℕ) → total y s ≡ occurrences y pragma)
unfolding instrument_loops counted_by
instrument_loops-some env ts pragma g =
    let colored = color_trees 0 1 ts in
    let s0 = start colored.1 pragma in
    let fuel = nodes_in ts + 1 in
    let found =
      instrument_sets-ends fuel env 1 colored.0 s0 (color_trees-new 0 1 ts).1
        (omega (arith, from_in-nodes 1 colored.0, nodes_in-color_trees 0 1 ts)) in
    elim (Option-cases (instrument_sets fuel env 1 colored.0 s0)) [
      | inl e ↦ ground (arith, found, e)
      | inr ((ts1, s1), e) ↦ (
        instrument_dynamic_loops env ts1 s1,
        rw (e, instrument_loops) refl,
        λ y.
            let ends =
              subst (Ends y (total y s0)) e (instrument_sets-Ends fuel env 1 colored.0 s0 y) in
            omega (arith, ends, instrument_dynamic_loops-total env ts1 s1 y g),
      )
    ]

-- The blocks that are left are counted last.
abbrev finish : Env → State → List Counter
finish env s = (instrument_post_dom_set env s.pragma_blocks s).counters

abbrev finished : Env → Option State → Option (List Counter)
finished env o = elim o [ none ↦ none | some s ↦ some (finish env s) ]

finish-counted : (env : Env) (s : State) (y : ℕ) → counted_by y (finish env s) ≡ total y s
unfolding instrument_post_dom_set
finish-counted env s y = omega (arith, instrument_post_dom_set-total env s.pragma_blocks s y)

-- The instrumentation of a region comes back, whatever its loops, and as long as ScalarEvolution
-- knows the loops that it hoists out of after SplitEdge too, the profiles of the counters together
-- hold each block exactly as often as the region's list of blocks does.
pub instrument_region-CountsAll :
    (env : Env) (ts : Trees) (pragma : List ℕ)
    → Regains env
    → CountsAll pragma (instrument_region env ts pragma)
unfolding instrument_region counted_by
instrument_region-CountsAll env ts pragma g =
    let (s, e, t) = instrument_loops-some env ts pragma g in
    if_cases (CountsAll pragma) env.apply_loop_hoisting _ _
      (λ h.
        subst (λ o. CountsAll pragma (finished env o)) (sym e) (λ y. finish-counted env s y ∙ t y))
      (λ h y. finish-counted env (start 1 pragma) y ∙ omega arith)

instrument_loops-ends :
    (env : Env) (ts : Trees) (pragma : List ℕ)
    → (s : State) × (instrument_loops env ts pragma ≡ some s)
unfolding instrument_loops
instrument_loops-ends env ts pragma =
    let colored = color_trees 0 1 ts in
    let s0 = start colored.1 pragma in
    let fuel = nodes_in ts + 1 in
    let found =
      instrument_sets-ends fuel env 1 colored.0 s0 (color_trees-new 0 1 ts).1
        (omega (arith, from_in-nodes 1 colored.0, nodes_in-color_trees 0 1 ts)) in
    elim (Option-cases (instrument_sets fuel env 1 colored.0 s0)) [
      | inl e ↦ ground (arith, found, e)
      | inr ((ts1, s1), e) ↦ (instrument_dynamic_loops env ts1 s1, rw (e, instrument_loops) refl)
    ]

-- A region always gets its counters.
pub instrument_region-ends :
    (env : Env) (ts : Trees) (pragma : List ℕ)
    → (cs : List Counter) × (instrument_region env ts pragma ≡ some cs)
unfolding instrument_region
instrument_region-ends env ts pragma =
    let (s, e) = instrument_loops-ends env ts pragma in
    if_cases (λ o. (cs : List Counter) × (o ≡ some cs)) env.apply_loop_hoisting _ _
      (λ h. (finish env s, rw e refl)) (λ h. (finish env (start 1 pragma), refl))
