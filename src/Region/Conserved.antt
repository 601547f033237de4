-- ===== src/Region/Conserved.antt =====
-- Each block of a region and the counters it gets, in _instrumentDynamicLoops of src/zray_loop.cc.
use zray.Base.{
  ℕ, zero, suc, ◌+◌, ◌≡◌, refl, true, ◌&&◌, Option, none, some, List, [], ◌∷◌, ◌++◌, arith, ◌∙◌,
  inl, inr, Bool-cases, if_cases, option_cases, ltb, subst,
}
use zray.Blocks.Partition.{occurrences}
use zray.Loops.{NodeData, Tree, node, Trees, no_trees, trees}
use zray.Hoist.{
  Counter, hoisted, dynamic, Env, State, sort_blocks, get_unique_loop_bb, instrument_set,
}
use zray.Hoist.Conserved.{
  counted_by, total, counted_by-append, sort_blocks-total, instrument_post_dom_set-total,
  instrument_set-Conserves, Conserves, occurrences_in,
}
use zray.Region.{
  is_countable, is_empty, insert_dynamic_loop_counter, fall_back, instrument_dynamic_loop,
  instrument_dynamic_tree, instrument_dynamic_loops, instrument_sets, with_counter,
}

-- ScalarEvolution finds each loop's count again.
abbrev pub Regains : Env → Type 0
Regains env = (h : ℕ) → env.regains h ≡ true

is_empty-occurrences : (y : ℕ) (xs : List ℕ) → is_empty xs ≡ true → occurrences y xs ≡ 0
unfolding occurrences
is_empty-occurrences y [] h = refl
is_empty-occurrences y (x ∷ xs) h = ground (arith, h)

counted_by-snoc :
    (y : ℕ) (cs : List Counter) (bs : List ℕ)
    → counted_by y (cs ++ dynamic bs ∷ []) ≡ counted_by y cs + occurrences y bs
unfolding counted_by
counted_by-snoc y cs bs = omega (arith, counted_by-append y cs (dynamic bs ∷ []))

pub instrument_dynamic_loop-total :
    (env : Env) (d : NodeData) (s : State) (y : ℕ)
    → Regains env
    → total y (instrument_dynamic_loop env d s) ≡ total y s
unfolding instrument_dynamic_loop insert_dynamic_loop_counter fall_back
instrument_dynamic_loop-total env d s y g =
    let test = λ (b : ℕ). is_countable d.facts && env.post b d.facts.header in
    let unique = get_unique_loop_bb d.facts d.subloops in
    let sorted = sort_blocks test unique s.pragma_blocks in
    let taken = record s { pragma_blocks = sorted.remaining } in
    let added = record taken { counters = s.counters ++ dynamic sorted.passed ∷ [] } in
    rw (g d.facts.header) (elim (Bool-cases (is_empty sorted.passed)) [
      | inl e ↦ rw e (
          ground (
            arith,
            instrument_post_dom_set-total env sorted.others taken y,
            sort_blocks-total test y unique s.pragma_blocks,
            is_empty-occurrences y sorted.passed e,
          ))
      | inr e ↦ rw e (
          ground (
            arith,
            instrument_post_dom_set-total env sorted.others added y,
            sort_blocks-total test y unique s.pragma_blocks,
            counted_by-snoc y s.counters sorted.passed,
          ))
    ])

mutual
  unfolding instrument_dynamic_tree

  instrument_dynamic_tree-total :
      (env : Env) (t : Tree) (s : State) (y : ℕ)
      → Regains env
      → total y (instrument_dynamic_tree env t s) ≡ total y s
  instrument_dynamic_tree-total env (node d kids) s y g =
      instrument_dynamic_loops-total env kids (instrument_dynamic_loop env d s) y g
      ∙ instrument_dynamic_loop-total env d s y g

  pub instrument_dynamic_loops-total :
      (env : Env) (ts : Trees) (s : State) (y : ℕ)
      → Regains env
      → total y (instrument_dynamic_loops env ts s) ≡ total y s
  instrument_dynamic_loops-total env no_trees s y g = refl
  instrument_dynamic_loops-total env (trees t ts) s y g =
      instrument_dynamic_loops-total env ts (instrument_dynamic_tree env t s) y g
      ∙ instrument_dynamic_tree-total env t s y g

-- The pairs of header_pd_blocks get a counter.
counted_by-hoisted :
    (y : ℕ) (cs : List Counter) (ps : List (List ℕ × ℕ))
    → counted_by y (cs ++ hoisted ps ∷ []) ≡ counted_by y cs + occurrences_in y ps
unfolding counted_by
counted_by-hoisted y cs ps = omega (arith, counted_by-append y cs (hoisted ps ∷ []))

-- What instrument_sets may return.
abbrev pub Ends : ℕ → ℕ → Option (Trees × State) → Type 0
Ends y n none = Unit
Ends y n (some (ts, s)) = total y s ≡ n

pub instrument_sets-Ends :
    (fuel : ℕ) (env : Env) (j : ℕ) (ts : Trees) (s : State) (y : ℕ)
    → Ends y (total y s) (instrument_sets fuel env j ts s)
unfolding instrument_sets
instrument_sets-Ends zero env j ts s y = tt
instrument_sets-Ends (suc fuel) env j ts s y =
    if_cases (Ends y (total y s)) (ltb j s.loop_sf_set) _ (some (ts, s))
      (λ e.
        option_cases (Ends y (total y s)) (instrument_set env none j ts s) none
          (λ r. instrument_sets fuel env (j + 1) r.tree (with_counter r)) (λ f. tt)
          (λ r f.
            subst (λ n. Ends y n (instrument_sets fuel env (j + 1) r.tree (with_counter r)))
              (omega (
                arith,
                subst (Conserves y (total y s)) f (instrument_set-Conserves env none j ts s y),
                counted_by-hoisted y r.state.counters r.header_pd_blocks,
              ))
              (instrument_sets-Ends fuel env (j + 1) r.tree (with_counter r) y)))
      (λ e. refl)
