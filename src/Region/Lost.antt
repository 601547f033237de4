-- ===== src/Region/Lost.antt =====
-- The fallback of _instrumentDynamicLoops in src/zray_loop.cc, when the counter is not hoisted.
use zray.Base.{
  ℕ, ◌≤◌, ◌≡◌, refl, Bool, true, false, ◌&&◌, List, [], ◌∷◌, arith, inl, inr, Bool-cases, ==-cases,
  subst,
}
use zray.Blocks.Partition.{occurrences}
use zray.Loops.{NodeData}
use zray.Hoist.{Env, State, contains, remove, sort_blocks, get_unique_loop_bb}
use zray.Hoist.Conserved.{
  counted_by, total, sort_blocks-total, instrument_post_dom_set-total, occurrences-remove,
}
use zray.Region.{
  is_countable, is_empty, insert_dynamic_loop_counter, fall_back, instrument_dynamic_loop,
}

absent-occurrences : (y : ℕ) (xs : List ℕ) → contains y xs ≡ false → occurrences y xs ≡ 0
unfolding occurrences
absent-occurrences y [] h = refl
absent-occurrences y (x ∷ xs) h = ground (arith, h, absent-occurrences y xs)

-- The sorting loop takes each block that it is given out of the region.
sort_blocks-takes :
    (test : ℕ → Bool) (y : ℕ) (bs pragma : List ℕ)
    → contains y bs ≡ true
    → occurrences y pragma ≤ 1
    → occurrences y (sort_blocks test bs pragma).remaining ≡ 0
unfolding sort_blocks
sort_blocks-takes test y [] pragma h k = ground (arith, h)
sort_blocks-takes test y (b ∷ bs) pragma h k =
    let left = remove b pragma in
    elim (Bool-cases (contains b pragma)) [
      | inl e ↦ ground (
        arith,
        h,
        k,
        e,
        occurrences-remove y b pragma e,
        sort_blocks-total test y bs left,
        sort_blocks-takes test y bs left,
      )
      | inr e ↦ elim (==-cases b y) [
        | inl same ↦ ground (
          arith,
          e,
          same,
          absent-occurrences y pragma (subst (λ x. contains x pragma ≡ false) same e),
          sort_blocks-total test y bs pragma,
        )
        | inr other ↦ ground (arith, h, k, e, other, sort_blocks-takes test y bs pragma)
      ]
    ]

-- If ScalarEvolution cannot hoist the counter of a loop after all, and some block of the loop's own
-- was to get it, then no block of the loop's own is counted: each is taken out of the region, and
-- none is found there when the fallback looks for them again.
pub instrument_dynamic_loop-loses :
    (env : Env) (d : NodeData) (s : State) (y : ℕ)
    → d.set_color ≡ 0
    → env.regains d.facts.header ≡ false
    → is_empty
        (sort_blocks
          (λ b. is_countable d.facts && env.post b d.facts.header)
          (get_unique_loop_bb d.facts d.subloops)
          s.pragma_blocks).passed
      ≡ false
    → contains y (get_unique_loop_bb d.facts d.subloops) ≡ true
    → occurrences y s.pragma_blocks ≤ 1
    → total y (instrument_dynamic_loop env d s) ≡ counted_by y s.counters
unfolding instrument_dynamic_loop insert_dynamic_loop_counter fall_back
instrument_dynamic_loop-loses env d s y c r e h k =
    let test = λ (b : ℕ). is_countable d.facts && env.post b d.facts.header in
    let unique = get_unique_loop_bb d.facts d.subloops in
    let sorted = sort_blocks test unique s.pragma_blocks in
    let again = sort_blocks (λ b. false) unique sorted.remaining in
    let last = record s { pragma_blocks = again.remaining } in
    rw (c, r, e)
      (omega (
        arith,
        instrument_post_dom_set-total env again.others last y,
        sort_blocks-total (λ b. false) y unique sorted.remaining,
        sort_blocks-takes test y unique s.pragma_blocks h k,
      ))
