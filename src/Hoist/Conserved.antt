-- ===== src/Hoist/Conserved.antt =====
-- No block is lost or counted twice by instrumentSFLoopSet of src/zray_loop.cc.
use zray.Base.{
  ℕ, ◌+◌, ◌≡◌, refl, Bool, true, false, Option, none, some, List, [], ◌∷◌, ◌++◌, map, arith, ◌==◌,
  if◌then◌else◌, inl, inr, Bool-cases,
}
use zray.Base.Word.{wmul}
use zray.Blocks.{create_post_dom_sets}
use zray.Blocks.Partition.{occurrences, all_blocks, occurrences-append, create_post_dom_sets_lem}
use zray.Loops.{NodeData, Tree, node, Trees, no_trees, trees}
use zray.Hoist.{
  Counter, shared, hoisted, dynamic, Env, State, Outcome, Parent, contains, remove, sort_blocks,
  get_unique_loop_bb, instrument_post_dom_set, instrument_sf_loop_set, instrument_children,
  instrument_set, same_set, above, beside, first_of,
}

-- How often a block stands in the pairs of header_pd_blocks.
unfoldable pub occurrences_in : ℕ → List (List ℕ × ℕ) → ℕ
occurrences_in y [] = 0
occurrences_in y ((bs, sf) ∷ ps) = occurrences y bs + occurrences_in y ps

-- How often it is counted by the counters.
unfoldable pub counted_by : ℕ → List Counter → ℕ
counted_by y [] = 0
counted_by y (shared bs ∷ cs) = occurrences y bs + counted_by y cs
counted_by y (hoisted ps ∷ cs) = occurrences_in y ps + counted_by y cs
counted_by y (dynamic bs ∷ cs) = occurrences y bs + counted_by y cs

-- In the region still, or counted.
abbrev pub total : ℕ → State → ℕ
total y s = occurrences y s.pragma_blocks + counted_by y s.counters

pub counted_by-append :
    (y : ℕ) (cs ds : List Counter) → counted_by y (cs ++ ds) ≡ counted_by y cs + counted_by y ds
unfolding counted_by
counted_by-append y [] ds = omega arith
counted_by-append y (shared bs ∷ cs) ds = omega (arith, counted_by-append y cs ds)
counted_by-append y (hoisted ps ∷ cs) ds = omega (arith, counted_by-append y cs ds)
counted_by-append y (dynamic bs ∷ cs) ds = omega (arith, counted_by-append y cs ds)

counted_by-map_shared :
    (y : ℕ) (sets : List (List ℕ))
    → counted_by y (map shared sets) ≡ occurrences y (all_blocks sets)
unfolding counted_by occurrences
counted_by-map_shared y [] = refl
counted_by-map_shared y (bs ∷ sets) =
    omega (arith, counted_by-map_shared y sets, occurrences-append y bs (all_blocks sets))

occurrences_in-append :
    (y : ℕ) (ps qs : List (List ℕ × ℕ))
    → occurrences_in y (ps ++ qs) ≡ occurrences_in y ps + occurrences_in y qs
unfolding occurrences_in
occurrences_in-append y [] qs = omega arith
occurrences_in-append y ((bs, sf) ∷ ps) qs = omega (arith, occurrences_in-append y ps qs)

pub occurrences-remove :
    (y b : ℕ) (xs : List ℕ)
    → contains b xs ≡ true
    → occurrences y (remove b xs) + (if b == y then 1 else 0) ≡ occurrences y xs
unfolding remove occurrences
occurrences-remove y b [] h = ground (arith, h)
occurrences-remove y b (x ∷ xs) h = elim (Bool-cases (contains b xs)) [
  | inl e ↦ ground (arith, h, occurrences-remove y b xs e)
  | inr e ↦ ground (arith, h, e)
]

pub sort_blocks-total :
    (test : ℕ → Bool) (y : ℕ) (bs pragma : List ℕ)
    → let s = sort_blocks test bs pragma in
      occurrences y s.passed + occurrences y s.others + occurrences y s.remaining
      ≡ occurrences y pragma
unfolding sort_blocks occurrences
sort_blocks-total test y [] pragma = omega arith
sort_blocks-total test y (b ∷ bs) pragma = elim (Bool-cases (contains b pragma)) [
  | inl e ↦
      ground
        (arith, e, sort_blocks-total test y bs (remove b pragma), occurrences-remove y b pragma e)
  | inr e ↦ ground (arith, e, sort_blocks-total test y bs pragma)
]

pub instrument_post_dom_set-total :
    (env : Env) (npd : List ℕ) (s : State) (y : ℕ)
    → total y (instrument_post_dom_set env npd s) ≡ total y s + occurrences y npd
unfolding instrument_post_dom_set
instrument_post_dom_set-total env npd s y =
    let sets = create_post_dom_sets env.apply_post_dom_sets env.post env.dom npd in
    omega (
      arith,
      counted_by-append y s.counters (map shared sets),
      counted_by-map_shared y sets,
      (create_post_dom_sets_lem env.apply_post_dom_sets env.post env.dom npd).0 y,
    )

mutual
  unfolding instrument_sf_loop_set occurrences_in

  instrument_sf_loop_set-total :
      (env : Env) (parent : Parent) (sf id : ℕ) (t : Tree) (s : State) (y : ℕ)
      → let o = instrument_sf_loop_set env parent sf id t s in
        total y o.state + occurrences_in y o.header_pd_blocks ≡ total y s
  instrument_sf_loop_set-total env parent sf id (node d kids) s y =
      let inside = same_set parent d.set_color in
      let sf1 = if inside then wmul d.scale_factor sf else d.scale_factor in
      let test = λ (b : ℕ). env.post b d.facts.header in
      let unique = get_unique_loop_bb d.facts d.subloops in
      let sorted = sort_blocks test unique s.pragma_blocks in
      let taken = record s { pragma_blocks = sorted.remaining } in
      let after = instrument_post_dom_set env sorted.others taken in
      ground (
        arith,
        sort_blocks-total test y unique s.pragma_blocks,
        instrument_post_dom_set-total env sorted.others taken y,
        instrument_children-total env (some (d.facts.header, d.set_color)) sf1 id kids after y,
      )

  instrument_children-total :
      (env : Env) (parent : Parent) (sf id : ℕ) (ts : Trees) (s : State) (y : ℕ)
      → let o = instrument_children env parent sf id ts s in
        total y o.state + occurrences_in y o.header_pd_blocks ≡ total y s
  instrument_children-total env parent sf id no_trees s y = omega arith
  instrument_children-total env parent sf id (trees t ts) s y =
      let first = instrument_sf_loop_set env parent sf id t s in
      let rest = instrument_children env parent sf id ts first.state in
      omega (
        arith,
        instrument_sf_loop_set-total env parent sf id t s y,
        instrument_children-total env parent sf id ts first.state y,
        occurrences_in-append y first.header_pd_blocks rest.header_pd_blocks,
      )

-- The same of what findLoopTreeSet may have found.
abbrev pub Conserves : ℕ → ℕ → Option (Outcome Trees) → Type 0
Conserves y n none = Unit
Conserves y n (some o) = total y o.state + occurrences_in y o.header_pd_blocks ≡ n

first_of-Conserves :
    (y n : ℕ) (a b : Option (Outcome Trees))
    → Conserves y n a
    → Conserves y n b
    → Conserves y n (first_of a b)
first_of-Conserves y n none b h k = k
first_of-Conserves y n (some o) b h k = h

if_Conserves :
    (b : Bool) (y n : ℕ) (a c : Option (Outcome Trees))
    → Conserves y n a
    → Conserves y n c
    → Conserves y n (if b then a else c)
if_Conserves true y n a c h k = h
if_Conserves false y n a c h k = k

above-Conserves :
    (y n : ℕ) (d : NodeData) (ts : Trees) (a : Option (Outcome Trees))
    → Conserves y n a
    → Conserves y n (above d ts a)
above-Conserves y n d ts none h = tt
above-Conserves y n d ts (some o) h = h

beside-Conserves :
    (y n : ℕ) (t : Tree) (a : Option (Outcome Trees)) → Conserves y n a → Conserves y n (beside t a)
beside-Conserves y n t none h = tt
beside-Conserves y n t (some o) h = h

pub instrument_set-Conserves :
    (env : Env) (parent : Parent) (id : ℕ) (ts : Trees) (s : State) (y : ℕ)
    → Conserves y (total y s) (instrument_set env parent id ts s)
unfolding instrument_set
instrument_set-Conserves env parent id no_trees s y = tt
instrument_set-Conserves env parent id (trees (node d kids) ts) s y =
    let inner = some (d.facts.header, d.set_color) in
    let below =
      above-Conserves y (total y s) d ts (instrument_set env inner id kids s)
        (instrument_set-Conserves env inner id kids s y) in
    let later =
      beside-Conserves y (total y s) (node d kids) (instrument_set env parent id ts s)
        (instrument_set-Conserves env parent id ts s y) in
    if_Conserves (d.set_color == id) y (total y s) _ _
      (instrument_sf_loop_set-total env parent 1 id (node d kids) s y)
      (first_of-Conserves y (total y s) _ _ below later)
