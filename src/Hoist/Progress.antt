-- ===== src/Hoist/Progress.antt =====
-- instrumentSFLoopSet of src/zray_loop.cc finishes a set: what it does to the colours of the tree.
use zray.Base.{
  ℕ, ◌+◌, ◌≤◌, ◌<◌, ◌≡◌, ◌≢◌, refl, Bool, true, false, not, ◌&&◌, ◌||◌, Option, none, some, [],
  if_cases, subst, arith, leb, ltb, ◌==◌, if◌then◌else◌, inl, inr, Bool-cases, ◌∙◌, ap,
}
use zray.Loops.{NodeData, Tree, node, Trees, no_trees, trees, recolor}
use zray.Base.Word.{wmul}
use zray.Hoist.{
  Env, State, Outcome, Parent, sort_blocks, get_unique_loop_bb, instrument_post_dom_set,
  instrument_sf_loop_set, instrument_children, instrument_set, same_set, reaches, above, beside,
  first_of,
}
use zray.Hoist.Colors.{
  colored, colored_in, from, from_in, from_suc, from_in_suc, from-recolor, colored-recolor,
  recolor-new,
}

-- From colours counted by `before` and numbers up to `s0` to those counted by `after` and up to
-- `s1`: no node has left a set but `id`, and each new number is some node's colour.
pub record Renamed (id s0 s1 : ℕ) (before after : ℕ → ℕ) : Type 0 where
  pub grows : s0 ≤ s1
  pub keeps : (c : ℕ) → c ≢ id → before c ≤ after c
  pub fresh : (c : ℕ) → s0 ≤ c → c < s1 → 1 ≤ after c

-- So a node, and what is made of it.
abbrev pub Finishes : ℕ → Tree → State → Outcome Tree → Type 0
Finishes id t s o =
    (from (id + 1) o.tree ≤ from id t)
    × Renamed id s.loop_sf_set o.state.loop_sf_set (λ c. colored c t) (λ c. colored c o.tree)

unchanged : (id s0 : ℕ) (count : ℕ → ℕ) → Renamed id s0 s0 count count
unchanged id s0 count = record {
  grows = omega arith;
  keeps = λ c k. omega arith;
  fresh = λ c k l. absurd (omega (arith, k, l));
}

-- A node whose set is split off.
abbrev recolored : NodeData → Trees → State → Outcome Tree
recolored d kids s = record {
  tree = recolor d.set_color s.loop_sf_set (node d kids);
  state = record s { loop_sf_set = s.loop_sf_set + 1 };
  header_pd_blocks = [];
}

recolor-Finishes :
    (d : NodeData) (kids : Trees) (s : State)
    → d.set_color < s.loop_sf_set
    → Finishes d.set_color (node d kids) s (recolored d kids s)
recolor-Finishes d kids s h = (
  from-recolor d.set_color s.loop_sf_set (node d kids) h,
  record {
    grows = omega arith;
    keeps = λ c k. colored-recolor d.set_color s.loop_sf_set c (node d kids) k;
    fresh = λ c k l.
        subst (λ n. 1 ≤ colored n (recolor d.set_color s.loop_sf_set (node d kids)))
          (omega (arith, k, l)) (recolor-new s.loop_sf_set d kids);
  },
)

mutual
  unfolding instrument_sf_loop_set instrument_post_dom_set colored from

  instrument_sf_loop_set-Renamed :
      (env : Env) (parent : Parent) (sf id : ℕ) (t : Tree) (s : State)
      → id < s.loop_sf_set
      → Finishes id t s (instrument_sf_loop_set env parent sf id t s)
  instrument_sf_loop_set-Renamed env parent sf id (node d kids) s h =
      let inside = same_set parent d.set_color in
      let sf1 = if inside then wmul d.scale_factor sf else d.scale_factor in
      let sorted =
        sort_blocks (λ b. env.post b d.facts.header) (get_unique_loop_bb d.facts d.subloops)
          s.pragma_blocks in
      let after =
        instrument_post_dom_set env sorted.others (record s { pragma_blocks = sorted.remaining }) in
      let below =
        instrument_children-Renamed env (some (d.facts.header, d.set_color)) sf1 id kids after h in
      if_cases (Finishes id (node d kids) s) (not (d.set_color == id)) _ _
        (λ e.
          (from_suc id (node d kids), unchanged id s.loop_sf_set (λ c. colored c (node d kids))))
        (λ e.
          if_cases (Finishes id (node d kids) s)
            (inside && not (reaches env.post parent d.facts.header)) _ _
            (λ r.
              subst (λ k. Finishes k (node d kids) s (recolored d kids s)) (ground (arith, e))
                (recolor-Finishes d kids s (ground (arith, e, h))))
            (λ r. (
              ground (arith, e, below.0),
              record {
                grows = below.1.grows;
                keeps = λ c k. omega (arith, below.1.keeps c k);
                fresh = λ c k l. omega (arith, below.1.fresh c k l);
              },
            )))

  instrument_children-Renamed :
      (env : Env) (parent : Parent) (sf id : ℕ) (ts : Trees) (s : State)
      → id < s.loop_sf_set
      → let o = instrument_children env parent sf id ts s in
        (from_in (id + 1) o.tree ≤ from_in id ts)
        × Renamed id s.loop_sf_set o.state.loop_sf_set
            (λ c. colored_in c ts)
            (λ c. colored_in c o.tree)
  instrument_children-Renamed env parent sf id no_trees s h =
      (omega arith, unchanged id s.loop_sf_set (λ c. 0))
  instrument_children-Renamed env parent sf id (trees t ts) s h =
      let o = instrument_sf_loop_set env parent sf id t s in
      let first = instrument_sf_loop_set-Renamed env parent sf id t s h in
      let rest =
        instrument_children-Renamed env parent sf id ts o.state (omega (arith, h, first.1.grows)) in
      (
        omega (arith, first.0, rest.0),
        record {
          grows = omega (arith, first.1.grows, rest.1.grows);
          keeps = λ c k. omega (arith, first.1.keeps c k, rest.1.keeps c k);
          fresh = λ c k l. elim (Bool-cases (ltb c o.state.loop_sf_set)) [
            | inl e ↦ omega (arith, first.1.fresh c k (ground (arith, e)))
            | inr e ↦ omega (arith, rest.1.fresh c (ground (arith, e)) l)
          ];
        },
      )

-- The first node of a set, whose parent is in another, stays in the set.
first_node-from :
    (env : Env) (parent : Parent) (d : NodeData) (kids : Trees) (s : State)
    → d.set_color < s.loop_sf_set
    → same_set parent d.set_color ≡ false
    → from (d.set_color + 1) (instrument_sf_loop_set env parent 1 d.set_color (node d kids) s).tree
        + 1
      ≤ from d.set_color (node d kids)
unfolding instrument_sf_loop_set instrument_post_dom_set from
first_node-from env parent d kids s h p =
    let sorted =
      sort_blocks (λ b. env.post b d.facts.header) (get_unique_loop_bb d.facts d.subloops)
        s.pragma_blocks in
    let after =
      instrument_post_dom_set env sorted.others (record s { pragma_blocks = sorted.remaining }) in
    let below =
      instrument_children-Renamed env (some (d.facts.header, d.set_color)) d.scale_factor
        d.set_color kids after h in
    rw p (ground (arith, below.0))

-- What findLoopTreeSet and instrumentSFLoopSet leave, if they find the set: fewer nodes to come.
abbrev pub Advances : ℕ → Trees → State → Option (Outcome Trees) → Type 0
Advances id ts s none = Unit
Advances id ts s (some o) =
    (from_in (id + 1) o.tree + 1 ≤ from_in id ts)
    × Renamed id s.loop_sf_set o.state.loop_sf_set (λ c. colored_in c ts) (λ c. colored_in c o.tree)

first_of-Advances :
    (id : ℕ) (ts : Trees) (s : State) (a b : Option (Outcome Trees))
    → Advances id ts s a
    → Advances id ts s b
    → Advances id ts s (first_of a b)
first_of-Advances id ts s none b h k = k
first_of-Advances id ts s (some o) b h k = h

above-Advances :
    (id : ℕ) (d : NodeData) (kids ts : Trees) (s : State) (a : Option (Outcome Trees))
    → Advances id kids s a
    → Advances id (trees (node d kids) ts) s (above d ts a)
unfolding from colored
above-Advances id d kids ts s none h = tt
above-Advances id d kids ts s (some o) h = (
  ground (arith, h.0, from_in_suc id ts),
  record {
    grows = h.1.grows;
    keeps = λ c k. omega (arith, h.1.keeps c k);
    fresh = λ c k l. omega (arith, h.1.fresh c k l);
  },
)

beside-Advances :
    (id : ℕ) (t : Tree) (ts : Trees) (s : State) (a : Option (Outcome Trees))
    → Advances id ts s a
    → Advances id (trees t ts) s (beside t a)
unfolding from colored
beside-Advances id t ts s none h = tt
beside-Advances id t ts s (some o) h = (
  omega (arith, h.0, from_suc id t),
  record {
    grows = h.1.grows;
    keeps = λ c k. omega (arith, h.1.keeps c k);
    fresh = λ c k l. omega (arith, h.1.fresh c k l);
  },
)

pub instrument_set-Advances :
    (env : Env) (parent : Parent) (id : ℕ) (ts : Trees) (s : State)
    → id < s.loop_sf_set
    → same_set parent id ≡ false
    → Advances id ts s (instrument_set env parent id ts s)
unfolding instrument_set from colored
instrument_set-Advances env parent id no_trees s h p = tt
instrument_set-Advances env parent id (trees (node d kids) ts) s h p =
    if_cases (Advances id (trees (node d kids) ts) s) (d.set_color == id) _ _
      (λ e.
        let same : d.set_color ≡ id = ground (arith, e) in
        let here = instrument_sf_loop_set-Renamed env parent 1 id (node d kids) s h in
        let strict =
          subst
            (λ k.
              from (k + 1) (instrument_sf_loop_set env parent 1 k (node d kids) s).tree + 1
              ≤ from k (node d kids))
            same
            (first_node-from env parent d kids s (omega (arith, same, h))
              (ap (same_set parent) same ∙ p)) in
        (
          omega (arith, strict, from_in_suc id ts),
          record {
            grows = here.1.grows;
            keeps = λ c k. omega (arith, here.1.keeps c k);
            fresh = λ c k l. omega (arith, here.1.fresh c k l);
          },
        ))
      (λ e.
        let inner : Parent = some (d.facts.header, d.set_color) in
        first_of-Advances id (trees (node d kids) ts) s _ _
          (above-Advances id d kids ts s (instrument_set env inner id kids s)
            (instrument_set-Advances env inner id kids s h e))
          (beside-Advances id (node d kids) ts s (instrument_set env parent id ts s)
            (instrument_set-Advances env parent id ts s h p)))

-- A set that some node belongs to is found.
abbrev pub is_some {ℓ} : {A : Type ℓ} → Option A → Bool
is_some none = false
is_some (some a) = true

is_some-above :
    (d : NodeData) (ts : Trees) (a : Option (Outcome Trees)) → is_some (above d ts a) ≡ is_some a
is_some-above d ts none = refl
is_some-above d ts (some o) = refl

is_some-beside : (t : Tree) (a : Option (Outcome Trees)) → is_some (beside t a) ≡ is_some a
is_some-beside t none = refl
is_some-beside t (some o) = refl

is_some-first_of :
    (a b : Option (Outcome Trees)) → is_some (first_of a b) ≡ (is_some a || is_some b)
is_some-first_of none b = refl
is_some-first_of (some o) b = refl

or_true : (b : Bool) → (b || true) ≡ true
or_true true = refl
or_true false = refl

pub instrument_set-found :
    (env : Env) (parent : Parent) (id : ℕ) (ts : Trees) (s : State)
    → 1 ≤ colored_in id ts
    → is_some (instrument_set env parent id ts s) ≡ true
unfolding instrument_set colored
instrument_set-found env parent id no_trees s h = absurd (omega (arith, h))
instrument_set-found env parent id (trees (node d kids) ts) s h =
    let inner : Parent = some (d.facts.header, d.set_color) in
    let below = instrument_set env inner id kids s in
    let later = instrument_set env parent id ts s in
    if_cases (λ o. is_some o ≡ true) (d.set_color == id) _
      (first_of (above d ts below) (beside (node d kids) later)) (λ e. refl)
      (λ e.
        is_some-first_of (above d ts below) (beside (node d kids) later)
        ∙ elim (Bool-cases (leb 1 (colored_in id kids))) [
          | inl k ↦
              ap (λ b. b || is_some (beside (node d kids) later))
                (is_some-above d ts below
                  ∙ instrument_set-found env inner id kids s (ground (arith, k)))
          | inr k ↦
              ap (λ b. is_some (above d ts below) || b)
                (is_some-beside (node d kids) later
                  ∙ instrument_set-found env parent id ts s (ground (arith, e, h, k)))
              ∙ or_true (is_some (above d ts below))
        ])
