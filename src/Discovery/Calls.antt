-- ===== src/Discovery/Calls.antt =====
-- The calls that the search of recordPragmaRegions of src/zray_parse.cc puts in front of end markers.
use zray.Base.{ℕ, zero, suc, sym, subst, Bool-cases, inl, inr, List, [], ◌∷◌, length, All, All-map}
use zray.Discovery.{
  Function, SztBbvec, Open, EndCall, Search, begin_lines, add_block, marker_group, is_visited,
  record_block, visit_new, record_pragma_regions, search, no_search,
}
use zray.Discovery.Keys.{keys, Extends, Known, keys-add_block}
use zray.Discovery.Numbers.{Extends-All, begin_lines-Opens, Numbered, close_lines-Closes}

-- The calls so far are numbered by the groups so far.
abbrev pub Told : ℕ → Search → Type 0
Told base s = All (Numbered base (keys s.groups)) s.calls

-- From one search to a later one BasicBlockGroupList grows, and the calls are still numbered by it.
abbrev Onward : ℕ → Search → Search → Type 0
Onward base s t = Extends (keys s.groups) (keys t.groups) × Told base t

Extends-Numbered :
    (base : ℕ) (ks more : List ℕ)
    → Extends ks more
    → (c : EndCall) → Numbered base ks c
    → Numbered base more c
Extends-Numbered base ks more e c (p, r, h) = (p, r, e p (marker_group c.marker) h)

-- The open groups of a stack are known.
abbrev OpenIn : Search → List SztBbvec → Type 0
OpenIn s stack = All (Known (keys s.groups)) (keys stack)

record_block-Onward :
    (f : Function) (base b : ℕ) (stack : List SztBbvec) (s : Search)
    → OpenIn s stack
    → Told base s
    → Onward base s (record_block f base b stack s).1
      × OpenIn (record_block f base b stack s).1 (record_block f base b stack s).0
unfolding record_block
record_block-Onward f base b stack s h t =
    let before : Open = record { groups = s.groups; id_stack = stack } in
    let opened = begin_lines b (f.lines b) before in
    let groups = add_block b opened.id_stack opened.groups in
    let (opening, inside) = begin_lines-Opens b (f.lines b) before in
    let same = sym (keys-add_block b opened.id_stack opened.groups) in
    let grown : Extends (keys s.groups) (keys groups) =
      subst (Extends (keys s.groups)) same opening in
    let (left, calls) =
      close_lines-Closes f base groups b (f.lines b)
        (record { id_stack = opened.id_stack; calls = s.calls; warnings = s.warnings })
        (
          subst (λ ks. All (Known ks) (keys opened.id_stack)) same (inside h),
          All-map _ _ s.calls (Extends-Numbered base (keys s.groups) (keys groups) grown) t,
        ) in
    ((grown, calls), left)

-- A call on a block, from any state in which the stack's groups are known.
abbrev Keeps : ℕ → List SztBbvec → (ℕ → Search → Search) → Type 0
Keeps base stack visit =
    (c : ℕ) (t : Search) → OpenIn t stack → Told base t → Onward base t (visit c t)

visit_new-Onward :
    (base : ℕ) (stack : List SztBbvec) (visit : ℕ → Search → Search)
    → Keeps base stack visit
    → (cs : List ℕ) (s : Search) → OpenIn s stack
    → Told base s
    → Onward base s (visit_new visit cs s)
unfolding visit_new
visit_new-Onward base stack visit h [] s k t = (λ p g i. i, t)
visit_new-Onward base stack visit h (c ∷ cs) s k t = elim (Bool-cases (is_visited c s.visited)) [
  | inl seen ↦ rw (visit_new, seen) (visit_new-Onward base stack visit h cs s k t)
  | inr new ↦
      let (grown, told) = h c s k t in
      let inside = Extends-All (keys s.groups) (keys (visit c s).groups) (keys stack) grown k in
      let (more, end) = visit_new-Onward base stack visit h cs (visit c s) inside told in
      rw (visit_new, new) (λ p g i. more p g (grown p g i), end)
]

record_pragma_regions-Onward :
    (n : ℕ) (f : Function) (base b : ℕ) (stack : List SztBbvec) (s : Search)
    → OpenIn s stack
    → Told base s
    → Onward base s (record_pragma_regions n f base b stack s)
unfolding record_pragma_regions
record_pragma_regions-Onward zero f base b stack s h t = (λ p g i. i, t)
record_pragma_regions-Onward (suc n) f base b stack s h t =
    let ((grown, told), inside) = record_block-Onward f base b stack s h t in
    let (id_stack, next) = record_block f base b stack s in
    let (more, end) =
      visit_new-Onward base id_stack (λ c t. record_pragma_regions n f base c id_stack t)
        (λ c t k l. record_pragma_regions-Onward n f base c id_stack t k l) (f.successors b) next
        inside told in
    (λ p g i. more p g (grown p g i), end)

pub search-Told : (f : Function) (base : ℕ) (cfg : List ℕ) → Told base (search f base cfg)
unfolding search
search-Told f base [] = tt
search-Told f base (entry ∷ blocks) =
    (record_pragma_regions-Onward (suc (length blocks)) f base entry [] no_search tt tt).1
