-- ===== src/Discovery/Walk.antt =====
-- The depth of recordPragmaRegions of src/zray_parse.cc, and the blocks that it visits.
use zray.Base.{
  ℕ, zero, suc, ◌≤◌, ◌≡◌, refl, sym, ◌∙◌, subst, true, false, Bool-cases, inl, inr, ◌↔◌, List, [],
  ◌∷◌, length, arith,
}
use mathlib.Core.Bool.{true≢false}
use zray.Discovery.{
  Function, SztBbvec, Search, is_visited, record_block, visit_new, record_pragma_regions, search,
  no_search,
}
use zray.Discovery.Reach.{
  Reaches, here, onward, In, in_head, in_tail, only, unseen, unseen_mono, unseen_less, unseen_bound,
  Explored, nothing-Explored, skip-Explored, join-Explored, block-Explored,
}

-- The blocks are the function's: a successor of one is one.
abbrev pub Enclosed : Function → List ℕ → Type 0
Enclosed f cfg = (x y : ℕ) → In x cfg → In y (f.successors x) → In y cfg

-- A call that may go so deep as blocks are left.
abbrev Enough : Function → List ℕ → ℕ → (ℕ → Search → Search) → Type 0
Enough f cfg n visit =
    (c : ℕ) (t : Search)
    → In c cfg
    → is_visited c t.visited ≡ false
    → unseen cfg t.visited ≤ n
    → Explored f (c ∷ []) t (visit c t)

visit_new-Explored :
    (f : Function) (cfg : List ℕ) (n : ℕ) (visit : ℕ → Search → Search)
    → Enough f cfg n visit
    → (cs : List ℕ) (s : Search) → ((x : ℕ) → In x cs → In x cfg)
    → unseen cfg s.visited ≤ n
    → Explored f cs s (visit_new visit cs s)
unfolding visit_new
visit_new-Explored f cfg n visit h [] s i u = nothing-Explored f s
visit_new-Explored f cfg n visit h (c ∷ cs) s i u =
    let behind = λ (x : ℕ) (k : In x cs). i x (in_tail x c cs k) in
    elim (Bool-cases (is_visited c s.visited)) [
      | inl seen ↦
          rw (visit_new, seen)
            (skip-Explored f c cs s _ seen (visit_new-Explored f cfg n visit h cs s behind u))
      | inr new ↦
          let first = h c s (i c (in_head c cs)) new u in
          let fewer = unseen_mono cfg s.visited (visit c s).visited first.kept in
          rw (visit_new, new)
            (join-Explored f c cs s (visit c s) _ first
              (visit_new-Explored f cfg n visit h cs (visit c s) behind (omega arith)))
    ]

-- With as much fuel as there are blocks left, a call visits all that its block leads to.
record_pragma_regions-Explored :
    (n : ℕ) (f : Function) (base b : ℕ) (stack : List SztBbvec) (s : Search) (cfg : List ℕ)
    → Enclosed f cfg
    → In b cfg
    → is_visited b s.visited ≡ false
    → unseen cfg s.visited ≤ n
    → Explored f (b ∷ []) s (record_pragma_regions n f base b stack s)
unfolding record_pragma_regions record_block
record_pragma_regions-Explored zero f base b stack s cfg h i k u =
    absurd (omega (arith, unseen_less cfg s.visited b i k))
record_pragma_regions-Explored (suc n) f base b stack s cfg h i k u =
    let less = unseen_less cfg s.visited b i k in
    let (id_stack, next) = record_block f base b stack s in
    block-Explored f b s next _ refl (
      visit_new-Explored f cfg n (λ c t. record_pragma_regions n f base c id_stack t)
        (λ c t j l v. record_pragma_regions-Explored n f base c id_stack t cfg h j l v)
        (f.successors b) next (λ x. h b x i) (omega arith))

none_visited : (x : ℕ) → is_visited x no_search.visited ≡ false
unfolding is_visited
none_visited x = refl

search-Explored :
    (f : Function) (base entry : ℕ) (blocks : List ℕ)
    → Enclosed f (entry ∷ blocks)
    → Explored f (entry ∷ []) no_search (search f base (entry ∷ blocks))
unfolding search
search-Explored f base entry blocks h =
    record_pragma_regions-Explored (suc (length blocks)) f base entry [] no_search (entry ∷ blocks)
      h (in_head entry blocks) (none_visited entry) (unseen_bound (entry ∷ blocks) [])

from_entry :
    (f : Function) (entry : ℕ) (s t : Search) (b : ℕ)
    → ((x : ℕ) → is_visited x s.visited ≡ false)
    → Explored f (entry ∷ []) s t
    → In b t.visited
    → Reaches f entry b
from_entry f entry s t b new e h = elim (e.sound b h) [
  | inl i ↦ absurd (true≢false (sym i ∙ new b))
  | inr (c, i, r) ↦ subst (λ a. Reaches f a b) (only c entry i) r
]

to_block :
    (f : Function) (entry : ℕ) (s t : Search) (b : ℕ)
    → ((x : ℕ) → is_visited x s.visited ≡ false)
    → Explored f (entry ∷ []) s t
    → Reaches f entry b
    → In b t.visited
to_block f entry s t _ new e here = e.done entry (in_head entry [])
to_block f entry s t _ new e (onward b c r h) =
    e.closed b c (to_block f entry s t b new e r) (new b) h

-- Whatever the stacks of open groups, recordPragmaRegions visits exactly the blocks that the control
-- flow graph reaches from the entry block; the number of the function's blocks is depth enough for
-- its recursion. Each successor of a block of the function is one.
pub search-Reaches :
    (f : Function) (base entry : ℕ) (blocks : List ℕ)
    → Enclosed f (entry ∷ blocks)
    → (b : ℕ) → (is_visited b (search f base (entry ∷ blocks)).visited ≡ true) ↔ Reaches f entry b
search-Reaches f base entry blocks h b =
    let e = search-Explored f base entry blocks h in
    (
      from_entry f entry no_search (search f base (entry ∷ blocks)) b none_visited e,
      to_block f entry no_search (search f base (entry ∷ blocks)) b none_visited e,
    )
