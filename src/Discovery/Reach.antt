-- ===== src/Discovery/Reach.antt =====
-- recordPragmaRegions of src/zray_parse.cc visits the blocks that the entry block reaches.
use zray.Base.{
  ℕ, suc, ◌≤◌, ◌<◌, ◌≡◌, refl, sym, ◌∙◌, subst, true, false, Bool-cases, ◌⊎◌, inl, inr, List, [],
  ◌∷◌, length, ==_refl, if◌then◌else◌, arith,
}
use mathlib.Core.Bool.{true≢false}
use zray.Discovery.{Function, Search, is_visited}

-- The paths of the control flow graph
pub data Reaches (f : Function) (a : ℕ) : ℕ → Type 0 where
  here : Reaches f a a
  onward : (b c : ℕ) → Reaches f a b → is_visited c (f.successors b) ≡ true → Reaches f a c

from_successor :
    (f : Function) (a b c : ℕ)
    → is_visited b (f.successors a) ≡ true
    → Reaches f b c
    → Reaches f a c
from_successor f a b _ h here = onward a b here h
from_successor f a b _ h (onward d c r k) = onward d c (from_successor f a b d h r) k

-- A predicate of blocks: whether a list of them holds one.
abbrev pub In : ℕ → List ℕ → Type 0
In x bs = is_visited x bs ≡ true

pub in_head : (b : ℕ) (bs : List ℕ) → In b (b ∷ bs)
unfolding is_visited
in_head b bs = rw (==_refl b) refl

pub in_tail : (x b : ℕ) (bs : List ℕ) → In x bs → In x (b ∷ bs)
unfolding is_visited
in_tail x b bs h = ground (arith, h)

pub in_cons : (x b : ℕ) (bs : List ℕ) → In x (b ∷ bs) → (x ≡ b) ⊎ In x bs
unfolding is_visited
in_cons x b bs h = ground (arith, h)

pub only : (x b : ℕ) → In x (b ∷ []) → x ≡ b
unfolding is_visited
only x b h = ground (arith, h)

in_one : (x b : ℕ) (bs : List ℕ) → In x (b ∷ []) → In x (b ∷ bs)
in_one x b bs h = subst (λ y. In y (b ∷ bs)) (sym (only x b h)) (in_head b bs)

-- How many of the blocks are not visited yet.
unfoldable pub unseen : List ℕ → List ℕ → ℕ
unseen [] v = 0
unseen (x ∷ xs) v = let rest = unseen xs v in if is_visited x v then rest else suc rest

pub unseen_mono : (xs v w : List ℕ) → ((x : ℕ) → In x v → In x w) → unseen xs w ≤ unseen xs v
unfolding unseen
unseen_mono [] v w h = omega arith
unseen_mono (x ∷ xs) v w h = ground (arith, unseen_mono xs v w h, h x)

pub unseen_less :
    (xs v : List ℕ) (b : ℕ) → In b xs → is_visited b v ≡ false → unseen xs (b ∷ v) < unseen xs v
unfolding unseen is_visited
unseen_less [] v b h k = absurd (true≢false (sym h))
unseen_less (x ∷ xs) v b h k = elim (in_cons b x xs h) [
  | inl e ↦
      let seen : In x (b ∷ v) = subst (λ c. In c (b ∷ v)) e (in_head b v) in
      let new : is_visited x v ≡ false = subst (λ c. is_visited c v ≡ false) e k in
      rw (seen, new) (omega (arith, unseen_mono xs v (b ∷ v) (λ y. in_tail y b v)))
  | inr behind ↦ let less = unseen_less xs v b behind k in ground (arith, less, in_tail x b v)
]

pub unseen_bound : (xs v : List ℕ) → unseen xs v ≤ length xs
unfolding unseen
unseen_bound [] v = omega arith
unseen_bound (x ∷ xs) v = ground (arith, unseen_bound xs v)

-- What the calls for some blocks do: they keep what is visited, visit the blocks and what the newly
-- visited lead to, and visit only what the blocks reach.
pub record Explored (f : Function) (bs : List ℕ) (s t : Search) : Type 0 where
  pub kept : (x : ℕ) → In x s.visited → In x t.visited
  pub done : (x : ℕ) → In x bs → In x t.visited
  pub closed :
      (x y : ℕ)
      → In x t.visited
      → is_visited x s.visited ≡ false
      → In y (f.successors x)
      → In y t.visited
  pub sound : (x : ℕ) → In x t.visited → In x s.visited ⊎ ((c : ℕ) × In c bs × Reaches f c x)

pub nothing-Explored : (f : Function) (s : Search) → Explored f [] s s
unfolding is_visited
nothing-Explored f s = record {
  kept = λ x h. h;
  done = λ x h. absurd (true≢false (sym h));
  closed = λ x y h k. absurd (true≢false (sym h ∙ k));
  sound = λ x h. inl h;
}

-- A block that is visited already
pub skip-Explored :
    (f : Function) (c : ℕ) (cs : List ℕ) (s t : Search)
    → In c s.visited
    → Explored f cs s t
    → Explored f (c ∷ cs) s t
skip-Explored f c cs s t h e = record {
  kept = e.kept;
  done = λ x k. elim (in_cons x c cs k) [
    | inl p ↦ subst (λ y. In y t.visited) (sym p) (e.kept c h)
    | inr i ↦ e.done x i
  ];
  closed = e.closed;
  sound =
      λ x k. elim (e.sound x k) [ inl i ↦ inl i | inr (b, i, r) ↦ inr (b, in_tail b c cs i, r) ];
}

pub join-Explored :
    (f : Function) (c : ℕ) (cs : List ℕ) (s t u : Search)
    → Explored f (c ∷ []) s t
    → Explored f cs t u
    → Explored f (c ∷ cs) s u
join-Explored f c cs s t u d e = record {
  kept = λ x h. e.kept x (d.kept x h);
  done = λ x k. elim (in_cons x c cs k) [
    | inl p ↦ e.kept x (d.done x (subst (λ y. In y (c ∷ [])) (sym p) (in_head c [])))
    | inr i ↦ e.done x i
  ];
  closed = λ x y h k l. elim (Bool-cases (is_visited x t.visited)) [
    | inl seen ↦ e.kept y (d.closed x y seen k l)
    | inr new ↦ e.closed x y h new l
  ];
  sound = λ x k. elim (e.sound x k) [
    | inl i ↦ elim (d.sound x i) [ inl j ↦ inl j | inr (b, j, r) ↦ inr (b, in_one b c cs j, r) ]
    | inr (b, i, r) ↦ inr (b, in_tail b c cs i, r)
  ];
}

-- A block's own call, from what the calls for its successors do.
pub block-Explored :
    (f : Function) (b : ℕ) (s next t : Search)
    → next.visited ≡ b ∷ s.visited
    → Explored f (f.successors b) next t
    → Explored f (b ∷ []) s t
block-Explored f b s next t v e =
    let own : In b t.visited = e.kept b (subst (In b) (sym v) (in_head b s.visited)) in
    record {
      kept = λ x h. e.kept x (subst (In x) (sym v) (in_tail x b s.visited h));
      done = λ x k. subst (λ y. In y t.visited) (sym (only x b k)) own;
      closed = λ x y h k l. elim (Bool-cases (is_visited x next.visited)) [
        | inl seen ↦ elim (in_cons x b s.visited (subst (In x) v seen)) [
          | inl p ↦ e.done y (subst (λ z. In y (f.successors z)) p l)
          | inr i ↦ absurd (true≢false (sym i ∙ k))
        ]
        | inr new ↦ e.closed x y h new l
      ];
      sound = λ x k. elim (e.sound x k) [
        | inl i ↦ elim (in_cons x b s.visited (subst (In x) v i)) [
          | inl p ↦ inr (b, in_head b [], subst (Reaches f b) (sym p) here)
          | inr j ↦ inl j
        ]
        | inr (c, i, r) ↦ inr (b, in_head b [], from_successor f b c x i r)
      ];
    }
