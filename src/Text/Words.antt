-- ===== src/Text/Words.antt =====
-- A text as words and runs of whitespace: the reference that reduce of src/zray_util.cc is held to.
use zray.Base.{
  ℕ, ◌≡◌, refl, sym, ap, ◌∙◌, Bool, true, false, not, List, [], ◌∷◌, ◌++◌, none, some,
  if◌then◌else◌, length, inl, inr, Bool-cases,
}
use zray.Text.{contains, before, find_first_of, find_first_not_of}

-- `behind`: whether the byte in front is whitespace.
unfoldable pub collapse : List ℕ → List ℕ → Bool → List ℕ → List ℕ
collapse ws fill behind [] = []
collapse ws fill behind (c ∷ s) =
    let inside = collapse ws fill true s in
    let outside = collapse ws fill false s in
    if contains ws c then (if behind then inside else fill ++ inside) else c ∷ outside

-- A text has no whitespace, or has a first one behind `u`.
pub data Word (ws fill s : List ℕ) : Type 0 where
  whole : find_first_of ws s ≡ none → collapse ws fill false s ≡ s → Word ws fill s
  ended :
      (u : List ℕ) (c : ℕ) (v : List ℕ)
      → s ≡ u ++ (c ∷ v)
      → contains ws c ≡ true
      → find_first_of ws s ≡ some (length u)
      → collapse ws fill false s ≡ u ++ (fill ++ collapse ws fill true v)
      → Word ws fill s

-- A text is whitespace, or has a first other byte behind `u`.
pub data Space (ws fill s : List ℕ) : Type 0 where
  blank : find_first_not_of ws s ≡ none → collapse ws fill true s ≡ [] → Space ws fill s
  closed :
      (u v : List ℕ)
      → s ≡ u ++ v
      → find_first_not_of ws s ≡ some (length u)
      → collapse ws fill true s ≡ collapse ws fill false v
      → Space ws fill s

collapse-space :
    (ws fill : List ℕ) (behind : Bool) (c : ℕ) (s : List ℕ)
    → contains ws c ≡ true
    → collapse ws fill behind (c ∷ s)
      ≡ (if behind then collapse ws fill true s else fill ++ collapse ws fill true s)
unfolding collapse
collapse-space ws fill behind c s e =
    ap
      (λ t.
        if t
        then (if behind then collapse ws fill true s else fill ++ collapse ws fill true s)
        else c ∷ collapse ws fill false s)
      e

collapse-other :
    (ws fill : List ℕ) (behind : Bool) (c : ℕ) (s : List ℕ)
    → contains ws c ≡ false
    → collapse ws fill behind (c ∷ s) ≡ c ∷ collapse ws fill false s
unfolding collapse
collapse-other ws fill behind c s e =
    ap
      (λ t.
        if t
        then (if behind then collapse ws fill true s else fill ++ collapse ws fill true s)
        else c ∷ collapse ws fill false s)
      e

letter_more :
    (ws fill : List ℕ) (c : ℕ) (s : List ℕ)
    → contains ws c ≡ false
    → Word ws fill s
    → Word ws fill (c ∷ s)
unfolding find_first_of before
letter_more ws fill c s e (whole f g) =
    whole (ap (λ t. before (not t) (find_first_of ws s)) e ∙ ap (before true) f)
      (collapse-other ws fill false c s e ∙ ap (◌∷◌ c) g)
letter_more ws fill c s e (ended u d v p k f g) =
    ended (c ∷ u) d v (ap (◌∷◌ c) p) k
      (ap (λ t. before (not t) (find_first_of ws s)) e ∙ ap (before true) f)
      (collapse-other ws fill false c s e ∙ ap (◌∷◌ c) g)

pub word : (ws fill s : List ℕ) → Word ws fill s
unfolding find_first_of before collapse
word ws fill [] = whole refl refl
word ws fill (c ∷ s) = elim (Bool-cases (contains ws c)) [
  | inl e ↦
      ended [] c s refl e (ap (λ t. before (not t) (find_first_of ws s)) e)
        (collapse-space ws fill false c s e)
  | inr e ↦ letter_more ws fill c s e (word ws fill s)
]

space-more :
    (ws fill : List ℕ) (c : ℕ) (s : List ℕ)
    → contains ws c ≡ true
    → Space ws fill s
    → Space ws fill (c ∷ s)
unfolding find_first_not_of before
space-more ws fill c s e (blank f g) =
    blank (ap (λ t. before t (find_first_not_of ws s)) e ∙ ap (before true) f)
      (collapse-space ws fill true c s e ∙ g)
space-more ws fill c s e (closed u v p f g) =
    closed (c ∷ u) v (ap (◌∷◌ c) p)
      (ap (λ t. before t (find_first_not_of ws s)) e ∙ ap (before true) f)
      (collapse-space ws fill true c s e ∙ g)

pub space : (ws fill s : List ℕ) → Space ws fill s
unfolding find_first_not_of before collapse
space ws fill [] = blank refl refl
space ws fill (c ∷ s) = elim (Bool-cases (contains ws c)) [
  | inl e ↦ space-more ws fill c s e (space ws fill s)
  | inr e ↦
      closed [] (c ∷ s) refl (ap (λ t. before t (find_first_not_of ws s)) e)
        (collapse-other ws fill true c s e ∙ sym (collapse-other ws fill false c s e))
]
