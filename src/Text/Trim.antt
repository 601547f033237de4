-- ===== src/Text/Trim.antt =====
-- trim of src/zray_util.cc against the text without its leading and trailing whitespace.
use zray.Base.{
  ℕ, suc, ◌<◌, ◌^◌, ◌≡◌, refl, sym, ap, ◌∙◌, Bool, true, false, List, [], ◌∷◌, Option, none, some,
  arith, if◌then◌else◌, length, take, drop, subst, inl, inr, Bool-cases,
}
use zray.Base.Word.{wadd, wsub}
use zray.Text.{contains, before, after, find_first_not_of, find_last_not_of, position, cut, trim}

unfoldable pub drop_leading : List ℕ → List ℕ → List ℕ
drop_leading ws [] = []
drop_leading ws (c ∷ s) = if contains ws c then drop_leading ws s else c ∷ s

-- A byte in front of a text: whitespace in front of an empty text goes, too.
abbrev pub put_back : Bool → ℕ → List ℕ → List ℕ
put_back true c [] = []
put_back true c (d ∷ s) = c ∷ d ∷ s
put_back false c s = c ∷ s

unfoldable pub drop_trailing : List ℕ → List ℕ → List ℕ
drop_trailing ws [] = []
drop_trailing ws (c ∷ s) = put_back (contains ws c) c (drop_trailing ws s)

-- Both searches succeed or none does.
abbrev Agree : Option ℕ → Option ℕ → Type 0
Agree none none = Unit
Agree (some a) (some b) = Unit
Agree none (some b) = ⊥
Agree (some a) none = ⊥

abbrev pub Below : Option ℕ → ℕ → Type 0
Below none n = Unit
Below (some a) n = a < n

abbrev up_to : List ℕ → Option ℕ → List ℕ
up_to s none = []
up_to s (some e) = take (suc e) s

both_step : (b : Bool) (f l : Option ℕ) → Agree f l → Agree (before b f) (after b l)
unfolding before after
both_step true none none h = tt
both_step true (some a) (some e) h = tt
both_step true none (some e) h = h
both_step true (some a) none h = h
both_step false f none h = tt
both_step false f (some e) h = tt

searches-Agree : (ws s : List ℕ) → Agree (find_first_not_of ws s) (find_last_not_of ws s)
unfolding find_first_not_of find_last_not_of
searches-Agree ws [] = tt
searches-Agree ws (c ∷ s) = both_step (contains ws c) _ _ (searches-Agree ws s)

bound_step : (b : Bool) (l : Option ℕ) (n : ℕ) → Below l n → Below (after b l) (suc n)
unfolding after
bound_step true none n h = tt
bound_step false none n h = omega arith
bound_step b (some e) n h = omega (arith, h)

find_last_not_of-Below : (ws s : List ℕ) → Below (find_last_not_of ws s) (length s)
unfolding find_last_not_of
find_last_not_of-Below ws [] = tt
find_last_not_of-Below ws (c ∷ s) =
    bound_step (contains ws c) (find_last_not_of ws s) (length s) (find_last_not_of-Below ws s)

pub before_step : (b : Bool) (f : Option ℕ) (n : ℕ) → Below f n → Below (before b f) (suc n)
unfolding before
before_step true none n h = tt
before_step true (some a) n h = omega (arith, h)
before_step false f n h = omega arith

find_first_not_of-Below : (ws s : List ℕ) → Below (find_first_not_of ws s) (length s)
unfolding find_first_not_of
find_first_not_of-Below ws [] = tt
find_first_not_of-Below ws (c ∷ s) =
    before_step (contains ws c) (find_first_not_of ws s) (length s) (find_first_not_of-Below ws s)

-- The next byte's positions are one higher: the same bytes are cut.
cut-suc :
    (c : ℕ) (s : List ℕ) (f l : Option ℕ)
    → Agree f l
    → Below f (length s)
    → length s < 2 ^ 64
    → cut (c ∷ s) (before true f) (after true l) ≡ cut s f l
unfolding before after cut position
cut-suc c s none none h k b = refl
cut-suc c s none (some e) h k b = refl
cut-suc c s (some a) none h k b = elim h [ ]
cut-suc c s (some a) (some e) h k b = ap (λ n. take n (drop a s)) (omega (arith, k, b))

-- From the first byte on, the bytes up to the last position are cut.
cut-up_to :
    (s : List ℕ) (l : Option ℕ)
    → Agree (some 0) l
    → Below l (length s)
    → length s < 2 ^ 64
    → cut s (some 0) l ≡ up_to s l
unfolding cut position
cut-up_to s none h k b = elim h [ ]
cut-up_to s (some e) h k b =
    let all : wadd (wsub e 0) 1 ≡ suc e = omega (arith, k, b) in ap (λ n. take n s) all

up_to-after :
    (b : Bool) (c : ℕ) (s : List ℕ) (l : Option ℕ)
    → Below l (length s)
    → up_to (c ∷ s) (after b l) ≡ put_back b c (up_to s l)
unfolding after
up_to-after true c s none h = refl
up_to-after false c s none h = refl
up_to-after false c s (some e) h = refl
up_to-after true c [] (some e) h = absurd (omega (arith, h))
up_to-after true c (d ∷ s) (some e) h = refl

up_to-drop_trailing : (ws s : List ℕ) → up_to s (find_last_not_of ws s) ≡ drop_trailing ws s
unfolding find_last_not_of drop_trailing
up_to-drop_trailing ws [] = refl
up_to-drop_trailing ws (c ∷ s) =
    up_to-after (contains ws c) c s (find_last_not_of ws s) (find_last_not_of-Below ws s)
    ∙ ap (put_back (contains ws c) c) (up_to-drop_trailing ws s)

trim-whitespace :
    (ws : List ℕ) (c : ℕ) (s : List ℕ)
    → length s < 2 ^ 64
    → contains ws c ≡ true
    → trim ws (c ∷ s) ≡ trim ws s
unfolding trim find_first_not_of find_last_not_of
trim-whitespace ws c s b e =
    ap (λ t. cut (c ∷ s) (before t (find_first_not_of ws s)) (after t (find_last_not_of ws s))) e
    ∙ cut-suc c s (find_first_not_of ws s) (find_last_not_of ws s) (searches-Agree ws s)
        (find_first_not_of-Below ws s) b

trim-other :
    (ws : List ℕ) (c : ℕ) (s : List ℕ)
    → length (c ∷ s) < 2 ^ 64
    → contains ws c ≡ false
    → trim ws (c ∷ s) ≡ drop_trailing ws (c ∷ s)
unfolding trim find_first_not_of before
trim-other ws c s b e =
    let first : find_first_not_of ws (c ∷ s) ≡ some 0 =
      ap (λ t. before t (find_first_not_of ws s)) e in
    ap (λ f. cut (c ∷ s) f (find_last_not_of ws (c ∷ s))) first
    ∙ cut-up_to (c ∷ s) (find_last_not_of ws (c ∷ s))
        (subst (λ f. Agree f (find_last_not_of ws (c ∷ s))) first (searches-Agree ws (c ∷ s)))
        (find_last_not_of-Below ws (c ∷ s)) b
    ∙ up_to-drop_trailing ws (c ∷ s)

-- trim of a text that is shorter than 2 ^ 64 bytes is the text without the whitespace before its
-- first other byte and behind its last one.
pub trim_lem :
    (ws s : List ℕ) → length s < 2 ^ 64 → trim ws s ≡ drop_trailing ws (drop_leading ws s)
unfolding drop_leading drop_trailing trim find_first_not_of
trim_lem ws [] b = refl
trim_lem ws (c ∷ s) b = elim (Bool-cases (contains ws c)) [
  | inl e ↦
      trim-whitespace ws c s (omega (arith, b)) e
      ∙ trim_lem ws s (omega (arith, b))
      ∙ sym (ap (λ t. drop_trailing ws (if t then drop_leading ws s else c ∷ s)) e)
  | inr e ↦
      trim-other ws c s b e
      ∙ sym (ap (λ t. drop_trailing ws (if t then drop_leading ws s else c ∷ s)) e)
]
