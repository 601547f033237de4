-- ===== src/Discovery/Keys.antt =====
-- Vectors of groups, as std::find_if and std::distance of recordPragmaRegions read them.
use zray.Base.{
  ℕ, zero, suc, ◌≡◌, refl, sym, ap, ◌∙◌, subst, false, Option, none, some, List, [], ◌∷◌, ◌++◌,
  length, All, get_elem?, ◌==◌, ==_iff, if_cases,
}
use mathlib.Core.Bool.{true≢false}
use zray.Discovery.{SztBbvec, find_group, distance, change_group, add_block, push_back}

-- The groups of a vector
abbrev pub keys : List SztBbvec → List ℕ
keys [] = []
keys ((g, bs) ∷ es) = g ∷ keys es

-- A vector that has grown keeps what it holds in its place.
abbrev pub Extends : List ℕ → List ℕ → Type 0
Extends ks more = (p g : ℕ) → get_elem? ks p ≡ some g → get_elem? more p ≡ some g

abbrev pub Known : List ℕ → ℕ → Type 0
Known ks g = (p : ℕ) × (get_elem? ks p ≡ some g)

pub some-injective : (a b : ℕ) → some a ≡ some b → a ≡ b
some-injective a b h = ap (λ (o : Option ℕ). elim o [ none ↦ a | some c ↦ c ]) h

pub get_elem?-append {ℓ} :
    {A : Type ℓ} (xs ys : List A) (p : ℕ) (a : A)
    → get_elem? xs p ≡ some a
    → get_elem? (xs ++ ys) p ≡ some a
get_elem?-append [] ys p a h = cc
get_elem?-append (x ∷ xs) ys zero a h = h
get_elem?-append (x ∷ xs) ys (suc p) a h = get_elem?-append xs ys p a h

pub get_elem?-length {ℓ} :
    {A : Type ℓ} (xs : List A) (a : A) → get_elem? (xs ++ (a ∷ [])) (length xs) ≡ some a
get_elem?-length [] a = refl
get_elem?-length (x ∷ xs) a = get_elem?-length xs a

pub keys-append : (es fs : List SztBbvec) → keys (es ++ fs) ≡ keys es ++ keys fs
keys-append [] fs = refl
keys-append ((g, bs) ∷ es) fs = ap (◌∷◌ g) (keys-append es fs)

pub keys-change_group :
    (g : ℕ) (change : List ℕ → List ℕ) (es : List SztBbvec)
    → keys (change_group g change es) ≡ keys es
unfolding change_group
keys-change_group g change [] = refl
keys-change_group g change ((h, bs) ∷ es) =
    if_cases (λ fs. keys fs ≡ h ∷ keys es) (h == g) _ _ (λ _. refl)
      (λ _. ap (◌∷◌ h) (keys-change_group g change es))

pub keys-add_block :
    (b : ℕ) (stack groups : List SztBbvec) → keys (add_block b stack groups) ≡ keys groups
unfolding add_block
keys-add_block b [] groups = refl
keys-add_block b ((g, []) ∷ stack) groups = keys-add_block b stack groups
keys-add_block b ((g, c ∷ cs) ∷ stack) groups =
    keys-add_block b stack _ ∙ keys-change_group g (push_back b) groups

-- A fact on the group, if find_if finds it.
abbrev pub OnFound : Type 0 → Option (List ℕ) → Type 0
OnFound P none = Unit
OnFound P (some bs) = P

pub found-All :
    (P : ℕ → Type 0) (g : ℕ) (es : List SztBbvec)
    → All P (keys es)
    → OnFound (P g) (find_group g es)
unfolding find_group
found-All P g [] h = tt
found-All P g ((k, cs) ∷ es) (h, hs) =
    if_cases (OnFound (P g)) (k == g) _ _ (λ same. subst P ((==_iff k g).0 same) h)
      (λ _. found-All P g es hs)

pub found-Known : (g : ℕ) (es : List SztBbvec) → OnFound (Known (keys es) g) (find_group g es)
unfolding find_group
found-Known g [] = tt
found-Known g ((k, cs) ∷ es) =
    if_cases (OnFound (Known (k ∷ keys es) g)) (k == g) _ _
      (λ same. (0, ap some ((==_iff k g).0 same)))
      (λ _. behind (find_group g es) (found-Known g es))
  where
    behind :
        (o : Option (List ℕ)) → OnFound (Known (keys es) g) o → OnFound (Known (k ∷ keys es) g) o
    behind none h = tt
    behind (some bs) (p, h) = (suc p, h)

-- Where std::distance finds a group that the vector holds.
pub distance-Known :
    (g : ℕ) (es : List SztBbvec) → Known (keys es) g → get_elem? (keys es) (distance g es) ≡ some g
unfolding distance
distance-Known g [] (p, h) = cc
distance-Known g ((k, bs) ∷ es) known =
    if_cases (λ n. get_elem? (k ∷ keys es) n ≡ some g) (k == g) _ _
      (λ same. ap some ((==_iff k g).0 same)) (λ other. distance-Known g es (behind known other))
  where
    behind : Known (k ∷ keys es) g → (k == g) ≡ false → Known (keys es) g
    behind (zero, h) other =
        absurd (true≢false (sym ((==_iff k g).1 (some-injective k g h)) ∙ other))
    behind (suc p, h) other = (p, h)
