-- ===== src/Host/Registry.antt =====
-- The map of registered threads in src/zray_dyn.cc: its keys are distinct.
use zray.Base.{
  ℕ, ◌≡◌, refl, false, some, List, [], ◌∷◌, arith, inl, inr, Bool-cases, ◌==◌, if◌then◌else◌,
  ==_refl,
}
use zray.Host.{find, put, erase}

module _ {ℓ} {A : Type ℓ} where
  pub find-put :
      (k j : ℕ) (a : A) (m : List (ℕ × A))
      → find j (put k a m) ≡ (if k == j then some a else find j m)
  unfolding find put
  find-put k j a [] = refl
  find-put k j a ((l, b) ∷ m) = ground (arith, find-put k j a m)

  -- The key is not in the map.
  abbrev pub Absent : ℕ → List (ℕ × A) → Type 0
  Absent k [] = Unit
  Absent k ((j, b) ∷ m) = ((j == k) ≡ false) × Absent k m

  abbrev pub Distinct : List (ℕ × A) → Type 0
  Distinct [] = Unit
  Distinct ((j, b) ∷ m) = Absent j m × Distinct m

  -- Each entry is what a lookup of its key finds.
  abbrev pub Found : List (ℕ × A) → List (ℕ × A) → Type ℓ
  Found m [] = Unit
  Found m ((k, a) ∷ todo) = (find k m ≡ some a) × Found m todo

  Absent-put :
      (j k : ℕ) (a : A) (m : List (ℕ × A)) → (k == j) ≡ false → Absent j m → Absent j (put k a m)
  unfolding put
  Absent-put j k a [] h n = (h, tt)
  Absent-put j k a ((l, b) ∷ m) h (n, ns) = elim (Bool-cases (l == k)) [
    | inl e ↦ rw e (n, ns)
    | inr e ↦ rw e (n, Absent-put j k a m h ns)
  ]

  pub Distinct-put : (k : ℕ) (a : A) (m : List (ℕ × A)) → Distinct m → Distinct (put k a m)
  unfolding put
  Distinct-put k a [] h = (tt, tt)
  Distinct-put k a ((l, b) ∷ m) (h, hs) = elim (Bool-cases (l == k)) [
    | inl e ↦ rw e (h, hs)
    | inr e ↦ rw e (Absent-put l k a m (ground arith) h, Distinct-put k a m hs)
  ]

  Absent-erase : (j k : ℕ) (m : List (ℕ × A)) → Absent j m → Absent j (erase k m)
  unfolding erase
  Absent-erase j k [] n = tt
  Absent-erase j k ((l, b) ∷ m) (n, ns) = elim (Bool-cases (l == k)) [
    | inl e ↦ rw e ns
    | inr e ↦ rw e (n, Absent-erase j k m ns)
  ]

  pub Distinct-erase : (k : ℕ) (m : List (ℕ × A)) → Distinct m → Distinct (erase k m)
  unfolding erase
  Distinct-erase k [] h = tt
  Distinct-erase k ((l, b) ∷ m) (h, hs) = elim (Bool-cases (l == k)) [
    | inl e ↦ rw e hs
    | inr e ↦ rw e (Absent-erase l k m h, Distinct-erase k m hs)
  ]

  Found-cons :
      (j : ℕ) (b : A) (m todo : List (ℕ × A))
      → Absent j todo
      → Found m todo
      → Found ((j, b) ∷ m) todo
  unfolding find
  Found-cons j b m [] n f = tt
  Found-cons j b m ((k, a) ∷ todo) (n, ns) (f, fs) =
      (ground (arith, f, n), Found-cons j b m todo ns fs)

  pub Distinct-Found : (m : List (ℕ × A)) → Distinct m → Found m m
  unfolding find
  Distinct-Found [] h = tt
  Distinct-Found ((j, b) ∷ m) (h, hs) =
      (ground (arith, ==_refl j), Found-cons j b m m h (Distinct-Found m hs))

  -- A write under one key leaves what the others find.
  pub Found-put :
      (k : ℕ) (a : A) (m todo : List (ℕ × A))
      → Absent k todo
      → Found m todo
      → Found (put k a m) todo
  Found-put k a m [] n f = tt
  Found-put k a m ((j, b) ∷ todo) (n, ns) (f, fs) =
      (ground (arith, f, n, find-put k j a m), Found-put k a m todo ns fs)
