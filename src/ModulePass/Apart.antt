-- ===== src/ModulePass/Apart.antt =====
-- Lists of places in the arrays of counters: which of them no two sets may share.
use zray.Base.{
  All-append, All-map, ℕ, zero, suc, ◌+◌, ◌≤◌, ◌<◌, ◌≡◌, ◌≢◌, refl, Bool, true, false, ◌||◌, List,
  [], ◌∷◌, ◌++◌, arith, ◌==◌, All,
}
use zray.Emit.Keys.{Slot}
use zray.ModulePass.Events.{run}

-- The set of a cloned function has a place in each region's row, and the set of a region one in
-- the region's own: where both have one, they differ.
abbrev pub Separate : Slot → Slot → Type 0
Separate x y = (x.indirect || y.indirect || x.region == y.region) ≡ true → x.set_id ≢ y.set_id

abbrev pub Apart : List Slot → Type 0
Apart [] = Unit
Apart (x ∷ xs) = All (Separate x) xs × Apart xs

pub Apart-append :
    (xs ys : List Slot) → Apart xs → Apart ys → All (λ x. All (Separate x) ys) xs → Apart (xs ++ ys)
Apart-append [] ys h k a = k
Apart-append (x ∷ xs) ys (h, hs) k (a, more) =
    (All-append (Separate x) xs ys h a, Apart-append xs ys hs k more)

-- A place of a run.
pub record InRun (indirect : Bool) (region start limit : ℕ) (x : Slot) : Type 0 where
  pub above : start ≤ x.set_id
  pub below : x.set_id < limit
  pub row : x.region ≡ region
  pub kind : x.indirect ≡ indirect

pub run-InRun :
    (indirect : Bool) (region start limit k : ℕ)
    → start + k ≤ limit
    → All (InRun indirect region start limit) (run indirect region start k)
unfolding run
run-InRun indirect region start limit zero h = tt
run-InRun indirect region start limit (suc k) h = (
  record { above = omega arith; below = omega arith; row = refl; kind = refl },
  All-map _ _ (run indirect region (start + 1) k)
      (λ x r. record {
        above = omega (arith, r.above);
        below = r.below;
        row = r.row;
        kind = r.kind;
      })
      (run-InRun indirect region (start + 1) limit k (omega arith)),
)

pub run-Apart : (indirect : Bool) (region start k : ℕ) → Apart (run indirect region start k)
unfolding run
run-Apart indirect region start zero = tt
run-Apart indirect region start (suc k) = (
  All-map _ _ (run indirect region (start + 1) k) (λ x r e. ground (arith, r.above))
      (run-InRun indirect region (start + 1) (start + 1 + k) k (omega arith)),
  run-Apart indirect region (start + 1) k,
)

-- The places of regions before `k`, below `most`.
pub record Direct (most k : ℕ) (x : Slot) : Type 0 where
  pub below : x.set_id < most
  pub row : x.region < k
  pub direct : x.indirect ≡ false

-- The places of `k` regions and of clones, below `most`.
pub record Placed (most k : ℕ) (x : Slot) : Type 0 where
  pub below : x.set_id < most
  pub row : x.region < k

pub Apart-region :
    (xs : List Slot) (most k n : ℕ)
    → All (Direct most k) xs
    → Apart xs
    → Apart (xs ++ run false k 0 n)
Apart-region xs most k n d a = Apart-append xs (run false k 0 n) a (run-Apart false k 0 n) (
    All-map _ _ xs
      (λ x dx.
        All-map _ _ (run false k 0 n) (λ y r e. ground (arith, dx, r, e))
          (run-InRun false k 0 n n (omega arith)))
      d)

pub Apart-clone :
    (xs : List Slot) (most k region n : ℕ)
    → All (Placed most k) xs
    → Apart xs
    → Apart (xs ++ run true region most n)
Apart-clone xs most k region n d a =
    Apart-append xs (run true region most n) a (run-Apart true region most n) (
      All-map _ _ xs
        (λ x dx.
          All-map _ _ (run true region most n) (λ y r e. ground (arith, dx, r))
            (run-InRun true region most (most + n) n (omega arith)))
        d)
