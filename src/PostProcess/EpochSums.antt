-- ===== src/PostProcess/EpochSums.antt =====
-- Sums over the epochs of a thread, as src/post_process.cc reports them.
use zray.Base.{
  fun_ext, ℕ, ◌+◌, ◌*◌, ◌%◌, ◌^◌, ◌≡◌, refl, sym, ap, ap₂, ◌∙◌, Bool, true, false, List, [], ◌∷◌,
  get_or, ◌==◌, if◌then◌else◌, arith,
}
use native.Mathlib.Nat.{mul-add}
use zray.PostProcess.{Epoch}
use zray.PostProcess.Epochs.{sum_of}

-- A sum over the epochs of a thread
unfoldable pub sum_over : ℕ → (Epoch → ℕ) → List Epoch → ℕ
sum_over t g [] = 0
sum_over t g (e ∷ es) = (if e.thread == t then g e else 0) + sum_over t g es

sum_over-plus :
    (t : ℕ) (g h : Epoch → ℕ) (es : List Epoch)
    → sum_over t (λ e. g e + h e) es ≡ sum_over t g es + sum_over t h es
unfolding sum_over
sum_over-plus t g h [] = refl
sum_over-plus t g h (e ∷ es) = ground (arith, sum_over-plus t g h es)

pub sum_over-zero : (t : ℕ) (es : List Epoch) → sum_over t (λ e. 0) es ≡ 0
unfolding sum_over
sum_over-zero t [] = refl
sum_over-zero t (e ∷ es) = ground (arith, sum_over-zero t es)

scale_if : (b : Bool) (w x : ℕ) → (if b then w * x else 0) ≡ w * (if b then x else 0)
scale_if true w x = refl
scale_if false w x = omega arith

pub sum_over-times :
    (t w : ℕ) (g : Epoch → ℕ) (es : List Epoch) → sum_over t (λ e. w * g e) es ≡ w * sum_over t g es
unfolding sum_over
sum_over-times t w g [] = omega arith
sum_over-times t w g (e ∷ es) =
    ap₂ ◌+◌ (scale_if (e.thread == t) w (g e)) (sum_over-times t w g es)
    ∙ sym (mul-add w (if e.thread == t then g e else 0) (sum_over t g es))

-- The sum may be reduced before or after.
pub sum_over-mod :
    (t : ℕ) (g : Epoch → ℕ) (es : List Epoch)
    → sum_over t (λ e. g e % 2 ^ 64) es % 2 ^ 64 ≡ sum_over t g es % 2 ^ 64
unfolding sum_over
sum_over-mod t g [] = refl
sum_over-mod t g (e ∷ es) = ground (arith, sum_over-mod t g es)

pub sum_over-ext :
    (t : ℕ) (g h : Epoch → ℕ) (es : List Epoch)
    → ((e : Epoch) → g e ≡ h e)
    → sum_over t g es ≡ sum_over t h es
sum_over-ext t g h es k = ap (λ f. sum_over t f es) (fun_ext k)

pub sum_of-sum_over :
    (t i : ℕ) (es : List Epoch)
    → sum_of (λ e. e.counter_array) t i es ≡ sum_over t (λ e. get_or e.counter_array i 0) es
unfolding sum_of sum_over
sum_of-sum_over t i [] = refl
sum_of-sum_over t i (e ∷ es) =
    ap (λ n. (if e.thread == t then get_or e.counter_array i 0 else 0) + n) (sum_of-sum_over t i es)

pub sum_over-if :
    (t : ℕ) (b : Bool) (g h : Epoch → ℕ) (es : List Epoch)
    → sum_over t (λ e. (if b then g e else 0) + h e) es
      ≡ (if b then sum_over t g es else 0) + sum_over t h es
sum_over-if t true g h es = sum_over-plus t g h es
sum_over-if t false g h es =
    sum_over-plus t (λ e. 0) h es ∙ ap (λ n. n + sum_over t h es) (sum_over-zero t es)
