-- ===== src/Base/Word.antt =====
-- `size_t` arithmetic: native numbers with the wrap-around at 2 ^ 64 written out.
use Prim.Native.Nat.{ℕ, ◌+◌, ◌-◌, ◌*◌, ◌/◌, ◌%◌, ◌^◌, ◌<◌}
use mathlib.Core.Path.{◌≡◌, sym, ◌∙◌, ap}
use native.Mathlib.Nat.{mul_assoc, mul-add, mul-add-mod_self_right}
use native.Mathlib.Omega.{arith}
use mathlib.Core.Bool.{Bool}
use zray.Base.Tests.{if◌then◌else◌}

abbrev pub wadd : ℕ → ℕ → ℕ
wadd a b = (a + b) % 2 ^ 64

-- `b` is below 2 ^ 64 wherever the source subtracts.
abbrev pub wsub : ℕ → ℕ → ℕ
wsub a b = (a + (2 ^ 64 - b)) % 2 ^ 64

abbrev pub wmul : ℕ → ℕ → ℕ
wmul a b = (a * b) % 2 ^ 64

pub wadd_assoc : (a b c : ℕ) → wadd (wadd a b) c ≡ wadd a (wadd b c)
wadd_assoc a b c = omega arith

pub wadd_comm : (a b : ℕ) → wadd a b ≡ wadd b a
wadd_comm a b = omega arith

pub wadd_swap : (a b c : ℕ) → wadd (wadd a b) c ≡ wadd (wadd a c) b
wadd_swap a b c = omega arith

pub wsub-wadd : (a b : ℕ) → a < 2 ^ 64 → b < 2 ^ 64 → wsub (wadd a b) b ≡ a
wsub-wadd a b h k = omega arith

-- A factor may be reduced before or after the product.
pub mul-mod_word : (k a : ℕ) → (k * (a % 2 ^ 64)) % 2 ^ 64 ≡ (k * a) % 2 ^ 64
mul-mod_word k a =
    let split : a ≡ a / 2 ^ 64 * 2 ^ 64 + a % 2 ^ 64 = omega arith in
    let spread : k * a ≡ k * (a / 2 ^ 64) * 2 ^ 64 + k * (a % 2 ^ 64) =
      ap (λ t. k * t) split
      ∙ mul-add k (a / 2 ^ 64 * 2 ^ 64) (a % 2 ^ 64)
      ∙ ap (λ t. t + k * (a % 2 ^ 64)) (sym (mul_assoc k (a / 2 ^ 64) (2 ^ 64))) in
    sym (
      ap (λ t. t % 2 ^ 64) spread
      ∙ mul-add-mod_self_right (k * (a / 2 ^ 64)) (2 ^ 64) (k * (a % 2 ^ 64)))

-- A counter that was advanced in two parts scales a count by the sum of the parts.
pub wmul-wadd_right : (a k l : ℕ) → wmul a (wadd k l) ≡ wadd (wmul a k) (wmul a l)
wmul-wadd_right a k l = mul-mod_word a (k + l) ∙ ap (λ t. t % 2 ^ 64) (mul-add a k l) ∙ omega arith

-- A sum to which a term is added only if a test passes.
pub if_wadd-lt : (b : Bool) (old v : ℕ) → old < 2 ^ 64 → (if b then wadd old v else old) < 2 ^ 64
if_wadd-lt b old v h = ground arith

pub if_wadd :
    (b : Bool) (old v rest : ℕ)
    → wadd (if b then wadd old v else old) rest ≡ wadd old ((if b then v else 0) + rest)
if_wadd b old v rest = ground arith

pub if_wadd_mod :
    (b : Bool) (old v rest : ℕ)
    → wadd (if b then wadd old (v % 2 ^ 64) else old) rest ≡ wadd old ((if b then v else 0) + rest)
if_wadd_mod b old v rest = ground arith
