-- ===== src/Record/Operands.antt =====
-- The constants among an instruction's operands that come from memory: getLargeConstantOpCount of
-- src/zray_parse.cc. Constants are unique in LLVM, so an element is known by a number.
use zray.Base.{
  ℕ, ◌+◌, ◌*◌, ◌%◌, ◌^◌, ◌≡◌, true, false, sym, ap, ◌∙◌, refl, Bool, not, ◌&&◌, List, [], ◌∷◌,
  arith, length, ◌==◌, if◌then◌else◌,
}
use native.Mathlib.Nat.{add-mul, mul-add}

pub data Operand : Type 0 where
  -- a ConstantFP: its width, and whether its text has one of the forms of a round number
  floating : ℕ → Bool → Operand
  -- a ConstantDataVector: whether its first element is a ConstantInt from -128 to 127, the size
  -- of an element, and the elements
  vector : Bool → ℕ → List ℕ → Operand
  other_operand : Operand

-- The sum and the product of an int or unsigned of 32 bits, as a pattern of bits. `count +=` and
-- `bytes +=` of an unsigned wrap around in the source too; for `++` and for `+=` of an int, where
-- C++ leaves an overflow undefined, this is what two's complement gives.
abbrev add32 : ℕ → ℕ → ℕ
add32 a b = (a + b) % 2 ^ 32

abbrev mul32 : ℕ → ℕ → ℕ
mul32 a b = (a * b) % 2 ^ 32

-- for (unsigned i = 1; …): the elements behind the first, for a vector of `n`, from the values that
-- count and bytes have.
unfoldable pub count_elements : ℕ → ℕ → ℕ → List ℕ → ℕ × ℕ → ℕ × ℕ
count_elements n size first [] (count, bytes) = (count, bytes)
count_elements n size first (x ∷ xs) (count, bytes) =
    count_elements n size first xs
      (if x == first then (count, bytes) else (add32 count n, add32 bytes (mul32 n size)))

-- The body of the loop over the operands
unfoldable pub count_operand : Operand → ℕ × ℕ → ℕ × ℕ
count_operand (floating width round) (count, bytes) =
    if width == 64 && not round then (add32 count 1, add32 bytes 8) else (count, bytes)
count_operand (vector small size []) (count, bytes) = (count, bytes)
count_operand (vector small size (x ∷ xs)) (count, bytes) =
    let (more, more_bytes) = count_elements (1 + length xs) size x xs (count, bytes) in
    if small then (count, bytes) else (add32 more 1, add32 more_bytes size)
count_operand other_operand (count, bytes) = (count, bytes)

unfoldable pub count_operands : List Operand → ℕ × ℕ → ℕ × ℕ
count_operands [] acc = acc
count_operands (o ∷ os) acc = count_operands os (count_operand o acc)

-- getLargeConstantOpCount
unfoldable pub get_large_constant_op_count : List Operand → ℕ × ℕ
get_large_constant_op_count os = count_operands os (0, 0)

-- How many elements are not the first.
pub differing : ℕ → List ℕ → ℕ
differing x [] = 0
differing x (y ∷ ys) = (if y == x then 0 else 1) + differing x ys

-- What an operand is charged: a vector once, and once more in full for each differing element.
pub charged : Operand → ℕ
charged (floating width round) = if width == 64 && not round then 1 else 0
charged (vector small size []) = 0
charged (vector small size (x ∷ xs)) = if small then 0 else (1 + length xs) * differing x xs + 1
charged other_operand = 0

size_of : Operand → ℕ
size_of (floating width round) = 8
size_of (vector small size xs) = size
size_of other_operand = 0

pub charged_all : List Operand → ℕ
charged_all [] = 0
charged_all (o ∷ os) = charged o + charged_all os

pub charged_bytes : List Operand → ℕ
charged_bytes [] = 0
charged_bytes (o ∷ os) = charged o * size_of o + charged_bytes os

more_bytes : (n d e size : ℕ) → n * d * size + n * e * size ≡ n * (d + e) * size
more_bytes n d e size = sym (ap (λ k. k * size) (mul-add n d e) ∙ add-mul (n * d) (n * e) size)

-- The pair as patterns of 32 bits.
abbrev Patterns : ℕ × ℕ → ℕ → ℕ → Type 0
Patterns acc c b = (acc.0 ≡ c % 2 ^ 32) × (acc.1 ≡ b % 2 ^ 32)

-- A turn of the loop over the elements of a vector of `n`.
element_lem :
    (same : Bool) (n size : ℕ) (acc : ℕ × ℕ) (c b : ℕ)
    → Patterns acc c b
    → Patterns
        (if same then acc else (add32 acc.0 n, add32 acc.1 (mul32 n size)))
        (c + n * (if same then 0 else 1))
        (b + n * (if same then 0 else 1) * size)
element_lem true n size acc c b h = (omega (arith, h.0), omega (arith, h.1))
element_lem false n size acc c b h = (omega (arith, h.0), omega (arith, h.1))

count_elements_lem :
    (n size first : ℕ) (xs : List ℕ) (acc : ℕ × ℕ) (c b : ℕ)
    → Patterns acc c b
    → Patterns
        (count_elements n size first xs acc)
        (c + n * differing first xs)
        (b + n * differing first xs * size)
unfolding count_elements differing
count_elements_lem n size first [] (count, bytes) c b h = (omega (arith, h.0), omega (arith, h.1))
count_elements_lem n size first (x ∷ xs) (count, bytes) c b h =
    let d = if x == first then 0 else 1 in
    let rest =
      count_elements_lem n size first xs _ (c + n * d) (b + n * d * size)
        (element_lem (x == first) n size (count, bytes) c b h) in
    (
      omega (arith, rest.0, mul-add n d (differing first xs)),
      omega (arith, rest.1, more_bytes n d (differing first xs) size),
    )

count_operand_lem :
    (o : Operand) (acc : ℕ × ℕ) (c b : ℕ)
    → Patterns acc c b
    → Patterns (count_operand o acc) (c + charged o) (b + charged o * size_of o)
unfolding count_operand charged size_of
count_operand_lem (floating width round) (count, bytes) c b h =
    (ground (arith, h.0), ground (arith, h.1))
count_operand_lem (vector small size []) (count, bytes) c b h =
    (omega (arith, h.0), omega (arith, h.1))
count_operand_lem (vector small size (x ∷ xs)) (count, bytes) c b h =
    let rest = count_elements_lem (1 + length xs) size x xs (count, bytes) c b h in
    let product = add-mul ((1 + length xs) * differing x xs) 1 size in
    (ground (arith, h.0, rest.0), ground (arith, h.1, rest.1, product))
count_operand_lem other_operand (count, bytes) c b h = (omega (arith, h.0), omega (arith, h.1))

count_operands_lem :
    (os : List Operand) (acc : ℕ × ℕ) (c b : ℕ)
    → Patterns acc c b
    → Patterns (count_operands os acc) (c + charged_all os) (b + charged_bytes os)
unfolding count_operands charged_all charged_bytes
count_operands_lem [] acc c b h = (omega (arith, h.0), omega (arith, h.1))
count_operands_lem (o ∷ os) acc c b h =
    let rest =
      count_operands_lem os (count_operand o acc) (c + charged o) (b + charged o * size_of o)
        (count_operand_lem o acc c b h) in
    (omega (arith, rest.0), omega (arith, rest.1))

-- An instruction is charged one load of 8 bytes for each constant of 64 bits that is no round
-- number, and for a vector of n elements n * k + 1 loads of an element's size, where k of its
-- elements differ from the first, unless the first is an integer that fits in a byte. The loads and
-- the bytes are those sums modulo 2 ^ 32, as the bits of an int: the int is the sum itself only
-- where the sum is below 2 ^ 31.
pub get_large_constant_op_count_lem :
    (os : List Operand)
    → ((get_large_constant_op_count os).0 ≡ charged_all os % 2 ^ 32)
      × ((get_large_constant_op_count os).1 ≡ charged_bytes os % 2 ^ 32)
unfolding get_large_constant_op_count
get_large_constant_op_count_lem os =
    let sums = count_operands_lem os (0, 0) 0 0 (refl, refl) in
    (omega (arith, sums.0), omega (arith, sums.1))
