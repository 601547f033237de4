-- ===== src/Text.antt =====
-- The text helpers of src/zray_util.cc: trim and reduce. A text is the list of its bytes.
pub mod Trim
pub mod Words
pub mod Reduce
pub mod Tests
use zray.Base.{
  ℕ, zero, suc, Bool, true, false, ◌^◌, ◌-◌, List, [], ◌∷◌, Option, none, some, ◌==◌, if◌then◌else◌,
  map, drop, not, ◌++◌, ◌+◌, length, take,
}
use zray.Base.Word.{wadd, wsub}

unfoldable pub contains : List ℕ → ℕ → Bool
contains [] c = false
contains (w ∷ ws) c = if c == w then true else contains ws c

-- The position behind a byte, where `found` says whether the byte is of the kind left out.
unfoldable pub before : Bool → Option ℕ → Option ℕ
before false rest = some 0
before true none = none
before true (some n) = some (suc n)

unfoldable pub after : Bool → Option ℕ → Option ℕ
after b (some n) = some (suc n)
after false none = some 0
after true none = none

-- std::string::find_first_not_of and find_last_not_of; none stands for npos.
unfoldable pub find_first_not_of : List ℕ → List ℕ → Option ℕ
unfolding before contains
find_first_not_of ws [] = none
find_first_not_of ws (c ∷ s) = before (contains ws c) (find_first_not_of ws s)

unfoldable pub find_last_not_of : List ℕ → List ℕ → Option ℕ
unfolding after contains
find_last_not_of ws [] = none
find_last_not_of ws (c ∷ s) = after (contains ws c) (find_last_not_of ws s)

-- A position as a number, npos being the largest size_t.
unfoldable pub position : Option ℕ → ℕ
position none = 2 ^ 64 - 1
position (some n) = n

-- The lines of trim behind its searches; std::string::substr takes what there is of a range.
unfoldable pub cut : List ℕ → Option ℕ → Option ℕ → List ℕ
unfolding position
cut s none last = []
cut s (some first) last = take (wadd (wsub (position last) first) 1) (drop first s)

unfoldable pub trim : List ℕ → List ℕ → List ℕ
unfolding cut find_first_not_of find_last_not_of
trim ws s = cut s (find_first_not_of ws s) (find_last_not_of ws s)

-- std::string::find_first_of, and the two searches from a position on.
unfoldable pub find_first_of : List ℕ → List ℕ → Option ℕ
unfolding before contains
find_first_of ws [] = none
find_first_of ws (c ∷ s) = before (not (contains ws c)) (find_first_of ws s)

unfoldable pub shifted : ℕ → Option ℕ → Option ℕ
shifted n none = none
shifted n (some k) = some (n + k)

unfoldable pub find_first_of_from : List ℕ → ℕ → List ℕ → Option ℕ
unfolding shifted find_first_of
find_first_of_from ws start s = shifted start (find_first_of ws (drop start s))

unfoldable pub find_first_not_of_from : List ℕ → ℕ → List ℕ → Option ℕ
unfolding shifted find_first_not_of
find_first_not_of_from ws start s = shifted start (find_first_not_of ws (drop start s))

-- result.replace(beginSpace, endSpace - beginSpace, fill): with npos, up to the end.
unfoldable pub replace : ℕ → Option ℕ → List ℕ → List ℕ → List ℕ
replace first none fill s = take first s ++ fill
replace first (some last) fill s = take first s ++ (fill ++ drop last s)

-- The loop of reduce, from a result and beginSpace; none when the fuel does not suffice.
unfoldable pub replace_spaces : ℕ → List ℕ → List ℕ → List ℕ → Option ℕ → Option (List ℕ)
unfolding replace find_first_of_from find_first_not_of_from
replace_spaces fuel ws fill result none = some result
replace_spaces zero ws fill result (some first) = none
replace_spaces (suc fuel) ws fill result (some first) =
    let next = replace first (find_first_not_of_from ws first result) fill result in
    replace_spaces fuel ws fill next (find_first_of_from ws (first + length fill) next)

unfoldable pub reduce : List ℕ → List ℕ → List ℕ → Option (List ℕ)
unfolding trim find_first_of replace_spaces
reduce ws fill s =
    let result = trim ws s in
    replace_spaces (length result) ws fill result (find_first_of ws result)
