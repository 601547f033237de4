-- ===== src/Text/Tests.antt =====
-- The text helpers at the text "  omp  zray ".
use zray.Base.{ℕ, ◌≡◌, refl, false, List, [], ◌∷◌, some, arith}
use zray.Text.{trim, reduce}
use zray.Text.Trim.{drop_leading, drop_trailing, trim_lem}
use zray.Text.Words.{collapse}
use zray.Text.Reduce.{reduce_lem}

-- A blank and a tab
abbrev whitespace : List ℕ
whitespace = 32 ∷ 9 ∷ []

abbrev marker : List ℕ
marker = 32 ∷ 9 ∷ 111 ∷ 109 ∷ 112 ∷ 32 ∷ 9 ∷ 122 ∷ 32 ∷ []

trim_of_marker : trim whitespace marker ≡ 111 ∷ 109 ∷ 112 ∷ 32 ∷ 9 ∷ 122 ∷ []
unfolding trim
trim_of_marker = refl

reduce_of_marker : reduce whitespace (32 ∷ []) marker ≡ some (111 ∷ 109 ∷ 112 ∷ 32 ∷ 122 ∷ [])
unfolding reduce
reduce_of_marker = refl

trim_lem_example :
    trim whitespace marker ≡ drop_trailing whitespace (drop_leading whitespace marker)
trim_lem_example = trim_lem whitespace marker (omega arith)

reduce_lem_example :
    reduce whitespace (32 ∷ []) marker
    ≡ some (
        collapse whitespace
          (32 ∷ [])
          false
          (drop_trailing whitespace (drop_leading whitespace marker)))
reduce_lem_example = reduce_lem whitespace (32 ∷ []) marker (omega arith)
