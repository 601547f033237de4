-- ===== src/Markers/Tests.antt =====
-- isToolFlag at the text "call asm  sideeffect ZR 1" and the name "ZR".
use zray.Base.{ℕ, ◌≡◌, refl, true, false, List, [], ◌∷◌, ◌++◌, some, arith}
use zray.Text.Trim.{drop_leading, drop_trailing}
use zray.Text.Words.{collapse}
use zray.Markers.{asm_text, sideeffect_text, split, whitespace, is_tool_flag}
use zray.Markers.Scan.{words_of, has_marker, is_tool_flag_lem}

abbrev roi : List ℕ
roi = 90 ∷ 82 ∷ []

abbrev marker : List ℕ
marker =
    99 ∷ 32 ∷ [] ++ asm_text ++ whitespace ++ sideeffect_text ++ split ++ roi ++ split ++ (49 ∷ [])

marker_is_found : is_tool_flag marker roi ≡ some true
unfolding is_tool_flag
marker_is_found = refl

-- Without a blank behind it, the name is not seen.
bare_marker : is_tool_flag (asm_text ++ split ++ sideeffect_text ++ split ++ roi) roi ≡ some false
unfolding is_tool_flag
bare_marker = refl

is_tool_flag_lem_example :
    is_tool_flag marker roi
    ≡ some (
        has_marker roi (
          words_of (
            collapse whitespace split false
              (drop_trailing whitespace (drop_leading whitespace marker)))))
is_tool_flag_lem_example = is_tool_flag_lem marker roi (omega arith)
