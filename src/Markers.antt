-- ===== src/Markers.antt =====
-- isToolFlag of src/zray_parse.cc, which noinline_pass.cc repeats: whether the text of a call is a
-- marker, as in: call void asm sideeffect "#ZRAY_ROI_BEGIN 1", ...
pub mod Scan
pub mod Group
pub mod Tests
use zray.Base.{
  ℕ, zero, suc, ◌+◌, Bool, true, false, ◌&&◌, ◌||◌, List, [], ◌∷◌, Option, none, some, ◌==◌,
  if◌then◌else◌, length, take, drop,
}
use zray.Text.{find_first_of, reduce}

-- The bytes of "asm" and "sideeffect"
abbrev pub asm_text : List ℕ
asm_text = 97 ∷ 115 ∷ 109 ∷ []

abbrev pub sideeffect_text : List ℕ
sideeffect_text = 115 ∷ 105 ∷ 100 ∷ 101 ∷ 101 ∷ 102 ∷ 102 ∷ 101 ∷ 99 ∷ 116 ∷ []

unfoldable pub same_text : List ℕ → List ℕ → Bool
same_text [] [] = true
same_text [] (b ∷ t) = false
same_text (a ∷ s) [] = false
same_text (a ∷ s) (b ∷ t) = a == b && same_text s t

unfoldable pub starts_with : List ℕ → List ℕ → Bool
starts_with [] t = true
starts_with (a ∷ s) [] = false
starts_with (a ∷ s) (b ∷ t) = a == b && starts_with s t

-- token.find(pragmaName) != npos
unfoldable pub occurs : List ℕ → List ℕ → Bool
unfolding starts_with
occurs name [] = starts_with name []
occurs name (c ∷ t) = starts_with name (c ∷ t) || occurs name t

pub data Verdict : Type 0 where
  go_on : ℕ → Verdict
  answer : Bool → Verdict

-- switch (state)
unfoldable pub switch_state : List ℕ → ℕ → List ℕ → Verdict
unfolding same_text occurs
switch_state name zero token = go_on (if same_text token asm_text then 1 else 0)
switch_state name (suc zero) token =
    if same_text token sideeffect_text then go_on 2 else answer false
switch_state name (suc (suc zero)) token = answer (occurs name token)
switch_state name (suc (suc (suc n))) token = go_on (suc (suc (suc n)))

abbrev pub split : List ℕ
split = 32 ∷ []

-- The loop, from inst and pos; none when the fuel does not suffice.
unfoldable pub scan : ℕ → List ℕ → ℕ → List ℕ → Option ℕ → Option Bool
unfolding switch_state find_first_of
scan fuel name state inst none = some false
scan zero name state inst (some pos) = none
scan (suc fuel) name state inst (some pos) =
    let rest = drop (pos + 1) inst in
    elim (switch_state name state (take pos inst)) [
      | go_on n ↦ scan fuel name n rest (find_first_of split rest)
      | answer b ↦ some b
    ]

-- reduce's arguments where none are given: a blank and a tab, and a blank.
abbrev pub whitespace : List ℕ
whitespace = 32 ∷ 9 ∷ []

abbrev pub scan_text : List ℕ → Option (List ℕ) → Option Bool
scan_text name none = none
scan_text name (some inst) = scan (length inst) name 0 inst (find_first_of split inst)

unfoldable pub is_tool_flag : List ℕ → List ℕ → Option Bool
unfolding reduce scan
is_tool_flag inst name = scan_text name (reduce whitespace split inst)
