-- ===== src/Markers/Group.antt =====
-- getGroupID of src/zray_parse.cc, which noinline_pass.cc repeats: the number behind the marker's
-- name, as in: call void asm sideeffect "#ZRAY_ROI_BEGIN 12", "~{dirflag}"()
use zray.Base.{
  ℕ, zero, suc, ◌+◌, ◌-◌, ◌*◌, ◌^◌, ◌%◌, subst, sym, ◌++◌, ◌≤◌, ◌<◌, ◌≡◌, refl, Bool, false, ◌&&◌,
  ◌||◌, List, [], ◌∷◌, Option, none, some, arith, ◌==◌, leb, ltb, if◌then◌else◌, length, take, drop,
}
use zray.Base.Word.{wsub}
use zray.Text.{find_first_of, reduce}
use zray.Text.Trim.{Below, drop_leading, drop_trailing}
use zray.Text.Words.{collapse}
use zray.Text.Reduce.{reduce_lem}
use zray.Markers.{whitespace, asm_text, sideeffect_text, same_text, split}
use zray.Markers.Scan.{find_first_of-Below, drop-shorter}

-- The digits at the head of a text, behind those read before.
unfoldable pub read_digits : ℕ → List ℕ → ℕ
read_digits n [] = n
read_digits n (c ∷ s) =
    let more = read_digits (10 * n + (c - 48)) s in if leb 48 c && leb c 57 then more else n

-- An int as a size_t: its low 32 bits, sign-extended. For a number that int does not hold, atoi is
-- not defined; this keeps the low bits.
abbrev pub int_as_size : ℕ → ℕ
int_as_size n = let low = n % 2 ^ 32 in if ltb low (2 ^ 31) then low else low + (2 ^ 64 - 2 ^ 32)

unfoldable pub read_sign : List ℕ → ℕ
unfolding read_digits
read_sign [] = 0
read_sign (c ∷ s) =
    if c == 45
    then int_as_size (wsub 0 (read_digits 0 s))
    else if c == 43
    then int_as_size (read_digits 0 s)
    else int_as_size (read_digits 0 (c ∷ s))

-- isspace
abbrev pub is_space : ℕ → Bool
is_space c = c == 32 || (leb 9 c && leb c 13)

unfoldable pub atoi : List ℕ → ℕ
unfolding read_sign
atoi [] = 0
atoi (c ∷ s) = let more = atoi s in if is_space c then more else read_sign (c ∷ s)

abbrev pub quote : List ℕ
quote = 34 ∷ []

-- inst.substr(0, inst.find('"'))
unfoldable pub up_to_quote : List ℕ → Option ℕ → List ℕ
up_to_quote s none = s
up_to_quote s (some pos) = take pos s

-- What a turn of the loop does: go on in a state, or return.
pub data GroupTurn : Type 0 where
  stay : ℕ → GroupTurn
  leave : ℕ → GroupTurn

unfoldable pub group_state : ℕ → List ℕ → List ℕ → GroupTurn
unfolding same_text atoi up_to_quote find_first_of
group_state zero token rest = stay (if same_text token asm_text then 1 else 0)
group_state (suc zero) token rest = if same_text token sideeffect_text then stay 2 else leave 0
group_state (suc (suc zero)) token rest = leave (atoi (up_to_quote rest (find_first_of quote rest)))
group_state (suc (suc (suc n))) token rest = stay (suc (suc (suc n)))

-- The loop, from inst and pos; none when the fuel does not suffice.
unfoldable pub scan_group : ℕ → ℕ → List ℕ → Option ℕ → Option ℕ
unfolding group_state find_first_of
scan_group fuel state inst none = some 0
scan_group zero state inst (some pos) = none
scan_group (suc fuel) state inst (some pos) =
    let rest = drop (pos + 1) inst in
    elim (group_state state (take pos inst) rest) [
      | stay n ↦ scan_group fuel n rest (find_first_of split rest)
      | leave n ↦ some n
    ]

abbrev pub scan_reduced : Option (List ℕ) → Option ℕ
scan_reduced none = none
scan_reduced (some inst) = scan_group (length inst) 0 inst (find_first_of split inst)

unfoldable pub get_group_id : List ℕ → Option ℕ
unfolding reduce scan_group
get_group_id inst = scan_reduced (reduce whitespace split inst)

-- The loop ends: each turn drops a byte at least.
abbrev Answers : Option ℕ → Type 0
Answers o = (n : ℕ) × (o ≡ some n)

group_turn-Answers :
    (t : GroupTurn) (next : ℕ → Option ℕ)
    → ((n : ℕ) → Answers (next n))
    → Answers (elim t [ stay n ↦ next n | leave n ↦ some n ])
group_turn-Answers (stay n) next h = h n
group_turn-Answers (leave n) next h = (n, refl)

scan_group-Answers :
    (fuel state : ℕ) (inst : List ℕ) (k : Option ℕ)
    → Below k (length inst)
    → length inst ≤ fuel
    → Answers (scan_group fuel state inst k)
unfolding scan_group
scan_group-Answers fuel state inst none h l = (0, refl)
scan_group-Answers zero state inst (some pos) h l = absurd (omega arith)
scan_group-Answers (suc fuel) state inst (some pos) h l =
    let rest = drop (pos + 1) inst in
    group_turn-Answers (group_state state (take pos inst) rest)
      (λ n. scan_group fuel n rest (find_first_of split rest))
      (λ n.
        scan_group-Answers fuel n rest (find_first_of split rest) (find_first_of-Below split rest)
          (omega (arith, drop-shorter (pos + 1) inst (omega arith))))

scan_reduced-Answers : (text : List ℕ) → Answers (scan_reduced (some text))
scan_reduced-Answers text =
    scan_group-Answers (length text) 0 text (find_first_of split text)
      (find_first_of-Below split text) (omega arith)

-- getGroupID comes back on every text of less than 2 ^ 64 bytes.
pub get_group_id_answers :
    (inst : List ℕ) → length inst < 2 ^ 64 → (n : ℕ) × (get_group_id inst ≡ some n)
unfolding get_group_id
get_group_id_answers inst b =
    let text =
      collapse whitespace split false (drop_trailing whitespace (drop_leading whitespace inst)) in
    subst (λ o. Answers (scan_reduced o)) (sym (reduce_lem whitespace split inst b))
      (scan_reduced-Answers text)

-- call asm sideeffect "ZR 12"
group_test :
    get_group_id
      (asm_text ++ split ++ sideeffect_text ++ split ++ (34 ∷ 90 ∷ 82 ∷ 32 ∷ 49 ∷ 50 ∷ 34 ∷ []))
    ≡ some 12
unfolding get_group_id
group_test = refl
