-- ===== src/Markers/Scan.antt =====
-- What isToolFlag of src/zray_parse.cc looks for among the words that a blank follows.
use zray.Base.{
  ℕ, zero, suc, ◌+◌, ◌≤◌, ◌<◌, ◌^◌, ◌≡◌, refl, sym, ap, ◌∙◌, Bool, true, false, not, ◌&&◌, List, [],
  ◌∷◌, Option, none, some, arith, if◌then◌else◌, length, take, drop,
}
use zray.Text.{before, contains, find_first_of}
use zray.Text.Trim.{Below, before_step, drop_leading, drop_trailing}
use zray.Text.Words.{collapse}
use zray.Text.Reduce.{reduce_lem}
use zray.Markers.{
  whitespace, asm_text, sideeffect_text, same_text, occurs, go_on, answer, split, scan, scan_text,
  is_tool_flag,
}

-- A byte in front of the first word; the last word has no blank behind it, and is left out.
unfoldable pub push_byte : ℕ → List (List ℕ) → List (List ℕ)
push_byte c [] = []
push_byte c (w ∷ words) = (c ∷ w) ∷ words

unfoldable pub words_of : List ℕ → List (List ℕ)
unfolding push_byte
words_of [] = []
words_of (c ∷ s) = if contains split c then [] ∷ words_of s else push_byte c (words_of s)

-- Whether the next word holds the name
unfoldable pub names : List ℕ → List (List ℕ) → Bool
names name [] = false
names name (w ∷ words) = occurs name w

unfoldable pub is_marked : List ℕ → List (List ℕ) → Bool
unfolding names
is_marked name [] = false
is_marked name (w ∷ words) = same_text w sideeffect_text && names name words

-- Whether "sideeffect" and a word with the name follow the first "asm"
unfoldable pub has_marker : List ℕ → List (List ℕ) → Bool
unfolding is_marked
has_marker name [] = false
has_marker name (w ∷ words) =
    if same_text w asm_text then is_marked name words else has_marker name words

unfoldable words_at : List ℕ → Option ℕ → List (List ℕ)
words_at s none = []
words_at s (some k) = take k s ∷ words_of (drop (k + 1) s)

words_at-before :
    (c : ℕ) (s : List ℕ) (k : Option ℕ)
    → words_at (c ∷ s) (before true k) ≡ push_byte c (words_at s k)
unfolding words_at before push_byte
words_at-before c s none = refl
words_at-before c s (some k) =
    let shift : suc k + 1 ≡ suc (k + 1) = omega arith in
    ap (λ n. (c ∷ take k s) ∷ words_of (drop n (c ∷ s))) shift

words_step :
    (b : Bool) (c : ℕ) (s : List ℕ) (k : Option ℕ)
    → words_of s ≡ words_at s k
    → (if b then [] ∷ words_of s else push_byte c (words_of s))
      ≡ words_at (c ∷ s) (before (not b) k)
unfolding words_at before
words_step true c s k h = refl
words_step false c s k h = ap (push_byte c) h ∙ sym (words_at-before c s k)

words-found : (s : List ℕ) → words_of s ≡ words_at s (find_first_of split s)
unfolding words_of words_at find_first_of
words-found [] = refl
words-found (c ∷ s) = words_step (contains split c) c s (find_first_of split s) (words-found s)

pub find_first_of-Below : (ws s : List ℕ) → Below (find_first_of ws s) (length s)
unfolding find_first_of
find_first_of-Below ws [] = tt
find_first_of-Below ws (c ∷ s) =
    before_step (not (contains ws c)) (find_first_of ws s) (length s) (find_first_of-Below ws s)

-- What the loop returns from a state on.
unfoldable by_state : List ℕ → ℕ → List (List ℕ) → Bool
unfolding has_marker
by_state name zero words = has_marker name words
by_state name (suc zero) words = is_marked name words
by_state name (suc (suc zero)) words = names name words
by_state name (suc (suc (suc n))) words = false

no_words : (name : List ℕ) (state : ℕ) → by_state name state [] ≡ false
unfolding by_state
no_words name zero = refl
no_words name (suc zero) = refl
no_words name (suc (suc zero)) = refl
no_words name (suc (suc (suc n))) = refl

-- The rest of the text is scanned right from each state.
abbrev Scans : ℕ → List ℕ → List ℕ → Type 0
Scans n name s =
    (state : ℕ)
    → state ≤ 2
    → scan n name state s (find_first_of split s) ≡ some (by_state name state (words_of s))

from_asm :
    (b : Bool) (n : ℕ) (name rest : List ℕ)
    → Scans n name rest
    → scan n name (if b then 1 else 0) rest (find_first_of split rest)
      ≡ some (if b then is_marked name (words_of rest) else has_marker name (words_of rest))
unfolding by_state
from_asm true n name rest h = h 1 (omega arith)
from_asm false n name rest h = h 0 (omega arith)

from_sideeffect :
    (b : Bool) (n : ℕ) (name rest : List ℕ)
    → Scans n name rest
    → (elim (if b then go_on 2 else answer false) as (λ v. Option Bool) [
      | go_on m ↦ scan n name m rest (find_first_of split rest)
      | answer a ↦ some a
    ])
      ≡ some (b && names name (words_of rest))
unfolding by_state
from_sideeffect true n name rest h = h 2 (omega arith)
from_sideeffect false n name rest h = refl

scan_one :
    (n : ℕ) (name : List ℕ) (state : ℕ) (s : List ℕ) (k : ℕ)
    → state ≤ 2
    → Scans n name (drop (k + 1) s)
    → scan (suc n) name state s (some k) ≡ some (by_state name state (words_at s (some k)))
unfolding scan by_state words_at
scan_one n name zero s k b h = from_asm (same_text (take k s) asm_text) n name (drop (k + 1) s) h
scan_one n name (suc zero) s k b h =
    from_sideeffect (same_text (take k s) sideeffect_text) n name (drop (k + 1) s) h
scan_one n name (suc (suc zero)) s k b h = refl
scan_one n name (suc (suc (suc m))) s k b h = absurd (omega (arith, b))

pub drop-shorter : (n : ℕ) (s : List ℕ) → n ≤ length s → length (drop n s) + n ≡ length s
drop-shorter zero s h = omega arith
drop-shorter (suc n) [] h = absurd (omega (arith, h))
drop-shorter (suc n) (c ∷ s) h = omega (arith, drop-shorter n s (omega (arith, h)))

-- A text whose first blank is at `k`, or that has none, is scanned right if all shorter ones are.
scan_at :
    (n : ℕ) (name : List ℕ) (state : ℕ) (s : List ℕ) (k : Option ℕ)
    → state ≤ 2
    → Below k (length s)
    → length s ≤ suc n
    → ((rest : List ℕ) → length rest ≤ n → Scans n name rest)
    → scan (suc n) name state s k ≡ some (by_state name state (words_at s k))
unfolding scan words_at
scan_at n name state s none b h l ih = ap some (sym (no_words name state))
scan_at n name state s (some k) b h l ih =
    let shorter = drop-shorter (k + 1) s (omega (arith, h)) in
    scan_one n name state s k b (ih (drop (k + 1) s) (omega (arith, shorter, l)))

scan_lem : (n : ℕ) (name s : List ℕ) → length s ≤ n → Scans n name s
unfolding scan find_first_of words_of
scan_lem zero name [] l state b = ap some (sym (no_words name state))
scan_lem zero name (c ∷ s) l state b = absurd (omega (arith, l))
scan_lem (suc n) name s l state b =
    scan_at n name state s (find_first_of split s) b (find_first_of-Below split s) l
      (scan_lem n name)
    ∙ ap (λ t. some (by_state name state t)) (sym (words-found s))

-- isToolFlag ends, and says whether, among the words of the reduced text that a blank follows,
-- "sideeffect" comes directly behind the first "asm", and behind it a word that holds the name; the
-- text has less than 2 ^ 64 bytes.
pub is_tool_flag_lem :
    (inst name : List ℕ)
    → length inst < 2 ^ 64
    → is_tool_flag inst name
      ≡ some (
          has_marker name (
            words_of (
              collapse whitespace split false
                (drop_trailing whitespace (drop_leading whitespace inst)))))
unfolding is_tool_flag by_state
is_tool_flag_lem inst name b =
    let text =
      collapse whitespace split false (drop_trailing whitespace (drop_leading whitespace inst)) in
    ap (scan_text name) (reduce_lem whitespace split inst b)
    ∙ scan_lem (length text) name text (omega arith) 0 (omega arith)
