-- ===== src/Text/Reduce.antt =====
-- reduce of src/zray_util.cc against a text in which each run of whitespace has become the fill.
use zray.Base.{
  ℕ, zero, suc, ◌+◌, ◌≤◌, ◌<◌, ◌^◌, ◌≡◌, refl, sym, ap, ◌∙◌, true, false, List, [], ◌∷◌, ◌++◌,
  Option, none, some, arith, length, length-append, drop-append, take-append, append_assoc,
  append-nil, drop,
}
use zray.Text.{
  contains, before, shifted, find_first_of, find_first_not_of, find_first_of_from,
  find_first_not_of_from, replace, replace_spaces, trim, reduce,
}
use zray.Text.Trim.{drop_leading, drop_trailing, trim_lem}
use zray.Text.Words.{collapse, whole, ended, word, Space, blank, closed, space}

-- Once the text in front of the first blank is done, the rest is looked at as a text of its own.
from_here :
    (ws done s : List ℕ)
    → find_first_of_from ws (length done) (done ++ s) ≡ shifted (length done) (find_first_of ws s)
unfolding find_first_of_from
from_here ws done s = ap (λ t. shifted (length done) (find_first_of ws t)) (drop-append done s)

drop-append2 : (a b c : List ℕ) → drop (length a + length b) (a ++ (b ++ c)) ≡ c
drop-append2 a b c =
    ap (λ n. drop n (a ++ (b ++ c))) (sym (length-append a b))
    ∙ ap (λ t. drop (length (a ++ b)) t) (sym (append_assoc a b c))
    ∙ drop-append (a ++ b) c

-- A replacement in front of `rest`.
replaced :
    (fill a run rest : List ℕ)
    → replace (length a) (some (length a + length run)) fill (a ++ (run ++ rest))
      ≡ (a ++ fill) ++ rest
unfolding replace
replaced fill a run rest =
    ap (λ t. t ++ (fill ++ drop (length a + length run) (a ++ (run ++ rest))))
      (take-append a (run ++ rest))
    ∙ ap (λ t. a ++ (fill ++ t)) (drop-append2 a run rest)
    ∙ sym (append_assoc a fill rest)

replaced_rest :
    (fill a rest : List ℕ) → replace (length a) none fill (a ++ rest) ≡ (a ++ fill) ++ []
unfolding replace
replaced_rest fill a rest = ap (λ t. t ++ fill) (take-append a rest) ∙ sym (append-nil (a ++ fill))

-- One turn of the loop, at whitespace `c` behind `a`: `rest` remains.
data Turn (ws fill a : List ℕ) (c : ℕ) (v : List ℕ) : Type 0 where
  turn :
      (rest : List ℕ)
      → replace (length a) (find_first_not_of_from ws (length a) (a ++ (c ∷ v))) fill (a ++ (c ∷ v))
        ≡ (a ++ fill) ++ rest
      → collapse ws fill true v ≡ collapse ws fill false rest
      → length rest ≤ length v
      → Turn ws fill a c v

last_of_run :
    (ws a : List ℕ) (c : ℕ) (v : List ℕ) (k : Option ℕ)
    → contains ws c ≡ true
    → find_first_not_of ws v ≡ k
    → find_first_not_of_from ws (length a) (a ++ (c ∷ v)) ≡ shifted (length a) (before true k)
unfolding find_first_not_of_from find_first_not_of
last_of_run ws a c v k e f =
    ap (λ t. shifted (length a) (find_first_not_of ws t)) (drop-append a (c ∷ v))
    ∙ ap (λ t. shifted (length a) (before t (find_first_not_of ws v))) e
    ∙ ap (λ t. shifted (length a) (before true t)) f

replace_run :
    (ws fill a : List ℕ) (c : ℕ) (v : List ℕ)
    → contains ws c ≡ true
    → Space ws fill v
    → Turn ws fill a c v
unfolding shifted before collapse
replace_run ws fill a c v e (blank f g) =
    turn []
      (ap (λ k. replace (length a) k fill (a ++ (c ∷ v))) (last_of_run ws a c v none e f)
        ∙ replaced_rest fill a (c ∷ v))
      g (omega arith)
replace_run ws fill a c v e (closed u rest p f g) =
    turn rest
      (ap (λ k. replace (length a) k fill (a ++ (c ∷ v)))
          (last_of_run ws a c v (some (length u)) e f)
        ∙ ap (λ t. replace (length a) (some (length a + suc (length u))) fill (a ++ (c ∷ t))) p
        ∙ replaced fill a (c ∷ u) rest)
      g (omega (arith, ap (λ t. length t) p, length-append u rest))

abbrev Collapses : ℕ → List ℕ → List ℕ → List ℕ → List ℕ → Type 0
Collapses n ws fill done s =
    replace_spaces n ws fill (done ++ s) (find_first_of_from ws (length done) (done ++ s))
    ≡ some (done ++ collapse ws fill false s)

-- The result of the loop that goes on at `rest`, in the terms of the text it started from.
assembled :
    (done u fill rest : List ℕ) → ((done ++ u) ++ fill) ++ rest ≡ done ++ (u ++ (fill ++ rest))
assembled done u fill rest = append_assoc (done ++ u) fill rest ∙ append_assoc done u (fill ++ rest)

replace_rest :
    (n : ℕ) (ws fill a : List ℕ) (c : ℕ) (v : List ℕ)
    → length v ≤ n
    → ((done rest : List ℕ) → length rest ≤ n → Collapses n ws fill done rest)
    → Turn ws fill a c v
    → replace_spaces (suc n) ws fill (a ++ (c ∷ v)) (some (length a))
      ≡ some ((a ++ fill) ++ collapse ws fill true v)
unfolding replace_spaces
replace_rest n ws fill a c v b ih (turn rest q g l) =
    ap (λ t. replace_spaces n ws fill t (find_first_of_from ws (length a + length fill) t)) q
    ∙ ap
        (λ k.
          replace_spaces n ws fill ((a ++ fill) ++ rest)
            (find_first_of_from ws k ((a ++ fill) ++ rest)))
        (sym (length-append a fill))
    ∙ ih (a ++ fill) rest (omega (arith, l, b))
    ∙ ap (λ t. some ((a ++ fill) ++ t)) (sym g)

replace_spaces-ended :
    (n : ℕ) (ws fill done s u : List ℕ) (c : ℕ) (v : List ℕ)
    → s ≡ u ++ (c ∷ v)
    → contains ws c ≡ true
    → find_first_of ws s ≡ some (length u)
    → collapse ws fill false s ≡ u ++ (fill ++ collapse ws fill true v)
    → length v ≤ n
    → ((more rest : List ℕ) → length rest ≤ n → Collapses n ws fill more rest)
    → Collapses (suc n) ws fill done s
unfolding shifted
replace_spaces-ended n ws fill done s u c v p e f g b ih =
    ap (λ k. replace_spaces (suc n) ws fill (done ++ s) k)
      (from_here ws done s ∙ ap (shifted (length done)) f ∙ ap some (sym (length-append done u)))
    ∙ ap (λ t. replace_spaces (suc n) ws fill t (some (length (done ++ u))))
        (ap (λ t. done ++ t) p ∙ sym (append_assoc done u (c ∷ v)))
    ∙ replace_rest n ws fill (done ++ u) c v b ih
        (replace_run ws fill (done ++ u) c v e (space ws fill v))
    ∙ ap some (assembled done u fill (collapse ws fill true v) ∙ sym (ap (λ t. done ++ t) g))

replace_spaces-whole :
    (n : ℕ) (ws fill done s : List ℕ)
    → find_first_of ws s ≡ none
    → collapse ws fill false s ≡ s
    → Collapses n ws fill done s
unfolding shifted replace_spaces
replace_spaces-whole n ws fill done s f g =
    ap (λ k. replace_spaces n ws fill (done ++ s) k)
      (from_here ws done s ∙ ap (shifted (length done)) f)
    ∙ ap (λ t. some (done ++ t)) (sym g)

replace_spaces_lem : (n : ℕ) (ws fill done s : List ℕ) → length s ≤ n → Collapses n ws fill done s
replace_spaces_lem zero ws fill done s b = elim (word ws fill s) [
  | whole f g ↦ replace_spaces-whole zero ws fill done s f g
  | ended u c v p e f g ↦ absurd (omega (arith, b, ap (λ t. length t) p, length-append u (c ∷ v)))
]
replace_spaces_lem (suc n) ws fill done s b = elim (word ws fill s) [
  | whole f g ↦ replace_spaces-whole (suc n) ws fill done s f g
  | ended u c v p e f g ↦
      replace_spaces-ended n ws fill done s u c v p e f g
        (omega (arith, b, ap (λ t. length t) p, length-append u (c ∷ v)))
        (replace_spaces_lem n ws fill)
]

shifted_zero : (k : Option ℕ) → k ≡ shifted 0 k
unfolding shifted
shifted_zero none = refl
shifted_zero (some n) = ap some (omega arith)

start : (ws s : List ℕ) → find_first_of ws s ≡ find_first_of_from ws 0 s
start ws s = shifted_zero (find_first_of ws s) ∙ sym (from_here ws [] s)

-- reduce ends, and returns the text without its leading and trailing whitespace, in which the fill
-- stands for each run of whitespace; the text has less than 2 ^ 64 bytes.
pub reduce_lem :
    (ws fill s : List ℕ)
    → length s < 2 ^ 64
    → reduce ws fill s ≡ some (collapse ws fill false (drop_trailing ws (drop_leading ws s)))
unfolding reduce find_first_of_from
reduce_lem ws fill s b =
    ap (λ k. replace_spaces (length (trim ws s)) ws fill (trim ws s) k) (start ws (trim ws s))
    ∙ replace_spaces_lem (length (trim ws s)) ws fill [] (trim ws s) (omega arith)
    ∙ ap (λ t. some (collapse ws fill false t)) (trim_lem ws s b)
