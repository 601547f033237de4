-- ===== src/Discovery/Tests.antt =====
-- The search of src/zray_parse.cc on a function of four blocks: group 7 opens in block 0 and closes
-- in block 3, and group 9 opens and closes in block 1.
use zray.Base.{
  Option, ℕ, zero, suc, ◌∷◌, [], List, ◌++◌, ◌≡◌, refl, true, false, All, arith, get_elem?, some,
  none, ◌↔◌, sym, ap, ◌==◌, ◌||◌,
}
use zray.Markers.{asm_text, sideeffect_text, split}
use zray.Discovery.{
  Line, Function, NewRegion, pass_begin, pass_end, is_visited, search, run_on_function,
}
use zray.Discovery.Split.{split_instrumented, concat, Cut, split_instrumented-Cut}
use zray.Discovery.Reach.{Reaches}
use zray.Discovery.Walk.{Enclosed, search-Reaches}
use zray.Discovery.Listed.{InPlace, ClosesOwn, run_on_function-InPlace}

-- asm sideeffect "NAME digit" x
abbrev marker : List ℕ → ℕ → Line
marker name digit = record {
  text =
      asm_text
      ++ split
      ++ sideeffect_text
      ++ split
      ++ (34 ∷ name)
      ++ (32 ∷ digit ∷ 34 ∷ 32 ∷ 120 ∷ []);
  is_call = true;
  is_debug = false;
}

abbrev plain : Line
plain = record { text = 97 ∷ []; is_call = true; is_debug = false }

abbrev lines_of : ℕ → List Line
lines_of zero = marker pass_begin 55 ∷ plain ∷ []
lines_of (suc zero) = marker pass_begin 57 ∷ plain ∷ marker pass_end 57 ∷ []
lines_of (suc (suc zero)) = []
lines_of (suc (suc (suc n))) = marker pass_end 55 ∷ []

abbrev successors_of : ℕ → List ℕ
successors_of zero = 1 ∷ 2 ∷ []
successors_of (suc zero) = 3 ∷ []
successors_of (suc (suc zero)) = 3 ∷ []
successors_of (suc (suc (suc n))) = 0 ∷ []

abbrev function : Function
function = record {
  ordered_cfg = 0 ∷ 1 ∷ 2 ∷ 3 ∷ [];
  lines = lines_of;
  successors = successors_of;
  dominates = λ a b. a == 0 || a == b;
}

-- A region of a function that was parsed before.
abbrev earlier : List NewRegion
earlier = record { pragma_region_id = 0; group_id = 5; bb_list = 8 ∷ [] } ∷ []

run_on_function_test : run_on_function false function earlier ≡ record {
  modified = true;
  pr_list =
      earlier
      ++ (record { pragma_region_id = 1; group_id = 7; bb_list = 0 ∷ 1 ∷ 3 ∷ 2 ∷ [] }
          ∷ record { pragma_region_id = 2; group_id = 9; bb_list = 1 ∷ [] }
          ∷ []);
  calls =
      record { marker = marker pass_end 57; region_id = 2 }
      ∷ record { marker = marker pass_end 55; region_id = 1 }
      ∷ [];
  warnings = [];
}
unfolding run_on_function
run_on_function_test = refl

function-Enclosed : Enclosed function (0 ∷ 1 ∷ 2 ∷ 3 ∷ [])
unfolding is_visited
function-Enclosed zero y h k = ground (arith, k)
function-Enclosed (suc zero) y h k = ground (arith, k)
function-Enclosed (suc (suc zero)) y h k = ground (arith, k)
function-Enclosed (suc (suc (suc n))) y h k = ground (arith, k)

search-Reaches_example :
    (is_visited 3 (search function 1 (0 ∷ 1 ∷ 2 ∷ 3 ∷ [])).visited ≡ true) ↔ Reaches function 0 3
search-Reaches_example = search-Reaches function 1 0 (1 ∷ 2 ∷ 3 ∷ []) function-Enclosed 3

earlier-InPlace : InPlace earlier
earlier-InPlace zero r h = sym (ap number h)
  where
    number : Option NewRegion → ℕ
    number none = 0
    number (some q) = q.pragma_region_id
earlier-InPlace (suc i) r h = absurd (cc)

run_on_function-InPlace_example :
    InPlace (run_on_function false function earlier).pr_list
    × ((i : ℕ) (r : NewRegion)
        → get_elem? earlier i ≡ some r
        → get_elem? (run_on_function false function earlier).pr_list i ≡ some r)
    × All
        (ClosesOwn (run_on_function false function earlier).pr_list)
        (run_on_function false function earlier).calls
run_on_function-InPlace_example = run_on_function-InPlace false function earlier earlier-InPlace

-- A block with a region in its middle
abbrev unsplit : List Line
unsplit = plain ∷ marker pass_begin 57 ∷ plain ∷ marker pass_end 57 ∷ plain ∷ []

split_test :
    split_instrumented unsplit
    ≡ (plain ∷ []) ∷ (marker pass_begin 57 ∷ plain ∷ marker pass_end 57 ∷ []) ∷ (plain ∷ []) ∷ []
unfolding split_instrumented
split_test = refl

split_instrumented-Cut_example :
    (concat (split_instrumented unsplit) ≡ unsplit) × All Cut (split_instrumented unsplit)
split_instrumented-Cut_example = split_instrumented-Cut unsplit
