-- ===== src/Discovery/Numbers.antt =====
-- The numbers that recordPragmaRegions of src/zray_parse.cc gives to the calls that close regions.
use zray.Base.{
  All-append, All-map, ℕ, ◌+◌, ◌≡◌, refl, sym, subst, some, List, [], ◌∷◌, ◌++◌, length, All,
  get_elem?, if◌then◌else◌, if_cases, option_cases,
}
use zray.Discovery.{
  Function, Line, SztBbvec, Open, EndCall, Closing, find_group, distance, begin_group, begin_lines,
  marker_group, close_group, close_lines, back, push_back, pop_back, is_marker, pass_begin,
  pass_end,
}
use zray.Discovery.Keys.{
  keys, Extends, Known, get_elem?-append, get_elem?-length, keys-append, keys-change_group, OnFound,
  found-All, found-Known, distance-Known,
}

-- The groups of id_stack are those of BasicBlockGroupList.
abbrev pub Stacked : Open → Type 0
Stacked o = All (Known (keys o.groups)) (keys o.id_stack)

-- A step of the search of begin markers: BasicBlockGroupList grows, and still has the open groups.
abbrev pub Opens : Open → Open → Type 0
Opens o p = Extends (keys o.groups) (keys p.groups) × (Stacked o → Stacked p)

Extends-Known : (ks more : List ℕ) → Extends ks more → (g : ℕ) → Known ks g → Known more g
Extends-Known ks more e g (p, h) = (p, e p g h)

pub Extends-All : (ks more gs : List ℕ) → Extends ks more → All (Known ks) gs → All (Known more) gs
Extends-All ks more gs e h = All-map (Known ks) (Known more) gs (Extends-Known ks more e) h

open_stack :
    (ks : List ℕ) (stack : List SztBbvec) (g b : ℕ)
    → Known ks g
    → All (Known ks) (keys stack)
    → All (Known ks) (keys (stack ++ ((g, b ∷ []) ∷ [])))
open_stack ks stack g b k h =
    subst (All (Known ks)) (sym (keys-append stack ((g, b ∷ []) ∷ [])))
      (All-append (Known ks) (keys stack) (g ∷ []) h (k, tt))

begin_group-Opens : (b g : ℕ) (o : Open) → Opens o (begin_group b g o)
unfolding begin_group
begin_group-Opens b g o =
    option_cases (Opens o) (find_group g o.groups) _ _
      (λ _.
        let more = keys-append o.groups ((g, []) ∷ []) in
        let grows : Extends (keys o.groups) (keys (o.groups ++ ((g, []) ∷ []))) =
          subst (Extends (keys o.groups)) (sym more)
            (λ p k h. get_elem?-append (keys o.groups) (g ∷ []) p k h) in
        (
          grows,
          λ h.
              open_stack (keys (o.groups ++ ((g, []) ∷ []))) o.id_stack g b
                (subst (λ ks. Known ks g) (sym more)
                  (length (keys o.groups), get_elem?-length (keys o.groups) g))
                (Extends-All (keys o.groups) _ (keys o.id_stack) grows h),
        ))
      (λ bs found.
        option_cases (Opens o) (find_group g o.id_stack) _ _
          (λ _. (
            λ p k h. h,
            λ h.
                open_stack (keys o.groups) o.id_stack g b
                  (subst (OnFound (Known (keys o.groups) g)) found (found-Known g o.groups)) h,
          ))
          (λ cs _. (
            λ p k h. h,
            λ h.
                subst (All (Known (keys o.groups)))
                  (sym (keys-change_group g (push_back b) o.id_stack)) h,
          )))

Opens-trans : (o p q : Open) → Opens o p → Opens p q → Opens o q
Opens-trans o p q (e, h) (f, k) = (λ n g i. f n g (e n g i), λ s. k (h s))

pub begin_lines-Opens : (b : ℕ) (ls : List Line) (o : Open) → Opens o (begin_lines b ls o)
unfolding begin_lines
begin_lines-Opens b [] o = (λ p k h. h, λ h. h)
begin_lines-Opens b (l ∷ ls) o =
    Opens-trans o (if is_marker pass_begin l then begin_group b (marker_group l) o else o) _
      (if_cases (Opens o) (is_marker pass_begin l) _ _ (λ _. begin_group-Opens b (marker_group l) o)
        (λ _. (λ p k h. h, λ h. h)))
      (begin_lines-Opens b ls _)

-- The call's number is the place of its marker's group, behind the regions that were there.
abbrev pub Numbered : ℕ → List ℕ → EndCall → Type 0
Numbered base ks c =
    (p : ℕ) × (c.region_id ≡ base + p) × (get_elem? ks p ≡ some (marker_group c.marker))

-- What holds while the end markers of a block are searched.
abbrev pub Closes : ℕ → List ℕ → Closing → Type 0
Closes base ks c = All (Known ks) (keys c.id_stack) × All (Numbered base ks) c.calls

close_group-Closes :
    (f : Function) (base : ℕ) (groups : List SztBbvec) (b : ℕ) (l : Line) (c : Closing)
    → Closes base (keys groups) c
    → Closes base (keys groups) (close_group f base groups b l c)
unfolding close_group
close_group-Closes f base groups b l c (h, k) =
    let g = marker_group l in
    option_cases (Closes base (keys groups)) (find_group g c.id_stack) _ _ (λ _. (h, k))
      (λ bs found.
        let known : Known (keys groups) g =
          subst (OnFound (Known (keys groups) g)) found
            (found-All (Known (keys groups)) g c.id_stack h) in
        option_cases (Closes base (keys groups)) (back bs) _ _ (λ _. (h, k))
          (λ top _. (
            subst (All (Known (keys groups))) (sym (keys-change_group g pop_back c.id_stack)) h,
            All-append (Numbered base (keys groups)) c.calls _ k
                ((distance g groups, refl, distance-Known g groups known), tt),
          )))

pub close_lines-Closes :
    (f : Function) (base : ℕ) (groups : List SztBbvec) (b : ℕ) (ls : List Line) (c : Closing)
    → Closes base (keys groups) c
    → Closes base (keys groups) (close_lines f base groups b ls c)
unfolding close_lines
close_lines-Closes f base groups b [] c h = h
close_lines-Closes f base groups b (l ∷ ls) c h = close_lines-Closes f base groups b ls _ (
    if_cases (Closes base (keys groups)) (is_marker pass_end l) _ _
      (λ _. close_group-Closes f base groups b l c h) (λ _. h))
