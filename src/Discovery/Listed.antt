-- ===== src/Discovery/Listed.antt =====
-- What runOnFunction of src/zray_pass.cc puts into PRList, and which regions the calls close.
use zray.Base.{
  ℕ, zero, suc, ◌+◌, ◌≡◌, refl, sym, ap, ◌∙◌, subst, Bool, true, false, not, ◌||◌, ◌&&◌, ◌⊎◌, inl,
  inr, Option, none, some, List, [], ◌∷◌, ◌++◌, length, length-append, All, All-map, get_elem?,
  if◌then◌else◌, if_cases, arith,
}
use zray.Discovery.{
  Function, SztBbvec, EndCall, NewRegion, Parsed, marker_group, search, whole_function,
  list_regions, run_on_function, is_empty, detect_pragma,
}
use zray.Discovery.Keys.{keys, some-injective, get_elem?-append, get_elem?-length}
use zray.Discovery.Numbers.{Numbered}
use zray.Discovery.Calls.{Told, search-Told}

-- PRList: each region has the number of its place.
abbrev pub InPlace : List NewRegion → Type 0
InPlace prs = (i : ℕ) (r : NewRegion) → get_elem? prs i ≡ some r → r.pragma_region_id ≡ i

abbrev new_region : List NewRegion → ℕ → List ℕ → NewRegion
new_region prs g bs = record { pragma_region_id = length prs; group_id = g; bb_list = bs }

get_elem?-last :
    (prs : List NewRegion) (q : NewRegion) (i : ℕ) (r : NewRegion)
    → get_elem? (prs ++ (q ∷ [])) i ≡ some r
    → (get_elem? prs i ≡ some r) ⊎ ((i ≡ length prs) × (some q ≡ some r))
get_elem?-last [] q zero r h = inr (refl, h)
get_elem?-last [] q (suc i) r h = inl h
get_elem?-last (p ∷ prs) q zero r h = inl h
get_elem?-last (p ∷ prs) q (suc i) r h = elim (get_elem?-last prs q i r h) [
  | inl k ↦ inl k
  | inr (e, k) ↦ inr (ap suc e, k)
]

region_number : Option NewRegion → ℕ
region_number none = 0
region_number (some r) = r.pragma_region_id

push-InPlace :
    (prs : List NewRegion) (g : ℕ) (bs : List ℕ)
    → InPlace prs
    → InPlace (prs ++ (new_region prs g bs ∷ []))
unfolding region_number
push-InPlace prs g bs h i r e = elim (get_elem?-last prs (new_region prs g bs) i r e) [
  | inl k ↦ h i r k
  | inr (p, k) ↦ sym (ap region_number k) ∙ sym p
]

list_regions-InPlace :
    (es : List SztBbvec) (prs : List NewRegion) → InPlace prs → InPlace (list_regions es prs)
unfolding list_regions
list_regions-InPlace [] prs h = h
list_regions-InPlace ((g, bs) ∷ es) prs h = list_regions-InPlace es _ (push-InPlace prs g bs h)

list_regions-kept :
    (es : List SztBbvec) (prs : List NewRegion) (i : ℕ) (r : NewRegion)
    → get_elem? prs i ≡ some r
    → get_elem? (list_regions es prs) i ≡ some r
unfolding list_regions
list_regions-kept [] prs i r h = h
list_regions-kept ((g, bs) ∷ es) prs i r h =
    list_regions-kept es _ i r (get_elem?-append prs (new_region prs g bs ∷ []) i r h)

list_regions-at :
    (es : List SztBbvec) (prs : List NewRegion) (p g : ℕ)
    → get_elem? (keys es) p ≡ some g
    → (r : NewRegion) × (get_elem? (list_regions es prs) (length prs + p) ≡ some r)
      × (r.group_id ≡ g)
unfolding list_regions
list_regions-at [] prs p g h = absurd (cc)
list_regions-at ((k, bs) ∷ es) prs zero g h =
    let r = new_region prs k bs in
    let at_end : length prs ≡ length prs + 0 = omega arith in
    (
      r,
      subst (λ i. get_elem? (list_regions es (prs ++ (r ∷ []))) i ≡ some r) at_end
          (list_regions-kept es _ (length prs) r (get_elem?-length prs r)),
      some-injective k g h,
    )
list_regions-at ((k, bs) ∷ es) prs (suc p) g h =
    let r = new_region prs k bs in
    let (q, found, group) = list_regions-at es (prs ++ (r ∷ [])) p g h in
    let shift : length (prs ++ (r ∷ [])) + p ≡ length prs + suc p =
      omega (arith, length-append prs (r ∷ [])) in
    (q, subst (λ i. get_elem? (list_regions es (prs ++ (r ∷ []))) i ≡ some q) shift found, group)

-- The call closes the region of its marker's group.
abbrev pub ClosesOwn : List NewRegion → EndCall → Type 0
ClosesOwn prs c =
    (r : NewRegion) × (get_elem? prs c.region_id ≡ some r) × (r.group_id ≡ marker_group c.marker)

told-ClosesOwn :
    (es : List SztBbvec) (prs : List NewRegion) (c : EndCall)
    → Numbered (length prs) (keys es) c
    → ClosesOwn (list_regions es prs) c
told-ClosesOwn es prs c (p, number, h) =
    let (r, found, group) = list_regions-at es prs p (marker_group c.marker) h in
    (r, subst (λ i. get_elem? (list_regions es prs) i ≡ some r) (sym number) found, group)

found_calls :
    (inst_all : Bool) (f : Function) (prs : List NewRegion)
    → Told (length prs) (if inst_all then whole_function f else search f (length prs) f.ordered_cfg)
found_calls true f prs = tt
found_calls false f prs = search-Told f (length prs) f.ordered_cfg

-- The regions of PRList keep their places and numbers when runOnFunction parses a function: if each
-- region before had its place as its PragmaRegionID, each region has it behind; a region that was
-- in the list is where it was; and each call that was put in front of an end marker has the number
-- of a region of the list whose GroupID is the group of the marker, whichever regions the function
-- opens, closes and nests, and on whatever paths.
pub run_on_function-InPlace :
    (inst_all : Bool) (f : Function) (prs : List NewRegion)
    → InPlace prs
    → InPlace (run_on_function inst_all f prs).pr_list
      × ((i : ℕ) (r : NewRegion)
          → get_elem? prs i ≡ some r
          → get_elem? (run_on_function inst_all f prs).pr_list i ≡ some r)
      × All
          (ClosesOwn (run_on_function inst_all f prs).pr_list)
          (run_on_function inst_all f prs).calls
unfolding run_on_function
run_on_function-InPlace inst_all f prs h =
    let s = if inst_all then whole_function f else search f (length prs) f.ordered_cfg in
    if_cases
      (λ (t : Parsed).
        InPlace t.pr_list
        × ((i : ℕ) (r : NewRegion) → get_elem? prs i ≡ some r → get_elem? t.pr_list i ≡ some r)
        × All (ClosesOwn t.pr_list) t.calls)
      (is_empty f.ordered_cfg || (not inst_all && not (detect_pragma f f.ordered_cfg))) _ _
      (λ _. (h, λ i r k. k, tt))
      (λ _. (
        list_regions-InPlace s.groups prs h,
        list_regions-kept s.groups prs,
        All-map _ _ s.calls (told-ClosesOwn s.groups prs) (found_calls inst_all f prs),
      ))
