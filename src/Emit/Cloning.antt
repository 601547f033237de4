-- ===== src/Emit/Cloning.antt =====
-- The map of clones and the list of pending ones under processCallInst of src/zray_pass.cc.
use zray.Base.{
  All-append, All-map, ℕ, ◌+◌, ◌≤◌, ◌<◌, ◌≡◌, refl, sym, ap, ◌∙◌, Bool, true, false, ◌||◌, none,
  some, List, [], ◌∷◌, ◌++◌, arith, if◌then◌else◌, All, length, length-append, append_assoc, ◌==◌,
  Option-cases, inl, inr, if_cases, subst,
}
use zray.Hoist.{contains}
use zray.Host.{find}
use zray.Emit.{
  Options, Callee, no_function, intrinsic, declared, exit_handler, fork, defined, Code, Pass,
  process_function_clone, process_call_inst, process_calls,
}

abbrev pub Clones : Type 0
Clones = List (ℕ × (ℕ × ℕ))

abbrev pub is_mapped : ℕ → Clones → Bool
is_mapped f m = elim (find f m) [ none ↦ false | some e ↦ true ]

mapped-append :
    (k f : ℕ) (e : ℕ × ℕ) (m : Clones) → is_mapped k (m ++ (f, e) ∷ []) ≡ (is_mapped k m || f == k)
unfolding find
mapped-append k f e [] = ground arith
mapped-append k f e ((j, x) ∷ m) = ground (arith, mapped-append k f e m)

-- The functions of the module that have no clone yet.
unfoldable pub unmapped : List ℕ → Clones → ℕ
unmapped [] m = 0
unmapped (f ∷ fs) m = (if is_mapped f m then 0 else 1) + unmapped fs m

unmapped-append :
    (fs : List ℕ) (f : ℕ) (e : ℕ × ℕ) (m : Clones) → unmapped fs (m ++ (f, e) ∷ []) ≤ unmapped fs m
unfolding unmapped
unmapped-append [] f e m = omega arith
unmapped-append (g ∷ fs) f e m = ground (arith, mapped-append g f e m, unmapped-append fs f e m)

unmapped-lt :
    (fs : List ℕ) (f : ℕ) (e : ℕ × ℕ) (m : Clones)
    → contains f fs ≡ true
    → is_mapped f m ≡ false
    → unmapped fs (m ++ (f, e) ∷ []) < unmapped fs m
unfolding unmapped
unmapped-lt [] f e m h k = absurd (cc)
unmapped-lt (g ∷ fs) f e m h k =
    ground (arith, mapped-append g f e m, unmapped-append fs f e m, unmapped-lt fs f e m)

-- What holds while functions are cloned: `kept` heads the pending list, each pending function is
-- in the map, the map's regions are among the `roi` first, and the functions that are pending or
-- not cloned are `n` at most.
pub record Tracks (functions : List ℕ) (roi : ℕ) (kept : List ℕ) (n : ℕ) (s : Pass) : Type 0 where
  pub waiting : (new : List ℕ) × (s.pending_function_clones ≡ kept ++ new)
  pub mapped : All (λ k. is_mapped k s.clone_function_map ≡ true) s.pending_function_clones
  pub regions : All (λ e. e.1.1 < roi) s.clone_function_map
  pub potential : length s.pending_function_clones + unmapped functions s.clone_function_map ≤ n

-- A call names a function of the module.
abbrev pub Names : List ℕ → Callee → Type 0
Names functions (fork (some f)) = contains f functions ≡ true
Names functions (defined f) = contains f functions ≡ true
Names functions c = Unit

module _ (functions : List ℕ) (roi : ℕ) (kept : List ℕ) (n : ℕ) where
  -- It is about two members only.
  pub Tracks-same :
      (s t : Pass)
      → t.pending_function_clones ≡ s.pending_function_clones
      → t.clone_function_map ≡ s.clone_function_map
      → Tracks functions roi kept n s
      → Tracks functions roi kept n t
  Tracks-same s t e f h = record {
    waiting = (h.waiting.0, e ∙ h.waiting.1);
    mapped =
        subst (λ m. All (λ k. is_mapped k m ≡ true) t.pending_function_clones) (sym f)
          (subst (All (λ k. is_mapped k s.clone_function_map ≡ true)) (sym e) h.mapped);
    regions = subst (All (λ e. e.1.1 < roi)) (sym f) h.regions;
    potential = omega (arith, h.potential, ap (λ l. length l) e, ap (λ m. unmapped functions m) f);
  }

  push-Tracks :
      (code : Code) (f region : ℕ) (s : Pass)
      → contains f functions ≡ true
      → region < roi
      → is_mapped f s.clone_function_map ≡ false
      → Tracks functions roi kept n s
      → Tracks functions roi kept n (record s {
        clone_function_map = s.clone_function_map ++ (f, (code.clone_name f, region)) ∷ [];
        cloned_function_names = s.cloned_function_names ++ code.clone_name f ∷ [];
        pending_function_clones = s.pending_function_clones ++ f ∷ [];
      })
  push-Tracks code f region s h r e t =
      let entry : ℕ × ℕ = (code.clone_name f, region) in
      record {
        waiting = (
          t.waiting.0 ++ f ∷ [],
          ap (λ l. l ++ f ∷ []) t.waiting.1 ∙ append_assoc kept t.waiting.0 (f ∷ []),
        );
        mapped =
            All-append _ s.pending_function_clones (f ∷ [])
              (All-map _ _ s.pending_function_clones
                (λ k p. ground (arith, mapped-append k f entry s.clone_function_map, p)) t.mapped)
              (ground (arith, mapped-append f f entry s.clone_function_map), tt);
        regions = All-append _ s.clone_function_map ((f, entry) ∷ []) t.regions (r, tt);
        potential = omega (
          arith,
          t.potential,
          length-append s.pending_function_clones (f ∷ []),
          unmapped-lt functions f entry s.clone_function_map h e,
        );
      }

  pub clone-Tracks :
      (code : Code) (f region : ℕ) (s : Pass)
      → contains f functions ≡ true
      → region < roi
      → Tracks functions roi kept n s
      → Tracks functions roi kept n (process_function_clone code f region s).1
  unfolding process_function_clone
  clone-Tracks code f region s h r t = elim (Option-cases (find f s.clone_function_map)) [
    | inr (e, found) ↦ rw (found, process_function_clone) t
    | inl absent ↦
        rw (absent, process_function_clone)
          (if_cases {A = ℕ × Pass} (λ r. Tracks functions roi kept n r.1)
            (contains f s.cloned_function_names) _ _ (λ e. t)
            (λ e. push-Tracks code f region s h r (rw (absent, is_mapped) refl) t))
  ]

  call-Tracks :
      (o : Options) (code : Code) (region : ℕ) (c : Callee) (s : Pass)
      → Names functions c
      → region < roi
      → Tracks functions roi kept n s
      → Tracks functions roi kept n (process_call_inst o code region c s)
  unfolding process_call_inst
  call-Tracks o code region no_function s h r t = t
  call-Tracks o code region intrinsic s h r t = t
  call-Tracks o code region declared s h r t = t
  call-Tracks o code region exit_handler s h r t = t
  call-Tracks o code region (fork none) s h r t = t
  call-Tracks o code region (fork (some f)) s h r t =
      if_cases (Tracks functions roi kept n) o.apply_function_cloning _ _
        (λ e. clone-Tracks code f region s h r t) (λ e. t)
  call-Tracks o code region (defined f) s h r t =
      if_cases (Tracks functions roi kept n) o.apply_function_cloning _ _
        (λ e. clone-Tracks code f region s h r t) (λ e. t)

  pub calls-Tracks :
      (o : Options) (code : Code) (region : ℕ) (cs : List Callee) (s : Pass)
      → All (Names functions) cs
      → region < roi
      → Tracks functions roi kept n s
      → Tracks functions roi kept n (process_calls o code region cs s)
  unfolding process_calls
  calls-Tracks o code region [] s h r t = t
  calls-Tracks o code region (c ∷ cs) s (h, hs) r t =
      calls-Tracks o code region cs (process_call_inst o code region c s) hs r
        (call-Tracks o code region c s h r t)
