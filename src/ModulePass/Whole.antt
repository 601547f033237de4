-- ===== src/ModulePass/Whole.antt =====
-- runOnModule of src/zray_pass.cc as a whole: it ends, and gives each set of blocks a place of its
-- own in the arrays of counters.
use zray.Base.{
  All-map, ℕ, ◌+◌, ◌*◌, ◌<◌, ◌≡◌, refl, sym, true, Option, none, some, List, [], ◌∷◌, arith, length,
  All, Option-cases, inl, inr, if_cases, subst,
}
use zray.Host.{find}
use zray.Emit.{Options, Pass}
use zray.Emit.Keys.{Slot}
use zray.Emit.Cloning.{unmapped, Tracks}
use zray.Emit.Tagging.{Readable}
use zray.ModulePass.{
  process_regions, instrument_regions, Module, Cloning, Finished, new_pass, instrument_pending,
  with_sizes, run_module,
}
use zray.ModulePass.Events.{slots}
use zray.ModulePass.Apart.{Apart, Direct}
use zray.ModulePass.Regions.{Ensures, IsNumbered, RegionsDone, Phase, regions-Tracks, regions_lem}
use zray.ModulePass.Clones.{ClonesDone, rounds_lem}

unmapped-nil : (fs : List ℕ) → unmapped fs [] ≡ length fs
unfolding unmapped find
unmapped-nil [] = refl
unmapped-nil (f ∷ fs) = omega (arith, unmapped-nil fs)

start-Tracks : (functions : List ℕ) (roi : ℕ) → Tracks functions roi [] (length functions) new_pass
start-Tracks functions roi = record {
  waiting = ([], refl);
  mapped = tt;
  regions = tt;
  potential = omega (arith, unmapped-nil functions);
}

-- The index of a place, in the row of its region, is one of the array of CountArraySize * ROI_Count
-- counters; so it is in the row of each other region, where the set of a clone has a place too.
pub record InArray (f : Finished) (x : Slot) : Type 0 where
  pub row : x.region < f.roi_count
  pub set : x.set_id < f.count_array_size
  pub index :
      (j : ℕ)
      → j < f.roi_count
      → x.set_id + f.count_array_size * j < f.count_array_size * f.roi_count

index_bound : (set size j roi : ℕ) → set < size → j < roi → set + size * j < size * roi
index_bound set size j roi h k = grind arith

sized-InArray :
    (roi : ℕ) (c : Cloning) → ClonesDone roi c → All (InArray (with_sizes roi c)) (slots c.pass.log)
sized-InArray roi c d =
    All-map _ _ (slots c.pass.log)
      (λ x p.
        let set : x.set_id < (with_sizes roi c).count_array_size = ground (arith, p, d.most) in
        record {
          row = p.row;
          set = set;
          index = λ j h. index_bound x.set_id (with_sizes roi c).count_array_size j roi set h;
        })
      d.places

clones_from_regions :
    (roi : ℕ) (s : Pass)
    → RegionsDone roi s
    → ClonesDone roi (record { pass = s; max_indirect = 0 })
clones_from_regions roi s d = record {
  places = All-map _ _ (slots s.log) (λ x e. record { below = e.below; row = e.row }) d.places;
  apart = d.apart;
  most = omega arith;
}

module _ (o : Options) (m : Module) where
  abbrev regions_of : ℕ
  regions_of = length m.pr_list

  abbrev after_regions : Option Pass
  after_regions =
      instrument_regions o m.code m.pr_list (process_regions o m.code 0 m.pr_list new_pass)

  regions_end :
      Readable m.functions m.code
      → IsNumbered 0 m.pr_list
      → Ensures (Phase m.functions regions_of regions_of (length m.functions)) after_regions
  regions_end rd ids =
      let all : 0 + regions_of ≡ regions_of = omega arith in
      let (tracks, quiet) =
        regions-Tracks m.functions regions_of o m.code 0 (length m.functions) m.pr_list new_pass rd
          (omega arith) (start-Tracks m.functions regions_of) in
      let start = process_regions o m.code 0 m.pr_list new_pass in
      let empty : RegionsDone 0 start = record {
        places =
            subst (λ l. All (Direct start.region_counter_event_max 0) (slots l)) (sym quiet.log) tt;
        apart = subst (λ l. Apart (slots l)) (sym quiet.log) tt;
      } in
      subst (λ k. Ensures (Phase m.functions regions_of k (length m.functions)) after_regions) all
        (regions_lem m.functions regions_of o m.code 0 (length m.functions) m.pr_list start rd ids
          (omega arith) (empty, tracks))

  -- What the loop over clones leaves; it is left out without cloning.
  abbrev Cloned : Cloning → Type 0
  Cloned c =
      ClonesDone regions_of c
      × (o.apply_function_cloning ≡ true → c.pass.pending_function_clones ≡ [])

  Ensures-map :
      {A : Type 0} (P Q : A → Type 0) (r : Option A)
      → ((a : A) → P a → Q a)
      → Ensures P r
      → Ensures Q r
  Ensures-map P Q none f h = h
  Ensures-map P Q (some a) f h = f a h

  pending_end :
      (s : Pass)
      → Readable m.functions m.code
      → Phase m.functions regions_of regions_of (length m.functions) s
      → Ensures Cloned (instrument_pending o m s)
  unfolding instrument_pending
  pending_end s rd (d, tr) =
      if_cases (Ensures Cloned) o.apply_function_cloning _ _
        (λ e.
          Ensures-map _ Cloned _ (λ c h. (h.0, λ _. h.1))
            (rounds_lem m.functions regions_of (length m.functions) o m s.pending_function_clones
              (record { pass = s; max_indirect = 0 }) rd refl
              (clones_from_regions regions_of s d, tr)))
        (λ e. (clones_from_regions regions_of s d, λ h. absurd (cc)))

  abbrev Whole : Finished → Type 0
  Whole f =
      All (InArray f) (slots f.pass.log)
      × Apart (slots f.pass.log)
      × (o.apply_function_cloning ≡ true → f.pass.pending_function_clones ≡ [])

  run_module-Whole :
      Readable m.functions m.code → IsNumbered 0 m.pr_list → Ensures Whole (run_module o m)
  unfolding run_module
  run_module-Whole rd ids =
      let regions = regions_end rd ids in
      elim (Option-cases after_regions) [
        | inl e ↦ absurd (
            subst (Ensures (Phase m.functions regions_of regions_of (length m.functions))) e
              regions)
        | inr (s, e) ↦
            let cloned = pending_end s rd (
              subst (Ensures (Phase m.functions regions_of regions_of (length m.functions))) e
                regions) in
            elim (Option-cases (instrument_pending o m s)) [
              | inl f ↦ absurd (subst (Ensures Cloned) f cloned)
              | inr (c, f) ↦
                  let (d, none_left) = subst (Ensures Cloned) f cloned in
                  rw (e, run_module)
                    (rw (f, run_module) (sized-InArray regions_of c d, d.apart, none_left))
            ]
      ]

  -- The pass ends, for a module whose instructions recordInst knows and whose calls name functions
  -- of the module, with the regions numbered by their places: and each record of the log has its
  -- place, in the row of each region that it counts in, within the arrays of CountArraySize *
  -- ROI_Count counters.
  pub run_module-InArray :
      Readable m.functions m.code
      → IsNumbered 0 m.pr_list
      → Ensures (λ f. All (InArray f) (slots f.pass.log)) (run_module o m)
  run_module-InArray rd ids =
      Ensures-map Whole _ (run_module o m) (λ f h. h.0) (run_module-Whole rd ids)

  -- For a module whose instructions recordInst knows and whose calls name functions of the module,
  -- with the regions numbered by their places, the pass ends, and no two records of its log have a
  -- place in common: two sets of one region have different numbers, and a set of a cloned function,
  -- which counts in each region's row, has a number that no other set has.
  pub run_module-Apart :
      Readable m.functions m.code
      → IsNumbered 0 m.pr_list
      → Ensures (λ f. Apart (slots f.pass.log)) (run_module o m)
  run_module-Apart rd ids =
      Ensures-map Whole _ (run_module o m) (λ f h. h.1) (run_module-Whole rd ids)

  -- With function cloning, and for a module whose instructions recordInst knows and whose calls name
  -- functions of the module, with the regions numbered by their places, the loop over clones ends
  -- within as many rounds as the module has functions, and no function is left that waits for its
  -- clone to be instrumented, although the clones add more functions to the list under way.
  pub run_module-ends :
      Readable m.functions m.code
      → IsNumbered 0 m.pr_list
      → o.apply_function_cloning ≡ true
      → Ensures (λ f. f.pass.pending_function_clones ≡ []) (run_module o m)
  run_module-ends rd ids cloning =
      Ensures-map Whole _ (run_module o m) (λ f h. h.2 cloning) (run_module-Whole rd ids)
