-- ===== src/ModulePass/Regions.antt =====
-- The regions in runOnModule of src/zray_pass.cc: their calls are processed, and they are
-- instrumented one after the other.
use zray.Base.{
  All-append, All-map, ℕ, suc, ◌+◌, ◌≤◌, ◌<◌, ◌≡◌, sym, false, Option, none, some, List, [], ◌∷◌,
  arith, length, All, Option-cases, inl, inr, subst,
}
use zray.Emit.{Options, Code, Pass, process_calls}
use zray.Emit.Cloning.{Tracks, calls-Tracks}
use zray.Emit.Tagging.{Quiet, Quiet-refl, Quiet-trans, Readable, calls-Quiet}
use zray.ModulePass.{
  PragmaRegion, instrument_pragma_region, process_blocks, process_regions, instrument_regions,
}
use zray.ModulePass.Events.{slots, run}
use zray.ModulePass.Slots.{Numbered, Instrumented, region-Instrumented}
use zray.ModulePass.Apart.{Apart, run-InRun, Direct, Apart-region}

-- The step comes back, and its result is as `P` says.
abbrev pub Ensures : {A : Type 0} → (A → Type 0) → Option A → Type 0
Ensures P none = ⊥
Ensures P (some a) = P a

-- The numbers of the regions are their places in the list.
abbrev pub IsNumbered : ℕ → List PragmaRegion → Type 0
IsNumbered k [] = Unit
IsNumbered k (pr ∷ prs) = (pr.pragma_region_id ≡ k) × IsNumbered (k + 1) prs

-- The log of `k` regions that have been instrumented.
pub record RegionsDone (k : ℕ) (s : Pass) : Type 0 where
  pub places : All (Direct s.region_counter_event_max k) (slots s.log)
  pub apart : Apart (slots s.log)

region_done : (k : ℕ) (s t : Pass) → RegionsDone k s → Numbered false k s t → RegionsDone (suc k) t
region_done k s t d h = record {
  places = subst (All (Direct t.region_counter_event_max (suc k))) (sym h.log) (
      All-append _ (slots s.log) (run false k 0 h.sets)
        (All-map _ _ (slots s.log) (λ x e. ground (arith, e, h.bounded)) d.places)
        (All-map _ _ (run false k 0 h.sets) (λ x e. ground (arith, e, h.bounded))
          (run-InRun false k 0 h.sets h.sets (omega arith))));
  apart =
      subst Apart (sym h.log)
        (Apart-region (slots s.log) s.region_counter_event_max k h.sets d.places d.apart);
}

module _ (functions : List ℕ) (roi : ℕ) where
  blocks-Tracks :
      (o : Options) (code : Code) (region n : ℕ) (bs : List ℕ) (s : Pass)
      → Readable functions code
      → region < roi
      → Tracks functions roi [] n s
      → Tracks functions roi [] n (process_blocks o code region bs s)
        × Quiet s (process_blocks o code region bs s)
  unfolding process_blocks
  blocks-Tracks o code region n [] s rd lt t = (t, Quiet-refl s)
  blocks-Tracks o code region n (b ∷ bs) s rd lt t =
      let u = process_calls o code region (code.callees b) s in
      let (tracks, quiet) =
        blocks-Tracks o code region n bs u rd lt
          (calls-Tracks functions roi [] n o code region (code.callees b) s (rd.named b) lt t) in
      (tracks, Quiet-trans s u _ (calls-Quiet o code region (code.callees b) s) quiet)

  pub regions-Tracks :
      (o : Options) (code : Code) (i n : ℕ) (prs : List PragmaRegion) (s : Pass)
      → Readable functions code
      → i + length prs ≤ roi
      → Tracks functions roi [] n s
      → Tracks functions roi [] n (process_regions o code i prs s)
        × Quiet s (process_regions o code i prs s)
  unfolding process_regions
  regions-Tracks o code i n [] s rd lt t = (t, Quiet-refl s)
  regions-Tracks o code i n (pr ∷ prs) s rd lt t =
      let u = process_blocks o code i pr.bb_list s in
      let (tracks, quiet) = blocks-Tracks o code i n pr.bb_list s rd (omega (arith, lt)) t in
      let (tracks', quiet') = regions-Tracks o code (i + 1) n prs u rd (omega (arith, lt)) tracks in
      (tracks', Quiet-trans s u _ quiet quiet')

  abbrev pub Phase : ℕ → ℕ → Pass → Type 0
  Phase k n s = RegionsDone k s × Tracks functions roi [] n s

  pub regions_lem :
      (o : Options) (code : Code) (k n : ℕ) (prs : List PragmaRegion) (s : Pass)
      → Readable functions code
      → IsNumbered k prs
      → k + length prs ≤ roi
      → Phase k n s
      → Ensures (Phase (k + length prs) n) (instrument_regions o code prs s)
  unfolding instrument_regions
  regions_lem o code k n [] s rd ids lt d =
      let here : k ≡ k + 0 = omega arith in subst (λ j. Phase j n s) here d
  regions_lem o code k n (pr ∷ prs) s rd (id, ids) lt (d, t) =
      let next_id : k + 1 ≡ suc k = omega arith in
      let count : suc k + length prs ≡ k + suc (length prs) = omega arith in
      let done =
        region-Instrumented functions roi [] n o code pr false s rd (omega (arith, id, lt)) t in
      elim (Option-cases (instrument_pragma_region o code pr false s)) [
        | inl e ↦
            absurd (subst (Instrumented functions roi [] n false pr.pragma_region_id s) e done)
        | inr (u, e) ↦
            let (numbered, tracks) =
              subst (Instrumented functions roi [] n false pr.pragma_region_id s) e done in
            let numbered_k = subst (λ j. Numbered false j s u) id numbered in
            let rest =
              regions_lem o code (suc k) n prs u rd (subst (λ j. IsNumbered j prs) next_id ids)
                (omega (arith, lt)) (region_done k s u d numbered_k, tracks) in
            rw (e, instrument_regions)
              (subst (λ j. Ensures (Phase j n) (instrument_regions o code prs u)) count rest)
      ]
