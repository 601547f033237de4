-- ===== src/ModulePass/Slots.antt =====
-- The places that the sets of one region take in the arrays of counters, src/zray_pass.cc.
use zray.Base.{
  ℕ, ◌+◌, ◌≤◌, ◌<◌, ◌≡◌, refl, sym, ap, ◌∙◌, Bool, true, false, Option, none, some, List, [], ◌∷◌,
  ◌++◌, arith, length, append-nil, Option-cases, inl, inr, subst,
}
use zray.Hoist.{Counter}
use zray.Region.Whole.{instrument_region-ends}
use zray.Emit.{Options, Code, Call, Pass, insert_events}
use zray.Emit.Cloning.{Tracks, Tracks-same}
use zray.Emit.Tagging.{Quiet, Quiet-refl, Readable}
use zray.ModulePass.{
  PragmaRegion, timing, end_at_returns, insert_timing, open_pragma_region, close_pragma_region,
  instrument_pragma_region,
}
use zray.ModulePass.Events.{slots, run, next, Ran, AllInserted, insert_events-AllInserted}

timing-Quiet : (block : Option ℕ) (call : Call) (s : Pass) → Quiet s (timing block call s)
timing-Quiet block call s = record { log = refl; total = refl; most = refl; offset = refl }

returns-Quiet : (region : ℕ) (bs : List ℕ) (s : Pass) → Quiet s (end_at_returns region bs s)
returns-Quiet region [] s = Quiet-refl s
returns-Quiet region (b ∷ bs) s =
    ground (arith, returns-Quiet region bs (timing (some b) (Call.end_timing region) s))

returns-same :
    (region : ℕ) (bs : List ℕ) (s : Pass)
    → ((end_at_returns region bs s).pending_function_clones ≡ s.pending_function_clones)
      × ((end_at_returns region bs s).clone_function_map ≡ s.clone_function_map)
returns-same region [] s = (refl, refl)
returns-same region (b ∷ bs) s = returns-same region bs (timing (some b) (Call.end_timing region) s)

timing_end-Quiet :
    (o : Options) (pr : PragmaRegion) (indirect : Bool) (s : Pass)
    → Quiet s (insert_timing o pr indirect s)
unfolding insert_timing
timing_end-Quiet o pr true s = ground (arith, returns-Quiet pr.pragma_region_id pr.returning s)
timing_end-Quiet o pr false s = ground arith

timing_end-same :
    (o : Options) (pr : PragmaRegion) (indirect : Bool) (s : Pass)
    → ((insert_timing o pr indirect s).pending_function_clones ≡ s.pending_function_clones)
      × ((insert_timing o pr indirect s).clone_function_map ≡ s.clone_function_map)
unfolding insert_timing
timing_end-same o pr true s = ground (arith, returns-same pr.pragma_region_id pr.returning s)
timing_end-same o pr false s = ground arith

-- The number of a region's first set.
abbrev pub first_set : Bool → Pass → ℕ
first_set true s = s.indirect_function_counter_offset
first_set false s = 0

-- The two counts that bound the sets' numbers, behind `k` sets.
abbrev pub Bounded : Bool → ℕ → Pass → Pass → Type 0
Bounded true k s t =
    (t.region_counter_event_max ≡ s.region_counter_event_max)
    × (t.indirect_function_counter_offset ≡ s.indirect_function_counter_offset + k)
Bounded false k s t =
    (s.region_counter_event_max ≤ t.region_counter_event_max) × (k ≤ t.region_counter_event_max)

-- The sets of a region are numbered on.
pub record Numbered (indirect : Bool) (region : ℕ) (s t : Pass) : Type 0 where
  pub sets : ℕ
  pub log : slots t.log ≡ slots s.log ++ run indirect region (first_set indirect s) sets
  pub bounded : Bounded indirect sets s t

close-Bounded :
    (o : Options) (pr : PragmaRegion) (indirect : Bool) (k : ℕ) (s t : Pass)
    → next indirect t ≡ first_set indirect s + k
    → t.region_counter_event_max ≡ s.region_counter_event_max
    → Bounded indirect k s (close_pragma_region o pr indirect t)
unfolding close_pragma_region
close-Bounded o pr true k s t e f = ground (arith, timing_end-Quiet o pr true t)
close-Bounded o pr false k s t e f = ground (arith, timing_end-Quiet o pr false t)

close-log :
    (o : Options) (pr : PragmaRegion) (indirect : Bool) (t : Pass)
    → (close_pragma_region o pr indirect t).log ≡ t.log
unfolding close_pragma_region
close-log o pr indirect t = ground (arith, timing_end-Quiet o pr indirect t)

open_next :
    (o : Options) (pr : PragmaRegion) (indirect : Bool) (s : Pass)
    → next indirect (open_pragma_region o pr indirect s) ≡ first_set indirect s
unfolding open_pragma_region
open_next o pr true s = ground arith
open_next o pr false s = refl

open-log :
    (o : Options) (pr : PragmaRegion) (indirect : Bool) (s : Pass)
    → (open_pragma_region o pr indirect s).log ≡ s.log
unfolding open_pragma_region
open-log o pr indirect s = ground arith

open_max :
    (o : Options) (pr : PragmaRegion) (indirect : Bool) (s : Pass)
    → (open_pragma_region o pr indirect s).region_counter_event_max ≡ s.region_counter_event_max
unfolding open_pragma_region
open_max o pr indirect s = ground arith

module _ (functions : List ℕ) (roi : ℕ) (kept : List ℕ) (n : ℕ) where
  close-Tracks :
      (o : Options) (pr : PragmaRegion) (indirect : Bool) (t : Pass)
      → Tracks functions roi kept n t
      → Tracks functions roi kept n (close_pragma_region o pr indirect t)
  unfolding close_pragma_region
  close-Tracks o pr indirect t h =
      let same = timing_end-same o pr indirect t in
      Tracks-same functions roi kept n t _ (ground (arith, same)) (ground (arith, same)) h

  open-Tracks :
      (o : Options) (pr : PragmaRegion) (indirect : Bool) (s : Pass)
      → Tracks functions roi kept n s
      → Tracks functions roi kept n (open_pragma_region o pr indirect s)
  unfolding open_pragma_region
  open-Tracks o pr indirect s h =
      Tracks-same functions roi kept n s _ (ground arith) (ground arith) h

  -- A region is instrumented.
  abbrev pub Instrumented : Bool → ℕ → Pass → Option Pass → Type 0
  Instrumented indirect region s none = ⊥
  Instrumented indirect region s (some t) =
      Numbered indirect region s t × Tracks functions roi kept n t

  placed-Instrumented :
      (o : Options) (code : Code) (pr : PragmaRegion) (indirect : Bool) (s : Pass)
      (cs : List Counter) (u : Pass)
      → Ran indirect pr.pragma_region_id (length cs) (open_pragma_region o pr indirect s) u
        × Tracks functions roi kept n u
      → Instrumented indirect pr.pragma_region_id s (some (close_pragma_region o pr indirect u))
  placed-Instrumented o code pr indirect s cs u (ran, tracks) = (
    record {
      sets = length cs;
      log =
          ap slots (close-log o pr indirect u)
          ∙ ran.log
          ∙ ap
              (λ l.
                slots l
                ++ run indirect pr.pragma_region_id
                    (next indirect (open_pragma_region o pr indirect s)) (length cs))
              (open-log o pr indirect s)
          ∙ ap (λ m. slots s.log ++ run indirect pr.pragma_region_id m (length cs))
              (open_next o pr indirect s);
      bounded =
          close-Bounded o pr indirect (length cs) s u
            (ran.count ∙ ap (λ m. m + length cs) (open_next o pr indirect s))
            (ran.most ∙ open_max o pr indirect s);
    },
    close-Tracks o pr indirect u tracks,
  )

  nothing-Instrumented :
      (indirect : Bool) (region : ℕ) (s : Pass)
      → Tracks functions roi kept n s
      → Instrumented indirect region s (some s)
  unfolding run
  nothing-Instrumented true region s h =
      (record { sets = 0; log = sym (append-nil (slots s.log)); bounded = (refl, omega arith) }, h)
  nothing-Instrumented false region s h =
      (record { sets = 0; log = sym (append-nil (slots s.log)); bounded = omega arith }, h)

  -- The region's blocks decide only whether anything is done.
  blocks_or_none :
      (P : Option Pass → Type 0) (s : Pass) (bbs : List ℕ) (place : Option Pass)
      → P place
      → P (some s)
      → P (elim bbs [ [] ↦ some s | b ∷ bs ↦ place ])
  blocks_or_none P s [] place h k = k
  blocks_or_none P s (b ∷ bs) place h k = h

  -- Each region is instrumented, and its sets are numbered on.
  pub region-Instrumented :
      (o : Options) (code : Code) (pr : PragmaRegion) (indirect : Bool) (s : Pass)
      → Readable functions code
      → pr.pragma_region_id < roi
      → Tracks functions roi kept n s
      → Instrumented indirect pr.pragma_region_id s (instrument_pragma_region o code pr indirect s)
  unfolding instrument_pragma_region
  region-Instrumented o code pr indirect s rd lt t =
      let (cs, e) = instrument_region-ends pr.env pr.loop_tree pr.bb_list in
      let opened = open_pragma_region o pr indirect s in
      let inserted =
        insert_events-AllInserted functions roi kept n o code pr.name pr.pragma_region_id
          pr.group_id indirect cs opened rd lt (open-Tracks o pr indirect s t) in
      elim (Option-cases
        (insert_events o code pr.name pr.pragma_region_id pr.group_id indirect cs opened)) [
          | inl f ↦ absurd (
              subst
                (AllInserted functions roi kept n indirect pr.pragma_region_id (length cs) opened) f
                inserted)
          | inr (u, f) ↦
              let placed = placed-Instrumented o code pr indirect s cs u (
                subst
                  (AllInserted functions roi kept n indirect pr.pragma_region_id (length cs) opened)
                  f inserted) in
              blocks_or_none (Instrumented indirect pr.pragma_region_id s) s pr.bb_list _
                (rw e (rw f placed)) (nothing-Instrumented indirect pr.pragma_region_id s t)
        ]
