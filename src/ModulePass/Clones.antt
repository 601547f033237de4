-- ===== src/ModulePass/Clones.antt =====
-- runOnModule of src/zray_pass.cc as a whole: it ends, and gives each set of blocks a place of its
-- own in the arrays of counters.
use zray.Base.{
  All-append, All-map, ℕ, zero, suc, ◌+◌, ◌-◌, ◌≤◌, ◌<◌, ◌≡◌, refl, sym, ap, ◌∙◌, true, false, some,
  List, [], ◌∷◌, ◌++◌, arith, ◌==◌, length, append-nil, All, Option-cases, Bool-cases, inl, inr,
  subst, ==_refl,
}
use zray.Hoist.{remove}
use zray.Host.{find}
use zray.Emit.{Options, Pass}
use zray.Emit.Cloning.{Clones, is_mapped, unmapped, Tracks, Tracks-same}
use zray.Emit.Tagging.{Readable}
use zray.ModulePass.{
  instrument_pragma_region, Module, Cloning, finish_clone, instrument_clone, instrument_clones,
  clone_rounds,
}
use zray.ModulePass.Events.{slots, run}
use zray.ModulePass.Slots.{Numbered, Instrumented, region-Instrumented}
use zray.ModulePass.Regions.{Ensures}
use zray.ModulePass.Apart.{Apart, run-InRun, Placed, Apart-clone}

-- The log of all `k` regions and of some clones.
pub record ClonesDone (k : ℕ) (c : Cloning) : Type 0 where
  pub places : All (Placed c.pass.region_counter_event_max k) (slots c.pass.log)
  pub apart : Apart (slots c.pass.log)
  pub most : c.max_indirect ≤ c.pass.region_counter_event_max

same_value :
    (j k : ℕ) (x : ℕ × ℕ) (m : Clones) (e : ℕ × ℕ)
    → (j == k) ≡ true
    → find k ((j, x) ∷ m) ≡ some e
    → x ≡ e
unfolding find
same_value j k x m e b h = ground (arith, b, h)

other_entry :
    (j k : ℕ) (x : ℕ × ℕ) (m : Clones) (e : ℕ × ℕ)
    → (j == k) ≡ false
    → find k ((j, x) ∷ m) ≡ some e
    → find k m ≡ some e
unfolding find
other_entry j k x m e b h = ground (arith, b, h)

find-All :
    (P : ℕ × (ℕ × ℕ) → Type 0) (k : ℕ) (m : Clones) (e : ℕ × ℕ)
    → find k m ≡ some e
    → All P m
    → (j : ℕ) × P (j, e)
unfolding find
find-All P k [] e h a = absurd (cc)
find-All P k ((j, x) ∷ m) e h (p, ps) = elim (Bool-cases (j == k)) [
  | inl same ↦ (j, subst (λ v. P (j, v)) (same_value j k x m e same h) p)
  | inr other ↦ find-All P k m e (other_entry j k x m e other h) ps
]

finish_members :
    (key : ℕ) (c : Cloning)
    → ((finish_clone key c).pass.log ≡ c.pass.log)
      × ((finish_clone key c).pass.clone_function_map ≡ c.pass.clone_function_map)
      × ((finish_clone key c).pass.pending_function_clones
          ≡ remove key c.pass.pending_function_clones)
unfolding finish_clone
finish_members key c = ground arith

-- Neither maximum falls, and the clone's sets are below the first.
finish_bounds :
    (key k : ℕ) (c : Cloning) (t : Pass)
    → c.max_indirect ≤ c.pass.region_counter_event_max
    → t.region_counter_event_max ≡ c.pass.region_counter_event_max
    → t.indirect_function_counter_offset ≡ c.pass.region_counter_event_max + k
    → (c.pass.region_counter_event_max + k
        ≤ (finish_clone key (record c { pass = t })).pass.region_counter_event_max)
      × ((finish_clone key (record c { pass = t })).max_indirect
          ≤ (finish_clone key (record c { pass = t })).pass.region_counter_event_max)
unfolding finish_clone
finish_bounds key k c t h e f = ground (arith, h, e, f)

remove_head : (key : ℕ) (keys : List ℕ) → remove key (key ∷ keys) ≡ keys
unfolding remove
remove_head key keys = ground (arith, ==_refl key)

module _ (functions : List ℕ) (roi : ℕ) where
  retrack :
      (kept : List ℕ) (n : ℕ) (s : Pass)
      → Tracks functions roi kept n s
      → Tracks functions roi s.pending_function_clones n s
  retrack kept n s h = record {
    waiting = ([], sym (append-nil s.pending_function_clones));
    mapped = h.mapped;
    regions = h.regions;
    potential = h.potential;
  }

  abbrev pub Round : List ℕ → ℕ → Cloning → Type 0
  Round kept n c = ClonesDone roi c × Tracks functions roi kept n c.pass

  -- A clone's sets lie behind all others, and the key leaves the list of pending ones.
  clone_done :
      (key region n : ℕ) (keys : List ℕ) (c : Cloning) (t : Pass)
      → region < roi
      → ClonesDone roi c
      → Numbered true region
          (record c.pass { indirect_function_counter_offset = c.pass.region_counter_event_max })
          t
      → Tracks functions roi (key ∷ keys) (suc n) t
      → Round keys n (finish_clone key (record c { pass = t }))
  clone_done key region n keys c t lt d h tr =
      let result = finish_clone key (record c { pass = t }) in
      let members = finish_members key (record c { pass = t }) in
      let bounds = finish_bounds key h.sets c t d.most h.bounded.0 h.bounded.1 in
      let most = c.pass.region_counter_event_max in
      let left : remove key t.pending_function_clones ≡ keys ++ tr.waiting.0 =
        ap (remove key) tr.waiting.1 ∙ remove_head key (keys ++ tr.waiting.0) in
      let before : t.pending_function_clones ≡ key ∷ (keys ++ tr.waiting.0) = tr.waiting.1 in
      (
        record {
          places =
              subst (λ l. All (Placed result.pass.region_counter_event_max roi) (slots l))
                (sym members.0)
                (subst (All (Placed result.pass.region_counter_event_max roi)) (sym h.log) (
                  All-append _ (slots c.pass.log) (run true region most h.sets)
                    (All-map _ _ (slots c.pass.log) (λ x e. ground (arith, e, bounds)) d.places)
                    (All-map _ _ (run true region most h.sets)
                      (λ x e. ground (arith, e, bounds, lt))
                      (run-InRun true region most (most + h.sets) h.sets (omega arith)))));
          apart =
              subst (λ l. Apart (slots l)) (sym members.0)
                (subst Apart (sym h.log)
                  (Apart-clone (slots c.pass.log) most roi region h.sets d.places d.apart));
          most = bounds.1;
        },
        record {
          waiting = (tr.waiting.0, members.2 ∙ left);
          mapped =
              subst (λ m. All (λ k. is_mapped k m ≡ true) result.pass.pending_function_clones)
                (sym members.1)
                (subst (All (λ k. is_mapped k t.clone_function_map ≡ true)) (sym (members.2 ∙ left))
                  (subst (All (λ k. is_mapped k t.clone_function_map ≡ true)) before tr.mapped).1);
          regions = subst (All (λ e. e.1.1 < roi)) (sym members.1) tr.regions;
          potential = omega (
            arith,
            tr.potential,
            ap (λ l. length l) before,
            ap (λ l. length l) (members.2 ∙ left),
            ap (λ m. unmapped functions m) members.1,
          );
        },
      )

  clone_lem :
      (o : Options) (m : Module) (key n : ℕ) (keys : List ℕ) (c : Cloning)
      → Readable functions m.code
      → Round (key ∷ keys) (suc n) c
      → Ensures (Round keys n) (instrument_clone o m key c)
  unfolding instrument_clone
  clone_lem o m key n keys c rd (d, tr) =
      let s = record c.pass {
        indirect_function_counter_offset = c.pass.region_counter_event_max;
      } in
      let before : c.pass.pending_function_clones ≡ key ∷ (keys ++ tr.waiting.0) = tr.waiting.1 in
      let mapped =
        (subst (All (λ k. is_mapped k c.pass.clone_function_map ≡ true)) before tr.mapped).0 in
      let tracks = Tracks-same functions roi (key ∷ keys) (suc n) c.pass s refl refl tr in
      elim (Option-cases (find key c.pass.clone_function_map)) [
        | inl absent ↦ absurd (ground (arith, mapped, absent))
        | inr ((clone, region), found) ↦
            let (j, lt) =
              find-All (λ e. e.1.1 < roi) key c.pass.clone_function_map (clone, region) found
                tr.regions in
            let pr = record (m.clone_body key) { pragma_region_id = region; group_id = 0 } in
            let done =
              region-Instrumented functions roi (key ∷ keys) (suc n) o m.code pr true s rd lt
                tracks in
            elim (Option-cases (instrument_pragma_region o m.code pr true s)) [
              | inl e ↦
                  absurd
                    (subst (Instrumented functions roi (key ∷ keys) (suc n) true region s) e done)
              | inr (t, e) ↦
                  let (numbered, tr') =
                    subst (Instrumented functions roi (key ∷ keys) (suc n) true region s) e done in
                  rw (found, instrument_clone)
                    (rw (e, instrument_clone) (clone_done key region n keys c t lt d numbered tr'))
            ]
      ]

  clones_lem :
      (o : Options) (m : Module) (keys : List ℕ) (n : ℕ) (c : Cloning)
      → Readable functions m.code
      → Round keys (length keys + n) c
      → Ensures (Round [] n) (instrument_clones o m keys c)
  unfolding instrument_clones
  clones_lem o m [] n c rd r =
      let none_left : 0 + n ≡ n = omega arith in subst (λ k. Round [] k c) none_left r
  clones_lem o m (key ∷ keys) n c rd r =
      let count : length (key ∷ keys) + n ≡ suc (length keys + n) = omega arith in
      let first =
        clone_lem o m key (length keys + n) keys c rd
          (subst (λ k. Round (key ∷ keys) k c) count r) in
      elim (Option-cases (instrument_clone o m key c)) [
        | inl e ↦ absurd (subst (Ensures (Round keys (length keys + n))) e first)
        | inr (d, e) ↦
            rw (e, instrument_clones)
              (clones_lem o m keys n d rd (subst (Ensures (Round keys (length keys + n))) e first))
      ]

  -- Nothing is pending at the end.
  abbrev pub AllCloned : Cloning → Type 0
  AllCloned c = ClonesDone roi c × (c.pass.pending_function_clones ≡ [])

  weaken :
      (kept : List ℕ) (n k : ℕ) (s : Pass)
      → n ≤ k
      → Tracks functions roi kept n s
      → Tracks functions roi kept k s
  weaken kept n k s le h = record {
    waiting = h.waiting;
    mapped = h.mapped;
    regions = h.regions;
    potential = omega (arith, h.potential, le);
  }

  -- Each round takes a function from those that are pending or not cloned.
  pub rounds_lem :
      (fuel : ℕ) (o : Options) (m : Module) (pending : List ℕ) (c : Cloning)
      → Readable functions m.code
      → c.pass.pending_function_clones ≡ pending
      → Round [] fuel c
      → Ensures AllCloned (clone_rounds fuel o m pending c)
  unfolding clone_rounds
  rounds_lem zero o m [] c rd e (d, tr) = (d, e)
  rounds_lem (suc fuel) o m [] c rd e (d, tr) = (d, e)
  rounds_lem zero o m (key ∷ keys) c rd e (d, tr) =
      absurd (omega (arith, tr.potential, ap (λ l. length l) e))
  rounds_lem (suc fuel) o m (key ∷ keys) c rd e (d, tr) =
      let n = suc fuel - length (key ∷ keys) in
      let room : suc fuel ≡ length (key ∷ keys) + n =
        omega (arith, tr.potential, ap (λ l. length l) e) in
      let tracks =
        subst (λ k. Tracks functions roi (key ∷ keys) k c.pass) room
          (subst (λ l. Tracks functions roi l (suc fuel) c.pass) e
            (retrack [] (suc fuel) c.pass tr)) in
      let done = clones_lem o m (key ∷ keys) n c rd (d, tracks) in
      elim (Option-cases (instrument_clones o m (key ∷ keys) c)) [
        | inl f ↦ absurd (subst (Ensures (Round [] n)) f done)
        | inr (c', f) ↦
            let (d', tr') = subst (Ensures (Round [] n)) f done in
            rw (f, clone_rounds)
              (rounds_lem fuel o m c'.pass.pending_function_clones c' rd refl
                (d', weaken [] n fuel c'.pass (omega arith) tr'))
      ]
