-- ===== src/Emit/Tagging.antt =====
-- What the recording of a set's blocks leaves alone: the log and the numbers of events.
use zray.Base.{
  ℕ, ◌<◌, ◌≡◌, refl, ◌∙◌, Option, none, some, List, [], ◌∷◌, arith, map, All, Option-cases, inl,
  inr, if_cases, subst,
}
use zray.Profile.{ProfileData}
use zray.Blocks.{record_insts}
use zray.Emit.{
  Options, Callee, no_function, intrinsic, declared, exit_handler, fork, defined, Code, Call,
  at_run_time, bb_tag, Pass, process_function_clone, process_call_inst, process_calls, insert,
  insert_all, tag_blocks, tag_pairs,
}
use zray.Emit.Keys.{SameKeys, Keeps, Known, record_insts-Keeps}
use zray.Emit.Cloning.{Names, Tracks, calls-Tracks}

pub record Quiet (s t : Pass) : Type 0 where
  pub log : t.log ≡ s.log
  pub total : t.region_counter_event_total ≡ s.region_counter_event_total
  pub most : t.region_counter_event_max ≡ s.region_counter_event_max
  pub offset : t.indirect_function_counter_offset ≡ s.indirect_function_counter_offset

pub Quiet-refl : (s : Pass) → Quiet s s
Quiet-refl s = record { log = refl; total = refl; most = refl; offset = refl }

pub Quiet-trans : (s t u : Pass) → Quiet s t → Quiet t u → Quiet s u
Quiet-trans s t u a b = record {
  log = b.log ∙ a.log;
  total = b.total ∙ a.total;
  most = b.most ∙ a.most;
  offset = b.offset ∙ a.offset;
}

clone-Quiet :
    (code : Code) (f region : ℕ) (s : Pass) → Quiet s (process_function_clone code f region s).1
unfolding process_function_clone
clone-Quiet code f region s = ground arith

call-Quiet :
    (o : Options) (code : Code) (region : ℕ) (c : Callee) (s : Pass)
    → Quiet s (process_call_inst o code region c s)
unfolding process_call_inst
call-Quiet o code region no_function s = Quiet-refl s
call-Quiet o code region intrinsic s = Quiet-refl s
call-Quiet o code region declared s = Quiet-refl s
call-Quiet o code region exit_handler s = Quiet-refl s
call-Quiet o code region (fork none) s = Quiet-refl s
call-Quiet o code region (fork (some f)) s =
    if_cases (Quiet s) o.apply_function_cloning _ _ (λ e. clone-Quiet code f region s)
      (λ e. Quiet-refl s)
call-Quiet o code region (defined f) s =
    if_cases (Quiet s) o.apply_function_cloning _ _ (λ e. clone-Quiet code f region s)
      (λ e. Quiet-refl s)

pub calls-Quiet :
    (o : Options) (code : Code) (region : ℕ) (cs : List Callee) (s : Pass)
    → Quiet s (process_calls o code region cs s)
unfolding process_calls
calls-Quiet o code region [] s = Quiet-refl s
calls-Quiet o code region (c ∷ cs) s =
    let t = process_call_inst o code region c s in
    Quiet-trans s t (process_calls o code region cs t) (call-Quiet o code region c s)
      (calls-Quiet o code region cs t)

-- What the pass assumes of the code: recordInst knows each instruction, and each function that is
-- called and has a body is one of the module.
pub record Readable (functions : List ℕ) (code : Code) : Type 0 where
  pub known : (b : ℕ) → All Known (code.insts b)
  pub named : (b : ℕ) → All (Names functions) (code.callees b)

module _ (functions : List ℕ) (roi : ℕ) (kept : List ℕ) (n : ℕ) where
  insert-Tracks :
      (block : Option ℕ) (cs : List Call) (s : Pass)
      → Tracks functions roi kept n s
      → Tracks functions roi kept n (insert_all block cs s)
  insert-Tracks block [] s t = t
  insert-Tracks block (c ∷ cs) s t = insert-Tracks block cs (insert block c s) (record {
    waiting = t.waiting;
    mapped = t.mapped;
    regions = t.regions;
    potential = t.potential;
  })

  insert_all-Quiet :
      (block : Option ℕ) (cs : List Call) (s : Pass) → Quiet s (insert_all block cs s)
  insert_all-Quiet block [] s = Quiet-refl s
  insert_all-Quiet block (c ∷ cs) s =
      let t = insert block c s in
      Quiet-trans s t (insert_all block cs t)
        (record { log = refl; total = refl; most = refl; offset = refl })
        (insert_all-Quiet block cs t)

  -- The blocks are recorded, under the profile's keys and with the numbers of `s`.
  abbrev pub Tagged : ProfileData → Pass → Option (ProfileData × Pass) → Type 0
  Tagged p s none = ⊥
  Tagged p s (some (q, t)) = SameKeys p q × Quiet s t × Tracks functions roi kept n t

  Tagged-after :
      (p q : ProfileData) (s u : Pass) (r : Option (ProfileData × Pass))
      → SameKeys p q
      → Quiet s u
      → Tagged q u r
      → Tagged p s r
  Tagged-after p q s u none k h t = t
  Tagged-after p q s u (some (q', v)) k h (k', h', tr) =
      (ground (arith, k, k'), Quiet-trans s u v h h', tr)

  -- The calls that are inserted for a block, and those that are processed.
  block_step :
      (o : Options) (code : Code) (b sf region : ℕ) (cs : List Call) (s : Pass)
      → Readable functions code
      → region < roi
      → Tracks functions roi kept n s
      → Quiet s (
          insert
            (some b)
            (bb_tag s.global_counter_event_total sf)
            (process_calls o code region (code.callees b) (insert_all (some b) cs s)))
        × Tracks functions roi kept n (
            insert
              (some b)
              (bb_tag s.global_counter_event_total sf)
              (process_calls o code region (code.callees b) (insert_all (some b) cs s)))
  block_step o code b sf region cs s rd lt t =
      let called = insert_all (some b) cs s in
      let processed = process_calls o code region (code.callees b) called in
      let tag = bb_tag s.global_counter_event_total sf ∷ [] in
      (
        Quiet-trans s processed (insert_all (some b) tag processed)
            (Quiet-trans s called processed (insert_all-Quiet (some b) cs s)
              (calls-Quiet o code region (code.callees b) called))
            (insert_all-Quiet (some b) tag processed),
        insert-Tracks (some b) tag processed (
            calls-Tracks functions roi kept n o code region (code.callees b) called (rd.named b) lt
              (insert-Tracks (some b) cs s t)),
      )

  pub tag_blocks-Tagged :
      (o : Options) (code : Code) (bs : List ℕ) (sf : ℕ) (p : ProfileData) (s : Pass)
      → Readable functions code
      → p.pragma_region_id < roi
      → Tracks functions roi kept n s
      → Tagged p s (tag_blocks o code bs sf p s)
  unfolding tag_blocks
  tag_blocks-Tagged o code [] sf p s rd lt t =
      (record { set = refl; region = refl; indirect = refl }, Quiet-refl s, t)
  tag_blocks-Tagged o code (b ∷ bs) sf p s rd lt t =
      let kept_keys = record_insts-Keeps (code.insts b) sf p (rd.known b) in
      elim (Option-cases (record_insts (code.insts b) sf p)) [
        | inl e ↦ absurd (subst (Keeps p) e kept_keys)
        | inr ((q, inserted), e) ↦
            let keys : SameKeys p q = subst (Keeps p) e kept_keys in
            let cs = map (λ c. at_run_time c p.pragma_region_id p.post_dom_set_id) inserted in
            let (quiet, tracks) = block_step o code b sf p.pragma_region_id cs s rd lt t in
            rw (e, tag_blocks)
              (Tagged-after p q s _ _ keys quiet
                (tag_blocks-Tagged o code bs sf q _ rd (omega (arith, lt, keys.region)) tracks))
      ]

  pub tag_pairs-Tagged :
      (o : Options) (code : Code) (pairs : List (List ℕ × ℕ)) (p : ProfileData) (s : Pass)
      → Readable functions code
      → p.pragma_region_id < roi
      → Tracks functions roi kept n s
      → Tagged p s (tag_pairs o code pairs p s)
  unfolding tag_pairs
  tag_pairs-Tagged o code [] p s rd lt t =
      (record { set = refl; region = refl; indirect = refl }, Quiet-refl s, t)
  tag_pairs-Tagged o code ((bs, sf) ∷ pairs) p s rd lt t =
      let first = tag_blocks-Tagged o code bs sf p s rd lt t in
      elim (Option-cases (tag_blocks o code bs sf p s)) [
        | inl e ↦ absurd (subst (Tagged p s) e first)
        | inr ((q, u), e) ↦
            let (keys, quiet, tracks) = subst (Tagged p s) e first in
            rw (e, tag_pairs)
              (Tagged-after p q s u _ keys quiet
                (tag_pairs-Tagged o code pairs q u rd (omega (arith, lt, keys.region)) tracks))
      ]
