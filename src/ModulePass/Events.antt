-- ===== src/ModulePass/Events.antt =====
-- The records that the counters of one region leave in the log, src/zray_pass.cc: one for each
-- counter, numbered from where the count of events stood.
use zray.Base.{
  ℕ, zero, suc, ◌+◌, ◌<◌, ◌≡◌, refl, sym, ap, ◌∙◌, Bool, true, false, Option, none, some, List, [],
  ◌∷◌, ◌++◌, arith, if◌then◌else◌, length, append_assoc, append-nil, Option-cases, inl, inr, subst,
}
use zray.Profile.{ProfileData}
use zray.Hoist.{Counter, shared, hoisted, dynamic}
use zray.Report.{Named}
use zray.Emit.{
  Options, Code, Pass, insert_counter_array_inc, insert_custom_event, insert_dynamic_loop_event,
  event_profile, tag_blocks, tag_pairs, insert_event, insert_events, first_of, sizes, insert,
  increment_sf,
}
use zray.Emit.Keys.{Slot, slot_of, SameKeys}
use zray.Emit.Cloning.{Tracks, Tracks-same}
use zray.Emit.Tagging.{Quiet, Quiet-trans, Readable, Tagged, tag_blocks-Tagged, tag_pairs-Tagged}

abbrev pub slots : List Named → List Slot
slots [] = []
slots ((name, p) ∷ log) = slot_of p ∷ slots log

slots-append : (xs ys : List Named) → slots (xs ++ ys) ≡ slots xs ++ slots ys
slots-append [] ys = refl
slots-append ((name, p) ∷ xs) ys = ap (◌∷◌ (slot_of p)) (slots-append xs ys)

-- `k` places of a region from number `start` on
unfoldable pub run : Bool → ℕ → ℕ → ℕ → List Slot
run indirect region start zero = []
run indirect region start (suc k) =
    record { set_id = start; region = region; indirect = indirect }
    ∷ run indirect region (start + 1) k

-- The number of the next event.
abbrev pub next : Bool → Pass → ℕ
next true s = s.indirect_function_counter_offset
next false s = s.region_counter_event_total

pub record Ran (indirect : Bool) (region k : ℕ) (s t : Pass) : Type 0 where
  pub log : slots t.log ≡ slots s.log ++ run indirect region (next indirect s) k
  pub count : next indirect t ≡ next indirect s + k
  pub most : t.region_counter_event_max ≡ s.region_counter_event_max

slot-event :
    (o : Options) (region group : ℕ) (indirect : Bool) (s : Pass) (q : ProfileData)
    → SameKeys (event_profile o region group indirect s) q
    → slot_of q ≡ record { set_id = next indirect s; region = region; indirect = indirect }
unfolding event_profile
slot-event o region group true s q k = ground (arith, k)
slot-event o region group false s q k = ground (arith, k)

count-event :
    (name : List ℕ) (indirect : Bool) (s v : Pass) (q : ProfileData)
    → Quiet s v
    → next indirect (insert_custom_event name q indirect v) ≡ next indirect s + 1
unfolding insert_custom_event
count-event name true s v q h = omega (arith, h)
count-event name false s v q h = omega (arith, h)

count-blocks :
    (indirect : Bool) (s : Pass) (n : ℕ)
    → next indirect (record s { basic_block_count = n }) ≡ next indirect s
count-blocks true s n = refl
count-blocks false s n = refl

event-Ran :
    (o : Options) (name : List ℕ) (region group : ℕ) (indirect : Bool) (s v : Pass)
    (q : ProfileData)
    → SameKeys (event_profile o region group indirect s) q
    → Quiet s v
    → Ran indirect region 1 s (insert_custom_event name q indirect v)
unfolding insert_custom_event run
event-Ran o name region group indirect s v q k h = record {
  log =
      slots-append v.log ((name, q) ∷ [])
      ∙ ap (λ l. slots l ++ slot_of q ∷ []) h.log
      ∙ ap (λ x. slots s.log ++ x ∷ []) (slot-event o region group indirect s q k);
  count = count-event name indirect s v q h;
  most = h.most;
}

inc-Quiet :
    (o : Options) (b : Option ℕ) (p : ProfileData) (s : Pass)
    → Quiet s (insert_counter_array_inc o b p s)
unfolding insert_counter_array_inc
inc-Quiet o b p s = ground arith

-- What is left of a run behind its first places.
run-append :
    (indirect : Bool) (region start j k : ℕ)
    → run indirect region start j ++ run indirect region (start + j) k
      ≡ run indirect region start (j + k)
unfolding run
run-append indirect region start zero k =
    let none_before : start + 0 ≡ start = omega arith in
    let none_added : k ≡ 0 + k = omega arith in
    ap (λ t. run indirect region t k) none_before ∙ ap (λ t. run indirect region start t) none_added
run-append indirect region start (suc j) k =
    let shift : start + suc j ≡ start + 1 + j = omega arith in
    let total : suc j + k ≡ suc (j + k) = omega arith in
    ap (λ t. record { set_id = start; region = region; indirect = indirect } ∷ t)
      (ap (λ t. run indirect region (start + 1) j ++ run indirect region t k) shift
        ∙ run-append indirect region (start + 1) j k)
    ∙ ap (λ t. run indirect region start t) (sym total)

Ran-trans :
    (indirect : Bool) (region j k : ℕ) (s t u : Pass)
    → Ran indirect region j s t
    → Ran indirect region k t u
    → Ran indirect region (j + k) s u
Ran-trans indirect region j k s t u a b = record {
  log =
      b.log
      ∙ ap (λ l. l ++ run indirect region (next indirect t) k) a.log
      ∙ append_assoc (slots s.log) (run indirect region (next indirect s) j)
          (run indirect region (next indirect t) k)
      ∙ ap
          (λ n. slots s.log ++ (run indirect region (next indirect s) j ++ run indirect region n k))
          a.count
      ∙ ap (λ l. slots s.log ++ l) (run-append indirect region (next indirect s) j k);
  count = omega (arith, a.count, b.count);
  most = b.most ∙ a.most;
}

module _ (functions : List ℕ) (roi : ℕ) (kept : List ℕ) (n : ℕ) where
  -- The events are inserted, one for each of `k` counters.
  abbrev pub AllInserted : Bool → ℕ → ℕ → Pass → Option Pass → Type 0
  AllInserted indirect region k s none = ⊥
  AllInserted indirect region k s (some t) =
      Ran indirect region k s t × Tracks functions roi kept n t

  finish_set :
      (o : Options) (name : List ℕ) (region group : ℕ) (indirect : Bool) (b : Option ℕ) (size : ℕ)
      (s t : Pass) (q : ProfileData)
      → SameKeys (event_profile o region group indirect s) q
        × Quiet s t
        × Tracks functions roi kept n t
      → AllInserted indirect region 1 s (
          some (
            let u = insert_custom_event name q indirect (insert_counter_array_inc o b q t) in
            record u { basic_block_count = u.basic_block_count + size }))
  unfolding insert_custom_event insert_counter_array_inc
  finish_set o name region group indirect b size s t q (keys, quiet, tracks) =
      let v = insert_counter_array_inc o b q t in
      let u = insert_custom_event name q indirect v in
      let ran =
        event-Ran o name region group indirect s v q keys
          (Quiet-trans s t v quiet (inc-Quiet o b q t)) in
      (
        record {
          log = ran.log;
          count = count-blocks indirect u (u.basic_block_count + size) ∙ ran.count;
          most = ran.most;
        },
        Tracks-same functions roi kept n t _ (ground arith) (ground arith) tracks,
      )

  finish_loop :
      (o : Options) (name : List ℕ) (region group : ℕ) (indirect : Bool) (s t : Pass)
      (q : ProfileData)
      → SameKeys (event_profile o region group indirect s) q
        × Quiet s t
        × Tracks functions roi kept n t
      → AllInserted indirect region 1 s (some (insert_dynamic_loop_event o name none q indirect t))
  unfolding insert_dynamic_loop_event insert_custom_event
  finish_loop o name region group indirect s t q (keys, quiet, tracks) =
      let v =
        if o.apply_counters
        then insert none (increment_sf q.pragma_region_id q.post_dom_set_id) t
        else t in
      (
        event-Ran o name region group indirect s v q keys (Quiet-trans s t v quiet (ground arith)),
        Tracks-same functions roi kept n t _ (ground arith) (ground arith) tracks,
      )

  region-event :
      (o : Options) (region group : ℕ) (indirect : Bool) (s : Pass)
      → region < roi
      → (event_profile o region group indirect s).pragma_region_id < roi
  unfolding event_profile
  region-event o region group indirect s lt = lt

  insert_event-AllInserted :
      (o : Options) (code : Code) (name : List ℕ) (region group : ℕ) (indirect : Bool) (c : Counter)
      (s : Pass)
      → Readable functions code
      → region < roi
      → Tracks functions roi kept n s
      → AllInserted indirect region 1 s (insert_event o code name region group indirect c s)
  unfolding insert_event
  insert_event-AllInserted o code name region group indirect (shared bs) s rd lt t =
      let p = event_profile o region group indirect s in
      let tagged =
        tag_blocks-Tagged functions roi kept n o code bs 1 p s rd
          (region-event o region group indirect s lt) t in
      elim (Option-cases (tag_blocks o code bs 1 p s)) [
        | inl e ↦ absurd (subst (Tagged functions roi kept n p s) e tagged)
        | inr ((q, u), e) ↦
            rw (e, insert_event)
              (finish_set o name region group indirect (first_of bs) (length bs) s u q
                (subst (Tagged functions roi kept n p s) e tagged))
      ]
  insert_event-AllInserted o code name region group indirect (hoisted pairs) s rd lt t =
      let p = event_profile o region group indirect s in
      let tagged =
        tag_pairs-Tagged functions roi kept n o code pairs p s rd
          (region-event o region group indirect s lt) t in
      elim (Option-cases (tag_pairs o code pairs p s)) [
        | inl e ↦ absurd (subst (Tagged functions roi kept n p s) e tagged)
        | inr ((q, u), e) ↦
            rw (e, insert_event)
              (finish_set o name region group indirect none (sizes pairs) s u q
                (subst (Tagged functions roi kept n p s) e tagged))
      ]
  insert_event-AllInserted o code name region group indirect (dynamic bs) s rd lt t =
      let p = event_profile o region group indirect s in
      let tagged =
        tag_blocks-Tagged functions roi kept n o code bs 1 p s rd
          (region-event o region group indirect s lt) t in
      elim (Option-cases (tag_blocks o code bs 1 p s)) [
        | inl e ↦ absurd (subst (Tagged functions roi kept n p s) e tagged)
        | inr ((q, u), e) ↦
            rw (e, insert_event)
              (finish_loop o name region group indirect s u q
                (subst (Tagged functions roi kept n p s) e tagged))
      ]

  AllInserted-after :
      (indirect : Bool) (region j k : ℕ) (s t : Pass) (r : Option Pass)
      → Ran indirect region j s t
      → AllInserted indirect region k t r
      → AllInserted indirect region (j + k) s r
  AllInserted-after indirect region j k s t none a b = b
  AllInserted-after indirect region j k s t (some u) a (b, tr) =
      (Ran-trans indirect region j k s t u a b, tr)

  -- All counters of a region are inserted, under consecutive numbers.
  pub insert_events-AllInserted :
      (o : Options) (code : Code) (name : List ℕ) (region group : ℕ) (indirect : Bool)
      (cs : List Counter) (s : Pass)
      → Readable functions code
      → region < roi
      → Tracks functions roi kept n s
      → AllInserted indirect region
          (length cs)
          s
          (insert_events o code name region group indirect cs s)
  unfolding insert_events run
  insert_events-AllInserted o code name region group indirect [] s rd lt t =
      (record { log = sym (append-nil (slots s.log)); count = omega arith; most = refl }, t)
  insert_events-AllInserted o code name region group indirect (c ∷ cs) s rd lt t =
      let first = insert_event-AllInserted o code name region group indirect c s rd lt t in
      elim (Option-cases (insert_event o code name region group indirect c s)) [
        | inl e ↦ absurd (subst (AllInserted indirect region 1 s) e first)
        | inr (u, e) ↦
            let (ran, tracks) = subst (AllInserted indirect region 1 s) e first in
            let one_more : 1 + length cs ≡ suc (length cs) = omega arith in
            rw (e, insert_events)
              (subst
                (λ m.
                  AllInserted indirect region m s
                    (insert_events o code name region group indirect cs u))
                one_more
                (AllInserted-after indirect region 1 (length cs) s u _ ran
                  (insert_events-AllInserted o code name region group indirect cs u rd lt tracks)))
      ]
