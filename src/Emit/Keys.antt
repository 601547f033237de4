-- ===== src/Emit/Keys.antt =====
-- recordInst of src/zray_parse.cc leaves alone what names a profile: its set, its region, and
-- whether it is that of a cloned function.
use zray.Base.{ℕ, ◌≡◌, refl, Bool, false, Option, none, some, List, [], ◌∷◌, arith, All}
use zray.Profile.{ProfileData}
use zray.Record.{
  Inst, Inserted, record_accesses, record_bytes, add_pointer_ops, add_large_consts, record_other,
  record_call, record_return_address, add_intrinsic, uncount_tool_call, record_group, record_inst,
}
use zray.Record.Codes.{Group, group_of}
use zray.Record.Weights.{is_missing}
use zray.Blocks.{prepend, and_then, record_insts}

-- A place in the arrays of counters.
pub record Slot : Type 0 where
  pub set_id : ℕ
  pub region : ℕ
  pub indirect : Bool

abbrev pub slot_of : ProfileData → Slot
slot_of p = record {
  set_id = p.post_dom_set_id;
  region = p.pragma_region_id;
  indirect = p.is_indirect;
}

pub record SameKeys (p q : ProfileData) : Type 0 where
  pub set : q.post_dom_set_id ≡ p.post_dom_set_id
  pub region : q.pragma_region_id ≡ p.pragma_region_id
  pub indirect : q.is_indirect ≡ p.is_indirect

-- The step comes back, with the keys of `p`.
abbrev pub Keeps : {A : Type 0} → ProfileData → Option (ProfileData × A) → Type 0
Keeps p none = ⊥
Keeps p (some (q, calls)) = SameKeys p q

abbrev pub Known : Inst → Type 0
Known i = is_missing (group_of i.opcode) ≡ false

pointer_ops-SameKeys : (i : Inst) (sf : ℕ) (p : ProfileData) → SameKeys p (add_pointer_ops i sf p)
unfolding add_pointer_ops
pointer_ops-SameKeys i sf p = ground arith

large_consts-SameKeys : (i : Inst) (sf : ℕ) (p : ProfileData) → SameKeys p (add_large_consts i sf p)
unfolding add_large_consts
large_consts-SameKeys i sf p = ground arith

both-SameKeys :
    (i : Inst) (sf : ℕ) (p : ProfileData)
    → SameKeys p (add_large_consts i sf (add_pointer_ops i sf p))
both-SameKeys i sf p =
    ground (arith, pointer_ops-SameKeys i sf p, large_consts-SameKeys i sf (add_pointer_ops i sf p))

call-SameKeys : (i : Inst) (sf : ℕ) (p : ProfileData) → SameKeys p (record_call i sf p).0
unfolding record_call record_return_address add_intrinsic record_other uncount_tool_call
    add_pointer_ops
call-SameKeys i sf p = ground arith

record_group-Keeps :
    (g : Group) (i : Inst) (sf : ℕ) (p : ProfileData)
    → is_missing g ≡ false
    → Keeps p (record_group g i sf p)
unfolding record_group
record_group-Keeps Group.int_arithmetic i sf p h = ground (arith, both-SameKeys i sf p)
record_group-Keeps Group.fp_arithmetic i sf p h = ground (arith, both-SameKeys i sf p)
record_group-Keeps Group.logical i sf p h = ground (arith, both-SameKeys i sf p)
record_group-Keeps Group.call_class i sf p h = call-SameKeys i sf p
record_group-Keeps Group.missing i sf p h = absurd (cc)
record_group-Keeps Group.terminator i sf p h = ground (arith, pointer_ops-SameKeys i sf p)
record_group-Keeps g i sf p h = ground arith

keys_of_start :
    {A : Type 0} (p q : ProfileData) (o : Option (ProfileData × A))
    → SameKeys p q
    → Keeps q o
    → Keeps p o
keys_of_start p q none h k = k
keys_of_start p q (some (r, calls)) h k = ground (arith, h, k)

record_inst-Keeps : (i : Inst) (sf : ℕ) (p : ProfileData) → Known i → Keeps p (record_inst i sf p)
unfolding record_inst record_bytes record_accesses
record_inst-Keeps i sf p h =
    let q = record_bytes i sf (record_accesses i sf p) in
    keys_of_start p q (record_group (group_of i.opcode) i sf q)
      (record { set = refl; region = refl; indirect = refl })
      (record_group-Keeps (group_of i.opcode) i sf q h)

Keeps-prepend :
    (p : ProfileData) (calls : List Inserted) (o : Option (ProfileData × List Inserted))
    → Keeps p o
    → Keeps p (prepend calls o)
Keeps-prepend p calls none h = h
Keeps-prepend p calls (some (q, more)) h = h

Keeps-and_then :
    (p : ProfileData) (o : Option (ProfileData × List Inserted))
    (f : ProfileData → Option (ProfileData × List Inserted))
    → Keeps p o
    → ((q : ProfileData) → Keeps q (f q))
    → Keeps p (and_then o f)
Keeps-and_then p none f h k = h
Keeps-and_then p (some (q, calls)) f h k =
    Keeps-prepend p calls (f q) (keys_of_start p q (f q) h (k q))

-- A block whose instructions are known is recorded, under the profile's keys.
pub record_insts-Keeps :
    (insts : List Inst) (sf : ℕ) (p : ProfileData)
    → All Known insts
    → Keeps p (record_insts insts sf p)
unfolding record_insts
record_insts-Keeps [] sf p h = record { set = refl; region = refl; indirect = refl }
record_insts-Keeps (i ∷ insts) sf p (h, hs) =
    Keeps-and_then p (record_inst i sf p) (λ q. record_insts insts sf q)
      (record_inst-Keeps i sf p h) (λ q. record_insts-Keeps insts sf q hs)
