-- ===== src/Blocks/Counting.antt =====
-- What the profile of a set of blocks holds, in recordTagBlocks of src/zray_pass.cc.
use zray.Base.{
  ℕ, ◌+◌, ◌^◌, ◌<◌, ◌≡◌, refl, false, Option, none, some, List, [], ◌∷◌, arith, ◌∙◌, ap, All,
  if◌then◌else◌,
}
use mathlib.Core.Option.{some-injective}
use native.Mathlib.Nat.{mul-add}
use zray.Base.Word.{wadd, wmul}
use zray.Profile.{ProfileData}
use zray.Profile.Metrics.{Metric, count_of}
use zray.Record.{Inst, Inserted, record_inst}
use zray.Record.Codes.{group_of}
use zray.Record.Weights.{weight, is_missing, counted, record_inst_lem}
use zray.Blocks.{prepend, and_then, record_insts, record_tag_blocks}

-- recordInst knows the instruction, and it is no call of the tool.
abbrev pub Recorded : Inst → Type 0
Recorded i = (is_missing (group_of i.opcode) ≡ false) × (i.is_tool_call ≡ false)

pub insts_weight : Metric → List Inst → ℕ
insts_weight m [] = 0
insts_weight m (i ∷ insts) = weight m i + insts_weight m insts

-- The sum over all instructions of all blocks.
pub blocks_weight : Metric → List (List Inst) → ℕ
blocks_weight m [] = 0
blocks_weight m (b ∷ blocks) = insts_weight m b + blocks_weight m blocks

counted-prepend :
    (m : Metric) (calls : List Inserted) (o : Option (ProfileData × List Inserted))
    → counted m (prepend calls o) ≡ counted m o
counted-prepend m calls none = refl
counted-prepend m calls (some (q, more)) = refl

-- A step of weight `w` and, from wherever it leaves the profile, one of weight `v`.
counted-and_then :
    (m : Metric) (old w v sf : ℕ) (o : Option (ProfileData × List Inserted))
    (f : ProfileData → Option (ProfileData × List Inserted))
    → counted m o ≡ some (wadd old (wmul sf w))
    → ((q : ProfileData)
        → count_of m q < 2 ^ 64
        → counted m (f q) ≡ some (wadd (count_of m q) (wmul sf v)))
    → counted m (and_then o f) ≡ some (wadd old (wmul sf (w + v)))
counted-and_then m old w v sf none f h k = ground (arith, h)
counted-and_then m old w v sf (some (p, calls)) f h k =
    let here = some-injective (count_of m p) (wadd old (wmul sf w)) h in
    counted-prepend m calls (f p)
    ∙ k p (omega (arith, here))
    ∙ ap some (omega (arith, here, mul-add sf w v))

record_insts_lem :
    (m : Metric) (insts : List Inst) (sf : ℕ) (p : ProfileData)
    → All Recorded insts
    → count_of m p < 2 ^ 64
    → counted m (record_insts insts sf p)
      ≡ some (wadd (count_of m p) (wmul sf (insts_weight m insts)))
unfolding record_insts insts_weight
record_insts_lem m [] sf p h k = ap some (omega arith)
record_insts_lem m (i ∷ insts) sf p ((known, plain), hs) k =
    counted-and_then m (count_of m p) (weight m i) (insts_weight m insts) sf (record_inst i sf p) _
      (record_inst_lem m i sf p plain k
        ∙ ap (λ b. if b then none else some (wadd (count_of m p) (wmul sf (weight m i)))) known)
      (λ q l. record_insts_lem m insts sf q hs l)

-- Recording blocks whose instructions are known, and no calls of the tool, does not terminate the
-- compiler, and adds to each count below 2 ^ 64 the scale factor times the sum of the weights of
-- all their instructions, modulo 2 ^ 64.
pub record_tag_blocks_lem :
    (m : Metric) (blocks : List (List Inst)) (sf : ℕ) (p : ProfileData)
    → All (All Recorded) blocks
    → count_of m p < 2 ^ 64
    → counted m (record_tag_blocks blocks sf p)
      ≡ some (wadd (count_of m p) (wmul sf (blocks_weight m blocks)))
unfolding record_tag_blocks blocks_weight
record_tag_blocks_lem m [] sf p h k = ap some (omega arith)
record_tag_blocks_lem m (b ∷ blocks) sf p (h, hs) k =
    counted-and_then m (count_of m p) (insts_weight m b) (blocks_weight m blocks) sf
      (record_insts b sf p) _ (record_insts_lem m b sf p h k)
      (λ q l. record_tag_blocks_lem m blocks sf q hs l)
