-- ===== src/ModulePass/Tests.antt =====
-- A module with two regions that call two functions, which call each other.
use zray.Base.{
  ℕ, ◌+◌, ◌≡◌, refl, true, false, ◌==◌, if◌then◌else◌, Option, none, some, List, [], ◌∷◌, All,
  if_cases,
}
use zray.Emit.Cloning.{Names}
use zray.Loops.{no_trees}
use zray.Blocks.{create_post_dom_sets, post_dom_sets, split_off}
use zray.Hoist.{Env}
use zray.Emit.{Options, Callee, declared, defined, Code}
use zray.Emit.Keys.{Slot}
use zray.Emit.Tagging.{Readable}
use zray.ModulePass.{PragmaRegion, Module, Finished, run_module, region_bounds}
use zray.ModulePass.Events.{slots}
use zray.ModulePass.Apart.{Apart}
use zray.ModulePass.Regions.{Ensures}
use zray.ModulePass.Whole.{InArray, run_module-InArray, run_module-Apart, run_module-ends}

abbrev options : Options
options = record {
  apply_counters = true;
  apply_function_cloning = true;
  apply_mir_pass = false;
  enable_host_monitor = false;
  full_scan = false;
}

-- Each block is a set of its own.
abbrev env : Env
env = record {
  apply_post_dom_sets = false;
  apply_loop_hoisting = false;
  post = λ x b. false;
  dom = λ x b. false;
  regains = λ h. true;
}

-- Block 1 calls function 7, block 2 a declared function and 8; their bodies are blocks 20 and 30.
abbrev callees : ℕ → List Callee
callees b =
    if b == 1
    then defined 7 ∷ []
    else if b == 2
    then declared ∷ defined 8 ∷ []
    else if b == 20
    then defined 8 ∷ []
    else if b == 30
    then defined 7 ∷ defined 9 ∷ []
    else []

abbrev region : ℕ → List ℕ → PragmaRegion
region id blocks = record {
  pragma_region_id = id;
  group_id = 1;
  bb_list = blocks;
  name = [];
  is_omp = false;
  ordered_cfg = (1, 4) ∷ (2, 3) ∷ (3, 5) ∷ [];
  entry = 1;
  returning = [];
  env = env;
  loop_tree = no_trees;
}

abbrev code : Code
code = record { insts = λ b. []; callees = callees; clone_name = λ f. f + 100 }

-- Functions 7, 8 and 9; 9 is reached from the clone of 8 only.
abbrev program : Module
program = record {
  code = code;
  functions = 7 ∷ 8 ∷ 9 ∷ [];
  clone_body =
      λ f. region 0 (if f == 7 then 20 ∷ 21 ∷ [] else if f == 8 then 30 ∷ [] else 40 ∷ 41 ∷ []);
  pr_list = region 0 (1 ∷ []) ∷ region 1 (2 ∷ 3 ∷ []) ∷ [];
}

abbrev slot : ℕ → ℕ → Slot
slot set region_id = record { set_id = set; region = region_id; indirect = false }

abbrev shared_slot : ℕ → ℕ → Slot
shared_slot set region_id = record { set_id = set; region = region_id; indirect = true }

abbrev log_of : Option Finished → List Slot
log_of none = []
log_of (some f) = slots f.pass.log

-- Three sets of the regions, then those of 7, of 8 and, in a second round, of 9.
places :
    log_of (run_module options program)
    ≡ slot 0 0
      ∷ slot 0 1
      ∷ slot 1 1
      ∷ shared_slot 2 0
      ∷ shared_slot 3 0
      ∷ shared_slot 4 1
      ∷ shared_slot 5 1
      ∷ shared_slot 6 1
      ∷ []
unfolding run_module create_post_dom_sets post_dom_sets split_off
places = refl

-- The region of blocks 2 and 3 lies between offsets 4 and 12.
bounds :
    region_bounds ((1, 4) ∷ (2, 3) ∷ (3, 5) ∷ []) (2 ∷ 3 ∷ [])
    ≡ record { first = 4; last = 12; begin_block = some 2; end_block = some 3 }
unfolding region_bounds
bounds = refl

callees-Names : (b : ℕ) → All (Names program.functions) (callees b)
callees-Names b =
    if_cases (All (Names program.functions)) (b == 1) _ _ (λ e. (refl, tt))
      (λ e.
        if_cases (All (Names program.functions)) (b == 2) _ _ (λ e. (tt, (refl, tt)))
          (λ e.
            if_cases (All (Names program.functions)) (b == 20) _ _ (λ e. (refl, tt))
              (λ e.
                if_cases (All (Names program.functions)) (b == 30) _ _ (λ e. (refl, (refl, tt)))
                  (λ e. tt))))

program-Readable : Readable program.functions code
program-Readable = record { known = λ b. tt; named = callees-Names }

run_module-InArray_example :
    Ensures (λ f. All (InArray f) (slots f.pass.log)) (run_module options program)
run_module-InArray_example = run_module-InArray options program program-Readable (refl, (refl, tt))

run_module-Apart_example : Ensures (λ f. Apart (slots f.pass.log)) (run_module options program)
run_module-Apart_example = run_module-Apart options program program-Readable (refl, (refl, tt))

run_module-ends_example :
    Ensures (λ f. f.pass.pending_function_clones ≡ []) (run_module options program)
run_module-ends_example = run_module-ends options program program-Readable (refl, (refl, tt)) refl
