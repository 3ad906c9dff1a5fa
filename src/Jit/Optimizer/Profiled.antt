-- ===== src/Jit/Optimizer/Profiled.antt =====
-- include/jit/pgo_optimizer.hpp: `optimize_bytecode_with_profile`, the two passes one behind the other.
use munchkinglang.Prelude.{
  ℕ, suc, List, Bool, true, false, Option, none, some, ◌≢◌, refl, arith, length,
}
use munchkinglang.Jit.Profile.{Sites}
use munchkinglang.Jit.Pgo.{Run, apply_profile_optimization}
use munchkinglang.Jit.Pgo.Ends.{apply_profile_optimization_ends}
use munchkinglang.Jit.Optimizer.Retarget.{optimize_bytecode}
use munchkinglang.Jit.Optimizer.Retarget.Ends.{optimize_bytecode_ends}

unfoldable pub optimize_specialized : List ℕ → Run (List ℕ) → Run (List ℕ)
unfolding optimize_bytecode
optimize_specialized strings Run.stopped = Run.stopped
optimize_specialized strings Run.unfinished = Run.unfinished
optimize_specialized strings (Run.done input) = optimize_bytecode input strings

-- `pgo_enabled` is the first argument; no profile is the null pointer.
unfoldable pub optimize_bytecode_with_profile : Bool → List ℕ → List ℕ → Option Sites → Run (List ℕ)
unfolding optimize_specialized apply_profile_optimization
optimize_bytecode_with_profile true source strings (some profile) =
    optimize_specialized strings
      (apply_profile_optimization strings true (suc (length source)) source profile)
optimize_bytecode_with_profile _ source strings _ = optimize_bytecode source strings

optimize_specialized_ends :
    (strings : List ℕ) (r : Run (List ℕ))
    → r ≢ Run.unfinished
    → optimize_specialized strings r ≢ Run.unfinished
unfolding optimize_specialized
optimize_specialized_ends strings Run.stopped h = cc
optimize_specialized_ends strings Run.unfinished h = absurd (h refl)
optimize_specialized_ends strings (Run.done input) h = optimize_bytecode_ends input strings

-- Specializing code to a profile and optimizing it ends on any code, with or without a profile, within the
-- rounds that each loop is given: one more than there are bytes.
pub optimize_bytecode_with_profile_ends :
    (enabled : Bool) (source strings : List ℕ) (profile : Option Sites)
    → optimize_bytecode_with_profile enabled source strings profile ≢ Run.unfinished
unfolding optimize_bytecode_with_profile
optimize_bytecode_with_profile_ends true source strings (some profile) =
    optimize_specialized_ends strings _ (
      apply_profile_optimization_ends strings true source profile (suc (length source))
        (omega arith))
optimize_bytecode_with_profile_ends true source strings none = optimize_bytecode_ends source strings
optimize_bytecode_with_profile_ends false source strings profile =
    optimize_bytecode_ends source strings
