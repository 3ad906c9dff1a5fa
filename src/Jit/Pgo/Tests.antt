-- ===== src/Jit/Pgo/Tests.antt =====
-- include/jit/pgo_optimizer.hpp: runs of the passes, and the theorems at concrete code.
use mathlib.Core.Path.{subst}
use munchkinglang.Prelude.{
  ℕ, List, [], ◌∷◌, true, none, some, same_some, Bool-cases, inl, inr, ◌==◌, false, ◌≡◌, ◌≢◌, refl,
  arith,
}
use munchkinglang.Jit.Profile.{BranchProfile, Sites, find_site, strongly_taken, strongly_not_taken}
use munchkinglang.Jit.Predictor.{fresh}
use munchkinglang.Jit.Pgo.{Run, seed_predictor_from_bytecode, apply_profile_optimization}
use munchkinglang.Jit.Pgo.Ends.{seed_predictor_from_bytecode_ends, apply_profile_optimization_ends}
use munchkinglang.Jit.Pgo.Unbiased.{apply_profile_optimization-unbiased}

-- PUSH_BOOL 1, JMP_IF_FALSE 13, JMP 13, PUSH_NULL, HALT.
abbrev code : List ℕ
code = 4 ∷ 1 ∷ 32 ∷ 13 ∷ 0 ∷ 0 ∷ 0 ∷ 31 ∷ 13 ∷ 0 ∷ 0 ∷ 0 ∷ 5 ∷ 36 ∷ []

abbrev even_site : BranchProfile
even_site = record { taken = 20; not_taken = 20 }

abbrev even_sites : Sites
even_sites = (2, even_site) ∷ []

even_run : apply_profile_optimization [] true 15 code even_sites ≡ Run.done code
unfolding apply_profile_optimization strongly_taken strongly_not_taken
even_run = refl

-- A jump that is never taken becomes a POP. The code behind it moves by four bytes, and the target 13
-- of the next jump stays as it is.
moved_run :
    apply_profile_optimization [] true 15 code ((2, record { taken = 0; not_taken = 64 }) ∷ [])
    ≡ Run.done (4 ∷ 1 ∷ 9 ∷ 31 ∷ 13 ∷ 0 ∷ 0 ∷ 0 ∷ 5 ∷ 36 ∷ [])
unfolding apply_profile_optimization strongly_taken strongly_not_taken
moved_run = refl

seed_predictor_from_bytecode_ends_example :
    seed_predictor_from_bytecode [] 15 code fresh ≢ Run.unfinished
seed_predictor_from_bytecode_ends_example =
    seed_predictor_from_bytecode_ends [] code fresh 15 (omega arith)

apply_profile_optimization_ends_example :
    apply_profile_optimization [] true 15 code even_sites ≢ Run.unfinished
apply_profile_optimization_ends_example =
    apply_profile_optimization_ends [] true code even_sites 15 (omega arith)

even_unbiased :
    (pc : ℕ) (site : BranchProfile)
    → find_site pc even_sites ≡ some site
    → (strongly_not_taken site ≡ false) × (strongly_taken site ≡ false)
unfolding find_site strongly_taken strongly_not_taken
even_unbiased pc site h = elim (Bool-cases (2 == pc)) [
  | inl q ↦
      let here : find_site pc even_sites ≡ some even_site = rw q refl in
      subst (λ s. (strongly_not_taken s ≡ false) × (strongly_taken s ≡ false)) (same_some here h)
        (refl, refl)
  | inr q ↦ let gone : find_site pc even_sites ≡ none = rw q refl in absurd (cc)
]

apply_profile_optimization-unbiased_example : code ≡ code
apply_profile_optimization-unbiased_example =
    apply_profile_optimization-unbiased [] true 15 code even_sites code even_unbiased even_run
