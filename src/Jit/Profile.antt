-- ===== src/Jit/Profile.antt =====
-- include/jit/execution_profile.hpp: counters of one branch and of one piece of bytecode. Counters
-- are uint32_t and wrap.
pub mod Laws
use mathlib.Core.Bool.{◌&&◌, ◌||◌}
use munchkinglang.Prelude.{
  ℕ, ◌+◌, ◌*◌, ◌%◌, ◌^◌, List, [], ◌∷◌, Bool, Option, none, some, leb, ◌==◌, if◌then◌else◌,
}

pub record BranchProfile : Type 0 where
  pub taken : ℕ
  pub not_taken : ℕ

abbrev pub wrap32 : ℕ → ℕ
wrap32 n = n % 2 ^ 32

unfoldable pub total : BranchProfile → ℕ
total s = wrap32 (s.taken + s.not_taken)

unfoldable pub strongly_taken : BranchProfile → Bool
unfolding total
strongly_taken s = leb 32 (total s) && leb (wrap32 (total s * 19)) (wrap32 (s.taken * 20))

unfoldable pub strongly_not_taken : BranchProfile → Bool
unfolding total
strongly_not_taken s = leb 32 (total s) && leb (wrap32 (total s * 19)) (wrap32 (s.not_taken * 20))

unfoldable pub biased_taken : BranchProfile → Bool
unfolding total
biased_taken s = leb 8 (total s) && leb (wrap32 (total s * 2)) (wrap32 (s.taken * 3))

unfoldable pub biased_not_taken : BranchProfile → Bool
unfolding total
biased_not_taken s = leb 8 (total s) && leb (wrap32 (total s * 2)) (wrap32 (s.not_taken * 3))

abbrev pub empty_profile : BranchProfile
empty_profile = record { taken = 0; not_taken = 0 }

-- A hash map from bytecode offsets, as an association list in the order of insertion.
abbrev pub Sites : Type 0
Sites = List (ℕ × BranchProfile)

unfoldable pub find_site : ℕ → Sites → Option BranchProfile
find_site pc [] = none
find_site pc ((k, s) ∷ rest) = if k == pc then some s else find_site pc rest

-- `branches[pc]`, changed by `f`: a missing site is made.
unfoldable pub update_site : ℕ → (BranchProfile → BranchProfile) → Sites → Sites
update_site pc f [] = (pc, f empty_profile) ∷ []
update_site pc f ((k, s) ∷ rest) =
    if k == pc then (k, f s) ∷ rest else (k, s) ∷ update_site pc f rest

unfoldable pub bump_count : ℕ → List (ℕ × ℕ) → List (ℕ × ℕ)
bump_count pc [] = (pc, 1) ∷ []
bump_count pc ((k, n) ∷ rest) =
    if k == pc then (k, wrap32 (n + 1)) ∷ rest else (k, n) ∷ bump_count pc rest

pub record ExecutionProfile : Type 0 where
  pub generation : ℕ
  pub interpret_runs : ℕ
  pub block_hits : List (ℕ × ℕ)
  pub branches : Sites

unfoldable pub record_block : ℕ → ExecutionProfile → ExecutionProfile
unfolding bump_count
record_block pc p = record p { block_hits = bump_count pc p.block_hits }

unfoldable pub bump_generation : ExecutionProfile → ExecutionProfile
bump_generation p = record p { generation = wrap32 (p.generation + 1) }

unfoldable pub note_interpret_run : ExecutionProfile → ExecutionProfile
note_interpret_run p = record p { interpret_runs = wrap32 (p.interpret_runs + 1) }

unfoldable pub count_outcome : Bool → BranchProfile → BranchProfile
count_outcome taken s =
    if taken
    then record s { taken = wrap32 (s.taken + 1) }
    else record s { not_taken = wrap32 (s.not_taken + 1) }

unfoldable pub branch_total : ℕ → ExecutionProfile → ℕ
unfolding find_site total
branch_total pc p = elim (find_site pc p.branches) [ none ↦ 0 | some s ↦ total s ]

unfoldable pub branch_likely_taken : ℕ → ExecutionProfile → Bool
unfolding find_site biased_taken
branch_likely_taken pc p = elim (find_site pc p.branches) [
  | none ↦ Bool.false
  | some s ↦ biased_taken s
]

-- The generation grows at three totals.
unfoldable pub record_branch : ℕ → Bool → ExecutionProfile → ExecutionProfile
unfolding update_site count_outcome branch_total bump_generation
record_branch pc taken p =
    let p' = record p { branches = update_site pc (count_outcome taken) p.branches } in
    let n = branch_total pc p' in if n == 32 || n == 128 || n == 512 then bump_generation p' else p'

unfoldable pub branch_events : Sites → ℕ → ℕ
unfolding total
branch_events [] sum = sum
branch_events ((k, s) ∷ rest) sum = branch_events rest (wrap32 (sum + total s))

unfoldable pub is_mature : ExecutionProfile → Bool
unfolding branch_events
is_mature p = leb 256 (branch_events p.branches 0) || leb 1 p.interpret_runs
