-- ===== src/Jit/Profile/Laws.antt =====
-- include/jit/execution_profile.hpp: what the counters promise.
use mathlib.Core.Bool.{◌&&◌, ◌||◌}
use munchkinglang.Prelude.{
  ℕ, ◌+◌, ◌*◌, ◌<◌, ◌≤◌, ◌^◌, Bool, true, false, none, some, [], ◌∷◌, ◌≡◌, ◌↔◌, refl, arith, ◌==◌,
  if◌then◌else◌,
}
use munchkinglang.Jit.Profile.{
  BranchProfile, wrap32, total, strongly_taken, strongly_not_taken, Sites, find_site, update_site,
  empty_profile, ExecutionProfile, record_branch, count_outcome, branch_total,
}

-- Below 2 ^ 27 outcomes the test for a strongly taken branch is exact, 32 outcomes and 95 of 100
-- taken, and a branch is not both strongly taken and strongly not taken.
pub strongly_taken-exact :
    (s : BranchProfile)
    → s.taken + s.not_taken < 2 ^ 27
    → ((strongly_taken s ≡ true)
        ↔ ((32 ≤ s.taken + s.not_taken) × ((s.taken + s.not_taken) * 19 ≤ s.taken * 20)))
      × ((strongly_taken s && strongly_not_taken s) ≡ false)
unfolding strongly_taken strongly_not_taken
strongly_taken-exact s small = ground arith

sites_total : ℕ → Sites → ℕ
sites_total pc sites = elim (find_site pc sites) [ none ↦ 0 | some s ↦ total s ]

total-count_outcome :
    (t : Bool) (s : BranchProfile) → total (count_outcome t s) ≡ wrap32 (total s + 1)
unfolding total count_outcome
total-count_outcome t s = ground arith

total-empty : total empty_profile ≡ 0
unfolding total
total-empty = refl

-- One outcome at `pc` adds one to that site's total, and to no other's.
sites_total-update :
    (pc q : ℕ) (t : Bool) (sites : Sites)
    → sites_total q (update_site pc (count_outcome t) sites)
      ≡ (if pc == q then wrap32 (sites_total q sites + 1) else sites_total q sites)
unfolding sites_total find_site update_site
sites_total-update pc q t [] = ground (arith, total-empty, total-count_outcome t empty_profile)
sites_total-update pc q t ((k, s) ∷ rest) =
    ground (arith, total-count_outcome t s, sites_total-update pc q t rest)

-- Recording an outcome adds one, modulo 2 ^ 32, to the total of its branch and leaves every other
-- branch's total; the generation grows, modulo 2 ^ 32, exactly when the new total is 32, 128 or 512.
pub record_branch-total :
    (pc q : ℕ) (t : Bool) (p : ExecutionProfile)
    → (branch_total q (record_branch pc t p)
        ≡ (if pc == q then wrap32 (branch_total q p + 1) else branch_total q p))
      × ((record_branch pc t p).generation ≡ (
          let n = wrap32 (branch_total pc p + 1) in
          if n == 32 || n == 128 || n == 512 then wrap32 (p.generation + 1) else p.generation))
unfolding record_branch sites_total
record_branch-total pc q t p = (
  ground (arith, sites_total-update pc q t p.branches),
  ground (arith, sites_total-update pc pc t p.branches),
)
