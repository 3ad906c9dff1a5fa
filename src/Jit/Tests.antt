-- ===== src/Jit/Tests.antt =====
-- include/jit: the profile and the predictor on short runs.
use mathlib.Core.Bool.{◌&&◌, ◌||◌}
use munchkinglang.Prelude.{
  ◌+◌, ◌*◌, ◌≤◌, List, [], ◌∷◌, true, false, ◌≡◌, ◌↔◌, refl, arith, ◌==◌, if◌then◌else◌,
}
use munchkinglang.Prelude.Int.{pos, negsuc}
use munchkinglang.Jit.Profile.{
  BranchProfile, ExecutionProfile, strongly_taken, strongly_not_taken, wrap32, branch_total,
  record_branch,
}
use munchkinglang.Jit.Profile.Laws.{strongly_taken-exact, record_branch-total}
use munchkinglang.Jit.Registry.{ProfileKey, same_key, same_key_iff}
use munchkinglang.Jit.Predictor.{
  BranchPredictor, fresh, zero_weights, predict, train, seed_static_hint, index_for, perceptron,
}
use munchkinglang.Jit.Predictor.Valid.{Event, IsValid, apply_events, apply_events-IsValid}
use munchkinglang.Jit.Predictor.Loops.{predict-train_loop}
use munchkinglang.Jit.Predictor.Hints.{predict-seed_static_hint, train-bias_wraps}

abbrev forty : BranchProfile
forty = record { taken = 39; not_taken = 1 }

abbrev new_profile : ExecutionProfile
new_profile = record { generation = 0; interpret_runs = 0; block_hits = []; branches = [] }

abbrev loop_run : List Event
loop_run = Event.outcome 64 true 16 ∷ Event.hint 80 false ∷ Event.outcome 64 false 16 ∷ []

-- Every bias is 127.
abbrev saturated : BranchPredictor
saturated = record fresh {
  table = λ _. record { bias = pos 127; weights = zero_weights 12; counter = 3; warmup = 255 };
}

strongly_taken-exact_example :
    ((strongly_taken forty ≡ true) ↔ ((32 ≤ 40) × (40 * 19 ≤ 39 * 20)))
    × ((strongly_taken forty && strongly_not_taken forty) ≡ false)
strongly_taken-exact_example = strongly_taken-exact forty (omega arith)

record_branch-total_example :
    (branch_total 5 (record_branch 4 true new_profile)
      ≡ (if 4 == 5 then wrap32 (branch_total 5 new_profile + 1) else branch_total 5 new_profile))
    × ((record_branch 4 true new_profile).generation ≡ (
        let n = wrap32 (branch_total 4 new_profile + 1) in
        if n == 32 || n == 128 || n == 512
        then wrap32 (new_profile.generation + 1)
        else new_profile.generation))
record_branch-total_example = record_branch-total 4 5 true new_profile

apply_events-IsValid_example : IsValid (apply_events loop_run fresh)
apply_events-IsValid_example = apply_events-IsValid loop_run

predict-train_loop_example :
    (predict (train (train fresh 64 true 16) 64 true 16) 64 16 ≡ true)
    × (predict
          (train (train (train (train fresh 64 true 16) 64 true 16) 64 true 16) 64 false 16)
          64
          16
        ≡ true)
predict-train_loop_example = predict-train_loop fresh 64 16 (omega arith)

predict-seed_static_hint_example : predict (seed_static_hint fresh 64 false) 64 80 ≡ false
unfolding index_for perceptron
predict-seed_static_hint_example =
    predict-seed_static_hint fresh 64 80 false (omega arith) (omega arith)

train-bias_wraps_example :
    ((train saturated 64 true 16).table (index_for saturated 64)).bias ≡ negsuc 127
train-bias_wraps_example = train-bias_wraps saturated 64 16 refl

abbrev blob : ProfileKey
blob = 1 ∷ 2 ∷ []

abbrev other_blob : ProfileKey
other_blob = 1 ∷ 3 ∷ []

same_key_iff_example : (same_key blob other_blob ≡ true) ↔ (blob ≡ other_blob)
same_key_iff_example = same_key_iff blob other_blob
