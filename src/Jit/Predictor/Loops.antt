-- ===== src/Jit/Predictor/Loops.antt =====
-- include/jit/branch_predictor.hpp: the table for loops.
use Prim.Native.Nat.{min}
use munchkinglang.Prelude.{ℕ, ◌<◌, ◌≤◌, ◌+◌, ◌-◌, Bool, true, false, ◌≡◌, refl, arith}
use munchkinglang.Jit.Predictor.{BranchPredictor, predict, train, saturate, back_edge_index}

abbrev loop_counter : BranchPredictor → ℕ → ℕ
loop_counter p branch_pc = p.back_edge_table (back_edge_index branch_pc)

loop_counter-train :
    (p : BranchPredictor) (branch_pc jump_pc : ℕ) (taken : Bool)
    → jump_pc < branch_pc
    → loop_counter (train p branch_pc taken jump_pc) branch_pc
      ≡ saturate taken (loop_counter p branch_pc)
unfolding train
loop_counter-train p branch_pc jump_pc taken back = ground arith

predict_loop :
    (p : BranchPredictor) (branch_pc jump_pc : ℕ)
    → jump_pc < branch_pc
    → 2 ≤ loop_counter p branch_pc
    → predict p branch_pc jump_pc ≡ true
unfolding predict
predict_loop p branch_pc jump_pc back h = ground arith

saturate_taken : (n : ℕ) → min 3 (n + 1) ≤ saturate true n
unfolding saturate
saturate_taken n = ground arith

saturate_missed : (n : ℕ) → saturate false n ≡ n - 1
unfolding saturate
saturate_missed n = refl

-- Two taken outcomes of a backward branch make it predicted taken, from any state, and one outcome
-- not taken after three taken ones does not change that.
pub predict-train_loop :
    (p : BranchPredictor) (branch_pc jump_pc : ℕ)
    → jump_pc < branch_pc
    → (predict (train (train p branch_pc true jump_pc) branch_pc true jump_pc) branch_pc jump_pc
        ≡ true)
      × (predict
            (train
              (train
                (train (train p branch_pc true jump_pc) branch_pc true jump_pc)
                branch_pc
                true
                jump_pc)
              branch_pc
              false
              jump_pc)
            branch_pc
            jump_pc
          ≡ true)
predict-train_loop p branch_pc jump_pc back =
    let after = λ (q : BranchPredictor) (t : Bool). train q branch_pc t jump_pc in
    let count = λ (q : BranchPredictor) (t : Bool). loop_counter-train q branch_pc jump_pc t back in
    let p₁ = after p true in
    let p₂ = after p₁ true in
    let p₃ = after p₂ true in
    let n = loop_counter p branch_pc in
    let c₁ : min 3 (n + 1) ≤ loop_counter p₁ branch_pc = rw (count p true) (saturate_taken n) in
    let c₂ : 2 ≤ loop_counter p₂ branch_pc =
      rw (count p₁ true) (omega (arith, saturate_taken (loop_counter p₁ branch_pc))) in
    let c₃ : 3 ≤ loop_counter p₃ branch_pc =
      rw (count p₂ true) (omega (arith, saturate_taken (loop_counter p₂ branch_pc))) in
    (
      predict_loop p₂ branch_pc jump_pc back c₂,
      predict_loop (after p₃ false) branch_pc jump_pc back
          (rw (count p₃ false, saturate_missed) (omega arith)),
    )
