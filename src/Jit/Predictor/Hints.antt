-- ===== src/Jit/Predictor/Hints.antt =====
-- include/jit/branch_predictor.hpp: static hints, and what the bias does at its ends.
use munchkinglang.Prelude.{
  ==_iff, ltb, Bool-cases, inl, inr, ℕ, ◌≤◌, List, [], ◌∷◌, Bool, true, false, ◌≡◌, refl, sym, ap,
  ◌∙◌, arith, if◌then◌else◌, ◌==◌, ◌/◌, ◌%◌,
}
use munchkinglang.Prelude.Int.{ℤ, pos, negsuc, ◌+ℤ◌, ◌≤ℤ◌, +ℤ_right_comm, zero-+ℤ, +ℤ_parts}
use munchkinglang.Jit.Predictor.{
  BranchPredictor, Entry, predict, perceptron, index_for, update, seed_static_hint, hint_entry,
  predict_entry, train, train_entry,
}

-- What the history adds to the bias.
perceptron-bias :
    (ws : List ℤ) (history : ℕ) (a b : ℤ)
    → perceptron ws history (a +ℤ b) ≡ perceptron ws history a +ℤ b
unfolding perceptron
perceptron-bias [] history a b = refl
perceptron-bias (w ∷ ws) history a b = elim (Bool-cases (history % 2 == 1)) [
  | inl t ↦ rw (t, +ℤ_right_comm) (perceptron-bias ws (history / 2) (a +ℤ w) b)
  | inr f ↦ rw f (perceptron-bias ws (history / 2) a b)
]

perceptron-split :
    (ws : List ℤ) (history : ℕ) (b : ℤ)
    → perceptron ws history b ≡ perceptron ws history (pos 0) +ℤ b
perceptron-split ws history b =
    ap (perceptron ws history) (sym (zero-+ℤ b)) ∙ perceptron-bias ws history (pos 0) b

-- The entry that a hint writes, read at a forward branch.
hinted :
    (slot : Entry) (history branch_pc jump_pc : ℕ) (expected : Bool)
    → branch_pc ≤ jump_pc
    → (let sum = perceptron slot.weights history (pos 0) in
        if expected then negsuc 38 ≤ℤ sum else sum ≤ℤ pos 39)
    → (let slot' = hint_entry expected slot in
        predict_entry slot' (perceptron slot'.weights history slot'.bias) branch_pc jump_pc)
      ≡ expected
unfolding hint_entry predict_entry
hinted slot history branch_pc jump_pc true forward small =
    let s = perceptron slot.weights history (pos 0) in
    ground (arith, perceptron-split slot.weights history (pos 32), +ℤ_parts s (pos 32))
hinted slot history branch_pc jump_pc false forward small =
    let s = perceptron slot.weights history (pos 0) in
    ground (arith, perceptron-split slot.weights history (negsuc 31), +ℤ_parts s (negsuc 31))

not_backward : (a b : ℕ) → b ≤ a → ltb a b ≡ false
not_backward a b h = ground arith

update_self {ℓ} : {A : Type ℓ} (f : ℕ → A) (i : ℕ) (v : A) → update f i v i ≡ v
update_self f i v = rw ((==_iff i i).1 refl)

-- A static hint decides the prediction of a forward branch as long as the weights that the history
-- selects add up to more than -40 (hint taken), or to less than 40 (hint not taken).
pub predict-seed_static_hint :
    (p : BranchPredictor) (branch_pc jump_pc : ℕ) (expected : Bool)
    → branch_pc ≤ jump_pc
    → (let slot = p.table (index_for p branch_pc) in
        let sum = perceptron slot.weights p.history (pos 0) in
        if expected then negsuc 38 ≤ℤ sum else sum ≤ℤ pos 39)
    → predict (seed_static_hint p branch_pc expected) branch_pc jump_pc ≡ expected
unfolding predict seed_static_hint index_for
predict-seed_static_hint p branch_pc jump_pc expected forward small =
    let slot = index_for p branch_pc in
    rw
      (
        not_backward jump_pc branch_pc forward,
        update_self p.table slot (hint_entry expected (p.table slot)),
      )
      (hinted (p.table slot) p.history branch_pc jump_pc expected forward small)

-- The bias does not stay at its upper end: at 127 a taken outcome makes it -128, the strongest vote
-- against the branch.
pub train-bias_wraps :
    (p : BranchPredictor) (branch_pc jump_pc : ℕ)
    → (p.table (index_for p branch_pc)).bias ≡ pos 127
    → ((train p branch_pc true jump_pc).table (index_for p branch_pc)).bias ≡ negsuc 127
unfolding train
train-bias_wraps p branch_pc jump_pc h =
    let slot = index_for p branch_pc in
    rw (update_self p.table slot (train_entry true p.history (p.table slot)), h) refl
