-- ===== src/Jit/Predictor.antt =====
-- include/jit/branch_predictor.hpp: a perceptron, a two-bit counter and a table for loops. The arrays
-- are functions of an index that is always masked to their size.
pub mod Valid
pub mod Loops
pub mod Hints
use Prim.Native.Nat.{bit_xor}
use mathlib.Core.Bool.{◌&&◌, not}
use munchkinglang.Prelude.{
  ℕ, zero, suc, ◌+◌, ◌-◌, ◌*◌, ◌/◌, ◌%◌, ◌^◌, List, [], ◌∷◌, Bool, true, false, ltb, leb, ◌==◌,
  if◌then◌else◌,
}
use munchkinglang.Prelude.Int.{ℤ, pos, negsuc, pos_part, neg_part, sub_ℕ, ◌+ℤ◌, ltb_ℤ, leb_ℤ}
use munchkinglang.Jit.Profile.{BranchProfile, Sites, total, strongly_taken, strongly_not_taken}

-- The conversion to int8_t.
unfoldable pub to_i8 : ℤ → ℤ
to_i8 z = sub_ℕ ((pos_part z + 128 + 255 * neg_part z) % 256) 128

-- `bias` and `weights` are int8_t, `counter` and `warmup` uint8_t.
pub record Entry : Type 0 where
  pub bias : ℤ
  pub weights : List ℤ
  pub counter : ℕ
  pub warmup : ℕ

-- `entry{}`, with its `history_bits` weights.
abbrev pub zero_weights : ℕ → List ℤ
zero_weights zero = []
zero_weights (suc n) = pos 0 ∷ zero_weights n

abbrev pub empty_entry : Entry
empty_entry = record { bias = pos 0; weights = zero_weights 12; counter = 1; warmup = 0 }

pub record BranchPredictor : Type 0 where
  pub table : ℕ → Entry
  pub back_edge_table : ℕ → ℕ
  pub local_history : ℕ → ℕ
  pub history : ℕ

abbrev pub fresh : BranchPredictor
fresh = record {
  table = λ _. empty_entry;
  back_edge_table = λ _. 0;
  local_history = λ _. 0;
  history = 0;
}

abbrev pub update {ℓ} : {A : Type ℓ} → (ℕ → A) → ℕ → A → ℕ → A
update f i v j = if i == j then v else f j

unfoldable pub back_edge_index : ℕ → ℕ
back_edge_index branch_pc = branch_pc / 16 % 256

unfoldable pub index_for : BranchPredictor → ℕ → ℕ
index_for p branch_pc =
    bit_xor (bit_xor (branch_pc / 4) p.history) (p.local_history (branch_pc % 256) * 16) % 4096

-- The loop of `predict` over the bits of the history.
unfoldable pub perceptron : List ℤ → ℕ → ℤ → ℤ
perceptron [] history sum = sum
perceptron (w ∷ ws) history sum =
    perceptron ws (history / 2) (if history % 2 == 1 then sum +ℤ w else sum)

-- `predict` from the table entry on.
unfoldable pub predict_entry : Entry → ℤ → ℕ → ℕ → Bool
predict_entry slot sum branch_pc jump_pc =
    if leb_ℤ (pos 8) sum
    then true
    else (if leb_ℤ sum (negsuc 7)
        then false
        else (if ltb slot.warmup 4 && ltb jump_pc branch_pc
            then true
            else (if ltb slot.warmup 4 && ltb branch_pc jump_pc
                then false
                else leb 2 slot.counter)))

unfoldable pub predict : BranchPredictor → ℕ → ℕ → Bool
predict p branch_pc jump_pc =
    let slot = p.table (index_for p branch_pc) in
    let from_entry =
      predict_entry slot (perceptron slot.weights p.history slot.bias) branch_pc jump_pc in
    let loop_counter = p.back_edge_table (back_edge_index branch_pc) in
    if ltb jump_pc branch_pc
    then (if leb 2 loop_counter then true else (if loop_counter == 1 then false else from_entry))
    else from_entry

-- A counter that stays between 0 and 3.
unfoldable pub saturate : Bool → ℕ → ℕ
saturate taken n = if taken then (if ltb n 3 then n + 1 else n) else n - 1

abbrev pub direction : Bool → ℤ
direction taken = if taken then pos 1 else negsuc 0

-- The tests that follow the addition come after the conversion to int8_t.
unfoldable pub add_direction : Bool → ℤ → ℤ
unfolding to_i8 ◌+ℤ◌
add_direction taken w =
    let sum = to_i8 (w +ℤ direction taken) in
    if ltb_ℤ (pos 127) sum then pos 127 else (if ltb_ℤ sum (negsuc 127) then negsuc 127 else sum)

unfoldable pub train_weights : Bool → List ℤ → ℕ → List ℤ
unfolding add_direction
train_weights taken [] history = []
train_weights taken (w ∷ ws) history =
    (if history % 2 == 1 then add_direction taken w else w) ∷ train_weights taken ws (history / 2)

unfoldable pub train_entry : Bool → ℕ → Entry → Entry
unfolding add_direction saturate train_weights
train_entry taken history slot = record {
  bias = add_direction taken slot.bias;
  weights = train_weights taken slot.weights history;
  counter = saturate taken slot.counter;
  warmup = if ltb slot.warmup 255 then slot.warmup + 1 else slot.warmup;
}

abbrev pub taken_bit : Bool → ℕ
taken_bit taken = if taken then 1 else 0

unfoldable pub train : BranchPredictor → ℕ → Bool → ℕ → BranchPredictor
unfolding train_entry saturate
train p branch_pc taken jump_pc =
    let edge = back_edge_index branch_pc in
    let slot = index_for p branch_pc in
    let site = branch_pc % 256 in
    record {
      back_edge_table =
          if ltb jump_pc branch_pc
          then update p.back_edge_table edge (saturate taken (p.back_edge_table edge))
          else p.back_edge_table;
      table = update p.table slot (train_entry taken p.history (p.table slot));
      local_history =
          update p.local_history site ((p.local_history site * 2 + taken_bit taken) % 256);
      history = (p.history * 2 + taken_bit taken) % 4096;
    }

unfoldable pub hint_entry : Bool → Entry → Entry
hint_entry expected slot =
    if expected
    then record slot { counter = 3; bias = pos 32; warmup = 255 }
    else record slot { counter = 0; bias = negsuc 31; warmup = 255 }

unfoldable pub seed_static_hint : BranchPredictor → ℕ → Bool → BranchPredictor
unfolding hint_entry
seed_static_hint p branch_pc expected =
    let slot = index_for p branch_pc in
    record p { table = update p.table slot (hint_entry expected (p.table slot)) }

unfoldable pub train_rounds : ℕ → ℕ → Bool → BranchPredictor → BranchPredictor
unfolding train
train_rounds zero branch_pc taken p = p
train_rounds (suc n) branch_pc taken p =
    train_rounds n branch_pc taken (train p branch_pc taken branch_pc)

unfoldable pub profile_entry : BranchProfile → Entry → Entry
profile_entry site slot =
    if strongly_taken site
    then record slot { counter = 3; bias = pos 32; warmup = 255 }
    else (if strongly_not_taken site
        then record slot { counter = 0; bias = negsuc 31; warmup = 255 }
        else record slot { warmup = 255 })

unfoldable pub seed_site : BranchPredictor → ℕ → BranchProfile → BranchPredictor
unfolding train_rounds profile_entry
seed_site p branch_pc site =
    let n = total site in
    let rounds : ℕ = if leb 64 n then 6 else (if leb 16 n then 4 else 2) in
    let trained = train_rounds rounds branch_pc (leb site.not_taken site.taken) p in
    let slot = index_for trained branch_pc in
    if n == 0 then p else record trained {
      table = update trained.table slot (profile_entry site (trained.table slot));
    }

-- The sites in the order in which the hash map yields them.
unfoldable pub seed_from_profile : Sites → BranchPredictor → BranchPredictor
unfolding seed_site
seed_from_profile [] p = p
seed_from_profile ((pc, site) ∷ rest) p = seed_from_profile rest (seed_site p pc site)
