-- ===== src/Jit/Optimizer/Tests.antt =====
-- include/jit/bytecode_optimizer.hpp: runs of the optimizer, and the theorems at concrete code.
use munchkinglang.Prelude.{
  ℕ, suc, ◌≤◌, List, [], ◌∷◌, ◌++◌, true, none, some, ◌≡◌, ◌≢◌, refl, arith, length,
}
use munchkinglang.Prelude.Int.{ℤ, pos, ◌+ℤ◌, ◌-ℤ◌, ◌*ℤ◌, div_ℤ, mod_ℤ, neg_ℤ, ltb_ℤ, eqb_ℤ}
use munchkinglang.Mir.Runtime.{i64_add}
use munchkinglang.Jit.Bytecode.Words.{AreBytes}
use munchkinglang.Vm.Value.{int, bool, Host}
use munchkinglang.Vm.Straight.{Frame, execute_rounds}
use munchkinglang.Jit.Pgo.{Run, at_start}
use munchkinglang.Jit.Optimizer.Meaning.{OrdersSmall}
use munchkinglang.Jit.Optimizer.Equivalence.{is_kept_code}
use munchkinglang.Jit.Optimizer.Retarget.Straight.{optimize_bytecode-execute_rounds}
use munchkinglang.Jit.Optimizer.Retarget.{remap_target, optimize_bytecode}
use munchkinglang.Jit.Optimizer.Retarget.Ends.{optimize_bytecode_le}
use munchkinglang.Jit.Optimizer.Profiled.{
  optimize_bytecode_with_profile, optimize_bytecode_with_profile_ends,
}
use munchkinglang.Jit.Optimizer.Retarget.Nearest.{here, there, Nearest, remap_target-Nearest}

-- Integers in place of `double`, and no objects.
abbrev host : Host
host = record {
  Double = ℤ;
  Object = Unit;
  World = Unit;
  of_bits = λ n. pos n;
  of_i64 = λ z. z;
  f_add = λ a b. a +ℤ b;
  f_sub = λ a b. a -ℤ b;
  f_mul = λ a b. a *ℤ b;
  f_div = div_ℤ;
  f_mod = mod_ℤ;
  f_neg = neg_ℤ;
  f_eq = eqb_ℤ;
  f_lt = ltb_ℤ;
  to_display_string = λ v. [];
  equal_objects = λ a b. true;
  object_arithmetic = λ op a b. none;
  other_instruction = λ op operands f. none;
}

abbrev zeros : List ℕ
zeros = 0 ∷ 0 ∷ 0 ∷ 0 ∷ 0 ∷ 0 ∷ 0 ∷ []

abbrev empty_frame : Frame host
empty_frame = record { stack = []; world = tt }

-- PUSH_INT 2, PUSH_INT 3, ADD.
abbrev sum : List ℕ
sum = (0 ∷ 2 ∷ zeros) ++ ((0 ∷ 3 ∷ zeros) ++ (14 ∷ []))

-- Behind it a JMP to its ADD.
abbrev loop : List ℕ
loop = sum ++ (31 ∷ 18 ∷ 0 ∷ 0 ∷ 0 ∷ [])

-- PUSH_BOOL 1, PUSH_INT 5: the Boolean is lost.
abbrev flag_and_number : List ℕ
flag_and_number = 4 ∷ 1 ∷ 0 ∷ 5 ∷ zeros

flag_lost : optimize_bytecode flag_and_number [] ≡ Run.done (0 ∷ 5 ∷ zeros)
unfolding optimize_bytecode
flag_lost = refl

flag_and_number_run :
    execute_rounds host [] 12 (at_start flag_and_number) empty_frame
    ≡ Run.done (record { stack = int (pos 5) ∷ bool true ∷ []; world = tt })
unfolding execute_rounds
flag_and_number_run = refl

-- PUSH_INT 2, PUSH_INT 3, POP: both integers are lost.
abbrev two_and_pop : List ℕ
two_and_pop = (0 ∷ 2 ∷ zeros) ++ ((0 ∷ 3 ∷ zeros) ++ (9 ∷ []))

both_lost : optimize_bytecode two_and_pop [] ≡ Run.done []
unfolding optimize_bytecode
both_lost = refl

two_and_pop_run :
    execute_rounds host [] 20 (at_start two_and_pop) empty_frame
    ≡ Run.done (record { stack = int (pos 2) ∷ []; world = tt })
unfolding execute_rounds
two_and_pop_run = refl

-- The jump goes to the sum, which is folded.
loop_run : optimize_bytecode loop [] ≡ Run.done ((0 ∷ 5 ∷ zeros) ++ (31 ∷ 0 ∷ 0 ∷ 0 ∷ 0 ∷ []))
unfolding optimize_bytecode i64_add ◌+ℤ◌
loop_run = refl

orders_small : OrdersSmall host
orders_small a b ha hb = refl

sum-AreBytes : AreBytes sum
unfolding AreBytes
sum-AreBytes = omega arith

sum-is_kept_code : is_kept_code [] sum ≡ true
unfolding is_kept_code i64_add ◌+ℤ◌
sum-is_kept_code = refl

sum_run :
    execute_rounds host [] (suc (length sum)) (at_start sum) empty_frame
    ≡ Run.done (record { stack = int (pos 5) ∷ []; world = tt })
unfolding execute_rounds i64_add ◌+ℤ◌
sum_run = refl

optimize_bytecode-execute_rounds_example :
    (out : List ℕ) × (optimize_bytecode sum [] ≡ Run.done out)
    × (execute_rounds host [] (suc (length out)) (at_start out) empty_frame
        ≡ Run.done (record { stack = int (pos 5) ∷ []; world = tt }))
optimize_bytecode-execute_rounds_example =
    optimize_bytecode-execute_rounds [] host sum empty_frame
      (record { stack = int (pos 5) ∷ []; world = tt }) orders_small sum-AreBytes sum-is_kept_code
      sum_run

optimize_bytecode_with_profile_ends_example :
    optimize_bytecode_with_profile true loop [] (some []) ≢ Run.unfinished
optimize_bytecode_with_profile_ends_example =
    optimize_bytecode_with_profile_ends true loop [] (some [])

optimize_bytecode_le_example : length ((0 ∷ 5 ∷ zeros) ++ (31 ∷ 0 ∷ 0 ∷ 0 ∷ 0 ∷ [])) ≤ length loop
optimize_bytecode_le_example =
    optimize_bytecode_le loop [] ((0 ∷ 5 ∷ zeros) ++ (31 ∷ 0 ∷ 0 ∷ 0 ∷ 0 ∷ [])) loop_run

abbrev places : List (ℕ × ℕ)
places = (0, 0) ∷ (18, 9) ∷ (30, 12) ∷ []

remap_target-Nearest_example : Nearest places 20 (remap_target places 20)
remap_target-Nearest_example = remap_target-Nearest places 20 18 9 (there here) (omega arith)
