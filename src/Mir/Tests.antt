-- ===== src/Mir/Tests.antt =====
-- include/native/mir_optimizer.hpp: the optimizer on small functions.
use munchkinglang.Prelude.{ℕ, zero, suc, [], ◌∷◌, true, some, ◌≡◌, refl, arith}
use munchkinglang.Prelude.Int.{ℤ, pos, ◌+ℤ◌, ◌-ℤ◌, ◌*ℤ◌, div_ℤ, neg_ℤ, eqb_ℤ, ltb_ℤ, leb_ℤ}
use munchkinglang.Mir.Instr.{Instr, Opcode, Code, default_instr}
use munchkinglang.Mir.Runtime.{Host, MunxValue, Value, munx_truthy, is_num, munx_as_i64, i64_add}
use munchkinglang.Mir.Runtime.Ops.{runtime_binop, munx_add, is_string, is_f64, on_ints}
use munchkinglang.Mir.Fold.{
  const_fold_at, int_instr, const_fold_function, try_fold_binary, fold_instr,
}
use munchkinglang.Mir.Fold.Exact.{call_binop, Agrees, try_fold_binary-Agrees}
use munchkinglang.Mir.Fold.Denote.{Denotes, constant, computed}
use munchkinglang.Mir.Fold.Denote.Loop.{const_fold_function-Denotes}
use munchkinglang.Mir.Fold.Denote.Branch.{fold_instr-cbr}
use munchkinglang.Mir.Thread.{block_at, jump_thread_function}
use munchkinglang.Mir.Thread.Silent.{TargetsExist}
use munchkinglang.Mir.Dce.{used_values, dce_function, has_side_effect}
use munchkinglang.Mir.Dce.Closure.{Holds, IsClosed, used_values-IsClosed}
use munchkinglang.Mir.Dce.Keeps.{dce_function-Denotes}
use munchkinglang.Mir.Optimize.{optimize_function, optimize_function-Denotes}

-- Doubles that are whole numbers.
abbrev whole : Host
whole = record {
  Double = ℤ;
  of_bits = pos;
  of_i64 = λ z. z;
  to_i64 = some;
  f_add = ◌+ℤ◌;
  f_sub = ◌-ℤ◌;
  f_mul = ◌*ℤ◌;
  f_div = div_ℤ;
  f_neg = neg_ℤ;
  f_eq = eqb_ℤ;
  f_lt = ltb_ℤ;
  f_le = leb_ℤ;
  print_i64 = λ _. [];
}

abbrev nulls : ℕ → Value whole
nulls _ = MunxValue.null

abbrev const_of : ℕ → ℕ → Instr
const_of n i = record default_instr { op = Opcode.const_i64; int = pos n; result = i }

abbrev add_of : Instr
add_of = record default_instr { op = Opcode.add; args = 0 ∷ 1 ∷ []; result = 2 }

abbrev print_of : Instr
print_of = record default_instr { op = Opcode.print; args = 2 ∷ [] }

abbrev label_of : ℕ → Instr
label_of block = record default_instr { op = Opcode.label; block_target = block }

abbrev br_of : ℕ → Instr
br_of block = record default_instr { op = Opcode.br; block_target = block }

-- Prints 2 + 3.
abbrev sum_code : Code
sum_code = const_of 2 0 ∷ const_of 3 1 ∷ add_of ∷ print_of ∷ []

abbrev folded_code : Code
folded_code = const_of 2 0 ∷ const_of 3 1 ∷ const_of 5 2 ∷ print_of ∷ []

-- A jump to a jump to block 2.
abbrev jump_code : Code
jump_code = br_of 1 ∷ label_of 1 ∷ br_of 2 ∷ label_of 2 ∷ []

sum_code_value : Denotes whole nulls nulls sum_code 2 (MunxValue.i64 (pos 5))
unfolding runtime_binop munx_add on_ints is_string is_f64 is_num munx_as_i64 i64_add ◌+ℤ◌
sum_code_value =
    computed add_of 0 1 (MunxValue.i64 (pos 2)) (MunxValue.i64 (pos 3)) refl refl
      (constant (const_of 2 0) refl refl) (constant (const_of 3 1) refl refl) refl

sum_code_folds : const_fold_function sum_code ≡ some folded_code
unfolding const_fold_function const_fold_at try_fold_binary int_instr i64_add ◌+ℤ◌
sum_code_folds = refl

sum_code_optimized : optimize_function sum_code ≡ some folded_code
unfolding optimize_function const_fold_function jump_thread_function dce_function const_fold_at
    try_fold_binary int_instr i64_add ◌+ℤ◌
sum_code_optimized = refl

sum_code_targets : TargetsExist (block_at folded_code) folded_code
sum_code_targets zero x e o = absurd (cc)
sum_code_targets (suc zero) x e o = absurd (cc)
sum_code_targets (suc (suc zero)) x e o = absurd (cc)
sum_code_targets (suc (suc (suc zero))) x e o = absurd (cc)
sum_code_targets (suc (suc (suc (suc i)))) x e o = absurd (cc)

try_fold_binary-Agrees_example :
    Agrees whole nulls
      (try_fold_binary Opcode.add (const_of 2 0) (const_of 3 1))
      (call_binop whole nulls Opcode.add (MunxValue.i64 (pos 2)) (MunxValue.i64 (pos 3)))
try_fold_binary-Agrees_example =
    try_fold_binary-Agrees whole nulls Opcode.add (const_of 2 0) (const_of 3 1) refl refl

const_fold_function-Denotes_example :
    Denotes whole nulls nulls folded_code 2 (MunxValue.i64 (pos 5))
const_fold_function-Denotes_example =
    const_fold_function-Denotes whole nulls nulls sum_code sum_code_folds sum_code_value

used_values-IsClosed_example :
    IsClosed sum_code (used_values sum_code) × Holds (used_values sum_code) 2
unfolding has_side_effect
used_values-IsClosed_example = used_values-IsClosed sum_code 3 print_of 2 refl refl refl

dce_function-Denotes_example :
    Denotes whole nulls nulls (dce_function sum_code) 2 (MunxValue.i64 (pos 5))
unfolding has_side_effect
dce_function-Denotes_example =
    dce_function-Denotes whole nulls nulls sum_code 3 print_of 2 (MunxValue.i64 (pos 5))
      (omega arith) refl refl refl sum_code_value

optimize_function-Denotes_example : Denotes whole nulls nulls folded_code 2 (MunxValue.i64 (pos 5))
unfolding has_side_effect
optimize_function-Denotes_example =
    optimize_function-Denotes whole nulls nulls sum_code folded_code folded_code 3 print_of 2
      (MunxValue.i64 (pos 5)) sum_code_folds sum_code_optimized sum_code_targets (omega arith) refl
      refl refl sum_code_value

-- A conditional jump on the constant true.
abbrev true_of : Instr
true_of = record default_instr { op = Opcode.const_bool; flag = true; result = 0 }

abbrev cbr_of : Instr
cbr_of = record default_instr {
  op = Opcode.cbr;
  block_target = 7;
  block_target_false = 8;
  args = 0 ∷ [];
}

abbrev cbr_code : Code
cbr_code = true_of ∷ cbr_of ∷ []

fold_instr-cbr_example : ((br_of 7).op ≡ Opcode.br) × ((br_of 7).block_target ≡ 7)
unfolding fold_instr munx_truthy
fold_instr-cbr_example =
    fold_instr-cbr whole nulls nulls cbr_code cbr_of (br_of 7) 0 (MunxValue.bool true) refl refl
      (constant true_of refl refl)

-- A conditional jump on the constant true, to a jump to block 2.
abbrev choice_of : Instr
choice_of = record default_instr {
  op = Opcode.cbr;
  block_target = 1;
  block_target_false = 3;
  args = 0 ∷ [];
}

abbrev choice_code : Code
choice_code = true_of ∷ choice_of ∷ label_of 3 ∷ print_of ∷ label_of 1 ∷ br_of 2 ∷ label_of 2 ∷ []

-- The jump that folding decides on, and where it leads in the end.
abbrev taken_of : ℕ → Instr
taken_of block = record (br_of block) { result = 1 }

abbrev decided_code : Code
decided_code = true_of ∷ taken_of 1 ∷ label_of 3 ∷ print_of ∷ label_of 1 ∷ br_of 2 ∷ label_of 2 ∷ []

abbrev threaded_code : Code
threaded_code =
    true_of ∷ taken_of 2 ∷ label_of 3 ∷ print_of ∷ label_of 1 ∷ br_of 2 ∷ label_of 2 ∷ []
