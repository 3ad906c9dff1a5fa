-- ===== src/Mir/Fold/Exact.antt =====
-- include/native/mir_optimizer.hpp against native/runtime/munx_value.c: what a fold computes at
-- compile time is what the emitted call computes at run time.
use mathlib.Core.Bool.{not}
use mathlib.Core.Option.{some-injective}
use mathlib.Core.Path.{subst, subst₂}
use munchkinglang.Prelude.{
  ℕ, Bool, true, false, Option, none, some, ◌>>=◌, ◌≡◌, refl, if◌then◌else◌,
}
use munchkinglang.Prelude.Int.{ℤ, pos, eqb_ℤ}
use munchkinglang.Mir.Instr.{Instr, Opcode}
use munchkinglang.Mir.Runtime.{
  Host, MunxValue, Value, i64_add, i64_sub, i64_mul, i64_div, i64_mod, i64_neg, is_num, munx_as_i64,
  munx_truthy,
}
use munchkinglang.Mir.Runtime.Ops.{
  runtime_binop, munx_neg, munx_not, munx_add, munx_sub, munx_mul, munx_div, munx_mod, munx_eq,
  munx_ne, munx_lt, munx_gt, munx_le, munx_ge,
}
use munchkinglang.Mir.Fold.{
  Folding, folded, kept, undefined, int_instr, bool_instr, fold_ints, fold_flags, fold_consts,
  try_fold_binary, fold_neg, fold_not,
}

-- The value that `emit_function` of include/native/custom/c_emitter.hpp assigns for a constant.
-- `strings` holds the values of the string table.
module _ (h : Host) (strings : ℕ → Value h) where
  abbrev pub const_value_of : Opcode → Instr → Option (Value h)
  const_value_of Opcode.const_i64 x = some (MunxValue.i64 x.int)
  const_value_of Opcode.const_f64 x = some (MunxValue.f64 (h.of_bits x.float_bits))
  const_value_of Opcode.const_bool x = some (MunxValue.bool x.flag)
  const_value_of Opcode.const_null x = some MunxValue.null
  const_value_of Opcode.const_str x = some (strings x.str_index)
  const_value_of _ x = none

  abbrev pub const_value : Instr → Option (Value h)
  const_value x = const_value_of x.op x

  -- The call that `emit_function` writes for an operator of two arguments.
  abbrev pub call_binop : Opcode → Value h → Value h → Option (Value h)
  call_binop op a b = elim (runtime_binop h op) [ none ↦ none | some f ↦ f a b ]

  -- What a fold promises of the value that the instruction had.
  abbrev pub Agrees : Folding → Option (Value h) → Type 0
  Agrees (folded x) v = v ≡ const_value x
  Agrees kept v = Unit
  Agrees undefined v = v ≡ none

  int_instr-Agrees : (o : Option ℤ) → Agrees (int_instr o) (o >>= λ z. some (MunxValue.i64 z))
  unfolding int_instr
  int_instr-Agrees none = refl
  int_instr-Agrees (some z) = refl

  -- A zero divisor is left to the runtime, which aborts.
  divided-Agrees :
      (zero_divisor : Bool) (o : Option ℤ)
      → Agrees
          (if zero_divisor then kept else int_instr o)
          (if zero_divisor then none else (o >>= λ z. some (MunxValue.i64 z)))
  divided-Agrees true o = tt
  divided-Agrees false o = int_instr-Agrees o

  ints-Agrees :
      (op : Opcode) (a b : ℤ)
      → Agrees (fold_ints op a b) (call_binop op (MunxValue.i64 a) (MunxValue.i64 b))
  unfolding fold_ints bool_instr runtime_binop munx_add munx_sub munx_mul munx_div munx_mod munx_eq
      munx_ne munx_lt munx_gt munx_le munx_ge is_num munx_as_i64 munx_truthy
  ints-Agrees Opcode.add a b = int_instr-Agrees (i64_add a b)
  ints-Agrees Opcode.sub a b = int_instr-Agrees (i64_sub a b)
  ints-Agrees Opcode.mul a b = int_instr-Agrees (i64_mul a b)
  ints-Agrees Opcode.div a b = divided-Agrees (eqb_ℤ b (pos 0)) (i64_div a b)
  ints-Agrees Opcode.mod_ a b = divided-Agrees (eqb_ℤ b (pos 0)) (i64_mod a b)
  ints-Agrees Opcode.eq a b = refl
  ints-Agrees Opcode.ne a b = refl
  ints-Agrees Opcode.lt a b = refl
  ints-Agrees Opcode.gt a b = refl
  ints-Agrees Opcode.le a b = refl
  ints-Agrees Opcode.ge a b = refl
  ints-Agrees op a b = tt

  flags-Agrees :
      (op : Opcode) (a b : Bool)
      → Agrees (fold_flags op a b) (call_binop op (MunxValue.bool a) (MunxValue.bool b))
  unfolding fold_flags bool_instr runtime_binop munx_eq munx_ne is_num munx_as_i64 munx_truthy
  flags-Agrees Opcode.eq true true = refl
  flags-Agrees Opcode.eq true false = refl
  flags-Agrees Opcode.eq false true = refl
  flags-Agrees Opcode.eq false false = refl
  flags-Agrees Opcode.ne true true = refl
  flags-Agrees Opcode.ne true false = refl
  flags-Agrees Opcode.ne false true = refl
  flags-Agrees Opcode.ne false false = refl
  flags-Agrees op a b = tt

  consts-Agrees :
      (op lo ro : Opcode) (l r : Instr) {u w : Value h}
      → const_value_of lo l ≡ some u
      → const_value_of ro r ≡ some w
      → Agrees (fold_consts op lo ro l r) (call_binop op u w)
  unfolding fold_consts
  consts-Agrees op Opcode.const_i64 Opcode.const_i64 l r p q =
      subst₂ (λ u w. Agrees (fold_ints op l.int r.int) (call_binop op u w)) (some-injective _ _ p)
        (some-injective _ _ q) (ints-Agrees op l.int r.int)
  consts-Agrees op Opcode.const_bool Opcode.const_bool l r p q =
      subst₂ (λ u w. Agrees (fold_flags op l.flag r.flag) (call_binop op u w))
        (some-injective _ _ p) (some-injective _ _ q) (flags-Agrees op l.flag r.flag)
  consts-Agrees op lo ro l r p q = tt

  -- Folding an operator on two constants gives the constant that the runtime's operator gives on
  -- their values, for every operator; it meets undefined behaviour only where the runtime's
  -- operator does, or aborts.
  pub try_fold_binary-Agrees :
      (op : Opcode) (l r : Instr) {u w : Value h}
      → const_value l ≡ some u
      → const_value r ≡ some w
      → Agrees (try_fold_binary op l r) (call_binop op u w)
  unfolding try_fold_binary
  try_fold_binary-Agrees op l r p q = consts-Agrees op l.op r.op l r p q

  neg-Agrees_of :
      (o : Opcode) (a : Instr) {u : Value h}
      → const_value_of o a ≡ some u
      → Agrees (fold_neg o a) (munx_neg h u)
  unfolding fold_neg munx_neg munx_as_i64
  neg-Agrees_of Opcode.const_i64 a p =
      subst (λ u. Agrees (int_instr (i64_neg a.int)) (munx_neg h u)) (some-injective _ _ p)
        (int_instr-Agrees (i64_neg a.int))
  neg-Agrees_of o a p = tt

  pub fold_neg-Agrees :
      (a : Instr) {u : Value h} → const_value a ≡ some u → Agrees (fold_neg a.op a) (munx_neg h u)
  fold_neg-Agrees a = neg-Agrees_of a.op a

  not-Agrees_of :
      (o : Opcode) (a : Instr) {u : Value h}
      → const_value_of o a ≡ some u
      → Agrees (fold_not o a) (some (munx_not h u))
  unfolding fold_not bool_instr munx_not munx_truthy
  not-Agrees_of Opcode.const_bool a p =
      subst (λ u. some (munx_not h u) ≡ some (MunxValue.bool (not a.flag))) (some-injective _ _ p)
        refl
  not-Agrees_of o a p = tt

  pub fold_not-Agrees :
      (a : Instr) {u : Value h}
      → const_value a ≡ some u
      → Agrees (fold_not a.op a) (some (munx_not h u))
  fold_not-Agrees a = not-Agrees_of a.op a
