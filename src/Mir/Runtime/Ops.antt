-- ===== src/Mir/Runtime/Ops.antt =====
-- native/runtime/munx_value.c: the operators `munx_add` to `munx_ge`.
use mathlib.Core.Bool.{◌&&◌, ◌||◌, not}
use munchkinglang.Prelude.{
  ℕ, List, ◌++◌, Bool, true, false, Option, none, some, ◌>>=◌, if◌then◌else◌,
}
use munchkinglang.Prelude.Int.{ℤ, pos, ltb_ℤ, leb_ℤ, eqb_ℤ}
use munchkinglang.Mir.Runtime.{
  Host, null, i64, f64, bool, string, Value, i64_add, i64_sub, i64_mul, i64_div, i64_mod, i64_neg,
  same_bytes, is_num, as_f64, munx_as_i64, munx_truthy,
}
use munchkinglang.Mir.Instr.{Opcode}

module _ (h : Host) where
  open h use {Double}

  unfoldable pub is_string : Value h → Bool
  is_string (string _) = true
  is_string _ = false

  unfoldable pub is_f64 : Value h → Bool
  is_f64 (f64 _) = true
  is_f64 _ = false

  unfoldable pub is_null : Value h → Bool
  is_null null = true
  is_null _ = false

  -- What `munx_add` writes for an operand beside a string.
  unfoldable pub concat_text : Value h → Option (List ℕ)
  concat_text (string s) = some s
  concat_text (i64 a) = some (h.print_i64 a)
  concat_text _ = none

  unfoldable pub on_doubles : (Double → Double → Value h) → Value h → Value h → Option (Value h)
  on_doubles f a b = do x ← as_f64 h a; y ← as_f64 h b; some (f x y)

  unfoldable pub on_ints : (ℤ → ℤ → Option (Value h)) → Value h → Value h → Option (Value h)
  on_ints f a b = do x ← munx_as_i64 h a; y ← munx_as_i64 h b; f x y

  -- The integer result of an operation that may overflow.
  abbrev pub boxed : (ℤ → ℤ → Option ℤ) → ℤ → ℤ → Option (Value h)
  boxed f x y = do z ← f x y; some (i64 z)

  unfoldable pub munx_add : Value h → Value h → Option (Value h)
  unfolding is_string is_f64 concat_text on_doubles on_ints
  munx_add a b =
      if is_string a || is_string b
      then (do sa ← concat_text a; sb ← concat_text b; some (string (sa ++ sb)))
      else (if is_f64 a || is_f64 b
          then on_doubles (λ x y. f64 (h.f_add x y)) a b
          else on_ints (boxed i64_add) a b)

  unfoldable pub munx_sub : Value h → Value h → Option (Value h)
  unfolding is_f64 on_doubles on_ints
  munx_sub a b =
      if is_f64 a || is_f64 b
      then on_doubles (λ x y. f64 (h.f_sub x y)) a b
      else on_ints (boxed i64_sub) a b

  unfoldable pub munx_mul : Value h → Value h → Option (Value h)
  unfolding is_f64 on_doubles on_ints
  munx_mul a b =
      if is_f64 a || is_f64 b
      then on_doubles (λ x y. f64 (h.f_mul x y)) a b
      else on_ints (boxed i64_mul) a b

  -- A zero divisor aborts.
  unfoldable pub div_doubles : Double → Value h → Option (Value h)
  div_doubles d a =
      if h.f_eq d (h.of_i64 (pos 0)) then none else (do x ← as_f64 h a; some (f64 (h.f_div x d)))

  unfoldable pub munx_div : Value h → Value h → Option (Value h)
  unfolding is_f64 on_ints div_doubles
  munx_div a b =
      if is_f64 a || is_f64 b
      then (do d ← as_f64 h b; div_doubles d a)
      else on_ints (λ x d. if eqb_ℤ d (pos 0) then none else boxed i64_div x d) a b

  unfoldable pub munx_mod : Value h → Value h → Option (Value h)
  unfolding on_ints
  munx_mod a b = on_ints (λ x d. if eqb_ℤ d (pos 0) then none else boxed i64_mod x d) a b

  unfoldable pub munx_neg : Value h → Option (Value h)
  munx_neg (f64 d) = some (f64 (h.f_neg d))
  munx_neg a = do x ← munx_as_i64 h a; z ← i64_neg x; some (i64 z)

  unfoldable pub munx_not : Value h → Value h
  munx_not a = bool (not (munx_truthy h a))

  unfoldable pub munx_eq : Value h → Value h → Option (Value h)
  unfolding is_f64 is_null on_doubles on_ints
  munx_eq (string s) (string t) = some (bool (same_bytes s t))
  munx_eq a b =
      if is_num h a && is_num h b
      then (if is_f64 a || is_f64 b
          then on_doubles (λ x y. bool (h.f_eq x y)) a b
          else on_ints (λ x y. some (bool (eqb_ℤ x y))) a b)
      else some (bool (is_null a && is_null b))

  unfoldable pub munx_ne : Value h → Value h → Option (Value h)
  unfolding munx_eq
  munx_ne a b = do e ← munx_eq a b; some (bool (not (munx_truthy h e)))

  -- The four orders differ in the tests alone.
  unfoldable pub munx_order :
      (Double → Double → Bool) → (ℤ → ℤ → Bool) → Value h → Value h → Option (Value h)
  unfolding is_f64 on_doubles on_ints
  munx_order f g a b =
      if is_f64 a || is_f64 b
      then on_doubles (λ x y. bool (f x y)) a b
      else on_ints (λ x y. some (bool (g x y))) a b

  unfoldable pub munx_lt : Value h → Value h → Option (Value h)
  unfolding munx_order
  munx_lt = munx_order h.f_lt ltb_ℤ

  unfoldable pub munx_gt : Value h → Value h → Option (Value h)
  unfolding munx_order
  munx_gt = munx_order (λ x y. h.f_lt y x) (λ x y. ltb_ℤ y x)

  unfoldable pub munx_le : Value h → Value h → Option (Value h)
  unfolding munx_order
  munx_le = munx_order h.f_le leb_ℤ

  unfoldable pub munx_ge : Value h → Value h → Option (Value h)
  unfolding munx_order
  munx_ge = munx_order (λ x y. h.f_le y x) (λ x y. leb_ℤ y x)

  -- `runtime_binop` of include/native/custom/c_emitter.hpp: the operation that an opcode calls.
  unfoldable pub runtime_binop : Opcode → Option (Value h → Value h → Option (Value h))
  runtime_binop Opcode.add = some munx_add
  runtime_binop Opcode.sub = some munx_sub
  runtime_binop Opcode.mul = some munx_mul
  runtime_binop Opcode.div = some munx_div
  runtime_binop Opcode.mod_ = some munx_mod
  runtime_binop Opcode.eq = some munx_eq
  runtime_binop Opcode.ne = some munx_ne
  runtime_binop Opcode.lt = some munx_lt
  runtime_binop Opcode.gt = some munx_gt
  runtime_binop Opcode.le = some munx_le
  runtime_binop Opcode.ge = some munx_ge
  runtime_binop _ = none
