-- ===== src/Vm/Ops.antt =====
-- include/vm.hpp: the operators of the virtual machine. `none` is an error that the machine throws, or
-- a quotient that does not fit, which is undefined behaviour.
use munchkinglang.Prelude.{
  ℕ, zero, suc, ◌+◌, ◌-◌, ◌*◌, ◌/◌, ◌%◌, ◌^◌, List, [], ◌∷◌, ◌++◌, Bool, true, false, not, ◌&&◌,
  ◌||◌, Option, none, some, ltb, ◌==◌, if◌then◌else◌,
}
use munchkinglang.Prelude.Int.{ℤ, pos, eqb_ℤ, to_word, of_word}
use munchkinglang.Mir.Runtime.{i64_add, i64_sub, i64_mul, i64_div, i64_mod, i64_neg}
use munchkinglang.Jit.Bytecode.Opcodes.{Opcode}
use munchkinglang.Vm.Value.{
  int, float, bool, string, Host, Value, is_numeric, is_integral, as_integer, as_number, is_string,
}

-- A bit operation on the lowest `n` bits.
unfoldable pub combine : ℕ → (Bool → Bool → Bool) → ℕ → ℕ → ℕ
combine zero f a b = 0
combine (suc n) f a b =
    (if f (a % 2 == 1) (b % 2 == 1) then 1 else 0) + 2 * combine n f (a / 2) (b / 2)

unfoldable pub bits_ℤ : (Bool → Bool → Bool) → ℤ → ℤ → ℤ
unfolding to_word of_word combine
bits_ℤ f a b = of_word (combine 64 f (to_word a) (to_word b))

abbrev pub xor : Bool → Bool → Bool
xor true b = not b
xor false b = b

unfoldable pub int_bitwise : Opcode → ℤ → ℤ → Option ℤ
unfolding bits_ℤ
int_bitwise Opcode.bitwise_and a b = some (bits_ℤ (λ x y. x && y) a b)
int_bitwise Opcode.bitwise_or a b = some (bits_ℤ (λ x y. x || y) a b)
int_bitwise Opcode.bitwise_xor a b = some (bits_ℤ xor a b)
int_bitwise _ a b = none

-- The integer cases of `binary_arithmetic`: `checked_int_add` and its like throw on overflow.
unfoldable pub int_arithmetic : Opcode → ℤ → ℤ → Option ℤ
int_arithmetic Opcode.add a b = i64_add a b
int_arithmetic Opcode.sub a b = i64_sub a b
int_arithmetic Opcode.mul a b = i64_mul a b
int_arithmetic Opcode.div a b = if eqb_ℤ b (pos 0) then none else i64_div a b
int_arithmetic Opcode.modulo a b = if eqb_ℤ b (pos 0) then none else i64_mod a b
int_arithmetic _ a b = none

abbrev pub lt_bytes : List ℕ → List ℕ → Bool
lt_bytes [] [] = false
lt_bytes [] (y ∷ ys) = true
lt_bytes (x ∷ xs) [] = false
lt_bytes (x ∷ xs) (y ∷ ys) = if ltb x y then true else if ltb y x then false else lt_bytes xs ys

-- `ordering` is below zero, zero or above zero.
pub data Ordering : Type 0 where
  below level above : Ordering

abbrev pub ordering : Bool → Bool → Ordering
ordering less greater =
    if less then Ordering.below else if greater then Ordering.above else Ordering.level

unfoldable pub ordered : Opcode → Ordering → Option Bool
ordered Opcode.lt Ordering.below = some true
ordered Opcode.lt _ = some false
ordered Opcode.gt Ordering.above = some true
ordered Opcode.gt _ = some false
ordered Opcode.le Ordering.above = some false
ordered Opcode.le _ = some true
ordered Opcode.ge Ordering.below = some false
ordered Opcode.ge _ = some true
ordered _ o = none

module _ (h : Host) where
  open h use {Double}

  unfoldable pub float_arithmetic : Opcode → Double → Double → Option Double
  float_arithmetic Opcode.add a b = some (h.f_add a b)
  float_arithmetic Opcode.sub a b = some (h.f_sub a b)
  float_arithmetic Opcode.mul a b = some (h.f_mul a b)
  float_arithmetic Opcode.div a b = if h.f_eq b (h.of_i64 (pos 0)) then none else some (h.f_div a b)
  float_arithmetic Opcode.modulo a b =
      if h.f_eq b (h.of_i64 (pos 0)) then none else some (h.f_mod a b)
  float_arithmetic _ a b = none

  abbrev pub is_add : Opcode → Bool
  is_add Opcode.add = true
  is_add _ = false

  abbrev pub as_int : Option ℤ → Option (Value h)
  as_int none = none
  as_int (some z) = some (int z)

  abbrev pub as_float : Option Double → Option (Value h)
  as_float none = none
  as_float (some d) = some (float d)

  abbrev pub as_bool : Option Bool → Option (Value h)
  as_bool none = none
  as_bool (some b) = some (bool b)

  -- A step on two numbers that the guards have found.
  abbrev pub on_both {ℓ κ} :
      {A : Type ℓ} {B : Type κ} → (A → A → Option B) → Option A → Option A → Option B
  on_both f (some a) (some b) = f a b
  on_both f _ _ = none

  -- Of the operands that are not both numbers only text is spelt out.
  unfoldable pub binary_arithmetic : Opcode → Value h → Value h → Option (Value h)
  unfolding is_string is_numeric is_integral as_integer as_number int_arithmetic float_arithmetic
  binary_arithmetic op left right =
      if is_add op && (is_string h left || is_string h right)
      then some (string (h.to_display_string left ++ h.to_display_string right))
      else if is_numeric h left && is_numeric h right
      then (if is_integral h left && is_integral h right
          then as_int (on_both (int_arithmetic op) (as_integer h left) (as_integer h right))
          else as_float (on_both (float_arithmetic op) (as_number h left) (as_number h right)))
      else h.object_arithmetic op left right

  abbrev pub number_ordering : Double → Double → Option Ordering
  number_ordering a b = some (ordering (h.f_lt a b) (h.f_lt b a))

  -- Neither operand a number, or one alone.
  abbrev pub text_ordering : Value h → Value h → Option Ordering
  text_ordering (string a) (string b) = some (ordering (lt_bytes a b) (lt_bytes b a))
  text_ordering _ _ = none

  -- Two numbers are ordered as `double`, integers too.
  unfoldable pub compare : Opcode → Value h → Value h → Option (Value h)
  unfolding is_numeric as_number ordered
  compare op left right =
      elim (if is_numeric h left && is_numeric h right
        then on_both number_ordering (as_number h left) (as_number h right)
        else text_ordering left right) [ none ↦ none | some o ↦ as_bool (ordered op o) ]

  unfoldable pub bitwise : Opcode → Value h → Value h → Option (Value h)
  unfolding is_integral as_integer int_bitwise
  bitwise op left right =
      if is_integral h left && is_integral h right
      then as_int (on_both (int_bitwise op) (as_integer h left) (as_integer h right))
      else none

  unfoldable pub negated : Value h → Option (Value h)
  unfolding is_integral as_integer as_number
  negated operand =
      if is_integral h operand
      then elim (as_integer h operand) [ none ↦ none | some z ↦ as_int (i64_neg z) ]
      else elim (as_number h operand) [ none ↦ none | some d ↦ some (float (h.f_neg d)) ]

  -- `~`, which is -1 - z.
  unfoldable pub complement : Value h → Option (Value h)
  unfolding is_integral as_integer to_word of_word
  complement operand =
      if is_integral h operand
      then (elim (as_integer h operand) [
        | none ↦ none
        | some z ↦ some (int (of_word (2 ^ 64 - 1 - to_word z)))
      ])
      else none
