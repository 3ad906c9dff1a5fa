-- ===== src/Vm/Value.antt =====
-- include/vm_value.hpp: values, and what the operators ask of them.
use munchkinglang.Prelude.{
  ℕ, List, [], Bool, true, false, not, ◌&&◌, Option, none, some, ◌==◌, if◌then◌else◌,
}
use munchkinglang.Prelude.Int.{ℤ, pos, eqb_ℤ}
use munchkinglang.Mir.Runtime.{same_bytes}
use munchkinglang.Jit.Bytecode.Opcodes.{Opcode}

-- `object` is any other alternative: an array, a map, an enum member, a handle.
pub data VmValue (D O : Type 0) : Type 0 where
  null : VmValue D O
  int : ℤ → VmValue D O
  float : D → VmValue D O
  bool : Bool → VmValue D O
  char : ℕ → VmValue D O
  string : List ℕ → VmValue D O
  object : O → VmValue D O

-- The operands on the stack, the last pushed first, and all else that an instruction may change.
pub record VmFrame (D O W : Type 0) : Type 0 where
  pub stack : List (VmValue D O)
  pub world : W

-- The C++ compiler's `double`, and whatever the machine does with objects, names and the world:
-- the theorems hold for each.
pub record Host : Type 1 where
  pub Double : Type 0
  pub Object : Type 0
  pub World : Type 0
  pub of_bits : ℕ → Double
  pub of_i64 : ℤ → Double
  pub f_add : Double → Double → Double
  pub f_sub : Double → Double → Double
  pub f_mul : Double → Double → Double
  pub f_div : Double → Double → Double
  pub f_mod : Double → Double → Double
  pub f_neg : Double → Double
  pub f_eq : Double → Double → Bool
  pub f_lt : Double → Double → Bool
  pub to_display_string : VmValue Double Object → List ℕ
  pub equal_objects : Object → Object → Bool
  pub object_arithmetic :
      Opcode → VmValue Double Object → VmValue Double Object → Option (VmValue Double Object)
  pub other_instruction :
      Opcode → List ℕ → VmFrame Double Object World → Option (VmFrame Double Object World)

module _ (h : Host) where
  open h use {Double, Object}

  abbrev pub Value : Type 0
  Value = VmValue Double Object

  unfoldable pub is_truthy : Value → Bool
  is_truthy (bool flag) = flag
  is_truthy (int number) = not (eqb_ℤ number (pos 0))
  is_truthy (float number) = not (h.f_eq number (h.of_i64 (pos 0)))
  is_truthy (string []) = false
  is_truthy (char letter) = not (letter == 0)
  is_truthy null = false
  is_truthy _ = true

  unfoldable pub is_numeric : Value → Bool
  is_numeric (int _) = true
  is_numeric (float _) = true
  is_numeric (bool _) = true
  is_numeric (char _) = true
  is_numeric _ = false

  unfoldable pub is_integral : Value → Bool
  is_integral (int _) = true
  is_integral (bool _) = true
  is_integral (char _) = true
  is_integral _ = false

  -- `as_integer`, less the conversion of a `double`, before which each caller tests `is_integral`.
  unfoldable pub as_integer : Value → Option ℤ
  as_integer (int number) = some number
  as_integer (bool flag) = some (if flag then pos 1 else pos 0)
  as_integer (char letter) = some (pos letter)
  as_integer _ = none

  unfoldable pub as_number : Value → Option Double
  unfolding as_integer
  as_number (float number) = some number
  as_number item = elim (as_integer item) [ none ↦ none | some z ↦ some (h.of_i64 z) ]

  abbrev pub is_null : Value → Bool
  is_null null = true
  is_null _ = false

  unfoldable pub is_string : Value → Bool
  is_string (string _) = true
  is_string _ = false

  -- The cases behind the numbers.
  abbrev pub equal_others : Value → Value → Bool
  equal_others (string text) (string other) = same_bytes text other
  equal_others (object a) (object b) = h.equal_objects a b
  equal_others _ _ = false

  abbrev pub both {ℓ} : {A : Type ℓ} → (A → A → Bool) → Option A → Option A → Bool
  both f (some a) (some b) = f a b
  both f _ _ = false

  unfoldable pub values_equal : Value → Value → Bool
  unfolding is_numeric is_integral as_integer as_number
  values_equal left right =
      if is_null left
      then is_null right
      else if is_null right
      then false
      else if is_numeric left && is_numeric right
      then (if is_integral left && is_integral right
          then both eqb_ℤ (as_integer left) (as_integer right)
          else both h.f_eq (as_number left) (as_number right))
      else equal_others left right
