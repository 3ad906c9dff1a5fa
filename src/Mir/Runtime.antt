-- ===== src/Mir/Runtime.antt =====
-- native/runtime/munx_value.c: tagged values and the operations that emitted code calls. `none` is
-- `munx_rt_abort`, or undefined behaviour (signed overflow of int64_t).
pub mod Ops
pub mod Bytes
use mathlib.Core.Bool.{◌&&◌, not}
use munchkinglang.Prelude.{
  ℕ, ◌-◌, ◌^◌, List, [], ◌∷◌, Bool, true, false, Option, none, some, leb, ◌==◌, if◌then◌else◌,
}
use munchkinglang.Prelude.Int.{
  ℤ, pos, pos_part, neg_part, ◌+ℤ◌, ◌-ℤ◌, ◌*ℤ◌, div_ℤ, mod_ℤ, neg_ℤ, ltb_ℤ, leb_ℤ, eqb_ℤ,
}

-- The C compiler's `double` and the C library's number printing, which the runtime relies on.
pub record Host : Type 1 where
  pub Double : Type 0
  pub of_bits : ℕ → Double
  pub of_i64 : ℤ → Double
  pub to_i64 : Double → Option ℤ
  pub f_add : Double → Double → Double
  pub f_sub : Double → Double → Double
  pub f_mul : Double → Double → Double
  pub f_div : Double → Double → Double
  pub f_neg : Double → Double
  pub f_eq : Double → Double → Bool
  pub f_lt : Double → Double → Bool
  pub f_le : Double → Double → Bool
  pub print_i64 : ℤ → List ℕ

-- `handle` is any other heap object: a pointer that no operation here looks behind.
pub data MunxValue (D : Type 0) : Type 0 where
  null : MunxValue D
  i64 : ℤ → MunxValue D
  f64 : D → MunxValue D
  bool : Bool → MunxValue D
  char : ℕ → MunxValue D
  string : List ℕ → MunxValue D
  handle : ℕ → MunxValue D

abbrev pub in_i64 : ℤ → Bool
in_i64 a = leb (pos_part a) (2 ^ 63 - 1) && leb (neg_part a) (2 ^ 63)

-- int64_t arithmetic: `none` where the true result does not fit.
unfoldable pub i64_add : ℤ → ℤ → Option ℤ
i64_add a b = if in_i64 (a +ℤ b) then some (a +ℤ b) else none

unfoldable pub i64_sub : ℤ → ℤ → Option ℤ
i64_sub a b = if in_i64 (a -ℤ b) then some (a -ℤ b) else none

unfoldable pub i64_mul : ℤ → ℤ → Option ℤ
i64_mul a b = if in_i64 (a *ℤ b) then some (a *ℤ b) else none

unfoldable pub i64_div : ℤ → ℤ → Option ℤ
i64_div a b = if in_i64 (div_ℤ a b) then some (div_ℤ a b) else none

unfoldable pub i64_mod : ℤ → ℤ → Option ℤ
i64_mod a b = if in_i64 (div_ℤ a b) then some (mod_ℤ a b) else none

unfoldable pub i64_neg : ℤ → Option ℤ
i64_neg a = if in_i64 (neg_ℤ a) then some (neg_ℤ a) else none

-- `strcmp(s, t) == 0`
unfoldable pub same_bytes : List ℕ → List ℕ → Bool
same_bytes [] [] = true
same_bytes (x ∷ xs) (y ∷ ys) = x == y && same_bytes xs ys
same_bytes _ _ = false

module _ (h : Host) where
  open h use {Double}

  abbrev pub Value : Type 0
  Value = MunxValue Double

  unfoldable pub is_num : Value → Bool
  is_num (i64 _) = true
  is_num (f64 _) = true
  is_num (bool _) = true
  is_num (char _) = true
  is_num _ = false

  unfoldable pub as_f64 : Value → Option Double
  as_f64 (i64 a) = some (h.of_i64 a)
  as_f64 (f64 d) = some d
  as_f64 (bool b) = some (h.of_i64 (if b then pos 1 else pos 0))
  as_f64 (char c) = some (h.of_i64 (pos c))
  as_f64 _ = none

  unfoldable pub munx_as_i64 : Value → Option ℤ
  munx_as_i64 (i64 a) = some a
  munx_as_i64 (f64 d) = h.to_i64 d
  munx_as_i64 (bool b) = some (if b then pos 1 else pos 0)
  munx_as_i64 (char c) = some (pos c)
  munx_as_i64 _ = none

  unfoldable pub munx_truthy : Value → Bool
  munx_truthy null = false
  munx_truthy (bool b) = b
  munx_truthy (i64 a) = not (eqb_ℤ a (pos 0))
  munx_truthy (f64 d) = not (h.f_eq d (h.of_i64 (pos 0)))
  munx_truthy (char c) = not (c == 0)
  munx_truthy (string []) = false
  munx_truthy (string _) = true
  munx_truthy (handle _) = true
