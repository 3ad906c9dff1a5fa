-- ===== src/Mir/Fold.antt =====
-- include/native/mir_optimizer.hpp: constant folding of one function's code.
pub mod Exact
pub mod Denote
pub mod Works
use mathlib.Core.Bool.{◌&&◌, not}
use munchkinglang.Prelude.{
  ℕ, zero, suc, ◌+◌, ◌%◌, ◌^◌, List, [], ◌∷◌, Bool, true, false, Option, none, some, ◌>>=◌, ◌==◌,
  if◌then◌else◌, length, get_elem?, set,
}
use munchkinglang.Prelude.Int.{ℤ, pos, ltb_ℤ, leb_ℤ, eqb_ℤ}
use munchkinglang.Mir.Instr.{Instr, Opcode, MirType, Code, default_instr}
use munchkinglang.Mir.Runtime.{i64_add, i64_sub, i64_mul, i64_div, i64_mod, i64_neg}

unfoldable pub is_const : Opcode → Bool
is_const Opcode.const_i64 = true
is_const Opcode.const_f64 = true
is_const Opcode.const_bool = true
is_const Opcode.const_null = true
is_const Opcode.const_str = true
is_const _ = false

-- What an attempt to fold gives. `undefined` is the undefined behaviour of an int64_t operation
-- whose true result does not fit.
pub data Folding : Type 0 where
  folded : Instr → Folding
  kept : Folding
  undefined : Folding

unfoldable pub int_instr : Option ℤ → Folding
int_instr none = undefined
int_instr (some z) = folded (record default_instr { op = Opcode.const_i64; int = z })

unfoldable pub bool_instr : Bool → Folding
bool_instr b = folded (record default_instr { op = Opcode.const_bool; flag = b })

-- The first `switch` of `try_fold_binary`, for two integer constants.
unfoldable pub fold_ints : Opcode → ℤ → ℤ → Folding
fold_ints Opcode.add a b = int_instr (i64_add a b)
fold_ints Opcode.sub a b = int_instr (i64_sub a b)
fold_ints Opcode.mul a b = int_instr (i64_mul a b)
fold_ints Opcode.div a b = if eqb_ℤ b (pos 0) then kept else int_instr (i64_div a b)
fold_ints Opcode.mod_ a b = if eqb_ℤ b (pos 0) then kept else int_instr (i64_mod a b)
fold_ints Opcode.eq a b = bool_instr (eqb_ℤ a b)
fold_ints Opcode.ne a b = bool_instr (not (eqb_ℤ a b))
fold_ints Opcode.lt a b = bool_instr (ltb_ℤ a b)
fold_ints Opcode.gt a b = bool_instr (ltb_ℤ b a)
fold_ints Opcode.le a b = bool_instr (leb_ℤ a b)
fold_ints Opcode.ge a b = bool_instr (leb_ℤ b a)
fold_ints _ a b = kept

abbrev pub same_flag : Bool → Bool → Bool
same_flag true b = b
same_flag false b = not b

unfoldable pub fold_flags : Opcode → Bool → Bool → Folding
fold_flags Opcode.eq a b = bool_instr (same_flag a b)
fold_flags Opcode.ne a b = bool_instr (not (same_flag a b))
fold_flags _ a b = kept

unfoldable pub fold_consts : Opcode → Opcode → Opcode → Instr → Instr → Folding
unfolding fold_ints fold_flags
fold_consts op Opcode.const_i64 Opcode.const_i64 l r = fold_ints op l.int r.int
fold_consts op Opcode.const_bool Opcode.const_bool l r = fold_flags op l.flag r.flag
fold_consts op _ _ l r = kept

unfoldable pub try_fold_binary : Opcode → Instr → Instr → Folding
unfolding fold_consts
try_fold_binary op l r = fold_consts op l.op r.op l r

unfoldable pub fold_neg : Opcode → Instr → Folding
fold_neg Opcode.const_i64 a = int_instr (i64_neg a.int)
fold_neg _ a = kept

unfoldable pub fold_not : Opcode → Instr → Folding
fold_not Opcode.const_bool a = bool_instr (not a.flag)
fold_not _ a = kept

-- A `cbr` on a constant becomes a `br`. Its type is that of `instr{}`.
unfoldable pub fold_cbr : Opcode → Instr → Instr → Folding
fold_cbr Opcode.const_bool a i = folded (record default_instr {
  op = Opcode.br;
  block_target = if a.flag then i.block_target else i.block_target_false;
})
fold_cbr _ a i = kept

abbrev pub on_one : (Instr → Folding) → Code → List ℕ → Folding
on_one f code (a ∷ []) = elim (get_elem? code a) [ none ↦ kept | some x ↦ f x ]
on_one f code _ = kept

abbrev pub on_two : (Instr → Instr → Folding) → Code → List ℕ → Folding
on_two f code (a ∷ b ∷ []) =
    on_one (λ x. elim (get_elem? code b) [ none ↦ kept | some y ↦ f x y ]) code (a ∷ [])
on_two f code _ = kept

unfoldable pub is_binary : Opcode → Bool
is_binary Opcode.add = true
is_binary Opcode.sub = true
is_binary Opcode.mul = true
is_binary Opcode.div = true
is_binary Opcode.mod_ = true
is_binary Opcode.eq = true
is_binary Opcode.ne = true
is_binary Opcode.lt = true
is_binary Opcode.gt = true
is_binary Opcode.le = true
is_binary Opcode.ge = true
is_binary _ = false

-- The `switch` of `const_fold_function` on the instruction's opcode.
unfoldable pub fold_instr : Code → Instr → Opcode → Folding
unfolding fold_neg fold_not fold_cbr is_binary
fold_instr code i Opcode.neg = on_one (λ a. fold_neg a.op a) code i.args
fold_instr code i Opcode.not_ = on_one (λ a. fold_not a.op a) code i.args
fold_instr code i Opcode.cbr = on_one (λ a. fold_cbr a.op a i) code i.args
fold_instr code i op = if is_binary op then on_two (try_fold_binary op) code i.args else kept

-- One round of the loop: the new instruction's `result` is its index. `none` is undefined
-- behaviour.
unfoldable pub write_folding : ℕ → Code → Folding → Option Code
write_folding i code (folded x) = some (set code i (record x { result = i % 2 ^ 32 }))
write_folding i code kept = some code
write_folding i code undefined = none

unfoldable pub const_fold_at : ℕ → Code → Option Code
unfolding fold_instr write_folding
const_fold_at i code = elim (get_elem? code i) [
  | none ↦ some code
  | some x ↦ write_folding i code (fold_instr code x x.op)
]

-- The loop from index `i`, with the number of rounds that are left.
unfoldable pub const_fold_loop : ℕ → ℕ → Code → Option Code
const_fold_loop zero i code = some code
const_fold_loop (suc n) i code = const_fold_at i code >>= λ code'. const_fold_loop n (i + 1) code'

unfoldable pub const_fold_function : Code → Option Code
unfolding const_fold_loop
const_fold_function code = const_fold_loop (length code) 0 code
