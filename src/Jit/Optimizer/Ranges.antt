-- ===== src/Jit/Optimizer/Ranges.antt =====
-- include/jit/bytecode_optimizer.hpp: folded integers are `int64_t`, and what is written is read back.
use mathlib.Core.Path.{subst}
use munchkinglang.Prelude.{
  ℕ, zero, suc, ◌+◌, ◌*◌, ◌/◌, ◌%◌, ◌^◌, ◌<◌, List, [], Bool, true, false, ◌&&◌, ◌||◌, Option, none,
  some, ◌≡◌, refl, ap, arith, ◌==◌, if◌then◌else◌, if_cases, Bool-cases, inl, inr, same_some,
}
use munchkinglang.Prelude.Int.{
  ℤ, pos, negsuc, to_word, eqb_ℤ, neg_ℤ, ◌+ℤ◌, ◌-ℤ◌, ◌*ℤ◌, div_ℤ, mod_ℤ,
}
use munchkinglang.Mir.Runtime.{in_i64, i64_add, i64_sub, i64_mul, i64_div, i64_mod, i64_neg}
use munchkinglang.Vm.Ops.{combine, bits_ℤ, xor, int_bitwise}
use munchkinglang.Jit.Bytecode.Opcodes.{Opcode, Operands, opcode_at, operands}
use munchkinglang.Jit.Bytecode.Insns.{plain, is_push_int, is_push_bool}
use munchkinglang.Jit.Bytecode.Words.{of_word-in_i64}
use munchkinglang.Jit.Bytecode.Fetched.{IsWhole, alone-IsWhole}
use munchkinglang.Jit.Optimizer.{folded, try_fold_binary_int, class_of}
use munchkinglang.Jit.Optimizer.Meaning.{is_other}

-- A result is kept where it fits.
checked : (v w z : ℤ) → (if in_i64 v then some w else none) ≡ some z → (in_i64 v ≡ true) × (w ≡ z)
checked v w z q = elim (Bool-cases (in_i64 v)) [
  | inl m ↦ (m, same_some refl (rw m at q))
  | inr m ↦ let q' : Path (Option ℤ) none (some z) = rw m at q in absurd (cc)
]

same_checked : (v z : ℤ) → (if in_i64 v then some v else none) ≡ some z → in_i64 z ≡ true
same_checked v z q = let (m, same) = checked v v z q in subst (λ z. in_i64 z ≡ true) same m

pub i64_neg-in_i64 : (a z : ℤ) → i64_neg a ≡ some z → in_i64 z ≡ true
unfolding i64_neg
i64_neg-in_i64 a z q = same_checked (neg_ℤ a) z q

mod_ℤ-in_i64 : (a b : ℤ) → in_i64 a ≡ true → in_i64 (mod_ℤ a b) ≡ true
unfolding mod_ℤ
mod_ℤ-in_i64 (pos n) (pos d) h = ground (arith, h)
mod_ℤ-in_i64 (pos n) (negsuc d) h = ground (arith, h)
mod_ℤ-in_i64 (negsuc n) (pos d) h = ground (arith, h)
mod_ℤ-in_i64 (negsuc n) (negsuc d) h = ground (arith, h)

combine-lt : (n : ℕ) (f : Bool → Bool → Bool) (a b : ℕ) → combine n f a b < 2 ^ n
unfolding combine
combine-lt zero f a b = omega arith
combine-lt (suc n) f a b =
    let ih = combine-lt n f (a / 2) (b / 2) in
    if_cases (f (a % 2 == 1) (b % 2 == 1))
      (λ (k : ℕ). k + 2 * combine n f (a / 2) (b / 2) < 2 ^ suc n) (λ _. omega (arith, ih))
      (λ _. omega (arith, ih))

bits_ℤ-in_i64 : (f : Bool → Bool → Bool) (a b : ℤ) → in_i64 (bits_ℤ f a b) ≡ true
unfolding bits_ℤ
bits_ℤ-in_i64 f a b = of_word-in_i64 _ (combine-lt 64 f (to_word a) (to_word b))

unfolded : (o : Option ℤ) (z : ℤ) → folded o ≡ some (some z) → o ≡ some z
unfolded none z q = absurd (cc)
unfolded (some y) z q = ap some (same_some refl (same_some refl q))

divided :
    (test : Bool) (o : Option ℤ) (z : ℤ)
    → (if test then some none else folded o) ≡ some (some z)
    → o ≡ some z
divided true o z q = absurd (cc)
divided false o z q = unfolded o z q

pub try_fold_binary_int-in_i64 :
    (op : Opcode) (l r z : ℤ)
    → in_i64 l ≡ true
    → try_fold_binary_int op l r ≡ some (some z)
    → in_i64 z ≡ true
unfolding try_fold_binary_int i64_add i64_sub i64_mul i64_div i64_mod int_bitwise
try_fold_binary_int-in_i64 Opcode.add l r z h q = same_checked (l +ℤ r) z (unfolded _ z q)
try_fold_binary_int-in_i64 Opcode.sub l r z h q = same_checked (l -ℤ r) z (unfolded _ z q)
try_fold_binary_int-in_i64 Opcode.mul l r z h q = same_checked (l *ℤ r) z (unfolded _ z q)
try_fold_binary_int-in_i64 Opcode.div l r z h q =
    same_checked (div_ℤ l r) z (divided (eqb_ℤ r (pos 0)) _ z q)
try_fold_binary_int-in_i64 Opcode.modulo l r z h q =
    let (m, same) = checked (div_ℤ l r) (mod_ℤ l r) z (divided (eqb_ℤ r (pos 0)) _ z q) in
    subst (λ z. in_i64 z ≡ true) same (mod_ℤ-in_i64 l r h)
try_fold_binary_int-in_i64 Opcode.bitwise_and l r z h q =
    subst (λ z. in_i64 z ≡ true) (same_some refl (unfolded _ z q))
      (bits_ℤ-in_i64 (λ x y. x && y) l r)
try_fold_binary_int-in_i64 Opcode.bitwise_or l r z h q =
    subst (λ z. in_i64 z ≡ true) (same_some refl (unfolded _ z q))
      (bits_ℤ-in_i64 (λ x y. x || y) l r)
try_fold_binary_int-in_i64 Opcode.bitwise_xor l r z h q =
    subst (λ z. in_i64 z ≡ true) (same_some refl (unfolded _ z q)) (bits_ℤ-in_i64 xor l r)
try_fold_binary_int-in_i64 _ l r z h q = absurd (cc)

abbrev TakesNothing : Opcode → Type 0
TakesNothing op =
    (operands op ≡ Operands.nothing)
    × (is_push_int (some op) ≡ false)
    × (is_push_bool (some op) ≡ false)

folded_alone : (op : Opcode) → is_other (class_of op) ≡ false → TakesNothing op
unfolding class_of operands
folded_alone Opcode.add c = (refl, refl, refl)
folded_alone Opcode.sub c = (refl, refl, refl)
folded_alone Opcode.mul c = (refl, refl, refl)
folded_alone Opcode.div c = (refl, refl, refl)
folded_alone Opcode.modulo c = (refl, refl, refl)
folded_alone Opcode.bitwise_and c = (refl, refl, refl)
folded_alone Opcode.bitwise_or c = (refl, refl, refl)
folded_alone Opcode.bitwise_xor c = (refl, refl, refl)
folded_alone Opcode.eq c = (refl, refl, refl)
folded_alone Opcode.ne c = (refl, refl, refl)
folded_alone Opcode.lt c = (refl, refl, refl)
folded_alone Opcode.gt c = (refl, refl, refl)
folded_alone Opcode.le c = (refl, refl, refl)
folded_alone Opcode.ge c = (refl, refl, refl)
folded_alone Opcode.neg c = (refl, refl, refl)
folded_alone Opcode.not c = (refl, refl, refl)
folded_alone Opcode.pop c = (refl, refl, refl)
folded_alone _ c = absurd (cc)

pub opcode_alone-IsWhole :
    (strings : List ℕ) (x : ℕ) (op : Opcode)
    → opcode_at x ≡ some op
    → is_other (class_of op) ≡ false
    → IsWhole strings (plain x [])
opcode_alone-IsWhole strings x op k c =
    let (takes, hi, hb) = folded_alone op c in alone-IsWhole strings x op k takes hi hb
