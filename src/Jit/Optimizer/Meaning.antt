-- ===== src/Jit/Optimizer/Meaning.antt =====
-- include/jit/bytecode_optimizer.hpp: what has been written and what is pending stand for the code read.
use munchkinglang.Prelude.{
  ℕ, ◌^◌, List, [], ◌∷◌, ◌++◌, Bool, true, false, not, ◌&&◌, Option, none, some, ◌>>=◌, ◌≡◌, ◌⊎◌,
  inl, inr, refl, ap, ◌∙◌, arith, leb, if◌then◌else◌, Option-cases, same_some,
}
use munchkinglang.Prelude.Int.{ℤ, pos_part, neg_part, pos, ltb_ℤ, eqb_ℤ}
use munchkinglang.Mir.Runtime.{i64_add, i64_sub, i64_mul, i64_div, i64_mod, i64_neg}
use munchkinglang.Jit.Bytecode.Opcodes.{Opcode, opcode_at}
use munchkinglang.Jit.Bytecode.Insns.{Insn, push_int, plain}
use munchkinglang.Vm.Value.{
  VmValue, Host, Value, is_truthy, is_numeric, as_integer, as_number, values_equal,
}
use munchkinglang.Vm.Ops.{as_int, as_bool, ordering, ordered, compare}
use munchkinglang.Vm.Straight.{Frame, push, run_opcode, run_insn, run_insns}
use munchkinglang.Jit.Optimizer.{
  PendingFold, nothing, int, int_pair, flag, pending_insns, folded, try_fold_binary_int,
  try_fold_compare_int, Class, class_of,
}

-- Every integer up to 2^53 is a `double`.
abbrev pub is_small : ℤ → Bool
is_small z = leb (pos_part z) (2 ^ 53) && leb (neg_part z) (2 ^ 53)

abbrev pub pair_is_kept : ℤ → ℤ → Class → Bool
pair_is_kept l r Class.discard = false
pair_is_kept l r Class.compare = is_small l && is_small r
pair_is_kept l r _ = true

abbrev pub is_other : Class → Bool
is_other Class.other = true
is_other _ = false

-- Where the optimizer keeps the meaning of an instruction behind pending constants: not for a POP behind
-- two, of which it drops both, nor for an integer behind a Boolean, which it drops; and two
-- integers are compared as the machine compares them where they are small.
unfoldable pub is_kept : PendingFold → Insn → Bool
unfolding class_of opcode_at
is_kept (int_pair l r) (plain x operands) = elim (opcode_at x) [
  | none ↦ true
  | some op ↦ pair_is_kept l r (class_of op)
]
is_kept (flag b) (push_int value) = false
is_kept _ _ = true

module _ (h : Host) where
  pub run_insns-append :
      (is js : List Insn) (f : Frame h)
      → run_insns h (is ++ js) f ≡ (run_insns h is f >>= run_insns h js)
  unfolding run_insns
  run_insns-append [] js f = refl
  run_insns-append (i ∷ is) js f = elim (Option-cases (run_insn h i f)) [
    | inl q ↦ rw q refl
    | inr (g, q) ↦ rw q (run_insns-append is js g)
  ]

  -- The frame after the constants that are pending are pushed.
  unfoldable pub pushed : PendingFold → Frame h → Frame h
  pushed nothing f = f
  pushed (int z) f = push h (VmValue.int z) f
  pushed (int_pair left right) f = push h (VmValue.int right) (push h (VmValue.int left) f)
  pushed (flag b) f = push h (VmValue.bool b) f

  pub pending_insns-pushed :
      (p : PendingFold) (f : Frame h) → run_insns h (pending_insns p) f ≡ some (pushed p f)
  unfolding run_insns pending_insns pushed
  pending_insns-pushed nothing f = refl
  pending_insns-pushed (int z) f = refl
  pending_insns-pushed (int_pair l r) f = refl
  pending_insns-pushed (flag b) f = refl

  -- A result that the machine pushes is one that the optimizer has folded.
  abbrev pub Folds : Opcode → ℤ → ℤ → Frame h → Frame h → Type 0
  Folds op l r f g =
      (try_fold_binary_int op l r ≡ some none)
      ⊎ ((z : ℤ) × (try_fold_binary_int op l r ≡ some (some z)) × (pushed (int z) f ≡ g))

  folded_result :
      (o : Option ℤ) (f g : Frame h)
      → (as_int h o >>= λ v. some (push h v f)) ≡ some g
      → (z : ℤ) × (folded o ≡ some (some z)) × (pushed (int z) f ≡ g)
  unfolding pushed
  folded_result none f g q = absurd (cc)
  folded_result (some z) f g q = (z, refl, same_some refl q)

  divided :
      (zero_divisor : Bool) (o : Option ℤ) (f g : Frame h)
      → (as_int h (if zero_divisor then none else o) >>= λ v. some (push h v f)) ≡ some g
      → ((if zero_divisor then some none else folded o) ≡ some none)
        ⊎ ((z : ℤ) × ((if zero_divisor then some none else folded o) ≡ some (some z))
            × (pushed (int z) f ≡ g))
  divided true o f g q = inl refl
  divided false o f g q = inr (folded_result o f g q)

  pub binary_folded :
      (op : Opcode) (operands : List ℕ) (l r : ℤ) (f g : Frame h)
      → class_of op ≡ Class.binary
      → run_opcode h op operands (pushed (int_pair l r) f) ≡ some g
      → Folds op l r f g
  unfolding class_of run_opcode pushed try_fold_binary_int
  binary_folded Opcode.add ops l r f g c q = inr (folded_result (i64_add l r) f g q)
  binary_folded Opcode.sub ops l r f g c q = inr (folded_result (i64_sub l r) f g q)
  binary_folded Opcode.mul ops l r f g c q = inr (folded_result (i64_mul l r) f g q)
  binary_folded Opcode.div ops l r f g c q = divided (eqb_ℤ r (pos 0)) (i64_div l r) f g q
  binary_folded Opcode.modulo ops l r f g c q = divided (eqb_ℤ r (pos 0)) (i64_mod l r) f g q
  binary_folded Opcode.bitwise_and ops l r f g c q = inr (_, refl, same_some refl q)
  binary_folded Opcode.bitwise_or ops l r f g c q = inr (_, refl, same_some refl q)
  binary_folded Opcode.bitwise_xor ops l r f g c q = inr (_, refl, same_some refl q)
  binary_folded _ ops l r f g c q = absurd (cc)

  -- The host orders small integers as `double` the way they are ordered.
  abbrev pub OrdersSmall : Type 0
  OrdersSmall =
      (a b : ℤ)
      → is_small a ≡ true
      → is_small b ≡ true
      → h.f_lt (h.of_i64 a) (h.of_i64 b) ≡ ltb_ℤ a b

  is_order : Opcode → Bool
  is_order Opcode.lt = true
  is_order Opcode.gt = true
  is_order Opcode.le = true
  is_order Opcode.ge = true
  is_order _ = false

  ordered_int :
      (op : Opcode) (l r : ℤ)
      → is_order op ≡ true
      → ordered op (ordering (ltb_ℤ l r) (ltb_ℤ r l)) ≡ try_fold_compare_int op l r
  unfolding is_order ordered try_fold_compare_int
  ordered_int Opcode.lt l r c = ground arith
  ordered_int Opcode.gt l r c = ground arith
  ordered_int Opcode.le l r c = ground arith
  ordered_int Opcode.ge l r c = ground arith
  ordered_int _ l r c = absurd (cc)

  order_folded :
      (op : Opcode) (l r : ℤ) (x : Bool) (f g : Frame h)
      → OrdersSmall
      → is_small l ≡ true
      → is_small r ≡ true
      → is_order op ≡ true
      → try_fold_compare_int op l r ≡ some x
      → (compare h op (VmValue.int l) (VmValue.int r) >>= λ v. some (push h v f)) ≡ some g
      → pushed (flag x) f ≡ g
  unfolding compare is_numeric as_number as_integer pushed
  order_folded op l r x f g o hl hr c t q =
      let ordering_l_r : ordered op
            (ordering (h.f_lt (h.of_i64 l) (h.of_i64 r)) (h.f_lt (h.of_i64 r) (h.of_i64 l)))
          ≡ some x =
        rw (o l r hl hr, o r l hr hl) (ordered_int op l r c ∙ t) in
      same_some (ap (λ k. as_bool h k >>= λ v. some (push h v f)) ordering_l_r) q

  pub compare_folded :
      (op : Opcode) (operands : List ℕ) (l r : ℤ) (f g : Frame h)
      → OrdersSmall
      → is_small l ≡ true
      → is_small r ≡ true
      → class_of op ≡ Class.compare
      → run_opcode h op operands (pushed (int_pair l r) f) ≡ some g
      → (b : Bool) × (try_fold_compare_int op l r ≡ some b) × (pushed (flag b) f ≡ g)
  unfolding class_of run_opcode pushed try_fold_compare_int values_equal is_order
  compare_folded Opcode.eq ops l r f g o hl hr c q = (_, refl, same_some refl q)
  compare_folded Opcode.ne ops l r f g o hl hr c q = (_, refl, same_some refl q)
  compare_folded Opcode.lt ops l r f g o hl hr c q =
      (_, refl, order_folded Opcode.lt l r _ f g o hl hr refl refl q)
  compare_folded Opcode.gt ops l r f g o hl hr c q =
      (_, refl, order_folded Opcode.gt l r _ f g o hl hr refl refl q)
  compare_folded Opcode.le ops l r f g o hl hr c q =
      (_, refl, order_folded Opcode.le l r _ f g o hl hr refl refl q)
  compare_folded Opcode.ge ops l r f g o hl hr c q =
      (_, refl, order_folded Opcode.ge l r _ f g o hl hr refl refl q)
  compare_folded _ ops l r f g o hl hr c q = absurd (cc)

  pub negate_folded :
      (op : Opcode) (operands : List ℕ) (z : ℤ) (f g : Frame h)
      → class_of op ≡ Class.negate
      → run_opcode h op operands (pushed (int z) f) ≡ some g
      → (w : ℤ) × (i64_neg z ≡ some w) × (pushed (int w) f ≡ g)
  unfolding class_of run_opcode pushed
  negate_folded Opcode.neg ops z f g c q = negative (i64_neg z) refl q
    where
      negative :
          (o : Option ℤ)
          → i64_neg z ≡ o
          → (as_int h o >>= λ v. some (push h v f)) ≡ some g
          → (w : ℤ) × (i64_neg z ≡ some w) × (pushed (int w) f ≡ g)
      negative none e q = absurd (cc)
      negative (some w) e q = (w, e, same_some refl q)
  negate_folded _ ops z f g c q = absurd (cc)

  pub invert_folded :
      (op : Opcode) (operands : List ℕ) (b : Bool) (f g : Frame h)
      → class_of op ≡ Class.invert
      → run_opcode h op operands (pushed (flag b) f) ≡ some g
      → pushed (flag (not b)) f ≡ g
  unfolding class_of run_opcode pushed is_truthy
  invert_folded Opcode.not ops b f g c q = same_some refl q
  invert_folded _ ops b f g c q = absurd (cc)

  pub discard_folded :
      (op : Opcode) (operands : List ℕ) (v : Value h) (f g : Frame h)
      → class_of op ≡ Class.discard
      → run_opcode h op operands (push h v f) ≡ some g
      → f ≡ g
  unfolding class_of run_opcode
  discard_folded Opcode.pop ops v f g c q = same_some refl q
  discard_folded _ ops v f g c q = absurd (cc)

  -- The instructions that take part in folding have no operands.
  pub operands_unread :
      (op : Opcode) (operands : List ℕ) (f : Frame h)
      → is_other (class_of op) ≡ false
      → run_opcode h op operands f ≡ run_opcode h op [] f
  unfolding class_of run_opcode
  operands_unread Opcode.add ops f c = refl
  operands_unread Opcode.sub ops f c = refl
  operands_unread Opcode.mul ops f c = refl
  operands_unread Opcode.div ops f c = refl
  operands_unread Opcode.modulo ops f c = refl
  operands_unread Opcode.bitwise_and ops f c = refl
  operands_unread Opcode.bitwise_or ops f c = refl
  operands_unread Opcode.bitwise_xor ops f c = refl
  operands_unread Opcode.eq ops f c = refl
  operands_unread Opcode.ne ops f c = refl
  operands_unread Opcode.lt ops f c = refl
  operands_unread Opcode.gt ops f c = refl
  operands_unread Opcode.le ops f c = refl
  operands_unread Opcode.ge ops f c = refl
  operands_unread Opcode.neg ops f c = refl
  operands_unread Opcode.not ops f c = refl
  operands_unread Opcode.pop ops f c = refl
  operands_unread _ ops f c = absurd (cc)
