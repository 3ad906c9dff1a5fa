-- ===== src/Jit/Optimizer/Operators.antt =====
-- include/jit/bytecode_optimizer.hpp: a round on an operator, or on a POP, keeps the meaning of the code.
use mathlib.Core.Path.{subst}
use mathlib.Core.Bool.{and-eq-true_iff, false≢true}
use munchkinglang.Prelude.{
  ℕ, List, [], ◌∷◌, Bool, true, false, some, ◌≡◌, inl, inr, refl, sym, ap, ◌∙◌,
}
use munchkinglang.Prelude.Int.{ℤ}
use munchkinglang.Jit.Bytecode.Opcodes.{Opcode, opcode_at}
use munchkinglang.Jit.Bytecode.Insns.{push_int, plain}
use munchkinglang.Vm.Value.{VmValue, Host}
use munchkinglang.Vm.Straight.{Frame, push, run_opcode, run_insn, run_insns}
use munchkinglang.Jit.Optimizer.{
  PendingFold, int, int_pair, flag, Folding, record_pc, taken_at, opcode_alone, copy, fold_binary,
  fold_compare, half_constant, negate_pending, invert_pending, discard_pending, Class, class_of,
  act_opcode,
}
use munchkinglang.Jit.Optimizer.Meaning.{
  is_small, pair_is_kept, is_kept, OrdersSmall, pushed, binary_folded, compare_folded,
  negate_folded, invert_folded, discard_folded, is_other, operands_unread,
}
use munchkinglang.Jit.Optimizer.Ranges.{
  i64_neg-in_i64, try_fold_binary_int-in_i64, opcode_alone-IsWhole,
}
use munchkinglang.Jit.Bytecode.Fetched.{IsWhole, push_int-IsWhole}
use munchkinglang.Jit.Optimizer.Reached.{
  Ranged, AllWhole, Reached, written, replaced, cleared, Goal, one, copied,
}

module _ (strings : List ℕ) (h : Host) where
  alone :
      (x : ℕ) (operands : List ℕ) (op : Opcode) (g g' : Frame h)
      → opcode_at x ≡ some op
      → is_other (class_of op) ≡ false
      → run_opcode h op operands g ≡ some g'
      → run_insns h (opcode_alone x ∷ []) g ≡ some g'
  unfolding run_insn
  alone x ops op g g' k c q =
      one strings h (opcode_alone x) g g' (rw k (sym (operands_unread h op ops g c) ∙ q))

  module _ (start x : ℕ) (ops : List ℕ) (op : Opcode) (s : Folding) (f g g' : Frame h) where
    abbrev pub Runs : Type 0
    Runs = (opcode_at x ≡ some op) × (run_opcode h op ops g ≡ some g')

    at_pending :
        (p : PendingFold) (r : Reached strings h s f g)
        → s.pending ≡ p
        → Runs
        → run_opcode h op ops (pushed h p r.before) ≡ some g'
    at_pending p r e (k, q) =
        ap (run_opcode h op ops) (ap (λ p. pushed h p r.before) (sym e) ∙ r.held) ∙ q

    on_binary :
        (left right : ℤ) (r : Reached strings h s f g)
        → s.pending ≡ int_pair left right
        → class_of op ≡ Class.binary
        → Runs
        → Goal strings h (fold_binary start x op left right s) f g'
    unfolding fold_binary pushed run_insns run_insn taken_at record_pc Ranged AllWhole
    on_binary left right r e c (k, q) =
        let q' = at_pending (int_pair left right) r e (k, q) in
        let (rl, rr) = subst Ranged e r.ranged in
        elim (binary_folded h op ops left right r.before g' c q') [
          | inl t ↦
              rw (t, fold_binary)
                (
                  _,
                  refl,
                  written strings h (taken_at start s)
                      (push_int left ∷ push_int right ∷ opcode_alone x ∷ []) f r.before g'
                      (cleared strings h s start f g r) refl
                      (alone x ops op (pushed h (int_pair left right) r.before) g' k (ap is_other c)
                        q')
                      (
                        push_int-IsWhole strings left rl,
                        (
                          push_int-IsWhole strings right rr,
                          (opcode_alone-IsWhole strings x op k (ap is_other c), tt),
                        ),
                      ),
                )
          | inr (z, t, e') ↦
              rw (t, fold_binary)
                (
                  _,
                  refl,
                  replaced strings h s start (int z) f g g' r e'
                      (try_fold_binary_int-in_i64 op left right z rl t),
                )
        ]

    on_compare :
        (left right : ℤ) (r : Reached strings h s f g)
        → OrdersSmall h
        → is_small left ≡ true
        → is_small right ≡ true
        → s.pending ≡ int_pair left right
        → class_of op ≡ Class.compare
        → Runs
        → Goal strings h (fold_compare start x op left right s) f g'
    unfolding fold_compare Ranged
    on_compare left right r o hl hr e c (k, q) =
        let (b, t, e') =
          compare_folded h op ops left right r.before g' o hl hr c
            (at_pending (int_pair left right) r e (k, q)) in
        rw (t, fold_compare) (_, refl, replaced strings h s start (flag b) f g g' r e' tt)

    on_half :
        (right : ℤ) (r : Reached strings h s f g)
        → s.pending ≡ int right
        → is_other (class_of op) ≡ false
        → Runs
        → Goal strings h (half_constant start x right s) f g'
    unfolding half_constant pushed run_insns run_insn taken_at record_pc Ranged AllWhole
    on_half right r e c (k, q) = (
      _,
      refl,
      written strings h (taken_at start s) (push_int right ∷ opcode_alone x ∷ []) f r.before g'
          (cleared strings h s start f g r) refl
          (alone x ops op (pushed h (int right) r.before) g' k c
            (at_pending (int right) r e (k, q)))
          (
            push_int-IsWhole strings right (subst Ranged e r.ranged),
            (opcode_alone-IsWhole strings x op k c, tt),
          ),
    )

    on_negate :
        (z : ℤ) (r : Reached strings h s f g)
        → s.pending ≡ int z
        → class_of op ≡ Class.negate
        → Runs
        → Goal strings h (negate_pending start z s) f g'
    unfolding negate_pending record_pc Ranged
    on_negate z r e c (k, q) =
        let (w, t, e') = negate_folded h op ops z r.before g' c (at_pending (int z) r e (k, q)) in
        rw (t, negate_pending)
          (
            _,
            refl,
            record {
              insns = r.insns;
              before = r.before;
              written = r.written;
              ran = r.ran;
              held = e';
              whole = r.whole;
              ranged = i64_neg-in_i64 z w t;
            },
          )

    on_invert :
        (b : Bool) (r : Reached strings h s f g)
        → s.pending ≡ flag b
        → class_of op ≡ Class.invert
        → Runs
        → Goal strings h (invert_pending start b s) f g'
    unfolding invert_pending record_pc Ranged
    on_invert b r e c (k, q) = (
      _,
      refl,
      record {
        insns = r.insns;
        before = r.before;
        written = r.written;
        ran = r.ran;
        held = invert_folded h op ops b r.before g' c (at_pending (flag b) r e (k, q));
        whole = r.whole;
        ranged = tt;
      },
    )

    on_discard :
        (p : PendingFold) (v : VmValue h.Double h.Object) (r : Reached strings h s f g)
        → s.pending ≡ p
        → pushed h p r.before ≡ push h v r.before
        → class_of op ≡ Class.discard
        → Runs
        → Goal strings h (discard_pending start s) f g'
    unfolding discard_pending
    on_discard p v r e one_value c (k, q) =
        let q' = ap (run_opcode h op ops) (sym one_value) ∙ at_pending p r e (k, q) in
        (
          _,
          refl,
          subst (λ b. Reached strings h (taken_at start s) f b)
              (discard_folded h op ops v r.before g' c q') (cleared strings h s start f g r),
        )

    on_copy :
        Reached strings h s f g
        → Runs
        → IsWhole strings (plain x ops)
        → Goal strings h (copy start (plain x ops) s) f g'
    unfolding run_insn
    on_copy r (k, q) whole = copied strings h start (plain x ops) s f g g' r (rw k q) whole

    kept_class :
        (left right : ℤ) (c : Class)
        → class_of op ≡ c
        → Runs
        → is_kept (int_pair left right) (plain x ops) ≡ true
        → pair_is_kept left right c ≡ true
    unfolding is_kept
    kept_class left right c e (k, q) kept =
        ap (pair_is_kept left right) (sym e) ∙ rw (k, is_kept) at kept

    pub on_opcode :
        (p : PendingFold) (c : Class)
        → Reached strings h s f g
        → OrdersSmall h
        → s.pending ≡ p
        → class_of op ≡ c
        → Runs
        → is_kept p (plain x ops) ≡ true
        → IsWhole strings (plain x ops)
        → Goal strings h (act_opcode start x ops op p c s) f g'
    unfolding act_opcode pushed
    on_opcode (int_pair left right) Class.binary r o e c runs kept whole =
        on_binary left right r e c runs
    on_opcode (int_pair left right) Class.compare r o e c runs kept whole =
        let (hl, hr) = (and-eq-true_iff _ _).0 (kept_class left right _ c runs kept) in
        on_compare left right r o hl hr e c runs
    on_opcode (int_pair left right) Class.discard r o e c runs kept whole =
        absurd (false≢true (kept_class left right _ c runs kept))
    on_opcode (int right) Class.binary r o e c runs kept whole =
        on_half right r e (ap is_other c) runs
    on_opcode (int right) Class.compare r o e c runs kept whole =
        on_half right r e (ap is_other c) runs
    on_opcode (int z) Class.negate r o e c runs kept whole = on_negate z r e c runs
    on_opcode (int z) Class.discard r o e c runs kept whole =
        on_discard (int z) (VmValue.int z) r e refl c runs
    on_opcode (flag b) Class.invert r o e c runs kept whole = on_invert b r e c runs
    on_opcode (flag b) Class.discard r o e c runs kept whole =
        on_discard (flag b) (VmValue.bool b) r e refl c runs
    on_opcode _ _ r o e c runs kept whole = on_copy r runs whole
