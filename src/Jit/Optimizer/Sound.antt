-- ===== src/Jit/Optimizer/Sound.antt =====
-- include/jit/bytecode_optimizer.hpp: a round of the loop keeps the meaning of the code.
use mathlib.Core.Path.{subst}
use mathlib.Core.Bool.{false≢true}
use munchkinglang.Prelude.{
  ℕ, List, [], ◌∷◌, Bool, true, some, ◌≡◌, inl, inr, refl, sym, ap, ◌∙◌, Option-cases, same_some,
}
use munchkinglang.Prelude.Int.{ℤ}
use munchkinglang.Mir.Runtime.{in_i64}
use munchkinglang.Jit.Bytecode.Opcodes.{opcode_at}
use munchkinglang.Jit.Bytecode.Insns.{Insn, push_int, push_bool, plain}
use munchkinglang.Vm.Value.{VmValue, Host}
use munchkinglang.Vm.Straight.{Frame, push, run_insn}
use munchkinglang.Jit.Optimizer.{
  PendingFold, nothing, int, int_pair, flag, Folding, record_pc, write, flush_pending, hold, copy,
  class_of, act_push_int, act_push_bool, act,
}
use munchkinglang.Jit.Optimizer.Meaning.{is_kept, OrdersSmall, pushed}
use munchkinglang.Jit.Bytecode.Fetched.{InRange, IsWhole, push_bool-IsWhole}
use munchkinglang.Jit.Optimizer.Reached.{Ranged, Reached, flushed, held_next, Goal, copied}
use munchkinglang.Jit.Optimizer.Operators.{on_opcode}

module _ (strings : List ℕ) (h : Host) where
  on_push_int :
      (start : ℕ) (value : ℤ) (p : PendingFold) (s : Folding) (f g : Frame h)
      → Reached strings h s f g
      → s.pending ≡ p
      → is_kept p (push_int value) ≡ true
      → in_i64 value ≡ true
      → Reached strings h (act_push_int start value p s) f (push h (VmValue.int value) g)
  unfolding act_push_int pushed hold is_kept Ranged
  on_push_int start value nothing s f g r e kept range =
      held_next strings h s start (int value) f g r e range
  on_push_int start value (int left) s f g r e kept range = record {
    insns = r.insns;
    before = r.before;
    written = r.written;
    ran = r.ran;
    held = ap (push h (VmValue.int value)) (ap (λ p. pushed h p r.before) (sym e) ∙ r.held);
    whole = r.whole;
    ranged = (subst Ranged e r.ranged, range);
  }
  on_push_int start value (int_pair left right) s f g r e kept range =
      let (r', empty) = flushed strings h s f g r in
      held_next strings h (flush_pending s) start (int value) f g r' empty range
  on_push_int start value (flag b) s f g r e kept range = absurd (false≢true kept)

  behind_flushed :
      (start : ℕ) (b : Bool) (s : Folding) (f g : Frame h)
      → Reached strings h s f g
      → Reached strings h
          (write (push_bool b ∷ []) (record_pc start (flush_pending s)))
          f
          (push h (VmValue.bool b) g)
  unfolding run_insn copy
  behind_flushed start b s f g r =
      let (t, q, r') =
        copied strings h start (push_bool b) s f g (push h (VmValue.bool b) g) r refl
          (push_bool-IsWhole strings b) in
      subst (λ t. Reached strings h t f (push h (VmValue.bool b) g)) (same_some q refl) r'

  on_push_bool :
      (start : ℕ) (b : Bool) (p : PendingFold) (s : Folding) (f g : Frame h)
      → Reached strings h s f g
      → s.pending ≡ p
      → Reached strings h (act_push_bool start b p s) f (push h (VmValue.bool b) g)
  unfolding act_push_bool pushed Ranged
  on_push_bool start b nothing s f g r e = held_next strings h s start (flag b) f g r e tt
  on_push_bool start b _ s f g r e = behind_flushed start b s f g r

  -- Where a round is kept and the machine runs the instruction, the round goes on to the same frame.
  pub act-Reached :
      (start : ℕ) (i : Insn) (s : Folding) (f g g' : Frame h)
      → Reached strings h s f g
      → OrdersSmall h
      → is_kept s.pending i ≡ true
      → run_insn h i g ≡ some g'
      → InRange i
      → IsWhole strings i
      → Goal strings h (act start i s) f g'
  unfolding act run_insn InRange
  act-Reached start (push_int value) s f g g' r o kept q range whole = (
    _,
    refl,
    subst (Reached strings h _ f) (same_some refl q)
        (on_push_int start value s.pending s f g r refl kept range),
  )
  act-Reached start (push_bool b) s f g g' r o kept q range whole = (
    _,
    refl,
    subst (Reached strings h _ f) (same_some refl q) (on_push_bool start b s.pending s f g r refl),
  )
  act-Reached start (plain x ops) s f g g' r o kept q range whole =
      elim (Option-cases (opcode_at x)) [
        | inl k ↦ rw (k, act) (copied strings h start (plain x ops) s f g g' r q whole)
        | inr (op, k) ↦
            rw (k, act)
              (on_opcode strings h start x ops op s f g g' s.pending (class_of op) r o refl refl
                (k, rw (k, run_insn) at q) kept whole)
      ]
