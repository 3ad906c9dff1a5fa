-- ===== src/Vm/Straight.antt =====
-- include/vm.hpp: `execute_interpret` on straight code. An instruction that leaves the order of the
-- code, or that keeps a place in it, ends the run without a result.
use munchkinglang.Prelude.{ℕ, zero, suc, List, [], ◌∷◌, not, Option, none, some, ◌>>=◌}
use munchkinglang.Jit.Bytecode.Opcodes.{Opcode, opcode_at}
use munchkinglang.Jit.Bytecode.{Cursor, number_of}
use munchkinglang.Jit.Bytecode.Insns.{Insn, push_int, push_bool, plain, fetch}
use munchkinglang.Jit.Pgo.{Run}
use munchkinglang.Vm.Value.{
  null, int, float, bool, char, VmFrame, Host, Value, is_truthy, values_equal,
}
use munchkinglang.Vm.Ops.{binary_arithmetic, compare, bitwise, negated, complement}

module _ (h : Host) where
  open h use {Double, Object, World}

  abbrev pub Frame : Type 0
  Frame = VmFrame Double Object World

  abbrev pub push : Value h → Frame → Frame
  push item f = record f { stack = item ∷ f.stack }

  abbrev pub pop_stack : List (Value h) → Option (Value h × List (Value h))
  pop_stack [] = none
  pop_stack (item ∷ rest) = some (item, rest)

  unfoldable pub pop : Frame → Option (Value h × Frame)
  pop f = do (item, rest) ← pop_stack f.stack; some (item, record f { stack = rest })

  -- The operand on top gives way to a result.
  unfoldable pub unary : (Value h → Option (Value h)) → Frame → Option Frame
  unfolding pop
  unary g f = do (operand, d) ← pop f; result ← g operand; some (push result d)

  unfoldable pub binary : (Value h → Value h → Option (Value h)) → Frame → Option Frame
  unfolding pop
  binary g f = do (right, d) ← pop f; (left, e) ← pop d; result ← g left right; some (push result e)

  unfoldable pub dup : Frame → Option Frame
  unfolding pop
  dup f = do (item, d) ← pop f; some (push item (push item d))

  unfoldable pub swap : Frame → Option Frame
  unfolding pop
  swap f = do (right, d) ← pop f; (left, e) ← pop d; some (push left (push right e))

  abbrev pub discard : Frame → Option Frame
  discard f = do (_, d) ← pop f; some d

  abbrev pub equal : Value h → Value h → Option (Value h)
  equal left right = some (bool (values_equal h left right))

  abbrev pub unequal : Value h → Value h → Option (Value h)
  unequal left right = some (bool (not (values_equal h left right)))

  abbrev pub inverted : Value h → Option (Value h)
  inverted operand = some (bool (not (is_truthy h operand)))

  -- The cases of the dispatch that change the stack alone; the others are the host's.
  unfoldable pub run_opcode : Opcode → List ℕ → Frame → Option Frame
  unfolding pop unary binary dup swap binary_arithmetic compare bitwise negated complement
  run_opcode Opcode.push_float operands f = some (push (float (h.of_bits (number_of operands))) f)
  run_opcode Opcode.push_char operands f = some (push (char (number_of operands)) f)
  run_opcode Opcode.push_null operands f = some (push null f)
  run_opcode Opcode.pop operands f = discard f
  run_opcode Opcode.dup operands f = dup f
  run_opcode Opcode.swap operands f = swap f
  run_opcode Opcode.add operands f = binary (binary_arithmetic h Opcode.add) f
  run_opcode Opcode.sub operands f = binary (binary_arithmetic h Opcode.sub) f
  run_opcode Opcode.mul operands f = binary (binary_arithmetic h Opcode.mul) f
  run_opcode Opcode.div operands f = binary (binary_arithmetic h Opcode.div) f
  run_opcode Opcode.modulo operands f = binary (binary_arithmetic h Opcode.modulo) f
  run_opcode Opcode.neg operands f = unary (negated h) f
  run_opcode Opcode.eq operands f = binary equal f
  run_opcode Opcode.ne operands f = binary unequal f
  run_opcode Opcode.lt operands f = binary (compare h Opcode.lt) f
  run_opcode Opcode.gt operands f = binary (compare h Opcode.gt) f
  run_opcode Opcode.le operands f = binary (compare h Opcode.le) f
  run_opcode Opcode.ge operands f = binary (compare h Opcode.ge) f
  run_opcode Opcode.not operands f = unary inverted f
  run_opcode Opcode.bitwise_and operands f = binary (bitwise h Opcode.bitwise_and) f
  run_opcode Opcode.bitwise_or operands f = binary (bitwise h Opcode.bitwise_or) f
  run_opcode Opcode.bitwise_xor operands f = binary (bitwise h Opcode.bitwise_xor) f
  run_opcode Opcode.bitwise_not operands f = unary (complement h) f
  run_opcode Opcode.jmp operands f = none
  run_opcode Opcode.jmp_if_false operands f = none
  run_opcode Opcode.jmp_if_true operands f = none
  run_opcode Opcode.hint_branch operands f = none
  run_opcode Opcode.monitor_enter operands f = none
  run_opcode Opcode.ret operands f = none
  run_opcode Opcode.halt operands f = none
  run_opcode op operands f = h.other_instruction op operands f

  unfoldable pub run_insn : Insn → Frame → Option Frame
  unfolding opcode_at run_opcode
  run_insn (push_int z) f = some (push (int z) f)
  run_insn (push_bool flag) f = some (push (bool flag) f)
  run_insn (plain x operands) f = elim (opcode_at x) [
    | none ↦ some f
    | some op ↦ run_opcode op operands f
  ]

  unfoldable pub run_insns : List Insn → Frame → Option Frame
  unfolding run_insn
  run_insns [] f = some f
  run_insns (i ∷ is) f = run_insn i f >>= run_insns is

  -- At most `n` rounds of the loop.
  unfoldable pub execute_rounds : List ℕ → ℕ → Cursor → Frame → Run Frame
  unfolding fetch run_insn
  execute_rounds strings zero c f = Run.unfinished
  execute_rounds strings (suc n) c f = elim c.rest [
    | [] ↦ Run.done f
    | x ∷ xs ↦ elim (fetch strings c) [
      | none ↦ Run.stopped
      | some (i, d) ↦ elim (run_insn i f) [
        | none ↦ Run.stopped
        | some g ↦ execute_rounds strings n d g
      ]
    ]
  ]
