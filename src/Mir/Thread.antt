-- ===== src/Mir/Thread.antt =====
-- include/native/mir_optimizer.hpp: jump threading of one function's code.
pub mod Silent
pub mod Sound
use munchkinglang.Prelude.{
  ℕ, zero, suc, ◌+◌, List, [], ◌∷◌, Bool, true, false, Option, none, some, ◌==◌, if◌then◌else◌,
  length, get_elem?, set,
}
use munchkinglang.Mir.Instr.{Instr, Opcode, Code}

unfoldable pub is_label : Opcode → Bool
is_label Opcode.label = true
is_label _ = false

unfoldable pub is_br : Opcode → Bool
is_br Opcode.br = true
is_br _ = false

-- `block_at`: the index of the label of a block. Of two labels of one block the later one counts.
abbrev pub BlockMap : Type 0
BlockMap = ℕ → Option ℕ

unfoldable pub enter_label : Instr → ℕ → BlockMap → BlockMap
enter_label x i m b = if is_label x.op then (if x.block_target == b then some i else m b) else m b

unfoldable pub block_at_from : ℕ → Code → BlockMap → BlockMap
unfolding enter_label
block_at_from i [] m = m
block_at_from i (x ∷ xs) m = block_at_from (suc i) xs (enter_label x i m)

unfoldable pub block_at : Code → BlockMap
unfolding block_at_from
block_at code = block_at_from 0 code (λ b. none)

-- The inner `while` of `resolve`: the first index from `i` on that is no label. `fuel` rounds.
unfoldable pub skip_labels : ℕ → Code → ℕ → ℕ
skip_labels zero code i = i
skip_labels (suc fuel) code i =
    let next = skip_labels fuel code (suc i) in
    elim (get_elem? code i) [ none ↦ i | some x ↦ if is_label x.op then next else i ]

-- The instruction at which a jump to a label at `p` comes to work.
unfoldable pub first_work : Code → ℕ → Option Instr
unfolding skip_labels
first_work code p = get_elem? code (skip_labels (length code) code (suc p))

-- The target of a `br`.
abbrev pub br_target : Instr → Option ℕ
br_target x = if is_br x.op then some x.block_target else none

-- `resolve`, with the rounds of its `guard` that are left.
unfoldable pub resolve_loop : ℕ → BlockMap → Code → ℕ → ℕ
unfolding first_work
resolve_loop zero m code b = b
resolve_loop (suc guard) m code b = elim (m b) [
  | none ↦ b
  | some p ↦ elim (first_work code p) [
    | none ↦ b
    | some x ↦ elim (br_target x) [ none ↦ b | some c ↦ resolve_loop guard m code c ]
  ]
]

unfoldable pub resolve : BlockMap → Code → ℕ → ℕ
unfolding resolve_loop
resolve = resolve_loop 32

-- The body of the last loop, which writes into the code that `resolve` reads.
unfoldable pub retarget : Opcode → BlockMap → Code → ℕ → Instr → Code
unfolding resolve
retarget Opcode.br m code i x =
    set code i (record x { block_target = resolve m code x.block_target })
retarget Opcode.cbr m code i x =
    let x' = record x { block_target = resolve m code x.block_target } in
    let code' = set code i x' in
    set code' i (record x' { block_target_false = resolve m code' x.block_target_false })
retarget _ m code i x = code

unfoldable pub thread_at : BlockMap → ℕ → Code → Code
unfolding retarget
thread_at m i code = elim (get_elem? code i) [ none ↦ code | some x ↦ retarget x.op m code i x ]

unfoldable pub thread_loop : ℕ → BlockMap → ℕ → Code → Code
unfolding thread_at
thread_loop zero m i code = code
thread_loop (suc n) m i code = thread_loop n m (suc i) (thread_at m i code)

unfoldable pub jump_thread_function : Code → Code
unfolding thread_loop block_at
jump_thread_function code = thread_loop (length code) (block_at code) 0 code
