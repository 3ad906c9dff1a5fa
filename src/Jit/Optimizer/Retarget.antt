-- ===== src/Jit/Optimizer/Retarget.antt =====
-- include/jit/bytecode_optimizer.hpp: the loop of `optimize_bytecode` that moves the targets of jumps,
-- and the whole function.
pub mod Ends
pub mod Nearest
pub mod Straight
use munchkinglang.Prelude.{
  ℕ, zero, suc, ◌+◌, ◌%◌, ◌^◌, List, [], ◌∷◌, ◌++◌, Bool, true, false, ◌&&◌, Option, none, some,
  leb, ltb, ◌==◌, if◌then◌else◌, length, take, drop,
}
use munchkinglang.Jit.Bytecode.Opcodes.{Opcode, opcode_at}
use munchkinglang.Jit.Bytecode.{number_of, skip_instruction}
use munchkinglang.Jit.Pgo.{Run, word_bytes}
use munchkinglang.Jit.Optimizer.{Folding, fold_pass}

-- `pc_remap.find`
unfoldable pub find_pc : ℕ → List (ℕ × ℕ) → Option (ℕ × ℕ)
find_pc pc [] = none
find_pc pc ((k, v) ∷ rest) = if k == pc then some (k, v) else find_pc pc rest

abbrev pub is_better : Option (ℕ × ℕ) → ℕ → Bool
is_better none source_pc = true
is_better (some (best_source, _)) source_pc = ltb best_source source_pc

-- The loop of `remap_target`, with the best entry so far; the map's order is a list's.
unfoldable pub best_entry : ℕ → List (ℕ × ℕ) → Option (ℕ × ℕ) → Option (ℕ × ℕ)
best_entry old_target [] best = best
best_entry old_target ((k, v) ∷ rest) best =
    best_entry old_target rest (if leb k old_target && is_better best k then some (k, v) else best)

abbrev pub output_of : ℕ → Option (ℕ × ℕ) → ℕ
output_of old_target none = old_target % 2 ^ 32
output_of old_target (some (_, output_pc)) = output_pc % 2 ^ 32

unfoldable pub remap_target : List (ℕ × ℕ) → ℕ → ℕ
unfolding find_pc best_entry
remap_target remap old_target = elim (find_pc old_target remap) [
  | none ↦ output_of old_target (best_entry old_target remap none)
  | some exact ↦ output_of old_target (some exact)
]

-- `memcpy` of a `uint32_t`; past the code it is undefined.
unfoldable pub read_word : List ℕ → Option ℕ
read_word bytes = if leb 4 (length bytes) then some (number_of (take 4 bytes)) else none

abbrev pub is_jmp : Option Opcode → Bool
is_jmp (some Opcode.jmp) = true
is_jmp _ = false

abbrev pub has_target : Option Opcode → Bool
has_target (some Opcode.jmp) = true
has_target (some Opcode.jmp_if_false) = true
has_target (some Opcode.jmp_if_true) = true
has_target (some Opcode.monitor_enter) = true
has_target _ = false

-- At most `n` jumps are followed.
unfoldable pub thread : ℕ → List ℕ → ℕ → Option ℕ
unfolding read_word opcode_at
thread zero out target = some target
thread (suc n) out target = elim (drop target out) [
  | [] ↦ some target
  | x ∷ xs ↦ elim (is_jmp (opcode_at x)) [
    | false ↦ some target
    | true ↦ elim (read_word xs) [ none ↦ none | some next ↦ thread n out next ]
  ]
]

abbrev pub put_word : ℕ → ℕ → List ℕ → List ℕ
put_word index target out = take index out ++ (word_bytes target ++ drop (index + 4) out)

-- The target that replaces the one behind the opcode.
unfoldable pub new_target : List (ℕ × ℕ) → List ℕ → List ℕ → Option ℕ
unfolding read_word remap_target thread
new_target remap out operands = elim (read_word operands) [
  | none ↦ none
  | some target ↦ thread 32 out (remap_target remap target)
]

module _ (strings : List ℕ) (remap : List (ℕ × ℕ)) where
  -- At most `n` rounds, from `index` on.
  unfoldable pub retarget_rounds : ℕ → ℕ → List ℕ → Run (List ℕ)
  unfolding new_target skip_instruction opcode_at
  retarget_rounds zero index out = Run.unfinished
  retarget_rounds (suc n) index out = elim (drop index out) [
    | [] ↦ Run.done out
    | x ∷ xs ↦ elim (has_target (opcode_at x)) [
      | true ↦ elim (new_target remap out xs) [
        | none ↦ Run.stopped
        | some target ↦ retarget_rounds n (index + 5) (put_word (index + 1) target out)
      ]
      | false ↦ elim (skip_instruction strings (record { rest = x ∷ xs; pc = index })) [
        | none ↦ Run.stopped
        | some step ↦ retarget_rounds n step.pc out
      ]
    ]
  ]

unfoldable pub retarget_folded : List ℕ → Run Folding → Run (List ℕ)
unfolding retarget_rounds
retarget_folded strings Run.stopped = Run.stopped
retarget_folded strings Run.unfinished = Run.unfinished
retarget_folded strings (Run.done s) =
    retarget_rounds strings s.pc_remap (suc (length s.out)) 0 s.out

unfoldable pub optimize_bytecode : List ℕ → List ℕ → Run (List ℕ)
unfolding fold_pass retarget_folded
optimize_bytecode source strings = retarget_folded strings (fold_pass strings source)
