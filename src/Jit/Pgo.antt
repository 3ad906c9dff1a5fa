-- ===== src/Jit/Pgo.antt =====
-- include/jit/pgo_optimizer.hpp: what a profile changes before the code is optimized.
pub mod Ends
pub mod Unbiased
mod Tests
use munchkinglang.Prelude.{
  ℕ, zero, suc, ◌+◌, ◌-◌, ◌*◌, ◌/◌, ◌%◌, List, [], ◌∷◌, ◌++◌, Bool, true, false, not, ◌&&◌, ◌||◌,
  Option, none, some, ltb, leb, ◌==◌, if◌then◌else◌, length, take, drop,
}
use munchkinglang.Jit.Profile.{BranchProfile, Sites, find_site, strongly_taken, strongly_not_taken}
use munchkinglang.Jit.Predictor.{BranchPredictor, train}
use munchkinglang.Jit.Bytecode.Opcodes.{Opcode, opcode_at}
use munchkinglang.Jit.Bytecode.{Cursor, read_u8, read_u32, skip_instruction}

-- What comes of a loop: an abort or the read of memory past the code, a result, or more rounds to run.
pub data Run {ℓ} (A : Type ℓ) : Type ℓ where
  stopped : Run A
  done : A → Run A
  unfinished : Run A

abbrev pub is_conditional : Option Opcode → Bool
is_conditional (some Opcode.jmp_if_false) = true
is_conditional (some Opcode.jmp_if_true) = true
is_conditional _ = false

-- `predictor.train(branch_pc, true, jump_pc)`, `n` times.
unfoldable pub train_taken : ℕ → ℕ → ℕ → BranchPredictor → BranchPredictor
unfolding train
train_taken zero branch_pc jump_pc p = p
train_taken (suc n) branch_pc jump_pc p =
    train_taken n branch_pc jump_pc (train p branch_pc true jump_pc)

abbrev pub at_start : List ℕ → Cursor
at_start source = record { rest = source; pc = 0 }

-- `append_scalar` of a `uint32_t`.
abbrev pub word_bytes : ℕ → List ℕ
word_bytes n = n % 256 ∷ n / 256 % 256 ∷ n / 65536 % 256 ∷ n / 16777216 % 256 ∷ []

module _ (strings : List ℕ) where
  -- At most `n` rounds.
  unfoldable pub seed_rounds : ℕ → Cursor → BranchPredictor → Run BranchPredictor
  unfolding read_u8 read_u32 skip_instruction opcode_at train_taken
  seed_rounds zero c p = Run.unfinished
  seed_rounds (suc n) c p = elim (read_u8 c) [
    | none ↦ Run.done p
    | some (x, d) ↦ elim (is_conditional (opcode_at x)) [
      | true ↦ elim (read_u32 d) [
        | none ↦ Run.stopped
        | some (target, e) ↦
            seed_rounds n e (if ltb target c.pc then train_taken 4 c.pc target p else p)
      ]
      | false ↦ elim (skip_instruction strings c) [
        | none ↦ Run.stopped
        | some e ↦ seed_rounds n e p
      ]
    ]
  ]

  unfoldable pub seed_predictor_from_bytecode : ℕ → List ℕ → BranchPredictor → Run BranchPredictor
  unfolding seed_rounds
  seed_predictor_from_bytecode n source p = seed_rounds n (at_start source) p

  -- The bytes of the instruction at `c`, and the cursor behind it.
  unfoldable pub instruction : Cursor → Option (List ℕ × Cursor)
  unfolding skip_instruction
  instruction c = elim (skip_instruction strings c) [
    | none ↦ none
    | some d ↦
        if leb (d.pc - c.pc) (length c.rest) then some (take (d.pc - c.pc) c.rest, d) else none
  ]

  -- What stands for a conditional jump whose site is biased; none where it is copied.
  unfoldable pub specialized : ℕ → Option BranchProfile → Option (List ℕ)
  specialized target none = none
  specialized target (some site) =
      if strongly_not_taken site
      then some (9 ∷ [])
      else if strongly_taken site
      then some (9 ∷ 31 ∷ word_bytes target)
      else none

  -- At most `n` rounds, with `out` written so far.
  unfoldable pub apply_rounds : ℕ → Sites → List ℕ → Cursor → Run (List ℕ)
  unfolding read_u8 read_u32 instruction opcode_at specialized find_site
  apply_rounds zero sites out c = Run.unfinished
  apply_rounds (suc n) sites out c = elim (read_u8 c) [
    | none ↦ Run.done out
    | some (x, d) ↦ elim (is_conditional (opcode_at x)) [
      | true ↦ elim (read_u32 d) [
        | none ↦ Run.stopped
        | some (target, e) ↦ elim (specialized target (find_site c.pc sites)) [
          | some bytes ↦ apply_rounds n sites (out ++ bytes) e
          | none ↦ elim (instruction c) [
            | none ↦ Run.stopped
            | some (bytes, f) ↦ apply_rounds n sites (out ++ bytes) f
          ]
        ]
      ]
      | false ↦ elim (instruction c) [
        | none ↦ Run.stopped
        | some (bytes, f) ↦ apply_rounds n sites (out ++ bytes) f
      ]
    ]
  ]

  -- `pgo_enabled` is the first argument, the number of rounds the second.
  unfoldable pub apply_profile_optimization : Bool → ℕ → List ℕ → Sites → Run (List ℕ)
  unfolding apply_rounds
  apply_profile_optimization false n source sites = Run.done source
  apply_profile_optimization true n source [] = Run.done source
  apply_profile_optimization true n source (s ∷ sites) =
      apply_rounds n (s ∷ sites) [] (at_start source)
