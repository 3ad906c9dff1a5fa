-- ===== src/Jit/Bytecode/Insns.antt =====
-- include/jit/bytecode_utils.hpp: whole instructions, read and written. The optimizer and the virtual
-- machine read code so: the constants that can be folded, and any other instruction by its bytes.
use munchkinglang.Prelude.{
  ℕ, zero, suc, ◌+◌, ◌/◌, ◌%◌, List, [], ◌∷◌, ◌++◌, Bool, true, false, not, Option, none, some, leb,
  ◌==◌, if◌then◌else◌, length, take, drop,
}
use munchkinglang.Prelude.Int.{ℤ, to_word, of_word}
use munchkinglang.Jit.Bytecode.Opcodes.{Opcode, opcode_at}
use munchkinglang.Jit.Bytecode.{Cursor, read_u8, number_of}
use munchkinglang.Jit.Pgo.{instruction}

-- `plain` has the opcode's byte and the bytes of the operands.
pub data Insn : Type 0 where
  push_int : ℤ → Insn
  push_bool : Bool → Insn
  plain : ℕ → List ℕ → Insn

-- `read_scalar` of an `int64_t`.
unfoldable pub read_i64 : Cursor → Option (ℤ × Cursor)
unfolding of_word
read_i64 c =
    if leb 8 (length c.rest)
    then some (of_word (number_of (take 8 c.rest)), record { rest = drop 8 c.rest; pc = c.pc + 8 })
    else none

-- The lowest `n` bytes of a number, the lowest first.
unfoldable pub low_bytes : ℕ → ℕ → List ℕ
low_bytes zero x = []
low_bytes (suc n) x = x % 256 ∷ low_bytes n (x / 256)

-- `append_scalar` of an `int64_t`.
unfoldable pub i64_bytes : ℤ → List ℕ
unfolding to_word low_bytes
i64_bytes z = low_bytes 8 (to_word z)

abbrev pub flag_byte : Bool → ℕ
flag_byte flag = if flag then 1 else 0

-- The bytes that the optimizer writes for an instruction.
unfoldable pub emit : Insn → List ℕ
unfolding i64_bytes
emit (push_int z) = 0 ∷ i64_bytes z
emit (push_bool flag) = 4 ∷ flag_byte flag ∷ []
emit (plain x operands) = x ∷ operands

unfoldable pub emit_all : List Insn → List ℕ
unfolding emit
emit_all [] = []
emit_all (i ∷ is) = emit i ++ emit_all is

abbrev pub behind_first : List ℕ → List ℕ
behind_first [] = []
behind_first (x ∷ xs) = xs

abbrev pub is_push_int : Option Opcode → Bool
is_push_int (some Opcode.push_int) = true
is_push_int _ = false

abbrev pub is_push_bool : Option Opcode → Bool
is_push_bool (some Opcode.push_bool) = true
is_push_bool _ = false

-- The instruction at the cursor, and the cursor behind it; `none` where the code ends inside it.
unfoldable pub fetch : List ℕ → Cursor → Option (Insn × Cursor)
unfolding read_u8 opcode_at read_i64 instruction
fetch strings c = elim (read_u8 c) [
  | none ↦ none
  | some (x, d) ↦ elim (is_push_int (opcode_at x)) [
    | true ↦ elim (read_i64 d) [ none ↦ none | some (z, e) ↦ some (push_int z, e) ]
    | false ↦ elim (is_push_bool (opcode_at x)) [
      | true ↦ elim (read_u8 d) [
        | none ↦ none
        | some (flag, e) ↦ some (push_bool (not (flag == 0)), e)
      ]
      | false ↦ elim (instruction strings c) [
        | none ↦ none
        | some (bytes, e) ↦ some (plain x (behind_first bytes), e)
      ]
    ]
  ]
]
