-- ===== src/Jit/Bytecode.antt =====
-- include/jit/bytecode_utils.hpp: the cursor over bytecode. With no compile context, as in the virtual
-- machine, `fail_compile` aborts: that is `none`.
pub mod Opcodes
pub mod Skips
pub mod Insns
pub mod Again
pub mod Whole
pub mod Words
pub mod Fetched
use munchkinglang.Prelude.{
  ℕ, zero, suc, ◌+◌, ◌-◌, ◌*◌, ◌^◌, List, [], ◌∷◌, ◌++◌, Bool, true, false, ◌&&◌, ◌||◌, Option,
  none, some, leb, ◌==◌, if◌then◌else◌, length, take, drop,
}
use munchkinglang.Jit.Bytecode.Opcodes.{Opcode, Operands, opcode_at, operands}

-- The code from `pc` on, which is empty where `pc` is at the end or past it.
pub record Cursor : Type 0 where
  pub rest : List ℕ
  pub pc : ℕ

unfoldable pub read_u8 : Cursor → Option (ℕ × Cursor)
read_u8 c = elim c.rest [ [] ↦ none | x ∷ xs ↦ some (x, record { rest = xs; pc = c.pc + 1 }) ]

-- The number that bytes stand for, the lowest first.
abbrev pub number_of : List ℕ → ℕ
number_of [] = 0
number_of (x ∷ xs) = x + 256 * number_of xs

-- `read_scalar` of four bytes.
unfoldable pub read_u32 : Cursor → Option (ℕ × Cursor)
read_u32 c =
    if leb 4 (length c.rest)
    then some (number_of (take 4 c.rest), record { rest = drop 4 c.rest; pc = c.pc + 4 })
    else none

-- The steps that only move on.
abbrev pub Skip : Type 0
Skip = Cursor → Option Cursor

abbrev pub skipped : Option (ℕ × Cursor) → Option Cursor
skipped none = none
skipped (some (x, c)) = some c

abbrev pub then_skip : Skip → Skip → Skip
then_skip f g c = elim (f c) [ none ↦ none | some d ↦ g d ]

-- A step that depends on a `uint32_t`.
abbrev pub with_u32 : (ℕ → Skip) → Skip
with_u32 f c = elim (read_u32 c) [ none ↦ none | some (n, d) ↦ f n d ]

unfoldable pub repeat : ℕ → Skip → Skip
repeat zero f c = some c
repeat (suc n) f c = elim (f c) [ none ↦ none | some d ↦ repeat n f d ]

module _ (strings : List ℕ) where
  abbrev pub check_name : ℕ → ℕ → Skip
  check_name offset size c =
      if leb offset (length strings) && leb size (length strings - offset) then some c else none

  -- `read_name`, less the text.
  unfoldable pub skip_name : Skip
  unfolding read_u32
  skip_name = with_u32 (λ offset. with_u32 (λ size. check_name offset size))

  -- `read_type`, less the type, nested at most `n` deep.
  unfoldable pub skip_type : ℕ → Skip
  unfolding read_u8 read_u32 skip_name repeat
  skip_type zero c = none
  skip_type (suc n) c = elim (read_u8 c) [
    | none ↦ none
    | some (kind, d) ↦
        if kind == 0
        then skipped (read_u8 d)
        else if kind == 1
        then skip_name d
        else if kind == 2
        then skip_type n d
        else if kind == 3
        then with_u32 (λ count. repeat count (skip_type n)) d
        else if kind == 4
        then then_skip (skip_type n) (skip_type n) d
        else if kind == 5
        then with_u32 (λ count. then_skip (repeat count (skip_type n)) (skip_type n)) d
        else some d
  ]

  -- Each level of a type takes a byte, so that with none left no level is missing.
  unfoldable pub skip_operands : Operands → Skip
  unfolding read_u8 read_u32 skip_name skip_type repeat
  skip_operands Operands.nothing c = some c
  skip_operands Operands.eight_bytes c = some (record { rest = drop 8 c.rest; pc = c.pc + 8 })
  skip_operands Operands.byte c = skipped (read_u8 c)
  skip_operands Operands.word c = skipped (read_u32 c)
  skip_operands Operands.name c = skip_name c
  skip_operands Operands.two_names c = then_skip skip_name skip_name c
  skip_operands Operands.type c = skip_type (suc (length c.rest)) c
  skip_operands Operands.name_and_names c =
      then_skip skip_name (with_u32 (λ count. repeat count skip_name)) c

  unfoldable pub skip_instruction : Skip
  unfolding read_u8 skip_operands opcode_at operands
  skip_instruction c = elim (read_u8 c) [
    | none ↦ none
    | some (x, d) ↦ elim (opcode_at x) [ none ↦ some d | some op ↦ skip_operands (operands op) d ]
  ]
