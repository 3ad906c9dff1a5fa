-- ===== src/Mir/Instr.antt =====
-- include/native/mir.hpp: instructions, functions and the module with its string table.
use Prim.Native.String.{String}
use text.Mathlib.Text.{◌==◌ as str_eq}
use munchkinglang.Prelude.{ℕ, ◌+◌, ◌-◌, ◌%◌, ◌^◌, List, [], ◌∷◌, Bool, false, if◌then◌else◌}
use munchkinglang.Prelude.Int.{ℤ, pos}

pub data MirType : Type 0 where
  i64 f64 b1 value void_ : MirType

pub data Opcode : Type 0 where
  const_i64 const_f64 const_bool const_null const_str : Opcode
  load_local store_local : Opcode
  add sub mul div mod_ neg not_ eq ne lt gt le ge : Opcode
  print println call ret br cbr label : Opcode

-- `float_bits` is the bit pattern of the double. `args` holds indices into the code: the value of
-- an instruction is named by its position.
pub record Instr : Type 0 where
  pub op : Opcode
  pub ty : MirType
  pub int : ℤ
  pub float_bits : ℕ
  pub flag : Bool
  pub local : ℕ
  pub str_index : ℕ
  pub block_target : ℕ
  pub block_target_false : ℕ
  pub branch_hint : ℕ
  pub callee : String
  pub args : List ℕ
  pub result : ℕ

-- `instr{}`
abbrev pub default_instr : Instr
default_instr = record {
  op = const_null;
  ty = MirType.value;
  int = pos 0;
  float_bits = 0;
  flag = false;
  local = 0;
  str_index = 0;
  block_target = 0;
  block_target_false = 0;
  branch_hint = 0;
  callee = "";
  args = [];
  result = 2 ^ 32 - 1;
}

abbrev pub Code : Type 0
Code = List Instr

pub record Function : Type 0 where
  pub name : String
  pub is_entry_init : Bool
  pub param_count : ℕ
  pub local_count : ℕ
  pub local_names : List String
  pub code : Code

pub record Module : Type 0 where
  pub entry_package : String
  pub strings : List String
  pub functions : List Function

-- The loop of `intern` from index `i` on; past the end the string is appended.
pub intern_from : String → ℕ → List String → ℕ × List String
intern_from s i [] = (i % 2 ^ 32, s ∷ [])
intern_from s i (t ∷ ts) =
    let rest = intern_from s (i + 1) ts in if str_eq t s then (i, t ∷ ts) else (rest.0, t ∷ rest.1)

pub intern : Module → String → ℕ × Module
unfolding intern_from
intern m s = let found = intern_from s 0 m.strings in (found.0, record m { strings = found.1 })
