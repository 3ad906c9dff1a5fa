-- ===== src/Jit/Bytecode/Opcodes.antt =====
-- include/Opcode.hpp: the instructions of the virtual machine, in the order of their numbers, and the
-- operands that include/jit/bytecode_utils.hpp takes each to have.
use munchkinglang.Prelude.{ℕ, List, [], ◌∷◌, Option, get_elem?}

pub data Opcode : Type 0 where
  push_int push_float push_string push_char push_bool push_null push_regex push_enum : Opcode
  push_func pop dup swap load store add sub mul div modulo neg eq ne lt gt le ge not : Opcode
  bitwise_and bitwise_or bitwise_xor bitwise_not jmp jmp_if_false jmp_if_true call ret : Opcode
  halt make_array make_tuple index_get member_get unpack cast alloc free clone_object : Opcode
  make_simd simd_to_array make_map pipe_insert pipe_extract channel_insert : Opcode
  channel_extract define_enum define_object lock_create lock_acquire lock_release : Opcode
  monitor_enter monitor_exit hint_branch : Opcode

abbrev pub opcodes : List Opcode
opcodes =
    Opcode.push_int ∷ Opcode.push_float ∷ Opcode.push_string ∷ Opcode.push_char ∷ Opcode.push_bool
    ∷ Opcode.push_null ∷ Opcode.push_regex ∷ Opcode.push_enum ∷ Opcode.push_func ∷ Opcode.pop
    ∷ Opcode.dup ∷ Opcode.swap ∷ Opcode.load ∷ Opcode.store ∷ Opcode.add ∷ Opcode.sub ∷ Opcode.mul
    ∷ Opcode.div ∷ Opcode.modulo ∷ Opcode.neg ∷ Opcode.eq ∷ Opcode.ne ∷ Opcode.lt ∷ Opcode.gt
    ∷ Opcode.le ∷ Opcode.ge ∷ Opcode.not ∷ Opcode.bitwise_and ∷ Opcode.bitwise_or
    ∷ Opcode.bitwise_xor ∷ Opcode.bitwise_not ∷ Opcode.jmp ∷ Opcode.jmp_if_false
    ∷ Opcode.jmp_if_true ∷ Opcode.call ∷ Opcode.ret ∷ Opcode.halt ∷ Opcode.make_array
    ∷ Opcode.make_tuple ∷ Opcode.index_get ∷ Opcode.member_get ∷ Opcode.unpack ∷ Opcode.cast
    ∷ Opcode.alloc ∷ Opcode.free ∷ Opcode.clone_object ∷ Opcode.make_simd ∷ Opcode.simd_to_array
    ∷ Opcode.make_map ∷ Opcode.pipe_insert ∷ Opcode.pipe_extract ∷ Opcode.channel_insert
    ∷ Opcode.channel_extract ∷ Opcode.define_enum ∷ Opcode.define_object ∷ Opcode.lock_create
    ∷ Opcode.lock_acquire ∷ Opcode.lock_release ∷ Opcode.monitor_enter ∷ Opcode.monitor_exit
    ∷ Opcode.hint_branch ∷ []

-- `static_cast<Opcode>`: a byte of no instruction is none.
unfoldable pub opcode_at : ℕ → Option Opcode
opcode_at x = get_elem? opcodes x

pub data Operands : Type 0 where
  nothing eight_bytes byte word name two_names type name_and_names : Operands

-- The cases of `skip_instruction`.
unfoldable pub operands : Opcode → Operands
operands Opcode.push_int = Operands.eight_bytes
operands Opcode.push_float = Operands.eight_bytes
operands Opcode.push_string = Operands.name
operands Opcode.push_char = Operands.byte
operands Opcode.push_bool = Operands.byte
operands Opcode.push_null = Operands.nothing
operands Opcode.push_regex = Operands.name
operands Opcode.push_enum = Operands.two_names
operands Opcode.push_func = Operands.name
operands Opcode.pop = Operands.nothing
operands Opcode.dup = Operands.nothing
operands Opcode.swap = Operands.nothing
operands Opcode.load = Operands.name
operands Opcode.store = Operands.name
operands Opcode.add = Operands.nothing
operands Opcode.sub = Operands.nothing
operands Opcode.mul = Operands.nothing
operands Opcode.div = Operands.nothing
operands Opcode.modulo = Operands.nothing
operands Opcode.neg = Operands.nothing
operands Opcode.eq = Operands.nothing
operands Opcode.ne = Operands.nothing
operands Opcode.lt = Operands.nothing
operands Opcode.gt = Operands.nothing
operands Opcode.le = Operands.nothing
operands Opcode.ge = Operands.nothing
operands Opcode.not = Operands.nothing
operands Opcode.bitwise_and = Operands.nothing
operands Opcode.bitwise_or = Operands.nothing
operands Opcode.bitwise_xor = Operands.nothing
operands Opcode.bitwise_not = Operands.nothing
operands Opcode.jmp = Operands.word
operands Opcode.jmp_if_false = Operands.word
operands Opcode.jmp_if_true = Operands.word
operands Opcode.call = Operands.byte
operands Opcode.ret = Operands.nothing
operands Opcode.halt = Operands.nothing
operands Opcode.make_array = Operands.word
operands Opcode.make_tuple = Operands.word
operands Opcode.index_get = Operands.nothing
operands Opcode.member_get = Operands.name
operands Opcode.unpack = Operands.byte
operands Opcode.cast = Operands.type
operands Opcode.alloc = Operands.word
operands Opcode.free = Operands.name
operands Opcode.clone_object = Operands.nothing
operands Opcode.make_simd = Operands.nothing
operands Opcode.simd_to_array = Operands.nothing
operands Opcode.make_map = Operands.word
operands Opcode.pipe_insert = Operands.name
operands Opcode.pipe_extract = Operands.name
operands Opcode.channel_insert = Operands.name
operands Opcode.channel_extract = Operands.name
operands Opcode.define_enum = Operands.name_and_names
operands Opcode.define_object = Operands.name_and_names
operands Opcode.lock_create = Operands.name
operands Opcode.lock_acquire = Operands.name
operands Opcode.lock_release = Operands.name
operands Opcode.monitor_enter = Operands.word
operands Opcode.monitor_exit = Operands.nothing
operands Opcode.hint_branch = Operands.byte
