-- ===== src/Jit/Optimizer.antt =====
-- include/jit/bytecode_optimizer.hpp: the loop of `optimize_bytecode` that folds constants.
pub mod Meaning
pub mod Ranges
pub mod Reached
pub mod Operators
pub mod Sound
pub mod Size
pub mod Equivalence
pub mod Retarget
pub mod Profiled
mod Tests
use munchkinglang.Prelude.{
  ℕ, zero, suc, List, [], ◌∷◌, ◌++◌, Bool, true, false, not, Option, none, some, ◌==◌,
  if◌then◌else◌, length,
}
use munchkinglang.Prelude.Int.{ℤ, pos, ltb_ℤ, leb_ℤ, eqb_ℤ}
use munchkinglang.Mir.Runtime.{i64_add, i64_sub, i64_mul, i64_div, i64_mod, i64_neg}
use munchkinglang.Vm.Ops.{int_bitwise}
use munchkinglang.Jit.Bytecode.Opcodes.{Opcode, opcode_at}
use munchkinglang.Jit.Bytecode.{Cursor}
use munchkinglang.Jit.Bytecode.Insns.{Insn, push_int, push_bool, plain, emit, emit_all, fetch}
use munchkinglang.Jit.Pgo.{Run, at_start}

-- `pending_fold`: the constants that are read and not yet written, of a pair the left one first.
pub data PendingFold : Type 0 where
  nothing : PendingFold
  int : ℤ → PendingFold
  int_pair : ℤ → ℤ → PendingFold
  flag : Bool → PendingFold

-- The local variables of `optimize_bytecode`.
pub record Folding : Type 0 where
  pub out : List ℕ
  pub pc_remap : List (ℕ × ℕ)
  pub pending : PendingFold
  pub pending_pc : Option ℕ

abbrev pub assign : ℕ → ℕ → List (ℕ × ℕ) → List (ℕ × ℕ)
assign key value [] = (key, value) ∷ []
assign key value ((k, v) ∷ rest) =
    let others = assign key value rest in if k == key then (key, value) ∷ rest else (k, v) ∷ others

unfoldable pub record_pc : ℕ → Folding → Folding
record_pc source_pc s = record s { pc_remap = assign source_pc (length s.out) s.pc_remap }

-- `record_pc(*pending_pc); pending_pc.reset()`
unfoldable pub record_pending : Folding → Folding
unfolding record_pc
record_pending s = elim s.pending_pc [
  | none ↦ s
  | some pc ↦ record (record_pc pc s) { pending_pc = none }
]

unfoldable pub write : List Insn → Folding → Folding
unfolding emit_all
write is s = record s { out = s.out ++ emit_all is }

-- The instructions that push what is pending.
unfoldable pub pending_insns : PendingFold → List Insn
pending_insns nothing = []
pending_insns (int z) = push_int z ∷ []
pending_insns (int_pair left right) = push_int left ∷ push_int right ∷ []
pending_insns (flag b) = push_bool b ∷ []

abbrev pub is_nothing : PendingFold → Bool
is_nothing nothing = true
is_nothing _ = false

unfoldable pub flush_pending : Folding → Folding
unfolding record_pending write pending_insns
flush_pending s =
    if is_nothing s.pending
    then s
    else record (write (pending_insns s.pending) (record_pending s)) { pending = nothing }

-- The constants are taken, and the instruction at `start` stands for what comes of them.
unfoldable pub taken_at : ℕ → Folding → Folding
unfolding record_pc
taken_at start s = record_pc start (record s { pending = nothing; pending_pc = none })

unfoldable pub hold : ℕ → PendingFold → Folding → Folding
hold start p s = record s { pending = p; pending_pc = some start }

abbrev pub folded {ℓ} : {A : Type ℓ} → Option A → Option (Option A)
folded none = none
folded (some z) = some (some z)

-- The inner `none` is the source's `nullopt`; the outer one is signed overflow, which is undefined.
unfoldable pub try_fold_binary_int : Opcode → ℤ → ℤ → Option (Option ℤ)
unfolding int_bitwise
try_fold_binary_int Opcode.add left right = folded (i64_add left right)
try_fold_binary_int Opcode.sub left right = folded (i64_sub left right)
try_fold_binary_int Opcode.mul left right = folded (i64_mul left right)
try_fold_binary_int Opcode.div left right =
    if eqb_ℤ right (pos 0) then some none else folded (i64_div left right)
try_fold_binary_int Opcode.modulo left right =
    if eqb_ℤ right (pos 0) then some none else folded (i64_mod left right)
try_fold_binary_int Opcode.bitwise_and left right =
    folded (int_bitwise Opcode.bitwise_and left right)
try_fold_binary_int Opcode.bitwise_or left right = folded (int_bitwise Opcode.bitwise_or left right)
try_fold_binary_int Opcode.bitwise_xor left right =
    folded (int_bitwise Opcode.bitwise_xor left right)
try_fold_binary_int _ left right = some none

unfoldable pub try_fold_compare_int : Opcode → ℤ → ℤ → Option Bool
try_fold_compare_int Opcode.eq left right = some (eqb_ℤ left right)
try_fold_compare_int Opcode.ne left right = some (not (eqb_ℤ left right))
try_fold_compare_int Opcode.lt left right = some (ltb_ℤ left right)
try_fold_compare_int Opcode.gt left right = some (ltb_ℤ right left)
try_fold_compare_int Opcode.le left right = some (leb_ℤ left right)
try_fold_compare_int Opcode.ge left right = some (leb_ℤ right left)
try_fold_compare_int _ left right = none

-- What the guards of the loop tell apart.
pub data Class : Type 0 where
  binary compare negate invert discard other : Class

unfoldable pub class_of : Opcode → Class
class_of Opcode.add = Class.binary
class_of Opcode.sub = Class.binary
class_of Opcode.mul = Class.binary
class_of Opcode.div = Class.binary
class_of Opcode.modulo = Class.binary
class_of Opcode.bitwise_and = Class.binary
class_of Opcode.bitwise_or = Class.binary
class_of Opcode.bitwise_xor = Class.binary
class_of Opcode.eq = Class.compare
class_of Opcode.ne = Class.compare
class_of Opcode.lt = Class.compare
class_of Opcode.gt = Class.compare
class_of Opcode.le = Class.compare
class_of Opcode.ge = Class.compare
class_of Opcode.neg = Class.negate
class_of Opcode.not = Class.invert
class_of Opcode.pop = Class.discard
class_of _ = Class.other

abbrev pub opcode_alone : ℕ → Insn
opcode_alone x = plain x []

-- The instruction is copied behind the constants.
unfoldable pub copy : ℕ → Insn → Folding → Option Folding
unfolding flush_pending record_pc write
copy start i s = some (write (i ∷ []) (record_pc start (flush_pending s)))

unfoldable pub fold_binary : ℕ → ℕ → Opcode → ℤ → ℤ → Folding → Option Folding
unfolding taken_at hold write try_fold_binary_int
fold_binary start x op left right s = elim (try_fold_binary_int op left right) [
  | none ↦ none
  | some none ↦
      some (write (push_int left ∷ push_int right ∷ opcode_alone x ∷ []) (taken_at start s))
  | some (some z) ↦ some (hold start (int z) (taken_at start s))
]

unfoldable pub fold_compare : ℕ → ℕ → Opcode → ℤ → ℤ → Folding → Option Folding
unfolding taken_at hold write try_fold_compare_int
fold_compare start x op left right s = elim (try_fold_compare_int op left right) [
  | none ↦ some (write (push_int left ∷ push_int right ∷ opcode_alone x ∷ []) (taken_at start s))
  | some b ↦ some (hold start (flag b) (taken_at start s))
]

-- The left operand is not a constant.
unfoldable pub half_constant : ℕ → ℕ → ℤ → Folding → Option Folding
unfolding taken_at write
half_constant start x right s =
    some (write (push_int right ∷ opcode_alone x ∷ []) (taken_at start s))

unfoldable pub negate_pending : ℕ → ℤ → Folding → Option Folding
unfolding record_pc
negate_pending start z s = elim (i64_neg z) [
  | none ↦ none
  | some w ↦ some (record (record_pc start s) { pending = int w })
]

unfoldable pub invert_pending : ℕ → Bool → Folding → Option Folding
unfolding record_pc
invert_pending start b s = some (record (record_pc start s) { pending = flag (not b) })

-- A POP takes whatever is pending away.
unfoldable pub discard_pending : ℕ → Folding → Option Folding
unfolding taken_at
discard_pending start s = some (taken_at start s)

unfoldable pub act_opcode : ℕ → ℕ → List ℕ → Opcode → PendingFold → Class → Folding → Option Folding
unfolding copy fold_binary fold_compare half_constant negate_pending invert_pending discard_pending
act_opcode start x ops op (int_pair l r) Class.binary s = fold_binary start x op l r s
act_opcode start x ops op (int_pair l r) Class.compare s = fold_compare start x op l r s
act_opcode start x ops op (int_pair l r) Class.discard s = discard_pending start s
act_opcode start x ops op (int r) Class.binary s = half_constant start x r s
act_opcode start x ops op (int r) Class.compare s = half_constant start x r s
act_opcode start x ops op (int r) Class.negate s = negate_pending start r s
act_opcode start x ops op (int r) Class.discard s = discard_pending start s
act_opcode start x ops op (flag b) Class.invert s = invert_pending start b s
act_opcode start x ops op (flag b) Class.discard s = discard_pending start s
act_opcode start x ops op p c s = copy start (plain x ops) s

unfoldable pub act_push_int : ℕ → ℤ → PendingFold → Folding → Folding
unfolding flush_pending hold
act_push_int start value (int left) s = record s { pending = int_pair left value }
act_push_int start value (int_pair l r) s = hold start (int value) (flush_pending s)
act_push_int start value _ s = hold start (int value) s

unfoldable pub act_push_bool : ℕ → Bool → PendingFold → Folding → Folding
unfolding flush_pending hold record_pc write
act_push_bool start b nothing s = hold start (flag b) s
act_push_bool start b _ s = write (push_bool b ∷ []) (record_pc start (flush_pending s))

-- One round on the instruction at `start`; `none` is undefined behaviour.
unfoldable pub act : ℕ → Insn → Folding → Option Folding
unfolding act_push_int act_push_bool act_opcode class_of opcode_at copy
act start (push_int value) s = some (act_push_int start value s.pending s)
act start (push_bool b) s = some (act_push_bool start b s.pending s)
act start (plain x operands) s = elim (opcode_at x) [
  | none ↦ copy start (plain x operands) s
  | some op ↦ act_opcode start x operands op s.pending (class_of op) s
]

abbrev pub empty_folding : Folding
empty_folding = record { out = []; pc_remap = []; pending = nothing; pending_pc = none }

module _ (strings : List ℕ) where
  -- At most `n` rounds.
  unfoldable pub fold_rounds : ℕ → Cursor → Folding → Run Folding
  unfolding fetch act flush_pending
  fold_rounds zero c s = Run.unfinished
  fold_rounds (suc n) c s = elim c.rest [
    | [] ↦ Run.done (flush_pending s)
    | x ∷ xs ↦ elim (fetch strings c) [
      | none ↦ Run.stopped
      | some (i, d) ↦ elim (act c.pc i s) [ none ↦ Run.stopped | some t ↦ fold_rounds n d t ]
    ]
  ]

  unfoldable pub fold_pass : List ℕ → Run Folding
  unfolding fold_rounds
  fold_pass source = fold_rounds (suc (length source)) (at_start source) empty_folding
