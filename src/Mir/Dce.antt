-- ===== src/Mir/Dce.antt =====
-- include/native/mir_optimizer.hpp: removal of dead instructions from one function's code.
pub mod Closure
pub mod Keeps
use mathlib.Core.Bool.{◌&&◌, ◌||◌, not}
use munchkinglang.Prelude.{
  ℕ, zero, suc, ◌+◌, ◌%◌, ◌^◌, List, [], ◌∷◌, Bool, true, false, none, some, ◌==◌, if◌then◌else◌,
  get_elem?,
}
use munchkinglang.Mir.Instr.{Instr, Opcode, Code, default_instr}
use munchkinglang.Mir.Fold.{is_const}

unfoldable pub has_side_effect : Opcode → Bool
has_side_effect Opcode.store_local = true
has_side_effect Opcode.print = true
has_side_effect Opcode.println = true
has_side_effect Opcode.call = true
has_side_effect Opcode.ret = true
has_side_effect Opcode.br = true
has_side_effect Opcode.cbr = true
has_side_effect Opcode.label = true
has_side_effect _ = false

abbrev pub is_load : Opcode → Bool
is_load Opcode.load_local = true
is_load _ = false

-- The set `used`, as a list.
abbrev pub contains : List ℕ → ℕ → Bool
contains [] a = false
contains (b ∷ bs) a = b == a || contains bs a

-- `used.insert(a).second` sets `changed`.
pub record Marks : Type 0 where
  pub used : List ℕ
  pub changed : Bool

abbrev pub insert : ℕ → Marks → Marks
insert a s = if contains s.used a then s else record { used = a ∷ s.used; changed = true }

unfoldable pub mark_args : List ℕ → Marks → Marks
mark_args [] s = s
mark_args (a ∷ args) s = mark_args args (insert a s)

-- The first loop: the arguments of instructions with an effect, and of loads.
unfoldable pub mark_roots : Code → Marks → Marks
unfolding mark_args has_side_effect
mark_roots [] s = s
mark_roots (x ∷ code) s =
    mark_roots code (if has_side_effect x.op || is_load x.op then mark_args x.args s else s)

-- One round of the fixed point over a copy `ids` of the set. Ids past the code are skipped.
unfoldable pub mark_round : Code → List ℕ → Marks → Marks
unfolding mark_args
mark_round code [] s = s
mark_round code (id ∷ ids) s =
    mark_round code ids (elim (get_elem? code id) [ none ↦ s | some x ↦ mark_args x.args s ])

-- `while (changed)`, with the rounds that are left.
unfoldable pub mark_loop : ℕ → Code → List ℕ → List ℕ
unfolding mark_round
mark_loop zero code used = used
mark_loop (suc fuel) code used =
    let s = mark_round code used (record { used = used; changed = false }) in
    let rest = mark_loop fuel code s.used in if s.changed then rest else s.used

-- The arguments in the code that are not in `used`: each round but the last finds one of them.
abbrev pub missing_args : List ℕ → List ℕ → ℕ
missing_args used [] = 0
missing_args used (a ∷ args) = (if contains used a then 0 else 1) + missing_args used args

abbrev pub missing : Code → List ℕ → ℕ
missing [] used = 0
missing (x ∷ code) used = missing_args used x.args + missing code used

unfoldable pub used_values : Code → List ℕ
unfolding mark_roots mark_loop
used_values code =
    mark_loop (suc (missing code [])) code
      (mark_roots code (record { used = []; changed = false })).used

unfoldable pub sweep_instr : List ℕ → ℕ → Instr → Instr
unfolding has_side_effect is_const
sweep_instr used i x =
    if has_side_effect x.op || is_const x.op
    then x
    else (if not (contains used (i % 2 ^ 32)) && not (is_load x.op)
        then record default_instr { result = x.result }
        else x)

-- The last loop, from index `i`.
unfoldable pub sweep : List ℕ → ℕ → Code → Code
unfolding sweep_instr
sweep used i [] = []
sweep used i (x ∷ code) = sweep_instr used i x ∷ sweep used (suc i) code

unfoldable pub dce_function : Code → Code
unfolding used_values sweep
dce_function code = sweep (used_values code) 0 code
