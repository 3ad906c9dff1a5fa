-- ===== src/Mir/Fold/Works.antt =====
-- include/native/mir_optimizer.hpp: what `const_fold_function` does to an instruction that is there for
-- more than its value.
use mathlib.Core.Option.{none-ne-some, some-injective}
use mathlib.Core.Path.{subst}
use native.Mathlib.Decide.{ℕ_discrete}
use munchkinglang.Prelude.{
  ℕ, zero, suc, ◌+◌, ◌%◌, ◌^◌, List, [], ◌∷◌, Bool, true, false, length, Option, none, some, ◌≡◌,
  ◌⊎◌, inl, inr, refl, sym, ◌∙◌, same_some, bind-some, get_elem?, set, get_elem?-lt,
  get_elem?-set_self, get_elem?-set_ne, Bool-cases, arith,
}
use munchkinglang.Mir.Instr.{Instr, Opcode, Code}
use munchkinglang.Mir.Fold.{
  Folding, folded, kept, undefined, on_one, fold_cbr, fold_instr, write_folding, const_fold_at,
  const_fold_loop, const_fold_function,
}

-- The opcodes whose C does more than give a value: it stores, prints, calls, returns, jumps or is a
-- place to jump to.
unfoldable pub is_work : Opcode → Bool
is_work Opcode.store_local = true
is_work Opcode.print = true
is_work Opcode.println = true
is_work Opcode.call = true
is_work Opcode.ret = true
is_work Opcode.br = true
is_work Opcode.cbr = true
is_work Opcode.label = true
is_work _ = false

-- An instruction is left as it is, or a conditional jump is decided for one of its targets.
pub data Becomes (x y : Instr) : Type 0 where
  same : y ≡ x → Becomes x y
  decided :
      x.op ≡ Opcode.cbr
      → y.op ≡ Opcode.br
      → (y.block_target ≡ x.block_target) ⊎ (y.block_target ≡ x.block_target_false)
      → Becomes x y

Becomes-trans : (x y z : Instr) → Becomes x y → Becomes y z → Becomes x z
Becomes-trans x y z (same e) b = subst (λ k. Becomes k z) e b
Becomes-trans x y z (decided c j t) (same e) = subst (Becomes x) (sym e) (decided c j t)
Becomes-trans x y z (decided c j t) (decided c' j' t') = absurd (cc)

cbr_target :
    (o : Opcode) (l x r : Instr)
    → fold_cbr o l x ≡ folded r
    → (r.op ≡ Opcode.br)
      × ((r.block_target ≡ x.block_target) ⊎ (r.block_target ≡ x.block_target_false))
unfolding fold_cbr
cbr_target Opcode.const_bool l x r e = elim (Bool-cases l.flag) [
  | inl q ↦ (cc, inl (ground arith))
  | inr q ↦ (cc, inr (ground arith))
]
cbr_target o l x r e = absurd (cc)

read_target :
    (o : Option Instr) (x r : Instr)
    → elim o [ none ↦ kept | some l ↦ fold_cbr l.op l x ] ≡ folded r
    → (r.op ≡ Opcode.br)
      × ((r.block_target ≡ x.block_target) ⊎ (r.block_target ≡ x.block_target_false))
read_target none x r e = absurd (cc)
read_target (some l) x r e = cbr_target l.op l x r e

args_target :
    (code : Code) (args : List ℕ) (x r : Instr)
    → on_one (λ l. fold_cbr l.op l x) code args ≡ folded r
    → (r.op ≡ Opcode.br)
      × ((r.block_target ≡ x.block_target) ⊎ (r.block_target ≡ x.block_target_false))
args_target code [] x r e = absurd (cc)
args_target code (a ∷ []) x r e = read_target (get_elem? code a) x r e
args_target code (a ∷ b ∷ args) x r e = absurd (cc)

work_folds :
    (code : Code) (x r : Instr) (o : Opcode)
    → is_work o ≡ true
    → fold_instr code x o ≡ folded r
    → (o ≡ Opcode.cbr)
      × (r.op ≡ Opcode.br)
      × ((r.block_target ≡ x.block_target) ⊎ (r.block_target ≡ x.block_target_false))
unfolding fold_instr is_work
work_folds code x r Opcode.cbr w e = let (j, t) = args_target code x.args x r e in (refl, j, t)
work_folds code x r o w e = absurd (cc)

-- Every work of `code` is at its index in `c`.
Works : Code → Code → Type 0
Works code c =
    (i : ℕ) (x : Instr)
    → get_elem? code i ≡ some x
    → is_work x.op ≡ true
    → (y : Instr) × (get_elem? c i ≡ some y) × (is_work y.op ≡ true) × Becomes x y

Works-refl : (code : Code) → Works code code
unfolding Works
Works-refl code i x e w = (x, e, w, same refl)

Works-trans : (a b c : Code) → Works a b → Works b c → Works a c
unfolding Works
Works-trans a b c f g i x e w =
    let (y, ey, wy, xy) = f i x e w in
    let (z, ez, wz, yz) = g i y ey wy in (z, ez, wz, Becomes-trans x y z xy yz)

set-Works :
    (code : Code) (i : ℕ) (x r : Instr)
    → get_elem? code i ≡ some x
    → fold_instr code x x.op ≡ folded r
    → Works code (set code i (record r { result = i % 2 ^ 32 }))
unfolding Works is_work
set-Works code i x r e fo j z ez w = elim (ℕ_discrete i j) [
  | no differ ↦ (z, get_elem?-set_ne code _ differ ∙ ez, w, same refl)
  | yes at ↦
      let z-x = same_some (subst (λ k. get_elem? code k ≡ some z) (sym at) ez) e in
      let (c, b, t) = work_folds code x r x.op (subst (λ k. is_work k.op ≡ true) z-x w) fo in
      let y = record r { result = i % 2 ^ 32 } in
      (
        y,
        subst (λ k. get_elem? (set code i y) k ≡ some y) at
            (get_elem?-set_self code i y (get_elem?-lt code i e)),
        subst (λ o. is_work o ≡ true) (sym b) refl,
        subst (λ k. Becomes k y) (sym z-x) (decided c b t),
      )
]

written-Works :
    (code : Code) (i : ℕ) (x : Instr) (fo : Folding) (c : Code)
    → get_elem? code i ≡ some x
    → fold_instr code x x.op ≡ fo
    → write_folding i code fo ≡ some c
    → Works code c
unfolding write_folding
written-Works code i x (folded r) c e fo w =
    subst (Works code) (some-injective _ _ w) (set-Works code i x r e fo)
written-Works code i x kept c e fo w = subst (Works code) (some-injective _ _ w) (Works-refl code)
written-Works code i x undefined c e fo w = absurd (none-ne-some _ w)

round-Works :
    (i : ℕ) (code : Code) (o : Option Instr) (c : Code)
    → get_elem? code i ≡ o
    → elim o [ none ↦ some code | some x ↦ write_folding i code (fold_instr code x x.op) ] ≡ some c
    → Works code c
round-Works i code none c e w = subst (Works code) (some-injective _ _ w) (Works-refl code)
round-Works i code (some x) c e w = written-Works code i x (fold_instr code x x.op) c e refl w

loop-Works : (n i : ℕ) (code c : Code) → const_fold_loop n i code ≡ some c → Works code c
unfolding const_fold_loop const_fold_at
loop-Works zero i code c w = subst (Works code) (some-injective _ _ w) (Works-refl code)
loop-Works (suc n) i code c w =
    let (d, p, q) = bind-some (const_fold_at i code) _ w in
    Works-trans code d c (round-Works i code (get_elem? code i) d refl p)
      (loop-Works n (i + 1) d c q)

-- Folding leaves every work at its index, and changes none but a conditional jump, which it may
-- decide for one of its targets.
pub const_fold_function_works :
    (code c : Code) (i : ℕ) (x : Instr)
    → const_fold_function code ≡ some c
    → get_elem? code i ≡ some x
    → is_work x.op ≡ true
    → (y : Instr) × (get_elem? c i ≡ some y) × (is_work y.op ≡ true) × Becomes x y
unfolding const_fold_function Works
const_fold_function_works code c i x w e o = loop-Works (length code) 0 code c w i x e o
