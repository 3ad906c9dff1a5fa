-- ===== src/Mir/Fold/Denote/Loop.antt =====
-- include/native/mir_optimizer.hpp: `const_fold_function` keeps the value of every instruction.
use mathlib.Core.Option.{none-ne-some, some-injective}
use mathlib.Core.Path.{subst}
use native.Mathlib.Decide.{ℕ_discrete}
use munchkinglang.Prelude.{
  ℕ, zero, suc, ◌+◌, ◌%◌, ◌^◌, length, Option, none, some, ◌≡◌, ◌≢◌, refl, ◌∙◌, same_some,
  bind-some, get_elem?, set, get_elem?-lt, get_elem?-set_self, get_elem?-set_ne,
}
use munchkinglang.Mir.Instr.{Instr, Code}
use munchkinglang.Mir.Runtime.{Host, Value}
use munchkinglang.Mir.Fold.{
  Folding, folded, kept, undefined, fold_instr, write_folding, const_fold_at, const_fold_loop,
  const_fold_function,
}
use munchkinglang.Mir.Fold.Denote.{
  Denotes, constant, loaded, negated, inverted, computed, const_value-result, folded-Denotes,
}

module _ (h : Host) (strings opaque : ℕ → Value h) where
  -- Replacing one foldable instruction keeps every value.
  module _ (code : Code) (i : ℕ) (x r : Instr) (e : get_elem? code i ≡ some x)
      (fo : fold_instr code x x.op ≡ folded r) where
    self-Denotes :
        {v : Value h}
        → Denotes h strings opaque code i v
        → Denotes h strings opaque (set code i (record r { result = i % 2 ^ 32 })) i v
    self-Denotes d =
        constant (record r { result = i % 2 ^ 32 })
          (get_elem?-set_self code i _ (get_elem?-lt code i e))
          (const_value-result h strings opaque r.op r (i % 2 ^ 32)
            ∙ folded-Denotes h strings opaque code i r
                (λ z ez. subst (λ y. fold_instr code y y.op ≡ folded r) (same_some e ez) fo) d)

    at_other :
        {j : ℕ} {v : Value h}
        → Denotes h strings opaque code j v
        → (i ≢ j → Denotes h strings opaque (set code i (record r { result = i % 2 ^ 32 })) j v)
        → Denotes h strings opaque (set code i (record r { result = i % 2 ^ 32 })) j v
    at_other {j} {v} d other = elim (ℕ_discrete i j) [
      | yes same ↦
          subst
            (λ k.
              Denotes h strings opaque code k v
              → Denotes h strings opaque (set code i (record r { result = i % 2 ^ 32 })) k v)
            same self-Denotes d
      | no differ ↦ other differ
    ]

    set-Denotes :
        {j : ℕ} {v : Value h}
        → Denotes h strings opaque code j v
        → Denotes h strings opaque (set code i (record r { result = i % 2 ^ 32 })) j v
    set-Denotes (constant y ey cy) =
        at_other (constant y ey cy) (λ n. constant y (get_elem?-set_ne code _ n ∙ ey) cy)
    set-Denotes (loaded y ey oy q) =
        at_other (loaded y ey oy q) (λ n. loaded y (get_elem?-set_ne code _ n ∙ ey) oy q)
    set-Denotes (negated y a u ey oy ay d q) =
        let d' = set-Denotes d in
        at_other (negated y a u ey oy ay d q)
          (λ n. negated y a u (get_elem?-set_ne code _ n ∙ ey) oy ay d' q)
    set-Denotes (inverted y a u ey oy ay d q) =
        let d' = set-Denotes d in
        at_other (inverted y a u ey oy ay d q)
          (λ n. inverted y a u (get_elem?-set_ne code _ n ∙ ey) oy ay d' q)
    set-Denotes (computed y a b u w ey ay d c q) =
        let d' = set-Denotes d in
        let c' = set-Denotes c in
        at_other (computed y a b u w ey ay d c q)
          (λ n. computed y a b u w (get_elem?-set_ne code _ n ∙ ey) ay d' c' q)

  written-Denotes :
      (code : Code) (i : ℕ) (x : Instr) (fo : Folding) {code' : Code} {j : ℕ} {v : Value h}
      → get_elem? code i ≡ some x
      → fold_instr code x x.op ≡ fo
      → write_folding i code fo ≡ some code'
      → Denotes h strings opaque code j v
      → Denotes h strings opaque code' j v
  unfolding write_folding
  written-Denotes code i x (folded r) {j} {v} e fo w d =
      subst (λ c. Denotes h strings opaque c j v) (some-injective _ _ w)
        (set-Denotes code i x r e fo d)
  written-Denotes code i x kept {j} {v} e fo w d =
      subst (λ c. Denotes h strings opaque c j v) (some-injective _ _ w) d
  written-Denotes code i x undefined e fo w d = absurd (none-ne-some _ w)

  round-Denotes :
      (i : ℕ) (code : Code) (o : Option Instr) {code' : Code} {j : ℕ} {v : Value h}
      → get_elem? code i ≡ o
      → elim o [ none ↦ some code | some x ↦ write_folding i code (fold_instr code x x.op) ]
        ≡ some code'
      → Denotes h strings opaque code j v
      → Denotes h strings opaque code' j v
  round-Denotes i code none {j} {v} e w d =
      subst (λ c. Denotes h strings opaque c j v) (some-injective _ _ w) d
  round-Denotes i code (some x) e w d = written-Denotes code i x (fold_instr code x x.op) e refl w d

  loop-Denotes :
      (n i : ℕ) (code : Code) {code' : Code} {j : ℕ} {v : Value h}
      → const_fold_loop n i code ≡ some code'
      → Denotes h strings opaque code j v
      → Denotes h strings opaque code' j v
  unfolding const_fold_loop const_fold_at
  loop-Denotes zero i code {j} {v} w d =
      subst (λ c. Denotes h strings opaque c j v) (some-injective _ _ w) d
  loop-Denotes (suc n) i code w d =
      let (c, p, q) = bind-some (const_fold_at i code) _ w in
      loop-Denotes n (i + 1) c q (round-Denotes i code (get_elem? code i) refl p d)

  -- Constant folding keeps the value of every instruction: whatever index `j` denoted before, it
  -- denotes after, wherever folding meets no undefined behaviour.
  pub const_fold_function-Denotes :
      (code : Code) {code' : Code} {j : ℕ} {v : Value h}
      → const_fold_function code ≡ some code'
      → Denotes h strings opaque code j v
      → Denotes h strings opaque code' j v
  unfolding const_fold_function
  const_fold_function-Denotes code w d = loop-Denotes (length code) 0 code w d
