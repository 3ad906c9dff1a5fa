-- ===== src/Mir/Optimize.antt =====
-- include/native/mir_optimizer.hpp: `optimize_mir`, the three passes in order on every function.
use mathlib.Core.Bool.{false≢true}
use mathlib.Core.Option.{none-ne-some, some-injective}
use mathlib.Core.Path.{subst}
use munchkinglang.Prelude.{
  ℕ, ◌^◌, ◌≤◌, ◌<◌, List, [], ◌∷◌, true, false, Option, none, some, ◌>>=◌, ◌≡◌, ◌≢◌, refl, sym, ◌∙◌,
  same_some, length, get_elem?, get_elem?-lt, get_elem?-some,
}
use munchkinglang.Mir.Instr.{Instr, Opcode, Code, Function, Module}
use munchkinglang.Mir.Runtime.{Host, Value}
use munchkinglang.Mir.Runtime.Ops.{runtime_binop}
use munchkinglang.Mir.Fold.{const_fold_function}
use munchkinglang.Mir.Fold.Exact.{const_value_of, call_binop}
use munchkinglang.Mir.Fold.Denote.{
  is_opaque, Denotes, constant, loaded, negated, inverted, computed,
}
use munchkinglang.Mir.Fold.Denote.Loop.{const_fold_function-Denotes}
use munchkinglang.Mir.Thread.{block_at, jump_thread_function}
use munchkinglang.Mir.Thread.Silent.{Follows, TargetsExist}
use munchkinglang.Mir.Thread.Sound.{jump_thread_function-FollowsAll}
use munchkinglang.Mir.Dce.{has_side_effect, dce_function}
use munchkinglang.Mir.Dce.Closure.{Holds}
use munchkinglang.Mir.Dce.Keeps.{dce_function-Denotes}

-- The passes of one function. `none` is undefined behaviour while folding.
unfoldable pub optimize_function : Code → Option Code
optimize_function code =
    const_fold_function code >>= λ c. some (dce_function (jump_thread_function c))

unfoldable pub optimize_functions : List Function → Option (List Function)
unfolding optimize_function
optimize_functions [] = some []
optimize_functions (f ∷ fs) = optimize_function f.code >>= λ code.
    optimize_functions fs >>= λ rest. some (record f { code = code } ∷ rest)

unfoldable pub optimize_mir : Module → Option Module
unfolding optimize_functions
optimize_mir m = optimize_functions m.functions >>= λ fs. some (record m { functions = fs })

module _ (code : Code) (exist : TargetsExist (block_at code) code) where
  threaded :
      (i : ℕ) (x : Instr)
      → get_elem? code i ≡ some x
      → (y : Instr) × (get_elem? (jump_thread_function code) i ≡ some y)
        × Follows (block_at code) code x y
  threaded i x e =
      let (same, all) = jump_thread_function-FollowsAll code exist in
      let small = get_elem?-lt code i e in
      let (y, ey) =
        get_elem?-some (jump_thread_function code) i (subst (λ n. i < n) (sym same) small) in
      let (x', ex', f) = all i y ey in
      (y, ey, subst (λ z. Follows (block_at code) code z y) (same_some ex' e) f)

  kept :
      (i : ℕ) (x : Instr)
      → get_elem? code i ≡ some x
      → x.op ≢ Opcode.br
      → x.op ≢ Opcode.cbr
      → get_elem? (jump_thread_function code) i ≡ some x
  kept i x e nb nc =
      let (y, ey, f) = threaded i x e in
      subst (λ z. get_elem? (jump_thread_function code) i ≡ some z) (f.same_rest nb nc) ey

module _ (h : Host) (strings opaque : ℕ → Value h) where
  -- An instruction that computes a value is no jump.
  const-ne-jump :
      (o j : Opcode) (x : Instr) {u : Value h}
      → const_value_of h strings o x ≡ some u
      → const_value_of h strings j x ≡ none
      → o ≢ j
  const-ne-jump o j x {u} c n e =
      none-ne-some _ (sym n ∙ subst (λ k. const_value_of h strings k x ≡ some u) e c)

  call-ne-jump :
      (o j : Opcode) (u w : Value h) {v : Value h}
      → call_binop h strings o u w ≡ some v
      → runtime_binop h j ≡ none
      → o ≢ j
  call-ne-jump o j u w {v} c n e =
      let c' = subst (λ k. call_binop h strings k u w ≡ some v) e c in
      none-ne-some _ (rw (n, call_binop) at c')

  opaque-ne-jump : (o j : Opcode) → is_opaque o ≡ true → is_opaque j ≡ false → o ≢ j
  opaque-ne-jump o j c n e = false≢true (sym n ∙ subst (λ k. is_opaque k ≡ true) e c)

  module _ (code : Code) (exist : TargetsExist (block_at code) code) where
    thread-Denotes :
        {j : ℕ} {v : Value h}
        → Denotes h strings opaque code j v
        → Denotes h strings opaque (jump_thread_function code) j v
    unfolding runtime_binop
    thread-Denotes {j} (constant x e c) =
        constant x
          (kept code exist j x e (const-ne-jump x.op Opcode.br x c refl)
            (const-ne-jump x.op Opcode.cbr x c refl))
          c
    thread-Denotes {j} (loaded x e o q) =
        loaded x
          (kept code exist j x e (opaque-ne-jump x.op Opcode.br o refl)
            (opaque-ne-jump x.op Opcode.cbr o refl))
          o q
    thread-Denotes {j} (negated x a u e o q d r) =
        negated x a u (kept code exist j x e (λ b. cc) (λ b. cc)) o q (thread-Denotes d) r
    thread-Denotes {j} (inverted x a u e o q d r) =
        inverted x a u (kept code exist j x e (λ b. cc) (λ b. cc)) o q (thread-Denotes d) r
    thread-Denotes {j} (computed x a b u w e q d d' r) =
        computed x a b u w
          (kept code exist j x e (call-ne-jump x.op Opcode.br u w r refl)
            (call-ne-jump x.op Opcode.cbr u w r refl))
          q (thread-Denotes d) (thread-Denotes d') r

out-eq :
    (code c code' : Code)
    → const_fold_function code ≡ some c
    → optimize_function code ≡ some code'
    → dce_function (jump_thread_function c) ≡ code'
unfolding optimize_function
out-eq code c code' ec eo = some-injective _ _ (rw ec at eo)

-- The three passes together keep every value that is needed: an argument `a` of an instruction with
-- a side effect, in the code `c` that folding gives, computes in the optimised code whatever it
-- computed before any pass. There is a label for each `br` of `c`, and `c` has at most 2 ^ 32
-- instructions.
pub optimize_function-Denotes :
    (h : Host) (strings opaque : ℕ → Value h) (code c code' : Code) (i : ℕ) (y : Instr) (a : ℕ)
    (v : Value h)
    → const_fold_function code ≡ some c
    → optimize_function code ≡ some code'
    → TargetsExist (block_at c) c
    → length c ≤ 2 ^ 32
    → get_elem? c i ≡ some y
    → has_side_effect y.op ≡ true
    → Holds y.args a
    → Denotes h strings opaque code a v
    → Denotes h strings opaque code' a v
optimize_function-Denotes h strings opaque code c code' i y a v ec eo exist fits e o m d =
    let (z, ez, f) = threaded c exist i y e in
    let short = subst (λ n. n ≤ 2 ^ 32) (sym (jump_thread_function-FollowsAll c exist).0) fits in
    let effect = subst (λ k. has_side_effect k ≡ true) (sym f.same_op) o in
    subst (λ k. Denotes h strings opaque k a v) (out-eq code c code' ec eo)
      (dce_function-Denotes h strings opaque (jump_thread_function c) i z a v short ez effect
        (subst (λ l. Holds l a) (sym f.same_args) m)
        (thread-Denotes h strings opaque c exist
          (const_fold_function-Denotes h strings opaque code ec d)))
