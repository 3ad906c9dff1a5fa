-- ===== src/Mir/Dce/Keeps.antt =====
-- include/native/mir_optimizer.hpp: removing dead instructions keeps what the code does.
use mathlib.Core.Option
use mathlib.Core.Path.{subst}
use munchkinglang.Prelude.{
  ℕ, zero, suc, ◌+◌, ◌%◌, ◌^◌, ◌≤◌, List, [], ◌∷◌, true, some, ◌≡◌, ◌⊎◌, inl, inr, refl, ap, ◌∙◌,
  arith, get_elem?, length, get_elem?-lt,
}
use munchkinglang.Mir.Instr.{Instr, Code}
use munchkinglang.Mir.Runtime.{Host, Value}
use munchkinglang.Mir.Fold.Denote.{Denotes, constant, loaded, negated, inverted, computed}
use munchkinglang.Mir.Dce.{has_side_effect, used_values, sweep_instr, sweep, dce_function}
use munchkinglang.Mir.Dce.Closure.{Holds, IsClosed, used_values_marks}

sweep-get_elem? :
    (used : List ℕ) (i : ℕ) (code : Code) (k : ℕ)
    → get_elem? (sweep used i code) k ≡ Option.map (sweep_instr used (k + i)) (get_elem? code k)
unfolding sweep
sweep-get_elem? used i [] k = refl
sweep-get_elem? used i (x ∷ code) zero = ap (λ j. some (sweep_instr used j x)) (omega arith)
sweep-get_elem? used i (x ∷ code) (suc k) =
    sweep-get_elem? used (suc i) code k
    ∙ ap (λ j. Option.map (sweep_instr used j) (get_elem? code k)) (omega arith)

sweep_used :
    (used : List ℕ) (i : ℕ) (x : Instr)
    → (has_side_effect x.op ≡ true) ⊎ Holds used (i % 2 ^ 32)
    → sweep_instr used i x ≡ x
unfolding sweep_instr
sweep_used used i x h = ground arith

swept :
    (used : List ℕ) (code : Code) (k : ℕ) (x : Instr)
    → get_elem? code k ≡ some x
    → (has_side_effect x.op ≡ true) ⊎ Holds used (k % 2 ^ 32)
    → get_elem? (sweep used 0 code) k ≡ some x
swept used code k x e h =
    sweep-get_elem? used 0 code k
    ∙ ap (Option.map (sweep_instr used (k + 0))) e
    ∙ ap some (ap (λ j. sweep_instr used j x) (omega arith) ∙ sweep_used used k x h)

first-Holds : (a : ℕ) (args : List ℕ) → Holds (a ∷ args) a
first-Holds a args = ground arith

second-Holds : (a b : ℕ) (args : List ℕ) → Holds (a ∷ b ∷ args) b
second-Holds a b args = ground arith

module _ (h : Host) (strings opaque : ℕ → Value h) (code : Code) (fits : length code ≤ 2 ^ 32)
    (used : List ℕ) (closed : IsClosed code used) where
  kept :
      (j : ℕ) (x : Instr)
      → get_elem? code j ≡ some x
      → Holds used j
      → get_elem? (sweep used 0 code) j ≡ some x
  kept j x e m =
      let small = get_elem?-lt code j e in
      swept used code j x e (inr (subst (Holds used) (omega arith) m))

  sweep-Denotes :
      {j : ℕ} {v : Value h}
      → Denotes h strings opaque code j v
      → Holds used j
      → Denotes h strings opaque (sweep used 0 code) j v
  sweep-Denotes {j} (constant x e c) m = constant x (kept j x e m) c
  sweep-Denotes {j} (loaded x e o q) m = loaded x (kept j x e m) o q
  sweep-Denotes {j} (negated x a u e o q d r) m =
      let m' = closed j x m e a (rw q (first-Holds a [])) in
      negated x a u (kept j x e m) o q (sweep-Denotes d m') r
  sweep-Denotes {j} (inverted x a u e o q d r) m =
      let m' = closed j x m e a (rw q (first-Holds a [])) in
      inverted x a u (kept j x e m) o q (sweep-Denotes d m') r
  sweep-Denotes {j} (computed x a b u w e q d d' r) m =
      let ma = closed j x m e a (rw q (first-Holds a (b ∷ []))) in
      let mb = closed j x m e b (rw q (second-Holds a b [])) in
      computed x a b u w (kept j x e m) q (sweep-Denotes d ma) (sweep-Denotes d' mb) r

-- Removing dead instructions leaves every instruction with a side effect where it is.
pub dce_function_effects :
    (code : Code) (i : ℕ) (x : Instr)
    → get_elem? code i ≡ some x
    → has_side_effect x.op ≡ true
    → get_elem? (dce_function code) i ≡ some x
unfolding dce_function
dce_function_effects code i x e o = swept (used_values code) code i x e (inl o)

-- Removing dead instructions keeps the value of every argument `a` of an instruction with a side
-- effect. Indices are 32-bit numbers, so the code has at most 2 ^ 32 instructions.
pub dce_function-Denotes :
    (h : Host) (strings opaque : ℕ → Value h) (code : Code) (i : ℕ) (x : Instr) (a : ℕ)
    (v : Value h)
    → length code ≤ 2 ^ 32
    → get_elem? code i ≡ some x
    → has_side_effect x.op ≡ true
    → Holds x.args a
    → Denotes h strings opaque code a v
    → Denotes h strings opaque (dce_function code) a v
unfolding dce_function
dce_function-Denotes h strings opaque code i x a v fits e o m d =
    let (closed, roots) = used_values_marks code in
    sweep-Denotes h strings opaque code fits (used_values code) closed d (roots i x e o a m)
