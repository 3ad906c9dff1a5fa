-- ===== src/Jit/Optimizer/Retarget/Ends.antt =====
-- include/jit/bytecode_optimizer.hpp: `optimize_bytecode` ends.
use mathlib.Core.Path.{subst}
use munchkinglang.Prelude.{
  ℕ, zero, suc, ◌+◌, ◌-◌, ◌≤◌, ◌<◌, List, ◌∷◌, ◌++◌, none, some, ◌≡◌, ◌≢◌, refl, ap, arith, leb,
  length, take, drop, elim_cases, option_cases, list_cases, Bool-cases, inl, inr, leb→le,
  length-append, length-take, length-drop,
}
use munchkinglang.Jit.Bytecode.Opcodes.{opcode_at}
use munchkinglang.Jit.Bytecode.{skip_instruction}
use munchkinglang.Jit.Bytecode.Skips.{skip_instruction-Taken}
use munchkinglang.Jit.Pgo.{Run, at_start, word_bytes}
use munchkinglang.Jit.Optimizer.{Folding, empty_folding, fold_pass}
use munchkinglang.Jit.Optimizer.Size.{held_size, Ends, fold_rounds-Ends}
use munchkinglang.Jit.Optimizer.Retarget.{
  read_word, has_target, put_word, new_target, retarget_rounds, retarget_folded, optimize_bytecode,
}

-- A run that has ended, with `k` bytes where it gives code.
Sized : ℕ → Run (List ℕ) → Type 0
Sized k Run.unfinished = ⊥
Sized k Run.stopped = Unit
Sized k (Run.done out) = length out ≡ k

new_target-long :
    (remap : List (ℕ × ℕ)) (out operands : List ℕ) (target : ℕ)
    → new_target remap out operands ≡ some target
    → 4 ≤ length operands
unfolding new_target read_word
new_target-long remap out operands target q = elim (Bool-cases (leb 4 (length operands))) [
  | inl m ↦ leb→le 4 (length operands) m
  | inr m ↦ let q' : none ≡ some target = rw (m, new_target) at q in absurd (cc)
]

length-put_word :
    (index target : ℕ) (out : List ℕ)
    → index + 4 ≤ length out
    → length (put_word index target out) ≡ length out
length-put_word index target out h = ground (
  arith,
  length-append (take index out) (word_bytes target ++ drop (index + 4) out),
  length-take index out,
  length-drop (index + 4) out,
)

module _ (strings : List ℕ) (remap : List (ℕ × ℕ)) where
  retarget_rounds-Sized :
      (n index : ℕ) (out : List ℕ)
      → length out - index < n
      → Sized (length out) (retarget_rounds strings remap n index out)
  unfolding retarget_rounds Sized
  retarget_rounds-Sized zero index out h = absurd (omega arith)
  retarget_rounds-Sized (suc n) index out h =
      let P = Sized (length out) in
      list_cases (drop index out) P (λ _. refl)
        (λ x xs e.
          let inside : suc (length xs) ≡ length out - index =
            omega (arith, ap length e, length-drop index out) in
          elim_cases (has_target (opcode_at x)) P
            (λ _.
              option_cases (new_target remap out xs) P (λ _. tt)
                (λ target q.
                  let long = new_target-long remap out xs target q in
                  let same = length-put_word (index + 1) target out (omega (arith, long, inside)) in
                  let rest =
                    retarget_rounds-Sized n (index + 5) (put_word (index + 1) target out)
                      (omega (arith, long, inside, same, h)) in
                  subst
                    (λ k. Sized k (
                      retarget_rounds strings remap n (index + 5)
                        (put_word (index + 1) target out)))
                    same rest))
            (λ _.
              option_cases (skip_instruction strings (record { rest = x ∷ xs; pc = index })) P
                (λ _. tt)
                (λ step q.
                  let (t, pos) =
                    skip_instruction-Taken strings (record { rest = x ∷ xs; pc = index }) step q in
                  retarget_rounds-Sized n step.pc out (omega (arith, t.counted, pos, inside, h)))))

-- A run that has ended, with at most `k` bytes where it gives code.
Short : ℕ → Run (List ℕ) → Type 0
Short k Run.unfinished = ⊥
Short k Run.stopped = Unit
Short k (Run.done out) = length out ≤ k

bounded_run : (j k : ℕ) (r : Run (List ℕ)) → Sized j r → j ≤ k → Short k r
unfolding Sized Short
bounded_run j k Run.unfinished h le = h
bounded_run j k Run.stopped h le = tt
bounded_run j k (Run.done out) h le = omega (arith, h, le)

retarget_folded-Short :
    (strings : List ℕ) (k : ℕ) (r : Run Folding) → Ends k r → Short k (retarget_folded strings r)
unfolding Ends Short retarget_folded
retarget_folded-Short strings k Run.unfinished h = h
retarget_folded-Short strings k Run.stopped h = tt
retarget_folded-Short strings k (Run.done s) h =
    bounded_run _ k _
      (retarget_rounds-Sized strings s.pc_remap (suc (length s.out)) 0 s.out (omega arith)) h

optimize_bytecode-Short :
    (source strings : List ℕ) → Short (length source) (optimize_bytecode source strings)
unfolding optimize_bytecode fold_pass held_size
optimize_bytecode-Short source strings =
    retarget_folded-Short strings (length source) (fold_pass strings source) (
      fold_rounds-Ends strings (suc (length source)) (length source) (at_start source) empty_folding
        (omega arith) (omega arith))

pub optimize_bytecode_ends :
    (source strings : List ℕ) → optimize_bytecode source strings ≢ Run.unfinished
unfolding Short
optimize_bytecode_ends source strings q =
    subst (Short (length source)) q (optimize_bytecode-Short source strings)

-- Optimized code is no longer than the code it comes from.
pub optimize_bytecode_le :
    (source strings out : List ℕ)
    → optimize_bytecode source strings ≡ Run.done out
    → length out ≤ length source
unfolding Short
optimize_bytecode_le source strings out q =
    subst (Short (length source)) q (optimize_bytecode-Short source strings)
