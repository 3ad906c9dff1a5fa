-- ===== src/Jit/Optimizer/Equivalence.antt =====
-- include/jit/bytecode_optimizer.hpp: the loop that folds, against the virtual machine.
use mathlib.Core.Path.{subst}
use mathlib.Core.Bool.{and-eq-true_iff}
use munchkinglang.Prelude.{
  ℕ, zero, suc, ◌<◌, List, [], ◌∷◌, ◌++◌, Bool, true, ◌&&◌, none, some, ◌≡◌, inl, inr, refl, sym,
  ap, ◌∙◌, arith, length, Option-cases, same_some, length-append, bind-some, ◌+◌, ◌≤◌,
}
use munchkinglang.Jit.Bytecode.{Cursor, read_u8}
use munchkinglang.Jit.Bytecode.Insns.{Insn, push_int, push_bool, plain, fetch, emit, emit_all}
use munchkinglang.Vm.Value.{Host}
use munchkinglang.Vm.Straight.{Frame, run_insn, run_insns, execute_rounds}
use munchkinglang.Jit.Pgo.{Run, at_start}
use munchkinglang.Jit.Optimizer.{Folding, nothing, act, empty_folding, fold_rounds, fold_pass}
use munchkinglang.Jit.Bytecode.Again.{at_bytes}
use munchkinglang.Jit.Bytecode.Words.{AreBytes}
use munchkinglang.Jit.Bytecode.Fetched.{IsWhole, fetched}
use munchkinglang.Jit.Optimizer.Meaning.{pushed, is_kept, OrdersSmall}
use munchkinglang.Jit.Optimizer.Reached.{AllWhole, Ranged, Reached, flushed}
use munchkinglang.Jit.Optimizer.Sound.{act-Reached}

module _ (strings : List ℕ) where
  -- Each round from `s` on is kept.
  unfoldable pub kept_rounds : ℕ → Cursor → Folding → Bool
  unfolding fetch act is_kept
  kept_rounds zero c s = true
  kept_rounds (suc n) c s = elim (fetch strings c) [
    | none ↦ true
    | some (i, d) ↦
        is_kept s.pending i && elim (act c.pc i s) [ none ↦ true | some t ↦ kept_rounds n d t ]
  ]

  unfoldable pub is_kept_code : List ℕ → Bool
  unfolding kept_rounds
  is_kept_code source = kept_rounds (suc (length source)) (at_start source) empty_folding

  module _ (h : Host) where
    done_injective : (f g : Frame h) → Run.done f ≡ Run.done g → f ≡ g
    done_injective f g q = cc

    -- A run that ends is at the end, or runs an instruction and goes on.
    data Steps (n : ℕ) (c : Cursor) (g g' : Frame h) : Type 0 where
      at_end : c.rest ≡ [] → g ≡ g' → Steps n c g g'
      steps :
          (x : ℕ) (xs : List ℕ) (i : Insn) (d : Cursor) (b : Frame h)
          → c.rest ≡ x ∷ xs
          → fetch strings c ≡ some (i, d)
          → run_insn h i g ≡ some b
          → execute_rounds h strings n d b ≡ Run.done g'
          → Steps n c g g'

    steps_of :
        (n : ℕ) (c : Cursor) (g g' : Frame h)
        → execute_rounds h strings (suc n) c g ≡ Run.done g'
        → Steps n c g g'
    unfolding execute_rounds
    steps_of n c g g' q = from c.rest refl
      where
        from : (rest : List ℕ) → c.rest ≡ rest → Steps n c g g'
        from [] e =
            let q' : Run.done g ≡ Run.done g' = rw (e, execute_rounds) at q in
            at_end e (done_injective g g' q')
        from (x ∷ xs) e = elim (Option-cases (fetch strings c)) [
          | inl k ↦
              let q' : Run.stopped ≡ Run.done g' = rw (e, k, execute_rounds) at q in absurd (cc)
          | inr ((i, d), k) ↦ elim (Option-cases (run_insn h i g)) [
            | inl m ↦
                let q' : Run.stopped ≡ Run.done g' = rw (e, k, m, execute_rounds) at q in
                absurd (cc)
            | inr (b, m) ↦ steps x xs i d b e k m (rw (e, k, m, execute_rounds) at q)
          ]
        ]

    Folds : Run Folding → Frame h → Frame h → Type 0
    Folds r f g = (t : Folding) × (r ≡ Run.done t) × Reached strings h t f g × (t.pending ≡ nothing)

    rounds-Folds :
        (n : ℕ) (c : Cursor) (s : Folding) (f g g' : Frame h)
        → OrdersSmall h
        → AreBytes c.rest
        → Reached strings h s f g
        → kept_rounds n c s ≡ true
        → execute_rounds h strings n c g ≡ Run.done g'
        → Folds (fold_rounds strings n c s) f g'
    unfolding kept_rounds fold_rounds execute_rounds Folds
    rounds-Folds zero c s f g g' o bytes r kept q = absurd (cc)
    rounds-Folds (suc n) c s f g g' o bytes r kept q = elim (steps_of n c g g' q) [
      | at_end e at_g ↦
          let (r', empty) = flushed strings h s f g r in
          rw (e, fold_rounds) (_, refl, subst (Reached strings h _ f) at_g r', empty)
      | steps x xs i d b e k m q' ↦
          let kept' : (is_kept s.pending i
                && elim (act c.pc i s) [ none ↦ true | some t ↦ kept_rounds n d t ])
              ≡ true =
            rw (k, kept_rounds) at kept in
          let (here, later) = (and-eq-true_iff _ _).0 kept' in
          let (after, range, whole) = fetched strings c d i bytes k in
          let (t, a, r') = act-Reached strings h c.pc i s f g b r o here m range whole in
          rw (e, k, a, fold_rounds) (rounds-Folds n d t f b g' o after r' (rw a at later) q')
    ]

    emit-positive : (i : Insn) → 0 < length (emit i)
    unfolding emit
    emit-positive (push_int z) = omega arith
    emit-positive (push_bool b) = omega arith
    emit-positive (plain x operands) = omega arith

    pub length-emit_all : (is : List Insn) → length is ≤ length (emit_all is)
    unfolding emit_all
    length-emit_all [] = omega arith
    length-emit_all (i ∷ is) =
        omega (arith, length-append (emit i) (emit_all is), emit-positive i, length-emit_all is)

    one_round :
        (n : ℕ) (bytes rest : List ℕ) (pc next : ℕ) (i : Insn) (f b : Frame h)
        → fetch strings (at_bytes bytes pc) ≡ some (i, at_bytes rest next)
        → run_insn h i f ≡ some b
        → execute_rounds h strings (suc n) (at_bytes bytes pc) f
          ≡ execute_rounds h strings n (at_bytes rest next) b
    unfolding execute_rounds fetch read_u8
    one_round n [] rest pc next i f b q m = absurd (cc)
    one_round n (x ∷ xs) rest pc next i f b q m = rw (q, m, execute_rounds) refl

    -- Instructions that are read as they are written run from their bytes.
    pub execute_whole :
        (n pc : ℕ) (is : List Insn) (f g : Frame h)
        → length is < n
        → AllWhole strings is
        → run_insns h is f ≡ some g
        → execute_rounds h strings n (at_bytes (emit_all is) pc) f ≡ Run.done g
    unfolding run_insns emit_all AllWhole execute_rounds IsWhole
    execute_whole zero pc is f g less w q = absurd (omega (arith, less))
    execute_whole (suc n) pc [] f g less w q = ap Run.done (same_some refl q)
    execute_whole (suc n) pc (i ∷ is) f g less (w, ws) q =
        let (b, m, later) = bind-some (run_insn h i f) (run_insns h is) q in
        one_round n (emit i ++ emit_all is) (emit_all is) pc (pc + length (emit i)) i f b
          (w (emit_all is) pc) m
        ∙ execute_whole n (pc + length (emit i)) is b g (omega (arith, less)) ws later

    started : (f : Frame h) → Reached strings h empty_folding f f
    unfolding emit_all run_insns pushed AllWhole Ranged
    started f = record {
      insns = [];
      before = f;
      written = refl;
      ran = refl;
      held = refl;
      whole = tt;
      ranged = tt;
    }

    folded_insns :
        (r : Run Folding) (f g : Frame h)
        → Folds r f g
        → (s : Folding) × (is : List Insn) × (r ≡ Run.done s)
          × (s.out ≡ emit_all is)
          × AllWhole strings is
          × (run_insns h is f ≡ some g)
    unfolding Folds pushed
    folded_insns r f g (s, p, m, empty) =
        let at_g : m.before ≡ g = ap (λ p. pushed h p m.before) (sym empty) ∙ m.held in
        (s, m.insns, p, m.written, m.whole, m.ran ∙ ap some at_g)

    -- Where the machine runs the bytes of straight code to their end, and no round of the loop that folds
    -- falls on what it does not keep, the loop writes instructions that are read as they are written and
    -- bring the frame to the same end.
    pub fold_pass-run_insns :
        (source : List ℕ) (f g : Frame h)
        → OrdersSmall h
        → AreBytes source
        → is_kept_code source ≡ true
        → execute_rounds h strings (suc (length source)) (at_start source) f ≡ Run.done g
        → (s : Folding) × (is : List Insn) × (fold_pass strings source ≡ Run.done s)
          × (s.out ≡ emit_all is)
          × AllWhole strings is
          × (run_insns h is f ≡ some g)
    unfolding fold_pass is_kept_code
    fold_pass-run_insns source f g o bytes kept q = folded_insns _ f g (
        rounds-Folds (suc (length source)) (at_start source) empty_folding f f g o bytes (started f)
          kept q)
