-- ===== src/Jit/Pgo/Ends.antt =====
-- include/jit/pgo_optimizer.hpp: both passes end.
use mathlib.Core.Path.{subst}
use munchkinglang.Prelude.{
  ℕ, zero, suc, ◌-◌, ◌≤◌, ◌<◌, List, [], ◌∷◌, ◌++◌, Bool, true, false, Option, none, some, ◌≡◌, ◌≢◌,
  refl, ap, ◌∙◌, arith, leb, length, take, if_cases, elim_cases, option_cases, length-append,
  length-take, length-drop, take-append-drop,
}
use munchkinglang.Jit.Profile.{Sites, find_site}
use munchkinglang.Jit.Predictor.{BranchPredictor}
use munchkinglang.Jit.Bytecode.Opcodes.{opcode_at}
use munchkinglang.Jit.Bytecode.{Cursor, read_u8, read_u32, skip_instruction}
use munchkinglang.Jit.Bytecode.Skips.{Taken, goes_with, read_u32-GoesWith, skip_instruction-Taken}
use munchkinglang.Jit.Pgo.{
  Run, is_conditional, at_start, seed_rounds, seed_predictor_from_bytecode, instruction,
  specialized, apply_rounds, apply_profile_optimization,
}

pub taken-le : (c d : Cursor) → Taken c d → length d.rest ≤ length c.rest
taken-le c d t = omega (arith, ap length t.dropped, length-drop t.size c.rest)

Shorter : Cursor → Option (ℕ × Cursor) → Type 0
Shorter c none = c.rest ≡ []
Shorter c (some (x, d)) = length d.rest < length c.rest

read_u8-Shorter : (c : Cursor) → Shorter c (read_u8 c)
unfolding read_u8 Shorter
read_u8-Shorter c = from c.rest refl
  where
    from : (rest : List ℕ) → c.rest ≡ rest → Shorter c (read_u8 c)
    from [] q = rw (q, read_u8) refl
    from (x ∷ xs) q = rw (q, read_u8) (omega arith)

pub read_u8-lt :
    (c : Cursor) (r : ℕ × Cursor) → read_u8 c ≡ some r → length ((r.1).rest) < length c.rest
unfolding Shorter
read_u8-lt c r h = subst (Shorter c) h (read_u8-Shorter c)

pub all_read : (c : Cursor) → read_u8 c ≡ none → c.rest ≡ []
unfolding Shorter
all_read c h = subst (Shorter c) h (read_u8-Shorter c)

Finishes {ℓ} : {A : Type ℓ} → Run A → Type 0
Finishes Run.unfinished = ⊥
Finishes _ = Unit

finished {ℓ} : {A : Type ℓ} (r : Run A) → Finishes r → r ≢ Run.unfinished
unfolding Finishes
finished r h q = subst Finishes q h

module _ (strings : List ℕ) where
  skip-lt :
      (c d : Cursor) (r : ℕ × Cursor)
      → read_u8 c ≡ some r
      → skip_instruction strings c ≡ some d
      → length d.rest < length c.rest
  skip-lt c d r h k =
      let (t, pos) = skip_instruction-Taken strings c d k in
      omega (arith, read_u8-lt c r h, ap length t.dropped, length-drop t.size c.rest)

  seed_rounds-Finishes :
      (n : ℕ) (c : Cursor) (p : BranchPredictor)
      → length c.rest < n
      → Finishes (seed_rounds strings n c p)
  unfolding seed_rounds Finishes
  seed_rounds-Finishes zero c p h = absurd (omega arith)
  seed_rounds-Finishes (suc n) c p h =
      let P = λ (r : Run BranchPredictor). Finishes r in
      option_cases (read_u8 c) P (λ _. tt)
        (λ r q.
          let d = r.1 in
          let less = read_u8-lt c r q in
          elim_cases (is_conditional (opcode_at (r.0))) P
            (λ _.
              option_cases (read_u32 d) P (λ _. tt)
                (λ s k. seed_rounds-Finishes n (s.1) _ (
                  omega (
                    arith,
                    less,
                    taken-le d (s.1) (goes_with d s (read_u32 d) (read_u32-GoesWith d) k),
                  ))))
            (λ _.
              option_cases (skip_instruction strings c) P (λ _. tt)
                (λ e k. seed_rounds-Finishes n e p (omega (arith, skip-lt c e r q k)))))

  -- The pass that seeds the predictor ends within one round more than there are bytes.
  pub seed_predictor_from_bytecode_ends :
      (source : List ℕ) (p : BranchPredictor) (n : ℕ)
      → length source < n
      → seed_predictor_from_bytecode strings n source p ≢ Run.unfinished
  unfolding seed_predictor_from_bytecode
  seed_predictor_from_bytecode_ends source p n h =
      finished _ (seed_rounds-Finishes n (at_start source) p h)

  Splits : Cursor → Option (List ℕ × Cursor) → Type 0
  Splits c none = Unit
  Splits c (some (bytes, d)) = (bytes ++ d.rest ≡ c.rest) × (0 < length bytes)

  instruction-Splits : (c : Cursor) → Splits c (instruction strings c)
  unfolding instruction Splits
  instruction-Splits c =
      option_cases (skip_instruction strings c) (Splits c) (λ _. tt)
        (λ d q.
          let (t, pos) = skip_instruction-Taken strings c d q in
          let counted : d.pc - c.pc ≡ t.size = omega (arith, t.counted) in
          if_cases (leb (d.pc - c.pc) (length c.rest)) (Splits c)
            (λ h. (
              ap (λ k. take k c.rest ++ d.rest) counted
                  ∙ ap (λ r. take t.size c.rest ++ r) t.dropped
                  ∙ take-append-drop t.size c.rest,
              ground (arith, h, counted, pos, length-take (d.pc - c.pc) c.rest),
            ))
            (λ _. tt))

  pub splits :
      (c : Cursor) (r : List ℕ × Cursor)
      → instruction strings c ≡ some r
      → (r.0 ++ (r.1).rest ≡ c.rest) × (0 < length (r.0))
  unfolding Splits
  splits c r h = subst (Splits c) h (instruction-Splits c)

  instruction-lt :
      (c : Cursor) (r : List ℕ × Cursor)
      → instruction strings c ≡ some r
      → length ((r.1).rest) < length c.rest
  instruction-lt c r h =
      let (whole, pos) = splits c r h in
      omega (arith, pos, ap length whole, length-append (r.0) ((r.1).rest))

  apply_rounds-Finishes :
      (n : ℕ) (sites : Sites) (out : List ℕ) (c : Cursor)
      → length c.rest < n
      → Finishes (apply_rounds strings n sites out c)
  unfolding apply_rounds Finishes
  apply_rounds-Finishes zero sites out c h = absurd (omega arith)
  apply_rounds-Finishes (suc n) sites out c h =
      let P = λ (r : Run (List ℕ)). Finishes r in
      let copied = λ (r : List ℕ × Cursor). λ (q : instruction strings c ≡ some r).
        apply_rounds-Finishes n sites (out ++ r.0) (r.1) (omega (arith, instruction-lt c r q)) in
      option_cases (read_u8 c) P (λ _. tt)
        (λ r q.
          let d = r.1 in
          let less = read_u8-lt c r q in
          elim_cases (is_conditional (opcode_at (r.0))) P
            (λ _.
              option_cases (read_u32 d) P (λ _. tt)
                (λ s k.
                  option_cases (specialized strings (s.0) (find_site c.pc sites)) P
                    (λ _. option_cases (instruction strings c) P (λ _. tt) copied)
                    (λ bytes _. apply_rounds-Finishes n sites (out ++ bytes) (s.1) (
                      omega (
                        arith,
                        less,
                        taken-le d (s.1) (goes_with d s (read_u32 d) (read_u32-GoesWith d) k),
                      )))))
            (λ _. option_cases (instruction strings c) P (λ _. tt) copied))

  -- The pass that applies a profile ends within one round more than there are bytes.
  pub apply_profile_optimization_ends :
      (enabled : Bool) (source : List ℕ) (sites : Sites) (n : ℕ)
      → length source < n
      → apply_profile_optimization strings enabled n source sites ≢ Run.unfinished
  unfolding apply_profile_optimization Finishes
  apply_profile_optimization_ends false source sites n h = finished (Run.done source) tt
  apply_profile_optimization_ends true source [] n h = finished (Run.done source) tt
  apply_profile_optimization_ends true source (s ∷ sites) n h =
      finished _ (apply_rounds-Finishes n (s ∷ sites) [] (at_start source) h)
