-- ===== src/Jit/Pgo/Unbiased.antt =====
-- include/jit/pgo_optimizer.hpp: a profile without biased branches changes nothing.
use mathlib.Core.Path.{subst}
use mathlib.Core.List.{append_assoc, append-nil}
use munchkinglang.Prelude.{
  ℕ, zero, suc, List, [], ◌∷◌, ◌++◌, Bool, true, false, Option, none, some, ◌≡◌, refl, sym, ap, ◌∙◌,
  elim_cases, option_cases,
}
use munchkinglang.Jit.Profile.{BranchProfile, Sites, find_site, strongly_taken, strongly_not_taken}
use munchkinglang.Jit.Bytecode.Opcodes.{opcode_at}
use munchkinglang.Jit.Bytecode.{Cursor, read_u8, read_u32}
use munchkinglang.Jit.Pgo.{
  Run, is_conditional, at_start, instruction, specialized, apply_rounds, apply_profile_optimization,
}
use munchkinglang.Jit.Pgo.Ends.{all_read, splits}

module _ (strings : List ℕ) where
  Same : List ℕ → Run (List ℕ) → Type 0
  Same whole (Run.done out) = out ≡ whole
  Same whole _ = Unit

  specialized-none :
      (target pc : ℕ) (sites : Sites)
      → ((site : BranchProfile)
          → find_site pc sites ≡ some site
          → (strongly_not_taken site ≡ false) × (strongly_taken site ≡ false))
      → specialized strings target (find_site pc sites) ≡ none
  unfolding specialized
  specialized-none target pc sites h = option_view (find_site pc sites) h
    where
      option_view :
          (o : Option BranchProfile)
          → ((site : BranchProfile)
              → o ≡ some site
              → (strongly_not_taken site ≡ false) × (strongly_taken site ≡ false))
          → specialized strings target o ≡ none
      option_view none k = refl
      option_view (some site) k = rw ((k site refl).0, (k site refl).1) refl

  module _ (sites : Sites)
      (unbiased : (pc : ℕ) (site : BranchProfile)
        → find_site pc sites ≡ some site
        → (strongly_not_taken site ≡ false) × (strongly_taken site ≡ false)) where
    apply_rounds-Same :
        (n : ℕ) (out : List ℕ) (c : Cursor)
        → Same (out ++ c.rest) (apply_rounds strings n sites out c)
    unfolding apply_rounds Same
    apply_rounds-Same zero out c = tt
    apply_rounds-Same (suc n) out c =
        let P = Same (out ++ c.rest) in
        let copied : (r : List ℕ × Cursor)
            → instruction strings c ≡ some r
            → P (apply_rounds strings n sites (out ++ r.0) (r.1)) =
          λ r q.
            subst (λ w. Same w (apply_rounds strings n sites (out ++ r.0) (r.1)))
              (append_assoc out (r.0) ((r.1).rest) ∙ ap (λ w. out ++ w) ((splits strings c r q).0))
              (apply_rounds-Same n (out ++ r.0) (r.1)) in
        option_cases (read_u8 c) P
          (λ q. sym (append-nil out) ∙ ap (λ r. out ++ r) (sym (all_read c q)))
          (λ r q.
            elim_cases (is_conditional (opcode_at (r.0))) P
              (λ _.
                option_cases (read_u32 (r.1)) P (λ _. tt)
                  (λ s k.
                    option_cases (specialized strings (s.0) (find_site c.pc sites)) P
                      (λ _. option_cases (instruction strings c) P (λ _. tt) copied)
                      (λ bytes z.
                        absurd (cc (z, specialized-none (s.0) c.pc sites (unbiased c.pc))))))
              (λ _. option_cases (instruction strings c) P (λ _. tt) copied))

  -- Where no branch of the profile is strongly biased, the code that the pass gives, if it does not stop
  -- at code it cannot read, is the source, byte for byte.
  pub apply_profile_optimization-unbiased :
      (enabled : Bool) (n : ℕ) (source : List ℕ) (sites : Sites) (out : List ℕ)
      → ((pc : ℕ) (site : BranchProfile)
          → find_site pc sites ≡ some site
          → (strongly_not_taken site ≡ false) × (strongly_taken site ≡ false))
      → apply_profile_optimization strings enabled n source sites ≡ Run.done out
      → out ≡ source
  unfolding apply_profile_optimization Same
  apply_profile_optimization-unbiased false n source sites out u h = subst (Same source) h refl
  apply_profile_optimization-unbiased true n source [] out u h = subst (Same source) h refl
  apply_profile_optimization-unbiased true n source (s ∷ sites) out u h =
      subst (Same source) h (apply_rounds-Same (s ∷ sites) u n [] (at_start source))
