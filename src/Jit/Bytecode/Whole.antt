-- ===== src/Jit/Bytecode/Whole.antt =====
-- include/jit/bytecode_utils.hpp: the operands of an instruction are read the same way wherever they stand.
use mathlib.Core.Path.{subst}
use munchkinglang.Prelude.{
  ℕ, zero, suc, ◌+◌, ◌-◌, ◌≤◌, ◌<◌, List, [], ◌∷◌, ◌++◌, ◌&&◌, Option, none, some, ◌≡◌, refl, sym,
  ap, ◌∙◌, arith, leb, ◌==◌, if◌then◌else◌, length, take, drop, take-append-drop, drop-append,
  option_cases, Option-cases, inl, inr, same_some, length-append, length-take,
}
use munchkinglang.Jit.Bytecode.Opcodes.{Operands, opcode_at, operands}
use munchkinglang.Jit.Bytecode.{
  Cursor, read_u8, read_u32, Skip, skipped, then_skip, with_u32, repeat, check_name, skip_name,
  skip_type, skip_operands, skip_instruction,
}
use munchkinglang.Jit.Bytecode.Again.{
  at_bytes, Passes, Read, Echo, read_u8-GivesEcho, read_u32-GivesEcho, reading_of, skipped-Echo,
  pass-Echo, none-Echo, repeat-Echo, if-Echo, with_u32-Echo, after-Echo, first_byte, counted_byte,
  both_split, further_pc,
}

module _ (strings : List ℕ) where
  skip_name-Echo : (c : Cursor) → Echo (λ m. skip_name strings) c (skip_name strings c)
  unfolding skip_name
  skip_name-Echo =
      with_u32-Echo _ (λ m offset. with_u32 (check_name strings offset))
        (λ offset.
          with_u32-Echo _ (λ m. check_name strings offset)
            (λ size c.
              if-Echo (leb offset (length strings) && leb size (length strings - offset))
                (λ m. some) (λ m c. none) c (some c) none (pass-Echo c) (none-Echo c)))

  kind_step : ℕ → ℕ → Skip
  kind_step m kind d =
      if kind == 0
      then skipped (read_u8 d)
      else if kind == 1
      then skip_name strings d
      else if kind == 2
      then skip_type strings m d
      else if kind == 3
      then with_u32 (λ count. repeat count (skip_type strings m)) d
      else if kind == 4
      then then_skip (skip_type strings m) (skip_type strings m) d
      else if kind == 5
      then with_u32 (λ count. then_skip (repeat count (skip_type strings m)) (skip_type strings m))
          d
      else some d

  kind_step-Echo :
      (n kind : ℕ)
      → ((c : Cursor) → Echo (skip_type strings) c (skip_type strings n c))
      → (d : Cursor) → Echo (λ m. kind_step m kind) d (kind_step n kind d)
  unfolding kind_step
  kind_step-Echo n kind inner d =
      if-Echo (kind == 0) _ _ d _ _ (skipped-Echo read_u8 d _ (read_u8-GivesEcho d)) (
        if-Echo (kind == 1) _ _ d _ _ (skip_name-Echo d) (
          if-Echo (kind == 2) _ _ d _ _ (inner d) (
            if-Echo (kind == 3) _ _ d _ _
              (with_u32-Echo _ _ (λ count c. repeat-Echo count _ _ c inner) d)
              (if-Echo (kind == 4) _ _ d _ _ (after-Echo _ _ _ _ inner inner d) (
                if-Echo (kind == 5) _ _ d _ _
                  (with_u32-Echo _ _
                    (λ count. after-Echo _ _ _ _ (λ c. repeat-Echo count _ _ c inner) inner) d)
                  (pass-Echo d))))))

  skip_type-Echo : (n : ℕ) (c : Cursor) → Echo (skip_type strings) c (skip_type strings n c)
  unfolding skip_type Echo kind_step
  skip_type-Echo zero c = tt
  skip_type-Echo (suc n) c =
      option_cases (read_u8 c) (Echo (skip_type strings) c) (λ _. tt)
        (λ r q.
          counted_byte (skip_type strings) kind_step c r (kind_step n (r.0) (r.1)) (λ m d. refl) q
            (kind_step-Echo n (r.0) (skip_type-Echo n) (r.1)))

  -- Bytes that an instruction's operands take, whatever comes behind them.
  abbrev pub Operand : Operands → List ℕ → Type 0
  Operand o xs = Passes (skip_operands strings o) xs

  reading_once :
      (F : ℕ → Skip) (o : Operands) (c d : Cursor) (p : Option Cursor)
      → ((m : ℕ) (e : Cursor) → F m e ≡ skip_operands strings o e)
      → Echo F c p
      → p ≡ some d
      → Read (Operand o) c d
  unfolding Echo Read
  reading_once F o c d p same h q =
      let (xs, split, counted, again) = reading_of F c d p h q in
      (
        xs,
        split,
        counted,
        λ rest pc.
            sym (same (length xs) (at_bytes (xs ++ rest) pc))
            ∙ again (length xs) (omega arith) rest pc,
      )

  eight_bytes-Read :
      (c d : Cursor)
      → record { rest = drop 8 c.rest; pc = c.pc + 8 } ≡ d
      → 8 ≤ length c.rest
      → Read (Operand Operands.eight_bytes) c d
  unfolding Read skip_operands
  eight_bytes-Read c d same le =
      let eight : length (take 8 c.rest) ≡ 8 = omega (arith, length-take 8 c.rest, le) in
      subst (Read (Operand Operands.eight_bytes) c) same (
        take 8 c.rest,
        take-append-drop 8 c.rest,
        omega (arith, eight),
        λ rest pc.
            ap (λ n. some (at_bytes (drop n (take 8 c.rest ++ rest)) (pc + n))) (sym eight)
            ∙ ap (λ r. some (at_bytes r (pc + length (take 8 c.rest))))
                (drop-append (take 8 c.rest) rest),
      )

  pub operands-Read :
      (o : Operands) (c d : Cursor)
      → skip_operands strings o c ≡ some d
      → d.pc - c.pc ≤ length c.rest
      → Read (Operand o) c d
  unfolding skip_operands Read Echo
  operands-Read Operands.nothing c d q le =
      reading_once (λ m. some) Operands.nothing c d _ (λ m e. refl) (pass-Echo c) q
  operands-Read Operands.eight_bytes c d q le =
      let same : record { rest = drop 8 c.rest; pc = c.pc + 8 } ≡ d = same_some refl q in
      let at_pc : c.pc + 8 ≡ d.pc = ap (λ e. e.pc) same in
      eight_bytes-Read c d same (omega (arith, at_pc, le))
  operands-Read Operands.byte c d q le =
      reading_once (λ m e. skipped (read_u8 e)) Operands.byte c d _ (λ m e. refl)
        (skipped-Echo read_u8 c _ (read_u8-GivesEcho c)) q
  operands-Read Operands.word c d q le =
      reading_once (λ m e. skipped (read_u32 e)) Operands.word c d _ (λ m e. refl)
        (skipped-Echo read_u32 c _ (read_u32-GivesEcho c)) q
  operands-Read Operands.name c d q le =
      reading_once (λ m. skip_name strings) Operands.name c d _ (λ m e. refl) (skip_name-Echo c) q
  operands-Read Operands.two_names c d q le =
      reading_once (λ m. then_skip (skip_name strings) (skip_name strings)) Operands.two_names c d _
        (λ m e. refl)
        (after-Echo _ _ (λ m. skip_name strings) (λ m. skip_name strings) skip_name-Echo
          skip_name-Echo c)
        q
  operands-Read Operands.type c d q le =
      let (xs, split, counted, again) =
        reading_of (skip_type strings) c d _ (skip_type-Echo (suc (length c.rest)) c) q in
      (
        xs,
        split,
        counted,
        λ rest pc. again (suc (length (xs ++ rest))) (omega (arith, length-append xs rest)) rest pc,
      )
  operands-Read Operands.name_and_names c d q le =
      reading_once
        (λ m. then_skip (skip_name strings) (with_u32 (λ count. repeat count (skip_name strings))))
        Operands.name_and_names c d _ (λ m e. refl)
        (after-Echo _ _ (λ m. skip_name strings)
          (λ m. with_u32 (λ count. repeat count (skip_name strings))) skip_name-Echo
          (with_u32-Echo _ (λ m count. repeat count (skip_name strings))
            (λ count e.
              repeat-Echo count (skip_name strings) (λ m. skip_name strings) e skip_name-Echo))
          c)
        q

  -- An instruction is passed in the same way wherever it stands.
  pub skip_instruction-Read :
      (c d : Cursor)
      → skip_instruction strings c ≡ some d
      → d.pc - c.pc ≤ length c.rest
      → Read (λ xs. Passes (skip_instruction strings) xs × (0 < length xs)) c d
  unfolding skip_instruction Read
  skip_instruction-Read c d q le = elim (Option-cases (read_u8 c)) [
    | inl k ↦ let q' : none ≡ some d = rw (k, skip_instruction) at q in absurd (cc)
    | inr ((x, e), k) ↦
        let (first, one) = first_byte c (x, e) k in
        elim (Option-cases (opcode_at x)) [
          | inl m ↦
              let same : e ≡ d = same_some refl (rw (k, m, skip_instruction) at q) in
              subst (Read (λ xs. Passes (skip_instruction strings) xs × (0 < length xs)) c) same
                (x ∷ [], first, one, ((λ rest pc. rw (m, skip_instruction) refl), omega arith))
          | inr (op, m) ↦
              let q' : skip_operands strings (operands op) e ≡ some d =
                rw (k, m, skip_instruction) at q in
              let (ys, split, counted, p) =
                operands-Read (operands op) e d q' (omega (arith, ap length first, one, le)) in
              (
                x ∷ ys,
                both_split c e d (x ∷ []) ys first split,
                omega (arith, one, counted),
                (
                  λ rest pc.
                      rw (m, skip_instruction)
                        (p rest (pc + 1)
                          ∙ ap (λ n. some (at_bytes rest n)) (further_pc pc (x ∷ []) ys)),
                  omega arith,
                ),
              )
        ]
  ]
