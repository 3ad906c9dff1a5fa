-- ===== src/Jit/Bytecode/Fetched.antt =====
-- include/jit/bytecode_utils.hpp: an instruction that is written is read back.
use mathlib.Core.Path.{subst}
use munchkinglang.Prelude.{
  ℕ, suc, ◌+◌, ◌-◌, ◌^◌, ◌<◌, List, [], ◌∷◌, ◌++◌, Bool, true, false, not, Option, none, some, ◌≡◌,
  refl, sym, ap, ◌∙◌, arith, leb, ◌==◌, length, take, drop, elim_cases, option_cases, Option-cases,
  Bool-cases, inl, inr, same_some, leb→le, length-append, length-take, take-append,
  take-append-drop,
}
use munchkinglang.Prelude.Int.{ℤ, to_word, of_word}
use munchkinglang.Mir.Runtime.{in_i64}
use munchkinglang.Jit.Bytecode.Opcodes.{Opcode, Operands, opcode_at, operands}
use munchkinglang.Jit.Bytecode.{Cursor, read_u8, number_of, skip_operands, skip_instruction}
use munchkinglang.Jit.Bytecode.Insns.{
  Insn, push_int, push_bool, plain, read_i64, low_bytes, i64_bytes, emit, behind_first, is_push_int,
  is_push_bool, fetch,
}
use munchkinglang.Jit.Bytecode.Again.{at_bytes, Read, first_byte}
use munchkinglang.Jit.Bytecode.Whole.{skip_instruction-Read}
use munchkinglang.Jit.Pgo.{instruction}
use munchkinglang.Jit.Bytecode.Words.{
  number_of-low_bytes, of_word-to_word, to_word-lt, of_word-in_i64, AreBytes, number_of-lt,
  behind-AreBytes, front-AreBytes, first_or,
}

-- The integer of a PUSH_INT is an `int64_t`.
unfoldable pub InRange : Insn → Type 0
InRange (push_int z) = in_i64 z ≡ true
InRange _ = Unit

module _ (strings : List ℕ) where
  -- The bytes that are written for `i` are read as `i`, whatever comes behind them.
  unfoldable pub IsWhole : Insn → Type 0
  IsWhole i =
      (rest : List ℕ) (pc : ℕ)
      → fetch strings (at_bytes (emit i ++ rest) pc)
        ≡ some (i, at_bytes rest (pc + length (emit i)))

  pc_step : (pc k : ℕ) → pc + 1 + k ≡ pc + suc k
  pc_step pc k = omega arith

  read_i64-i64_bytes :
      (z : ℤ) (rest : List ℕ) (pc : ℕ)
      → in_i64 z ≡ true
      → read_i64 (at_bytes (i64_bytes z ++ rest) pc) ≡ some (z, at_bytes rest (pc + 8))
  unfolding read_i64 i64_bytes low_bytes
  read_i64-i64_bytes z rest pc h =
      let number : of_word (number_of (low_bytes 8 (to_word z))) ≡ z =
        ap of_word (number_of-low_bytes 8 (to_word z) (to_word-lt z h)) ∙ of_word-to_word z h in
      let enough : leb 8 (suc (suc (suc (suc (suc (suc (suc (suc (length rest))))))))) ≡ true =
        ground arith in
      rw (enough, read_i64) (ap (λ w. some (w, at_bytes rest (pc + 8))) number)

  pub push_int-IsWhole : (z : ℤ) → in_i64 z ≡ true → IsWhole (push_int z)
  unfolding IsWhole fetch emit i64_bytes low_bytes
  push_int-IsWhole z h rest pc =
      ap (λ (o : Option (ℤ × Cursor)). elim o [ none ↦ none | some (w, e) ↦ some (push_int w, e) ])
        (read_i64-i64_bytes z rest (pc + 1) h)
      ∙ ap (λ k. some (push_int z, at_bytes rest k)) (pc_step pc 8)

  pub push_bool-IsWhole : (b : Bool) → IsWhole (push_bool b)
  unfolding IsWhole fetch emit
  push_bool-IsWhole true rest pc = ap (λ k. some (push_bool true, at_bytes rest k)) (pc_step pc 1)
  push_bool-IsWhole false rest pc = ap (λ k. some (push_bool false, at_bytes rest k)) (pc_step pc 1)

  once :
      (xs rest : List ℕ) (pc : ℕ)
      → skip_instruction strings (at_bytes (xs ++ rest) pc) ≡ some (at_bytes rest (pc + length xs))
      → instruction strings (at_bytes (xs ++ rest) pc) ≡ some (xs, at_bytes rest (pc + length xs))
  unfolding instruction
  once xs rest pc k =
      let size : pc + length xs - pc ≡ length xs = omega arith in
      let fits : leb (length xs) (length (xs ++ rest)) ≡ true =
        ground (arith, length-append xs rest) in
      rw (k, instruction)
        (rw (size, fits) (ap (λ b. some (b, at_bytes rest (pc + length xs))) (take-append xs rest)))

  instruction_again :
      (c d : Cursor) (bytes : List ℕ)
      → instruction strings c ≡ some (bytes, d)
      → (bytes ++ d.rest ≡ c.rest)
        × (0 < length bytes)
        × ((rest : List ℕ) (pc : ℕ)
            → instruction strings (at_bytes (bytes ++ rest) pc)
              ≡ some (bytes, at_bytes rest (pc + length bytes)))
  unfolding instruction Read
  instruction_again c d bytes q = elim (Option-cases (skip_instruction strings c)) [
    | inl k ↦
        let q' : Path (Option (List ℕ × Cursor)) none (some (bytes, d)) =
          rw (k, instruction) at q in
        absurd (cc)
    | inr (e, k) ↦ elim (Bool-cases (leb (e.pc - c.pc) (length c.rest))) [
      | inr m ↦
          let q' : Path (Option (List ℕ × Cursor)) none (some (bytes, d)) =
            rw (k, m, instruction) at q in
          absurd (cc)
      | inl m ↦
          let same : Path (List ℕ × Cursor) (take (e.pc - c.pc) c.rest, e) (bytes, d) =
            same_some refl (rw (k, m, instruction) at q) in
          let (xs, split, counted, (p, some_bytes)) =
            skip_instruction-Read strings c e k (leb→le (e.pc - c.pc) (length c.rest) m) in
          let size : e.pc - c.pc ≡ length xs = omega (arith, counted) in
          let taken : xs ≡ bytes =
            sym (take-append xs e.rest)
            ∙ ap (λ r. take (length xs) r) split
            ∙ ap (λ n. take n c.rest) (sym size)
            ∙ ap (λ r. r.0) same in
          let whole : (xs ++ e.rest ≡ c.rest)
              × (0 < length xs)
              × ((rest : List ℕ) (pc : ℕ)
                  → instruction strings (at_bytes (xs ++ rest) pc)
                    ≡ some (xs, at_bytes rest (pc + length xs))) =
            (split, some_bytes, λ rest pc. once xs rest pc (p rest pc)) in
          subst
            (λ (r : List ℕ × Cursor).
              (r.0 ++ (r.1).rest ≡ c.rest)
              × (0 < length (r.0))
              × ((rest : List ℕ) (pc : ℕ)
                  → instruction strings (at_bytes (r.0 ++ rest) pc)
                    ≡ some (r.0, at_bytes rest (pc + length (r.0)))))
            (ap (λ b. (b, e)) taken ∙ ap (λ r. (bytes, r.1)) same) whole
    ]
  ]

  -- An instruction copied behind its opcode.
  plain-IsWhole :
      (x : ℕ) (bytes : List ℕ)
      → is_push_int (opcode_at x) ≡ false
      → is_push_bool (opcode_at x) ≡ false
      → ((rest : List ℕ) (pc : ℕ)
          → instruction strings (at_bytes ((x ∷ bytes) ++ rest) pc)
            ≡ some (x ∷ bytes, at_bytes rest (pc + length (x ∷ bytes))))
      → IsWhole (plain x bytes)
  unfolding IsWhole fetch emit read_u8
  plain-IsWhole x bytes hi hb again rest pc = rw (hi, hb, again rest pc, fetch) refl

  pub alone-IsWhole :
      (x : ℕ) (op : Opcode)
      → opcode_at x ≡ some op
      → operands op ≡ Operands.nothing
      → is_push_int (some op) ≡ false
      → is_push_bool (some op) ≡ false
      → IsWhole (plain x [])
  unfolding skip_instruction skip_operands read_u8
  alone-IsWhole x op k none_taken hi hb =
      plain-IsWhole x [] (ap is_push_int k ∙ hi) (ap is_push_bool k ∙ hb)
        (λ rest pc. once (x ∷ []) rest pc (rw (k, none_taken, skip_instruction) refl))

  -- What is read at the cursor: the rest are bytes, and the instruction is read so anywhere.
  Sound : Option (Insn × Cursor) → Type 0
  Sound none = Unit
  Sound (some (i, d)) = AreBytes d.rest × InRange i × IsWhole i

  read_i64-Sound :
      (d : Cursor) (r : ℤ × Cursor)
      → AreBytes d.rest
      → read_i64 d ≡ some r
      → AreBytes ((r.1).rest) × (in_i64 (r.0) ≡ true)
  unfolding read_i64
  read_i64-Sound d r bytes q = elim (Bool-cases (leb 8 (length d.rest))) [
    | inr m ↦ let q' : none ≡ some r = rw (m, read_i64) at q in absurd (cc)
    | inl m ↦
        let same : (of_word (number_of (take 8 d.rest)), at_bytes (drop 8 d.rest) (d.pc + 8)) ≡ r =
          same_some refl (rw (m, read_i64) at q) in
        let halves = subst AreBytes (sym (take-append-drop 8 d.rest)) bytes in
        let size : length (take 8 d.rest) ≡ 8 =
          omega (arith, length-take 8 d.rest, leb→le 8 (length d.rest) m) in
        let less : number_of (take 8 d.rest) < 2 ^ 64 =
          subst (λ n. number_of (take 8 d.rest) < 256 ^ n) size
            (number_of-lt (take 8 d.rest) (front-AreBytes _ _ halves)) in
        subst (λ (s : ℤ × Cursor). AreBytes ((s.1).rest) × (in_i64 (s.0) ≡ true)) same
          (behind-AreBytes (take 8 d.rest) _ halves, of_word-in_i64 _ less)
  ]

  fetch-Sound : (c : Cursor) → AreBytes c.rest → Sound (fetch strings c)
  unfolding fetch Sound InRange first_or
  fetch-Sound c bytes =
      option_cases (read_u8 c) Sound (λ _. tt)
        (λ r q.
          let (first, one) = first_byte c r q in
          let rest = behind-AreBytes (r.0 ∷ []) ((r.1).rest) (subst AreBytes (sym first) bytes) in
          elim_cases (is_push_int (opcode_at (r.0))) Sound
            (λ _.
              option_cases (read_i64 (r.1)) Sound (λ _. tt)
                (λ s k.
                  let (after, range) = read_i64-Sound (r.1) s rest k in
                  (after, range, push_int-IsWhole (s.0) range)))
            (λ hi.
              elim_cases (is_push_bool (opcode_at (r.0))) Sound
                (λ _.
                  option_cases (read_u8 (r.1)) Sound (λ _. tt)
                    (λ s k.
                      let (second, two) = first_byte (r.1) s k in
                      (
                        behind-AreBytes (s.0 ∷ []) ((s.1).rest) (subst AreBytes (sym second) rest),
                        tt,
                        push_bool-IsWhole (not (s.0 == 0)),
                      )))
                (λ hb.
                  option_cases (instruction strings c) Sound (λ _. tt)
                    (λ s k.
                      let (split, some_bytes, again) = instruction_again c (s.1) (s.0) k in
                      (
                        behind-AreBytes (s.0) ((s.1).rest) (subst AreBytes (sym split) bytes),
                        tt,
                        copied-IsWhole (r.0) (s.0) ((r.1).rest) ((s.1).rest) (split ∙ sym first)
                            some_bytes hi hb again,
                      )))))
    where
      copied-IsWhole :
          (x : ℕ) (bytes xs ys : List ℕ)
          → bytes ++ ys ≡ x ∷ xs
          → 0 < length bytes
          → is_push_int (opcode_at x) ≡ false
          → is_push_bool (opcode_at x) ≡ false
          → ((rest : List ℕ) (pc : ℕ)
              → instruction strings (at_bytes (bytes ++ rest) pc)
                ≡ some (bytes, at_bytes rest (pc + length bytes)))
          → IsWhole (plain x (behind_first bytes))
      copied-IsWhole x [] xs ys split some_bytes hi hb again = absurd (omega (arith, some_bytes))
      copied-IsWhole x (y ∷ bytes) xs ys split some_bytes hi hb again =
          let same : y ≡ x = ap (first_or 0) split in
          plain-IsWhole x bytes hi hb (
            subst
              (λ z.
                (rest : List ℕ) (pc : ℕ)
                → instruction strings (at_bytes ((z ∷ bytes) ++ rest) pc)
                  ≡ some (z ∷ bytes, at_bytes rest (pc + length (z ∷ bytes))))
              same again)

  pub fetched :
      (c d : Cursor) (i : Insn)
      → AreBytes c.rest
      → fetch strings c ≡ some (i, d)
      → AreBytes d.rest × InRange i × IsWhole i
  unfolding Sound
  fetched c d i bytes q = subst Sound q (fetch-Sound c bytes)
