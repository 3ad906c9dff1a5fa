-- ===== src/Jit/Bytecode/Skips.antt =====
-- include/jit/bytecode_utils.hpp: how the cursor moves.
use mathlib.Core.Path.{subst}
use munchkinglang.Prelude.{
  ℕ, zero, suc, ◌+◌, ◌-◌, ◌<◌, List, [], ◌∷◌, ◌&&◌, Option, none, some, ◌≡◌, refl, sym, ap, ◌∙◌,
  arith, leb, ◌==◌, length, drop, if_cases, option_cases,
}
use munchkinglang.Jit.Bytecode.Opcodes.{Operands, opcode_at, operands}
use munchkinglang.Jit.Bytecode.{
  Cursor, read_u8, read_u32, Skip, skipped, then_skip, with_u32, repeat, skip_name, skip_type,
  skip_operands, skip_instruction,
}

counted_zero : (m : ℕ) → m ≡ 0 + m
counted_zero m = omega arith

counted_suc : (n m : ℕ) → suc (n + m) ≡ suc n + m
counted_suc n m = omega arith

drop_nil {ℓ} : {A : Type ℓ} (n : ℕ) → drop {A = A} n [] ≡ []
drop_nil zero = refl
drop_nil (suc n) = refl

drop-drop {ℓ} : {A : Type ℓ} (m n : ℕ) (xs : List A) → drop m (drop n xs) ≡ drop (n + m) xs
drop-drop m zero xs = ap (λ k. drop k xs) (counted_zero m)
drop-drop m (suc n) [] = drop_nil m ∙ sym (drop_nil (suc n + m))
drop-drop m (suc n) (x ∷ xs) = drop-drop m n xs ∙ ap (λ k. drop k (x ∷ xs)) (counted_suc n m)

-- A step takes so many bytes, and the counter counts them.
pub record Taken (c d : Cursor) : Type 0 where
  pub size : ℕ
  pub counted : d.pc ≡ c.pc + size
  pub dropped : d.rest ≡ drop size c.rest

Taken-refl : (c : Cursor) → Taken c c
Taken-refl c = record { size = 0; counted = omega arith; dropped = refl }

unfoldable Taken-trans : {c d e : Cursor} → Taken c d → Taken d e → Taken c e
Taken-trans {c} {d} {e} s t = record {
  size = s.size + t.size;
  counted = omega (arith, s.counted, t.counted);
  dropped = t.dropped ∙ ap (drop t.size) s.dropped ∙ drop-drop t.size s.size c.rest;
}

-- Where a step goes on, it takes some bytes.
pub Goes : Cursor → Option Cursor → Type 0
Goes c none = Unit
Goes c (some d) = Taken c d

pub GoesWith : Cursor → Option (ℕ × Cursor) → Type 0
GoesWith c none = Unit
GoesWith c (some (n, d)) = Taken c d

pub read_u8-GoesWith : (c : Cursor) → GoesWith c (read_u8 c)
unfolding read_u8 GoesWith
read_u8-GoesWith c = from c.rest refl
  where
    from : (rest : List ℕ) → c.rest ≡ rest → GoesWith c (read_u8 c)
    from [] q = rw (q, read_u8) tt
    from (x ∷ xs) q = rw (q, read_u8) (record { size = 1; counted = refl; dropped = refl })

pub read_u32-GoesWith : (c : Cursor) → GoesWith c (read_u32 c)
unfolding read_u32 GoesWith
read_u32-GoesWith c =
    if_cases (leb 4 (length c.rest)) (GoesWith c)
      (λ _. record { size = 4; counted = refl; dropped = refl }) (λ _. tt)

pub goes : (c d : Cursor) (o : Option Cursor) → Goes c o → o ≡ some d → Taken c d
unfolding Goes
goes c d o h q = subst (Goes c) q h

pub goes_with :
    (c : Cursor) (r : ℕ × Cursor) (o : Option (ℕ × Cursor))
    → GoesWith c o
    → o ≡ some r
    → Taken c (r.1)
unfolding GoesWith
goes_with c r o h q = subst (GoesWith c) q h

further : (c d : Cursor) (o : Option Cursor) → Taken c d → Goes d o → Goes c o
unfolding Goes
further c d none t h = tt
further c d (some e) t h = Taken-trans t h

skipped-Goes : (c : Cursor) (o : Option (ℕ × Cursor)) → GoesWith c o → Goes c (skipped o)
unfolding Goes GoesWith
skipped-Goes c none h = tt
skipped-Goes c (some (x, d)) h = h

-- Where a step goes on, it takes at least a byte.
Starts : Cursor → Option Cursor → Type 0
Starts c none = Unit
Starts c (some d) = (t : Taken c d) × (0 < t.size)

First : Cursor → Option (ℕ × Cursor) → Type 0
First c none = Unit
First c (some (x, d)) = (t : Taken c d) × (0 < t.size)

read_u8-First : (c : Cursor) → First c (read_u8 c)
unfolding read_u8 First
read_u8-First c = from c.rest refl
  where
    from : (rest : List ℕ) → c.rest ≡ rest → First c (read_u8 c)
    from [] q = rw (q, read_u8) tt
    from (x ∷ xs) q =
        rw (q, read_u8) (record { size = 1; counted = refl; dropped = refl }, omega arith)

one_byte :
    (c : Cursor) (r : ℕ × Cursor) (o : Option (ℕ × Cursor))
    → First c o
    → o ≡ some r
    → (t : Taken c (r.1)) × (0 < t.size)
unfolding First
one_byte c r o h q = subst (First c) q h

started :
    (c d : Cursor) (o : Option Cursor) → ((t : Taken c d) × (0 < t.size)) → Goes d o → Starts c o
unfolding Goes Starts Taken-trans
started c d none t h = tt
started c d (some e) (t, pos) h = (Taken-trans t h, omega (arith, pos))

Moving : Skip → Type 0
Moving f = (c : Cursor) → Goes c (f c)

then_skip-Moving : (f g : Skip) → Moving f → Moving g → Moving (then_skip f g)
unfolding Moving Goes
then_skip-Moving f g h k c =
    option_cases (f c) (Goes c) (λ _. tt) (λ d q. further c d (g d) (goes c d (f c) (h c) q) (k d))

with_u32-Moving : (f : ℕ → Skip) → ((n : ℕ) → Moving (f n)) → Moving (with_u32 f)
unfolding Moving Goes
with_u32-Moving f h c =
    option_cases (read_u32 c) (Goes c) (λ _. tt)
      (λ r q.
        further c (r.1) (f (r.0) (r.1)) (goes_with c r (read_u32 c) (read_u32-GoesWith c) q)
          (h (r.0) (r.1)))

repeat-Moving : (n : ℕ) (f : Skip) → Moving f → Moving (repeat n f)
unfolding Moving Goes repeat
repeat-Moving zero f h c = Taken-refl c
repeat-Moving (suc n) f h c =
    option_cases (f c) (Goes c) (λ _. tt)
      (λ d q. further c d (repeat n f d) (goes c d (f c) (h c) q) (repeat-Moving n f h d))

module _ (strings : List ℕ) where
  skip_name-Moving : Moving (skip_name strings)
  unfolding Moving Goes skip_name
  skip_name-Moving = with_u32-Moving _ (λ offset. with_u32-Moving _ (λ size c.
      if_cases (leb offset (length strings) && leb size (length strings - offset)) (Goes c)
        (λ _. Taken-refl c) (λ _. tt)))

  skip_type-Moving : (n : ℕ) → Moving (skip_type strings n)
  unfolding Moving Goes skip_type
  skip_type-Moving zero c = tt
  skip_type-Moving (suc n) c =
      let inner = skip_type-Moving n in
      option_cases (read_u8 c) (Goes c) (λ _. tt)
        (λ r q.
          let d = r.1 in
          let taken = goes_with c r (read_u8 c) (read_u8-GoesWith c) q in
          let P = λ (o : Option Cursor). Goes c o in
          if_cases (r.0 == 0) P (λ _. further c d _ taken (skipped-Goes d _ (read_u8-GoesWith d)))
            (λ _.
              if_cases (r.0 == 1) P (λ _. further c d _ taken (skip_name-Moving d))
                (λ _.
                  if_cases (r.0 == 2) P (λ _. further c d _ taken (inner d))
                    (λ _.
                      if_cases (r.0 == 3) P
                        (λ _.
                          further c d _ taken
                            (with_u32-Moving _ (λ count. repeat-Moving count _ inner) d))
                        (λ _.
                          if_cases (r.0 == 4) P
                            (λ _. further c d _ taken (then_skip-Moving _ _ inner inner d))
                            (λ _.
                              if_cases (r.0 == 5) P
                                (λ _. further c d _ taken (
                                  with_u32-Moving _
                                    (λ count.
                                      then_skip-Moving _ _ (repeat-Moving count _ inner) inner)
                                    d))
                                (λ _. taken)))))))

  skip_operands-Moving : (o : Operands) → Moving (skip_operands strings o)
  unfolding Moving Goes skip_operands
  skip_operands-Moving Operands.nothing c = Taken-refl c
  skip_operands-Moving Operands.eight_bytes c = record { size = 8; counted = refl; dropped = refl }
  skip_operands-Moving Operands.byte c = skipped-Goes c _ (read_u8-GoesWith c)
  skip_operands-Moving Operands.word c = skipped-Goes c _ (read_u32-GoesWith c)
  skip_operands-Moving Operands.name c = skip_name-Moving c
  skip_operands-Moving Operands.two_names c =
      then_skip-Moving _ _ skip_name-Moving skip_name-Moving c
  skip_operands-Moving Operands.type c = skip_type-Moving (suc (length c.rest)) c
  skip_operands-Moving Operands.name_and_names c =
      then_skip-Moving _ _ skip_name-Moving
        (with_u32-Moving _ (λ count. repeat-Moving count _ skip_name-Moving)) c

  skip_instruction-Starts : (c : Cursor) → Starts c (skip_instruction strings c)
  unfolding Starts skip_instruction Moving
  skip_instruction-Starts c =
      option_cases (read_u8 c) (Starts c) (λ _. tt)
        (λ r q.
          let (t, pos) = one_byte c r (read_u8 c) (read_u8-First c) q in
          option_cases (opcode_at (r.0)) (Starts c) (λ _. (t, pos))
            (λ op _.
              started c (r.1) (skip_operands strings (operands op) (r.1)) (t, pos)
                (skip_operands-Moving (operands op) (r.1))))

  -- An instruction takes its first byte and the operands behind it.
  pub skip_instruction-Taken :
      (c d : Cursor) → skip_instruction strings c ≡ some d → (t : Taken c d) × (0 < t.size)
  unfolding Starts
  skip_instruction-Taken c d h = subst (Starts c) h (skip_instruction-Starts c)
