-- ===== src/Jit/Bytecode/Again.antt =====
-- include/jit/bytecode_utils.hpp: what a step reads it reads the same way wherever it stands.
use mathlib.Core.Path.{subst}
use mathlib.Core.List.{append_assoc}
use munchkinglang.Prelude.{
  ℕ, zero, suc, ◌+◌, ◌≤◌, List, [], ◌∷◌, ◌++◌, Bool, true, false, Option, none, some, ◌≡◌, refl,
  sym, ap, ◌∙◌, arith, leb, if◌then◌else◌, length, option_cases, same_some, length-append,
}
use munchkinglang.Jit.Bytecode.{
  Cursor, read_u8, read_u32, number_of, Skip, skipped, then_skip, with_u32, repeat,
}

abbrev pub at_bytes : List ℕ → ℕ → Cursor
at_bytes rest pc = record { rest = rest; pc = pc }

-- What `f` gives of the bytes `xs` before any others: the number `x`, and it goes on behind them.
abbrev pub Gives {ℓ} : {A : Type ℓ} → (Cursor → Option (A × Cursor)) → List ℕ → A → Type ℓ
Gives f xs x =
    (rest : List ℕ) (pc : ℕ)
    → f (at_bytes (xs ++ rest) pc) ≡ some (x, at_bytes rest (pc + length xs))

abbrev pub Passes : Skip → List ℕ → Type 0
Passes f xs =
    (rest : List ℕ) (pc : ℕ) → f (at_bytes (xs ++ rest) pc) ≡ some (at_bytes rest (pc + length xs))

pub further_pc : (pc : ℕ) (xs ys : List ℕ) → pc + length xs + length ys ≡ pc + length (xs ++ ys)
further_pc pc xs ys = omega (arith, length-append xs ys)

-- A step on what another has given.
pub bound-Passes :
    (R : Cursor → Option (ℕ × Cursor)) (K : ℕ → Skip) (xs ys : List ℕ) (x : ℕ)
    → Gives R xs x
    → Passes (K x) ys
    → Passes (λ c. elim (R c) [ none ↦ none | some (n, d) ↦ K n d ]) (xs ++ ys)
bound-Passes R K xs ys x g p rest pc =
    rw (append_assoc, g (ys ++ rest) pc)
      (p rest (pc + length xs) ∙ ap (λ k. some (at_bytes rest k)) (further_pc pc xs ys))

then_skip-Passes :
    (f g : Skip) (xs ys : List ℕ) → Passes f xs → Passes g ys → Passes (then_skip f g) (xs ++ ys)
then_skip-Passes f g xs ys p q rest pc =
    rw (append_assoc, p (ys ++ rest) pc, then_skip)
      (q rest (pc + length xs) ∙ ap (λ k. some (at_bytes rest k)) (further_pc pc xs ys))

pub read_u8-Gives : (x : ℕ) → Gives read_u8 (x ∷ []) x
unfolding read_u8
read_u8-Gives x rest pc = refl

read_u32-Gives :
    (a b c d : ℕ) → Gives read_u32 (a ∷ b ∷ c ∷ d ∷ []) (number_of (a ∷ b ∷ c ∷ d ∷ []))
unfolding read_u32
read_u32-Gives a b c d rest pc =
    let enough : leb 4 (suc (suc (suc (suc (length rest))))) ≡ true = ground arith in
    rw (enough, read_u32) refl

-- What a step from `c` on has read, and that it reads so anywhere: the bytes are the first of those at `c`.
unfoldable pub Read : (List ℕ → Type 0) → Cursor → Cursor → Type 0
Read P c d = (xs : List ℕ) × (xs ++ d.rest ≡ c.rest) × (d.pc ≡ c.pc + length xs) × P xs

-- Steps `F m` that read so many bytes as `m` at most, the one from `c` on among them.
unfoldable pub Echo : (ℕ → Skip) → Cursor → Option Cursor → Type 0
Echo F c none = Unit
Echo F c (some d) = Read (λ xs. (m : ℕ) → length xs ≤ m → Passes (F m) xs) c d

unfoldable pub GivesEcho : (Cursor → Option (ℕ × Cursor)) → Cursor → Option (ℕ × Cursor) → Type 0
GivesEcho R c none = Unit
GivesEcho R c (some (x, d)) = Read (λ xs. Gives R xs x) c d

pub both_split :
    (c d e : Cursor) (xs ys : List ℕ)
    → xs ++ d.rest ≡ c.rest
    → ys ++ e.rest ≡ d.rest
    → (xs ++ ys) ++ e.rest ≡ c.rest
both_split c d e xs ys p q = append_assoc xs ys e.rest ∙ ap (λ r. xs ++ r) q ∙ p

pub read_u8-GivesEcho : (c : Cursor) → GivesEcho read_u8 c (read_u8 c)
unfolding read_u8 GivesEcho Read
read_u8-GivesEcho c = from c.rest refl
  where
    from : (rest : List ℕ) → c.rest ≡ rest → GivesEcho read_u8 c (read_u8 c)
    from [] q = rw (q, read_u8) tt
    from (x ∷ xs) q = rw (q, read_u8) (x ∷ [], refl, refl, read_u8-Gives x)

pub read_u32-GivesEcho : (c : Cursor) → GivesEcho read_u32 c (read_u32 c)
unfolding read_u32 GivesEcho Read
read_u32-GivesEcho c = from c.rest refl
  where
    from : (rest : List ℕ) → c.rest ≡ rest → GivesEcho read_u32 c (read_u32 c)
    from (w ∷ x ∷ y ∷ z ∷ rest) q =
        let enough : leb 4 (suc (suc (suc (suc (length rest))))) ≡ true = ground arith in
        rw (q, enough, read_u32) (w ∷ x ∷ y ∷ z ∷ [], refl, refl, read_u32-Gives w x y z)
    from [] q = rw (q, read_u32) tt
    from (_ ∷ []) q = rw (q, read_u32) tt
    from (_ ∷ _ ∷ []) q = rw (q, read_u32) tt
    from (_ ∷ _ ∷ _ ∷ []) q = rw (q, read_u32) tt

gives :
    (R : Cursor → Option (ℕ × Cursor)) (c : Cursor) (r : ℕ × Cursor) (o : Option (ℕ × Cursor))
    → GivesEcho R c o
    → o ≡ some r
    → Read (λ xs. Gives R xs (r.0)) c (r.1)
unfolding GivesEcho
gives R c r o h q = subst (GivesEcho R c) q h

bound-Echo :
    (R : Cursor → Option (ℕ × Cursor)) (K : ℕ → ℕ → Skip) (c : Cursor) (r : ℕ × Cursor)
    (o : Option Cursor)
    → Read (λ xs. Gives R xs (r.0)) c (r.1)
    → Echo (λ m. K m (r.0)) (r.1) o
    → Echo (λ m c. elim (R c) [ none ↦ none | some (n, d) ↦ K m n d ]) c o
unfolding Read Echo
bound-Echo R K c r none g h = tt
bound-Echo R K c r (some e) (xs, split, counted, g) (ys, split', counted', p) = (
  xs ++ ys,
  both_split c (r.1) e xs ys split split',
  omega (arith, counted, counted', length-append xs ys),
  λ m le. bound-Passes R (K m) xs ys (r.0) g (p m (omega (arith, le, length-append xs ys))),
)

pub reading_of :
    (F : ℕ → Skip) (c d : Cursor) (o : Option Cursor) → Echo F c o → o ≡ some d → Echo F c (some d)
reading_of F c d o h q = subst (Echo F c) q h

then_skip-Echo :
    (F G : ℕ → Skip) (c d : Cursor) (o : Option Cursor)
    → Echo F c (some d)
    → Echo G d o
    → Echo (λ m. then_skip (F m) (G m)) c o
unfolding Read Echo
then_skip-Echo F G c d none g h = tt
then_skip-Echo F G c d (some e) (xs, split, counted, f) (ys, split', counted', g) = (
  xs ++ ys,
  both_split c d e xs ys split split',
  omega (arith, counted, counted', length-append xs ys),
  λ m le.
      then_skip-Passes (F m) (G m) xs ys (f m (omega (arith, le, length-append xs ys)))
        (g m (omega (arith, le, length-append xs ys))),
)

pub skipped-Echo :
    (R : Cursor → Option (ℕ × Cursor)) (c : Cursor) (o : Option (ℕ × Cursor))
    → GivesEcho R c o
    → Echo (λ m c. skipped (R c)) c (skipped o)
unfolding Read Echo GivesEcho
skipped-Echo R c none h = tt
skipped-Echo R c (some (x, d)) (xs, split, counted, g) =
    (xs, split, counted, λ m le rest pc. ap skipped (g rest pc))

no_bytes : (pc : ℕ) → pc ≡ pc + 0
no_bytes pc = omega arith

pub pass-Echo : (c : Cursor) → Echo (λ m c. some c) c (some c)
unfolding Read Echo
pass-Echo c =
    ([], refl, omega arith, λ m le rest pc. ap (λ k. some (at_bytes rest k)) (no_bytes pc))

pub repeat-Echo :
    (n : ℕ) (f : Skip) (F : ℕ → Skip) (c : Cursor)
    → ((d : Cursor) → Echo F d (f d))
    → Echo (λ m. repeat n (F m)) c (repeat n f c)
unfolding repeat Echo
repeat-Echo zero f F c h = pass-Echo c
repeat-Echo (suc n) f F c h =
    option_cases (f c) (Echo (λ m. repeat (suc n) (F m)) c) (λ _. tt)
      (λ d q.
        then_skip-Echo F (λ m. repeat n (F m)) c d (repeat n f d) (reading_of F c d (f c) (h c) q)
          (repeat-Echo n f F d h))

pub if-Echo :
    (test : Bool) (F G : ℕ → Skip) (c : Cursor) (o p : Option Cursor)
    → Echo F c o
    → Echo G c p
    → Echo (λ m c. if test then F m c else G m c) c (if test then o else p)
if-Echo true F G c o p h k = h
if-Echo false F G c o p h k = k

pub with_u32-Echo :
    (f : ℕ → Skip) (F : ℕ → ℕ → Skip)
    → ((n : ℕ) (d : Cursor) → Echo (λ m. F m n) d (f n d))
    → (c : Cursor) → Echo (λ m. with_u32 (F m)) c (with_u32 f c)
unfolding Echo
with_u32-Echo f F h c =
    option_cases (read_u32 c) (Echo (λ m. with_u32 (F m)) c) (λ _. tt)
      (λ r q.
        bound-Echo read_u32 F c r (f (r.0) (r.1))
          (gives read_u32 c r (read_u32 c) (read_u32-GivesEcho c) q) (h (r.0) (r.1)))

pub after-Echo :
    (f g : Skip) (F G : ℕ → Skip)
    → ((c : Cursor) → Echo F c (f c))
    → ((d : Cursor) → Echo G d (g d))
    → (c : Cursor) → Echo (λ m. then_skip (F m) (G m)) c (then_skip f g c)
unfolding Echo
after-Echo f g F G hf hg c =
    option_cases (f c) (Echo (λ m. then_skip (F m) (G m)) c) (λ _. tt)
      (λ d q. then_skip-Echo F G c d (g d) (reading_of F c d (f c) (hf c) q) (hg d))

pub none-Echo : (c : Cursor) → Echo (λ m c. none) c none
unfolding Echo
none-Echo c = tt

pub first_byte :
    (c : Cursor) (r : ℕ × Cursor)
    → read_u8 c ≡ some r
    → ((r.0 ∷ []) ++ (r.1).rest ≡ c.rest) × ((r.1).pc ≡ c.pc + 1)
unfolding read_u8
first_byte c r q = from c.rest refl
  where
    from :
        (rest : List ℕ)
        → c.rest ≡ rest
        → ((r.0 ∷ []) ++ (r.1).rest ≡ c.rest) × ((r.1).pc ≡ c.pc + 1)
    from [] e = let q' : none ≡ some r = rw (e, read_u8) at q in absurd (cc)
    from (x ∷ xs) e =
        let same : (x, record { rest = xs; pc = c.pc + 1 }) ≡ r =
          same_some refl (rw (e, read_u8) at q) in
        (
          subst (λ s. (s.0 ∷ []) ++ (s.1).rest ≡ c.rest) same (sym e),
          subst (λ s. (s.1).pc ≡ c.pc + 1) same refl,
        )

-- A step behind a byte, which makes the bound less by one.
pub counted_byte :
    (F : ℕ → Skip) (K : ℕ → ℕ → Skip) (c : Cursor) (r : ℕ × Cursor) (o : Option Cursor)
    → ((m : ℕ) (d : Cursor)
        → F (suc m) d ≡ elim (read_u8 d) [ none ↦ none | some (x, e) ↦ K m x e ])
    → read_u8 c ≡ some r
    → Echo (λ m. K m (r.0)) (r.1) o
    → Echo F c o
unfolding Read Echo
counted_byte F K c r none opened q h = tt
counted_byte F K c r (some e) opened q (ys, split, counted, p) =
    let (first, one) = first_byte c r q in
    (
      (r.0 ∷ []) ++ ys,
      both_split c (r.1) e (r.0 ∷ []) ys first split,
      omega (arith, one, counted),
      again,
    )
  where
    again : (m : ℕ) → length ((r.0 ∷ []) ++ ys) ≤ m → Passes (F m) ((r.0 ∷ []) ++ ys)
    again zero le = absurd (omega (arith, le))
    again (suc m) le = λ rest pc.
        opened m (at_bytes (((r.0 ∷ []) ++ ys) ++ rest) pc)
        ∙ bound-Passes read_u8 (K m) (r.0 ∷ []) ys (r.0) (read_u8-Gives (r.0))
            (p m (omega (arith, le))) rest pc
