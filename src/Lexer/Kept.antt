-- ===== src/Lexer/Kept.antt =====
-- include/lexer.hpp: every part of the lexer keeps the place, or reports an error.
use munchkinglang.Prelude.{
  ℕ, zero, suc, ◌≤◌, ◌<◌, List, [], ◌∷◌, Bool, true, false, not, ◌&&◌, ◌||◌, ◌≡◌, ◌⊎◌, inl, inr,
  refl, ◌∙◌, arith, ◌==◌, ltb, ◌^◌, length, take, get_or, Bool-cases, if_cases, elim_cases,
}
use munchkinglang.Lexer.Words.{Token}
use munchkinglang.Lexer.{
  Place, Complaint, Cursor, eof, peek, advance, advance_no_newline, fail, skip_line, skip_block,
  end_block, skip_rounds, skip_trivia, is_blank, decimal_from, is_digit, is_ident_start,
  is_ident_cont, ident_length, lex_ident, number_length, lex_number,
}
use munchkinglang.Lexer.Places.{
  plain, Clean, Clean-refl, Clean-trans, Clean-faulty, advance-Clean, advance_no_newline-Clean,
  advance-rest,
}
use munchkinglang.Lexer.Progress.{left, eof-left}
use munchkinglang.Lexer.Signs.{solid}

unfoldable pub solid_from : ℕ → ℕ → List ℕ → Bool
unfolding solid
solid_from zero i rest = true
solid_from (suc n) i rest = solid (get_or rest i 0) && solid_from n (suc i) rest

solid_tail : (n i x : ℕ) (xs : List ℕ) → solid_from n (suc i) (x ∷ xs) ≡ solid_from n i xs
unfolding solid_from
solid_tail zero i x xs = refl
solid_tail (suc n) i x xs = rw (solid_tail n (suc i) x xs) refl

pub solid_le : (n : ℕ) (rest : List ℕ) → solid_from n 0 rest ≡ true → n ≤ length rest
unfolding solid_from
solid_le zero rest h = omega arith
solid_le (suc n) [] h = absurd (cc)
solid_le (suc n) (x ∷ xs) h = ground (arith, solid_tail n 0 x xs, solid_le n xs)

solid_plain : (n : ℕ) (rest : List ℕ) → solid_from n 0 rest ≡ true → plain (take n rest) ≡ true
unfolding solid_from plain
solid_plain zero rest h = refl
solid_plain (suc n) [] h = refl
solid_plain (suc n) (x ∷ xs) h = ground (arith, solid_tail n 0 x xs, solid_plain n xs)

pub solid-Clean :
    (n : ℕ) (c : Cursor) → solid_from n 0 c.rest ≡ true → Clean c (advance_no_newline n c)
solid-Clean n c h = advance_no_newline-Clean n c (solid_le n c.rest h) (solid_plain n c.rest h)

-- The next character may be 0 where it is known to be there.
first_plain : (rest : List ℕ) → (get_or rest 0 0 == b'\n') ≡ false → plain (take 1 rest) ≡ true
unfolding plain
first_plain [] h = refl
first_plain (x ∷ xs) h = rw h refl

pub first-Clean :
    (c : Cursor) → 0 < left c → (peek c 0 == b'\n') ≡ false → Clean c (advance_no_newline 1 c)
first-Clean c e h = advance_no_newline-Clean 1 c (omega arith) (first_plain c.rest h)

-- An error, and what is taken behind it.
pub fail-Clean : (k : Complaint) (c d : Cursor) → Clean c (fail k d)
unfolding fail
fail-Clean k c d = Clean-faulty c (fail k d) _ d.faults refl

pub fail_past-Clean :
    (n : ℕ) (k : Complaint) (c d : Cursor) → Clean c (advance_no_newline n (fail k d))
unfolding fail advance_no_newline
fail_past-Clean n k c d = Clean-faulty c (advance_no_newline n (fail k d)) _ d.faults refl

skip_line-Clean : (c : Cursor) (xs : List ℕ) → c.rest ≡ xs → Clean c (skip_line xs c)
unfolding skip_line
skip_line-Clean c [] q = Clean-refl c
skip_line-Clean c (x ∷ xs) q =
    elim_cases (x == b'\n') (Clean c) (λ _. Clean-refl c)
      (λ h.
        Clean-trans (first-Clean c (rw q (omega arith)) (rw q h))
          (skip_line-Clean (advance_no_newline 1 c) xs (unfold advance_no_newline in rw q refl)))

pub skip_block-Clean : (c : Cursor) (xs : List ℕ) → c.rest ≡ xs → Clean c (skip_block xs c)
unfolding skip_block
skip_block-Clean c [] q = Clean-refl c
skip_block-Clean c (x ∷ xs) q =
    elim_cases (x == b'*' && get_or xs 0 0 == b'/') (Clean c) (λ _. Clean-refl c)
      (λ h.
        Clean-trans (advance-Clean 1 c)
          (skip_block-Clean (advance 1 c) xs (advance-rest 1 c ∙ rw q refl)))

-- The loop stops at the end of the source, or at that of the comment.
pub skip_block_stops :
    (xs : List ℕ) (c : Cursor)
    → c.rest ≡ xs
    → length ((skip_block xs c).rest) ≡ 0 ⊎ solid_from 2 0 ((skip_block xs c).rest) ≡ true
unfolding skip_block
skip_block_stops [] c q = inl (rw q refl)
skip_block_stops (x ∷ xs) c q =
    let Stops = λ (e : Cursor). length e.rest ≡ 0 ⊎ solid_from 2 0 e.rest ≡ true in
    elim_cases (x == b'*' && get_or xs 0 0 == b'/') Stops
      (λ h. inr (rw q (unfold solid_from solid in ground arith)))
      (λ h. skip_block_stops xs (advance 1 c) (advance-rest 1 c ∙ rw q refl))

pub end_block-Clean :
    (c d : Cursor)
    → Clean c d
    → length d.rest ≡ 0 ⊎ solid_from 2 0 d.rest ≡ true
    → Clean c (end_block d)
unfolding end_block
end_block-Clean c d k h =
    if_cases (eof d) (λ e. Clean c (advance_no_newline 2 e)) (λ _. fail_past-Clean 2 _ c d)
      (λ e.
        let some_left = eof-left d e in
        Clean-trans k (solid-Clean 2 d (elim h [ inl z ↦ absurd (omega arith) | inr q ↦ q ])))

two_solid :
    (x : ℕ) (rest : List ℕ)
    → (get_or rest 0 0 == b'/' && get_or rest 1 0 == x) ≡ true
    → solid x ≡ true
    → solid_from 2 0 rest ≡ true
unfolding solid_from solid
two_solid x rest h k = ground arith

pub skip_rounds-Clean : (n : ℕ) (c : Cursor) → Clean c (skip_rounds n c)
unfolding skip_rounds solid
skip_rounds-Clean zero c = Clean-refl c
skip_rounds-Clean (suc n) c =
    let d = advance_no_newline 2 c in
    elim_cases (eof c) (Clean c) (λ _. Clean-refl c)
      (λ e.
        elim_cases (is_blank (peek c 0)) (Clean c)
          (λ _. Clean-trans (advance-Clean 1 c) (skip_rounds-Clean n (advance 1 c)))
          (λ b.
            elim_cases (peek c 0 == b'/' && peek c 1 == b'/') (Clean c)
              (λ l. Clean-trans (solid-Clean 2 c (two_solid b'/' c.rest l refl)) (
                Clean-trans (skip_line-Clean d d.rest refl)
                  (skip_rounds-Clean n (skip_line d.rest d))))
              (λ l.
                elim_cases (peek c 0 == b'/' && peek c 1 == b'*') (Clean c)
                  (λ k. Clean-trans (solid-Clean 2 c (two_solid b'*' c.rest k refl)) (
                    Clean-trans
                      (end_block-Clean d (skip_block d.rest d) (skip_block-Clean d d.rest refl)
                        (skip_block_stops d.rest d refl))
                      (skip_rounds-Clean n (end_block (skip_block d.rest d)))))
                  (λ k. Clean-refl c))))

pub skip_trivia-Clean : (c : Cursor) → Clean c (skip_trivia c)
unfolding skip_trivia
skip_trivia-Clean c = skip_rounds-Clean (left c) c

ident_length-le : (xs : List ℕ) → ident_length xs ≤ length xs
unfolding ident_length
ident_length-le [] = omega arith
ident_length-le (x ∷ xs) = ground (arith, ident_length-le xs)

ident_plain : (xs : List ℕ) → plain (take (ident_length xs) xs) ≡ true
unfolding ident_length plain is_ident_cont is_ident_start
ident_plain [] = refl
ident_plain (x ∷ xs) = elim (Bool-cases (is_ident_cont x)) [
  | inl q ↦ rw q (ground (arith, ident_plain xs))
  | inr q ↦ rw q refl
]

pub lex_ident-Clean : (s : Place) (c : Cursor) → Clean c ((lex_ident s c).1)
unfolding lex_ident
lex_ident-Clean s c =
    advance_no_newline-Clean (ident_length c.rest) c (ident_length-le c.rest) (ident_plain c.rest)

number_length-le : (xs : List ℕ) (f : Bool) → (number_length xs f).0 ≤ length xs
unfolding number_length
number_length-le [] f = omega arith
number_length-le (x ∷ xs) f = ground (arith, number_length-le xs (f || not (is_digit x)))

number_plain : (xs : List ℕ) (f : Bool) → plain (take ((number_length xs f).0) xs) ≡ true
unfolding number_length plain
number_plain [] f = refl
number_plain (x ∷ xs) f =
    elim (Bool-cases (is_digit x || (x == b'.' && not f && is_digit (get_or xs 0 0)))) [
      | inl q ↦ rw q (ground (arith, number_plain xs (f || not (is_digit x))))
      | inr q ↦ rw q refl
    ]

pub lex_number-Clean : (s : Place) (c : Cursor) → Clean c ((lex_number s c).1)
unfolding lex_number
lex_number-Clean s c =
    let (n, is_float) = number_length c.rest false in
    let d = advance_no_newline n c in
    let Kept = λ (r : Token × Cursor). Clean c (r.1) in
    let kept =
      advance_no_newline-Clean n c (number_length-le c.rest false) (number_plain c.rest false) in
    if_cases is_float Kept (λ _. kept)
      (λ _.
        if_cases (ltb (decimal_from 0 (take n c.rest)) (2 ^ 63)) Kept (λ _. kept)
          (λ _. fail-Clean _ c d))
