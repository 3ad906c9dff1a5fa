-- ===== src/Lexer/Spelled/Words.antt =====
-- include/lexer.hpp: words, numbers and signs are spelled as they are read.
use munchkinglang.Prelude.{
  ℕ, ◌<◌, ◌^◌, ◌≡◌, List, [], ◌∷◌, ◌++◌, Bool, true, false, not, ◌&&◌, ◌⊎◌, inl, inr, refl, ap,
  arith, ◌==◌, length, take, drop, get_or, ltb, Bool-cases, Option-cases, take-append-drop,
  length-take,
}
use munchkinglang.Lexer.{
  Place, Cursor, peek, make, fail, advance_no_newline, decimal_from, is_digit, is_ident_cont,
  is_ident_start, ident_length, lex_ident, number_length, lex_number,
}
use munchkinglang.Lexer.Scan.{punctuation, lex_punctuation}
use munchkinglang.Lexer.Kept.{solid_le}
use munchkinglang.Lexer.Quoted.{punctuation_solid}
use munchkinglang.Lexer.Signs.{taken_fits}
use munchkinglang.Lexer.Spelled.{
  all, ends_number, word, digits, decimals, table_sign, Spelled, take-Spelled,
}

pub all_more :
    (test : ℕ → Bool) (x : ℕ) (xs : List ℕ)
    → test x ≡ true
    → all test xs ≡ true
    → all test (x ∷ xs) ≡ true
unfolding all
all_more test x xs h a = rw h a

ident_all : (xs : List ℕ) → all is_ident_cont (take (ident_length xs) xs) ≡ true
unfolding ident_length all
ident_all [] = refl
ident_all (x ∷ xs) = elim (Bool-cases (is_ident_cont x)) [
  | inl q ↦ rw q (all_more is_ident_cont x (take (ident_length xs) xs) q (ident_all xs))
  | inr q ↦ rw q refl
]

ident_stops : (xs : List ℕ) → is_ident_cont (get_or (drop (ident_length xs) xs) 0 0) ≡ false
unfolding ident_length is_ident_cont is_ident_start
ident_stops [] = refl
ident_stops (x ∷ xs) = elim (Bool-cases (is_ident_cont x)) [
  | inl q ↦ rw q (ident_stops xs)
  | inr q ↦ rw q q
]

ident_starts :
    (xs : List ℕ)
    → is_ident_start (get_or xs 0 0) ≡ true
    → is_ident_start (get_or (take (ident_length xs) xs) 0 0) ≡ true
unfolding ident_length is_ident_cont
ident_starts [] h = h
ident_starts (x ∷ xs) h = rw h h

pub lex_ident-Spelled :
    (s : Place) (c : Cursor)
    → is_ident_start (peek c 0) ≡ true
    → Spelled c.rest ((lex_ident s c).0) (((lex_ident s c).1).rest)
unfolding lex_ident make advance_no_newline
lex_ident-Spelled s c h =
    take-Spelled (ident_length c.rest) c.rest _
      (word (ident_starts c.rest h) (ident_all c.rest) (ident_stops c.rest) refl refl)

-- Behind the point there are digits alone.
number_more :
    (xs : List ℕ)
    → ((number_length xs true).1 ≡ true)
      × (all is_digit (take ((number_length xs true).0) xs) ≡ true)
      × (is_digit (get_or (drop ((number_length xs true).0) xs) 0 0) ≡ false)
unfolding number_length all
number_more [] = (refl, refl, refl)
number_more (x ∷ xs) = elim (Bool-cases (is_digit x)) [
  | inl q ↦
      let (f, a, e) = number_more xs in
      (rw q f, rw q (all_more is_digit x (take ((number_length xs true).0) xs) q a), rw q e)
  | inr q ↦
      let p : (x == b'.' && not true && is_digit (get_or xs 0 0)) ≡ false = ground arith in
      (rw (q, p) refl, rw (q, p) refl, rw (q, p) q)
]

number_more-pos :
    (xs : List ℕ)
    → is_digit (get_or xs 0 0) ≡ true
    → 0 < length (take ((number_length xs true).0) xs)
unfolding number_length
number_more-pos [] h = absurd (cc)
number_more-pos (x ∷ xs) h = rw h (omega arith)

abbrev Whole : List ℕ → ℕ × Bool → Type 0
Whole xs (n, f) = (f ≡ false) × (all is_digit (take n xs) ≡ true) × (ends_number (drop n xs) ≡ true)

abbrev Decimal : List ℕ → ℕ × Bool → Type 0
Decimal xs (n, f) =
    (f ≡ true)
    × ((whole : List ℕ) × ((part : List ℕ) × (take n xs ≡ whole ++ (b'.' ∷ part))
          × (all is_digit whole ≡ true)
          × (all is_digit part ≡ true)
          × (0 < length part)
          × (is_digit (get_or (drop n xs) 0 0) ≡ false)))

number_parts :
    (xs : List ℕ) → Whole xs (number_length xs false) ⊎ Decimal xs (number_length xs false)
unfolding number_length all ends_number
number_parts [] = inl (refl, refl, refl)
number_parts (x ∷ xs) =
    let P = λ (r : ℕ × Bool). Whole (x ∷ xs) r ⊎ Decimal (x ∷ xs) r in
    elim (Bool-cases (is_digit x)) [
      | inl q ↦ elim (number_parts xs) [
        | inl (f, a, e) ↦
            inl (
              rw q f,
              rw q (all_more is_digit x (take ((number_length xs false).0) xs) q a),
              rw q e,
            )
        | inr (f, (whole, (part, t, a, b, l, e))) ↦ inr (
          rw q f,
          (x ∷ whole, (part, rw (q, t) refl, all_more is_digit x whole q a, b, l, rw q e)),
        )
      ]
      | inr q ↦ elim (Bool-cases (x == b'.' && not false && is_digit (get_or xs 0 0))) [
        | inr r ↦
            let no_point : (x == b'.' && is_digit (get_or xs 0 0)) ≡ false = ground (arith, r) in
            inl (rw (q, r) refl, rw (q, r) refl, rw (q, r) (rw (q, no_point) refl))
        | inl r ↦
            let (f, a, e) = number_more xs in
            let point : x ≡ b'.' = ground (arith, r) in
            let follows : is_digit (get_or xs 0 0) ≡ true = ground (arith, r) in
            inr (
              rw (q, r) f,
              (
                [],
                (
                  take ((number_length xs true).0) xs,
                  rw (q, r) (ap (λ y. y ∷ take ((number_length xs true).0) xs) point),
                  refl,
                  a,
                  number_more-pos xs follows,
                  rw (q, r) e,
                ),
              ),
            )
      ]
    ]

number_starts :
    (xs : List ℕ) (f : Bool)
    → is_digit (get_or xs 0 0) ≡ true
    → is_digit (get_or (take ((number_length xs f).0) xs) 0 0) ≡ true
unfolding number_length
number_starts [] f h = h
number_starts (x ∷ xs) f h = rw h h

pub lex_number-Spelled :
    (s : Place) (c : Cursor)
    → is_digit (peek c 0) ≡ true
    → ((lex_number s c).1).faults ≡ []
    → Spelled c.rest ((lex_number s c).0) (((lex_number s c).1).rest)
unfolding lex_number make advance_no_newline fail
lex_number-Spelled s c h q =
    let starts = number_starts c.rest false h in
    elim (number_parts c.rest) [
      | inr (f, (whole, (part, t, a, b, l, e))) ↦
          rw (f, lex_number)
            (take-Spelled ((number_length c.rest false).0) c.rest _
              (decimals whole part starts t a b l e refl refl))
      | inl (f, a, e) ↦
          elim (Bool-cases
            (ltb (decimal_from 0 (take ((number_length c.rest false).0) c.rest)) (2 ^ 63))) [
              | inl k ↦
                  rw (f, k, lex_number)
                    (take-Spelled ((number_length c.rest false).0) c.rest _
                      (digits starts a e (ground (arith, k)) refl refl))
              | inr k ↦ let faulty = rw (f, k, lex_number) at q in absurd (cc)
            ]
    ]

pub lex_punctuation-Spelled :
    (s : Place) (c : Cursor)
    → ((lex_punctuation s c).1).faults ≡ []
    → Spelled c.rest ((lex_punctuation s c).0) (((lex_punctuation s c).1).rest)
unfolding lex_punctuation make advance_no_newline fail
lex_punctuation-Spelled s c f = elim (Option-cases (punctuation (peek c 0) (peek c 1) (peek c 2))) [
  | inl q ↦ absurd (ground (arith))
  | inr ((n, t, v), q) ↦
      let fit = taken_fits (peek c 0) (peek c 1) (peek c 2) n t v q in
      let enough = solid_le n c.rest (punctuation_solid n c.rest fit) in
      let long : length (take n c.rest) ≡ n = omega (arith, length-take n c.rest, enough) in
      rw (q, lex_punctuation)
        (take-Spelled n c.rest _ (table_sign (rw (take-append-drop n c.rest, long) q)))
]
