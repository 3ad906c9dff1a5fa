-- ===== src/Lexer/Quoted.antt =====
-- include/lexer.hpp: literals in quotes, punctuation, and with them every token, keep the place or
-- report an error.
use munchkinglang.Prelude.{
  ℕ, zero, suc, ◌<◌, List, [], ◌∷◌, true, false, not, ◌&&◌, ◌||◌, none, some, ◌≡◌, inl, inr, refl,
  ap, ◌∙◌, arith, ◌==◌, length, drop, get_or, Option-cases, if_cases, elim_cases,
}
use munchkinglang.Lexer.Words.{Token}
use munchkinglang.Lexer.{
  Place, Complaint, Cursor, eof, peek, advance, advance_no_newline, fail, is_digit, is_ident_start,
  escape_of, lex_escape, chunk_length, string_rounds, complain_at_eof, lex_string, find_quote,
  lex_regex, char_value, lex_char,
}
use munchkinglang.Lexer.Scan.{punctuation, lex_punctuation, next_token}
use munchkinglang.Lexer.Places.{Clean, Clean-refl, Clean-trans, advance-Clean, advance-rest}
use munchkinglang.Lexer.Progress.{left, eof-left, left-advance, lex_escape-lt}
use munchkinglang.Lexer.Signs.{taken_fits, fits, solid}
use munchkinglang.Lexer.Kept.{
  solid_from, solid-Clean, first-Clean, fail-Clean, fail_past-Clean, lex_ident-Clean,
  lex_number-Clean,
}

one_solid :
    (x : ℕ) (c : Cursor) → (peek c 0 == x) ≡ true → solid x ≡ true → solid_from 1 0 c.rest ≡ true
unfolding solid_from solid
one_solid x c h k = ground arith

escape_plain : (x v : ℕ) → escape_of x ≡ some v → (x == b'\n') ≡ false
unfolding escape_of
escape_plain x v h = ground arith

pub past_end : (rest : List ℕ) → (length rest == 0) ≡ true → escape_of (get_or rest 0 0) ≡ none
unfolding escape_of
past_end [] e = refl
past_end (x ∷ xs) e = absurd (ground arith)

two_solid :
    (x y : ℕ) (c : Cursor)
    → (peek c 0 == x && peek c 1 == y) ≡ true
    → solid x ≡ true
    → solid y ≡ true
    → solid_from 2 0 c.rest ≡ true
unfolding solid_from solid
two_solid x y c h k l = ground arith

pub lex_escape-Clean : (c : Cursor) → (peek c 0 == b'\\') ≡ true → Clean c ((lex_escape c).1)
unfolding lex_escape solid
lex_escape-Clean c h =
    let d = advance_no_newline 1 c in
    let opened = solid-Clean 1 c (one_solid b'\\' c h refl) in
    let P = λ (e : Cursor). Clean c (
      (elim (escape_of (peek e 0)) as (λ _. ℕ × Cursor) [
        | none ↦ (0, fail Complaint.unrecognized_escape e)
        | some value ↦ (value, advance_no_newline 1 e)
      ]).1) in
    if_cases (eof d) P
      (λ q.
        rw (past_end d.rest (unfold eof in q))
          (fail-Clean _ c (fail Complaint.unterminated_escape d)))
      (λ q. elim (Option-cases (escape_of (peek d 0))) [
        | inl r ↦ rw r (fail-Clean _ c d)
        | inr (v, r) ↦
            rw r (Clean-trans opened (first-Clean d (eof-left d q) (escape_plain (peek d 0) v r)))
      ])

chunk_length-pos :
    (xs : List ℕ)
    → 0 < length xs
    → (get_or xs 0 0 == b'"') ≡ false
    → (get_or xs 0 0 == b'\\') ≡ false
    → 0 < chunk_length xs
unfolding chunk_length
chunk_length-pos [] h q b = absurd (omega arith)
chunk_length-pos (x ∷ xs) h q b = ground arith

-- The loop of `lex_string` stops at the end of the source or at a quote.
pub string_rounds_stops :
    (n : ℕ) (value : List ℕ) (c : Cursor)
    → left c < n
    → (eof ((string_rounds n value c).1) || peek ((string_rounds n value c).1) 0 == b'"') ≡ true
unfolding string_rounds
string_rounds_stops zero value c h = absurd (omega arith)
string_rounds_stops (suc n) value c h =
    let Stops = λ (r : List ℕ × Cursor). (eof (r.1) || peek (r.1) 0 == b'"') ≡ true in
    let k = chunk_length c.rest in
    elim_cases (eof c || peek c 0 == b'"') Stops (λ e. e)
      (λ e.
        let some_left = eof-left c (ground (arith, e)) in
        elim_cases (peek c 0 == b'\\') Stops
          (λ b.
            string_rounds_stops n _ ((lex_escape c).1) (omega (arith, lex_escape-lt c some_left)))
          (λ b. string_rounds_stops n _ (advance k c) (
            omega
              (arith, left-advance k c, chunk_length-pos c.rest some_left (ground (arith, e)) b))))

pub string_rounds-Clean :
    (n : ℕ) (value : List ℕ) (c : Cursor) → Clean c ((string_rounds n value c).1)
unfolding string_rounds
string_rounds-Clean zero value c = Clean-refl c
string_rounds-Clean (suc n) value c =
    let Kept = λ (r : List ℕ × Cursor). Clean c (r.1) in
    let k = chunk_length c.rest in
    elim_cases (eof c || peek c 0 == b'"') Kept (λ e. Clean-refl c)
      (λ e.
        elim_cases (peek c 0 == b'\\') Kept
          (λ b. Clean-trans (lex_escape-Clean c b) (string_rounds-Clean n _ ((lex_escape c).1)))
          (λ b. Clean-trans (advance-Clean k c) (string_rounds-Clean n _ (advance k c))))

closed-Clean :
    (k : Complaint) (c d : Cursor)
    → Clean c d
    → (eof d || peek d 0 == b'"') ≡ true
    → Clean c (advance_no_newline 1 (complain_at_eof k d))
unfolding solid
closed-Clean k c d kept stops =
    if_cases (eof d) (λ e. Clean c (advance_no_newline 1 e)) (λ _. fail_past-Clean 1 k c d)
      (λ e. Clean-trans kept (solid-Clean 1 d (one_solid b'"' d (ground (arith, stops, e)) refl)))

lex_string-Clean :
    (s : Place) (c : Cursor) → (peek c 0 == b'"') ≡ true → Clean c ((lex_string s c).1)
unfolding lex_string solid
lex_string-Clean s c h =
    let opened = advance_no_newline 1 c in
    let n = suc (length opened.rest) in
    let start = solid-Clean 1 c (one_solid b'"' c h refl) in
    closed-Clean Complaint.unterminated_string c _
      (Clean-trans start (string_rounds-Clean n [] opened))
      (string_rounds_stops n [] opened (omega arith))

pub find_quote-drop :
    (xs : List ℕ) (n : ℕ) → find_quote xs ≡ some n → (get_or (drop n xs) 0 0 == b'"') ≡ true
unfolding find_quote
find_quote-drop [] n q = absurd (cc)
find_quote-drop (x ∷ xs) zero q = elim (Option-cases (find_quote xs)) [
  | inl r ↦ ground arith
  | inr (m, r) ↦ ground arith
]
find_quote-drop (x ∷ xs) (suc n) q =
    find_quote-drop xs n
      (elim (Option-cases (find_quote xs)) [ inl r ↦ ground arith | inr (m, r) ↦ ground arith ])

lex_regex-Clean :
    (s : Place) (c : Cursor)
    → (peek c 0 == b'r' && peek c 1 == b'"') ≡ true
    → Clean c ((lex_regex s c).1)
unfolding lex_regex solid
lex_regex-Clean s c h =
    let d = advance_no_newline 2 c in
    let start = solid-Clean 2 c (two_solid b'r' b'"' c h refl refl) in
    elim (Option-cases (find_quote d.rest)) [
      | inl q ↦ rw (q, lex_regex) (fail_past-Clean 1 _ c (advance (length d.rest) d))
      | inr (n, q) ↦
          rw (q, lex_regex)
            (Clean-trans start (
              Clean-trans (advance-Clean n d) (
                solid-Clean 1 (advance n d) (
                  one_solid b'"' (advance n d)
                    (ap (λ r. get_or r 0 0 == b'"') (advance-rest n d) ∙ find_quote-drop d.rest n q)
                    refl))))
    ]

pub char_value-Clean : (c : Cursor) → Clean c ((char_value c).1)
unfolding char_value
char_value-Clean c =
    if_cases (peek c 0 == b'\\') (λ (r : ℕ × Cursor). Clean c (r.1)) (λ b. lex_escape-Clean c b)
      (λ _. advance-Clean 1 c)

lex_char-Clean : (s : Place) (c : Cursor) → (peek c 0 == b'\'') ≡ true → Clean c ((lex_char s c).1)
unfolding lex_char solid
lex_char-Clean s c h =
    let one = advance_no_newline 1 c in
    let opened = complain_at_eof Complaint.unterminated_character one in
    let d = (char_value opened).1 in
    let start =
      if_cases (eof one) (Clean c) (λ _. fail-Clean Complaint.unterminated_character c one)
        (λ _. solid-Clean 1 c (one_solid b'\'' c h refl)) in
    if_cases (eof d || not (peek d 0 == b'\'')) (λ e. Clean c (advance_no_newline 1 e))
      (λ _. fail_past-Clean 1 _ c d)
      (λ e. Clean-trans start (
        Clean-trans (char_value-Clean opened)
          (solid-Clean 1 d (one_solid b'\'' d (ground (arith, e)) refl))))

pub punctuation_solid :
    (n : ℕ) (rest : List ℕ)
    → fits (get_or rest 0 0) (get_or rest 1 0) (get_or rest 2 0) n ≡ true
    → solid_from n 0 rest ≡ true
unfolding solid_from fits
punctuation_solid zero rest h = refl
punctuation_solid (suc zero) rest h = ground (arith, h)
punctuation_solid (suc (suc zero)) rest h = ground (arith, h)
punctuation_solid (suc (suc (suc zero))) rest h = ground (arith, h)
punctuation_solid (suc (suc (suc (suc n)))) rest h = absurd (ground (arith, h))

lex_punctuation-Clean : (s : Place) (c : Cursor) → Clean c ((lex_punctuation s c).1)
unfolding lex_punctuation
lex_punctuation-Clean s c = elim (Option-cases (punctuation (peek c 0) (peek c 1) (peek c 2))) [
  | inl q ↦ rw (q, lex_punctuation) (fail-Clean _ c c)
  | inr ((n, t, v), q) ↦
      rw (q, lex_punctuation)
        (solid-Clean n c
          (punctuation_solid n c.rest (taken_fits (peek c 0) (peek c 1) (peek c 2) n t v q)))
]

pub next_token-Clean : (s : Place) (c : Cursor) → Clean c ((next_token s c).1)
unfolding next_token
next_token-Clean s c =
    let Kept = λ (r : Token × Cursor). Clean c (r.1) in
    if_cases (peek c 0 == b'r' && peek c 1 == b'"') Kept (lex_regex-Clean s c) (λ _.
      if_cases (is_ident_start (peek c 0)) Kept (λ _. lex_ident-Clean s c)
        (λ _.
          if_cases (is_digit (peek c 0)) Kept (λ _. lex_number-Clean s c)
            (λ _. if_cases (peek c 0 == b'"') Kept (lex_string-Clean s c) (λ _.
              if_cases (peek c 0 == b'\'') Kept (lex_char-Clean s c)
                (λ _. lex_punctuation-Clean s c)))))
