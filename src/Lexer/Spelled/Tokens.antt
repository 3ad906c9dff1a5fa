-- ===== src/Lexer/Spelled/Tokens.antt =====
-- include/lexer.hpp: regular expressions and characters, and with them every token, are spelled as
-- they are read.
use mathlib.Core.List.{append_assoc}
use munchkinglang.Prelude.{
  ℕ, zero, suc, ◌≡◌, List, [], ◌∷◌, ◌++◌, true, false, not, ◌&&◌, ◌||◌, some, inl, inr, refl, sym,
  ap, ◌∙◌, arith, ◌==◌, length, take, drop, get_or, Option-cases, if_cases, take-append-drop,
  if◌then◌else◌,
}
use munchkinglang.Lexer.Words.{Token}
use munchkinglang.Lexer.{
  Place, Complaint, Cursor, eof, peek, make, fail, advance, advance_no_newline, is_digit,
  is_ident_start, complain_at_eof, find_quote, lex_regex, char_value, lex_char,
}
use munchkinglang.Lexer.Scan.{next_token}
use munchkinglang.Lexer.Places.{advance-rest}
use munchkinglang.Lexer.Gaps.{two_of}
use munchkinglang.Lexer.Quoted.{find_quote-drop, char_value-Clean}
use munchkinglang.Lexer.Spelled.{all, OneChar, regex, character, Spelled}
use munchkinglang.Lexer.Spelled.Words.{
  all_more, lex_ident-Spelled, lex_number-Spelled, lex_punctuation-Spelled,
}
use munchkinglang.Lexer.Spelled.Literals.{one_of, Escape, lex_escape-Escape, lex_string-Spelled}

quote_free :
    (xs : List ℕ) (n : ℕ) → find_quote xs ≡ some n → all (λ x. not (x == b'"')) (take n xs) ≡ true
unfolding find_quote all
quote_free xs zero q = refl
quote_free [] (suc n) q = refl
quote_free (x ∷ xs) (suc n) q = elim (Option-cases (find_quote xs)) [
  | inl r ↦ absurd (ground arith)
  | inr (m, r) ↦
      let more = quote_free xs n (ground arith) in
      all_more (λ x. not (x == b'"')) x (take n xs) (ground arith) more
]

lex_regex-Spelled :
    (s : Place) (c : Cursor)
    → (peek c 0 == b'r' && peek c 1 == b'"') ≡ true
    → ((lex_regex s c).1).faults ≡ []
    → Spelled c.rest ((lex_regex s c).0) (((lex_regex s c).1).rest)
unfolding lex_regex Spelled make fail advance_no_newline
lex_regex-Spelled s c h f =
    let d = advance_no_newline 2 c in
    elim (Option-cases (find_quote d.rest)) [
      | inl q ↦ let faulty = rw (q, lex_regex) at f in absurd (cc)
      | inr (n, q) ↦
          let left = (advance n d).rest in
          let body = take n d.rest in
          let close : drop n d.rest ≡ b'"' ∷ drop 1 left =
            one_of b'"' (drop n d.rest) refl (find_quote-drop d.rest n q)
            ∙ ap (λ r. b'"' ∷ drop 1 r) (sym (advance-rest n d)) in
          rw (q, lex_regex)
            (
              b'r' ∷ b'"' ∷ (body ++ (b'"' ∷ [])),
              two_of b'r' b'"' c.rest refl refl h
                  ∙ ap (λ r. b'r' ∷ b'"' ∷ r)
                      (sym (take-append-drop n d.rest)
                        ∙ ap (λ r. body ++ r) close
                        ∙ sym (append_assoc body (b'"' ∷ []) (drop 1 left))),
              regex body refl (quote_free d.rest n q) refl refl,
            )
    ]

-- A character that is read between apostrophes.
Read : List ℕ → ℕ × Cursor → Type 0
Read rest (v, d) = d.faults ≡ [] → (body : List ℕ) × (rest ≡ body ++ d.rest) × OneChar body v

first_of : (rest : List ℕ) → (length rest == 0) ≡ false → rest ≡ get_or rest 0 0 ∷ drop 1 rest
first_of [] h = absurd (ground arith)
first_of (x ∷ rest) h = refl

char_value-Read : (c : Cursor) → eof c ≡ false → Read c.rest (char_value c)
unfolding char_value Read Escape
char_value-Read c e =
    if_cases (peek c 0 == b'\\') (Read c.rest)
      (λ b f.
        let (x, split, esc) = lex_escape-Escape c b f in
        (b'\\' ∷ x ∷ [], split, OneChar.escape_pair x _ esc))
      (λ b f. (
        peek c 0 ∷ [],
        first_of c.rest (unfold eof in e) ∙ ap (λ r. peek c 0 ∷ r) (sym (advance-rest 1 c)),
        OneChar.plain (peek c 0) b,
      ))

abbrev char_end : Cursor → Cursor
char_end d =
    advance_no_newline 1
      (if eof d || not (peek d 0 == b'\'') then fail Complaint.not_one_character d else d)

char_closed :
    (d : Cursor) → (char_end d).faults ≡ [] → (d.faults ≡ []) × (d.rest ≡ b'\'' ∷ (char_end d).rest)
unfolding fail advance_no_newline
char_closed d =
    if_cases (eof d || not (peek d 0 == b'\''))
      (λ (e : Cursor).
        (advance_no_newline 1 e).faults ≡ []
        → (d.faults ≡ []) × (d.rest ≡ b'\'' ∷ (advance_no_newline 1 e).rest))
      (λ q f. absurd (cc)) (λ q f. (f, one_of b'\'' d.rest refl (ground (arith, q))))

-- The opening apostrophe is not the last character, or there is an error.
abbrev char_open : Cursor → Cursor
char_open c = complain_at_eof Complaint.unterminated_character (advance_no_newline 1 c)

char_opened : (c : Cursor) → (char_open c).faults ≡ [] → eof (advance_no_newline 1 c) ≡ false
unfolding fail
char_opened c =
    if_cases (eof (advance_no_newline 1 c))
      (λ (e : Cursor). e.faults ≡ [] → eof (advance_no_newline 1 c) ≡ false) (λ q f. absurd (cc))
      (λ q f. q)

char_open_same :
    (c : Cursor) → eof (advance_no_newline 1 c) ≡ false → char_open c ≡ advance_no_newline 1 c
char_open_same c q = rw q refl

lex_char-Spelled :
    (s : Place) (c : Cursor)
    → (peek c 0 == b'\'') ≡ true
    → ((lex_char s c).1).faults ≡ []
    → Spelled c.rest ((lex_char s c).0) (((lex_char s c).1).rest)
unfolding lex_char Spelled Read make advance_no_newline
lex_char-Spelled s c h f =
    let d = (char_value (char_open c)).1 in
    let (q, close) = char_closed d f in
    let (r, _) = (char_value-Clean (char_open c)).taken q in
    let there = char_opened c r in
    let same = char_open_same c there in
    let (body, split, one) = char_value-Read (char_open c) (ap eof same ∙ there) q in
    (
      b'\'' ∷ (body ++ (b'\'' ∷ [])),
      one_of b'\'' c.rest refl h
          ∙ ap (λ r. b'\'' ∷ r)
              (sym (ap (λ (e : Cursor). e.rest) same)
                ∙ split
                ∙ ap (λ r. body ++ r) close
                ∙ sym (append_assoc body (b'\'' ∷ []) ((char_end d).rest))),
      character body _ refl one refl refl,
    )

-- Where a token is read without an error, what is taken of the source spells it.
pub next_token-Spelled :
    (s : Place) (c : Cursor)
    → ((next_token s c).1).faults ≡ []
    → Spelled c.rest ((next_token s c).0) (((next_token s c).1).rest)
unfolding next_token
next_token-Spelled s c =
    let P = λ (r : Token × Cursor). (r.1).faults ≡ [] → Spelled c.rest (r.0) ((r.1).rest) in
    if_cases (peek c 0 == b'r' && peek c 1 == b'"') P (lex_regex-Spelled s c) (λ _.
      if_cases (is_ident_start (peek c 0)) P (λ h _. lex_ident-Spelled s c h)
        (λ _. if_cases (is_digit (peek c 0)) P (lex_number-Spelled s c) (λ _.
          if_cases (peek c 0 == b'"') P (lex_string-Spelled s c) (λ _.
            if_cases (peek c 0 == b'\'') P (lex_char-Spelled s c)
              (λ _. lex_punctuation-Spelled s c)))))
