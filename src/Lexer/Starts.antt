-- ===== src/Lexer/Starts.antt =====
-- include/lexer.hpp: a token's line and column are those where it is begun.
use munchkinglang.Prelude.{
  [], true, false, ◌&&◌, ◌≢◌, ltb, ◌^◌, ◌≡◌, inl, inr, refl, arith, ◌==◌, take, Option-cases,
  if_cases,
}
use munchkinglang.Lexer.Words.{Token}
use munchkinglang.Lexer.{
  Place, Cursor, make, peek, fail, is_digit, is_ident_start, lex_ident, lex_number, lex_string,
  number_length, decimal_from, find_quote, lex_regex, lex_char, advance_no_newline,
}
use munchkinglang.Lexer.Scan.{punctuation, lex_punctuation, next_token}
use munchkinglang.Lexer.Progress.{is_unexpected}

unfoldable pub StartsAt : Place → Token × Cursor → Type 0
StartsAt s (token, _) = (token.line ≡ s.line) × (token.column ≡ s.col)

lex_regex-StartsAt : (s : Place) (c : Cursor) → StartsAt s (lex_regex s c)
unfolding StartsAt lex_regex make
lex_regex-StartsAt s c = elim (Option-cases (find_quote ((advance_no_newline 2 c).rest))) [
  | inl q ↦ rw (q, lex_regex) (refl, refl)
  | inr (n, q) ↦ rw (q, lex_regex) (refl, refl)
]

lex_punctuation-StartsAt : (s : Place) (c : Cursor) → StartsAt s (lex_punctuation s c)
unfolding StartsAt lex_punctuation make
lex_punctuation-StartsAt s c = elim (Option-cases (punctuation (peek c 0) (peek c 1) (peek c 2))) [
  | inl q ↦ rw (q, lex_punctuation) (refl, refl)
  | inr (t, q) ↦ rw (q, lex_punctuation) (refl, refl)
]

lex_number-StartsAt : (s : Place) (c : Cursor) → StartsAt s (lex_number s c)
unfolding StartsAt lex_number make
lex_number-StartsAt s c =
    if_cases ((number_length c.rest false).1) (StartsAt s) (λ _. (refl, refl))
      (λ _.
        if_cases (ltb (decimal_from 0 (take ((number_length c.rest false).0) c.rest)) (2 ^ 63))
          (StartsAt s) (λ _. (refl, refl)) (λ _. (refl, refl)))

pub next_token-StartsAt : (s : Place) (c : Cursor) → StartsAt s (next_token s c)
unfolding next_token StartsAt lex_ident lex_string lex_char make
next_token-StartsAt s c =
    let P = StartsAt s in
    if_cases (peek c 0 == b'r' && peek c 1 == b'"') P (λ _. lex_regex-StartsAt s c)
      (λ _.
        if_cases (is_ident_start (peek c 0)) P (λ _. (refl, refl))
          (λ _.
            if_cases (is_digit (peek c 0)) P (λ _. lex_number-StartsAt s c)
              (λ _.
                if_cases (peek c 0 == b'"') P (λ _. (refl, refl))
                  (λ _.
                    if_cases (peek c 0 == b'\'') P (λ _. (refl, refl))
                      (λ _. lex_punctuation-StartsAt s c)))))

pub unexpected_faulty :
    (s : Place) (c : Cursor)
    → is_unexpected (peek c 0) (peek c 1) (peek c 2) ≡ true
    → ((next_token s c).1).faults ≢ []
unfolding next_token lex_punctuation is_unexpected fail
unexpected_faulty s c h = elim (Option-cases (punctuation (peek c 0) (peek c 1) (peek c 2))) [
  | inl q ↦ ground arith
  | inr (t, q) ↦ absurd (ground arith)
]
