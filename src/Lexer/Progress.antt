-- ===== src/Lexer/Progress.antt =====
-- include/lexer.hpp: how much of the source each step takes.
use munchkinglang.Prelude.{
  ℕ, zero, suc, ◌-◌, ◌≤◌, ◌<◌, List, [], ◌∷◌, ◌++◌, Bool, true, false, not, ◌&&◌, ◌||◌, none, some,
  ◌≡◌, inl, inr, refl, arith, ◌==◌, if◌then◌else◌, length, take, get_or, length-drop, Option-cases,
  if_cases,
}
use munchkinglang.Lexer.Words.{Token}
use munchkinglang.Lexer.{
  Place, Complaint, Cursor, eof, peek, walk_char, advance_over, advance, advance_no_newline, fail,
  skip_line, skip_block, end_block, skip_rounds, is_digit, is_ident_start, is_ident_cont,
  ident_length, lex_ident, number_length, lex_number, lex_escape, chunk_length, string_rounds,
  complain_at_eof, lex_string, find_quote, lex_regex, char_value, lex_char,
}
use munchkinglang.Lexer.Signs.{fits-pos, taken_fits}
use munchkinglang.Lexer.Scan.{punctuation, lex_punctuation, next_token}

-- How many characters are left.
abbrev pub left : Cursor → ℕ
left c = length c.rest

left-advance_over :
    (n : ℕ) (rest : List ℕ) (c : Cursor) → left (advance_over n rest c) ≡ length rest - n
unfolding advance_over
left-advance_over zero rest c = omega arith
left-advance_over (suc n) [] c = omega arith
left-advance_over (suc n) (x ∷ rest) c =
    omega (arith, left-advance_over n rest (record c { place = walk_char x c.place }))

pub left-advance : (n : ℕ) (c : Cursor) → left (advance n c) ≡ left c - n
unfolding advance
left-advance n c = left-advance_over n c.rest c

pub left-advance_no_newline : (n : ℕ) (c : Cursor) → left (advance_no_newline n c) ≡ left c - n
unfolding advance_no_newline
left-advance_no_newline n c = length-drop n c.rest

pub left-fail : (k : Complaint) (c : Cursor) → left (fail k c) ≡ left c
unfolding fail
left-fail k c = refl

pub eof-left : (c : Cursor) → eof c ≡ false → 0 < left c
unfolding eof
eof-left c h = ground arith

pub skip_line-le : (xs : List ℕ) (c : Cursor) → left (skip_line xs c) ≤ left c
unfolding skip_line
skip_line-le [] c = omega arith
skip_line-le (x ∷ xs) c =
    ground (arith, skip_line-le xs (advance_no_newline 1 c), left-advance_no_newline 1 c)

pub skip_block-le : (xs : List ℕ) (c : Cursor) → left (skip_block xs c) ≤ left c
unfolding skip_block
skip_block-le [] c = omega arith
skip_block-le (x ∷ xs) c = ground (arith, skip_block-le xs (advance 1 c), left-advance 1 c)

pub end_block-le : (c : Cursor) → left (end_block c) ≤ left c
unfolding end_block
end_block-le c = ground (
  arith,
  left-advance_no_newline 2 c,
  left-advance_no_newline 2 (fail Complaint.unterminated_block_comment c),
)

pub skip_rounds-le : (n : ℕ) (c : Cursor) → left (skip_rounds n c) ≤ left c
unfolding skip_rounds
skip_rounds-le zero c = omega arith
skip_rounds-le (suc n) c =
    let d = advance_no_newline 2 c in
    ground (
      arith,
      skip_rounds-le n (advance 1 c),
      left-advance 1 c,
      left-advance_no_newline 2 c,
      skip_rounds-le n (skip_line d.rest d),
      skip_line-le d.rest d,
      skip_rounds-le n (end_block (skip_block d.rest d)),
      end_block-le (skip_block d.rest d),
      skip_block-le d.rest d,
    )

ident_length-pos : (xs : List ℕ) → is_ident_cont (get_or xs 0 0) ≡ true → 0 < ident_length xs
unfolding ident_length
ident_length-pos [] h = absurd (cc)
ident_length-pos (x ∷ xs) h = ground arith

lex_ident-lt :
    (s : Place) (c : Cursor)
    → eof c ≡ false
    → is_ident_start (peek c 0) ≡ true
    → left ((lex_ident s c).1) < left c
unfolding lex_ident is_ident_cont
lex_ident-lt s c e h = omega (
  arith,
  eof-left c e,
  left-advance_no_newline (ident_length c.rest) c,
  ident_length-pos c.rest (ground (arith, h)),
)

number_length-pos :
    (xs : List ℕ) (f : Bool) → is_digit (get_or xs 0 0) ≡ true → 0 < (number_length xs f).0
unfolding number_length
number_length-pos [] f h = absurd (cc)
number_length-pos (x ∷ xs) f h = ground arith

lex_number-lt :
    (s : Place) (c : Cursor)
    → eof c ≡ false
    → is_digit (peek c 0) ≡ true
    → left ((lex_number s c).1) < left c
unfolding lex_number
lex_number-lt s c e h =
    let n = (number_length c.rest false).0 in
    ground (
      arith,
      eof-left c e,
      left-advance_no_newline n c,
      number_length-pos c.rest false h,
      left-fail Complaint.integer_out_of_range (advance_no_newline n c),
    )

pub lex_escape-le : (c : Cursor) → left ((lex_escape c).1) ≤ left c
unfolding lex_escape
lex_escape-le c =
    let d = advance_no_newline 1 c in
    let e = if eof d then fail Complaint.unterminated_escape d else d in
    ground (
      arith,
      left-advance_no_newline 1 c,
      left-fail Complaint.unterminated_escape d,
      left-advance_no_newline 1 e,
      left-fail Complaint.unrecognized_escape e,
    )

pub lex_escape-lt : (c : Cursor) → 0 < left c → left ((lex_escape c).1) < left c
unfolding lex_escape
lex_escape-lt c h =
    let d = advance_no_newline 1 c in
    let e = if eof d then fail Complaint.unterminated_escape d else d in
    ground (
      arith,
      left-advance_no_newline 1 c,
      left-fail Complaint.unterminated_escape d,
      left-advance_no_newline 1 e,
      left-fail Complaint.unrecognized_escape e,
    )

string_rounds-le :
    (n : ℕ) (value : List ℕ) (c : Cursor) → left ((string_rounds n value c).1) ≤ left c
unfolding string_rounds
string_rounds-le zero value c = omega arith
string_rounds-le (suc n) value c =
    let (x, d) = lex_escape c in
    let k = chunk_length c.rest in
    ground (
      arith,
      string_rounds-le n (value ++ (x ∷ [])) d,
      lex_escape-le c,
      string_rounds-le n (value ++ take k c.rest) (advance k c),
      left-advance k c,
    )

lex_string-lt : (s : Place) (c : Cursor) → eof c ≡ false → left ((lex_string s c).1) < left c
unfolding lex_string
lex_string-lt s c e =
    let opened = advance_no_newline 1 c in
    let d = (string_rounds (suc (length opened.rest)) [] opened).1 in
    ground (
      arith,
      eof-left c e,
      left-advance_no_newline 1 c,
      string_rounds-le (suc (length opened.rest)) [] opened,
      left-fail Complaint.unterminated_string d,
      left-advance_no_newline 1 d,
      left-advance_no_newline 1 (fail Complaint.unterminated_string d),
    )

lex_regex-lt : (s : Place) (c : Cursor) → eof c ≡ false → left ((lex_regex s c).1) < left c
unfolding lex_regex
lex_regex-lt s c e =
    let d = advance_no_newline 2 c in
    let all = advance (length d.rest) d in
    elim (Option-cases (find_quote d.rest)) [
      | inl q ↦ ground (
        arith,
        eof-left c e,
        left-advance_no_newline 2 c,
        left-advance (length d.rest) d,
        left-fail Complaint.unterminated_regex all,
        left-advance_no_newline 1 (fail Complaint.unterminated_regex all),
      )
      | inr (n, q) ↦ ground (
        arith,
        eof-left c e,
        left-advance_no_newline 2 c,
        left-advance n d,
        left-advance_no_newline 1 (advance n d),
      )
    ]

char_value-le : (c : Cursor) → left ((char_value c).1) ≤ left c
unfolding char_value
char_value-le c = ground (arith, lex_escape-le c, left-advance 1 c)

lex_char-lt : (s : Place) (c : Cursor) → eof c ≡ false → left ((lex_char s c).1) < left c
unfolding lex_char
lex_char-lt s c e =
    let one = advance_no_newline 1 c in
    let opened = complain_at_eof Complaint.unterminated_character one in
    let d = (char_value opened).1 in
    let f = fail Complaint.not_one_character d in
    ground (
      arith,
      eof-left c e,
      left-advance_no_newline 1 c,
      left-fail Complaint.unterminated_character one,
      char_value-le opened,
      left-fail Complaint.not_one_character d,
      left-advance_no_newline 1 d,
      left-advance_no_newline 1 f,
    )

-- A character that no case of the lexer takes, with the two behind it.
unfoldable pub is_unexpected : ℕ → ℕ → ℕ → Bool
is_unexpected x y z =
    not ((x == b'r' && y == b'"') || is_ident_start x || is_digit x || x == b'"' || x == b'\'')
    && elim (punctuation x y z) [ none ↦ true | some _ ↦ false ]

taken-lt :
    (s : Place) (c : Cursor)
    → eof c ≡ false
    → (elim (punctuation (peek c 0) (peek c 1) (peek c 2)) [ none ↦ true | some _ ↦ false ]) ≡ false
    → left ((lex_punctuation s c).1) < left c
unfolding lex_punctuation
taken-lt s c e h = elim (Option-cases (punctuation (peek c 0) (peek c 1) (peek c 2))) [
  | inl q ↦ ground arith
  | inr ((n, t, v), q) ↦ ground (
    arith,
    eof-left c e,
    fits-pos (peek c 0) (peek c 1) (peek c 2) n
        (taken_fits (peek c 0) (peek c 1) (peek c 2) n t v q),
    left-advance_no_newline n c,
  )
]

pub next_token-lt :
    (s : Place) (c : Cursor)
    → eof c ≡ false
    → is_unexpected (peek c 0) (peek c 1) (peek c 2) ≡ false
    → left ((next_token s c).1) < left c
unfolding next_token is_unexpected
next_token-lt s c e h =
    let Shorter = λ (r : Token × Cursor). left (r.1) < left c in
    if_cases (peek c 0 == b'r' && peek c 1 == b'"') Shorter (λ _. lex_regex-lt s c e)
      (λ r.
        if_cases (is_ident_start (peek c 0)) Shorter (λ i. lex_ident-lt s c e i)
          (λ i.
            if_cases (is_digit (peek c 0)) Shorter (λ d. lex_number-lt s c e d)
              (λ d.
                if_cases (peek c 0 == b'"') Shorter (λ _. lex_string-lt s c e)
                  (λ q.
                    if_cases (peek c 0 == b'\'') Shorter (λ _. lex_char-lt s c e)
                      (λ a. taken-lt s c e (ground (arith, r, i, d, q, a, h)))))))
