-- ===== src/Lexer.antt =====
-- include/lexer.hpp: source text to tokens. Characters are bytes.
pub mod Words
pub mod Scan
pub mod Signs
pub mod Progress
pub mod Ends
pub mod Places
pub mod Kept
pub mod Gaps
pub mod Spelled
pub mod Quoted
pub mod Starts
pub mod Placed
mod Tests
use munchkinglang.Prelude.{
  ℕ, zero, suc, ◌+◌, ◌-◌, ◌*◌, ◌^◌, List, [], ◌∷◌, ◌++◌, Bool, true, false, not, ◌&&◌, ◌||◌, Option,
  none, some, ltb, leb, ◌==◌, if◌then◌else◌, length, take, drop, get_or,
}
use munchkinglang.Mir.Runtime.{same_bytes}
use munchkinglang.Lexer.Words.{
  TokenType, Payload, Token, letter, integer, float, text, ascii, is_keyword,
}

-- 1-based line and column.
pub record Place : Type 0 where
  pub line : ℕ
  pub col : ℕ

pub data Complaint : Type 0 where
  unterminated_block_comment unexpected_character integer_out_of_range : Complaint
  unterminated_escape unrecognized_escape unterminated_string unterminated_regex : Complaint
  unterminated_character not_one_character : Complaint

-- A call of `fail`, which records an error for the compilation and returns.
pub record Fault : Type 0 where
  pub place : Place
  pub complaint : Complaint

-- The lexer between two calls: `rest` is the source from `pos_` on, and is empty where `pos_` is past
-- the end. `faults` holds the errors reported, the latest first.
pub record Cursor : Type 0 where
  pub rest : List ℕ
  pub place : Place
  pub faults : List Fault

unfoldable pub eof : Cursor → Bool
eof c = length c.rest == 0

abbrev pub peek : Cursor → ℕ → ℕ
peek c off = get_or c.rest off 0

unfoldable pub walk_char : ℕ → Place → Place
walk_char x p =
    if x == b'\n'
    then record { line = p.line + 1; col = 1 }
    else record { line = p.line; col = p.col + 1 }

-- The loop of `advance` over at most `n` characters of `rest`.
unfoldable pub advance_over : ℕ → List ℕ → Cursor → Cursor
advance_over zero rest c = record c { rest = rest }
advance_over (suc n) [] c = record c { rest = [] }
advance_over (suc n) (x ∷ rest) c = advance_over n rest (record c { place = walk_char x c.place })

unfoldable pub advance : ℕ → Cursor → Cursor
unfolding advance_over
advance n c = advance_over n c.rest c

unfoldable pub advance_no_newline : ℕ → Cursor → Cursor
advance_no_newline n c = record c {
  rest = drop n c.rest;
  place = record { line = c.place.line; col = c.place.col + n };
}

unfoldable pub fail : Complaint → Cursor → Cursor
fail complaint c = record c {
  faults = record { place = c.place; complaint = complaint } ∷ c.faults;
}

-- `make`, at the place where the token began.
unfoldable pub make : Place → TokenType → Payload → Token
make start type value = record { line = start.line; column = start.col; type = type; value = value }

abbrev pub is_blank : ℕ → Bool
is_blank x = x == b' ' || x == b'\t' || x == b'\r' || x == b'\n'

-- The rest of a `//` comment, up to its newline.
unfoldable pub skip_line : List ℕ → Cursor → Cursor
unfolding advance_no_newline
skip_line [] c = c
skip_line (x ∷ xs) c = elim (x == b'\n') [
  | true ↦ c
  | false ↦ skip_line xs (advance_no_newline 1 c)
]

-- The loop of a block comment, up to its end or that of the source.
unfoldable pub skip_block : List ℕ → Cursor → Cursor
unfolding advance
skip_block [] c = c
skip_block (x ∷ xs) c = elim (x == b'*' && get_or xs 0 0 == b'/') [
  | true ↦ c
  | false ↦ skip_block xs (advance 1 c)
]

unfoldable pub end_block : Cursor → Cursor
unfolding advance_no_newline eof fail
end_block c =
    advance_no_newline 2 (if eof c then fail Complaint.unterminated_block_comment c else c)

-- At most `n` rounds of the loop of `skip_trivia`.
unfoldable pub skip_rounds : ℕ → Cursor → Cursor
unfolding advance advance_no_newline skip_line skip_block end_block eof
skip_rounds zero c = c
skip_rounds (suc n) c = elim (eof c) [
  | true ↦ c
  | false ↦ elim (is_blank (peek c 0)) [
    | true ↦ skip_rounds n (advance 1 c)
    | false ↦ elim (peek c 0 == b'/' && peek c 1 == b'/') [
      | true ↦ let d = advance_no_newline 2 c in skip_rounds n (skip_line d.rest d)
      | false ↦ elim (peek c 0 == b'/' && peek c 1 == b'*') [
        | true ↦ let d = advance_no_newline 2 c in skip_rounds n (end_block (skip_block d.rest d))
        | false ↦ c
      ]
    ]
  ]
]

-- Each round takes a character.
unfoldable pub skip_trivia : Cursor → Cursor
skip_trivia c = skip_rounds (length c.rest) c

abbrev pub in_range : ℕ → ℕ → ℕ → Bool
in_range low high x = leb low x && leb x high

abbrev pub is_digit : ℕ → Bool
is_digit = in_range b'0' b'9'

unfoldable pub is_ident_start : ℕ → Bool
is_ident_start x = x == b'_' || in_range b'a' b'z' x || in_range b'A' b'Z' x

unfoldable pub is_ident_cont : ℕ → Bool
unfolding is_ident_start
is_ident_cont x = is_ident_start x || is_digit x

-- The characters of `rest`, from the start on, that continue an identifier.
unfoldable pub ident_length : List ℕ → ℕ
unfolding is_ident_cont
ident_length [] = 0
ident_length (x ∷ xs) = let more = ident_length xs in if is_ident_cont x then suc more else 0

unfoldable pub ident_type : List ℕ → TokenType
unfolding is_keyword same_bytes
ident_type word =
    if same_bytes word (ascii "true") || same_bytes word (ascii "false")
    then TokenType.bool_literal
    else if same_bytes word (ascii "null")
    then TokenType.null_literal
    else if is_keyword word
    then TokenType.keyword
    else TokenType.symbol

unfoldable pub lex_ident : Place → Cursor → Token × Cursor
unfolding make ident_type ident_length advance_no_newline
lex_ident start c =
    let n = ident_length c.rest in
    let word = take n c.rest in (make start (ident_type word) (text word), advance_no_newline n c)

-- The loop of `lex_number`: how many characters it takes, and whether a point is among them.
unfoldable pub number_length : List ℕ → Bool → ℕ × Bool
number_length [] is_float = (0, is_float)
number_length (x ∷ xs) is_float =
    let point = x == b'.' && not is_float && is_digit (get_or xs 0 0) in
    let more = number_length xs (is_float || not (is_digit x)) in
    if is_digit x || point then (suc (more.0), more.1) else (0, is_float)

-- The number that decimal digits stand for.
abbrev pub decimal_from : ℕ → List ℕ → ℕ
decimal_from n [] = n
decimal_from n (x ∷ xs) = decimal_from (n * 10 + (x - b'0')) xs

-- A value that does not fit stays 0, and is reported where the token ends.
unfoldable pub lex_number : Place → Cursor → Token × Cursor
unfolding make number_length advance_no_newline fail
lex_number start c =
    let (n, is_float) = number_length c.rest false in
    let digits = take n c.rest in
    let d = advance_no_newline n c in
    let value = decimal_from 0 digits in
    if is_float
    then (make start TokenType.float_literal (float digits), d)
    else if ltb value (2 ^ 63)
    then (make start TokenType.int_literal (integer value), d)
    else (make start TokenType.int_literal (integer 0), fail Complaint.integer_out_of_range d)

-- The characters that stand behind a `\`, and what each means.
unfoldable pub escape_of : ℕ → Option ℕ
escape_of x =
    if x == b'n'
    then some b'\n'
    else if x == b'r'
    then some b'\r'
    else if x == b't'
    then some b'\t'
    else if x == b'a'
    then some 7
    else if x == b'\\' || x == b'"' || x == b'\''
    then some x
    else none

-- `fail` returns: what is no escape is reported, and stands for 0.
unfoldable pub lex_escape : Cursor → ℕ × Cursor
unfolding advance_no_newline eof fail escape_of
lex_escape c =
    let d = advance_no_newline 1 c in
    let e = if eof d then fail Complaint.unterminated_escape d else d in
    elim (escape_of (peek e 0)) [
      | none ↦ (0, fail Complaint.unrecognized_escape e)
      | some value ↦ (value, advance_no_newline 1 e)
    ]

-- How many characters there are before the next quote or `\`.
unfoldable pub chunk_length : List ℕ → ℕ
chunk_length [] = 0
chunk_length (x ∷ xs) =
    let more = chunk_length xs in if x == b'"' || x == b'\\' then 0 else suc more

-- At most `n` rounds of the loop of `lex_string`: the text that is decoded.
unfoldable pub string_rounds : ℕ → List ℕ → Cursor → List ℕ × Cursor
unfolding eof lex_escape chunk_length advance
string_rounds zero value c = (value, c)
string_rounds (suc n) value c = elim (eof c || peek c 0 == b'"') [
  | true ↦ (value, c)
  | false ↦ elim (peek c 0 == b'\\') [
    | true ↦ let (x, d) = lex_escape c in string_rounds n (value ++ (x ∷ [])) d
    | false ↦ let k = chunk_length c.rest in string_rounds n (value ++ take k c.rest) (advance k c)
  ]
]

abbrev pub complain_at_eof : Complaint → Cursor → Cursor
complain_at_eof complaint c = if eof c then fail complaint c else c

unfoldable pub lex_string : Place → Cursor → Token × Cursor
unfolding make advance_no_newline string_rounds eof fail
lex_string start c =
    let opened = advance_no_newline 1 c in
    let (value, d) = string_rounds (suc (length opened.rest)) [] opened in
    (
      make start TokenType.string_literal (text value),
      advance_no_newline 1 (complain_at_eof Complaint.unterminated_string d),
    )

-- `source_.find('"', body_start)`, from the start of the body.
unfoldable pub find_quote : List ℕ → Option ℕ
find_quote [] = none
find_quote (x ∷ xs) =
    let more = find_quote xs in
    if x == b'"' then some 0 else elim more [ none ↦ none | some n ↦ some (suc n) ]

-- Where there is no quote, the body is the rest of the source, which is then passed.
unfoldable pub lex_regex : Place → Cursor → Token × Cursor
unfolding make advance advance_no_newline find_quote fail
lex_regex start c =
    let d = advance_no_newline 2 c in
    elim (find_quote d.rest) [
      | none ↦ (
        make start TokenType.regex_literal (text d.rest),
        advance_no_newline 1 (fail Complaint.unterminated_regex (advance (length d.rest) d)),
      )
      | some n ↦ (
        make start TokenType.regex_literal (text (take n d.rest)),
        advance_no_newline 1 (advance n d),
      )
    ]

unfoldable pub char_value : Cursor → ℕ × Cursor
unfolding lex_escape advance
char_value c = if peek c 0 == b'\\' then lex_escape c else (peek c 0, advance 1 c)

unfoldable pub lex_char : Place → Cursor → Token × Cursor
unfolding make advance_no_newline eof fail char_value
lex_char start c =
    let opened = complain_at_eof Complaint.unterminated_character (advance_no_newline 1 c) in
    let (value, d) = char_value opened in
    (
      make start TokenType.char_literal (text (value ∷ [])),
      advance_no_newline 1
          (if eof d || not (peek d 0 == b'\'') then fail Complaint.not_one_character d else d),
    )
