-- ===== src/Lexer/Scan.antt =====
-- include/lexer.hpp: the choice of the next token, and the loop of `tokenize`.
use munchkinglang.Prelude.{
  ℕ, zero, suc, List, [], ◌∷◌, true, false, ◌&&◌, Option, none, some, ◌==◌, if◌then◌else◌,
}
use Prim.Native.String.{String}
use munchkinglang.Lexer.Words.{TokenType, Payload, Token, letter, text, ascii}
use munchkinglang.Lexer.{
  Place, Complaint, Cursor, eof, peek, advance_no_newline, fail, make, skip_trivia, is_digit,
  is_ident_start, lex_ident, lex_number, lex_string, lex_regex, lex_char,
}

-- What a case of the `switch` takes: so many characters, as a token of this type and payload.
abbrev pub Sign : Type 0
Sign = ℕ × TokenType × Payload

abbrev pub one : TokenType → ℕ → Option Sign
one type x = some (1, type, letter x)

abbrev pub sign : ℕ → TokenType → String → Option Sign
sign n type s = some (n, type, text (ascii s))

-- The cases for punctuation and operators, on the next three characters. `none` is the default.
unfoldable pub punctuation : ℕ → ℕ → ℕ → Option Sign
punctuation x y z =
    if x == b'('
    then one TokenType.lparen x
    else if x == b')'
    then one TokenType.rparen x
    else if x == b'{'
    then one TokenType.lbrace x
    else if x == b'}'
    then one TokenType.rbrace x
    else if x == b'['
    then one TokenType.lbracket x
    else if x == b']'
    then one TokenType.rbracket x
    else if x == b','
    then one TokenType.comma x
    else if x == b';'
    then one TokenType.semicolon x
    else if x == b'.'
    then one TokenType.dot x
    else if x == b':' && y == b':'
    then sign 2 TokenType.scope "::"
    else if x == b':' && y == b'=' && z == b'>'
    then sign 3 TokenType.channel_insert ":=>"
    else if x == b':'
    then one TokenType.colon x
    else if x == b'+' && y == b'='
    then sign 2 TokenType.add_assign "+="
    else if x == b'+'
    then one TokenType.plus x
    else if x == b'-' && y == b'>'
    then sign 2 TokenType.pipe_insert "->"
    else if x == b'-'
    then one TokenType.minus x
    else if x == b'*'
    then one TokenType.star x
    else if x == b'/'
    then one TokenType.slash x
    else if x == b'%'
    then one TokenType.percent x
    else if x == b'=' && y == b'='
    then sign 2 TokenType.eq "=="
    else if x == b'=' && y == b'>'
    then sign 2 TokenType.arrow "=>"
    else if x == b'='
    then sign 1 TokenType.assign "="
    else if x == b'!' && y == b'='
    then sign 2 TokenType.ne "!="
    else if x == b'!'
    then sign 1 TokenType.bang "!"
    else if x == b'<' && y == b'=' && z == b':'
    then sign 3 TokenType.channel_extract "<=:"
    else if x == b'<' && y == b'='
    then sign 2 TokenType.le "<="
    else if x == b'<' && y == b'-'
    then sign 2 TokenType.pipe_extract "<-"
    else if x == b'<'
    then sign 1 TokenType.lt "<"
    else if x == b'>' && y == b'='
    then sign 2 TokenType.ge ">="
    else if x == b'>'
    then sign 1 TokenType.gt ">"
    else if x == b'&' && y == b'&'
    then sign 2 TokenType.and_and "&&"
    else if x == b'&'
    then sign 1 TokenType.amp "&"
    else if x == b'|' && y == b'|'
    then sign 2 TokenType.or_or "||"
    else if x == b'|'
    then sign 1 TokenType.pipe "|"
    else if x == b'^'
    then sign 1 TokenType.caret "^"
    else if x == b'~'
    then sign 1 TokenType.tilde "~"
    else none

-- The default case reports the character and leaves it where it is.
unfoldable pub lex_punctuation : Place → Cursor → Token × Cursor
unfolding punctuation make advance_no_newline fail
lex_punctuation start c = elim (punctuation (peek c 0) (peek c 1) (peek c 2)) [
  | none ↦ (make start TokenType.end (text []), fail Complaint.unexpected_character c)
  | some (n, type, value) ↦ (make start type value, advance_no_newline n c)
]

unfoldable pub next_token : Place → Cursor → Token × Cursor
unfolding lex_regex is_ident_start lex_ident lex_number lex_string lex_char lex_punctuation
next_token start c =
    if peek c 0 == b'r' && peek c 1 == b'"'
    then lex_regex start c
    else if is_ident_start (peek c 0)
    then lex_ident start c
    else if is_digit (peek c 0)
    then lex_number start c
    else if peek c 0 == b'"'
    then lex_string start c
    else if peek c 0 == b'\''
    then lex_char start c
    else lex_punctuation start c

-- At most `n` rounds of the loop of `tokenize`; `none` where they do not do.
unfoldable pub token_rounds : ℕ → Cursor → Option (List Token × Cursor)
unfolding skip_trivia eof make next_token
token_rounds zero c = none
token_rounds (suc n) c =
    let d = skip_trivia c in
    elim (eof d) [
      | true ↦ some (make d.place TokenType.end (letter 0) ∷ [], d)
      | false ↦
          let (token, e) = next_token d.place d in
          elim (token_rounds n e) [ none ↦ none | some (tokens, f) ↦ some (token ∷ tokens, f) ]
    ]

abbrev pub begin : List ℕ → Cursor
begin source = record { rest = source; place = record { line = 1; col = 1 }; faults = [] }

-- `tokenize`, for as many rounds.
unfoldable pub tokenize : ℕ → List ℕ → Option (List Token × Cursor)
unfolding token_rounds
tokenize n source = token_rounds n (begin source)
