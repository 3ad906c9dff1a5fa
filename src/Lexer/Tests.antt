-- ===== src/Lexer/Tests.antt =====
-- include/lexer.hpp: runs of the lexer, and the theorems at concrete sources.
use munchkinglang.Prelude.{ℕ, ◌<◌, List, [], ◌∷◌, none, some, ◌≡◌, ◌⊎◌, refl, length}
use munchkinglang.Lexer.Words.{TokenType, Token, names_word, letter, integer, text, ascii}
use munchkinglang.Lexer.{
  Cursor, eof, walk_char, skip_rounds, skip_trivia, is_ident_start, is_ident_cont, ident_length,
  lex_ident,
}
use munchkinglang.Lexer.Scan.{begin, next_token, punctuation, tokenize}
use munchkinglang.Lexer.Progress.{is_unexpected}
use munchkinglang.Lexer.Ends.{Reaches, Meets, tokenize_decided, tokenize_unexpected}
use munchkinglang.Lexer.Placed.{Placed, tokenize-Placed}

abbrev assignment : List ℕ
assignment = ascii "a := 5; // five\n b"

abbrev assignment_tokens : List Token
assignment_tokens =
    record { line = 1; column = 1; type = TokenType.symbol; value = text (ascii "a") }
    ∷ record { line = 1; column = 3; type = TokenType.colon; value = letter b':' }
    ∷ record { line = 1; column = 4; type = TokenType.assign; value = text (ascii "=") }
    ∷ record { line = 1; column = 6; type = TokenType.int_literal; value = integer 5 }
    ∷ record { line = 1; column = 7; type = TokenType.semicolon; value = letter b';' }
    ∷ record { line = 2; column = 2; type = TokenType.symbol; value = text (ascii "b") }
    ∷ record { line = 2; column = 3; type = TokenType.end; value = letter 0 }
    ∷ []

abbrev assignment_end : Cursor
assignment_end = record { rest = []; place = record { line = 2; col = 3 }; faults = [] }

assignment_run : tokenize 18 assignment ≡ some (assignment_tokens, assignment_end)
unfolding tokenize skip_rounds names_word walk_char
assignment_run = refl

tokenize-Placed_example : Placed [] assignment assignment_tokens
tokenize-Placed_example =
    tokenize-Placed 18 assignment assignment_tokens assignment_end assignment_run refl

tokenize_decided_example :
    ((r : List Token × Cursor) × ((n : ℕ) → length assignment < n → tokenize n assignment ≡ some r))
    ⊎ ((d : Cursor) × Reaches (begin assignment) d × Meets d)
tokenize_decided_example = tokenize_decided assignment

-- Behind a name and a blank, a character that no token starts with.
abbrev stray : List ℕ
stray = ascii "a @b"

abbrev behind_name : Cursor
behind_name = record { rest = ascii " @b"; place = record { line = 1; col = 2 }; faults = [] }

behind_name_reached : Reaches (begin stray) behind_name
unfolding skip_trivia skip_rounds next_token lex_ident eof is_ident_cont names_word ident_length
behind_name_reached = Reaches.round (begin stray) Reaches.here refl

behind_name-Meets : Meets behind_name
unfolding skip_trivia skip_rounds is_unexpected is_ident_start punctuation eof walk_char
behind_name-Meets = record { goes_on = refl; unexpected = refl }

tokenize_unexpected_example : tokenize 100 stray ≡ none
tokenize_unexpected_example =
    tokenize_unexpected stray behind_name behind_name_reached behind_name-Meets 100
