-- ===== src/Lexer/Spelled.antt =====
-- include/lexer.hpp: how each token is spelled, said of the text alone.
pub mod Words
pub mod Literals
pub mod Tokens
use mathlib.Core.Path.{subst}
use mathlib.Core.List.{append_assoc}
use munchkinglang.Prelude.{
  ℕ, zero, suc, ◌<◌, ◌^◌, ◌≡◌, List, [], ◌∷◌, ◌++◌, Bool, true, false, not, ◌&&◌, ◌||◌, Option,
  none, some, ◌⊎◌, inl, inr, refl, sym, ap, ◌∙◌, arith, ◌==◌, length, take, drop, get_or, ltb,
  Bool-cases, Option-cases, if_cases, elim_cases, take-append-drop,
}
use munchkinglang.Lexer.Words.{TokenType, Token, integer, float, text}
use munchkinglang.Lexer.{
  decimal_from, escape_of, ident_type, is_digit, is_ident_cont, is_ident_start,
}
use munchkinglang.Lexer.Scan.{punctuation}

unfoldable pub all : (ℕ → Bool) → List ℕ → Bool
all test [] = true
all test (x ∷ xs) = test x && all test xs

-- The text between two quotes, and what it stands for.
pub data Decodes : List ℕ → List ℕ → Type 0 where
  done : Decodes [] []
  plain :
      (x : ℕ) (body value : List ℕ)
      → (x == b'"' || x == b'\\') ≡ false
      → Decodes body value
      → Decodes (x ∷ body) (x ∷ value)
  escape_pair :
      (x y : ℕ) (body value : List ℕ)
      → escape_of x ≡ some y
      → Decodes body value
      → Decodes (b'\\' ∷ x ∷ body) (y ∷ value)

-- What one character between apostrophes stands for.
pub data OneChar : List ℕ → ℕ → Type 0 where
  plain : (x : ℕ) → (x == b'\\') ≡ false → OneChar (x ∷ []) x
  escape_pair : (x y : ℕ) → escape_of x ≡ some y → OneChar (b'\\' ∷ x ∷ []) y

-- No digit follows, nor a point with a digit.
unfoldable pub ends_number : List ℕ → Bool
ends_number after =
    not (is_digit (get_or after 0 0))
    && not (get_or after 0 0 == b'.' && is_digit (get_or after 1 0))

-- A token is spelled by a text, where `after` follows: as long a word, or as long a number, as can be
-- read, a literal with its quotes, or a sign of the table.
pub data Spells (lexeme after : List ℕ) (token : Token) : Type 0 where
  word :
      is_ident_start (get_or lexeme 0 0) ≡ true
      → all is_ident_cont lexeme ≡ true
      → is_ident_cont (get_or after 0 0) ≡ false
      → token.type ≡ ident_type lexeme
      → token.value ≡ text lexeme
      → Spells lexeme after token
  digits :
      is_digit (get_or lexeme 0 0) ≡ true
      → all is_digit lexeme ≡ true
      → ends_number after ≡ true
      → decimal_from 0 lexeme < 2 ^ 63
      → token.type ≡ TokenType.int_literal
      → token.value ≡ integer (decimal_from 0 lexeme)
      → Spells lexeme after token
  decimals :
      (whole part : List ℕ)
      → is_digit (get_or lexeme 0 0) ≡ true
      → lexeme ≡ whole ++ (b'.' ∷ part)
      → all is_digit whole ≡ true
      → all is_digit part ≡ true
      → 0 < length part
      → is_digit (get_or after 0 0) ≡ false
      → token.type ≡ TokenType.float_literal
      → token.value ≡ float lexeme
      → Spells lexeme after token
  quoted :
      (body value : List ℕ)
      → lexeme ≡ b'"' ∷ (body ++ (b'"' ∷ []))
      → Decodes body value
      → token.type ≡ TokenType.string_literal
      → token.value ≡ text value
      → Spells lexeme after token
  regex :
      (body : List ℕ)
      → lexeme ≡ b'r' ∷ b'"' ∷ (body ++ (b'"' ∷ []))
      → all (λ x. not (x == b'"')) body ≡ true
      → token.type ≡ TokenType.regex_literal
      → token.value ≡ text body
      → Spells lexeme after token
  character :
      (body : List ℕ) (x : ℕ)
      → lexeme ≡ b'\'' ∷ (body ++ (b'\'' ∷ []))
      → OneChar body x
      → token.type ≡ TokenType.char_literal
      → token.value ≡ text (x ∷ [])
      → Spells lexeme after token
  table_sign :
      punctuation
          (get_or (lexeme ++ after) 0 0)
          (get_or (lexeme ++ after) 1 0)
          (get_or (lexeme ++ after) 2 0)
        ≡ some (length lexeme, token.type, token.value)
      → Spells lexeme after token

-- What of a text one token takes, where `after` is left.
unfoldable pub Spelled : List ℕ → Token → List ℕ → Type 0
Spelled rest token after = (lexeme : List ℕ) × (rest ≡ lexeme ++ after) × Spells lexeme after token

pub take-Spelled :
    (n : ℕ) (rest : List ℕ) (token : Token)
    → Spells (take n rest) (drop n rest) token
    → Spelled rest token (drop n rest)
unfolding Spelled
take-Spelled n rest token s = (take n rest, sym (take-append-drop n rest), s)
