-- ===== src/Lexer/Words.antt =====
-- include/token.hpp and include/keywords.hpp: tokens, and the words with a meaning of their own.
use Prim.Native.String.{String}
use Prim.Native.Char.{code}
use mathlib.Core.Bool.{◌||◌}
use munchkinglang.Prelude.{ℕ, List, [], ◌∷◌, Bool, false}
use munchkinglang.Mir.Runtime.{same_bytes}

pub data TokenType : Type 0 where
  symbol keyword : TokenType
  int_literal float_literal string_literal char_literal bool_literal null_literal : TokenType
  regex_literal : TokenType
  lparen rparen lbrace rbrace lbracket rbracket comma colon semicolon dot scope : TokenType
  assign add_assign eq ne lt gt le ge plus minus star slash percent bang amp pipe caret : TokenType
  tilde and_and or_or arrow pipe_insert pipe_extract channel_insert channel_extract : TokenType
  end : TokenType

-- `value_variant`. A float is the text that `std::stold` is given.
pub data Payload : Type 0 where
  letter : ℕ → Payload
  integer : ℕ → Payload
  float : List ℕ → Payload
  text : List ℕ → Payload

pub record Token : Type 0 where
  pub line : ℕ
  pub column : ℕ
  pub type : TokenType
  pub value : Payload

-- The bytes of a text in ASCII.
abbrev pub ascii : String → List ℕ
ascii String.[] = []
ascii (String.◌∷◌ c s) = code c ∷ ascii s

-- Membership in a set of words.
unfoldable pub names_word : List String → List ℕ → Bool
names_word [] word = false
names_word (w ∷ ws) word = same_bytes word (ascii w) || names_word ws word

abbrev pub keywords : List String
keywords =
    "package" ∷ "load_package" ∷ "load_packages" ∷ "func" ∷ "lambda" ∷ "return" ∷ "if" ∷ "else"
    ∷ "loop" ∷ "break" ∷ "match" ∷ "case" ∷ "enum" ∷ "object" ∷ "trait" ∷ "constraint" ∷ "tuple"
    ∷ "alloc" ∷ "delete" ∷ "free" ∷ "lock" ∷ "acquire" ∷ "release" ∷ "join" ∷ "monitor" ∷ "trap"
    ∷ "cast" ∷ "simd" ∷ "fail" ∷ "map" ∷ "get" ∷ "insert" ∷ "env" ∷ "channel" ∷ "reflexpr"
    ∷ "members" ∷ "function_members" ∷ "meta_params" ∷ "params" ∷ "reflect_for" ∷ "construct"
    ∷ "typeid" ∷ "default" ∷ "of" ∷ "this_package" ∷ "likely" ∷ "unlikely" ∷ []

unfoldable pub is_keyword : List ℕ → Bool
is_keyword = names_word keywords

unfoldable pub is_type_name : List ℕ → Bool
is_type_name = names_word (
    "int" ∷ "float" ∷ "bool" ∷ "string" ∷ "character" ∷ "void" ∷ "socket" ∷ "file" ∷ "term"
    ∷ "exception" ∷ [])
