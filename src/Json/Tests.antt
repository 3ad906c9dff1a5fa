-- ===== src/Json/Tests.antt =====
-- include/json.hpp: runs of the parser, and the theorems at concrete texts.
use munchkinglang.Prelude.{
  ◌*◌, ℕ, ◌+◌, ◌≤◌, List, [], ◌∷◌, ◌++◌, true, false, Option, none, some, ◌≡◌, ◌⊎◌, refl, arith,
  length,
}
use munchkinglang.Prelude.Int.{pos, negsuc}
use munchkinglang.Lexer.Words.{ascii}
use munchkinglang.Json.{Parser, Message, ok, parse_string}
use munchkinglang.Json.Number.{
  Value, null, int, array, object, nil, cons, empty, entry, Entries, float,
}
use munchkinglang.Json.Value.{parse, parse_value}
use munchkinglang.Json.Kinds.{Checked, Doubles, require_kind, value_kind_name}
use munchkinglang.Json.Kinds.Fields.{require_kind-value_kind_name}
use munchkinglang.Json.Moves.{error_offset}
use munchkinglang.Json.Escape.{quote}
use munchkinglang.Json.RoundTrip.{clean, parse_string-quote}
use munchkinglang.Json.Whole.{parse_ends, parse-IsWhole}

-- A platform on which no text is a float.
abbrev no_floats : List ℕ → Option ℕ
no_floats text = none

abbrev sample : List ℕ
sample = ascii "[1, {\"a\": -2}]"

abbrev sample_value : Value
sample_value =
    array (cons (int (pos 1)) (cons (object (entry (ascii "a") (int (negsuc 1)) empty)) nil))

sample_run : parse no_floats 29 sample ≡ some (sample_value, clean [] 14)
unfolding parse parse_value
sample_run = refl

-- Behind the comma a value is missing.
refused_run :
    parse no_floats 10 (ascii "[1,]")
    ≡ some
        (null, record { rest = ascii "]"; offset = 3; failure = some (Message.invalid_value, 3) })
unfolding parse parse_value
refused_run = refl

parse_ends_example :
    (r : Value × Parser) × (parse no_floats (2 * length sample + 1) sample ≡ some r)
    × (parse no_floats 40 sample ≡ some r)
parse_ends_example = parse_ends no_floats sample 40 (omega arith)

parse-IsWhole_example :
    ((ok (clean [] 14) ≡ true) × (14 ≡ length sample))
    ⊎ ((ok (clean [] 14) ≡ false)
        × (sample_value ≡ null)
        × (error_offset (clean [] 14) ≤ length sample))
parse-IsWhole_example = parse-IsWhole no_floats sample 29 sample_value (clean [] 14) sample_run

abbrev control_text : List ℕ
control_text = b'"' ∷ 1 ∷ b'z' ∷ b'\n' ∷ []

parse_string-quote_example :
    parse_string (clean (quote control_text ++ ascii ", 7") 5)
    ≡ (control_text, clean (ascii ", 7") (5 + length (quote control_text)))
parse_string-quote_example = parse_string-quote control_text (ascii ", 7") 5

abbrev two_fields : Entries
two_fields = entry (ascii "a") null (entry (ascii "b") (int (pos 2)) empty)

-- A platform on which the only double is 4.
abbrev four : Doubles
four = record { whole_of = λ bits. some (pos 4); nearest = λ z. 0 }

converted_run :
    require_kind four (float 0) (ascii "int") (ascii "f") ≡ Checked.accepted (int (pos 4))
unfolding require_kind
converted_run = refl

require_kind-value_kind_name_example : value_kind_name (int (pos 4)) ≡ ascii "int"
require_kind-value_kind_name_example =
    require_kind-value_kind_name four (float 0) (int (pos 4)) (ascii "int") (ascii "f")
      converted_run
