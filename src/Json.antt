-- ===== src/Json.antt =====
-- include/json.hpp: the state of the JSON parser, its single steps, and strings. Text is bytes.

pub mod Escape
pub mod RoundTrip
pub mod Number
pub mod Value
pub mod Moves
pub mod Scalars
pub mod Ends
pub mod Deeper
pub mod Whole
pub mod Kinds
mod Tests
use munchkinglang.Prelude.{
  ℕ, zero, suc, ◌+◌, ◌-◌, ◌*◌, ◌/◌, ◌%◌, List, [], ◌∷◌, ◌++◌, Bool, true, false, not, ◌&&◌, ◌||◌,
  Option, none, some, ltb, leb, ◌==◌, if◌then◌else◌, length,
}

pub data Message : Type 0 where
  unexpected_trailing_input unexpected_end_of_input invalid_value : Message
  expected : ℕ → Message
  expected_null expected_true_or_false : Message
  invalid_unicode_escape invalid_escape_sequence : Message
  unescaped_control_character unterminated_string : Message
  invalid_number invalid_fractional_number invalid_exponent object_keys_must_be_strings : Message

-- `rest` is the text from `pos_` on. `failure` is none while `ok_`, then the message and its offset.
pub record Parser : Type 0 where
  pub rest : List ℕ
  pub offset : ℕ
  pub failure : Option (Message × ℕ)

abbrev pub ok : Parser → Bool
ok p = elim p.failure [ none ↦ true | some _ ↦ false ]

-- Only the first failure is kept.
unfoldable pub fail : Message → Parser → Parser
fail message p = if ok p then record p { failure = some (message, p.offset) } else p

abbrev pub is_empty : List ℕ → Bool
is_empty [] = true
is_empty (x ∷ xs) = false

abbrev pub at_end : Parser → Bool
at_end p = is_empty p.rest

abbrev pub first : List ℕ → ℕ
first [] = 0
first (x ∷ xs) = x

abbrev pub peek : Parser → ℕ
peek p = first p.rest

-- `++pos_`
abbrev pub step_from : List ℕ → Parser → Parser
step_from [] p = record p { offset = p.offset + 1 }
step_from (x ∷ xs) p = record p { rest = xs; offset = p.offset + 1 }

abbrev pub step : Parser → Parser
step p = step_from p.rest p

unfoldable pub get : Parser → ℕ × Parser
unfolding fail
get p = if at_end p then (0, fail Message.unexpected_end_of_input p) else (peek p, step p)

abbrev pub is_ws : ℕ → Bool
is_ws x = x == b' ' || x == b'\t' || x == b'\n' || x == b'\r'

-- The loop of `skip_ws` over what is left.
unfoldable pub skip_over : List ℕ → Parser → Parser
skip_over [] p = p
skip_over (x ∷ xs) p = elim (is_ws x) [
  | true ↦ skip_over xs (record p { rest = xs; offset = p.offset + 1 })
  | false ↦ p
]

unfoldable pub skip_ws : Parser → Parser
unfolding skip_over
skip_ws p = skip_over p.rest p

-- The code asks for no NUL, so that a match is a character of the text.
unfoldable pub match : ℕ → Parser → Bool × Parser
match x p = if peek p == x then (true, step p) else (false, p)

unfoldable pub expect : ℕ → Parser → Parser
unfolding match fail
expect x p = let (found, q) = match x p in if found then q else fail (Message.expected x) q

unfoldable pub hex_digit : ℕ → Option ℕ
hex_digit x =
    if leb b'0' x && leb x b'9'
    then some (x - b'0')
    else if leb b'a' x && leb x b'f'
    then some (x - b'a' + 10)
    else if leb b'A' x && leb x b'F'
    then some (x - b'A' + 10)
    else none

-- `n` rounds of the loop of a `\u` escape; `none` where it returns.
unfoldable pub hex_digits : ℕ → ℕ → Parser → Option ℕ × Parser
unfolding get fail hex_digit
hex_digits zero code p = (some code, p)
hex_digits (suc n) code p =
    let (h, q) = get p in
    elim (ok q) [
      | false ↦ (none, q)
      | true ↦ elim (hex_digit h) [
        | none ↦ (none, fail Message.invalid_unicode_escape q)
        | some d ↦ hex_digits n (code * 16 + d) q
      ]
    ]

-- One to three bytes of UTF-8.
unfoldable pub utf8 : ℕ → List ℕ
utf8 code =
    if leb code 0x7f
    then code ∷ []
    else if leb code 0x7ff
    then (0xc0 + code / 64 % 32) ∷ (0x80 + code % 64) ∷ []
    else (0xe0 + code / 4096 % 16) ∷ (0x80 + code / 64 % 64) ∷ (0x80 + code % 64) ∷ []

unfoldable pub simple_escape : ℕ → Option ℕ
simple_escape x =
    if x == b'"' || x == b'\\' || x == b'/'
    then some x
    else if x == b'b'
    then some 8
    else if x == b'f'
    then some 12
    else if x == b'n'
    then some b'\n'
    else if x == b'r'
    then some b'\r'
    else if x == b't'
    then some b'\t'
    else none

unfoldable pub unicode_bytes : Option ℕ × Parser → Option (List ℕ) × Parser
unfolding utf8
unicode_bytes (none, p) = (none, p)
unicode_bytes (some code, p) = (some (utf8 code), p)

-- What stands behind a `\`: the bytes it adds, or none where `parse_string` returns.
unfoldable pub escape : Parser → Option (List ℕ) × Parser
unfolding get simple_escape hex_digits unicode_bytes fail
escape p =
    let (x, q) = get p in
    elim (ok q) [
      | false ↦ (none, q)
      | true ↦ elim (simple_escape x) [
        | some y ↦ (some (y ∷ []), q)
        | none ↦ elim (x == b'u') [
          | false ↦ (none, fail Message.invalid_escape_sequence q)
          | true ↦ unicode_bytes (hex_digits 4 0 q)
        ]
      ]
    ]

-- At most `n` rounds of the loop of `parse_string`, with `out` read so far.
unfoldable pub string_rounds : ℕ → List ℕ → Parser → List ℕ × Parser
unfolding get escape fail
string_rounds zero out p = (out, p)
string_rounds (suc n) out p = elim (ok p && not (at_end p)) [
  | false ↦ (out, fail Message.unterminated_string p)
  | true ↦
      let (x, q) = get p in
      elim (x == b'"') [
        | true ↦ (out, q)
        | false ↦ elim (x == b'\\') [
          | true ↦
              let (bytes, r) = escape q in
              elim bytes [ none ↦ (out, r) | some more ↦ string_rounds n (out ++ more) r ]
          | false ↦ elim (ltb x 0x20) [
            | true ↦ (out, fail Message.unescaped_control_character q)
            | false ↦ string_rounds n (out ++ (x ∷ [])) q
          ]
        ]
      ]
]

-- Each round takes a character, and the last sees the end.
unfoldable pub parse_string : Parser → List ℕ × Parser
unfolding expect string_rounds
parse_string p = let q = expect b'"' p in string_rounds (suc (length q.rest)) [] q
