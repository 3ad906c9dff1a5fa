-- ===== src/Json/Number.antt =====
-- include/json.hpp: values, and the parsing of numbers. `std::strtod` is a parameter: the bits of the
-- number that a text stands for, or none where it is out of range or not finite.
use munchkinglang.Prelude.{
  ℕ, ◌+◌, ◌-◌, ◌*◌, ◌^◌, List, [], ◌∷◌, Bool, true, false, ◌&&◌, ◌||◌, Option, none, some, ltb, leb,
  ◌==◌, if◌then◌else◌, take,
}
use munchkinglang.Prelude.Int.{ℤ, pos, negsuc}
use munchkinglang.Json.{Parser, Message, ok, fail, peek, step, match}

-- `value`, as far as JSON has it. `value{}` is null.
mutual
  pub data Value : Type 0 where
    null : Value
    bool : Bool → Value
    int : ℤ → Value
    float : ℕ → Value
    string : List ℕ → Value
    array : Values → Value
    object : Entries → Value

  pub data Values : Type 0 where
    nil : Values
    cons : Value → Values → Values

  pub data Entries : Type 0 where
    empty : Entries
    entry : List ℕ → Value → Entries → Entries

abbrev pub is_digit : ℕ → Bool
is_digit x = leb b'0' x && leb x b'9'

-- The loop over digits, on what is left.
unfoldable pub digits_over : List ℕ → Parser → Parser
digits_over [] p = p
digits_over (x ∷ xs) p = elim (is_digit x) [
  | true ↦ digits_over xs (record p { rest = xs; offset = p.offset + 1 })
  | false ↦ p
]

unfoldable pub skip_digits : Parser → Parser
unfolding digits_over
skip_digits p = digits_over p.rest p

unfoldable pub digits_or : Message → Parser → Parser
unfolding fail skip_digits
digits_or message p = if is_digit (peek p) then skip_digits p else fail message p

unfoldable pub whole : Parser → Parser
unfolding fail skip_digits match
whole start =
    let p = (match b'-' start).1 in
    if peek p == b'0'
    then step p
    else if leb b'1' (peek p) && leb (peek p) b'9'
    then skip_digits p
    else fail Message.invalid_number p

unfoldable pub fraction : Parser → Bool × Parser
unfolding match digits_or
fraction p =
    let (found, q) = match b'.' p in
    if found then (true, digits_or Message.invalid_fractional_number q) else (false, q)

unfoldable pub exponent : Parser → Bool × Parser
unfolding digits_or
exponent p =
    let q = step p in
    let r = if peek q == b'+' || peek q == b'-' then step q else q in
    if peek p == b'e' || peek p == b'E'
    then (true, digits_or Message.invalid_exponent r)
    else (false, p)

unfoldable pub decimal_from : ℕ → List ℕ → ℕ
decimal_from n [] = n
decimal_from n (x ∷ xs) = decimal_from (n * 10 + (x - b'0')) xs

-- `std::strtoll` on digits with or without a sign; none is ERANGE.
unfoldable pub strtoll : List ℕ → Option ℤ
unfolding decimal_from
strtoll [] = some (pos 0)
strtoll (x ∷ xs) =
    let negated = decimal_from 0 xs in
    let plain = decimal_from 0 (x ∷ xs) in
    if x == b'-'
    then if negated == 0
      then some (pos 0)
      else if leb negated (2 ^ 63)
      then some (negsuc (negated - 1))
      else none
    else if ltb plain (2 ^ 63)
    then some (pos plain)
    else none

module _ (strtod : List ℕ → Option ℕ) where
  unfoldable pub float_value : List ℕ → Parser → Value × Parser
  unfolding fail
  float_value token p = elim (strtod token) [
    | none ↦ (null, fail Message.invalid_number p)
    | some bits ↦ (float bits, p)
  ]

  -- An integer that is out of range is read as a float.
  unfoldable pub number_value : Bool → List ℕ → Parser → Value × Parser
  unfolding strtoll float_value
  number_value is_float token p =
      if is_float
      then float_value token p
      else elim (strtoll token) [ none ↦ float_value token p | some n ↦ (int n, p) ]

  -- It is called where nothing has failed, so that a failure is an early return.
  unfoldable pub parse_number : Parser → Value × Parser
  unfolding whole fraction exponent number_value
  parse_number p =
      let a = whole p in
      let (has_point, b) = fraction a in
      let (has_power, c) = exponent b in
      elim (ok a) [
        | false ↦ (null, a)
        | true ↦ elim (ok b) [
          | false ↦ (null, b)
          | true ↦ elim (ok c) [
            | false ↦ (null, c)
            | true ↦ number_value (has_point || has_power) (take (c.offset - p.offset) p.rest) c
          ]
        ]
      ]
