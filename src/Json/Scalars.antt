-- ===== src/Json/Scalars.antt =====
-- include/json.hpp: how the parsing of numbers, words, keys and brackets moves through the text.
use munchkinglang.Prelude.{
  ℕ, ◌+◌, ◌-◌, ◌≤◌, ◌<◌, List, [], ◌∷◌, Bool, true, ◌&&◌, ◌||◌, Option, ◌≡◌, refl, arith, leb, ◌==◌,
  length, take, length-drop, if_cases, elim_cases, option_cases,
}
use munchkinglang.Mir.Runtime.{same_bytes}
use munchkinglang.Lexer.Words.{ascii}
use munchkinglang.Json.{Parser, Message, ok, peek, step, skip_ws, match, expect, parse_string}
use munchkinglang.Json.Number.{
  Value, digits_over, skip_digits, digits_or, whole, fraction, exponent, strtoll, float_value,
  number_value, parse_number, is_digit,
}
use munchkinglang.Json.Value.{
  has_word, take_word, parse_null, parse_bool, parse_key, parse_close, parse_open, parse_scalar,
}
use munchkinglang.Json.Moves.{
  Moves, Moves-refl, Moves-trans, fail-Moves, one_more, step-Moves, peeked, skip_ws-Moves,
  match-Moves, expect-Moves, parse_string-Moves,
}

digits_over-Moves : (xs : List ℕ) (p : Parser) → p.rest ≡ xs → Moves p (digits_over xs p)
unfolding digits_over
digits_over-Moves [] p q = Moves-refl p
digits_over-Moves (x ∷ xs) p q =
    elim_cases (is_digit x) (Moves p)
      (λ _.
        let next : Parser = record p { rest = xs; offset = p.offset + 1 } in
        Moves-trans (one_more x xs p q) (digits_over-Moves xs next refl))
      (λ _. Moves-refl p)

skip_digits-Moves : (p : Parser) → Moves p (skip_digits p)
unfolding skip_digits
skip_digits-Moves p = digits_over-Moves p.rest p refl

digits_or-Moves : (m : Message) (p : Parser) → Moves p (digits_or m p)
unfolding digits_or
digits_or-Moves m p =
    if_cases (is_digit (peek p)) (Moves p) (λ _. skip_digits-Moves p) (λ _. fail-Moves m p)

whole-Moves : (p : Parser) → Moves p (whole p)
unfolding whole
whole-Moves p =
    let q = (match b'-' p).1 in
    let signed = match-Moves b'-' p (omega arith) in
    if_cases (peek q == b'0') (Moves p)
      (λ h. Moves-trans signed (step-Moves q (peeked q.rest (ground (arith, h)))))
      (λ _.
        if_cases (leb b'1' (peek q) && leb (peek q) b'9') (Moves p)
          (λ _. Moves-trans signed (skip_digits-Moves q))
          (λ _. Moves-trans signed (fail-Moves _ q)))

fraction-Moves : (p : Parser) → Moves p ((fraction p).1)
unfolding fraction
fraction-Moves p =
    let pointed = match-Moves b'.' p (omega arith) in
    let q = (match b'.' p).1 in
    if_cases ((match b'.' p).0) (λ (r : Bool × Parser). Moves p (r.1))
      (λ _. Moves-trans pointed (digits_or-Moves _ q)) (λ _. pointed)

exponent-Moves : (p : Parser) → Moves p ((exponent p).1)
unfolding exponent
exponent-Moves p =
    let q = step p in
    if_cases (peek p == b'e' || peek p == b'E') (λ (r : Bool × Parser). Moves p (r.1))
      (λ h. Moves-trans (step-Moves p (peeked p.rest (ground (arith, h)))) (
        Moves-trans
          (if_cases (peek q == b'+' || peek q == b'-') (Moves q)
            (λ k. step-Moves q (peeked q.rest (ground (arith, k)))) (λ _. Moves-refl q))
          (digits_or-Moves _ _)))
      (λ _. Moves-refl p)

has_word-le :
    (word rest : List ℕ)
    → same_bytes (take (length word) rest) word ≡ true
    → length word ≤ length rest
unfolding same_bytes
has_word-le [] rest h = omega arith
has_word-le (w ∷ word) [] h = absurd (cc)
has_word-le (w ∷ word) (x ∷ rest) h = ground (arith, has_word-le word rest)

take_word-Moves : (word : List ℕ) (p : Parser) → has_word word p ≡ true → Moves p (take_word word p)
unfolding take_word has_word
take_word-Moves word p h = record {
  kept = omega (arith, has_word-le word p.rest h, length-drop (length word) p.rest);
  less = omega (arith, length-drop (length word) p.rest);
  inside = λ b g k. k;
}

parse_null-Moves : (p : Parser) → Moves p ((parse_null p).1)
unfolding parse_null
parse_null-Moves p =
    if_cases (has_word (ascii "null") p) (λ (r : Value × Parser). Moves p (r.1))
      (λ h. take_word-Moves (ascii "null") p h) (λ _. fail-Moves _ p)

parse_bool-Moves : (p : Parser) → Moves p ((parse_bool p).1)
unfolding parse_bool
parse_bool-Moves p =
    let P = λ (r : Value × Parser). Moves p (r.1) in
    if_cases (has_word (ascii "true") p) P (λ h. take_word-Moves (ascii "true") p h)
      (λ _.
        if_cases (has_word (ascii "false") p) P (λ h. take_word-Moves (ascii "false") p h)
          (λ _. fail-Moves _ p))

pub parse_key-Moves : (p : Parser) → Moves p ((parse_key p).1)
unfolding parse_key
parse_key-Moves start =
    let P = λ (r : Option (List ℕ) × Parser). Moves start (r.1) in
    let p = skip_ws start in
    let q = (parse_string p).1 in
    let r = expect b':' (skip_ws q) in
    let to_p = skip_ws-Moves start in
    let to_q = Moves-trans to_p (parse_string-Moves p) in
    let to_r =
      Moves-trans to_q
        (Moves-trans (skip_ws-Moves q) (expect-Moves b':' (skip_ws q) (omega arith))) in
    elim_cases (peek p == b'"') P
      (λ _. elim_cases (ok q) P (λ _. elim_cases (ok r) P (λ _. to_r) (λ _. to_r)) (λ _. to_q))
      (λ _. Moves-trans to_p (fail-Moves _ p))

pub parse_close-Moves : (x : ℕ) (p : Parser) → 0 < x → Moves p ((parse_close x p).1)
unfolding parse_close
parse_close-Moves x p k =
    let q = (match x (skip_ws p)).1 in
    let to_q = Moves-trans (skip_ws-Moves p) (match-Moves x (skip_ws p) k) in
    if_cases ((match x (skip_ws p)).0) (λ (r : Bool × Parser). Moves p (r.1)) (λ _. to_q)
      (λ _.
        Moves-trans to_q
          (Moves-trans (expect-Moves b',' q (omega arith)) (skip_ws-Moves (expect b',' q))))

pub parse_open-Moves : (x y : ℕ) (p : Parser) → 0 < x → 0 < y → Moves p ((parse_open x y p).1)
unfolding parse_open
parse_open-Moves x y p h k =
    Moves-trans (expect-Moves x p h)
      (Moves-trans (skip_ws-Moves (expect x p)) (match-Moves y (skip_ws (expect x p)) k))

module _ (strtod : List ℕ → Option ℕ) where
  float_value-Moves : (token : List ℕ) (p : Parser) → Moves p ((float_value strtod token p).1)
  unfolding float_value
  float_value-Moves token p =
      option_cases (strtod token) (λ (r : Value × Parser). Moves p (r.1)) (λ _. fail-Moves _ p)
        (λ _ _. Moves-refl p)

  number_value-Moves :
      (f : Bool) (token : List ℕ) (p : Parser) → Moves p ((number_value strtod f token p).1)
  unfolding number_value
  number_value-Moves f token p =
      let P = λ (r : Value × Parser). Moves p (r.1) in
      let float = float_value-Moves token p in
      if_cases f P (λ _. float)
        (λ _. option_cases (strtoll token) P (λ _. float) (λ _ _. Moves-refl p))

  parse_number-Moves : (p : Parser) → Moves p ((parse_number strtod p).1)
  unfolding parse_number
  parse_number-Moves p =
      let P = λ (r : Value × Parser). Moves p (r.1) in
      let a = whole p in
      let b = (fraction a).1 in
      let c = (exponent b).1 in
      let to_b = Moves-trans (whole-Moves p) (fraction-Moves a) in
      let to_c = Moves-trans to_b (exponent-Moves b) in
      elim_cases (ok a) P
        (λ _.
          elim_cases (ok b) P
            (λ _.
              elim_cases (ok c) P
                (λ _. Moves-trans to_c (
                  number_value-Moves ((fraction a).0 || (exponent b).0)
                    (take (c.offset - p.offset) p.rest) c))
                (λ _. to_c))
            (λ _. to_b))
        (λ _. whole-Moves p)

  pub parse_scalar-Moves : (p : Parser) → Moves p ((parse_scalar strtod p).1)
  unfolding parse_scalar
  parse_scalar-Moves p =
      let P = λ (r : Value × Parser). Moves p (r.1) in
      let c = peek p in
      if_cases (c == b'"') P (λ _. parse_string-Moves p)
        (λ _.
          if_cases (c == b't' || c == b'f') P (λ _. parse_bool-Moves p)
            (λ _.
              if_cases (c == b'n') P (λ _. parse_null-Moves p)
                (λ _.
                  if_cases (c == b'-' || is_digit c) P (λ _. parse_number-Moves p)
                    (λ _. fail-Moves _ p))))
