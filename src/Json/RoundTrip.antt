-- ===== src/Json/RoundTrip.antt =====
-- include/json.hpp and include/analyze/json_util.hpp: `parse_string` reads back what `append_escaped`
-- writes.
use mathlib.Core.List.{append_assoc, append-nil}
use munchkinglang.Prelude.{
  ℕ, zero, suc, ◌+◌, ◌*◌, ◌/◌, ◌%◌, ◌≤◌, ◌<◌, List, [], ◌∷◌, ◌++◌, true, false, none, some, ◌≡◌,
  refl, sym, ap, ◌∙◌, arith, ltb, ◌==◌, length, length-append, if_cases, ==_iff,
}
use munchkinglang.Json.{
  Parser, get, match, expect, hex_digit, hex_digits, utf8, simple_escape, unicode_bytes, escape,
  string_rounds, parse_string,
}
use munchkinglang.Json.Escape.{hex_character, escaped, append_each, append_escaped, quote}

-- A parser that has not failed.
abbrev pub clean : List ℕ → ℕ → Parser
clean rest offset = record { rest = rest; offset = offset; failure = none }

same_round :
    (n : ℕ) (out rest : List ℕ) (x y a b : ℕ)
    → y ≡ x
    → a ≡ b
    → string_rounds n (out ++ (x ∷ [])) (clean rest a)
      ≡ string_rounds n (out ++ (y ∷ [])) (clean rest b)
same_round n out rest x y a b p q = λ i. string_rounds n (out ++ (sym p i ∷ [])) (clean rest (q i))

hex_digit-character : (d : ℕ) → d < 16 → hex_digit (hex_character d) ≡ some d
unfolding hex_digit hex_character
hex_digit-character d h = ground arith

hex_step :
    (n code d h o : ℕ) (rest : List ℕ)
    → hex_digit h ≡ some d
    → hex_digits (suc n) code (clean (h ∷ rest) o)
      ≡ hex_digits n (code * 16 + d) (clean rest (o + 1))
unfolding hex_digits get
hex_step n code d h o rest q = rw (q, hex_digits) refl

hex_digits_done : (v o : ℕ) (rest : List ℕ) → hex_digits 0 v (clean rest o) ≡ (some v, clean rest o)
unfolding hex_digits
hex_digits_done v o rest = refl

escape_unicode :
    (rest : List ℕ) (o : ℕ)
    → escape (clean (b'u' ∷ rest) o) ≡ unicode_bytes (hex_digits 4 0 (clean rest (o + 1)))
unfolding escape get simple_escape
escape_unicode rest o = refl

zero_digit : hex_digit b'0' ≡ some 0
unfolding hex_digit
zero_digit = refl

utf8_small : (x : ℕ) → x < 32 → utf8 x ≡ x ∷ []
unfolding utf8
utf8_small x h = ground arith

pair_value :
    (x a b c : ℕ) (rest : List ℕ)
    → x < 32
    → a ≡ x
    → b ≡ c
    → unicode_bytes (some a, clean rest b) ≡ (some (x ∷ []), clean rest c)
unfolding unicode_bytes
pair_value x a b c rest h p q = λ i. (some ((ap utf8 p ∙ utf8_small x h) i), clean rest (q i))

escape_pair :
    (x : ℕ) (rest : List ℕ) (o : ℕ)
    → x < 32
    → escape (clean (b'u' ∷ b'0' ∷ b'0' ∷ hex_character (x / 16) ∷ hex_character (x % 16) ∷ rest) o)
      ≡ (some (x ∷ []), clean rest (o + 5))
escape_pair x rest o h =
    let high = hex_digit-character (x / 16) (omega arith) in
    let low = hex_digit-character (x % 16) (omega arith) in
    let low_first = hex_character (x % 16) ∷ rest in
    let both = hex_character (x / 16) ∷ low_first in
    let digits =
      hex_step 3 0 0 b'0' (o + 1) (b'0' ∷ both) zero_digit
      ∙ hex_step 2 _ 0 b'0' _ both zero_digit
      ∙ hex_step 1 _ (x / 16) _ _ low_first high
      ∙ hex_step 0 _ (x % 16) _ _ rest low
      ∙ hex_digits_done _ _ rest in
    escape_unicode (b'0' ∷ b'0' ∷ both) o
    ∙ ap unicode_bytes digits
    ∙ pair_value x _ _ (o + 5) rest h (omega arith) (omega arith)

-- A round on a `\`, and one on a character that stands for itself.
escape_round :
    (n o a : ℕ) (out more behind rest : List ℕ)
    → escape (clean behind (o + 1)) ≡ (some more, clean rest a)
    → string_rounds (suc n) out (clean (b'\\' ∷ behind) o)
      ≡ string_rounds n (out ++ more) (clean rest a)
unfolding string_rounds get
escape_round n o a out more behind rest q =
    rw (q, string_rounds) (ap (λ r. string_rounds n (out ++ more) (r.1)) q)

plain_round :
    (n o x : ℕ) (out rest : List ℕ)
    → (x == b'"') ≡ false
    → (x == b'\\') ≡ false
    → ltb x 0x20 ≡ false
    → string_rounds (suc n) out (clean (x ∷ rest) o)
      ≡ string_rounds n (out ++ (x ∷ [])) (clean rest (o + 1))
unfolding string_rounds get
plain_round n o x out rest q s h = rw (q, s, h, string_rounds) refl

five : (o : ℕ) → o + 1 + 5 ≡ o + 6
five o = omega arith

round_read :
    (x n o : ℕ) (out rest : List ℕ)
    → string_rounds (suc n) out (clean (escaped x ++ rest) o)
      ≡ string_rounds n (out ++ (x ∷ [])) (clean rest (o + length (escaped x)))
unfolding escaped string_rounds get escape simple_escape
round_read x n o out rest =
    let P = λ (e : List ℕ).
      string_rounds (suc n) out (clean (e ++ rest) o)
      ≡ string_rounds n (out ++ (x ∷ [])) (clean rest (o + length e)) in
    let same = λ (y : ℕ). λ (h : (x == y) ≡ true).
      same_round n out rest y x (o + 1 + 1) (o + 2) ((==_iff x y).0 h) (omega arith) in
    if_cases (x == b'"') P (same b'"') (λ q. if_cases (x == b'\\') P (same b'\\') (λ s.
      if_cases (x == 8) P (same 8) (λ _. if_cases (x == 12) P (same 12) (λ _.
        if_cases (x == b'\n') P (same b'\n') (λ _. if_cases (x == b'\r') P (same b'\r') (λ _.
          if_cases (x == b'\t') P (same b'\t') (λ _.
            if_cases (ltb x 0x20) P
              (λ h.
                escape_round n o (o + 6) out (x ∷ [])
                  (b'u' ∷ b'0' ∷ b'0' ∷ hex_character (x / 16) ∷ hex_character (x % 16) ∷ rest) rest
                  (escape_pair x rest (o + 1) (ground (arith, h))
                    ∙ ap (λ k. (some (x ∷ []), clean rest k)) (five o)))
              (λ h. plain_round n o x out rest q s h))))))))

-- All rounds over an escaped text, and the one on the closing quote.
escapes : List ℕ → List ℕ
escapes [] = []
escapes (x ∷ text) = escaped x ++ escapes text

closing_round :
    (n o : ℕ) (out rest : List ℕ)
    → string_rounds (suc n) out (clean (b'"' ∷ rest) o) ≡ (out, clean rest (o + 1))
unfolding string_rounds get
closing_round n o out rest = refl

no_more : (o : ℕ) → o + 1 ≡ o + 0 + 1
no_more o = omega arith

further : (o : ℕ) (xs ys : List ℕ) → o + length xs + length ys + 1 ≡ o + length (xs ++ ys) + 1
further o xs ys = omega (arith, length-append xs ys)

rounds_read :
    (text : List ℕ) (n o : ℕ) (out rest : List ℕ)
    → length text < n
    → string_rounds n out (clean (escapes text ++ (b'"' ∷ rest)) o)
      ≡ (out ++ text, clean rest (o + length (escapes text) + 1))
unfolding escapes
rounds_read text zero o out rest h = absurd (omega arith)
rounds_read [] (suc n) o out rest h =
    closing_round n o out rest ∙ λ i. (sym (append-nil out) i, clean rest (no_more o i))
rounds_read (x ∷ text) (suc n) o out rest h =
    let behind = escapes text ++ (b'"' ∷ rest) in
    ap (λ r. string_rounds (suc n) out (clean r o))
      (append_assoc (escaped x) (escapes text) (b'"' ∷ rest))
    ∙ round_read x n o out behind
    ∙ rounds_read text n (o + length (escaped x)) (out ++ (x ∷ [])) rest (omega arith)
    ∙ λ i. (append_assoc out (x ∷ []) text i, clean rest (further o (escaped x) (escapes text) i))

append_each-escapes : (text out : List ℕ) → append_each out text ≡ out ++ escapes text
unfolding append_each escapes
append_each-escapes [] out = sym (append-nil out)
append_each-escapes (x ∷ text) out =
    append_each-escapes text (out ++ escaped x) ∙ append_assoc out (escaped x) (escapes text)

escaped-pos : (x : ℕ) → 0 < length (escaped x)
unfolding escaped
escaped-pos x = ground arith

escapes-le : (text : List ℕ) → length text ≤ length (escapes text)
unfolding escapes
escapes-le [] = omega arith
escapes-le (x ∷ text) =
    omega (arith, escapes-le text, escaped-pos x, length-append (escaped x) (escapes text))

quote_text : (text rest : List ℕ) → quote text ++ rest ≡ b'"' ∷ (escapes text ++ (b'"' ∷ rest))
unfolding quote append_escaped
quote_text text rest =
    append_assoc (append_each (b'"' ∷ []) text) (b'"' ∷ []) rest
    ∙ ap (λ r. r ++ (b'"' ∷ rest)) (append_each-escapes text (b'"' ∷ []))

length-quote : (text : List ℕ) → length (quote text) ≡ length (escapes text) + 2
length-quote text = omega (
  arith,
  ap length (sym (append-nil (quote text)) ∙ quote_text text []),
  length-append (escapes text) (b'"' ∷ []),
)

opened_read :
    (text rest : List ℕ) (o : ℕ)
    → parse_string (clean (b'"' ∷ (escapes text ++ (b'"' ∷ rest))) o)
      ≡ (text, clean rest (o + 1 + length (escapes text) + 1))
unfolding parse_string expect match
opened_read text rest o =
    let behind = escapes text ++ (b'"' ∷ rest) in
    rounds_read text (suc (length behind)) (o + 1) [] rest
      (omega (arith, escapes-le text, length-append (escapes text) (b'"' ∷ rest)))

-- `parse_string`, at the start of what `quote` writes for any text, gives that text, stops right
-- behind what was written, whatever follows, and reports no failure.
pub parse_string-quote :
    (text rest : List ℕ) (o : ℕ)
    → parse_string (clean (quote text ++ rest) o) ≡ (text, clean rest (o + length (quote text)))
parse_string-quote text rest o =
    ap (λ r. parse_string (clean r o)) (quote_text text rest)
    ∙ opened_read text rest o
    ∙ ap (λ k. (text, clean rest k)) (omega (arith, length-quote text))
