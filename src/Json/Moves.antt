-- ===== src/Json/Moves.antt =====
-- include/json.hpp: how the steps of the parser move through the text.
use mathlib.Core.Path.{subst}
use munchkinglang.Prelude.{
  ℕ, zero, suc, ◌+◌, ◌≤◌, ◌<◌, List, [], ◌∷◌, Bool, false, not, ◌&&◌, Option, none, some, ◌≡◌, refl,
  sym, ap, ◌∙◌, arith, ltb, ◌==◌, length, if_cases, elim_cases, option_cases,
}
use munchkinglang.Json.{
  Parser, Message, ok, fail, peek, first, is_empty, step, step_from, get, skip_over, skip_ws, match,
  expect, hex_digit, hex_digits, unicode_bytes, simple_escape, escape, string_rounds, parse_string,
  is_ws,
}

abbrev pub left : Parser → ℕ
left p = length p.rest

-- The offset of the failure, or 0.
abbrev pub error_offset : Parser → ℕ
error_offset p = elim p.failure [ none ↦ 0 | some (_, k) ↦ k ]

-- From one state to a later one: the offset grows by what is taken, and where the failure of the
-- first stands inside the text, that of the second does.
pub record Moves (p q : Parser) : Type 0 where
  pub kept : q.offset + left q ≡ p.offset + left p
  pub less : left q ≤ left p
  pub inside : (b : ℕ) → p.offset + left p ≤ b → error_offset p ≤ b → error_offset q ≤ b

pub Moves-refl : (p : Parser) → Moves p p
Moves-refl p = record { kept = refl; less = omega arith; inside = λ b h k. k }

pub Moves-trans : {p q r : Parser} → Moves p q → Moves q r → Moves p r
Moves-trans {p} {q} {r} m n = record {
  kept = n.kept ∙ m.kept;
  less = omega (arith, m.less, n.less);
  inside = λ b h k. n.inside b (omega (arith, m.kept)) (m.inside b h k);
}

pub fail-Moves : (m : Message) (p : Parser) → Moves p (fail m p)
unfolding fail
fail-Moves m p =
    if_cases (ok p) (Moves p)
      (λ _. record { kept = refl; less = omega arith; inside = λ b h k. omega arith })
      (λ _. Moves-refl p)

-- A character that is not the NUL that `peek` gives at the end.
pub one_more :
    (x : ℕ) (xs : List ℕ) (p : Parser)
    → p.rest ≡ x ∷ xs
    → Moves p (record p { rest = xs; offset = p.offset + 1 })
one_more x xs p q = record {
  kept = rw q (omega arith);
  less = rw q (omega arith);
  inside = λ b g k. k;
}

pub step-Moves : (p : Parser) → (is_empty p.rest) ≡ false → Moves p (step p)
step-Moves p h = from p.rest refl
  where
    from : (rest : List ℕ) → p.rest ≡ rest → Moves p (step p)
    from [] q = absurd (cc (h, ap is_empty q))
    from (x ∷ xs) q = subst (λ r. Moves p (step_from r p)) (sym q) (one_more x xs p q)

pub peeked : (xs : List ℕ) → 0 < first xs → is_empty xs ≡ false
peeked [] h = absurd (omega arith)
peeked (x ∷ xs) h = refl

pub get-Moves : (p : Parser) → Moves p ((get p).1)
unfolding get
get-Moves p =
    if_cases (is_empty p.rest) (λ (r : ℕ × Parser). Moves p (r.1)) (λ _. fail-Moves _ p)
      (λ h. step-Moves p h)

skip_over-Moves : (xs : List ℕ) (p : Parser) → p.rest ≡ xs → Moves p (skip_over xs p)
unfolding skip_over
skip_over-Moves [] p q = Moves-refl p
skip_over-Moves (x ∷ xs) p q =
    elim_cases (is_ws x) (Moves p)
      (λ _.
        let next : Parser = record p { rest = xs; offset = p.offset + 1 } in
        Moves-trans (one_more x xs p q) (skip_over-Moves xs next refl))
      (λ _. Moves-refl p)

pub skip_ws-Moves : (p : Parser) → Moves p (skip_ws p)
unfolding skip_ws
skip_ws-Moves p = skip_over-Moves p.rest p refl

pub match-Moves : (x : ℕ) (p : Parser) → 0 < x → Moves p ((match x p).1)
unfolding match
match-Moves x p k =
    if_cases (peek p == x) (λ (r : Bool × Parser). Moves p (r.1))
      (λ h. step-Moves p (peeked p.rest (ground (arith, h, k)))) (λ _. Moves-refl p)

pub expect-Moves : (x : ℕ) (p : Parser) → 0 < x → Moves p (expect x p)
unfolding expect
expect-Moves x p k =
    if_cases ((match x p).0) (Moves p) (λ _. match-Moves x p k)
      (λ _. Moves-trans (match-Moves x p k) (fail-Moves _ ((match x p).1)))

hex_digits-Moves : (n code : ℕ) (p : Parser) → Moves p ((hex_digits n code p).1)
unfolding hex_digits
hex_digits-Moves zero code p = Moves-refl p
hex_digits-Moves (suc n) code p =
    let P = λ (r : Option ℕ × Parser). Moves p (r.1) in
    let q = (get p).1 in
    elim_cases (ok q) P
      (λ _.
        option_cases (hex_digit ((get p).0)) P (λ _. Moves-trans (get-Moves p) (fail-Moves _ q))
          (λ d _. Moves-trans (get-Moves p) (hex_digits-Moves n _ q)))
      (λ _. get-Moves p)

unicode_bytes-Moves :
    (p : Parser) (r : Option ℕ × Parser) → Moves p (r.1) → Moves p ((unicode_bytes r).1)
unfolding unicode_bytes
unicode_bytes-Moves p (none, q) h = h
unicode_bytes-Moves p (some n, q) h = h

escape-Moves : (p : Parser) → Moves p ((escape p).1)
unfolding escape
escape-Moves p =
    let P = λ (r : Option (List ℕ) × Parser). Moves p (r.1) in
    let q = (get p).1 in
    let x = (get p).0 in
    let got = get-Moves p in
    elim_cases (ok q) P
      (λ _.
        option_cases (simple_escape x) P
          (λ _.
            elim_cases (x == b'u') P
              (λ _.
                unicode_bytes-Moves p (hex_digits 4 0 q) (Moves-trans got (hex_digits-Moves 4 0 q)))
              (λ _. Moves-trans got (fail-Moves _ q)))
          (λ y _. got))
      (λ _. got)

string_rounds-Moves : (n : ℕ) (out : List ℕ) (p : Parser) → Moves p ((string_rounds n out p).1)
unfolding string_rounds
string_rounds-Moves zero out p = Moves-refl p
string_rounds-Moves (suc n) out p =
    let P = λ (r : List ℕ × Parser). Moves p (r.1) in
    let q = (get p).1 in
    let x = (get p).0 in
    let got = get-Moves p in
    let r = (escape q).1 in
    elim_cases (ok p && not (is_empty p.rest)) P
      (λ _.
        elim_cases (x == b'"') P (λ _. got)
          (λ _.
            elim_cases (x == b'\\') P
              (λ _.
                option_cases ((escape q).0) P (λ _. Moves-trans got (escape-Moves q))
                  (λ more _.
                    Moves-trans got (Moves-trans (escape-Moves q) (string_rounds-Moves n _ r))))
              (λ _.
                elim_cases (ltb x 0x20) P (λ _. Moves-trans got (fail-Moves _ q))
                  (λ _. Moves-trans got (string_rounds-Moves n _ q)))))
      (λ _. fail-Moves _ p)

pub parse_string-Moves : (p : Parser) → Moves p ((parse_string p).1)
unfolding parse_string
parse_string-Moves p =
    let q = expect b'"' p in
    Moves-trans (expect-Moves b'"' p (omega arith)) (string_rounds-Moves (suc (length q.rest)) [] q)
