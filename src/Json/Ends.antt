-- ===== src/Json/Ends.antt =====
-- include/json.hpp: the parser ends, and where.
use mathlib.Core.Path.{subst}
use mathlib.Core.Bool.{false≢true}
use munchkinglang.Prelude.{
  ℕ, zero, suc, ◌+◌, ◌*◌, ◌≤◌, ◌<◌, List, [], ◌∷◌, Bool, true, false, Option, none, some, ◌≡◌, inl,
  inr, refl, sym, ap, ◌∙◌, arith, ◌==◌, if◌then◌else◌, Bool-cases, if_cases, elim_cases,
  option_cases,
}
use munchkinglang.Json.{
  Parser, Message, ok, fail, peek, is_empty, step, skip_over, skip_ws, match, expect, is_ws,
}
use munchkinglang.Json.Number.{Value, Values, Entries, nil, empty}
use munchkinglang.Json.Value.{
  push, store, parse_key, parse_close, parse_open, parse_value, item_rounds, entry_rounds,
}
use munchkinglang.Json.Moves.{
  left, Moves, Moves-refl, Moves-trans, peeked, skip_ws-Moves, match-Moves,
}
use munchkinglang.Json.Scalars.{
  parse_key-Moves, parse_close-Moves, parse_open-Moves, parse_scalar-Moves,
}

skip_over-ok : (xs : List ℕ) (p : Parser) → ok (skip_over xs p) ≡ ok p
unfolding skip_over
skip_over-ok [] p = refl
skip_over-ok (x ∷ xs) p =
    elim_cases (is_ws x) (λ (q : Parser). ok q ≡ ok p) (λ _. skip_over-ok xs _) (λ _. refl)

pub skip_ws-ok : (p : Parser) → ok (skip_ws p) ≡ ok p
unfolding skip_ws
skip_ws-ok p = skip_over-ok p.rest p

pub fail-ok : (m : Message) (p : Parser) → ok (fail m p) ≡ false
unfolding fail
fail-ok m p = if_cases (ok p) (λ (q : Parser). ok q ≡ false) (λ _. refl) (λ h. h)

step-lt : (p : Parser) → is_empty p.rest ≡ false → left (step p) < left p
step-lt p h = from p.rest refl
  where
    from : (rest : List ℕ) → p.rest ≡ rest → left (step p) < left p
    from [] q = absurd (cc (h, ap is_empty q))
    from (x ∷ xs) q = rw q (omega arith)

expect_found : (x : ℕ) (p : Parser) → (peek p == x) ≡ true → expect x p ≡ step p
unfolding expect match
expect_found x p h = rw h refl

expect_missing :
    (x : ℕ) (p : Parser) → (peek p == x) ≡ false → expect x p ≡ fail (Message.expected x) p
unfolding expect match
expect_missing x p h = rw h refl

found-lt : (x : ℕ) (p : Parser) → 0 < x → (peek p == x) ≡ true → left (expect x p) < left p
found-lt x p k e = rw (expect_found x p e) (step-lt p (peeked p.rest (ground (arith, e, k))))

-- `expect` takes its character or fails.
expect-lt : (x : ℕ) (p : Parser) → 0 < x → ok (expect x p) ≡ true → left (expect x p) < left p
expect-lt x p k h = elim (Bool-cases (peek p == x)) [
  | inl e ↦ found-lt x p k e
  | inr e ↦ absurd (cc (h, expect_missing x p e, fail-ok (Message.expected x) p))
]

-- How many rounds are enough for a loop over items or entries.
abbrev rounds_needed : Parser → ℕ
rounds_needed p = if ok p then 2 * left p + 2 else 1

comma_needed : (p : Parser) → rounds_needed (skip_ws (expect b',' p)) ≤ 2 * left p + 1
comma_needed p = elim (Bool-cases (ok (expect b',' p))) [
  | inl q ↦
      rw (skip_ws-ok (expect b',' p), q)
        (omega (arith, expect-lt b',' p (omega arith) q, (skip_ws-Moves (expect b',' p)).less))
  | inr q ↦ rw (skip_ws-ok (expect b',' p), q) (omega arith)
]

needed-le : (p : Parser) (n : ℕ) → 2 * left p + 2 ≤ n → rounds_needed p ≤ n
needed-le p n h = if_cases (ok p) (λ (k : ℕ). k ≤ n) (λ _. h) (λ _. omega arith)

close_found :
    (x : ℕ) (p : Parser)
    → (match x (skip_ws p)).0 ≡ true
    → parse_close x p ≡ (true, (match x (skip_ws p)).1)
unfolding parse_close
close_found x p h = rw (h, parse_close) refl

close_missing :
    (x : ℕ) (p : Parser)
    → (match x (skip_ws p)).0 ≡ false
    → parse_close x p ≡ (false, skip_ws (expect b',' ((match x (skip_ws p)).1)))
unfolding parse_close
close_missing x p h = rw (h, parse_close) refl

close_needed :
    (x : ℕ) (p : Parser)
    → 0 < x
    → (parse_close x p).0 ≡ false
    → rounds_needed ((parse_close x p).1) ≤ 2 * left p + 1
close_needed x p k h =
    let q = (match x (skip_ws p)).1 in
    let shorter = Moves-trans (skip_ws-Moves p) (match-Moves x (skip_ws p) k) in
    elim (Bool-cases ((match x (skip_ws p)).0)) [
      | inl e ↦ absurd (false≢true (sym h ∙ ap (λ r. r.0) (close_found x p e)))
      | inr e ↦
          subst (λ (r : Bool × Parser). rounds_needed (r.1) ≤ 2 * left p + 1)
            (sym (close_missing x p e)) (omega (arith, comma_needed q, shorter.less))
    ]

open_needed :
    (x y : ℕ) (p : Parser)
    → 0 < x
    → 0 < y
    → (peek p == x) ≡ true
    → rounds_needed ((parse_open x y p).1) ≤ 2 * left p
unfolding parse_open
open_needed x y p h k e =
    let q = expect x p in
    let shorter = Moves-trans (skip_ws-Moves q) (match-Moves y (skip_ws q) k) in
    needed-le ((parse_open x y p).1) (2 * left p) (omega (arith, found-lt x p h e, shorter.less))

unfoldable pub Ends : ℕ → ℕ → Parser → Option (Value × Parser) → Type 0
Ends needed n p none = n < needed
Ends needed n p (some (v, q)) = Moves p q

-- The same after a step that moves on, in a later round.
after_Ends :
    (needed' needed n : ℕ) (p q : Parser) (o : Option (Value × Parser))
    → Ends needed' n q o
    → Moves p q
    → needed' < needed
    → Ends needed (suc n) p o
unfolding Ends
after_Ends needed' needed n p q none h m k = omega arith
after_Ends needed' needed n p q (some (v, r)) h m k = Moves-trans m h

pub needs_more :
    (needed n : ℕ) (p : Parser) (o : Option (Value × Parser))
    → Ends needed n p o
    → o ≡ none
    → n < needed
unfolding Ends
needs_more needed n p o h q = subst (Ends needed n p) q h

pub goes_on :
    (needed n : ℕ) (p : Parser) (o : Option (Value × Parser)) (b : Value × Parser)
    → Ends needed n p o
    → o ≡ some b
    → Moves p (b.1)
unfolding Ends
goes_on needed n p o b h q = subst (Ends needed n p) q h

needed-pos : (p : Parser) → 0 < rounds_needed p
needed-pos p = if_cases (ok p) (λ (k : ℕ). 0 < k) (λ _. omega arith) (λ _. omega arith)

needed_ok : (p : Parser) → ok p ≡ true → rounds_needed p ≡ 2 * left p + 2
needed_ok p h = rw h refl

module _ (strtod : List ℕ → Option ℕ) where
  mutual
    unfolding Ends parse_value

    pub parse_value-Ends : (n : ℕ) (p : Parser) → Ends (2 * left p + 1) n p (parse_value strtod n p)
    parse_value-Ends zero p = omega arith
    parse_value-Ends (suc n) start =
        let p = skip_ws start in
        let need = 2 * left start + 1 in
        let P = Ends need (suc n) start in
        let to_p = skip_ws-Moves start in
        let curly = (parse_open b'{' b'}' p).1 in
        let square = (parse_open b'[' b']' p).1 in
        let to_curly =
          Moves-trans to_p (parse_open-Moves b'{' b'}' p (omega arith) (omega arith)) in
        let to_square =
          Moves-trans to_p (parse_open-Moves b'[' b']' p (omega arith) (omega arith)) in
        elim_cases (ok start) P
          (λ _.
            elim_cases (peek p == b'{') P
              (λ e.
                elim_cases ((parse_open b'{' b'}' p).0) P (λ _. to_curly)
                  (λ _.
                    after_Ends (rounds_needed curly) need n start curly _
                      (entry_rounds-Ends n empty curly) to_curly
                      (omega
                        (arith, open_needed b'{' b'}' p (omega arith) (omega arith) e, to_p.less))))
              (λ _.
                elim_cases (peek p == b'[') P
                  (λ e.
                    elim_cases ((parse_open b'[' b']' p).0) P (λ _. to_square)
                      (λ _.
                        after_Ends (rounds_needed square) need n start square _
                          (item_rounds-Ends n nil square) to_square
                          (omega (
                            arith,
                            open_needed b'[' b']' p (omega arith) (omega arith) e,
                            to_p.less,
                          ))))
                  (λ _. Moves-trans to_p (parse_scalar-Moves strtod p))))
          (λ _. Moves-refl start)

    item_rounds-Ends :
        (n : ℕ) (items : Values) (p : Parser)
        → Ends (rounds_needed p) n p (item_rounds strtod n items p)
    item_rounds-Ends zero items p = needed-pos p
    item_rounds-Ends (suc n) items p =
        let need = rounds_needed p in
        let P = Ends need (suc n) p in
        let later = parse_value-Ends n p in
        elim_cases (ok p) P
          (λ t.
            option_cases (parse_value strtod n p) P
              (λ z. omega (arith, needed_ok p t, needs_more _ n p _ later z))
              (λ b z.
                let q = b.1 in
                let r = (parse_close b']' q).1 in
                let to_q = goes_on _ n p _ b later z in
                let to_r = Moves-trans to_q (parse_close-Moves b']' q (omega arith)) in
                elim_cases (ok q) P
                  (λ _.
                    elim_cases ((parse_close b']' q).0) P (λ _. to_r)
                      (λ c.
                        after_Ends (rounds_needed r) need n p r _
                          (item_rounds-Ends n (push items (b.0)) r) to_r
                          (omega (
                            arith,
                            needed_ok p t,
                            close_needed b']' q (omega arith) c,
                            to_q.less,
                          ))))
                  (λ _. to_q)))
          (λ _. Moves-refl p)

    entry_rounds-Ends :
        (n : ℕ) (entries : Entries) (p : Parser)
        → Ends (rounds_needed p) n p (entry_rounds strtod n entries p)
    entry_rounds-Ends zero entries p = needed-pos p
    entry_rounds-Ends (suc n) entries p =
        let need = rounds_needed p in
        let P = Ends need (suc n) p in
        let k = (parse_key p).1 in
        let to_k = parse_key-Moves p in
        let later = parse_value-Ends n k in
        elim_cases (ok p) P
          (λ t.
            option_cases ((parse_key p).0) P (λ _. to_k)
              (λ key _.
                option_cases (parse_value strtod n k) P
                  (λ z. omega (arith, needed_ok p t, needs_more _ n k _ later z, to_k.less))
                  (λ b z.
                    let q = b.1 in
                    let r = (parse_close b'}' q).1 in
                    let to_q = Moves-trans to_k (goes_on _ n k _ b later z) in
                    let to_r = Moves-trans to_q (parse_close-Moves b'}' q (omega arith)) in
                    elim_cases (ok q) P
                      (λ _.
                        elim_cases ((parse_close b'}' q).0) P (λ _. to_r)
                          (λ c.
                            after_Ends (rounds_needed r) need n p r _
                              (entry_rounds-Ends n (store entries key (b.0)) r) to_r
                              (omega (
                                arith,
                                needed_ok p t,
                                close_needed b'}' q (omega arith) c,
                                to_q.less,
                              ))))
                      (λ _. to_q))))
          (λ _. Moves-refl p)
