-- ===== src/Lexer/Ends.antt =====
-- include/lexer.hpp: when the loop of `tokenize` ends. `fail` returns, so a character that is reported
-- as unexpected is met again in the next round.
use munchkinglang.Prelude.{
  ℕ, zero, suc, ◌≤◌, ◌<◌, List, [], ◌∷◌, Bool, true, false, not, ◌&&◌, ◌||◌, none, some, ◌≡◌, ◌⊎◌,
  inl, inr, refl, ap, ◌∙◌, arith, ◌==◌, length, get_or, Bool-cases, Option-cases, elim_cases,
}
use munchkinglang.Lexer.Words.{TokenType, Token, letter}
use munchkinglang.Lexer.{
  Place, Cursor, make, eof, peek, advance, advance_no_newline, fail, is_blank, skip_line,
  skip_block, end_block, skip_rounds, skip_trivia,
}
use munchkinglang.Lexer.Scan.{
  punctuation, lex_punctuation, next_token, token_rounds, begin, tokenize,
}
use munchkinglang.Lexer.Progress.{
  left, left-advance, left-advance_no_newline, eof-left, skip_line-le, skip_block-le, end_block-le,
  skip_rounds-le, is_unexpected, next_token-lt,
}

-- No trivia stands at the start.
unfoldable pub settled : List ℕ → Bool
settled rest =
    length rest == 0
    || (not (is_blank (get_or rest 0 0))
        && not (get_or rest 0 0 == b'/' && get_or rest 1 0 == b'/')
        && not (get_or rest 0 0 == b'/' && get_or rest 1 0 == b'*'))

is_settled :
    (c : Cursor)
    → is_blank (peek c 0) ≡ false
    → (peek c 0 == b'/' && peek c 1 == b'/') ≡ false
    → (peek c 0 == b'/' && peek c 1 == b'*') ≡ false
    → settled c.rest ≡ true
unfolding settled
is_settled c b l k = rw (b, l, k) (ground arith)

skip_rounds-settled : (n : ℕ) (c : Cursor) → left c ≤ n → settled ((skip_rounds n c).rest) ≡ true
unfolding skip_rounds
skip_rounds-settled zero c h = unfold settled in ground arith
skip_rounds-settled (suc n) c h =
    let Done = λ (e : Cursor). settled e.rest ≡ true in
    let d = advance_no_newline 2 c in
    let taken = left-advance_no_newline 2 c in
    elim_cases (eof c) Done (λ e. unfold settled eof in ground arith)
      (λ e.
        let some_left = eof-left c e in
        elim_cases (is_blank (peek c 0)) Done
          (λ _. skip_rounds-settled n (advance 1 c) (omega (arith, left-advance 1 c)))
          (λ b.
            elim_cases (peek c 0 == b'/' && peek c 1 == b'/') Done
              (λ _.
                skip_rounds-settled n (skip_line d.rest d) (omega (arith, skip_line-le d.rest d)))
              (λ l.
                elim_cases (peek c 0 == b'/' && peek c 1 == b'*') Done
                  (λ _.
                    skip_rounds-settled n (end_block (skip_block d.rest d))
                      (omega (arith, end_block-le (skip_block d.rest d), skip_block-le d.rest d)))
                  (λ k. is_settled c b l k))))

skip_trivia-le : (c : Cursor) → left (skip_trivia c) ≤ left c
unfolding skip_trivia
skip_trivia-le c = skip_rounds-le (left c) c

pub skip_trivia-settled : (c : Cursor) → settled ((skip_trivia c).rest) ≡ true
unfolding skip_trivia
skip_trivia-settled c = skip_rounds-settled (left c) c (omega arith)

skip_nothing : (n : ℕ) (c : Cursor) → settled c.rest ≡ true → skip_rounds n c ≡ c
unfolding skip_rounds settled eof
skip_nothing zero c h = refl
skip_nothing (suc n) c h = ground arith

next_token_unexpected :
    (s : Place) (c : Cursor)
    → is_unexpected (peek c 0) (peek c 1) (peek c 2) ≡ true
    → ((next_token s c).1).rest ≡ c.rest
unfolding next_token lex_punctuation is_unexpected fail
next_token_unexpected s c h = elim (Option-cases (punctuation (peek c 0) (peek c 1) (peek c 2))) [
  | inl q ↦ ground arith
  | inr (t, q) ↦ absurd (ground arith)
]

abbrev unexpected_at : List ℕ → Bool
unexpected_at rest = is_unexpected (get_or rest 0 0) (get_or rest 1 0) (get_or rest 2 0)

stuck_rounds :
    (n : ℕ) (rest : List ℕ) (c : Cursor)
    → c.rest ≡ rest
    → (length rest == 0) ≡ false
    → settled rest ≡ true
    → unexpected_at rest ≡ true
    → token_rounds n c ≡ none
unfolding token_rounds skip_trivia eof
stuck_rounds zero rest c e h t u = refl
stuck_rounds (suc n) rest c e h t u =
    let same = skip_nothing (left c) c (ap settled e ∙ t) in
    let next = (next_token c.place c).1 in
    let again = next_token_unexpected c.place c (ap unexpected_at e ∙ u) in
    ground (arith, same, stuck_rounds n rest next (again ∙ e) h t u)

ended :
    (c : Cursor)
    → eof (skip_trivia c) ≡ true
    → (n : ℕ) → left c < n
    → token_rounds n c
      ≡ some (make ((skip_trivia c).place) TokenType.end (letter 0) ∷ [], skip_trivia c)
unfolding token_rounds
ended c q zero h = absurd (omega arith)
ended c q (suc n) h = rw (q, token_rounds) refl

pub went_on :
    (c : Cursor) (n : ℕ)
    → eof (skip_trivia c) ≡ false
    → token_rounds (suc n) c ≡ (
        let d = skip_trivia c in
        let (token, e) = next_token d.place d in
        elim (token_rounds n e) [ none ↦ none | some (tokens, f) ↦ some (token ∷ tokens, f) ])
unfolding token_rounds
went_on c n q = rw (q, token_rounds) refl

module _ (c : Cursor) (q : eof (skip_trivia c) ≡ false) where
  abbrev following : Cursor
  following = (next_token ((skip_trivia c).place) (skip_trivia c)).1

  abbrev prefixed : List Token × Cursor → List Token × Cursor
  prefixed (tokens, f) = ((next_token ((skip_trivia c).place) (skip_trivia c)).0 ∷ tokens, f)

  stuck_at : unexpected_at ((skip_trivia c).rest) ≡ true → (n : ℕ) → token_rounds n c ≡ none
  unfolding token_rounds eof
  stuck_at u zero = refl
  stuck_at u (suc n) =
      let again = next_token_unexpected ((skip_trivia c).place) (skip_trivia c) u in
      let never =
        stuck_rounds n ((skip_trivia c).rest) following again q (skip_trivia-settled c) u in
      went_on c n q ∙ rw never refl

  never_at : ((n : ℕ) → token_rounds n following ≡ none) → (n : ℕ) → token_rounds n c ≡ none
  unfolding token_rounds
  never_at never zero = refl
  never_at never (suc n) = went_on c n q ∙ rw (never n) refl

  given :
      (r : List Token × Cursor)
      → ((n : ℕ) → left following < n → token_rounds n following ≡ some r)
      → left following < left c
      → (n : ℕ) → left c < n
      → token_rounds n c ≡ some (prefixed r)
  given r after less zero h = absurd (omega arith)
  given (tokens, f) after less (suc n) h = went_on c n q ∙ rw (after n (omega arith)) refl

-- The rounds of the loop of `tokenize` that lead from one state to another.
pub data Reaches (c : Cursor) : Cursor → Type 0 where
  here : Reaches c c
  round :
      (d : Cursor)
      → Reaches c d
      → eof (skip_trivia d) ≡ false
      → Reaches c (next_token ((skip_trivia d).place) (skip_trivia d)).1

-- The next round meets a character that no token starts with.
pub record Meets (d : Cursor) : Type 0 where
  pub goes_on : eof (skip_trivia d) ≡ false
  pub unexpected : unexpected_at ((skip_trivia d).rest) ≡ true

reached_never :
    (c d : Cursor)
    → Reaches c d
    → ((n : ℕ) → token_rounds n d ≡ none)
    → (n : ℕ) → token_rounds n c ≡ none
reached_never c _ here never = never
reached_never c _ (round d r q) never = reached_never c d r (never_at d q never)

Decided : Cursor → Cursor → Type 0
Decided b c =
    ((r : List Token × Cursor) × ((n : ℕ) → left c < n → token_rounds n c ≡ some r))
    ⊎ ((d : Cursor) × Reaches b d × Meets d)

rounds_decide : (k : ℕ) (b c : Cursor) → Reaches b c → left c < k → Decided b c
unfolding Decided
rounds_decide zero b c m h = absurd (omega arith)
rounds_decide (suc k) b c m h =
    let d = skip_trivia c in
    let shorter = skip_trivia-le c in
    elim (Bool-cases (eof d)) [
      | inl q ↦ inl ((make d.place TokenType.end (letter 0) ∷ [], d), ended c q)
      | inr q ↦ elim (Bool-cases (unexpected_at d.rest)) [
        | inl u ↦ inr (c, m, record { goes_on = q; unexpected = u })
        | inr u ↦
            let less = next_token-lt d.place d q u in
            elim (rounds_decide k b (following c q) (round c m q) (omega arith)) [
              | inl (r, after) ↦ inl (prefixed c q r, given c q r after (omega arith))
              | inr stuck ↦ inr stuck
            ]
      ]
    ]

-- The loop of `tokenize` either gives a result within one round more than there are characters, the
-- same for any more rounds, or comes, after some rounds, to a character that no token starts with.
pub tokenize_decided :
    (source : List ℕ)
    → ((r : List Token × Cursor) × ((n : ℕ) → length source < n → tokenize n source ≡ some r))
      ⊎ ((d : Cursor) × Reaches (begin source) d × Meets d)
unfolding tokenize Decided
tokenize_decided source =
    rounds_decide (suc (length source)) (begin source) (begin source) here (omega arith)

-- Where the loop of `tokenize` comes, after some rounds, to a character that no token starts with, no
-- number of rounds is enough.
pub tokenize_unexpected :
    (source : List ℕ) (d : Cursor)
    → Reaches (begin source) d
    → Meets d
    → (n : ℕ) → tokenize n source ≡ none
unfolding tokenize
tokenize_unexpected source d r m n =
    reached_never (begin source) d r (stuck_at d m.goes_on m.unexpected) n
