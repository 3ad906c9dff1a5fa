-- ===== src/Lexer/Placed.antt =====
-- include/lexer.hpp: the tokens of a source in which no error is found, and their places.
use mathlib.Core.Path.{subst}
use mathlib.Core.List.{append-nil}
use munchkinglang.Prelude.{
  ℕ, zero, suc, ◌<◌, List, [], ◌∷◌, ◌++◌, true, false, none, some, ◌≡◌, ◌⊎◌, inl, inr, refl, sym,
  ap, ◌∙◌, arith, ◌==◌, length, length-append, take, take-append, Bool-cases, Option-cases,
  same_some,
}
use munchkinglang.Lexer.Words.{TokenType, Token, letter}
use munchkinglang.Lexer.{Place, Cursor, make, eof, peek, skip_trivia}
use munchkinglang.Lexer.Scan.{next_token, token_rounds, begin, tokenize}
use munchkinglang.Lexer.Places.{
  place_after, walk, walk-++, walk_start, Advances, Clean, Clean-trans,
}
use munchkinglang.Lexer.Progress.{is_unexpected, next_token-lt}
use munchkinglang.Lexer.Kept.{skip_trivia-Clean}
use munchkinglang.Lexer.Quoted.{next_token-Clean}
use munchkinglang.Lexer.Gaps.{Trivia, Gap, skip_trivia-Gap}
use munchkinglang.Lexer.Spelled.{Spells, Spelled}
use munchkinglang.Lexer.Spelled.Tokens.{next_token-Spelled}
use munchkinglang.Lexer.Starts.{StartsAt, next_token-StartsAt, unexpected_faulty}
use munchkinglang.Lexer.Ends.{settled, skip_trivia-settled, went_on}

-- A token has the line and column of the place behind what stands before it.
unfoldable pub IsAt : List ℕ → Token → Type 0
IsAt before token =
    (token.line ≡ (place_after before).line) × (token.column ≡ (place_after before).col)

-- The tokens of the rest of a source, of which `before` has been read. Before each there is a gap,
-- which is trivia and leaves none. The text of each token but the last is there, and spells it. The
-- last is the end, with nothing behind it.
pub data Placed : List ℕ → List ℕ → List Token → Type 0 where
  ending :
      (before gap : List ℕ) (token : Token)
      → Trivia gap []
      → token.type ≡ TokenType.end
      → IsAt (before ++ gap) token
      → Placed before gap (token ∷ [])
  next :
      (before gap lexeme after : List ℕ) (token : Token) (tokens : List Token)
      → Trivia gap (lexeme ++ after)
      → settled (lexeme ++ after) ≡ true
      → 0 < length lexeme
      → Spells lexeme after token
      → IsAt (before ++ gap) token
      → Placed ((before ++ gap) ++ lexeme) after tokens
      → Placed before (gap ++ (lexeme ++ after)) (token ∷ tokens)

place_further :
    (before gap : List ℕ) (p q : Place)
    → p ≡ place_after before
    → q ≡ walk gap p
    → q ≡ place_after (before ++ gap)
place_further before gap p q h k =
    k
    ∙ ap (walk gap) (h ∙ sym (walk_start before))
    ∙ sym (walk-++ before gap _)
    ∙ walk_start (before ++ gap)

module _ (c : Cursor) where
  abbrev here : Cursor
  here = skip_trivia c

  abbrev token_here : Token
  token_here = (next_token here.place here).0

  abbrev behind : Cursor
  behind = (next_token here.place here).1

  abbrev end_here : Token
  end_here = make here.place TokenType.end (letter 0)

round_cases :
    (n : ℕ) (c : Cursor) (tokens : List Token) (f : Cursor)
    → token_rounds (suc n) c ≡ some (tokens, f)
    → ((eof (here c) ≡ true) × (tokens ≡ end_here c ∷ []) × (f ≡ here c))
      ⊎ ((eof (here c) ≡ false)
          × ((later : List Token) × (tokens ≡ token_here c ∷ later)
              × (token_rounds n (behind c) ≡ some (later, f))))
unfolding token_rounds
round_cases n c tokens f h = elim (Bool-cases (eof (here c))) [
  | inl z ↦
      let given : token_rounds (suc n) c ≡ some (end_here c ∷ [], here c) =
        rw (z, token_rounds) refl in
      let same = same_some h given in inl (z, ap (λ r. r.0) same, ap (λ r. r.1) same)
  | inr z ↦ elim (Option-cases (token_rounds n (behind c))) [
    | inl r ↦ let gone : token_rounds (suc n) c ≡ none = went_on c n z ∙ rw r refl in absurd (cc)
    | inr ((later, g), r) ↦
        let given : token_rounds (suc n) c ≡ some (token_here c ∷ later, g) =
          went_on c n z ∙ rw r refl in
        let same = same_some h given in
        inr (z, (later, ap (λ s. s.0) same, r ∙ ap (λ s. some (later, s.1)) (sym same)))
  ]
]

rounds-Clean :
    (n : ℕ) (c : Cursor) (tokens : List Token) (f : Cursor)
    → token_rounds n c ≡ some (tokens, f)
    → Clean c f
unfolding token_rounds
rounds-Clean zero c tokens f h = absurd (cc)
rounds-Clean (suc n) c tokens f h = elim (round_cases n c tokens f h) [
  | inl (z, t, s) ↦ subst (Clean c) (sym s) (skip_trivia-Clean c)
  | inr (z, (later, t, r)) ↦ Clean-trans (skip_trivia-Clean c) (
      Clean-trans (next_token-Clean ((here c).place) (here c))
        (rounds-Clean n (behind c) later f r))
]

-- A token that reports nothing takes some text.
token_takes :
    (c : Cursor)
    → eof (here c) ≡ false
    → (behind c).faults ≡ []
    → (a : Advances (here c) (behind c)) → 0 < length a.word
token_takes c z q a =
    let d = here c in
    let taken : length ((behind c).rest) < length d.rest =
      elim (Bool-cases (is_unexpected (peek d 0) (peek d 1) (peek d 2))) [
        | inl u ↦ absurd (unexpected_faulty d.place d u q)
        | inr u ↦ next_token-lt d.place d z u
      ] in
    omega (arith, taken, ap length a.rest_split, length-append a.word ((behind c).rest))

same_length : (xs ys zs : List ℕ) → xs ++ zs ≡ ys ++ zs → length xs ≡ length ys
same_length xs ys zs h = omega (arith, ap length h, length-append xs zs, length-append ys zs)

-- Two texts before the same rest are the same.
same_front : (xs ys zs : List ℕ) → xs ++ zs ≡ ys ++ zs → xs ≡ ys
same_front xs ys zs h =
    sym (take-append xs zs)
    ∙ ap (take (length xs)) h
    ∙ ap (λ n. take n (ys ++ zs)) (same_length xs ys zs h)
    ∙ take-append ys zs

-- What is taken before a token is trivia.
gap_Trivia :
    (c : Cursor) → (here c).faults ≡ [] → (a : Advances c (here c)) → Trivia a.word ((here c).rest)
unfolding Gap
gap_Trivia c q a =
    let (gap, split, t) = skip_trivia-Gap c q in
    subst (λ g. Trivia g ((here c).rest))
      (same_front gap a.word ((here c).rest) (sym split ∙ a.rest_split)) t

-- What a token takes spells it.
lexeme_Spells :
    (c : Cursor)
    → (behind c).faults ≡ []
    → (b : Advances (here c) (behind c)) → Spells b.word ((behind c).rest) (token_here c)
unfolding Spelled
lexeme_Spells c q b =
    let (lexeme, split, s) = next_token-Spelled ((here c).place) (here c) q in
    subst (λ l. Spells l ((behind c).rest) (token_here c))
      (same_front lexeme b.word ((behind c).rest) (sym split ∙ b.rest_split)) s

no_rest : (xs : List ℕ) → (length xs == 0) ≡ true → xs ≡ []
no_rest [] h = refl
no_rest (x ∷ xs) h = absurd (ground arith)

last-Placed :
    (before : List ℕ) (c : Cursor)
    → eof (here c) ≡ true
    → (here c).faults ≡ []
    → c.place ≡ place_after before
    → Placed before c.rest (end_here c ∷ [])
unfolding eof make IsAt
last-Placed before c z q p =
    let (_, a) = (skip_trivia-Clean c).taken q in
    let here_at = place_further before a.word c.place ((here c).place) p a.place_walk in
    let whole =
      a.rest_split ∙ ap (λ r. a.word ++ r) (no_rest ((here c).rest) z) ∙ append-nil a.word in
    subst (λ r. Placed before r (end_here c ∷ [])) (sym whole)
      (ending before a.word (end_here c)
        (subst (Trivia a.word) (no_rest ((here c).rest) z) (gap_Trivia c q a)) refl
        (ap (λ p. p.line) here_at, ap (λ p. p.col) here_at))

rounds-Placed :
    (n : ℕ) (before : List ℕ) (c : Cursor) (tokens : List Token) (f : Cursor)
    → token_rounds n c ≡ some (tokens, f)
    → f.faults ≡ []
    → c.place ≡ place_after before
    → Placed before c.rest tokens
unfolding token_rounds StartsAt IsAt
rounds-Placed zero before c tokens f h q p = absurd (cc)
rounds-Placed (suc n) before c tokens f h q p = elim (round_cases n c tokens f h) [
  | inl (z, t, s) ↦
      subst (Placed before c.rest) (sym t)
        (last-Placed before c z (ap (λ e. e.faults) (sym s) ∙ q) p)
  | inr (z, (later, t, r)) ↦
      let d = here c in
      let e = behind c in
      let (q1, _) = (rounds-Clean n e later f r).taken q in
      let (q2, b) = (next_token-Clean d.place d).taken q1 in
      let (_, a) = (skip_trivia-Clean c).taken q2 in
      let here_at = place_further before a.word c.place d.place p a.place_walk in
      let behind_at =
        place_further (before ++ a.word) b.word d.place e.place here_at b.place_walk in
      let rest = rounds-Placed n ((before ++ a.word) ++ b.word) e later f r q behind_at in
      let whole = a.rest_split ∙ ap (λ r. a.word ++ r) b.rest_split in
      let at = next_token-StartsAt d.place d in
      let is_at : IsAt (before ++ a.word) (token_here c) =
        (at.0 ∙ ap (λ p. p.line) here_at, at.1 ∙ ap (λ p. p.col) here_at) in
      let no_trivia = ap settled (sym b.rest_split) ∙ skip_trivia-settled c in
      subst (Placed before c.rest) (sym t) (
        subst (λ r. Placed before r (token_here c ∷ later)) (sym whole)
          (next before a.word b.word e.rest (token_here c) later
            (subst (Trivia a.word) b.rest_split (gap_Trivia c q2 a)) no_trivia
            (token_takes c z q1 b) (lexeme_Spells c q1 b) is_at rest))
]

-- Where a source is lexed and no error is reported, the source is its tokens with gaps before them and
-- nothing else. Each gap is blanks and comments, as many as there are. Each token but the last is
-- spelled by the text at its place: a word or a number that is as long as it can be, a literal with
-- its quotes and escapes, or a sign of the lexer's table. The token's line and column, counted from 1,
-- are those at which that text starts. The last token is the end, at the source's end.
pub tokenize-Placed :
    (n : ℕ) (source : List ℕ) (tokens : List Token) (c : Cursor)
    → tokenize n source ≡ some (tokens, c)
    → c.faults ≡ []
    → Placed [] source tokens
unfolding tokenize walk
tokenize-Placed n source tokens c h q =
    rounds-Placed n [] (begin source) tokens c h q (walk_start [])
