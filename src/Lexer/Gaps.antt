-- ===== src/Lexer/Gaps.antt =====
-- include/lexer.hpp: what trivia is, said of the text alone, and that `skip_trivia` takes it.
use munchkinglang.Prelude.{
  ℕ, zero, suc, ◌≡◌, List, [], ◌∷◌, ◌++◌, Bool, true, false, not, ◌&&◌, ◌⊎◌, inl, inr, refl, sym,
  ap, ◌∙◌, arith, ◌==◌, length, drop, get_or, if_cases, elim_cases,
}
use mathlib.Core.Path.{subst}
use mathlib.Core.List.{append_assoc}
use munchkinglang.Lexer.{
  Cursor, eof, peek, advance, advance_no_newline, fail, skip_line, skip_block, end_block,
  skip_rounds, skip_trivia, is_blank,
}
use munchkinglang.Lexer.Places.{plain, advance-rest}
use munchkinglang.Lexer.Kept.{skip_rounds-Clean}
use munchkinglang.Lexer.Progress.{left}

-- No end of a block comment within a text.
unfoldable pub unclosed : List ℕ → Bool
unclosed [] = true
unclosed (x ∷ xs) = let more = unclosed xs in not (x == b'*' && get_or xs 0 0 == b'/') && more

-- A gap is blanks and comments. A line comment goes up to a newline, or to the end of the source,
-- where `after` follows the gap; a block comment up to the first `*/`.
pub data Trivia : List ℕ → List ℕ → Type 0 where
  done : (after : List ℕ) → Trivia [] after
  blank_char :
      (x : ℕ) (gap after : List ℕ) → is_blank x ≡ true → Trivia gap after → Trivia (x ∷ gap) after
  line :
      (words gap after : List ℕ)
      → plain words ≡ true
      → (get_or (gap ++ after) 0 b'\n' == b'\n') ≡ true
      → Trivia gap after
      → Trivia (b'/' ∷ b'/' ∷ (words ++ gap)) after
  block :
      (words gap after : List ℕ)
      → unclosed words ≡ true
      → Trivia gap after
      → Trivia (b'/' ∷ b'*' ∷ (words ++ (b'*' ∷ b'/' ∷ gap))) after

unfoldable pub Gap : List ℕ → List ℕ → Type 0
Gap rest after = (gap : List ℕ) × (rest ≡ gap ++ after) × Trivia gap after

LineTail : List ℕ → List ℕ → Type 0
LineTail rest after =
    (words : List ℕ) × (rest ≡ words ++ after)
    × (plain words ≡ true)
    × ((get_or after 0 b'\n' == b'\n') ≡ true)

BlockTail : List ℕ → List ℕ → Type 0
BlockTail rest after =
    (words : List ℕ) × (rest ≡ words ++ after)
    × (unclosed words ≡ true)
    × ((length after == 0) ≡ true ⊎ (get_or after 0 0 == b'*' && get_or after 1 0 == b'/') ≡ true)

skip_line-LineTail : (xs : List ℕ) (c : Cursor) → c.rest ≡ xs → LineTail xs ((skip_line xs c).rest)
unfolding skip_line LineTail plain
skip_line-LineTail [] c q = ([], sym q, refl, rw q refl)
skip_line-LineTail (x ∷ xs) c q =
    elim_cases (x == b'\n') (λ (e : Cursor). LineTail (x ∷ xs) e.rest)
      (λ h. ([], sym q, refl, rw q h))
      (λ h.
        let (words, split, p, n) =
          skip_line-LineTail xs (advance_no_newline 1 c) (unfold advance_no_newline in rw q refl) in
        (x ∷ words, ap (λ r. x ∷ r) split, rw (h, p) refl, n))

first_of :
    (words after : List ℕ)
    → (get_or (words ++ after) 0 0 == b'/') ≡ false
    → (get_or words 0 0 == b'/') ≡ false
first_of [] after h = refl
first_of (x ∷ words) after h = h

unclosed_more :
    (x : ℕ) (xs words after : List ℕ)
    → xs ≡ words ++ after
    → (x == b'*' && get_or xs 0 0 == b'/') ≡ false
    → unclosed words ≡ true
    → unclosed (x ∷ words) ≡ true
unfolding unclosed
unclosed_more x xs [] after split h u = ground arith
unclosed_more x xs (y ∷ words) after split h u =
    let same = ap (λ r. x == b'*' && get_or r 0 0 == b'/') split in
    let here = sym same ∙ h in ground (arith, here, u)

skip_block-BlockTail :
    (xs : List ℕ) (c : Cursor) → c.rest ≡ xs → BlockTail xs ((skip_block xs c).rest)
unfolding skip_block BlockTail unclosed
skip_block-BlockTail [] c q = ([], sym q, refl, inl (rw q refl))
skip_block-BlockTail (x ∷ xs) c q =
    elim_cases (x == b'*' && get_or xs 0 0 == b'/') (λ (e : Cursor). BlockTail (x ∷ xs) e.rest)
      (λ h. ([], sym q, refl, inr (rw q h)))
      (λ h.
        let (words, split, u, n) =
          skip_block-BlockTail xs (advance 1 c) (advance-rest 1 c ∙ rw q refl) in
        (x ∷ words, ap (λ r. x ∷ r) split, unclosed_more x xs words _ split h u, n))

blank-Gap :
    (rest after : List ℕ)
    → is_blank (get_or rest 0 0) ≡ true
    → Gap (drop 1 rest) after
    → Gap rest after
unfolding Gap
blank-Gap [] after b g = absurd (cc)
blank-Gap (x ∷ rest) after b (gap, split, t) =
    (x ∷ gap, ap (λ r. x ∷ r) split, blank_char x gap after b t)

pub two_of :
    (x y : ℕ) (rest : List ℕ)
    → (x == 0) ≡ false
    → (y == 0) ≡ false
    → (get_or rest 0 0 == x && get_or rest 1 0 == y) ≡ true
    → rest ≡ x ∷ y ∷ drop 2 rest
two_of x y [] p q h = absurd (ground arith)
two_of x y (z ∷ []) p q h = absurd (ground arith)
two_of x y (z ∷ w ∷ rest) p q h = ground arith

line-Gap :
    (rest mid after : List ℕ)
    → (get_or rest 0 0 == b'/' && get_or rest 1 0 == b'/') ≡ true
    → LineTail (drop 2 rest) mid
    → Gap mid after
    → Gap rest after
unfolding Gap LineTail
line-Gap rest mid after h (words, split, p, n) (gap, split', t) = (
  b'/' ∷ b'/' ∷ (words ++ gap),
  two_of b'/' b'/' rest refl refl h
      ∙ ap (λ r. b'/' ∷ b'/' ∷ r)
          (split ∙ ap (λ r. words ++ r) split' ∙ sym (append_assoc words gap after)),
  line words gap after p (ap (λ r. get_or r 0 b'\n' == b'\n') (sym split') ∙ n) t,
)

block-Gap :
    (rest mid after : List ℕ)
    → (get_or rest 0 0 == b'/' && get_or rest 1 0 == b'*') ≡ true
    → BlockTail (drop 2 rest) mid
    → (length mid == 0) ≡ false
    → Gap (drop 2 mid) after
    → Gap rest after
unfolding Gap BlockTail
block-Gap rest mid after h (words, split, u, inl z) e g = absurd (cc)
block-Gap rest mid after h (words, split, u, inr k) e (gap, split', t) =
    let close = two_of b'*' b'/' mid refl refl k ∙ ap (λ r. b'*' ∷ b'/' ∷ r) split' in
    (
      b'/' ∷ b'*' ∷ (words ++ (b'*' ∷ b'/' ∷ gap)),
      two_of b'/' b'*' rest refl refl h
          ∙ ap (λ r. b'/' ∷ b'*' ∷ r)
              (split
                ∙ ap (λ r. words ++ r) close
                ∙ sym (append_assoc words (b'*' ∷ b'/' ∷ gap) after)),
      block words gap after u t,
    )

end_block-rest :
    (d : Cursor)
    → (end_block d).faults ≡ []
    → ((end_block d).rest ≡ drop 2 d.rest) × (eof d ≡ false)
unfolding end_block fail advance_no_newline
end_block-rest d q =
    if_cases (eof d)
      (λ e.
        (advance_no_newline 2 e).faults ≡ []
        → ((advance_no_newline 2 e).rest ≡ drop 2 d.rest) × (eof d ≡ false))
      (λ h f. absurd (cc)) (λ h f. (refl, h)) q

no-Gap : (rest : List ℕ) → Gap rest rest
unfolding Gap
no-Gap rest = ([], refl, done rest)

skip_rounds-Gap :
    (n : ℕ) (c : Cursor) → (skip_rounds n c).faults ≡ [] → Gap c.rest ((skip_rounds n c).rest)
unfolding skip_rounds eof
skip_rounds-Gap zero c f = no-Gap c.rest
skip_rounds-Gap (suc n) c f =
    let d = advance_no_newline 2 c in
    let P = λ (e : Cursor). e.faults ≡ [] → Gap c.rest e.rest in
    let stop : P c = λ f. no-Gap c.rest in
    elim_cases (eof c) P (λ _. stop)
      (λ e.
        elim_cases (is_blank (peek c 0)) P
          (λ b f. blank-Gap c.rest _ b (
            subst (λ r. Gap r ((skip_rounds n (advance 1 c)).rest)) (advance-rest 1 c)
              (skip_rounds-Gap n (advance 1 c) f)))
          (λ b.
            elim_cases (peek c 0 == b'/' && peek c 1 == b'/') P
              (λ l f.
                line-Gap c.rest _ _ l (skip_line-LineTail (d.rest) d refl)
                  (skip_rounds-Gap n (skip_line d.rest d) f))
              (λ l.
                elim_cases (peek c 0 == b'/' && peek c 1 == b'*') P
                  (λ k f.
                    let g = skip_block d.rest d in
                    let (q, _) = (skip_rounds-Clean n (end_block g)).taken f in
                    let (r, m) = end_block-rest g q in
                    block-Gap c.rest _ _ k (skip_block-BlockTail d.rest d refl) m (
                      subst (λ s. Gap s ((skip_rounds n (end_block g)).rest)) r
                        (skip_rounds-Gap n (end_block g) f)))
                  (λ k. stop))))
      f

-- Where `skip_trivia` reports nothing, what it takes is trivia.
pub skip_trivia-Gap : (c : Cursor) → (skip_trivia c).faults ≡ [] → Gap c.rest ((skip_trivia c).rest)
unfolding skip_trivia
skip_trivia-Gap c f = skip_rounds-Gap (left c) c f
