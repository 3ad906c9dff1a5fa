-- ===== src/Lexer/Places.antt =====
-- include/lexer.hpp: line and column. What the lexer's position says, written without a cursor, and
-- when a part of the lexer keeps it.
use mathlib.Core.List.{append_assoc}
use munchkinglang.Prelude.{
  ℕ, zero, suc, ◌+◌, ◌≤◌, List, [], ◌∷◌, ◌++◌, Bool, true, false, not, ◌||◌, ◌≡◌, refl, sym, ap,
  ◌∙◌, arith, ◌==◌, if◌then◌else◌, length, take, drop, take-append-drop, length-take,
}
use munchkinglang.Lexer.{Place, Fault, Cursor, walk_char, advance_over, advance, advance_no_newline}

-- The place that is reached over some text.
unfoldable pub walk : List ℕ → Place → Place
unfolding walk_char
walk [] p = p
walk (x ∷ xs) p = walk xs (walk_char x p)

-- How many lines a text ends, and how many characters it has behind the last newline.
unfoldable pub newlines : List ℕ → ℕ
newlines [] = 0
newlines (x ∷ xs) = let more = newlines xs in if x == b'\n' then suc more else more

unfoldable pub last_line : List ℕ → ℕ
unfolding newlines
last_line [] = 0
last_line (x ∷ xs) =
    let more = last_line xs in if x == b'\n' || not (newlines xs == 0) then more else suc more

-- The place behind a text that the source begins with.
unfoldable pub place_after : List ℕ → Place
unfolding newlines last_line
place_after before = record { line = 1 + newlines before; col = 1 + last_line before }

pub walk-++ : (xs ys : List ℕ) (p : Place) → walk (xs ++ ys) p ≡ walk ys (walk xs p)
unfolding walk
walk-++ [] ys p = refl
walk-++ (x ∷ xs) ys p = walk-++ xs ys (walk_char x p)

same_place : (p q : Place) → p.line ≡ q.line → p.col ≡ q.col → p ≡ q
same_place p q h k = λ i. record { line = h i; col = k i }

walk_from :
    (xs : List ℕ) (p : Place)
    → walk xs p ≡ record {
      line = p.line + newlines xs;
      col = if newlines xs == 0 then p.col + last_line xs else 1 + last_line xs;
    }
unfolding walk newlines last_line walk_char
walk_from [] p = same_place _ _ (omega arith) (omega arith)
walk_from (x ∷ xs) p = walk_from xs (walk_char x p) ∙ same_place _ _ (ground arith) (ground arith)

pub walk_start : (xs : List ℕ) → walk xs (record { line = 1; col = 1 }) ≡ place_after xs
unfolding place_after
walk_start xs = walk_from xs (record { line = 1; col = 1 }) ∙ same_place _ _ refl (ground arith)

-- No newline.
unfoldable pub plain : List ℕ → Bool
plain [] = true
plain (x ∷ xs) = let more = plain xs in if x == b'\n' then false else more

pub walk_line :
    (xs : List ℕ) (p : Place)
    → plain xs ≡ true
    → walk xs p ≡ record { line = p.line; col = p.col + length xs }
unfolding walk plain walk_char
walk_line [] p h = same_place _ _ (omega arith) (omega arith)
walk_line (x ∷ xs) p h =
    let same = walk_line xs (walk_char x p) (ground arith) in
    same ∙ same_place _ _ (ground arith) (ground arith)

pub record Advances (c d : Cursor) : Type 0 where
  pub word : List ℕ
  pub rest_split : c.rest ≡ word ++ d.rest
  pub place_walk : d.place ≡ walk word c.place

-- A part of the lexer that reports nothing, and takes text with its place kept.
pub record Clean (c d : Cursor) : Type 0 where
  pub taken : d.faults ≡ [] → (c.faults ≡ []) × Advances c d

pub Clean-refl : (c : Cursor) → Clean c c
unfolding walk
Clean-refl c = record {
  taken = λ q. (q, record { word = []; rest_split = refl; place_walk = refl });
}

Advances-trans : (c d e : Cursor) → Advances c d → Advances d e → Advances c e
Advances-trans c d e a b = record {
  word = a.word ++ b.word;
  rest_split =
      a.rest_split ∙ ap (λ r. a.word ++ r) b.rest_split ∙ sym (append_assoc a.word b.word e.rest);
  place_walk = b.place_walk ∙ ap (walk b.word) a.place_walk ∙ sym (walk-++ a.word b.word c.place);
}

pub Clean-trans : {c d e : Cursor} → Clean c d → Clean d e → Clean c e
Clean-trans {c} {d} {e} a b = record {
  taken = λ q. let (r, f) = b.taken q in let (t, g) = a.taken r in (t, Advances-trans c d e g f);
}

-- Nothing is promised of a cursor that has errors.
pub Clean-faulty :
    (c d : Cursor) (x : Fault) (faults : List Fault) → d.faults ≡ x ∷ faults → Clean c d
Clean-faulty c d x faults e = record { taken = λ q. absurd (cc) }

pub advance_over-rest :
    (n : ℕ) (rest : List ℕ) (c : Cursor) → (advance_over n rest c).rest ≡ drop n rest
unfolding advance_over
advance_over-rest zero rest c = refl
advance_over-rest (suc n) [] c = refl
advance_over-rest (suc n) (x ∷ rest) c = advance_over-rest n rest _

advance_over-place :
    (n : ℕ) (rest : List ℕ) (c : Cursor)
    → (advance_over n rest c).place ≡ walk (take n rest) c.place
unfolding advance_over walk
advance_over-place zero rest c = refl
advance_over-place (suc n) [] c = refl
advance_over-place (suc n) (x ∷ rest) c = advance_over-place n rest _

advance_over-faults :
    (n : ℕ) (rest : List ℕ) (c : Cursor) → (advance_over n rest c).faults ≡ c.faults
unfolding advance_over
advance_over-faults zero rest c = refl
advance_over-faults (suc n) [] c = refl
advance_over-faults (suc n) (x ∷ rest) c = advance_over-faults n rest _

pub advance-Clean : (n : ℕ) (c : Cursor) → Clean c (advance n c)
unfolding advance
advance-Clean n c = record {
  taken = λ q. (
    sym (advance_over-faults n c.rest c) ∙ q,
    record {
      word = take n c.rest;
      rest_split =
          sym (
            ap (λ r. take n c.rest ++ r) (advance_over-rest n c.rest c)
            ∙ take-append-drop n c.rest);
      place_walk = advance_over-place n c.rest c;
    },
  );
}

-- What `advance_no_newline` needs: as many characters, and no newline among them.
pub advance_no_newline-Clean :
    (n : ℕ) (c : Cursor)
    → n ≤ length c.rest
    → plain (take n c.rest) ≡ true
    → Clean c (advance_no_newline n c)
unfolding advance_no_newline
advance_no_newline-Clean n c h k = record {
  taken = λ q. (
    q,
    record {
      word = take n c.rest;
      rest_split = sym (take-append-drop n c.rest);
      place_walk = sym (
          walk_line (take n c.rest) c.place k
          ∙ same_place _ _ refl (omega (arith, length-take n c.rest)));
    },
  );
}

pub advance-rest : (n : ℕ) (c : Cursor) → (advance n c).rest ≡ drop n c.rest
unfolding advance
advance-rest n c = advance_over-rest n c.rest c
