-- ===== src/Lexer/Signs.antt =====
-- include/lexer.hpp: what the cases for punctuation take are characters that are there, and no newline.
use mathlib.Core.Path.{subst}
use munchkinglang.Prelude.{
  ℕ, ◌<◌, Bool, true, not, ◌&&◌, ◌||◌, Option, none, some, ◌≡◌, arith, ◌==◌, if_cases,
}
use munchkinglang.Lexer.Words.{TokenType, Payload}
use munchkinglang.Lexer.Scan.{Sign, punctuation}

-- A character that is neither a newline nor what `peek` gives past the end.
unfoldable pub solid : ℕ → Bool
solid x = not (x == 0) && not (x == b'\n')

-- A case takes one to three characters, of those that it has looked at.
unfoldable pub fits : ℕ → ℕ → ℕ → ℕ → Bool
unfolding solid
fits x y z n = solid x && (n == 1 || (solid y && (n == 2 || (solid z && n == 3))))

Fits : ℕ → ℕ → ℕ → Option Sign → Type 0
Fits x y z none = Unit
Fits x y z (some (n, _, _)) = fits x y z n ≡ true

punctuation-Fits : (x y z : ℕ) → Fits x y z (punctuation x y z)
unfolding punctuation Fits fits solid
punctuation-Fits x y z =
    let P = Fits x y z in
    if_cases (x == b'(') P (λ h. ground arith)
      (λ _.
        if_cases (x == b')') P (λ h. ground arith)
          (λ _.
            if_cases (x == b'{') P (λ h. ground arith)
              (λ _.
                if_cases (x == b'}') P (λ h. ground arith)
                  (λ _.
                    if_cases (x == b'[') P (λ h. ground arith)
                      (λ _.
                        if_cases (x == b']') P (λ h. ground arith)
                          (λ _.
                            if_cases (x == b',') P (λ h. ground arith)
                              (λ _.
                                if_cases (x == b';') P (λ h. ground arith)
                                  (λ _.
                                    if_cases (x == b'.') P (λ h. ground arith)
                                      (λ _.
                                        if_cases (x == b':' && y == b':') P (λ h. ground arith)
                                          (λ _.
                                            if_cases (x == b':' && y == b'=' && z == b'>') P
                                              (λ h. ground arith)
                                              (λ _.
                                                if_cases (x == b':') P (λ h. ground arith)
                                                  (λ _.
                                                    if_cases (x == b'+' && y == b'=') P
                                                      (λ h. ground arith)
                                                      (λ _.
                                                        if_cases (x == b'+') P (λ h. ground arith)
                                                          (λ _.
                                                            if_cases (x == b'-' && y == b'>') P
                                                            (λ h. ground arith)
                                                            (λ _.
                                                            if_cases (x == b'-') P
                                                            (λ h. ground arith)
                                                            (λ _.
                                                            if_cases (x == b'*') P
                                                            (λ h. ground arith)
                                                            (λ _.
                                                            if_cases (x == b'/') P
                                                            (λ h. ground arith)
                                                            (λ _.
                                                            if_cases (x == b'%') P
                                                            (λ h. ground arith)
                                                            (λ _.
                                                            if_cases (x == b'=' && y == b'=') P
                                                            (λ h. ground arith)
                                                            (λ _.
                                                            if_cases (x == b'=' && y == b'>') P
                                                            (λ h. ground arith)
                                                            (λ _.
                                                            if_cases (x == b'=') P
                                                            (λ h. ground arith)
                                                            (λ _.
                                                            if_cases (x == b'!' && y == b'=') P
                                                            (λ h. ground arith)
                                                            (λ _.
                                                            if_cases (x == b'!') P
                                                            (λ h. ground arith)
                                                            (λ _.
                                                            if_cases
                                                            (x == b'<' && y == b'=' && z == b':') P
                                                            (λ h. ground arith)
                                                            (λ _.
                                                            if_cases (x == b'<' && y == b'=') P
                                                            (λ h. ground arith)
                                                            (λ _.
                                                            if_cases (x == b'<' && y == b'-') P
                                                            (λ h. ground arith)
                                                            (λ _.
                                                            if_cases (x == b'<') P
                                                            (λ h. ground arith)
                                                            (λ _.
                                                            if_cases (x == b'>' && y == b'=') P
                                                            (λ h. ground arith)
                                                            (λ _.
                                                            if_cases (x == b'>') P
                                                            (λ h. ground arith)
                                                            (λ _.
                                                            if_cases (x == b'&' && y == b'&') P
                                                            (λ h. ground arith)
                                                            (λ _.
                                                            if_cases (x == b'&') P
                                                            (λ h. ground arith)
                                                            (λ _.
                                                            if_cases (x == b'|' && y == b'|') P
                                                            (λ h. ground arith)
                                                            (λ _.
                                                            if_cases (x == b'|') P
                                                            (λ h. ground arith)
                                                            (λ _.
                                                            if_cases (x == b'^') P
                                                            (λ h. ground arith)
                                                            (λ _.
                                                            if_cases (x == b'~') P
                                                            (λ h. ground arith)
                                                            (λ _.
                                                            tt))))))))))))))))))))))))))))))))))))

pub taken_fits :
    (x y z n : ℕ) (t : TokenType) (v : Payload)
    → punctuation x y z ≡ some (n, t, v)
    → fits x y z n ≡ true
unfolding Fits
taken_fits x y z n t v h = subst (Fits x y z) h (punctuation-Fits x y z)

pub fits-pos : (x y z n : ℕ) → fits x y z n ≡ true → 0 < n
unfolding fits
fits-pos x y z n h = ground arith
