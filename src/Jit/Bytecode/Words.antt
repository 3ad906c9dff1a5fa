-- ===== src/Jit/Bytecode/Words.antt =====
-- include/jit/bytecode_utils.hpp: numbers as bytes, the lowest first.
use munchkinglang.Prelude.{
  ℕ, zero, suc, ◌/◌, ◌^◌, ◌<◌, List, [], ◌∷◌, ◌++◌, true, ◌≡◌, arith, length,
}
use munchkinglang.Prelude.Int.{ℤ, pos, negsuc, to_word, of_word}
use munchkinglang.Mir.Runtime.{in_i64}
use munchkinglang.Jit.Bytecode.{number_of}
use munchkinglang.Jit.Bytecode.Insns.{low_bytes}

pub number_of-low_bytes : (n x : ℕ) → x < 256 ^ n → number_of (low_bytes n x) ≡ x
unfolding low_bytes
number_of-low_bytes zero x h = omega arith
number_of-low_bytes (suc n) x h =
    let fits : x / 256 < 256 ^ n = ground arith in
    let ih = number_of-low_bytes n (x / 256) fits in omega (arith, ih)

pub of_word-to_word : (z : ℤ) → in_i64 z ≡ true → of_word (to_word z) ≡ z
unfolding of_word to_word
of_word-to_word (pos n) h = ground (arith, h)
of_word-to_word (negsuc n) h = ground (arith, h)

pub to_word-lt : (z : ℤ) → in_i64 z ≡ true → to_word z < 2 ^ 64
unfolding to_word
to_word-lt (pos n) h = ground (arith, h)
to_word-lt (negsuc n) h = ground (arith, h)

pub of_word-in_i64 : (n : ℕ) → n < 2 ^ 64 → in_i64 (of_word n) ≡ true
unfolding of_word
of_word-in_i64 n h = ground (arith, h)

unfoldable pub AreBytes : List ℕ → Type 0
AreBytes [] = Unit
AreBytes (x ∷ xs) = (x < 256) × AreBytes xs

pub number_of-lt : (xs : List ℕ) → AreBytes xs → number_of xs < 256 ^ length xs
unfolding AreBytes
number_of-lt [] h = omega arith
number_of-lt (x ∷ xs) (less, h) = let ih = number_of-lt xs h in ground (arith, less, ih)

pub behind-AreBytes : (xs ys : List ℕ) → AreBytes (xs ++ ys) → AreBytes ys
unfolding AreBytes
behind-AreBytes [] ys h = h
behind-AreBytes (x ∷ xs) ys (less, h) = behind-AreBytes xs ys h

pub front-AreBytes : (xs ys : List ℕ) → AreBytes (xs ++ ys) → AreBytes xs
unfolding AreBytes
front-AreBytes [] ys h = tt
front-AreBytes (x ∷ xs) ys (less, h) = (less, front-AreBytes xs ys h)

unfoldable pub first_or : ℕ → List ℕ → ℕ
first_or x [] = x
first_or x (y ∷ ys) = y
