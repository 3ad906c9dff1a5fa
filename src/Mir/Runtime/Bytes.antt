-- ===== src/Mir/Runtime/Bytes.antt =====
-- native/runtime/munx_value.c: the comparison of texts byte by byte.
use munchkinglang.Prelude.{ℕ, List, [], ◌∷◌, true, ◌≡◌, refl, arith}
use munchkinglang.Mir.Runtime.{same_bytes}

pub same_bytes_self : (xs : List ℕ) → same_bytes xs xs ≡ true
unfolding same_bytes
same_bytes_self [] = refl
same_bytes_self (x ∷ xs) = grind (arith, same_bytes_self xs)

pub same_bytes-path : (xs ys : List ℕ) → same_bytes xs ys ≡ true → xs ≡ ys
unfolding same_bytes
same_bytes-path [] [] h = refl
same_bytes-path [] (y ∷ ys) h = absurd (cc)
same_bytes-path (x ∷ xs) [] h = absurd (cc)
same_bytes-path (x ∷ xs) (y ∷ ys) h = grind (arith, same_bytes-path xs ys)
