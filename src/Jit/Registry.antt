-- ===== src/Jit/Registry.antt =====
-- include/jit/execution_profile.hpp: the keys of `profile_registry`. Its map is left out.
use Prim.Native.Nat.{bit_xor}
use mathlib.Core.Bool.{not}
use mathlib.Core.Path.{subst}
use munchkinglang.Prelude.{
  ℕ, ◌+◌, ◌*◌, ◌/◌, ◌%◌, ◌^◌, List, [], ◌∷◌, Bool, true, false, ◌≡◌, ◌↔◌, refl, arith, ◌==◌,
  if◌then◌else◌, length,
}

-- `bytecode_profile_key`: the bytes that `data` and `size` span when keys are compared or hashed.
abbrev pub ProfileKey : Type 0
ProfileKey = List ℕ

-- The loop of `operator==`.
unfoldable pub same_data : ProfileKey → ProfileKey → Bool
same_data (x ∷ xs) (y ∷ ys) = if not (x == y) then false else same_data xs ys
same_data _ _ = true

unfoldable pub same_key : ProfileKey → ProfileKey → Bool
same_key a b = if not (length a == length b) then false else same_data a b

-- The loop of the hash, on a 64-bit `size_t`.
unfoldable pub hash_from : ℕ → ProfileKey → ℕ
hash_from hash [] = hash
hash_from hash (x ∷ xs) =
    hash_from (bit_xor hash ((x + 2654435769 + hash * 2 ^ 6 % 2 ^ 64 + hash / 2 ^ 2) % 2 ^ 64)) xs

unfoldable pub hash_key : ProfileKey → ℕ
unfolding hash_from
hash_key key = hash_from (length key) key

same_data-path : (a b : ProfileKey) → length a ≡ length b → same_data a b ≡ true → a ≡ b
unfolding same_data
same_data-path [] [] n h = refl
same_data-path [] (y ∷ ys) n h = absurd (omega arith)
same_data-path (x ∷ xs) [] n h = absurd (omega arith)
same_data-path (x ∷ xs) (y ∷ ys) n h = grind (arith, same_data-path xs ys)

same_data_self : (a : ProfileKey) → same_data a a ≡ true
unfolding same_data
same_data_self [] = refl
same_data_self (x ∷ xs) = grind (arith, same_data_self xs)

-- Two keys are the same exactly when they hold the same bytes.
pub same_key_iff : (a b : ProfileKey) → (same_key a b ≡ true) ↔ (a ≡ b)
unfolding same_key
same_key_iff a b = (
  λ h. same_data-path a b (ground arith) (ground arith),
  λ e. subst (λ k. same_key a k ≡ true) e (grind (arith, same_data_self a)),
)
