-- ===== src/Json/Escape.antt =====
-- include/analyze/json_util.hpp: JSON text for a string.
use munchkinglang.Prelude.{ℕ, ◌+◌, ◌-◌, ◌/◌, ◌%◌, List, [], ◌∷◌, ◌++◌, ltb, ◌==◌, if◌then◌else◌}

-- A digit of `%x`.
unfoldable pub hex_character : ℕ → ℕ
hex_character d = if ltb d 10 then b'0' + d else b'a' + (d - 10)

unfoldable pub escaped : ℕ → List ℕ
unfolding hex_character
escaped x =
    if x == b'"'
    then b'\\' ∷ b'"' ∷ []
    else if x == b'\\'
    then b'\\' ∷ b'\\' ∷ []
    else if x == 8
    then b'\\' ∷ b'b' ∷ []
    else if x == 12
    then b'\\' ∷ b'f' ∷ []
    else if x == b'\n'
    then b'\\' ∷ b'n' ∷ []
    else if x == b'\r'
    then b'\\' ∷ b'r' ∷ []
    else if x == b'\t'
    then b'\\' ∷ b't' ∷ []
    else if ltb x 0x20
    then b'\\' ∷ b'u' ∷ b'0' ∷ b'0' ∷ hex_character (x / 16) ∷ hex_character (x % 16) ∷ []
    else x ∷ []

-- The loop of `append_escaped`.
unfoldable pub append_each : List ℕ → List ℕ → List ℕ
unfolding escaped
append_each out [] = out
append_each out (x ∷ text) = append_each (out ++ escaped x) text

unfoldable pub append_escaped : List ℕ → List ℕ → List ℕ
unfolding append_each
append_escaped out text = append_each (out ++ (b'"' ∷ [])) text ++ (b'"' ∷ [])

unfoldable pub quote : List ℕ → List ℕ
unfolding append_escaped
quote text = append_escaped [] text
